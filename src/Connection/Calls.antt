-- ===== src/Connection/Calls.antt =====
-- The method frames that `_sendMethod` of lib/connection.js writes, and `_parseMethodFrame` of
-- lib/parser.js at the other end.
use node_amqp.Prelude.{
  ℕ, ◌+◌, ◌<◌, ◌≤◌, ◌≡◌, refl, sym, ap, ◌∙◌, arith, inl, inr, List, [], ◌++◌, append-nil,
  append_assoc, length, subst, some, ℤ, pos,
}
use node_amqp.Js.{to_uint32}
use node_amqp.Result.{ok}
use node_amqp.Values.{Value, Text, Platform, IsFaithful}
use node_amqp.Definitions.Tables.{Method, Tables, get_method}
use node_amqp.Serializer.Buffer.{Buffer}
use node_amqp.Serializer.Ints.{int_bytes}
use node_amqp.Serializer.Fields.{Args}
use node_amqp.Serializer.FieldFormat.{AreParams, Holds, format_fields}
use node_amqp.Parser.Cursor.{past}
use node_amqp.Parser.Ints.{parse_int}
use node_amqp.Parser.Frames.{Outcome, header, running, execute, dispatch, Handlers}
use node_amqp.Parser.Stream.{feed_all}
use node_amqp.Parser.Chunks.{execute-feed_all}
use node_amqp.Parser.Fields.{parse_fields, parse_loop}
use node_amqp.Parser.Methods.{
  Callbacks, method_ids, find_method, with_args, with_ids, with_method, parse_method_frame,
  frame_handlers,
}
use node_amqp.RoundTrip.Ints.{wire_value, parse_int-int_bytes}
use node_amqp.RoundTrip.Reads.{Reads, then-Reads, map-Reads}
use node_amqp.RoundTrip.Octets.{AreShort, fresh-HoldsBits}
use node_amqp.RoundTrip.Fields.{received_fields, AreReadableParams, loop-Reads}
use node_amqp.Connection.Frame.{
  wire_frame, length-wire_frame, frame_info, on_return, feed_all-wire_frame,
}
use node_amqp.Connection.Methods.{method_bytes, send_method, send_method-wire_frame}

wire_id : (n : ℕ) → n ≤ 0xffff → wire_value 2 (pos n) ≡ pos n
unfolding wire_value to_uint32
wire_id n l = ground arith

pub id-Reads : (n : ℕ) → n ≤ 0xffff → Reads (parse_int 2) (int_bytes 2 (pos n)) (pos n)
id-Reads n l =
    subst (Reads (parse_int 2) (int_bytes 2 (pos n))) (wire_id n l)
      (record { run = λ front back. parse_int-int_bytes 2 (pos n) front back (inr (inl refl)) })

pub ids-Reads :
    (c m : ℕ)
    → c ≤ 0xffff
    → m ≤ 0xffff
    → Reads method_ids (int_bytes 2 (pos c) ++ int_bytes 2 (pos m)) (pos c, pos m)
unfolding method_ids
ids-Reads c m k l = then-Reads _ (id-Reads c k) (map-Reads (λ x. (pos c, x)) (id-Reads m l))

module _ (p : Platform) (IsWellFormed : Text → Type 0) (faithful : IsFaithful p IsWellFormed)
    (fuel : ℕ) (tables : Tables) {S : Type 0} (h : Callbacks p.Double S) where
  open p use {Double}

  -- What the round trip of a method asks of it and of its parameters.
  pub record CanTravel (m : Method) (vs : List (Value Double)) : Type 0 where
    pub known : get_method m.class_index m.method_index tables.method_table ≡ some m
    pub small_class : m.class_index ≤ 0xffff
    pub small_method : m.method_index ≤ 0xffff
    pub params : AreParams p m.fields vs
    pub readable : AreReadableParams p IsWellFormed fuel m.fields vs
    pub few_bits : AreShort m.fields vs

  parse_method_frame-method_bytes :
      (s : S) (channel : ℤ) (m : Method) (vs : List (Value Double))
      → CanTravel m vs
      → parse_method_frame p fuel tables h s channel (method_bytes p m vs)
        ≡ h.on_method s channel m (received_fields m.fields vs)
  unfolding parse_method_frame with_ids with_method find_method parse_fields
  parse_method_frame-method_bytes s channel m vs t =
      let ids = int_bytes 2 (pos m.class_index) ++ int_bytes 2 (pos m.method_index) in
      let fields = format_fields p m.fields vs (pos 0) 0 in
      let first = ids-Reads m.class_index m.method_index t.small_class t.small_method in
      let second =
        loop-Reads p IsWellFormed faithful fuel m.fields vs (pos 0) 0 t.params t.readable t.few_bits
          (λ _. (refl, refl)) (fresh-HoldsBits m.fields vs t.few_bits) in
      let read : parse_loop p fuel m.fields 0 (past ids fields)
          ≡ ok (received_fields m.fields vs, past (ids ++ fields) []) =
        ap (λ (l : List ℕ). parse_loop p fuel m.fields 0 (past ids l)) (sym (append-nil fields))
        ∙ second.run ids [] in
      ap
        (λ (l : List ℕ).
          with_ids p fuel tables h s channel (method_ids (record { mem = l; read = 0 })))
        (sym (
          append_assoc (int_bytes 2 (pos m.class_index)) (int_bytes 2 (pos m.method_index)) fields))
      ∙ (ap (with_ids p fuel tables h s channel) (first.run [] fields)
          ∙ rw t.known (ap (with_args p fuel tables h s channel m) read))

  module _ (max_frame_buffer : S → ℕ) (on_content : S → ℤ → List ℕ → Outcome S)
      (on_heartbeat : S → Outcome S) where
    abbrev pub other_end : Handlers S
    other_end = frame_handlers p fuel tables h max_frame_buffer on_content on_heartbeat

    called :
        (s : S) (channel : ℕ) (m : Method) (vs : List (Value Double))
        → CanTravel m vs
        → on_return other_end
            (dispatch other_end s
              (frame_info other_end 1 channel (method_bytes p m vs))
              (method_bytes p m vs))
            (λ u. feed_all other_end (running (header []) u) [])
          ≡ on_return other_end
              (h.on_method s (pos channel) m (received_fields m.fields vs))
              (λ u. running (header []) u)
    unfolding dispatch feed_all
    called s channel m vs t =
        ap (λ (o : Outcome S). on_return other_end o (λ u. running (header []) u))
          (parse_method_frame-method_bytes s (pos channel) m vs t)

    -- A method that is known at the other end, with parameters for every field that suit the
    -- fields and are readable there (well-formed texts, lengths below 2^31, exact numbers, no
    -- table that ends in an entry of at most four bytes, and enough fuel for the tables), at most
    -- eight bits in a row, a channel of at most 65535, and a frame that fits into 31 bits, the
    -- other end's limit and the buffer: _sendMethod gives bytes to the socket on which a waiting
    -- parser calls onMethod with the channel, the method and its fields' names with the values
    -- that are received, and then waits for the next frame, unless that call throws. What is
    -- received is a long or a timestamp as the 32-bit integer of its low word, a table as its
    -- entries arrive, and every other value unchanged.
    pub send_method-execute :
        (channel : ℕ) (m : Method) (args : Args Double) (vs : List (Value Double)) (b : Buffer)
        (s : S)
        → CanTravel m vs
        → Holds p args m.fields vs
        → channel ≤ 0xffff
        → length (method_bytes p m vs) < 0x8000_0000
        → length (method_bytes p m vs) ≤ max_frame_buffer s
        → length (method_bytes p m vs) + 8 ≤ length b.mem
        → (bytes : List ℕ) × (c : Buffer) × (send_method p (pos channel) m args b ≡ ok (bytes, c))
          × (execute other_end (header []) s bytes
              ≡ on_return other_end
                  (h.on_method s (pos channel) m (received_fields m.fields vs))
                  (λ t. running (header []) t))
    send_method-execute channel m args vs b s t held l small fits room =
        let size = length-wire_frame 1 (pos channel) (method_bytes p m vs) in
        let (c, sent) =
          send_method-wire_frame p (pos channel) m args vs b held t.params (omega arith) in
        let bytes = wire_frame 1 (pos channel) (method_bytes p m vs) in
        let (run, _) = execute-feed_all other_end (header []) s bytes (omega arith) in
        (
          bytes,
          c,
          sent,
          run
              ∙ (ap (feed_all other_end (running (header []) s)) (sym (append-nil bytes))
                  ∙ (feed_all-wire_frame other_end 1 channel (method_bytes p m vs) s [] l small fits
                      ∙ called s channel m vs t)),
        )

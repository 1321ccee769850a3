-- ===== src/Connection/Contents.antt =====
-- What `_parseHeaderFrame` of lib/parser.js makes of a header frame of `_sendHeader` of
-- lib/connection.js.
use node_amqp.Prelude.{
  ℕ, ◌+◌, ◌<◌, ◌≤◌, ◌≡◌, refl, sym, ap, ◌∙◌, arith, inl, inr, Bool, false, List, [], ◌∷◌, ◌++◌,
  append-nil, append_assoc, length, subst, Option, none, some, ◌==◌, le→ltb_false, ℤ, pos,
}
use node_amqp.Result.{ok}
use node_amqp.Values.{Value, Text, Platform, IsFaithful}
use node_amqp.Definitions.Info.{Domain, Field, ClassInfo, bit}
use node_amqp.Definitions.Tables.{Tables, lookup}
use node_amqp.Serializer.Ints.{int_bytes}
use node_amqp.Serializer.Fields.{Args, is_bit}
use node_amqp.Serializer.FieldFormat.{format_fields}
use node_amqp.Parser.Cursor.{past}
use node_amqp.Parser.Ints.{parse_int}
use node_amqp.Parser.Frames.{Outcome, header, running, execute, dispatch, Handlers}
use node_amqp.Parser.Stream.{feed_all}
use node_amqp.Parser.Chunks.{execute-feed_all}
use node_amqp.Parser.Fields.{parse_fields, parse_loop}
use node_amqp.Parser.Methods.{
  Callbacks, header_ids, flagged, with_header_ids, with_class, with_properties, parse_properties,
  parse_header_frame, frame_handlers,
}
use node_amqp.RoundTrip.Ints.{wire_value, parse_int-int_bytes}
use node_amqp.RoundTrip.Reads.{Reads, then-Reads, map-Reads, to_int32_small, int8-Reads}
use node_amqp.RoundTrip.Octets.{run, run_head, AreShort, fresh-HoldsBits}
use node_amqp.RoundTrip.Fields.{received_fields, AreReadableParams, loop-Reads}
use node_amqp.RoundTrip.Flags.{flagged-flags_of}
use node_amqp.Connection.Frame.{wire_frame, frame_info, on_return, feed_all-wire_frame}
use node_amqp.Connection.Headers.{property_flags, send_header, with_defaults}
use node_amqp.Connection.Properties.{
  sent_field, sent_value, sent_fields, sent_values, AreProperties, presence,
  property_flags-presence, length-presence, chosen-presence, sent-AreParams, header_bytes,
  send_header-wire_frame,
}
use node_amqp.Connection.Calls.{id-Reads}

module _ (p : Platform) where
  open p use {Double}

  no_run :
      (f : Field) (o : Option (Value Double)) (gs : List Field) (vs : List (Value Double))
      → is_bit f.domain ≡ false
      → AreShort gs vs
      → AreShort (sent_field p o f gs) (sent_value p o vs)
  no_run f none gs vs plain h = h
  no_run f (some v) gs vs plain h = (rw (no_bits f.domain v (run gs vs) plain) (omega arith), h)
    where
      no_bits :
          (d : Domain) (v : Value Double) (bs : List Bool) → is_bit d ≡ false → run_head d v bs ≡ []
      no_bits bit v bs e = cc
      no_bits _ v bs e = refl

  sent-AreShort :
      (properties : Args Double) (fs : List Field)
      → AreProperties p properties fs
      → AreShort (sent_fields p properties fs) (sent_values p properties fs)
  sent-AreShort properties [] h = tt
  sent-AreShort properties (f ∷ fs) (plain, _, h) =
      no_run f _ _ _ plain (sent-AreShort properties fs h)

  ids-Reads :
      (index size : ℕ)
      → index ≤ 0xffff
      → size < 0x8000_0000
      → Reads header_ids
          (int_bytes 2 (pos index) ++ (int_bytes 2 (pos 0) ++ int_bytes 8 (pos size)))
          (pos index, pos 0, pos size)
  unfolding header_ids parse_int
  ids-Reads index size l m = then-Reads _ (id-Reads index l) (
      then-Reads _ (id-Reads 0 (omega arith)) (
        map-Reads (λ n. (pos index, pos 0, n))
          (rw (to_int32_small size m) at (int8-Reads (pos size)))))

module _ (p : Platform) (IsWellFormed : Text → Type 0) (faithful : IsFaithful p IsWellFormed)
    (fuel : ℕ) (tables : Tables) {S : Type 0} (h : Callbacks p.Double S) where
  open p use {Double}

  -- What the round trip of the properties of a content asks of them.
  pub record CanDescribe (info : ClassInfo) (properties : Args Double) : Type 0 where
    pub known : lookup ◌==◌ info.index tables.classes ≡ some info
    pub small : info.index ≤ 0xffff
    pub few_fields : length info.fields ≤ 14
    pub suitable : AreProperties p properties info.fields
    pub readable :
        AreReadableParams p IsWellFormed fuel
          (sent_fields p properties info.fields)
          (sent_values p properties info.fields)

  -- The properties that arrive.
  abbrev pub received_properties : ClassInfo → Args Double → Args Double
  received_properties info properties =
      received_fields (sent_fields p properties info.fields) (sent_values p properties info.fields)

  flags-Reads :
      (info : ClassInfo) (properties : Args Double)
      → CanDescribe info properties
      → Reads
          (parse_properties p fuel tables h info)
          (int_bytes 2 (property_flags p properties (pos 0) 0 info.fields)
            ++ format_fields p
                (sent_fields p properties info.fields)
                (sent_values p properties info.fields)
                (pos 0)
                0)
          (received_properties info properties)
  unfolding parse_properties parse_fields
  flags-Reads info properties t =
      then-Reads (λ w. parse_fields p fuel (flagged w 0 info.fields))
        (record { run = λ front back. parse_int-int_bytes 2 flags front back (inr (inl refl)) })
        (subst
          (λ (fs : List Field).
            Reads (parse_loop p fuel fs 0) bytes (received_properties info properties))
          (sym fields_chosen)
          (loop-Reads p IsWellFormed faithful fuel _ _ (pos 0) 0
            (sent-AreParams p properties info.fields t.suitable) t.readable few (λ _. (refl, refl))
            (fresh-HoldsBits _ _ few)))
    where
      flags : ℤ
      flags = property_flags p properties (pos 0) 0 info.fields

      bytes : List ℕ
      bytes =
          format_fields p (sent_fields p properties info.fields)
            (sent_values p properties info.fields) (pos 0) 0

      few : AreShort (sent_fields p properties info.fields) (sent_values p properties info.fields)
      few = sent-AreShort p properties info.fields t.suitable

      fields_chosen :
          flagged (wire_value 2 flags) 0 info.fields ≡ sent_fields p properties info.fields
      fields_chosen =
          ap (λ z. flagged (wire_value 2 z) 0 info.fields)
            (property_flags-presence p properties info.fields (pos 0) 0)
          ∙ (flagged-flags_of (presence p properties info.fields) info.fields
                (length-presence p properties info.fields)
                (subst (λ n. n ≤ 14) (sym (length-presence p properties info.fields)) t.few_fields)
              ∙ chosen-presence p properties info.fields t.suitable)

  parse_header_frame-header_bytes :
      (s : S) (channel : ℤ) (info : ClassInfo) (size : ℕ) (properties : Args Double)
      → CanDescribe info properties
      → size < 0x8000_0000
      → parse_header_frame p fuel tables h s channel (header_bytes p info size properties)
        ≡ h.on_content_header s channel info
            (pos 0)
            (received_properties info properties)
            (pos size)
  unfolding parse_header_frame with_header_ids with_class
  parse_header_frame-header_bytes s channel info size properties t m =
      let a = int_bytes 2 (pos info.index) in
      let b = int_bytes 2 (pos 0) in
      let c = int_bytes 8 (pos size) in
      let ids = a ++ (b ++ c) in
      let rest =
        int_bytes 2 (property_flags p properties (pos 0) 0 info.fields)
        ++ format_fields p (sent_fields p properties info.fields)
            (sent_values p properties info.fields) (pos 0) 0 in
      let grouped : header_bytes p info size properties ≡ ids ++ rest =
        sym (append_assoc a (b ++ c) rest ∙ ap (λ (l : List ℕ). a ++ l) (append_assoc b c rest)) in
      let first = ids-Reads p info.index size t.small m in
      let second = flags-Reads info properties t in
      let read : parse_properties p fuel tables h info (past ids rest)
          ≡ ok (received_properties info properties, past (ids ++ rest) []) =
        ap (λ (l : List ℕ). parse_properties p fuel tables h info (past ids l))
          (sym (append-nil rest))
        ∙ second.run ids [] in
      ap
        (λ (l : List ℕ).
          with_header_ids p fuel tables h s channel (header_ids (record { mem = l; read = 0 })))
        grouped
      ∙ (ap (with_header_ids p fuel tables h s channel) (first.run [] rest)
          ∙ rw (t.known, le→ltb_false 15 (length info.fields) (omega (arith, t.few_fields)))
              (ap (with_properties p fuel tables h s channel info (pos 0) (pos size)) read))

  module _ (max_frame_size : S → ℕ) (on_content : S → ℤ → List ℕ → Outcome S)
      (on_heartbeat : S → Outcome S) where
    abbrev pub reader : Handlers S
    reader = frame_handlers p fuel tables h max_frame_size on_content on_heartbeat

    called :
        (s : S) (channel : ℕ) (info : ClassInfo) (size : ℕ) (properties : Args Double)
        → CanDescribe info properties
        → size < 0x8000_0000
        → on_return reader
            (dispatch reader s
              (frame_info reader 2 channel (header_bytes p info size properties))
              (header_bytes p info size properties))
            (λ u. feed_all reader (running (header []) u) [])
          ≡ on_return reader
              (h.on_content_header s
                (pos channel)
                info
                (pos 0)
                (received_properties info properties)
                (pos size))
              (λ u. running (header []) u)
    unfolding dispatch feed_all
    called s channel info size properties t m =
        ap (λ (o : Outcome S). on_return reader o (λ u. running (header []) u))
          (parse_header_frame-header_bytes s (pos channel) info size properties t m)

    -- The properties of a content, contentType set if it is missing, that suit their fields, are
    -- not falsy and are readable there (well-formed texts, lengths below 2^31, exact numbers, no
    -- table that ends in an entry of at most four bytes, and enough fuel for the tables), in a
    -- class of index 60 that the other end knows and that has at most 14 properties, none of them
    -- a bit, with a body of fewer than 2^31 bytes, a channel of at most 65535, a buffer of fewer
    -- than 2^31 bytes with room, and a frame within the other end's limit: _sendHeader gives bytes
    -- to the socket on which a waiting parser calls onContentHeader with the channel, the class,
    -- the weight 0, the properties that are received and the size, and then waits for the next
    -- frame, unless that call throws. What is received is a long or a timestamp as the 32-bit
    -- integer of its low word, a table as its entries arrive, and every other value unchanged.
    pub send_header-execute :
        (memory : ℕ → List ℕ) (max_frame_buffer : ℕ) (properties : Args Double) (info : ClassInfo)
        (channel size : ℕ) (s : S)
        → length (memory max_frame_buffer) ≡ max_frame_buffer
        → max_frame_buffer < 0x8000_0000
        → info.index ≡ 60
        → CanDescribe info (with_defaults p properties)
        → size < 0x8000_0000
        → channel ≤ 0xffff
        → length (header_bytes p info size (with_defaults p properties)) + 8 ≤ max_frame_buffer
        → length (header_bytes p info size (with_defaults p properties)) ≤ max_frame_size s
        → (bytes : List ℕ) × (send_header p memory max_frame_buffer tables
              (pos channel)
              size
              properties
            ≡ ok bytes)
          × (execute reader (header []) s bytes
              ≡ on_return reader
                  (h.on_content_header s
                    (pos channel)
                    info
                    (pos 0)
                    (received_properties info (with_defaults p properties))
                    (pos size))
                  (λ u. running (header []) u))
    send_header-execute memory max_frame_buffer properties info channel size s sized small basic t m
          l room fits =
        let given = with_defaults p properties in
        let payload = header_bytes p info size given in
        let bytes = wire_frame 2 (pos channel) payload in
        let (run, _) = execute-feed_all reader (header []) s bytes (omega arith) in
        (
          bytes,
          send_header-wire_frame p memory max_frame_buffer tables properties info (pos channel) size
              sized (subst (λ (n : ℕ). lookup ◌==◌ n tables.classes ≡ some info) basic t.known)
              t.suitable room,
          run
              ∙ (ap (feed_all reader (running (header []) s)) (sym (append-nil bytes))
                  ∙ (feed_all-wire_frame reader 2 channel payload s [] l (omega arith) fits
                      ∙ called s channel info size given t m)),
        )

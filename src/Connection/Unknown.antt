-- ===== src/Connection/Unknown.antt =====
-- lib/parser.js: method frames whose pair of indices the parser does not know.
use node_amqp.Prelude.{
  ℕ, ◌+◌, ◌<◌, ◌≤◌, ◌≡◌, refl, sym, ap, ◌∙◌, arith, inl, inr, List, [], ◌++◌, append-nil, length,
  length-append, Bool, true, false, none, ℤ, pos,
}
use node_amqp.Result.{Error, unknown_method, bad_method, type_error}
use node_amqp.Values.{Platform}
use node_amqp.Definitions.Tables.{Tables, get_method}
use node_amqp.Connection.Calls.{ids-Reads}
use node_amqp.Serializer.Ints.{int_bytes, length-int_bytes}
use node_amqp.Parser.Frames.{
  Outcome, returned, thrown, header, running, failed, execute, dispatch, Handlers,
}
use node_amqp.Parser.Stream.{feed_all}
use node_amqp.Parser.Chunks.{execute-feed_all}
use node_amqp.Parser.Methods.{
  Callbacks, find_method, unknown_pair, has_class, with_ids, with_method, parse_method_frame,
  frame_handlers,
}
use node_amqp.Connection.Frame.{wire_frame, frame_info, on_return, feed_all-wire_frame}

length-payload :
    (class_id method_id : ℕ) (rest : List ℕ)
    → length ((int_bytes 2 (pos class_id) ++ int_bytes 2 (pos method_id)) ++ rest) ≡ length rest + 4
length-payload class_id method_id rest = omega (
  arith,
  length-append (int_bytes 2 (pos class_id) ++ int_bytes 2 (pos method_id)) rest,
  length-append (int_bytes 2 (pos class_id)) (int_bytes 2 (pos method_id)),
  length-int_bytes 2 (pos class_id) (inr (inl refl)),
  length-int_bytes 2 (pos method_id) (inr (inl refl)),
)

module _ (p : Platform) (fuel : ℕ) (tables : Tables) {S : Type 0} (h : Callbacks p.Double S) where
  module _ (log : S → Error → S)
      (logged : (s : S) (e : Error) → h.on_error s e ≡ returned (log s e)) where
    -- What `onError` is told of an unknown pair of indices.
    abbrev pub told : Bool → S → S
    told true s = log (log s unknown_method) bad_method
    told false s = log s unknown_method

    unknown_pair-told :
        (s : S) (class_known : Bool)
        → unknown_pair p fuel tables h s class_known ≡ thrown (told class_known s) type_error
    unfolding unknown_pair
    unknown_pair-told s true =
        rw (logged s unknown_method) (rw (logged (log s unknown_method) bad_method) refl)
    unknown_pair-told s false = rw (logged s unknown_method) refl

    parse_method_frame-told :
        (s : S) (channel : ℤ) (class_id method_id : ℕ) (rest : List ℕ)
        → class_id ≤ 0xffff
        → method_id ≤ 0xffff
        → get_method class_id method_id tables.method_table ≡ none
        → parse_method_frame p fuel tables h s channel
            ((int_bytes 2 (pos class_id) ++ int_bytes 2 (pos method_id)) ++ rest)
          ≡ thrown (told (has_class tables.method_table (pos class_id)) s) type_error
    unfolding parse_method_frame with_ids with_method find_method
    parse_method_frame-told s channel class_id method_id rest l m unknown =
        let first = ids-Reads class_id method_id l m in
        ap (with_ids p fuel tables h s channel) (first.run [] rest)
        ∙ rw unknown (unknown_pair-told s (has_class tables.method_table (pos class_id)))

    module _ (max_frame_buffer : S → ℕ) (on_content : S → ℤ → List ℕ → Outcome S)
        (on_heartbeat : S → Outcome S) where
      abbrev pub reporting : Handlers S
      reporting = frame_handlers p fuel tables h max_frame_buffer on_content on_heartbeat

      unknown_frame :
          (s : S) (channel class_id method_id : ℕ) (rest : List ℕ)
          → class_id ≤ 0xffff
          → method_id ≤ 0xffff
          → get_method class_id method_id tables.method_table ≡ none
          → (let payload = (int_bytes 2 (pos class_id) ++ int_bytes 2 (pos method_id)) ++ rest in
              on_return reporting
                (dispatch reporting s (frame_info reporting 1 channel payload) payload)
                (λ u. feed_all reporting (running (header []) u) [])
              ≡ failed (told (has_class tables.method_table (pos class_id)) s) type_error)
      unfolding dispatch feed_all
      unknown_frame s channel class_id method_id rest l m unknown =
          ap (λ (o : Outcome S). on_return reporting o (λ u. running (header []) u))
            (parse_method_frame-told s (pos channel) class_id method_id rest l m unknown)

      -- A parser whose onError returns and keeps in log what it is told, and that waits for a
      -- frame: on a method frame of a channel of at most 65535, within 31 bits and the size that
      -- it accepts, whose pair of indices of two bytes each is not in the table, execute calls
      -- onError with the unknown method, and once more, with the bad method, exactly if the table
      -- has the class; it calls nothing else, and ends with a TypeError.
      pub execute-unknown :
          (s : S) (channel class_id method_id : ℕ) (rest : List ℕ)
          → class_id ≤ 0xffff
          → method_id ≤ 0xffff
          → get_method class_id method_id tables.method_table ≡ none
          → channel ≤ 0xffff
          → length rest + 4 < 0x8000_0000
          → length rest + 4 ≤ max_frame_buffer s
          → execute reporting (header []) s (
              wire_frame 1
                (pos channel)
                ((int_bytes 2 (pos class_id) ++ int_bytes 2 (pos method_id)) ++ rest))
            ≡ failed (told (has_class tables.method_table (pos class_id)) s) type_error
      execute-unknown s channel class_id method_id rest k m unknown l small fits =
          let size = length-payload class_id method_id rest in
          let payload = (int_bytes 2 (pos class_id) ++ int_bytes 2 (pos method_id)) ++ rest in
          let (run, _) =
            execute-feed_all reporting (header []) s (wire_frame 1 (pos channel) payload)
              (omega arith) in
          run
          ∙ (ap (feed_all reporting (running (header []) s))
                (sym (append-nil (wire_frame 1 (pos channel) payload)))
              ∙ (feed_all-wire_frame reporting 1 channel payload s [] l (omega (arith, size))
                    (omega (arith, size))
                  ∙ unknown_frame s channel class_id method_id rest k m unknown))

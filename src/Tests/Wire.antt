-- ===== src/Tests/Wire.antt =====
-- Integers on the wire, and frames out of chunks.
use node_amqp.Prelude.{ℕ, ◌≡◌, ◌≢◌, ◌↔◌, refl, arith, inl, inr, List, [], ◌∷◌, ℤ, pos, negsuc, ◌+ℤ◌}
use node_amqp.Js.{js_shl, js_and, js_shr, to_uint8}
use node_amqp.Result.{ok, err, write_out_of_bounds, missing_frame_end, oversized_frame}
use node_amqp.Serializer.Buffer.{Buffer, put, put_all}
use node_amqp.Serializer.Ints.{int_octets, serialize_int, int_bytes}
use node_amqp.Parser.Cursor.{past, next}
use node_amqp.Parser.Ints.{parse_int}
use node_amqp.Parser.Frames.{
  State, Handlers, returned, thrown, header, undefined, running, failed, execute,
}
use node_amqp.Parser.Stream.{feed_all}
use node_amqp.Parser.Chunks.{execute-feed_all, execute-append, execute_next, KeepsRun}
use node_amqp.RoundTrip.Ints.{write_read, write_read_iff, Fits}

abbrev four : Buffer
four = record { mem = 9 ∷ 9 ∷ 9 ∷ 9 ∷ []; used = 1 }

serialize_short :
    serialize_int four 2 (pos 0x1234) ≡ ok (record { mem = 9 ∷ 0x12 ∷ 0x34 ∷ 9 ∷ []; used = 3 })
unfolding serialize_int int_octets put_all put js_and js_shr to_uint8
serialize_short = refl

serialize_too_long : serialize_int four 4 (pos 1) ≡ err write_out_of_bounds
unfolding serialize_int
serialize_too_long = refl

-- 2 ^ 31 as a long comes back as -2 ^ 31, and 2 ^ 32 as a long long as 0.
parse_negative :
    parse_int 4 (past [] (0x80 ∷ 0 ∷ 0 ∷ 0 ∷ []))
    ≡ ok (negsuc 0x7fff_ffff, past (0x80 ∷ 0 ∷ 0 ∷ 0 ∷ []) [])
unfolding parse_int next js_shl ◌+ℤ◌
parse_negative = refl

parse_long_long :
    parse_int 8 (past [] (0 ∷ 0 ∷ 0 ∷ 1 ∷ 0 ∷ 0 ∷ 0 ∷ 2 ∷ []))
    ≡ ok (pos 3, past (0 ∷ 0 ∷ 0 ∷ 1 ∷ 0 ∷ 0 ∷ 0 ∷ 2 ∷ []) [])
unfolding parse_int next js_shl ◌+ℤ◌
parse_long_long = refl

write_read_iff_example :
    (write_read 4 (negsuc 4) (7 ∷ []) (0 ∷ 0 ∷ 0 ∷ 0 ∷ []) (8 ∷ [])
      ≡ ok (negsuc 4, past (7 ∷ int_bytes 4 (negsuc 4)) (8 ∷ [])))
    ↔ Fits 4 (negsuc 4)
write_read_iff_example =
    write_read_iff 4 (negsuc 4) (7 ∷ []) (0 ∷ 0 ∷ 0 ∷ 0 ∷ []) (8 ∷ []) (inr (inr (inl refl))) refl

-- Callbacks that keep a list of what they were called with; `on_error` throws.
abbrev Calls : Type 0
Calls = List (ℕ × ℤ × List ℕ)

abbrev recorder : Handlers Calls
recorder = record {
  max_frame_buffer = λ s. 131072;
  on_method = λ s c b. returned ((1, c, b) ∷ s);
  on_header = λ s c b. returned ((2, c, b) ∷ s);
  on_content = λ s c b. returned ((3, c, b) ∷ s);
  on_heartbeat = λ s. returned ((8, pos 0, []) ∷ s);
  on_error = λ s e. thrown s e;
}

abbrev two_frames : List ℕ
two_frames = 8 ∷ 0 ∷ 0 ∷ 0 ∷ 0 ∷ 0 ∷ 0 ∷ 206 ∷ 3 ∷ 1 ∷ 2 ∷ 0 ∷ 0 ∷ 0 ∷ 2 ∷ 65 ∷ 66 ∷ 206 ∷ 1 ∷ []

abbrev two_calls : Calls
two_calls = (3, pos 258, 65 ∷ 66 ∷ []) ∷ (8, pos 0, []) ∷ []

two_frames_run : execute recorder (header []) [] two_frames ≡ running (header (1 ∷ [])) two_calls
unfolding execute parse_int next js_shl ◌+ℤ◌
two_frames_run = refl

bad_end :
    execute recorder (header []) [] (8 ∷ 0 ∷ 0 ∷ 0 ∷ 0 ∷ 0 ∷ 0 ∷ 205 ∷ [])
    ≡ failed [] missing_frame_end
unfolding execute parse_int next js_shl ◌+ℤ◌
bad_end = refl

too_large :
    execute recorder (header []) [] (3 ∷ 0 ∷ 1 ∷ 0 ∷ 2 ∷ 0 ∷ 1 ∷ []) ≡ failed [] oversized_frame
unfolding execute parse_int next js_shl ◌+ℤ◌
too_large = refl

execute-feed_all_example :
    (execute recorder (header []) [] two_frames
      ≡ feed_all recorder (running (header []) []) two_frames)
    × KeepsRun (execute recorder (header []) [] two_frames)
execute-feed_all_example = execute-feed_all recorder (header []) [] two_frames (omega arith)

waits_in_header :
    (q : State) (t : Calls)
    → execute recorder (header []) [] (8 ∷ 0 ∷ 0 ∷ []) ≡ running q t
    → q ≢ undefined
unfolding execute
waits_in_header q t e = cc

execute-append_example :
    execute recorder (header []) [] (8 ∷ 0 ∷ 0 ∷ 0 ∷ 0 ∷ 0 ∷ 0 ∷ 206 ∷ 1 ∷ [])
    ≡ execute_next recorder
        (execute recorder (header []) [] (8 ∷ 0 ∷ 0 ∷ []))
        (0 ∷ 0 ∷ 0 ∷ 0 ∷ 206 ∷ 1 ∷ [])
execute-append_example =
    execute-append recorder (header []) [] (8 ∷ 0 ∷ 0 ∷ []) (0 ∷ 0 ∷ 0 ∷ 0 ∷ 206 ∷ 1 ∷ [])
      (omega arith) waits_in_header

-- ===== src/Tests/Sending.antt =====
-- Channel ids, and bodies sent and received.
use node_amqp.Prelude.{
  ℕ, zero, suc, ◌≡◌, refl, arith, inl, inr, List, [], ◌∷◌, length, ◌==◌, ◌||◌, Bool, true, pos,
}
use node_amqp.Js.{js_and, js_shr, to_uint8}
use node_amqp.Result.{ok, err, no_channel_id, out_of_fuel}
use node_amqp.Serializer.Buffer.{put, put_all, put_bytes}
use node_amqp.Serializer.Ints.{serialize_int, int_octets}
use node_amqp.Parser.Frames.{Handlers, returned, thrown, header, execute}
use node_amqp.Connection.Body.{send_chunks, body_frame, fill_frame, joined, AreChunks}
use node_amqp.Connection.Delivery.{deliver, send_chunks-deliver}
use node_amqp.Connection.ChannelIds.{
  generate_channel_id, search_channel_id, IsFound, generate_channel_id-IsFound,
  search_channel_id-endless,
}

-- The ids 0, 1, 3 and 4 have an entry.
abbrev entries : ℕ → Bool
entries j = j == 0 || j == 1 || j == 3 || j == 4

wraps_around : generate_channel_id entries 4 3 ≡ ok 2
unfolding generate_channel_id
wraps_around = refl

none_left : generate_channel_id (λ j. true) 4 3 ≡ err no_channel_id
unfolding generate_channel_id
none_left = refl

generate_channel_id-IsFound_example : IsFound entries 4 3 (generate_channel_id entries 4 3)
generate_channel_id-IsFound_example =
    generate_channel_id-IsFound entries 4 3 (omega arith) (omega arith) (inl (omega arith))

search_channel_id-endless_example : search_channel_id (λ j. true) 4 9 100 9 ≡ err out_of_fuel
search_channel_id-endless_example =
    search_channel_id-endless (λ j. true) 4 9 100 9 (inr (omega arith)) (omega arith)
      (λ j p m. refl)

abbrev zeros : ℕ → List ℕ
zeros zero = []
zeros (suc n) = 0 ∷ zeros n

length-zeros : (n : ℕ) → length (zeros n) ≡ n
length-zeros zero = refl
length-zeros (suc n) = omega (arith, length-zeros n)

-- Callbacks that keep the chunks, the last one first.
abbrev collector : Handlers (List (List ℕ))
collector = record {
  max_frame_buffer = λ s. 10;
  on_method = λ s c b. returned s;
  on_header = λ s c b. returned s;
  on_content = λ s c b. returned (b ∷ s);
  on_heartbeat = λ s. returned s;
  on_error = λ s e. thrown s e;
}

two_chunks :
    send_chunks zeros 3 2 (pos 258) (7 ∷ 8 ∷ 9 ∷ [])
    ≡ ok (3 ∷ 1 ∷ 2 ∷ 0 ∷ 0 ∷ 0 ∷ 2 ∷ 7 ∷ 8 ∷ 206 ∷ 3 ∷ 1 ∷ 2 ∷ 0 ∷ 0 ∷ 0 ∷ 1 ∷ 9 ∷ 206 ∷ [])
unfolding send_chunks body_frame fill_frame serialize_int int_octets put_all put put_bytes js_and
    js_shr to_uint8
two_chunks = refl

send_chunks-deliver_example :
    (cs : List (List ℕ)) × (joined cs ≡ 7 ∷ 8 ∷ 9 ∷ [])
    × AreChunks 2 cs
    × (bytes : List ℕ) × (send_chunks zeros 3 2 (pos 258) (7 ∷ 8 ∷ 9 ∷ []) ≡ ok bytes)
    × (execute collector (header []) [] bytes ≡ deliver collector [] (pos 258) cs)
send_chunks-deliver_example =
    send_chunks-deliver collector zeros length-zeros 3 258 2 (7 ∷ 8 ∷ 9 ∷ []) [] (omega arith)
      (omega arith) (omega arith) (omega arith) (λ t. omega arith)

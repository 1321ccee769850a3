-- ===== src/Queue/Bodies.antt =====
-- lib/queue.js: a message whose body comes in chunks ends once, when all of it is there, and the buffer of
-- `subscribe` holds the body then.
use node_amqp.Prelude.{
  ℕ, zero, suc, ◌+◌, ◌-◌, ◌≤◌, ◌≡◌, refl, sym, ap, ◌∙◌, arith, ==-eq, ==-ne, List, [], ◌∷◌, ◌++◌,
  append_assoc, length, length-append, length-drop, take, drop, take-append, drop-append, Option,
  none, some,
}
use node_amqp.Connection.Body.{joined, AreChunks}
use node_amqp.Serializer.Writes.{drop-drop}
use node_amqp.Queue.Messages.{
  Message, Emitted, raw_message, data_of, end_of, Deliveries, on_deliver, on_content_header,
  on_content, on_contents, Body, add_data, collect,
}

-- What is emitted for the chunks of a body.
abbrev pub data_events : List (List ℕ) → List Emitted
data_events [] = []
data_events (c ∷ cs) = data_of c ∷ data_events cs

length-joined :
    (c : List ℕ) (cs : List (List ℕ)) → length (joined (c ∷ cs)) ≡ length c + length (joined cs)
length-joined c cs = length-append c (joined cs)

-- No chunk but the last one completes the message.
contents-events :
    (m : Message) (es : List Emitted) (c : List ℕ) (cs : List (List ℕ)) (max_size : ℕ)
    → AreChunks max_size (c ∷ cs)
    → m.read + length (joined (c ∷ cs)) ≡ m.size
    → on_contents (c ∷ cs) (record { current_message = some m; emitted = es })
      ≡ some (record {
        current_message = some (record m { read = m.size });
        emitted = es ++ (data_events (c ∷ cs) ++ end_of m.delivery_tag ∷ []);
      })
unfolding on_contents on_content
contents-events m es c [] max_size ((some_byte, little), fit) e =
    let done : m.read + length c ≡ m.size = omega (arith, e, length-joined c []) in
    rw (==-eq (m.read + length c) m.size done) (λ i. some (record {
      current_message = some (record m { read = done i });
      emitted = es ++ (data_of c ∷ end_of m.delivery_tag ∷ []);
    }))
contents-events m es c (d ∷ cs) max_size ((some_byte, little), ((d_some, d_small), fit)) e =
    let sum = length-joined c (d ∷ cs) in
    let later = length-joined d cs in
    let next : Message = record m { read = m.read + length c } in
    rw (==-ne (m.read + length c) m.size (omega (arith, e, sum, later))) (
      contents-events next (es ++ data_of c ∷ []) d cs max_size ((d_some, d_small), fit)
        (omega (arith, e, sum))
      ∙ ap
          (λ (l : List Emitted).
            some (record { current_message = some (record m { read = m.size }); emitted = l }))
          (append_assoc es (data_of c ∷ []) (data_events (d ∷ cs) ++ end_of m.delivery_tag ∷ [])))

take_more : (n : ℕ) (xs : List ℕ) → length xs ≤ n → take n xs ≡ xs
take_more zero [] l = refl
take_more (suc n) [] l = refl
take_more zero (x ∷ xs) l = absurd (omega arith)
take_more (suc n) (x ∷ xs) l = ap (λ (ys : List ℕ). x ∷ ys) (take_more n xs (omega arith))

add_data-filled :
    (front d back : List ℕ)
    → length d ≤ length back
    → add_data d (record { mem = front ++ back; used = length front })
      ≡ record { mem = (front ++ d) ++ drop (length d) back; used = length (front ++ d) }
unfolding add_data
add_data-filled front d back l =
    λ i. record { mem = together i; used = sym (length-append front d) i }
  where
    -- The parts that `copy` leaves and the part that it writes.
    whole : take (length (front ++ back) - length front) d ≡ d
    whole =
        take_more (length (front ++ back) - length front) d
          (omega (arith, length-append front back))

    behind : drop (length front + length d) (front ++ back) ≡ drop (length d) back
    behind =
        sym (drop-drop (length front) (length d) (front ++ back))
        ∙ ap (drop (length d)) (drop-append front back)

    together :
        take (length front) (front ++ back)
          ++ (take (length (front ++ back) - length front) d
              ++ drop (length front + length d) (front ++ back))
        ≡ (front ++ d) ++ drop (length d) back
    together =
        (λ i. take-append front back i ++ (whole i ++ behind i))
        ∙ sym (append_assoc front d (drop (length d) back))

-- The buffer takes the chunks one behind the other.
collect-data_events :
    (memory : ℕ → List ℕ) (cs : List (List ℕ)) (tag : ℕ) (front back : List ℕ)
    → length (joined cs) ≡ length back
    → collect memory
        (record { mem = front ++ back; used = length front })
        (data_events cs ++ end_of tag ∷ [])
      ≡ (front ++ joined cs) ∷ []
unfolding collect
collect-data_events memory [] tag front [] l = refl
collect-data_events memory [] tag front (x ∷ back) l = absurd (omega arith)
collect-data_events memory (c ∷ cs) tag front back l =
    let sum = length-joined c cs in
    ap (λ b. collect memory b (data_events cs ++ end_of tag ∷ []))
      (add_data-filled front c back (omega (arith, l, sum)))
    ∙ (collect-data_events memory cs tag (front ++ c) (drop (length c) back)
          (omega (arith, l, sum, length-drop (length c) back))
        ∙ ap (λ (b : List ℕ). b ∷ []) (append_assoc front c (joined cs)))

-- The calls that a content makes: its delivery, its header and its chunks.
abbrev pub receive : ℕ → ℕ → ℕ → List (List ℕ) → Deliveries → Option Deliveries
receive delivery_tag consumer_tag size cs q =
    elim (on_content_header size (on_deliver delivery_tag consumer_tag q)) [
      | none ↦ none
      | some r ↦ on_contents cs r
    ]

abbrev pub headed : ℕ → ℕ → ℕ → Message
headed delivery_tag consumer_tag size = record {
  delivery_tag = delivery_tag;
  consumer_tag = consumer_tag;
  read = 0;
  size = size;
}

receive-emitted :
    (delivery_tag consumer_tag : ℕ) (cs : List (List ℕ)) (max_size : ℕ) (q : Deliveries)
    → AreChunks max_size cs
    → (r : Deliveries) × (receive delivery_tag consumer_tag (length (joined cs)) cs q ≡ some r)
      × (r.emitted
          ≡ q.emitted
            ++ raw_message (headed delivery_tag consumer_tag (length (joined cs)))
              ∷ (data_events cs ++ end_of delivery_tag ∷ []))
unfolding on_content_header on_deliver on_contents
receive-emitted delivery_tag consumer_tag [] max_size q fit = (_, refl, refl)
receive-emitted delivery_tag consumer_tag (c ∷ cs) max_size q fit =
    let (some_byte, _) = fit.0 in
    let sum = length-joined c cs in
    let size : ℕ = length (joined (c ∷ cs)) in
    let message = headed delivery_tag consumer_tag size in
    let events = data_events (c ∷ cs) ++ end_of delivery_tag ∷ [] in
    (
      record {
        current_message = some (record message { read = size });
        emitted = (q.emitted ++ raw_message message ∷ []) ++ events;
      },
      rw (==-ne size 0 (omega (arith, sum))) (
          contents-events message (q.emitted ++ raw_message message ∷ []) c cs max_size fit
            (omega arith)),
      append_assoc q.emitted (raw_message message ∷ []) events,
    )

-- The delivery of a content whose header gives the size of its body, and whose body comes in chunks of at
-- least one byte, as `_sendBody` cuts it, succeeds: after what was emitted before come the message, each
-- chunk in order, and one end, which is the last; and where the buffers have the size that is asked for,
-- the one that `subscribe` fills holds the body at the end. A body without bytes has no chunks.
pub receive-collect :
    (memory : ℕ → List ℕ) (delivery_tag consumer_tag : ℕ) (cs : List (List ℕ)) (max_size : ℕ)
    (q : Deliveries) (b : Body)
    → length (memory (length (joined cs))) ≡ length (joined cs)
    → AreChunks max_size cs
    → (r : Deliveries) × (events : List Emitted) × (receive delivery_tag consumer_tag
          (length (joined cs))
          cs
          q
        ≡ some r)
      × (r.emitted ≡ q.emitted ++ events)
      × (events
          ≡ raw_message (headed delivery_tag consumer_tag (length (joined cs)))
            ∷ (data_events cs ++ end_of delivery_tag ∷ []))
      × (collect memory b events ≡ joined cs ∷ [])
unfolding collect
receive-collect memory delivery_tag consumer_tag cs max_size q b sized fit =
    let (r, received, emitted) = receive-emitted delivery_tag consumer_tag cs max_size q fit in
    (
      r,
      _,
      received,
      emitted,
      refl,
      collect-data_events memory cs delivery_tag [] (memory (length (joined cs))) (sym sized),
    )

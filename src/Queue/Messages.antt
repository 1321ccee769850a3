-- ===== src/Queue/Messages.antt =====
-- lib/queue.js: how a message is put together, `_onMethod` for `basicDeliver`, `_onContentHeader`,
-- `_onContent`, and the buffer of `subscribe`; and `shift`, with lib/message.js.
use node_amqp.Prelude.{
  ℕ, ◌+◌, ◌-◌, ◌==◌, Bool, true, false, List, [], ◌∷◌, ◌++◌, length, take, drop, Option, none, some,
  if◌then◌else◌,
}

-- A `Message` with its delivery tag; `read` and `size` are set by the header.
pub record Message : Type 0 where
  pub delivery_tag : ℕ
  pub consumer_tag : ℕ
  pub read : ℕ
  pub size : ℕ

-- What a message and its queue emit.
pub data Emitted : Type 0 where
  raw_message : Message → Emitted
  data_of : List ℕ → Emitted
  end_of : ℕ → Emitted

-- `currentMessage`, which is undefined before the first delivery.
pub record Deliveries : Type 0 where
  pub current_message : Option Message
  pub emitted : List Emitted

-- `new Message(this, args)` in the case `basicDeliver`.
unfoldable pub on_deliver : ℕ → ℕ → Deliveries → Deliveries
on_deliver delivery_tag consumer_tag q = record q {
  current_message =
      some
        (record { delivery_tag = delivery_tag; consumer_tag = consumer_tag; read = 0; size = 0 });
}

abbrev pub emit : List Emitted → Deliveries → Deliveries
emit es q = record q { emitted = q.emitted ++ es }

with_header : ℕ → Option Message → Deliveries → Option Deliveries
with_header size none q = none
with_header size (some m) q =
    let headed = record m { read = 0; size = size } in
    some (
      emit (raw_message headed ∷ (if size == 0 then end_of m.delivery_tag ∷ [] else []))
        (record q { current_message = some headed }))

-- `_onContentHeader(channel, classInfo, weight, properties, size)`; `none` is the exception where there is
-- no message.
unfoldable pub on_content_header : ℕ → Deliveries → Option Deliveries
unfolding with_header
on_content_header size q = with_header size q.current_message q

with_content : List ℕ → Option Message → Deliveries → Option Deliveries
with_content chunk none q = none
with_content chunk (some m) q =
    let counted = record m { read = m.read + length chunk } in
    some (
      emit (data_of chunk ∷ (if counted.read == m.size then end_of m.delivery_tag ∷ [] else []))
        (record q { current_message = some counted }))

-- `_onContent(channel, data)`
unfoldable pub on_content : List ℕ → Deliveries → Option Deliveries
unfolding with_content
on_content chunk q = with_content chunk q.current_message q

unfoldable pub on_contents : List (List ℕ) → Deliveries → Option Deliveries
on_contents [] q = some q
on_contents (c ∷ cs) q = elim (on_content c q) [ none ↦ none | some r ↦ on_contents cs r ]

-- The buffer of `subscribe` for a message that is not JSON, and `buffer.used`.
pub record Body : Type 0 where
  pub mem : List ℕ
  pub used : ℕ

-- The listener of 'data'; `copy` stops at the end of the buffer.
unfoldable pub add_data : List ℕ → Body → Body
add_data d b = record {
  mem = take b.used b.mem ++ (take (length b.mem - b.used) d ++ drop (b.used + length d) b.mem);
  used = b.used + length d;
}

-- The listeners that a raw message adds, as the events come: the buffers that the ends found. `memory n` is
-- what `new Buffer(n)` gives.
unfoldable pub collect : (ℕ → List ℕ) → Body → List Emitted → List (List ℕ)
collect memory b [] = []
collect memory b (raw_message m ∷ es) = collect memory (record { mem = memory m.size; used = 0 }) es
collect memory b (data_of d ∷ es) = collect memory (add_data d b) es
collect memory b (end_of tag ∷ es) = b.mem ∷ collect memory b es

-- `acknowledge(all)` and `reject(requeue)` of a message, as the methods that they send.
pub data Answer : Type 0 where
  basic_ack : ℕ → Bool → Answer
  basic_reject : ℕ → Bool → Answer

unfoldable pub acknowledge : Bool → Message → Answer
acknowledge all m = basic_ack m.delivery_tag all

unfoldable pub reject : Bool → Message → Answer
reject requeue m = basic_reject m.delivery_tag requeue

-- `shift(reject, requeue)`: the answer, and `_lastMessage`.
unfoldable pub shift : Bool → Bool → Option Message → List Answer × Option Message
unfolding acknowledge reject
shift rejects requeue none = ([], none)
shift true requeue (some m) = (reject requeue m ∷ [], none)
shift false requeue (some m) = (acknowledge false m ∷ [], none)

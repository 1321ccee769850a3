-- ===== src/Exchange/Confirms.antt =====
-- Publisher confirms of lib/exchange.js: `_sequence`, `_unAcked`, and the callbacks of `publish`.
use node_amqp.Prelude.{
  ℕ, ◌+◌, ◌*◌, ◌==◌, ltb, leb, Bool, true, false, List, [], ◌∷◌, ◌++◌, Option, none, some,
  if◌then◌else◌,
}

-- A call of `publish` is written by its number. `published` counts the calls; `resolved` are those whose
-- callback was called, with its first argument, which is `true` for an error; `un_acked` is the object
-- `_unAcked`, whose keys are numbers and so are met in ascending order.
pub record Confirms : Type 0 where
  pub confirm : Bool
  pub handler_added : Bool
  pub sequence : Option ℕ
  pub un_acked : List (ℕ × ℕ)
  pub published : ℕ
  pub resolved : List (ℕ × Bool)

abbrev pub new_confirms : Bool → Confirms
new_confirms confirm = record {
  confirm = confirm;
  handler_added = false;
  sequence = none;
  un_acked = [];
  published = 0;
  resolved = [];
}

-- `_unAcked[k] = task`
unfoldable pub set_un_acked : ℕ → ℕ → List (ℕ × ℕ) → List (ℕ × ℕ)
set_un_acked k n [] = (k, n) ∷ []
set_un_acked k n ((j, m) ∷ us) =
    let later = set_un_acked k n us in
    if j == k then (k, n) ∷ us else if ltb k j then (k, n) ∷ (j, m) ∷ us else (j, m) ∷ later

-- The calls that the keys with `p` wait for, and what is left.
unfoldable pub taken_out : (ℕ → Bool) → List (ℕ × ℕ) → List (ℕ × ℕ) × List (ℕ × ℕ)
taken_out p [] = ([], [])
taken_out p ((k, n) ∷ us) =
    let (taken, left) = taken_out p us in
    if p k then ((k, n) ∷ taken, left) else (taken, (k, n) ∷ left)

abbrev pub marked : Bool → List (ℕ × ℕ) → List (ℕ × Bool)
marked failed [] = []
marked failed ((k, n) ∷ us) = (n, failed) ∷ marked failed us

-- `emit('ack')` or `emit('ack error')`, and `delete`, for every key with `p`.
unfoldable pub resolve : (ℕ → Bool) → Bool → Confirms → Confirms
unfolding taken_out
resolve p failed c =
    let (taken, left) = taken_out p c.un_acked in
    record c { un_acked = left; resolved = c.resolved ++ marked failed taken }

-- The handler of `createExchangeErrorHandlerFor`, where it was added.
unfoldable pub on_error : Confirms → Confirms
unfolding resolve
on_error c = if c.handler_added then (if c.confirm then resolve (λ k. true) true c else c) else c

-- `args.deliveryTag.readUInt32BE(4)`
unfoldable pub low_word : List ℕ → ℕ
low_word (_ ∷ _ ∷ _ ∷ _ ∷ a ∷ b ∷ c ∷ d ∷ _) = a * 0x100_0000 + b * 0x1_0000 + c * 0x100 + d
low_word _ = 0

-- The case `basicAck`. The single acknowledgement of a key that is not there does nothing.
unfoldable pub basic_ack : ℕ → Bool → Confirms → Confirms
unfolding resolve
basic_ack sequence_number multiple c =
    if multiple
    then (if sequence_number == 0
        then resolve (λ k. true) false c
        else resolve (λ k. leb k sequence_number) false c)
    else resolve (λ k. k == sequence_number) false c

-- `callback(true, new Error(...))` of a call that is refused.
unfoldable pub refuse : Confirms → Confirms
refuse c = record c {
  published = c.published + 1;
  resolved = c.resolved ++ (c.published, true) ∷ [];
}

-- `_awaitConfirm(task, callback)`, with the sequence number `s`.
unfoldable pub await_confirm : ℕ → Confirms → Confirms
unfolding set_un_acked
await_confirm s c = record c {
  handler_added = true;
  un_acked = set_un_acked s c.published c.un_acked;
  sequence = some (s + 1);
  published = c.published + 1;
}

-- A call of an open exchange: the refusal of an exchange that is not ready, or what waits for the
-- confirmation. Without `confirm` the callback is never called.
unfoldable pub accept : Bool → Option ℕ → Confirms → Confirms
unfolding refuse await_confirm
accept false sequence c = record c { published = c.published + 1 }
accept true none c = refuse c
accept true (some s) c = await_confirm s c

-- What `publish` does to the confirms; `is_open` is `state === 'open'`.
unfoldable pub publish_confirms : Bool → Bool → Confirms → Confirms
unfolding accept
publish_confirms blocked is_open c =
    if blocked
    then refuse c
    else if is_open
    then accept c.confirm c.sequence c
    else refuse (record c { sequence = none })

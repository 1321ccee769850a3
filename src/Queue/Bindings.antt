-- ===== src/Queue/Bindings.antt =====
-- lib/queue.js: `bind`, `unbind` and the bindings that are made again, with the counts of lib/exchange.js.
use node_amqp.Prelude.{
  ℕ, suc, ◌+◌, ◌-◌, ◌≡◌, refl, ap, ◌∙◌, ◌==◌, ==_iff, false, List, [], ◌∷◌, Option, none, some,
  if◌then◌else◌, ℤ, pos, negsuc, ◌+ℤ◌,
}
use node_amqp.Definitions.Tables.{lookup, insert, lookup-insert_self, lookup-insert_ne}

-- Exchanges and routing keys are written by numbers. `_bindings` of an exchange is an object of counts; a
-- count that is 0 or NaN is falsy, and one that was never set turns NaN when it is decremented.
pub data Count : Type 0 where
  count : ℕ → Count
  not_a_number : Count

abbrev pub Keys : Type 0
Keys = List (ℕ × Count)

-- `binds` are those of the exchanges that the connection has.
pub record Bindings : Type 0 where
  pub bindings : List (ℕ × Keys)
  pub binds : List (ℕ × ℤ)
  pub exchange : Option ℕ

abbrev pub new_bindings : List (ℕ × ℤ) → Bindings
new_bindings binds = record { bindings = []; binds = binds; exchange = none }

abbrev pub or_none : Option Keys → Keys
or_none none = []
or_none (some ks) = ks

-- `if (!count) count = 0; count++`
abbrev pub counted_up : Option Count → Count
counted_up none = count 1
counted_up (some not_a_number) = count 1
counted_up (some (count n)) = count (n + 1)

-- `count--`; a count is 1 or more where it is there.
abbrev pub counted_down : Option Count → Count
counted_down none = not_a_number
counted_down (some not_a_number) = not_a_number
counted_down (some (count n)) = count (n - 1)

unfoldable pub remove {ℓ} : {V : Type ℓ} → ℕ → List (ℕ × V) → List (ℕ × V)
remove k [] = []
remove k ((j, v) ∷ m) = let rest = remove k m in if j == k then rest else (j, v) ∷ rest

-- The count of a key after `unbind`, whose key is deleted where the count is falsy.
unfoldable pub kept_count : ℕ → Count → Keys → Keys
kept_count key (count (suc n)) ks = insert ◌==◌ key (count (suc n)) ks
kept_count key _ ks = remove key ks

unfoldable pub kept_keys : ℕ → Keys → List (ℕ × Keys) → List (ℕ × Keys)
kept_keys x [] bs = remove x bs
kept_keys x (k ∷ ks) bs = insert ◌==◌ x (k ∷ ks) bs

add_binds : ℤ → ℕ → Option ℤ → List (ℕ × ℤ) → List (ℕ × ℤ)
add_binds d x none bs = bs
add_binds d x (some n) bs = insert ◌==◌ x (n +ℤ d) bs

held_by : ℕ → Option ℤ → Option ℕ → Option ℕ
held_by x none before = before
held_by x (some n) before = some x

-- `bind(exchange, routingKey)`, but for the method that it sends.
unfoldable pub bind : ℕ → ℕ → Bindings → Bindings
unfolding add_binds held_by
bind x key b =
    let keys = or_none (lookup ◌==◌ x b.bindings) in
    record {
      bindings =
          insert ◌==◌ x (insert ◌==◌ key (counted_up (lookup ◌==◌ key keys)) keys) b.bindings;
      binds = add_binds (pos 1) x (lookup ◌==◌ x b.binds) b.binds;
      exchange = held_by x (lookup ◌==◌ x b.binds) b.exchange;
    }

unfoldable pub unbound : ℕ → ℕ → Option Keys → List (ℕ × Keys) → List (ℕ × Keys)
unfolding kept_count kept_keys
unbound x key none bs = bs
unbound x key (some keys) bs =
    kept_keys x (kept_count key (counted_down (lookup ◌==◌ key keys)) keys) bs

-- `unbind(exchange, routingKey)`, before its task.
unfoldable pub unbind : ℕ → ℕ → Bindings → Bindings
unfolding unbound
unbind x key b = record b { bindings = unbound x key (lookup ◌==◌ x b.bindings) b.bindings }

-- The loops of `queueDeclareOk`, over the bindings that were there at first.
unfoldable pub rebind_keys : ℕ → Keys → Bindings → Bindings
unfolding bind
rebind_keys x [] b = b
rebind_keys x ((key, n) ∷ ks) b = rebind_keys x ks (bind x key b)

unfoldable pub rebind_all : List (ℕ × Keys) → Bindings → Bindings
unfolding rebind_keys
rebind_all [] b = b
rebind_all ((x, ks) ∷ bs) b = rebind_all bs (rebind_keys x ks b)

unfoldable pub rebind : Bindings → Bindings
unfolding rebind_all
rebind b = rebind_all b.bindings b

-- The task of `destroy`.
unfoldable pub release : Bindings → Bindings
unfolding add_binds
release b = elim b.exchange [
  | none ↦ b
  | some x ↦ record b { binds = add_binds (negsuc 0) x (lookup ◌==◌ x b.binds) b.binds }
]

-- How often a binding is recorded.
abbrev pub times_in : Option Count → ℕ
times_in (some (count n)) = n
times_in _ = 0

abbrev pub times_bound : ℕ → ℕ → Bindings → ℕ
times_bound x key b = times_in (lookup ◌==◌ key (or_none (lookup ◌==◌ x b.bindings)))

times-counted_up : (o : Option Count) → times_in (some (counted_up o)) ≡ times_in o + 1
times-counted_up none = refl
times-counted_up (some not_a_number) = refl
times-counted_up (some (count n)) = refl

-- A binding that is made once more is recorded once more.
pub times_bound-bind :
    (x key : ℕ) (b : Bindings) → times_bound x key (bind x key b) ≡ times_bound x key b + 1
unfolding bind
times_bound-bind x key b =
    let keys = or_none (lookup ◌==◌ x b.bindings) in
    ap (λ (o : Option Keys). times_in (lookup ◌==◌ key (or_none o)))
      (lookup-insert_self ◌==◌ ==_iff x _ b.bindings)
    ∙ (ap times_in (lookup-insert_self ◌==◌ ==_iff key _ keys)
        ∙ times-counted_up (lookup ◌==◌ key keys))

pub bind-other_exchange :
    (x key y k : ℕ) (b : Bindings)
    → (y == x) ≡ false
    → times_bound x key (bind y k b) ≡ times_bound x key b
unfolding bind
bind-other_exchange x key y k b e =
    ap (λ o. times_in (lookup ◌==◌ key (or_none o)))
      (lookup-insert_ne ◌==◌ ==_iff y x _ b.bindings e)

pub bind-other_key :
    (x key y k : ℕ) (b : Bindings)
    → y ≡ x
    → (k == key) ≡ false
    → times_bound x key (bind y k b) ≡ times_bound x key b
unfolding bind
bind-other_key x key y k b same e = rw same (
    ap (λ o. times_in (lookup ◌==◌ key (or_none o))) (lookup-insert_self ◌==◌ ==_iff x _ b.bindings)
    ∙ ap times_in (lookup-insert_ne ◌==◌ ==_iff k key _ (or_none (lookup ◌==◌ x b.bindings)) e))

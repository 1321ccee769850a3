-- ===== src/Queue/Rebinding.antt =====
-- lib/queue.js: what the loops of `queueDeclareOk` record of the bindings that they make again.
use node_amqp.Prelude.{
  ℕ, ◌+◌, ◌≡◌, ◌∙◌, arith, ◌==◌, ==_iff, ◌&&◌, Bool, true, false, Bool-cases, inl, inr, List, [],
  ◌∷◌,
}
use node_amqp.Queue.Bindings.{
  Keys, Bindings, bind, rebind_keys, rebind_all, rebind, times_bound, times_bound-bind,
  bind-other_key, bind-other_exchange,
}

abbrev pub one_for : Bool → ℕ
one_for true = 1
one_for false = 0

-- How many entries stand for a binding: one where it is recorded.
abbrev pub entries_in : ℕ → ℕ → ℕ → Keys → ℕ
entries_in x key y [] = 0
entries_in x key y ((k, n) ∷ ks) = one_for (y == x && k == key) + entries_in x key y ks

abbrev pub entries_of : ℕ → ℕ → List (ℕ × Keys) → ℕ
entries_of x key [] = 0
entries_of x key ((y, ks) ∷ bs) = entries_in x key y ks + entries_of x key bs

bind-here :
    (x key y k : ℕ) (b : Bindings)
    → y ≡ x
    → k ≡ key
    → times_bound x key (bind y k b) ≡ times_bound x key b + 1
bind-here x key y k b e f = rw (e, f) (times_bound-bind x key b)

plus_zero : (n : ℕ) → n ≡ n + 0
plus_zero n = omega arith

bind-counted :
    (x key y k : ℕ) (b : Bindings)
    → times_bound x key (bind y k b) ≡ times_bound x key b + one_for (y == x && k == key)
bind-counted x key y k b = elim (Bool-cases (y == x)) [
  | inl e ↦ elim (Bool-cases (k == key)) [
    | inl f ↦ rw (e, f) (bind-here x key y k b ((==_iff y x).0 e) ((==_iff k key).0 f))
    | inr f ↦
        rw (e, f)
          (bind-other_key x key y k b ((==_iff y x).0 e) f ∙ plus_zero (times_bound x key b))
  ]
  | inr e ↦ rw e (bind-other_exchange x key y k b e ∙ plus_zero (times_bound x key b))
]

rebind_keys-counted :
    (x key y : ℕ) (ks : Keys) (b : Bindings)
    → times_bound x key (rebind_keys y ks b) ≡ times_bound x key b + entries_in x key y ks
unfolding rebind_keys
rebind_keys-counted x key y [] b = plus_zero (times_bound x key b)
rebind_keys-counted x key y ((k, n) ∷ ks) b =
    omega (arith, bind-counted x key y k b, rebind_keys-counted x key y ks (bind y k b))

rebind_all-counted :
    (x key : ℕ) (bs : List (ℕ × Keys)) (b : Bindings)
    → times_bound x key (rebind_all bs b) ≡ times_bound x key b + entries_of x key bs
unfolding rebind_all
rebind_all-counted x key [] b = plus_zero (times_bound x key b)
rebind_all-counted x key ((y, ks) ∷ bs) b =
    omega
      (arith, rebind_keys-counted x key y ks b, rebind_all-counted x key bs (rebind_keys y ks b))

-- A queue that is declared again after a reconnection counts each binding once more for every entry that
-- stands for it: what it makes again, it records again.
pub rebind-counted :
    (x key : ℕ) (b : Bindings)
    → times_bound x key (rebind b) ≡ times_bound x key b + entries_of x key b.bindings
unfolding rebind
rebind-counted x key b = rebind_all-counted x key b.bindings b

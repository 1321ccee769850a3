-- ===== src/Channel/Members.antt =====
-- Which numbers a list has, for the promises of lib/channel.js.
use node_amqp.Prelude.{ℕ, ◌≡◌, ◌⊎◌, inl, inr, List, [], ◌∷◌, ◌++◌}

abbrev pub In : ℕ → List ℕ → Type 0
In n [] = ⊥
In n (x ∷ xs) = (n ≡ x) ⊎ In n xs

pub In-left : (n : ℕ) (xs ys : List ℕ) → In n xs → In n (xs ++ ys)
In-left n [] ys h = absurd h
In-left n (x ∷ xs) ys (inl e) = inl e
In-left n (x ∷ xs) ys (inr h) = inr (In-left n xs ys h)

pub In-right : (n : ℕ) (xs ys : List ℕ) → In n ys → In n (xs ++ ys)
In-right n [] ys h = h
In-right n (x ∷ xs) ys h = inr (In-right n xs ys h)

pub In-either : (n : ℕ) (xs ys : List ℕ) → In n (xs ++ ys) → In n xs ⊎ In n ys
In-either n [] ys h = inr h
In-either n (x ∷ xs) ys (inl e) = inl (inl e)
In-either n (x ∷ xs) ys (inr h) = elim (In-either n xs ys h) [ inl k ↦ inl (inr k) | inr k ↦ inr k ]

-- A list that keeps what another has.
pub In-prefix :
    (n : ℕ) (cs xs ys : List ℕ) → (In n xs → In n ys) → In n (cs ++ xs) → In n (cs ++ ys)
In-prefix n cs xs ys f h = elim (In-either n cs xs h) [
  | inl k ↦ In-left n cs ys k
  | inr k ↦ In-right n cs ys (f k)
]

pub In-suffix :
    (n : ℕ) (xs ys fs : List ℕ) → (In n xs → In n ys) → In n (xs ++ fs) → In n (ys ++ fs)
In-suffix n xs ys fs f h = elim (In-either n xs fs h) [
  | inl k ↦ In-left n ys fs (f k)
  | inr k ↦ In-right n ys fs k
]

-- ===== src/Exchange/Counts.antt =====
-- How often a call of `publish` of lib/exchange.js waits in `_unAcked`, and how often its callback was
-- called.
use node_amqp.Prelude.{
  ℕ, ◌+◌, ◌<◌, ◌≡◌, refl, ap, arith, ◌==◌, ==-ne, le→ltb_false, Bool, true, false, Bool-cases, inl,
  inr, List, [], ◌∷◌, ◌++◌, All,
}
use node_amqp.Exchange.Confirms.{set_un_acked, taken_out, marked}

abbrev pub one_if : Bool → ℕ
one_if true = 1
one_if false = 0

-- How often the call `n` waits.
unfoldable pub waits : ℕ → List (ℕ × ℕ) → ℕ
waits n [] = 0
waits n ((k, m) ∷ us) = one_if (m == n) + waits n us

-- How often the callback of the call `n` was called.
unfoldable pub calls_of : ℕ → List (ℕ × Bool) → ℕ
calls_of n [] = 0
calls_of n ((m, failed) ∷ rs) = one_if (m == n) + calls_of n rs

abbrev pub AreBelow : ℕ → List (ℕ × ℕ) → Type 0
AreBelow s us = All (λ u. u.0 < s) us

pub calls_of-append :
    (n : ℕ) (rs ss : List (ℕ × Bool)) → calls_of n (rs ++ ss) ≡ calls_of n rs + calls_of n ss
unfolding calls_of
calls_of-append n [] ss = omega arith
calls_of-append n ((m, f) ∷ rs) ss = omega (arith, calls_of-append n rs ss)

pub calls_of-marked : (n : ℕ) (f : Bool) (us : List (ℕ × ℕ)) → calls_of n (marked f us) ≡ waits n us
unfolding calls_of waits
calls_of-marked n f [] = refl
calls_of-marked n f ((k, m) ∷ us) = omega (arith, calls_of-marked n f us)

waits-append :
    (n k m : ℕ) (us : List (ℕ × ℕ)) → waits n (us ++ (k, m) ∷ []) ≡ waits n us + one_if (m == n)
unfolding waits
waits-append n k m [] = omega arith
waits-append n k m ((j, i) ∷ us) = omega (arith, waits-append n k m us)

set_un_acked-last :
    (s n : ℕ) (us : List (ℕ × ℕ)) → AreBelow s us → set_un_acked s n us ≡ us ++ (s, n) ∷ []
unfolding set_un_acked
set_un_acked-last s n [] h = refl
set_un_acked-last s n ((k, m) ∷ us) (l, h) =
    rw (==-ne k s (omega arith), le→ltb_false s k (omega arith))
      (ap (λ (vs : List (ℕ × ℕ)). (k, m) ∷ vs) (set_un_acked-last s n us h))

-- A new key makes its call wait once more.
pub waits-set_un_acked :
    (n s m : ℕ) (us : List (ℕ × ℕ))
    → AreBelow s us
    → waits n (set_un_acked s m us) ≡ waits n us + one_if (m == n)
waits-set_un_acked n s m us h = rw (set_un_acked-last s m us h) (waits-append n s m us)

AreBelow-append :
    (s t m : ℕ) (us : List (ℕ × ℕ)) → s < t → AreBelow s us → AreBelow t (us ++ (s, m) ∷ [])
AreBelow-append s t m [] l h = (l, tt)
AreBelow-append s t m ((k, i) ∷ us) l (j, h) = (omega arith, AreBelow-append s t m us l h)

pub AreBelow-set_un_acked :
    (s m : ℕ) (us : List (ℕ × ℕ)) → AreBelow s us → AreBelow (s + 1) (set_un_acked s m us)
AreBelow-set_un_acked s m us h =
    rw (set_un_acked-last s m us h) (AreBelow-append s (s + 1) m us (omega arith) h)

-- What is taken out and what is left are all that there was.
pub waits-taken_out :
    (n : ℕ) (p : ℕ → Bool) (us : List (ℕ × ℕ))
    → waits n (taken_out p us).0 + waits n (taken_out p us).1 ≡ waits n us
unfolding waits taken_out
waits-taken_out n p [] = refl
waits-taken_out n p ((k, m) ∷ us) =
    let rest = waits-taken_out n p us in
    elim (Bool-cases (p k)) [
      | inl e ↦ rw e (omega (arith, rest))
      | inr e ↦ rw e (omega (arith, rest))
    ]

pub AreBelow-taken_out :
    (s : ℕ) (p : ℕ → Bool) (us : List (ℕ × ℕ)) → AreBelow s us → AreBelow s (taken_out p us).1
unfolding taken_out
AreBelow-taken_out s p [] h = tt
AreBelow-taken_out s p ((k, m) ∷ us) (l, h) =
    let rest = AreBelow-taken_out s p us h in
    elim (Bool-cases (p k)) [ inl e ↦ rw e rest | inr e ↦ rw e (l, rest) ]

pub taken_out-all :
    (p : ℕ → Bool) (us : List (ℕ × ℕ)) → ((k : ℕ) → p k ≡ true) → (taken_out p us).1 ≡ []
unfolding taken_out
taken_out-all p [] h = refl
taken_out-all p ((k, m) ∷ us) h = rw (h k) (taken_out-all p us h)

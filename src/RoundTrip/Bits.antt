-- ===== src/RoundTrip/Bits.antt =====
-- The bits that `serializeFields` of lib/serializer.js packs into an octet, and that `parseFields` of
-- lib/parser.js reads of it: at most eight bits are read as they were written.
use node_amqp.Prelude.{
  ℕ, zero, suc, ◌+◌, ◌≤◌, ◌≡◌, refl, arith, Bool, true, false, ◌&&◌, not, List, [], ◌∷◌, ◌++◌,
  append_assoc, append-nil, length, ℤ, pos,
}
use node_amqp.Js.{js_or, js_and, js_shl, to_uint8}
use node_amqp.Serializer.Fields.{set_bit}
use node_amqp.Parser.Fields.{bit_at}

-- `bitField` behind a run of bits.
abbrev pub packed : ℤ → ℕ → List Bool → ℤ
packed bit_field i [] = bit_field
packed bit_field i (b ∷ bs) = packed (set_bit b bit_field i) (i + 1) bs

-- The octet `w` holds the bits from the `i`th on.
abbrev pub HoldsBits : ℕ → ℕ → List Bool → Type 0
HoldsBits w i [] = Unit
HoldsBits w i (b ∷ bs) = (bit_at (pos w) i ≡ b) × HoldsBits w (i + 1) bs

pub &&_left : (a b : Bool) → (a && b) ≡ true → a ≡ true
&&_left true b h = refl
&&_left false b h = h

pub &&_right : (a b : Bool) → (a && b) ≡ true → b ≡ true
&&_right true b h = h
&&_right false b h = cc

unfoldable pub same_bit : Bool → Bool → Bool
same_bit true b = b
same_bit false b = not b

holds : ℕ → ℕ → List Bool → Bool
unfolding same_bit
holds w i [] = true
holds w i (b ∷ bs) = same_bit (bit_at (pos w) i) b && holds w (i + 1) bs

-- Every run of at most `n` bits more, behind `bs`.
all_hold : ℕ → List Bool → Bool
unfolding holds
all_hold zero bs = holds (to_uint8 (packed (pos 0) 0 bs)) 0 bs
all_hold (suc n) bs =
    holds (to_uint8 (packed (pos 0) 0 bs)) 0 bs
    && (all_hold n (bs ++ true ∷ []) && all_hold n (bs ++ false ∷ []))

eight_bits : all_hold 8 [] ≡ true
unfolding all_hold bit_at set_bit js_or js_and js_shl to_uint8
eight_bits = refl

holds-HoldsBits : (w i : ℕ) (bs : List Bool) → holds w i bs ≡ true → HoldsBits w i bs
unfolding holds same_bit
holds-HoldsBits w i [] h = tt
holds-HoldsBits w i (b ∷ bs) h = (ground arith, holds-HoldsBits w (i + 1) bs (ground arith))

all_hold-holds :
    (n : ℕ) (bs cs : List Bool)
    → length cs ≤ n
    → all_hold n bs ≡ true
    → holds (to_uint8 (packed (pos 0) 0 (bs ++ cs))) 0 (bs ++ cs) ≡ true
unfolding all_hold
all_hold-holds zero bs [] l h = rw (append-nil bs) h
all_hold-holds zero bs (c ∷ cs) l h = absurd (omega arith)
all_hold-holds (suc n) bs [] l h = rw (append-nil bs) (&&_left _ _ h)
all_hold-holds (suc n) bs (true ∷ cs) l h =
    rw (append_assoc bs (true ∷ []) cs) at
      (all_hold-holds n (bs ++ true ∷ []) cs (omega arith) (&&_left _ _ (&&_right _ _ h)))
all_hold-holds (suc n) bs (false ∷ cs) l h =
    rw (append_assoc bs (false ∷ []) cs) at
      (all_hold-holds n (bs ++ false ∷ []) cs (omega arith) (&&_right _ _ (&&_right _ _ h)))

-- At most eight bits are held by the octet that they are packed into.
pub packed-HoldsBits :
    (bs : List Bool) → length bs ≤ 8 → HoldsBits (to_uint8 (packed (pos 0) 0 bs)) 0 bs
packed-HoldsBits bs l = holds-HoldsBits _ 0 bs (all_hold-holds 8 [] bs l eight_bits)

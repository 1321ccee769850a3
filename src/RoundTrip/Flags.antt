-- ===== src/RoundTrip/Flags.antt =====
-- The property flags that `_sendHeader` of lib/connection.js sets, as `_parseHeaderFrame` of
-- lib/parser.js reads them.
use node_amqp.Prelude.{
  ℕ, zero, suc, ◌+◌, ◌-◌, ◌≤◌, ◌≡◌, refl, ap, arith, Bool, true, false, ◌&&◌, List, [], ◌∷◌, ◌++◌,
  append_assoc, append-nil, length, ℤ, pos, if◌then◌else◌,
}
use node_amqp.Js.{js_or, js_and, js_shl, to_uint32}
use node_amqp.Definitions.Info.{Field}
use node_amqp.Parser.Fields.{is_set}
use node_amqp.Parser.Methods.{flagged}
use node_amqp.Connection.Headers.{set_flag}
use node_amqp.RoundTrip.Ints.{wire_value}
use node_amqp.RoundTrip.Bits.{&&_left, &&_right, same_bit}

-- The flags of a list of fields.
abbrev pub flags_of : ℤ → ℕ → List Bool → ℤ
flags_of z i [] = z
flags_of z i (b ∷ bs) = flags_of (set_flag b z i) (i + 1) bs

-- The fields whose flags are set.
abbrev pub chosen : List Bool → List Field → List Field
chosen (true ∷ bs) (f ∷ fs) = f ∷ chosen bs fs
chosen (false ∷ bs) (f ∷ fs) = chosen bs fs
chosen _ _ = []

agree : ℤ → ℕ → List Bool → Bool
agree z i [] = true
agree z i (b ∷ bs) = same_bit (is_set (js_and z (js_shl (pos 1) (15 - i)))) b && agree z (i + 1) bs

-- Every list of at most `n` flags more, behind `bs`.
all_agree : ℕ → List Bool → Bool
unfolding agree
all_agree zero bs = agree (wire_value 2 (flags_of (pos 0) 0 bs)) 0 bs
all_agree (suc n) bs =
    agree (wire_value 2 (flags_of (pos 0) 0 bs)) 0 bs
    && (all_agree n (bs ++ true ∷ []) && all_agree n (bs ++ false ∷ []))

fourteen_flags : all_agree 14 [] ≡ true
unfolding all_agree set_flag wire_value same_bit js_or js_and js_shl to_uint32
fourteen_flags = refl

all_agree-agree :
    (n : ℕ) (bs cs : List Bool)
    → length cs ≤ n
    → all_agree n bs ≡ true
    → agree (wire_value 2 (flags_of (pos 0) 0 (bs ++ cs))) 0 (bs ++ cs) ≡ true
unfolding all_agree
all_agree-agree zero bs [] l h = rw (append-nil bs) h
all_agree-agree zero bs (c ∷ cs) l h = absurd (omega arith)
all_agree-agree (suc n) bs [] l h = rw (append-nil bs) (&&_left _ _ h)
all_agree-agree (suc n) bs (true ∷ cs) l h =
    rw (append_assoc bs (true ∷ []) cs) at
      (all_agree-agree n (bs ++ true ∷ []) cs (omega arith) (&&_left _ _ (&&_right _ _ h)))
all_agree-agree (suc n) bs (false ∷ cs) l h =
    rw (append_assoc bs (false ∷ []) cs) at
      (all_agree-agree n (bs ++ false ∷ []) cs (omega arith) (&&_right _ _ (&&_right _ _ h)))

read_flag :
    (x b rest : Bool) (f : Field) (gs : List Field) (bs : List Bool) (fs : List Field)
    → (same_bit x b && rest) ≡ true
    → gs ≡ chosen bs fs
    → (if x then f ∷ gs else gs) ≡ chosen (b ∷ bs) (f ∷ fs)
unfolding same_bit
read_flag true true rest f gs bs fs h e = ap (λ (l : List Field). f ∷ l) e
read_flag true false rest f gs bs fs h e = cc
read_flag false true rest f gs bs fs h e = cc
read_flag false false rest f gs bs fs h e = e

flagged-agree :
    (z : ℤ) (i : ℕ) (bs : List Bool) (fs : List Field)
    → length bs ≡ length fs
    → agree z i bs ≡ true
    → flagged z i fs ≡ chosen bs fs
unfolding flagged agree
flagged-agree z i [] [] l h = refl
flagged-agree z i [] (f ∷ fs) l h = absurd (omega arith)
flagged-agree z i (b ∷ bs) [] l h = absurd (omega arith)
flagged-agree z i (b ∷ bs) (f ∷ fs) l h =
    read_flag _ b _ f _ bs fs h (flagged-agree z (i + 1) bs fs (omega arith) (&&_right _ _ h))

-- Up to fourteen flags are read from the two bytes as they were set.
pub flagged-flags_of :
    (bs : List Bool) (fs : List Field)
    → length bs ≡ length fs
    → length bs ≤ 14
    → flagged (wire_value 2 (flags_of (pos 0) 0 bs)) 0 fs ≡ chosen bs fs
flagged-flags_of bs fs l m = flagged-agree _ 0 bs fs l (all_agree-agree 14 [] bs m fourteen_flags)

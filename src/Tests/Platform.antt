-- ===== src/Tests/Platform.antt =====
-- A platform for the tests: texts of ASCII characters, and doubles that hold integers and one fraction.
use node_amqp.Prelude.{
  true, false, Bool, Bool-cases, inl, inr, ltb, ltb→lt, if◌then◌else◌, ℕ, zero, suc, ◌+◌, ◌*◌, ◌/◌,
  ◌%◌, ◌<◌, ◌≡◌, refl, ap, arith, List, [], ◌∷◌, All, length, pos, negsuc,
}
use node_amqp.Values.{Number, int, fraction, Text, Platform, IsFaithful, IsExact}

abbrev digits : ℕ → List ℕ
digits n =
    n / 0x1_0000_0000_0000 % 256
    ∷ n / 0x100_0000_0000 % 256
    ∷ n / 0x1_0000_0000 % 256
    ∷ n / 0x100_0000 % 256
    ∷ n / 0x1_0000 % 256
    ∷ n / 0x100 % 256
    ∷ n % 256
    ∷ []

abbrev pack : Number Unit → List ℕ
pack (int (pos n)) = 0 ∷ digits n
pack (int (negsuc n)) = 1 ∷ digits n
pack (fraction d) = 2 ∷ digits 0

abbrev value_of : List ℕ → ℕ
value_of (a ∷ b ∷ c ∷ d ∷ e ∷ f ∷ g ∷ _) =
    a * 0x1_0000_0000_0000
    + b * 0x100_0000_0000
    + c * 0x1_0000_0000
    + d * 0x100_0000
    + e * 0x1_0000
    + f * 0x100
    + g
value_of _ = 0

abbrev unpack : List ℕ → List (Number Unit)
unpack (zero ∷ xs) = int (pos (value_of xs)) ∷ []
unpack (suc zero ∷ xs) = int (negsuc (value_of xs)) ∷ []
unpack _ = fraction tt ∷ []

abbrev pub ascii : Platform
ascii = record {
  Double = Unit;
  encode = λ s. s;
  decode = λ xs. xs;
  pack_double = pack;
  unpack_double = unpack;
  unpack_single = unpack;
  divide = λ a b. fraction tt;
  exceeds = λ d n. false;
  cut = λ d. pos 0;
  coerce = λ v. pos 0;
  element = λ v i. pos 0;
  is_truthy = λ v. false;
  is_undefined = λ v. true;
  index_key = λ i. (b'0' + i) ∷ [];
}

abbrev pub IsAscii : Text → Type 0
IsAscii = All (λ u. u < 128)

value_of-digits : (n : ℕ) → n < 0x100_0000_0000_0000 → value_of (digits n) ≡ n
value_of-digits n h = omega arith

unpack-pack : (n : Number Unit) → IsExact n → unpack (pack n) ≡ n ∷ []
unpack-pack (int (pos n)) (_, h) = ap (λ k. int (pos k) ∷ []) (value_of-digits n (omega arith))
unpack-pack (int (negsuc n)) (h, _) =
    ap (λ k. int (negsuc k) ∷ []) (value_of-digits n (omega arith))
unpack-pack (fraction d) h = refl

length-pack : (n : Number Unit) → length (pack n) ≡ 8
length-pack (int (pos n)) = refl
length-pack (int (negsuc n)) = refl
length-pack (fraction d) = refl

pub ascii-IsFaithful : IsFaithful ascii IsAscii
ascii-IsFaithful = record {
  decode-encode = λ s w. refl;
  length-pack_double = length-pack;
  unpack-pack_double = unpack-pack;
}

abbrev all_ascii : Text → Bool
all_ascii [] = true
all_ascii (u ∷ s) = if ltb u 128 then all_ascii s else false

pub all_ascii-IsAscii : (s : Text) → all_ascii s ≡ true → IsAscii s
all_ascii-IsAscii [] h = tt
all_ascii-IsAscii (u ∷ s) h = elim (Bool-cases (ltb u 128)) [
  | inl e ↦ (ltb→lt u 128 e, all_ascii-IsAscii s (rw e at h))
  | inr e ↦ let clash : false ≡ true = rw e at h in cc
]

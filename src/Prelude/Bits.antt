-- ===== src/Prelude/Bits.antt =====
-- `bit_and` with a fixed mask, as arithmetic: the mask is read off its digits, lowest first.
use Prim.Native.Nat.{ℕ, zero, suc, ◌+◌, ◌*◌, ◌/◌, ◌%◌, ◌≤◌, min, bit_and, digits, bit_and-bitwise}
use mathlib.Core.Path.{◌≡◌, refl, sym, ap, ◌∙◌}
use native.Mathlib.Omega.{arith}

-- `f` is what the mask `m` leaves of a number.
abbrev Leaves : ℕ → (ℕ → ℕ) → Type 0
Leaves m f = (f 0 ≡ 0) × ((count a : ℕ) → a ≤ count → digits (λ _. zero) min count a m ≡ f a)

-- A digit below the mask's others: `a % 2` stays under a one, nothing under a zero.
with_digit :
    {f : ℕ → ℕ} (m d m' : ℕ)
    → m' / 2 ≡ m
    → m' % 2 ≡ d
    → Leaves m f
    → Leaves m' (λ a. f (a / 2) * 2 + min (a % 2) d)
with_digit {f} m d m' h l (at_zero, leaves) = (omega (arith, at_zero), all)
  where
    all :
        (count a : ℕ)
        → a ≤ count
        → digits (λ _. zero) min count a m' ≡ f (a / 2) * 2 + min (a % 2) d
    all zero zero q = omega (arith, at_zero)
    all zero (suc a) q = absurd (omega arith)
    all (suc count) zero q = omega (arith, at_zero)
    all (suc count) (suc a) q = rw (h, l) (omega (arith, leaves count (suc a / 2) (omega arith)))

no_mask : Leaves 0 (λ _. 0)
no_mask = (omega arith, none_left)
  where
    none_left : (count a : ℕ) → a ≤ count → digits (λ _. zero) min count a 0 ≡ 0
    none_left zero a q = omega arith
    none_left (suc count) zero q = omega arith
    none_left (suc count) (suc a) q = omega (arith, none_left count (suc a / 2) (omega arith))

bit_and-Leaves : {m : ℕ} {f : ℕ → ℕ} (a : ℕ) → Leaves m f → bit_and a m ≡ f a
bit_and-Leaves {m} a (_, leaves) = bit_and-bitwise a m ∙ leaves a a (omega arith)

pub bit_and-zero : (a : ℕ) → bit_and a 0 ≡ 0
bit_and-zero a = bit_and-Leaves a no_mask

same : {m : ℕ} {f g : ℕ → ℕ} → Leaves m f → ((a : ℕ) → f a ≡ g a) → Leaves m g
same (at_zero, leaves) e = (sym (e 0) ∙ at_zero, λ count a q. leaves count a q ∙ e a)

-- Four ones, and four zeros, below a mask.
four_ones :
    {m : ℕ} {f : ℕ → ℕ} (m' : ℕ)
    → m * 16 + 15 ≡ m'
    → Leaves m f
    → Leaves m' (λ a. f (a / 16) * 16 + a % 16)
four_ones {m} {f} m' e h = rw (← e) (
    same
      (with_digit (m * 8 + 7) 1 (m * 16 + 15) (omega arith) (omega arith) (
        with_digit (m * 4 + 3) 1 (m * 8 + 7) (omega arith) (omega arith) (
          with_digit (m * 2 + 1) 1 (m * 4 + 3) (omega arith) (omega arith)
            (with_digit m 1 (m * 2 + 1) (omega arith) (omega arith) h))))
      (λ a. omega (arith, ap f (halves a))))
  where
    halves : (a : ℕ) → a / 2 / 2 / 2 / 2 ≡ a / 16
    halves a = omega arith

four_zeros :
    {m : ℕ} {f : ℕ → ℕ} (m' : ℕ) → m * 16 ≡ m' → Leaves m f → Leaves m' (λ a. f (a / 16) * 16)
four_zeros {m} {f} m' e h = rw (← e) (
    same
      (with_digit (m * 8) 0 (m * 16) (omega arith) (omega arith) (
        with_digit (m * 4) 0 (m * 8) (omega arith) (omega arith) (
          with_digit (m * 2) 0 (m * 4) (omega arith) (omega arith)
            (with_digit m 0 (m * 2) (omega arith) (omega arith) h))))
      (λ a. omega (arith, ap f (halves a))))
  where
    halves : (a : ℕ) → a / 2 / 2 / 2 / 2 ≡ a / 16
    halves a = omega arith

low_octet : Leaves 0xff (λ a. (0 * 16 + a / 16 % 16) * 16 + a % 16)
low_octet = four_ones 0xff refl (four_ones 0xf refl no_mask)

octet_up :
    {m : ℕ} {f : ℕ → ℕ} (m' : ℕ)
    → m * 256 ≡ m'
    → Leaves m f
    → Leaves m' (λ a. f (a / 16 / 16) * 16 * 16)
octet_up {m} m' e h = four_zeros m' (omega arith) (four_zeros (m * 16) refl h)

-- The four masks of a long.
pub mask0 : (a : ℕ) → bit_and a 0xff ≡ a % 256
mask0 a = omega (arith, bit_and-Leaves a low_octet)

pub mask1 : (a : ℕ) → bit_and a 0xff00 ≡ a / 256 % 256 * 256
mask1 a = omega (arith, bit_and-Leaves a (octet_up 0xff00 refl low_octet))

pub mask2 : (a : ℕ) → bit_and a 0xff_0000 ≡ a / 65536 % 256 * 65536
mask2 a = omega (arith, bit_and-Leaves a (octet_up 0xff_0000 refl (octet_up 0xff00 refl low_octet)))

pub mask3 : (a : ℕ) → bit_and a 0xff00_0000 ≡ a / 16777216 % 256 * 16777216
mask3 a = omega (
  arith,
  bit_and-Leaves a
      (octet_up 0xff00_0000 refl (octet_up 0xff_0000 refl (octet_up 0xff00 refl low_octet))),
)

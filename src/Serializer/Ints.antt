-- ===== src/Serializer/Ints.antt =====
-- `serializeInt` of lib/serializer.js, and the bytes that it writes.
use node_amqp.Prelude.{
  ℕ, ◌+◌, ◌/◌, ◌%◌, ◌≡◌, refl, ap, arith, List, [], ◌∷◌, ◌++◌, map, length, length-append, ltb,
  ◌==◌, ℤ, pos, if◌then◌else◌, le→ltb_false, lt→ltb, ◌<◌, ◌≤◌, ◌⊎◌, inl, inr,
}
use node_amqp.Js.{word, to_uint32, to_uint8, js_and, js_shr}
use node_amqp.Js.Laws.{byte0, byte1, byte2, byte3, byte_high}
use node_amqp.Result.{Result, ok, err, ◌>>=◌, write_out_of_bounds, bad_size}
use node_amqp.Serializer.Buffer.{Buffer, put_all, put_all-at, at}

-- `(int & mask) >> k`
abbrev octet_of : ℤ → ℕ → ℕ → ℤ
octet_of int mask k = js_shr (js_and int (pos mask)) k

unfoldable pub int_octets : ℕ → ℤ → Result (List ℤ)
int_octets size int =
    if size == 1
    then ok (int ∷ [])
    else if size == 2
    then ok (octet_of int 0xff00 8 ∷ octet_of int 0xff 0 ∷ [])
    else if size == 4
    then ok (
        octet_of int 0xff00_0000 24
        ∷ octet_of int 0xff_0000 16
        ∷ octet_of int 0xff00 8
        ∷ octet_of int 0xff 0
        ∷ [])
    else if size == 8
    then ok (
        octet_of int 0xff00_0000_0000_0000 56
        ∷ octet_of int 0xff_0000_0000_0000 48
        ∷ octet_of int 0xff00_0000_0000 40
        ∷ octet_of int 0xff_0000_0000 32
        ∷ octet_of int 0xff00_0000 24
        ∷ octet_of int 0xff_0000 16
        ∷ octet_of int 0xff00 8
        ∷ octet_of int 0xff 0
        ∷ [])
    else err bad_size

-- `serializeInt(b, size, int)`
unfoldable pub serialize_int : Buffer → ℕ → ℤ → Result Buffer
serialize_int b size int =
    if ltb (length b.mem) (b.used + size)
    then err write_out_of_bounds
    else (int_octets size int >>= λ vs. ok (put_all b vs))

-- The sizes that the code knows.
abbrev pub IsWidth : ℕ → Type 0
IsWidth size = (size ≡ 1) ⊎ (size ≡ 2) ⊎ (size ≡ 4) ⊎ (size ≡ 8)

abbrev pub long_bytes : ℕ → List ℕ
long_bytes w = w / 16777216 % 256 ∷ w / 65536 % 256 ∷ w / 256 % 256 ∷ w % 256 ∷ []

-- The format, in plain arithmetic. The upper half of a long long is always zero.
unfoldable pub int_bytes : ℕ → ℤ → List ℕ
int_bytes size int =
    let w = to_uint32 int in
    if size == 1
    then to_uint8 int ∷ []
    else if size == 2
    then w / 256 % 256 ∷ w % 256 ∷ []
    else if size == 4
    then long_bytes w
    else 0 ∷ 0 ∷ 0 ∷ 0 ∷ long_bytes w

pub length-int_bytes : (size : ℕ) (int : ℤ) → IsWidth size → length (int_bytes size int) ≡ size
unfolding int_bytes
length-int_bytes size int (inl e) = rw e
length-int_bytes size int (inr (inl e)) = rw e
length-int_bytes size int (inr (inr (inl e))) = rw e
length-int_bytes size int (inr (inr (inr e))) = rw e

-- The masks of the upper half of a long long are zero as 32-bit integers.
high : (int : ℤ) (m k : ℕ) → m % word ≡ 0 → to_uint8 (octet_of int m k) ≡ 0
high int m k h = byte_high int m k h

-- The masks and shifts compute the format.
int_octets_lem :
    (size : ℕ) (int : ℤ)
    → IsWidth size
    → (vs : List ℤ) × (int_octets size int ≡ ok vs)
      × (map to_uint8 vs ≡ int_bytes size int)
      × (length vs ≡ size)
unfolding int_octets int_bytes
int_octets_lem size int (inl e) = rw e (_, refl, refl, refl)
int_octets_lem size int (inr (inl e)) = rw e (_, refl, rw (byte0 int, byte1 int), refl)
int_octets_lem size int (inr (inr (inl e))) =
    rw e (_, refl, rw (byte0 int, byte1 int, byte2 int, byte3 int), refl)
int_octets_lem size int (inr (inr (inr e))) = rw e (
  _,
  refl,
  rw (
    high int _ 56 refl,
    high int _ 48 refl,
    high int _ 40 refl,
    high int _ 32 refl,
    byte0 int,
    byte1 int,
    byte2 int,
    byte3 int,
  ),
  refl,
)

pub serialize_int-at :
    (size : ℕ) (int : ℤ) (front hole back : List ℕ)
    → IsWidth size
    → length hole ≡ size
    → serialize_int (at front (hole ++ back)) size int ≡ ok (at (front ++ int_bytes size int) back)
unfolding serialize_int
serialize_int-at size int front hole back w h =
    let (vs, e, m, l) = int_octets_lem size int w in
    let room : length front + size ≤ length (front ++ (hole ++ back)) =
      omega (arith, length-append front (hole ++ back), length-append hole back) in
    rw (le→ltb_false _ _ room, e, ← m) (ap ok (put_all-at vs front hole back (omega arith)))

-- A write that would pass the end of the buffer throws.
pub serialize_int_bounds :
    (b : Buffer) (size : ℕ) (int : ℤ)
    → length b.mem < b.used + size
    → serialize_int b size int ≡ err write_out_of_bounds
unfolding serialize_int
serialize_int_bounds b size int h = rw (lt→ltb _ _ h)

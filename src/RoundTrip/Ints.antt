-- ===== src/RoundTrip/Ints.antt =====
-- `parseInt` of lib/parser.js on what `serializeInt` of lib/serializer.js wrote.
use node_amqp.Prelude.{
  ℕ, ◌+◌, ◌*◌, ◌/◌, ◌%◌, ◌<◌, ◌≡◌, ◌∙◌, arith, ◌⊎◌, inl, inr, List, ◌++◌, append_assoc, ◌↔◌, length,
  ◌==◌, ℤ, pos, negsuc, ◌≤ℤ◌, ◌+ℤ◌, if◌then◌else◌,
}
use node_amqp.Js.{word, to_uint8, to_uint32, to_int32, signed32}
use node_amqp.Js.Laws.{to_uint32-lt}
use node_amqp.Result.{Result, ok, ◌>>=◌}
use node_amqp.Serializer.Buffer.{at}
use node_amqp.Serializer.Ints.{serialize_int, serialize_int-at, int_bytes, IsWidth}
use node_amqp.Parser.Cursor.{Cursor, past}
use node_amqp.Parser.Ints.{
  parse_int, parse_int1-past, parse_int2-past, parse_int4-past, parse_int8-past,
}

-- The number that comes back for `int`.
unfoldable pub wire_value : ℕ → ℤ → ℤ
wire_value size int =
    if size == 1
    then pos (to_uint8 int)
    else if size == 2
    then pos (to_uint32 int % 65536)
    else to_int32 int

to_uint8-lt : (a : ℤ) → to_uint8 a < 256
unfolding to_uint8
to_uint8-lt (pos n) = omega arith
to_uint8-lt (negsuc n) = omega arith

word_of_octets :
    (w : ℕ)
    → w < word
    → w / 16777216 % 256 * 16777216 + w / 65536 % 256 * 65536 + w / 256 % 256 * 256 + w % 256 ≡ w
word_of_octets w h = omega arith

zero_plus_int32 : (w : ℕ) → signed32 0 +ℤ signed32 w ≡ signed32 w
unfolding ◌+ℤ◌ signed32
zero_plus_int32 w = ground arith

pub parse_int-int_bytes :
    (size : ℕ) (int : ℤ) (front back : List ℕ)
    → IsWidth size
    → parse_int size (past front (int_bytes size int ++ back))
      ≡ ok (wire_value size int, past (front ++ int_bytes size int) back)
unfolding parse_int int_bytes wire_value to_int32
parse_int-int_bytes size int front back (inl e) = rw e (parse_int1-past front (to_uint8 int) back)
parse_int-int_bytes size int front back (inr (inl e)) =
    let low : to_uint32 int / 256 % 256 * 256 + to_uint32 int % 256 ≡ to_uint32 int % 65536 =
      omega arith in
    rw (e, ← low) (parse_int2-past front _ _ back (omega arith) (omega arith))
parse_int-int_bytes size int front back (inr (inr (inl e))) = rw e (
    parse_int4-past front _ _ _ _ back (omega arith) (omega arith) (omega arith) (omega arith)
    ∙ rw (word_of_octets (to_uint32 int) (to_uint32-lt int)))
parse_int-int_bytes size int front back (inr (inr (inr e))) = rw e (
    parse_int8-past front 0 0 0 0 _ _ _ _ back (omega arith) (omega arith) (omega arith)
      (omega arith) (omega arith) (omega arith) (omega arith) (omega arith)
    ∙ rw (word_of_octets (to_uint32 int) (to_uint32-lt int), zero_plus_int32))

-- `int` written over `hole`, and a number read from the same place.
abbrev pub write_read : ℕ → ℤ → List ℕ → List ℕ → List ℕ → Result (ℤ × Cursor)
write_read size int front hole back = serialize_int (at front (hole ++ back)) size int >>= λ b.
    parse_int size (record { mem = b.mem; read = length front })

-- Writing an integer where there is room and reading it at the same place gives `wire_value`, and
-- touches neither what stands before it nor what stands behind.
pub parse_int-serialize_int :
    (size : ℕ) (int : ℤ) (front hole back : List ℕ)
    → IsWidth size
    → length hole ≡ size
    → write_read size int front hole back
      ≡ ok (wire_value size int, past (front ++ int_bytes size int) back)
parse_int-serialize_int size int front hole back w h =
    rw (serialize_int-at size int front hole back w h) (
      rw (← append_assoc front (int_bytes size int) back) at
        (parse_int-int_bytes size int front back w))

-- The integers that a field of a size holds.
abbrev pub Fits : ℕ → ℤ → Type 0
Fits size int =
    ((size ≡ 1) × (pos 0 ≤ℤ int) × (int ≤ℤ pos 255))
    ⊎ ((size ≡ 2) × (pos 0 ≤ℤ int) × (int ≤ℤ pos 65535))
    ⊎ ((size ≡ 4) × (negsuc 2147483647 ≤ℤ int) × (int ≤ℤ pos 2147483647))
    ⊎ ((size ≡ 8) × (negsuc 2147483647 ≤ℤ int) × (int ≤ℤ pos 2147483647))

wire_value_exact : (size : ℕ) (int : ℤ) → Fits size int → wire_value size int ≡ int
unfolding wire_value to_uint8 to_int32 to_uint32
wire_value_exact size (pos n) f = ground arith
wire_value_exact size (negsuc n) f = ground arith

wire_value_only : (size : ℕ) (int : ℤ) → IsWidth size → wire_value size int ≡ int → Fits size int
unfolding wire_value to_uint8 to_int32 to_uint32
wire_value_only size (pos n) (inl e) f = inl (ground arith)
wire_value_only size (negsuc n) (inl e) f = inl (ground arith)
wire_value_only size (pos n) (inr (inl e)) f = inr (inl (ground arith))
wire_value_only size (negsuc n) (inr (inl e)) f = inr (inl (ground arith))
wire_value_only size (pos n) (inr (inr (inl e))) f = inr (inr (inl (ground arith)))
wire_value_only size (negsuc n) (inr (inr (inl e))) f = inr (inr (inl (ground arith)))
wire_value_only size (pos n) (inr (inr (inr e))) f = inr (inr (inr (ground arith)))
wire_value_only size (negsuc n) (inr (inr (inr e))) f = inr (inr (inr (ground arith)))

ok-injective :
    {v w : ℤ} {c d : Cursor} → ◌≡◌ {A = Result (ℤ × Cursor)} (ok (v, c)) (ok (w, d)) → v ≡ w
ok-injective e = cc

-- An integer written in one of the sizes 1, 2, 4 or 8, with exactly that room in the buffer, is read
-- back unchanged exactly when it lies in 0..255, 0..65535, or, for 4 and for 8 bytes alike, in the
-- range of a signed 32-bit integer; and then the reader stands behind it.
pub write_read_iff :
    (size : ℕ) (int : ℤ) (front hole back : List ℕ)
    → IsWidth size
    → length hole ≡ size
    → (write_read size int front hole back ≡ ok (int, past (front ++ int_bytes size int) back))
      ↔ Fits size int
write_read_iff size int front hole back w h = (
  λ e.
      wire_value_only size int w
        (ok-injective (rw (parse_int-serialize_int size int front hole back w h) at e)),
  λ f. rw (parse_int-serialize_int size int front hole back w h, wire_value_exact size int f),
)

-- ===== src/RoundTrip/Scalars.antt =====
-- Texts, numbers, booleans and dates that lib/serializer.js wrote, read by lib/parser.js.
use node_amqp.Prelude.{
  ℕ, ◌<◌, ◌≡◌, arith, List, [], ◌∷◌, length, subst, false, ltb_ℤ, Bool-cases, inl, inr, ℤ, pos,
  negsuc,
}
use node_amqp.Js.{to_int32, to_uint32, signed32}
use node_amqp.Values.{
  Number, int, fraction, Text, Value, Items, Entries, Platform, IsExact, IsFaithful, number,
  boolean, array, no_items, item,
}
use node_amqp.Serializer.Values.{is_float, is_big_int, seconds}
use node_amqp.Serializer.Ints.{int_bytes}
use node_amqp.Serializer.Format.{with_size, short_string, format_number}
use node_amqp.Parser.Cursor
use node_amqp.Parser.Cursor.{Cursor, Parser, pure, next, past}
use node_amqp.Parser.Ints.{parse_int4, parse_int1}
use node_amqp.Parser.Values.{
  numbers, times, parse_short_string, parse_long_string, parse_time, by_tag, value_step,
  take_octets,
}
use node_amqp.RoundTrip.Reads.{
  Reads, then-Reads, map-Reads, next-Reads, int4-Reads, int8-Reads, size-Reads, slice-Reads,
  octets-Reads,
}
use node_amqp.RoundTrip.Steps.{tag-Reads}
use node_amqp.RoundTrip.Received.{received_number}

-- An integer that is not sent as a double fits into the four bytes.
int32_of_plain :
    (D : Type 0) (z : ℤ)
    → is_float {D = D} (int z) ≡ false
    → (to_int32 z ≡ z) × (is_big_int z ≡ false)
unfolding is_float is_big_int to_int32 to_uint32 signed32
int32_of_plain D (pos n) h = (ground arith, ground arith)
int32_of_plain D (negsuc n) h = (ground arith, ground arith)

module _ (p : Platform) (IsWellFormed : Text → Type 0) (faithful : IsFaithful p IsWellFormed) where
  open p use {Double, encode, decode, pack_double, unpack_double}

  pub short-Reads : (s : Text) → IsWellFormed s → Reads (parse_short_string p) (short_string p s) s
  unfolding parse_short_string
  short-Reads s w =
      subst (Reads (parse_short_string p) (short_string p s)) (faithful.decode-encode s w)
        (then-Reads _ (next-Reads _) (map-Reads decode (slice-Reads (encode s))))

  pub long-Reads :
      (s : Text)
      → IsWellFormed s
      → length (encode s) < 0x8000_0000
      → Reads (parse_long_string p) (with_size (encode s)) s
  unfolding parse_long_string
  long-Reads s w l =
      subst (Reads (parse_long_string p) (with_size (encode s))) (faithful.decode-encode s w)
        (then-Reads _ (size-Reads _ l) (map-Reads decode (slice-Reads (encode s))))

  double-Reads :
      (n : Number Double)
      → IsExact n
      → Reads
          (Cursor.◌>>=◌ (take_octets 8) λ x. pure (array (numbers (unpack_double x))))
          (pack_double n)
          (array (item (number n) no_items))
  unfolding numbers
  double-Reads n e =
      let octets =
        subst (λ (k : ℕ). Reads (take_octets k) (pack_double n) (pack_double n))
          (faithful.length-pack_double n) (octets-Reads (pack_double n)) in
      subst
        (λ (ns : List (Number Double)).
          Reads (Cursor.◌>>=◌ (take_octets 8) λ x. pure (array (numbers (unpack_double x))))
            (pack_double n) (array (numbers ns)))
        (faithful.unpack-pack_double n e)
        (map-Reads (λ x. array (numbers (unpack_double x))) octets)

  module _ (entries : ℤ → Entries Double → Parser (Entries Double))
      (items : ℤ → Parser (Items Double)) where
    pub number-Reads :
        (n : Number Double)
        → IsExact n
        → Reads (value_step p entries items) (format_number p n) (received_number n)
    unfolding is_float format_number by_tag
    number-Reads (fraction d) e = tag-Reads p entries items b'd' (double-Reads (fraction d) e)
    number-Reads (int z) e = elim (Bool-cases (is_float {D = Double} (int z))) [
      | inl float ↦ rw float (tag-Reads p entries items b'd' (double-Reads (int z) e))
      | inr plain ↦
          let (same, small) = int32_of_plain Double z plain in
          rw (plain, small)
            (tag-Reads p entries items b'I' (
              subst
                (λ (w : ℤ).
                  Reads {A = Value Double} (Cursor.◌>>=◌ parse_int4 λ x. pure (number (int x)))
                    (int_bytes 4 z) (number (int w)))
                same (map-Reads (λ x. number (int x)) (int4-Reads z))))
    ]

  pub octet-Reads :
      (x : ℕ)
      → Reads {A = Value Double}
          (Cursor.◌>>=◌ parse_int1 λ n. pure (boolean (ltb_ℤ (pos 0) n)))
          (x ∷ [])
          (boolean (ltb_ℤ (pos 0) (pos x)))
  unfolding parse_int1
  octet-Reads x = map-Reads (λ n. boolean (ltb_ℤ (pos 0) n)) (map-Reads pos (next-Reads x))

  pub time-Reads :
      (ms : ℤ)
      → Reads
          (parse_time p)
          (int_bytes 8 (seconds ms))
          (number (int (times 1000 (to_int32 (seconds ms)))))
  unfolding parse_time
  time-Reads ms = map-Reads (λ s. number (int (times 1000 s))) (int8-Reads (seconds ms))

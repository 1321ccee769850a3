-- ===== src/RoundTrip/Params.antt =====
-- `parseFields` of lib/parser.js on the parameters that `serializeFields` of lib/serializer.js wrote, bits
-- aside.
use node_amqp.Prelude.{ℕ, ◌+◌, ◌<◌, ◌≡◌, ◌≢◌, refl, arith, inl, inr, [], ◌∷◌, length, subst, ℤ, pos}
use node_amqp.Js.{to_int32, to_uint8, to_uint32}
use node_amqp.Values.{
  int, Text, Value, Platform, IsFaithful, text, number, bytes, object, no_entries,
}
use node_amqp.Definitions.Info.{
  Domain, bit, octet, short, long, timestamp, longlong, shortstr, longstr, table,
}
use node_amqp.Serializer.Ints.{int_bytes, IsWidth}
use node_amqp.Serializer.Format.{format_entries}
use node_amqp.Serializer.FieldFormat.{IsParam, format_param}
use node_amqp.Parser.Ints.{parse_int}
use node_amqp.Parser.Fields.{parse_param}
use node_amqp.Parser.Values.{take_octets}
use node_amqp.RoundTrip.Ints.{parse_int-int_bytes, wire_value}
use node_amqp.RoundTrip.Reads.{Reads, map-Reads, next-Reads, octets-Reads}
use node_amqp.RoundTrip.Scalars.{short-Reads, long-Reads}
use node_amqp.RoundTrip.Received.{received_entries, IsReadable}
use node_amqp.RoundTrip.Values.{parse_table-Reads}

-- What comes back of a parameter: an integer of four or more bytes is read as a signed one.
abbrev pub received_param : {D : Type 0} → Domain → Value D → Value D
received_param long (number (int z)) = number (int (to_int32 z))
received_param timestamp (number (int z)) = number (int (to_int32 z))
received_param table (object es) = object (received_entries no_entries es)
received_param d v = v

int-Reads :
    (size : ℕ) (z : ℤ)
    → IsWidth size
    → Reads (parse_int size) (int_bytes size z) (wire_value size z)
int-Reads size z w = record { run = λ front back. parse_int-int_bytes size z front back w }

module _ (p : Platform) (IsWellFormed : Text → Type 0) where
  open p use {Double, encode}

  -- The parameters that `parseFields` can read, with the fuel `f`.
  abbrev pub IsReadableParam : ℕ → Domain → Value Double → Type 0
  IsReadableParam f shortstr (text s) = IsWellFormed s
  IsReadableParam f longstr (text s) = IsWellFormed s × (length (encode s) < 0x8000_0000)
  IsReadableParam f table (object es) =
      IsReadable p IsWellFormed (object es) × (length (format_entries p es) + 1 < f)
  IsReadableParam f d v = Unit

  module _ (faithful : IsFaithful p IsWellFormed) where
    number-Reads :
        (size : ℕ) (z w : ℤ)
        → IsWidth size
        → wire_value size z ≡ w
        → Reads (parse_int size) (int_bytes size z) w
    number-Reads size z w h e =
        subst (Reads (parse_int size) (int_bytes size z)) e (int-Reads size z h)

    pub param-Reads :
        (f : ℕ) (d : Domain) (v : Value Double)
        → d ≢ bit
        → IsParam p d v
        → IsReadableParam f d v
        → Reads (parse_param p f d) (format_param p d v) (received_param d v)
    unfolding parse_param format_param wire_value to_uint8 to_uint32
    param-Reads f bit v n h r = absurd (n refl)
    param-Reads f octet (number (int (pos n))) _ h r =
        subst (λ (x : ℕ). Reads (parse_param p f octet) (x ∷ []) (number (int (pos n))))
          (omega arith) (map-Reads (λ x. number (int (pos x))) (next-Reads n))
    param-Reads f short (number (int (pos n))) _ h r =
        map-Reads (λ z. number (int z)) (number-Reads 2 _ _ (inr (inl refl)) (ground arith))
    param-Reads f long (number (int (pos n))) _ h r =
        map-Reads (λ z. number (int z)) (number-Reads 4 _ _ (inr (inr (inl refl))) refl)
    param-Reads f timestamp (number (int z)) _ h r =
        map-Reads (λ z. number (int z)) (number-Reads 8 _ _ (inr (inr (inr refl))) refl)
    param-Reads f longlong (bytes xs) _ (l, small) r =
        map-Reads bytes (subst (λ (n : ℕ). Reads (take_octets n) xs xs) l (octets-Reads xs))
    param-Reads f shortstr (text s) _ h w = map-Reads text (short-Reads p IsWellFormed faithful s w)
    param-Reads f longstr (text s) _ h (w, l) =
        map-Reads text (long-Reads p IsWellFormed faithful s w l)
    param-Reads f table (object es) _ h (r, l) =
        map-Reads object (parse_table-Reads p IsWellFormed faithful f es r l)
    param-Reads f _ _ _ h r = elim h [ ]

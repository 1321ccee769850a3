-- ===== src/Serializer/FieldFormat.antt =====
-- The bytes of the fields of a method, and lib/serializer.js writes them.
use node_amqp.Prelude.{
  ℕ, ◌+◌, ◌≤◌, ◌<◌, ◌≡◌, Bool, List, [], ◌∷◌, ◌++◌, All, length, some, ℤ, pos, if◌then◌else◌,
}
use node_amqp.Js.{to_uint8}
use node_amqp.Values.{int, Value, Platform, text, number, boolean, bytes, object}
use node_amqp.Definitions.Info.{
  Domain, Field, bit, octet, short, long, timestamp, longlong, shortstr, longstr, table,
}
use node_amqp.Definitions.Tables.{lookup}
use node_amqp.Serializer.Ints.{int_bytes}
use node_amqp.Serializer.Format.{with_size, short_string, format_entries, AreSendableEntries}
use node_amqp.Serializer.Fields.{Args, same_name, bit_follows, set_bit, int_of}

module _ (p : Platform) where
  open p use {Double, encode}

  -- The parameters that a domain is meant for; a string of at most 255 units and 255 bytes.
  abbrev pub IsParam : Domain → Value Double → Type 0
  IsParam bit (boolean b) = Unit
  IsParam octet (number (int (pos n))) = n ≤ 0xff
  IsParam short (number (int (pos n))) = n ≤ 0xffff
  IsParam long (number (int (pos n))) = n ≤ 0xffff_ffff
  IsParam timestamp (number (int z)) = Unit
  IsParam longlong (bytes xs) = (length xs ≡ 8) × All (λ x. x < 256) xs
  IsParam shortstr (text s) = (length s ≤ 0xff) × (length (encode s) ≤ 0xff)
  IsParam longstr (text s) = Unit
  IsParam table (object es) = AreSendableEntries p es
  IsParam _ _ = ⊥

  abbrev pub AreParams : List Field → List (Value Double) → Type 0
  AreParams [] [] = Unit
  AreParams (f ∷ fs) (v ∷ vs) = IsParam f.domain v × AreParams fs vs
  AreParams _ _ = ⊥

  unfoldable pub format_param : Domain → Value Double → List ℕ
  unfolding int_of
  format_param octet v = to_uint8 (int_of p v) ∷ []
  format_param short v = int_bytes 2 (int_of p v)
  format_param long v = int_bytes 4 (int_of p v)
  format_param timestamp v = int_bytes 8 (int_of p v)
  format_param longlong (bytes xs) = xs
  format_param shortstr (text s) = short_string p s
  format_param longstr (text s) = with_size (encode s)
  format_param table (object es) = with_size (format_entries p es)
  format_param _ _ = []

  unfoldable pub format_field : Domain → Value Double → Bool → ℤ → ℕ → (ℤ → ℕ → List ℕ) → List ℕ
  unfolding format_param
  format_field bit (boolean x) follows bit_field i more =
      if follows
      then more (set_bit x bit_field i) (i + 1)
      else to_uint8 (set_bit x bit_field i) ∷ more (pos 0) 0
  format_field d v follows bit_field i more = format_param d v ++ more bit_field i

  -- The fields, behind bits that are packed into `bit_field`, `i` of them.
  unfoldable pub format_fields : List Field → List (Value Double) → ℤ → ℕ → List ℕ
  unfolding format_field
  format_fields [] vs bit_field i = []
  format_fields (f ∷ fs) [] bit_field i = []
  format_fields (f ∷ fs) (v ∷ vs) bit_field i =
      format_field f.domain v (bit_follows fs) bit_field i (format_fields fs vs)

  -- The arguments have the fields' values under the fields' names.
  abbrev pub Holds : Args Double → List Field → List (Value Double) → Type 0
  Holds args [] [] = Unit
  Holds args (f ∷ fs) (v ∷ vs) = (lookup same_name f.name args ≡ some v) × Holds args fs vs
  Holds args _ _ = ⊥

-- ===== src/Serializer/Format.antt =====
-- The bytes of a value that lib/serializer.js writes, in plain terms: each length stands before what it
-- is the length of.
use node_amqp.Prelude.{
  ℕ, ◌+◌, ◌≤◌, ◌≡◌, ◌≢◌, refl, arith, inl, inr, List, [], ◌∷◌, ◌++◌, length, length-append, true,
  false, pos, if◌then◌else◌,
}
use node_amqp.Values.{
  Number, int, fraction, Text, Value, Items, Entries, Platform, text, number, boolean, date, bytes,
  array, object, null, unsupported, no_items, item, no_entries, entry,
}
use node_amqp.Serializer.Ints.{int_bytes, length-int_bytes}
use node_amqp.Serializer.Values.{seconds, is_float, is_big_int}

-- A length and what it is the length of.
abbrev pub with_size : List ℕ → List ℕ
with_size xs = int_bytes 4 (pos (length xs)) ++ xs

pub length-with_size : (xs : List ℕ) → length (with_size xs) ≡ 4 + length xs
length-with_size xs = omega (
  arith,
  length-append (int_bytes 4 (pos (length xs))) xs,
  length-int_bytes 4 (pos (length xs)) (inr (inr (inl refl))),
)

module _ (p : Platform) where
  open p use {Double, encode, pack_double}

  abbrev pub short_string : Text → List ℕ
  short_string s = length (encode s) ∷ encode s

  unfoldable pub format_number : Number Double → List ℕ
  format_number (fraction d) = b'd' ∷ pack_double (fraction d)
  format_number (int z) =
      if is_float {D = Double} (int z)
      then b'd' ∷ pack_double (int z)
      else if is_big_int z
      then b'l' ∷ int_bytes 8 z
      else b'I' ∷ int_bytes 4 z

  unfoldable mutual
    pub format : Value Double → List ℕ
    format (text s) = b'S' ∷ with_size (encode s)
    format (number n) = format_number n
    format (boolean true) = b't' ∷ 1 ∷ []
    format (boolean false) = b't' ∷ 0 ∷ []
    format (date ms) = b'T' ∷ int_bytes 8 (seconds ms)
    format (bytes xs) = b'x' ∷ with_size xs
    format (array xs) = b'A' ∷ with_size (format_items xs)
    format (object es) = b'F' ∷ with_size (format_entries es)
    format null = b'F' ∷ with_size []
    format unsupported = []

    pub format_items : Items Double → List ℕ
    format_items no_items = []
    format_items (item v xs) = format v ++ format_items xs

    pub format_entries : Entries Double → List ℕ
    format_entries no_entries = []
    format_entries (entry k v es) = short_string k ++ (format v ++ format_entries es)

  -- The values that a table can hold.
  abbrev mutual
    pub IsSendable : Value Double → Type 0
    IsSendable (array xs) = AreSendable xs
    IsSendable (object es) = AreSendableEntries es
    IsSendable unsupported = ⊥
    IsSendable _ = Unit

    pub AreSendable : Items Double → Type 0
    AreSendable no_items = Unit
    AreSendable (item v xs) = IsSendable v × AreSendable xs

    pub AreSendableEntries : Entries Double → Type 0
    AreSendableEntries no_entries = Unit
    AreSendableEntries (entry k v es) =
        (length (encode k) ≤ 255) × IsSendable v × AreSendableEntries es

  pub length-format_pos : (v : Value Double) → v ≢ unsupported → 1 ≤ length (format v)
  unfolding format format_number
  length-format_pos (number (int z)) n = ground arith
  length-format_pos (boolean true) n = omega arith
  length-format_pos (boolean false) n = omega arith
  length-format_pos unsupported n = absurd (n refl)
  length-format_pos _ n = omega arith

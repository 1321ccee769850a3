-- ===== src/RoundTrip/Received.antt =====
-- What lib/parser.js makes of the values that lib/serializer.js writes.
use node_amqp.Prelude.{◌<◌, ◌++◌, length, if◌then◌else◌}
use node_amqp.Js.{to_int32}
use node_amqp.Values.{
  Number, int, Text, Value, Items, Entries, Platform, IsExact, text, number, boolean, date, bytes,
  array, object, null, unsupported, no_items, item, no_entries, entry,
}
use node_amqp.Serializer.Values.{is_float, seconds}
use node_amqp.Serializer.Format.{short_string, format, format_items, format_entries}
use node_amqp.Parser.Values.{set_entry, times}

-- A number that travels as a double comes back in an array of its own.
abbrev pub received_number : {D : Type 0} → Number D → Value D
received_number n = if is_float n then array (item (number n) no_items) else number n

-- A Date comes back as its milliseconds, less those that were cut off, and `null` as an empty object.
abbrev mutual
  pub received : {D : Type 0} → Value D → Value D
  received (text s) = text s
  received (number n) = received_number n
  received (boolean b) = boolean b
  received (date ms) = number (int (times 1000 (to_int32 (seconds ms))))
  received (bytes xs) = bytes xs
  received (array xs) = array (received_items xs)
  received (object es) = object (received_entries no_entries es)
  received null = object no_entries
  received unsupported = unsupported

  pub received_items : {D : Type 0} → Items D → Items D
  received_items no_items = no_items
  received_items (item v xs) = item (received v) (received_items xs)

  -- `table` are the entries read before.
  pub received_entries : {D : Type 0} → Entries D → Entries D → Entries D
  received_entries table no_entries = table
  received_entries table (entry k v es) = received_entries (set_entry k (received v) table) es

module _ (p : Platform) (IsWellFormed : Text → Type 0) where
  open p use {Double, encode}

  -- The last entry of a table takes more than four bytes.
  abbrev pub EndsLong : Entries Double → Type 0
  EndsLong no_entries = Unit
  EndsLong (entry k v no_entries) = 4 < length (short_string p k ++ format p v)
  EndsLong (entry k v (entry l w es)) = EndsLong (entry l w es)

  -- The values that can be read back: well-formed texts, exact numbers, lengths that are read as
  -- positive, and no table that ends in a short entry.
  abbrev mutual
    pub IsReadable : Value Double → Type 0
    IsReadable (text s) = IsWellFormed s × (length (encode s) < 0x8000_0000)
    IsReadable (number n) = IsExact n
    IsReadable (boolean b) = Unit
    IsReadable (date ms) = Unit
    IsReadable (bytes xs) = length xs < 0x8000_0000
    IsReadable (array xs) = (length (format_items p xs) < 0x8000_0000) × AreReadable xs
    IsReadable (object es) =
        (length (format_entries p es) < 0x8000_0000) × EndsLong es × AreReadableEntries es
    IsReadable null = Unit
    IsReadable unsupported = ⊥

    pub AreReadable : Items Double → Type 0
    AreReadable no_items = Unit
    AreReadable (item v xs) = IsReadable v × AreReadable xs

    pub AreReadableEntries : Entries Double → Type 0
    AreReadableEntries no_entries = Unit
    AreReadableEntries (entry k v es) = IsWellFormed k × IsReadable v × AreReadableEntries es

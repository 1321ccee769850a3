-- ===== src/Serializer/Values.antt =====
-- lib/serializer.js: strings, dates, buffers, floats, `serializeValue`, `serializeTable` and
-- `serializeArray`.
use node_amqp.Prelude.{
  ℕ, ◌+◌, ◌-◌, ◌/◌, ◌==◌, leb, ltb, not, Bool, true, false, List, length, ℤ, pos, negsuc, pos_part,
  neg_part, ltb_ℤ, ◌&&◌, if◌then◌else◌,
}
use node_amqp.Js.{to_int32}
use node_amqp.Result.{Result, ok, err, ◌>>=◌, string_too_long, not_enough_space, unsupported_type}
use node_amqp.Values.{
  Number, int, fraction, Text, Value, Items, Entries, Platform, text, number, boolean, date, bytes,
  array, object, null, unsupported, no_items, item, no_entries, entry,
}
use node_amqp.Serializer.Buffer.{Buffer, put, put_bytes}
use node_amqp.Serializer.Ints.{serialize_int}

-- `serializeBuffer(b, buffer)`
unfoldable pub serialize_buffer : List ℕ → Buffer → Result Buffer
serialize_buffer xs b = serialize_int b 4 (pos (length xs)) >>= λ c. ok (put_bytes c xs)

-- The seconds of `date.valueOf() / 1000`, cut to an integer as the bitwise operators of `serializeInt` do.
unfoldable pub seconds : ℤ → ℤ
seconds (pos ms) = pos (ms / 1000)
seconds (negsuc n) = let q = (n + 1) / 1000 in if q == 0 then pos 0 else negsuc (q - 1)

-- `serializeDate(b, date)`
unfoldable pub serialize_date : ℤ → Buffer → Result Buffer
unfolding seconds
serialize_date ms b = serialize_int b 8 (seconds ms)

abbrev eq_ℤ : ℤ → ℤ → Bool
eq_ℤ a b = pos_part a == pos_part b && neg_part a == neg_part b

-- `isFloat(value)`: `value === +value && value !== (value | 0)`
unfoldable pub is_float : {D : Type 0} → Number D → Bool
is_float (int z) = not (eq_ℤ z (to_int32 z))
is_float (fraction d) = true

-- `isBigInt(value)`: `value > 0xffffffff`
unfoldable pub is_big_int : ℤ → Bool
is_big_int z = ltb_ℤ (pos 0xffff_ffff) z

-- What `serializeTable` and `serializeArray` share: four bytes are left out for the length, and written
-- once the contents are there.
unfoldable pub with_length : (Buffer → Result Buffer) → Buffer → Result Buffer
with_length contents b =
    let length_index = b.used in
    let start_index = b.used + 4 in
    contents (record b { used = start_index }) >>= λ e.
    serialize_int (record e { used = length_index }) 4 (pos (e.used - start_index)) >>= λ l.
    ok (record l { used = e.used })

module _ (p : Platform) where
  open p use {Double, encode, pack_double}

  -- `serializeShortString(b, string)`
  unfoldable pub serialize_short_string : Text → Buffer → Result Buffer
  serialize_short_string s b =
      let byte_length = length (encode s) in
      if ltb 0xff byte_length
      then err string_too_long
      else if leb (length b.mem) (1 + byte_length + b.used)
      then err not_enough_space
      else ok (put_bytes (put b (pos byte_length)) (encode s))

  -- `serializeLongString(b, string)` for a string
  unfoldable pub serialize_long_string : Text → Buffer → Result Buffer
  serialize_long_string s b =
      serialize_int b 4 (pos (length (encode s))) >>= λ c. ok (put_bytes c (encode s))

  -- `serializeFloat(b, 8, value)`
  unfoldable pub serialize_double : Number Double → Buffer → Result Buffer
  serialize_double n b = ok (put_bytes b (pack_double n))

  unfoldable pub serialize_integer : ℤ → Buffer → Result Buffer
  unfolding is_big_int
  serialize_integer z b =
      if is_big_int z
      then serialize_int (put b (pos b'l')) 8 z
      else serialize_int (put b (pos b'I')) 4 z

  -- The case 'number' of `serializeValue`.
  unfoldable pub serialize_number : Number Double → Buffer → Result Buffer
  unfolding is_float serialize_double serialize_integer
  serialize_number (fraction d) b = serialize_double (fraction d) (put b (pos b'd'))
  serialize_number (int z) b =
      if is_float {D = Double} (int z)
      then serialize_double (int z) (put b (pos b'd'))
      else serialize_integer z b

  -- `serializeValue(b, value)`; `null` is an object with nothing to enumerate.
  unfoldable mutual
    pub serialize_value : Value Double → Buffer → Result Buffer
    serialize_value (text s) b = serialize_long_string s (put b (pos b'S'))
    serialize_value (number n) b = serialize_number n b
    serialize_value (boolean true) b = ok (put (put b (pos b't')) (pos 1))
    serialize_value (boolean false) b = ok (put (put b (pos b't')) (pos 0))
    serialize_value (date ms) b = serialize_date ms (put b (pos b'T'))
    serialize_value (bytes xs) b = serialize_buffer xs (put b (pos b'x'))
    serialize_value (array xs) b = with_length (serialize_items xs) (put b (pos b'A'))
    serialize_value (object es) b = with_length (serialize_entries es) (put b (pos b'F'))
    serialize_value null b = with_length (λ c. ok c) (put b (pos b'F'))
    serialize_value unsupported b = err unsupported_type

    -- The loop of `serializeArray`.
    pub serialize_items : Items Double → Buffer → Result Buffer
    serialize_items no_items b = ok b
    serialize_items (item v xs) b = serialize_value v b >>= serialize_items xs

    -- The loop of `serializeTable`.
    pub serialize_entries : Entries Double → Buffer → Result Buffer
    serialize_entries no_entries b = ok b
    serialize_entries (entry k v es) b =
        serialize_short_string k b >>= λ c. serialize_value v c >>= serialize_entries es

  -- `serializeTable(b, object)`
  unfoldable pub serialize_table : Entries Double → Buffer → Result Buffer
  unfolding serialize_value
  serialize_table es = with_length (serialize_entries es)

-- ===== src/Serializer/Fields.antt =====
-- `serializeFields` of lib/serializer.js.
use Prim.Native.String.{String}
use node_amqp.Prelude.{
  ℕ, zero, suc, ◌+◌, ltb, Bool, true, false, List, [], ◌∷◌, length, get_elem?, Option, none, some,
  ℤ, pos, ltb_ℤ, if◌then◌else◌,
}
use node_amqp.Js.{js_or, js_shl}
use node_amqp.Result.{Result, Error, ok, err, ◌>>=◌, unmatched_field, type_error}
use node_amqp.Values.{
  Number, int, fraction, Value, Items, Entries, Platform, text, number, boolean, date, bytes, array,
  object, null, unsupported, no_items, item, no_entries, entry,
}
use node_amqp.Definitions.Info.{
  Domain, Field, bit, octet, short, long, timestamp, longlong, shortstr, longstr, table,
}
use node_amqp.Definitions.Tables.{codes, same_codes, lookup}
use node_amqp.Serializer.Buffer.{Buffer, put}
use node_amqp.Serializer.Ints.{serialize_int}
use node_amqp.Serializer.Values.{serialize_short_string, serialize_long_string, serialize_table}

-- The own properties of an object by their names.
abbrev pub Args : Type 0 → Type 0
Args D = List (String × Value D)

abbrev pub same_name : String → String → Bool
same_name a b = same_codes (codes a) (codes b)

abbrev pub is_bit : Domain → Bool
is_bit bit = true
is_bit _ = false

-- `fields[i+1] && fields[i+1].domain == 'bit'`
abbrev pub bit_follows : List Field → Bool
bit_follows [] = false
bit_follows (f ∷ fs) = is_bit f.domain

abbrev byte_or_zero : Option ℕ → ℤ
byte_or_zero none = pos 0
byte_or_zero (some x) = pos x

-- `if (param) bitField |= (1 << bitIndex)`
unfoldable pub set_bit : Bool → ℤ → ℕ → ℤ
set_bit true bit_field bit_index = js_or bit_field (js_shl (pos 1) bit_index)
set_bit false bit_field bit_index = bit_field

module _ (p : Platform) where
  open p use {Double, exceeds, cut, coerce, element, index_key}

  -- `value > n`
  unfoldable pub number_exceeds : Number Double → ℕ → Bool
  number_exceeds (int z) n = ltb_ℤ (pos n) z
  number_exceeds (fraction d) n = exceeds d n

  -- The integer that a bitwise operator takes a value for.
  unfoldable pub int_of : Value Double → ℤ
  int_of (number (int z)) = z
  int_of (number (fraction d)) = cut d
  int_of (boolean true) = pos 1
  int_of (boolean false) = pos 0
  int_of (date ms) = ms
  int_of null = pos 0
  int_of v = coerce v

  -- What `param[j]` is stored as; it is undefined past the end of a Buffer.
  unfoldable pub element_of : Value Double → ℕ → Result ℤ
  element_of (bytes xs) j = ok (byte_or_zero (get_elem? xs j))
  element_of (number n) j = ok (pos 0)
  element_of (boolean b) j = ok (pos 0)
  element_of (date ms) j = ok (pos 0)
  element_of null j = err type_error
  element_of unsupported j = err type_error
  element_of v j = ok (element v j)

  -- `for (var j = 0; j < 8; j++)`, from `j` on, for `n` rounds.
  unfoldable pub put_elements : Value Double → ℕ → ℕ → Buffer → Result Buffer
  unfolding element_of
  put_elements v zero j b = ok b
  put_elements v (suc n) j b = element_of v j >>= λ x. put_elements v n (j + 1) (put b x)

  abbrev indexed_items : ℕ → Items Double → Entries Double
  indexed_items i no_items = no_entries
  indexed_items i (item v vs) = entry (index_key i) v (indexed_items (i + 1) vs)

  abbrev indexed_bytes : ℕ → List ℕ → Entries Double
  indexed_bytes i [] = no_entries
  indexed_bytes i (x ∷ xs) = entry (index_key i) (number (int (pos x))) (indexed_bytes (i + 1) xs)

  -- What `for in` finds in a value of the type 'object', which a Buffer is too.
  unfoldable pub own_entries : Value Double → Option (Entries Double)
  own_entries (object es) = some es
  own_entries (array vs) = some (indexed_items 0 vs)
  own_entries (bytes xs) = some (indexed_bytes 0 xs)
  own_entries (date ms) = some no_entries
  own_entries null = some no_entries
  own_entries v = none

  unfoldable pub serialize_object : Error → Option (Entries Double) → Buffer → Result Buffer
  serialize_object e none b = err e
  serialize_object e (some es) b = serialize_table p es b

  -- `serializeLongString(b, string)`. The branch for a Buffer is never taken; it fails on what comes to
  -- it, a number, a boolean or undefined.
  unfoldable pub serialize_longstr : Value Double → Buffer → Result Buffer
  unfolding own_entries serialize_object
  serialize_longstr (text s) b = serialize_long_string p s b
  serialize_longstr v b = serialize_object type_error (own_entries v) b

  unfoldable pub serialize_shortstr : Value Double → Buffer → Result Buffer
  serialize_shortstr (text s) b =
      if ltb 0xff (length s) then err unmatched_field else serialize_short_string p s b
  serialize_shortstr v b = err unmatched_field

  -- A number of at most `max`, given on to `write`.
  unfoldable pub bounded : ℕ → Value Double → (ℤ → Buffer → Result Buffer) → Buffer → Result Buffer
  unfolding number_exceeds int_of
  bounded max (number n) write b =
      if number_exceeds n max then err unmatched_field else write (int_of (number n)) b
  bounded max v write b = err unmatched_field

  -- The cases of the `switch` but 'bit', which stands in `serialize_field`.
  unfoldable pub serialize_param : Domain → Value Double → Buffer → Result Buffer
  unfolding bounded int_of put_elements serialize_shortstr serialize_longstr serialize_object
      own_entries
  serialize_param bit v b = err unmatched_field
  serialize_param octet v b = bounded 0xff v (λ z c. ok (put c z)) b
  serialize_param short v b = bounded 0xffff v (λ z c. serialize_int c 2 z) b
  serialize_param long v b = bounded 0xffff_ffff v (λ z c. serialize_int c 4 z) b
  serialize_param timestamp v b = serialize_int b 8 (int_of v)
  serialize_param longlong v b = put_elements v 8 0 b
  serialize_param shortstr v b = serialize_shortstr v b
  serialize_param longstr v b = serialize_longstr v b
  serialize_param table v b = serialize_object unmatched_field (own_entries v) b

  -- One round of the loop on a field with the parameter `v`; `more` are the rounds that follow.
  unfoldable pub serialize_field :
      Domain
      → Value Double
      → Bool
      → ℤ
      → ℕ
      → Buffer
      → (ℤ → ℕ → Buffer → Result Buffer)
      → Result Buffer
  unfolding serialize_param set_bit
  serialize_field bit (boolean x) follows bit_field bit_index b more =
      if follows
      then more (set_bit x bit_field bit_index) (bit_index + 1) b
      else more (pos 0) 0 (put b (set_bit x bit_field bit_index))
  serialize_field d v follows bit_field bit_index b more =
      serialize_param d v b >>= more bit_field bit_index

  -- `if (!(field.name in args))`: the message of the error reads `arguments.callee`, which a strict
  -- function may not.
  unfoldable pub serialize_found :
      Field
      → Bool
      → Bool
      → Option (Value Double)
      → ℤ
      → ℕ
      → Buffer
      → (ℤ → ℕ → Buffer → Result Buffer)
      → Result Buffer
  unfolding serialize_field
  serialize_found f follows strict none bit_field bit_index b more =
      if strict then err type_error else more bit_field bit_index b
  serialize_found f follows strict (some v) bit_field bit_index b more =
      serialize_field f.domain v follows bit_field bit_index b more

  module _ (args : Args Double) (strict : Bool) where
    -- The loop, from `bitField` and `bitIndex` on.
    unfoldable pub serialize_loop : List Field → ℤ → ℕ → Buffer → Result Buffer
    unfolding serialize_found
    serialize_loop [] bit_field bit_index b = ok b
    serialize_loop (f ∷ fs) bit_field bit_index b =
        serialize_found f (bit_follows fs) strict (lookup same_name f.name args) bit_field bit_index
          b (serialize_loop fs)

    -- `serializeFields(buffer, fields, args, strict)`
    unfoldable pub serialize_fields : List Field → Buffer → Result Buffer
    unfolding serialize_loop
    serialize_fields fs b = serialize_loop fs (pos 0) 0 b

-- ===== src/Tests/Values.antt =====
-- Values written and read.
use node_amqp.Prelude.{
  ℕ, zero, suc, ◌≡◌, refl, arith, List, [], ◌∷◌, ◌++◌, true, pos, negsuc, drop, length,
}
use node_amqp.Js.{js_and, js_shr, to_uint8, to_int32}
use node_amqp.Result.{ok, err, out_of_fuel}
use node_amqp.Values.{
  Value, int, fraction, text, number, boolean, date, array, object, null, no_items, item,
  no_entries, entry,
}
use node_amqp.Serializer.Buffer.{at, put, put_all, put_bytes}
use node_amqp.Serializer.Ints.{int_octets, serialize_int, int_bytes}
use node_amqp.Serializer.Values.{
  serialize_value, is_float, is_big_int, seconds, with_length, serialize_short_string,
  serialize_number, serialize_long_string,
}
use node_amqp.Serializer.Format.{with_size, IsSendable, format, format_number}
use node_amqp.Serializer.Refines.{serialize_value-format}
use node_amqp.Parser.Cursor.{past}
use node_amqp.Parser.Values.{parse_value, times, set_entry}
use node_amqp.RoundTrip.Received.{received, IsReadable}
use node_amqp.RoundTrip.Values.{parse_value-format}
use node_amqp.RoundTrip.Plain.{
  write_read_value, write_read_value-received, write_read_value-IsPlain,
}
use node_amqp.RoundTrip.Tables.{short_table-unread}
use node_amqp.RoundTrip.Endless.{backward, parse_value-backward_table}
use node_amqp.Tests.Platform.{ascii, IsAscii, ascii-IsFaithful}

-- { "n": -2, "xs": [true, "hi"] }
abbrev plain : Value Unit
plain = object (
    entry (b'n' ∷ []) (number (int (negsuc 1))) (
      entry (b'x' ∷ b's' ∷ [])
        (array (item (boolean true) (item (text (b'h' ∷ b'i' ∷ [])) no_items))) no_entries))

-- { "t": 1.5, "d": a Date, "z": null }
abbrev mixed : Value Unit
mixed = object (
    entry (b't' ∷ []) (number (fraction tt))
      (entry (b'd' ∷ []) (date (pos 1500)) (entry (b'z' ∷ []) null no_entries)))

plain_bytes :
    format ascii plain
    ≡ b'F' ∷ 0 ∷ 0 ∷ 0 ∷ 24 ∷ 1 ∷ b'n' ∷ b'I' ∷ 255 ∷ 255 ∷ 255 ∷ 254 ∷ 2 ∷ b'x' ∷ b's' ∷ b'A' ∷ 0
      ∷ 0 ∷ 0 ∷ 9 ∷ b't' ∷ 1 ∷ b'S' ∷ 0 ∷ 0 ∷ 0 ∷ 2 ∷ b'h' ∷ b'i' ∷ []
unfolding format format_number is_float is_big_int int_bytes to_int32
plain_bytes = refl

mixed-received :
    received mixed
    ≡ object (
        entry (b't' ∷ []) (array (item (number (fraction tt)) no_items)) (
          entry
            (b'd' ∷ [])
            (number (int (pos 1000)))
            (entry (b'z' ∷ []) (object no_entries) no_entries)))
unfolding is_float times seconds to_int32 set_entry
mixed-received = refl

plain-IsSendable : IsSendable ascii plain
plain-IsSendable = (omega arith, tt, (omega arith, (tt, (tt, tt)), tt))

abbrev zeros : ℕ → List ℕ
zeros zero = []
zeros (suc n) = 0 ∷ zeros n

-- Free bytes.
abbrev room : List ℕ
room = zeros 40

serialize_plain :
    serialize_value ascii plain (at (7 ∷ []) room) ≡ ok (at (7 ∷ format ascii plain) (drop 29 room))
unfolding serialize_value serialize_int int_octets put_all put js_and js_shr to_uint8 is_float
    is_big_int to_int32 format int_bytes with_length serialize_short_string serialize_number
    put_bytes serialize_long_string format_number
serialize_plain = refl

plain_size : length (format ascii plain) ≡ 29
unfolding format is_float is_big_int int_bytes to_int32 format_number
plain_size = refl

plain-IsReadable : IsReadable ascii IsAscii plain
unfolding format is_float is_big_int int_bytes to_int32 format_number
plain-IsReadable = ground arith

serialize_value-format_example :
    serialize_value ascii plain (at (7 ∷ []) room)
    ≡ ok (at (7 ∷ format ascii plain) (drop (length (format ascii plain)) room))
serialize_value-format_example =
    serialize_value-format ascii plain (7 ∷ []) room plain-IsSendable (omega (arith, plain_size))

parse_value-format_example :
    parse_value ascii 30 (past (7 ∷ []) (format ascii plain ++ 8 ∷ []))
    ≡ ok (received plain, past (7 ∷ format ascii plain) (8 ∷ []))
parse_value-format_example =
    parse_value-format ascii IsAscii ascii-IsFaithful 30 plain (7 ∷ []) (8 ∷ []) plain-IsReadable
      (omega (arith, plain_size))

write_read_value-IsPlain_example :
    write_read_value ascii 30 plain (7 ∷ []) room
    ≡ ok (plain, past (7 ∷ format ascii plain) (drop (length (format ascii plain)) room))
unfolding is_float to_int32
write_read_value-IsPlain_example =
    write_read_value-IsPlain ascii IsAscii ascii-IsFaithful 30 plain (7 ∷ []) room
      ((tt, (((λ e. cc), tt), tt)), (refl, ((tt, (tt, tt)), tt))) plain-IsSendable plain-IsReadable
      (omega (arith, plain_size)) (omega (arith, plain_size))

mixed_size : length (format ascii mixed) ≡ 34
unfolding format is_float is_big_int int_bytes to_int32 format_number
mixed_size = refl

mixed-IsSendable : IsSendable ascii mixed
mixed-IsSendable = (omega arith, tt, (omega arith, tt, (omega arith, tt, tt)))

mixed-IsReadable : IsReadable ascii IsAscii mixed
unfolding format is_float is_big_int int_bytes to_int32 format_number
mixed-IsReadable = ground arith

write_read_value-received_example :
    write_read_value ascii 40 mixed [] room
    ≡ ok (received mixed, past (format ascii mixed) (drop (length (format ascii mixed)) room))
write_read_value-received_example =
    write_read_value-received ascii IsAscii ascii-IsFaithful 40 mixed [] room mixed-IsSendable
      mixed-IsReadable (omega (arith, mixed_size)) (omega (arith, mixed_size))

-- The entry "a": true.
abbrev flag : List ℕ
flag = 1 ∷ b'a' ∷ b't' ∷ 1 ∷ []

short_table-unread_example :
    parse_value ascii 9 (past [] (b'F' ∷ with_size flag ++ 8 ∷ []))
    ≡ ok (object no_entries, past (b'F' ∷ int_bytes 4 (pos 4)) (flag ++ 8 ∷ []))
short_table-unread_example = short_table-unread ascii 9 [] flag (8 ∷ []) (omega arith) (omega arith)

parse_value-backward_table_example :
    parse_value ascii 1000 (past (7 ∷ []) (b'F' ∷ int_bytes 4 (pos 6) ++ (backward ++ [])))
    ≡ err out_of_fuel
parse_value-backward_table_example = parse_value-backward_table ascii 1000 (7 ∷ []) []

-- ===== src/Parser/Fields.antt =====
-- `parseFields` of lib/parser.js.
use node_amqp.Prelude.{
  ℕ, zero, suc, ◌+◌, Bool, true, false, List, [], ◌∷◌, get_elem?, Option, none, some, ℤ, pos,
  negsuc, if◌then◌else◌,
}
use node_amqp.Js.{js_and, js_shl}
use node_amqp.Result.{ok}
use node_amqp.Values.{Value, Platform, int, text, number, boolean, bytes, object}
use node_amqp.Definitions.Info.{
  Domain, Field, bit, octet, short, long, timestamp, longlong, shortstr, longstr, table,
}
use node_amqp.Serializer.Fields.{Args, bit_follows}
use node_amqp.Parser.Cursor.{Parser, ◌>>=◌, pure, next}
use node_amqp.Parser.Ints.{parse_int}
use node_amqp.Parser.Values.{take_octets, parse_short_string, parse_long_string, parse_table}

-- `x ? true : false`
abbrev pub is_set : ℤ → Bool
is_set (pos zero) = false
is_set (pos (suc n)) = true
is_set (negsuc n) = true

-- The octet at `buffer.read`; `undefined & 1` is 0.
abbrev pub peeked : Option ℕ → ℤ
peeked none = pos 0
peeked (some x) = pos x

-- `(buffer[buffer.read] & (1 << bitIndex)) ? true : false`
unfoldable pub bit_at : ℤ → ℕ → Bool
bit_at byte bit_index = is_set (js_and byte (js_shl (pos 1) bit_index))

module _ (p : Platform) where
  open p use {Double}

  -- The case 'bit', of which `buffer.read` moves only behind the last bit of an octet.
  unfoldable pub parse_bit : Bool → ℕ → Parser (Value Double × ℕ)
  unfolding bit_at
  parse_bit follows bit_index c =
      let value = boolean (bit_at (peeked (get_elem? c.mem c.read)) bit_index) in
      if follows
      then ok ((value, bit_index + 1), c)
      else ok ((value, 0), record c { read = c.read + 1 })

  -- The other cases of the `switch`.
  unfoldable pub parse_param : ℕ → Domain → Parser (Value Double)
  unfolding take_octets parse_short_string parse_long_string parse_table
  parse_param f bit = pure (boolean false)
  parse_param f octet = do x ← next; pure (number (int (pos x)))
  parse_param f short = do n ← parse_int 2; pure (number (int n))
  parse_param f long = do n ← parse_int 4; pure (number (int n))
  parse_param f timestamp = do n ← parse_int 8; pure (number (int n))
  parse_param f longlong = do xs ← take_octets 8; pure (bytes xs)
  parse_param f shortstr = do s ← parse_short_string p; pure (text s)
  parse_param f longstr = do s ← parse_long_string p; pure (text s)
  parse_param f table = do es ← parse_table p f; pure (object es)

  -- One round of the loop: the value, and the next `bitIndex`.
  unfoldable pub parse_field : ℕ → Domain → Bool → ℕ → Parser (Value Double × ℕ)
  unfolding parse_bit parse_param
  parse_field f bit follows bit_index = parse_bit follows bit_index
  parse_field f d follows bit_index = do v ← parse_param f d; pure (v, bit_index)

  -- The loop, from `bitIndex` on. No two fields of a method or a class have the same name, so that each
  -- round adds a property.
  unfoldable pub parse_loop : ℕ → List Field → ℕ → Parser (Args Double)
  unfolding parse_field
  parse_loop f [] bit_index = pure []
  parse_loop f (g ∷ gs) bit_index = do
    x ← parse_field f g.domain (bit_follows gs) bit_index
    args ← parse_loop f gs x.1
    pure ((g.name, x.0) ∷ args)

  -- `parseFields(buffer, fields)`, where `f` is fuel for the tables.
  unfoldable pub parse_fields : ℕ → List Field → Parser (Args Double)
  unfolding parse_loop
  parse_fields f fs = parse_loop f fs 0

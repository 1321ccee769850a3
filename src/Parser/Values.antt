-- ===== src/Parser/Values.antt =====
-- lib/parser.js: strings, `parseValue` and `parseTable`.
use node_amqp.Prelude.{
  ℕ, zero, suc, ◌+◌, ◌-◌, ◌*◌, Bool, true, false, List, [], ◌∷◌, length, take, drop, ltb, leb, ◌==◌,
  ltb_ℤ, ℤ, pos, negsuc, ◌+ℤ◌, if◌then◌else◌, ◌&&◌,
}
use node_amqp.Result.{ok, err, past_end, range_error, unknown_value_type, out_of_fuel}
use node_amqp.Values.{
  Number, int, Text, Value, Items, Entries, Platform, text, number, boolean, bytes, array, object,
  null, no_items, item, no_entries, entry,
}
use node_amqp.Parser.Cursor.{Parser, ◌>>=◌, pure, next}
use node_amqp.Parser.Ints.{parse_int1, parse_int4, parse_int8}

-- `buffer.slice(buffer.read, buffer.read + length)` and `buffer.read += length`. A slice ends with the
-- buffer; a negative length gives an empty one and goes back, and below 0 every read is undefined.
unfoldable pub take_slice : ℤ → Parser (List ℕ)
take_slice (pos n) c = ok (take n (drop c.read c.mem), record c { read = c.read + n })
take_slice (negsuc n) c =
    if leb (suc n) c.read then ok ([], record c { read = c.read - suc n }) else err past_end

-- Eight or four bytes for `Unpack`.
unfoldable pub take_octets : ℕ → Parser (List ℕ)
take_octets zero = pure []
take_octets (suc n) = do x ← next; xs ← take_octets n; pure (x ∷ xs)

-- `new Buffer(len)` and `buffer.copy`. Where the frame ends first, the rest of the new buffer is
-- whatever the memory held.
unfoldable pub take_buffer : ℤ → Parser (List ℕ)
take_buffer (pos n) c =
    if ltb (length c.mem) (c.read + n)
    then err past_end
    else ok (take n (drop c.read c.mem), record c { read = c.read + n })
take_buffer (negsuc n) c = err range_error

abbrev pub same_text : Text → Text → Bool
same_text [] [] = true
same_text (x ∷ xs) (y ∷ ys) = x == y && same_text xs ys
same_text _ _ = false

-- `table[key] = value`: a key that is there keeps its place.
unfoldable pub set_entry : {D : Type 0} → Text → Value D → Entries D → Entries D
set_entry k v no_entries = entry k v no_entries
set_entry k v (entry j w es) = if same_text j k then entry j v es else entry j w (set_entry k v es)

-- The elements of the array that `Unpack` returns.
unfoldable pub numbers : {D : Type 0} → List (Number D) → Items D
numbers [] = no_items
numbers (n ∷ ns) = item (number n) (numbers ns)

-- `k * a` for a positive `k`.
unfoldable pub times : ℕ → ℤ → ℤ
times k (pos n) = pos (k * n)
times k (negsuc n) = negsuc (k * (n + 1) - 1)

-- `buffer.read`
abbrev pub position : Parser ℕ
position c = ok (c.read, c)

module _ (p : Platform) where
  open p use {Double, decode, unpack_double, unpack_single, divide}

  -- `parseShortString(buffer)`
  unfoldable pub parse_short_string : Parser Text
  unfolding take_slice
  parse_short_string = do n ← next; s ← take_slice (pos n); pure (decode s)

  -- `parseLongString(buffer)`
  unfoldable pub parse_long_string : Parser Text
  unfolding take_slice
  parse_long_string = do n ← parse_int4; s ← take_slice n; pure (decode s)

  -- `setTime` returns the milliseconds, and not the Date.
  unfoldable pub parse_time : Parser (Value Double)
  parse_time = do s ← parse_int8; pure (number (int (times 1000 s)))

  -- The cases of `parseValue` that call neither `parseValue` nor `parseTable`.
  unfoldable pub parse_plain : ℕ → Parser (Value Double)
  unfolding parse_long_string parse_time take_octets take_buffer numbers
  parse_plain tag =
      if tag == b'S'
      then (do s ← parse_long_string; pure (text s))
      else if tag == b'I'
      then (do n ← parse_int4; pure (number (int n)))
      else if tag == b'D'
      then (do d ← parse_int1; n ← parse_int4; pure (number (divide n (times 10 d))))
      else if tag == b'd'
      then (do x ← take_octets 8; pure (array (numbers (unpack_double x))))
      else if tag == b'f'
      then (do x ← take_octets 4; pure (array (numbers (unpack_single x))))
      else if tag == b'T'
      then parse_time
      else if tag == b'l'
      then (do n ← parse_int8; pure (number (int n)))
      else if tag == b'b'
      then (do n ← parse_int1; pure (number (int n)))
      else if tag == b't'
      then (do n ← parse_int1; pure (boolean (ltb_ℤ (pos 0) n)))
      else if tag == b'x'
      then (do n ← parse_int4; x ← take_buffer n; pure (bytes x))
      else if tag == b'V'
      then pure null
      else (λ c. err unknown_value_type)

  -- The case HASH, `parseTable(buffer)`. JavaScript reads `buffer.read` before `parseInt` moves it, so
  -- the loop's bound lies four bytes before the table's end.
  unfoldable pub table_step :
      (ℤ → Entries Double → Parser (Entries Double)) → Parser (Entries Double)
  table_step entries = do start ← position; n ← parse_int4; entries (pos start +ℤ n) no_entries

  -- The case ARRAY, whose bound is the array's end.
  unfoldable pub array_step : (ℤ → Parser (Items Double)) → Parser (Items Double)
  array_step items = do n ← parse_int4; start ← position; items (pos start +ℤ n)

  unfoldable pub by_tag :
      Parser (Entries Double) → Parser (Items Double) → ℕ → Parser (Value Double)
  unfolding parse_plain
  by_tag table items tag =
      if tag == b'F'
      then (do es ← table; pure (object es))
      else if tag == b'A'
      then (do xs ← items; pure (array xs))
      else parse_plain tag

  unfoldable pub value_step :
      (ℤ → Entries Double → Parser (Entries Double))
      → (ℤ → Parser (Items Double))
      → Parser (Value Double)
  unfolding table_step array_step by_tag
  value_step entries items = do tag ← next; by_tag (table_step entries) (array_step items) tag

  -- One round of the loop over an array.
  unfoldable pub items_step :
      ℤ → Parser (Value Double) → Parser (Items Double) → Parser (Items Double)
  items_step end value more c =
      if ltb_ℤ (pos c.read) end
      then (do v ← value; xs ← more; pure (item v xs)) c
      else ok (no_items, c)

  -- One round of the loop of `parseTable`.
  unfoldable pub entries_step :
      ℤ
      → Entries Double
      → Parser (Value Double)
      → (Entries Double → Parser (Entries Double))
      → Parser (Entries Double)
  unfolding parse_short_string set_entry
  entries_step end table value more c =
      if ltb_ℤ (pos c.read) end
      then (do k ← parse_short_string; v ← value; more (set_entry k v table)) c
      else ok (table, c)

  -- `parseValue(buffer)`, its loop over an array up to `end`, and the loop of `parseTable(buffer)`. A
  -- value in a table may have a negative length and send the reader back, so the code need not end: the
  -- recursion is on fuel.
  unfoldable mutual
    pub parse_value : ℕ → Parser (Value Double)
    parse_value zero c = err out_of_fuel
    parse_value (suc f) c = value_step (parse_entries f) (parse_items f) c

    pub parse_items : ℕ → ℤ → Parser (Items Double)
    parse_items zero end c = err out_of_fuel
    parse_items (suc f) end c = items_step end (parse_value f) (parse_items f end) c

    pub parse_entries : ℕ → ℤ → Entries Double → Parser (Entries Double)
    parse_entries zero end table c = err out_of_fuel
    parse_entries (suc f) end table c =
        entries_step end table (parse_value f) (parse_entries f end) c

  -- `parseTable(buffer)`
  unfoldable pub parse_table : ℕ → Parser (Entries Double)
  unfolding table_step
  parse_table f = table_step (parse_entries f)

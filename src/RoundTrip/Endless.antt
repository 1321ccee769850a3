-- ===== src/RoundTrip/Endless.antt =====
-- A table on which the loop of `parseTable` of lib/parser.js never ends: its only entry is a string of
-- length -6, which sends `buffer.read` back to where the entry begins.
use node_amqp.Prelude.{
  ℕ, zero, suc, ◌+◌, ◌-◌, ◌<◌, ◌≡◌, refl, ◌∙◌, arith, List, [], ◌∷◌, ◌++◌, append_assoc, length,
  length-append, lt→ltb, le→leb, pos, negsuc, +ℤ-pos, inl, inr,
}
use node_amqp.Js.{to_int32}
use node_amqp.Result.{ok, err, out_of_fuel}
use node_amqp.Values.{Value, Entries, Platform, text, no_entries}
use node_amqp.Serializer.Ints.{int_bytes, length-int_bytes}
use node_amqp.Parser.Cursor
use node_amqp.Parser.Cursor.{Cursor, Parser, pure, next, past, next-past}
use node_amqp.Parser.Values.{
  table_step, take_slice, set_entry, parse_short_string, parse_long_string, by_tag, parse_plain,
  value_step, entries_step, parse_value, parse_entries,
}
use node_amqp.RoundTrip.Reads.{
  Reads, then-Reads, map-Reads, next-Reads, int4-Reads, slice-Reads, size-Reads,
}

-- An empty key, the octet of a long string, and -6.
abbrev pub backward : List ℕ
backward = 0 ∷ b'S' ∷ int_bytes 4 (negsuc 5)

take_slice-back :
    (front xs back : List ℕ)
    → length xs ≡ 6
    → take_slice (negsuc 5) (past (front ++ xs) back) ≡ ok ([], past front (xs ++ back))
unfolding take_slice
take_slice-back front xs back l =
    let whole = length-append front xs in
    rw (le→leb 6 (length (front ++ xs)) (omega arith))
      (λ i. ok ([], record { mem = append_assoc front xs back i; read = start i }))
  where
    start : length (front ++ xs) - 6 ≡ length front
    start = omega (arith, length-append front xs)

module _ (p : Platform) where
  open p use {Double, decode}

  abbrev empty_text : Value Double
  empty_text = text (decode [])

  key-Reads : Reads (parse_short_string p) (0 ∷ []) (decode [])
  unfolding parse_short_string
  key-Reads = then-Reads _ (next-Reads 0) (map-Reads decode (slice-Reads []))

  parse_value-backward :
      (f : ℕ) (front back : List ℕ)
      → parse_value p (suc f) (past (front ++ 0 ∷ []) (b'S' ∷ int_bytes 4 (negsuc 5) ++ back))
        ≡ ok (empty_text, past front (backward ++ back))
  unfolding parse_value value_step by_tag parse_plain parse_long_string to_int32
  parse_value-backward f front back =
      let start = front ++ 0 ∷ [] in
      let size = int4-Reads (negsuc 5) in
      let entry : (start ++ b'S' ∷ []) ++ int_bytes 4 (negsuc 5) ≡ front ++ backward =
        append_assoc start (b'S' ∷ []) (int_bytes 4 (negsuc 5)) ∙ append_assoc front (0 ∷ []) _ in
      rw (next-past start b'S' (int_bytes 4 (negsuc 5) ++ back), size.run (start ++ b'S' ∷ []) back)
        (rw (
          entry,
          take_slice-back front backward back
              (omega (arith, length-int_bytes 4 (negsuc 5) (inr (inr (inl refl))))),
        ))

  abbrev rest : ℕ → ℕ → Entries Double → Parser (Entries Double)
  rest f end table =
      Cursor.◌>>=◌ (parse_value p f)
        λ v. parse_entries p f (pos end) (set_entry (decode []) v table)

  entries_round :
      (f end : ℕ) (table : Entries Double) (front back : List ℕ)
      → length front < end
      → parse_entries p (suc f) (pos end) table (past front (backward ++ back))
        ≡ rest f end table (past (front ++ 0 ∷ []) (b'S' ∷ int_bytes 4 (negsuc 5) ++ back))
  unfolding parse_entries entries_step
  entries_round f end table front back l =
      let key = key-Reads in
      rw
        (
          lt→ltb (length front + 0) (end + 0) (omega arith),
          key.run front (b'S' ∷ int_bytes 4 (negsuc 5) ++ back),
        )
        refl

  parse_entries-backward :
      (f end : ℕ) (table : Entries Double) (front back : List ℕ)
      → length front < end
      → parse_entries p f (pos end) table (past front (backward ++ back)) ≡ err out_of_fuel
  unfolding parse_entries
  parse_entries-backward zero end table front back l = refl
  parse_entries-backward (suc zero) end table front back l = entries_round 0 end table front back l
  parse_entries-backward (suc (suc f)) end table front back l =
      entries_round (suc f) end table front back l
      ∙ rw (parse_value-backward f front back) (parse_entries-backward (suc f) end _ front back l)

-- For every fuel the model of `parseValue` runs out of it on a table of six bytes whose only entry is a
-- string of length -6 under an empty key, whatever stands before and behind: the loop of the code reads
-- this entry again and again.
pub parse_value-backward_table :
    (p : Platform) (f : ℕ) (front back : List ℕ)
    → parse_value p f (past front (b'F' ∷ int_bytes 4 (pos 6) ++ (backward ++ back)))
      ≡ err out_of_fuel
unfolding parse_value value_step by_tag table_step
parse_value-backward_table p zero front back = refl
parse_value-backward_table p (suc f) front back =
    let size = size-Reads 6 (omega arith) in
    let start = length-append front (b'F' ∷ []) in
    let behind = length-append (front ++ b'F' ∷ []) (int_bytes 4 (pos 6)) in
    let four = length-int_bytes 4 (pos 6) (inr (inr (inl refl))) in
    let body = backward ++ back in
    rw
      (
        next-past front b'F' (int_bytes 4 (pos 6) ++ body),
        size.run (front ++ b'F' ∷ []) body,
        +ℤ-pos,
      )
      (rw
        (parse_entries-backward p f (length (front ++ b'F' ∷ []) + 6) no_entries
          ((front ++ b'F' ∷ []) ++ int_bytes 4 (pos 6)) back (omega arith))
        refl)

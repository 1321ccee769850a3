-- ===== src/RoundTrip/Tables.antt =====
-- Tables that `parseTable` of lib/parser.js does not read as they were sent: those that end in a short
-- entry, and those that send the reader back.
use node_amqp.Prelude.{
  ℕ, zero, suc, ◌+◌, ◌≤◌, ◌≡◌, ap, ◌∙◌, arith, List, ◌∷◌, ◌++◌, append_assoc, append-nil, length,
  subst, pos,
}
use node_amqp.Result.{ok}
use node_amqp.Values.{Platform, object, no_entries}
use node_amqp.Serializer.Ints.{int_bytes}
use node_amqp.Serializer.Format.{with_size}
use node_amqp.Parser.Cursor.{past}
use node_amqp.Parser.Values.{by_tag, entries_step, parse_value, parse_items, parse_entries}
use node_amqp.RoundTrip.Reads.{Reads, map-Reads}
use node_amqp.RoundTrip.Places.{stop-ReadsAt}
use node_amqp.RoundTrip.Steps.{tag-Reads, table-Reads}

module _ (p : Platform) where
  open p use {Double, decode}

  -- The header of a table that the loop does not enter.
  skipped-Reads :
      (f n : ℕ)
      → n ≤ 4
      → Reads (parse_value p (suc (suc f))) (b'F' ∷ int_bytes 4 (pos n)) (object no_entries)
  unfolding parse_value entries_step by_tag
  skipped-Reads f n l =
      subst (λ (m : List ℕ). Reads (parse_value p (suc (suc f))) (b'F' ∷ m) (object no_entries))
        (append-nil (int_bytes 4 (pos n)))
        (tag-Reads p (parse_entries p (suc f)) (parse_items p (suc f)) b'F' (
          map-Reads object (
            table-Reads p (parse_entries p (suc f)) n (omega arith)
              λ m. stop-ReadsAt (m + n) _ no_entries (omega arith))))

-- A table whose contents `xs` take at most four bytes is read as empty, and its contents are left for
-- what is read next.
pub short_table-unread :
    (p : Platform) (f : ℕ) (front xs back : List ℕ)
    → length xs ≤ 4
    → 2 ≤ f
    → parse_value p f (past front (b'F' ∷ with_size xs ++ back))
      ≡ ok (object no_entries, past (front ++ b'F' ∷ int_bytes 4 (pos (length xs))) (xs ++ back))
short_table-unread p zero front xs back l h = absurd (omega arith)
short_table-unread p (suc zero) front xs back l h = absurd (omega arith)
short_table-unread p (suc (suc f)) front xs back l h =
    let reads = skipped-Reads p f (length xs) l in
    ap
      (λ (m : List ℕ).
        parse_value p (suc (suc f)) (record { mem = front ++ b'F' ∷ m; read = length front }))
      (append_assoc (int_bytes 4 (pos (length xs))) xs back)
    ∙ reads.run front (xs ++ back)

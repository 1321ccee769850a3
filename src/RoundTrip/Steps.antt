-- ===== src/RoundTrip/Steps.antt =====
-- The type octet of a value, and the lengths of tables and arrays, in lib/parser.js.
use node_amqp.Prelude.{ℕ, ◌+◌, ◌<◌, refl, arith, List, ◌∷◌, ◌++◌, ℤ, pos, ◌+ℤ◌, +ℤ-pos, inl, inr}
use node_amqp.Values.{Value, Items, Entries, Platform, no_entries}
use node_amqp.Serializer.Ints.{int_bytes, length-int_bytes}
use node_amqp.Parser.Cursor
use node_amqp.Parser.Cursor.{Parser}
use node_amqp.Parser.Ints.{parse_int4}
use node_amqp.Parser.Values.{table_step, array_step, by_tag, value_step}
use node_amqp.RoundTrip.Reads.{Reads, then-Reads, next-Reads, size-Reads}
use node_amqp.RoundTrip.Places.{ReadsAt, everywhere, anywhere, then-ReadsAt, position-ReadsAt}

module _ (p : Platform) where
  open p use {Double}

  -- A type octet, and what is read for it.
  pub tag-Reads :
      (entries : ℤ → Entries Double → Parser (Entries Double)) (items : ℤ → Parser (Items Double))
      (t : ℕ) {xs : List ℕ} {v : Value Double}
      → Reads (by_tag p (table_step p entries) (array_step p items) t) xs v
      → Reads (value_step p entries items) (t ∷ xs) v
  unfolding value_step
  tag-Reads entries items t h = then-Reads _ (next-Reads t) h

  -- A table of a length, of which the loop reads `xs`. The loop's bound lies `n` bytes behind the
  -- length, and not behind its end.
  pub table-Reads :
      (entries : ℤ → Entries Double → Parser (Entries Double)) (n : ℕ) {xs : List ℕ}
      {es : Entries Double}
      → n < 0x8000_0000
      → ((m : ℕ) → ReadsAt (m + 4) (entries (pos (m + n)) no_entries) xs es)
      → Reads (table_step p entries) (int_bytes 4 (pos n) ++ xs) es
  unfolding table_step
  table-Reads entries n l loop = anywhere λ m.
      then-ReadsAt (λ start. Cursor.◌>>=◌ parse_int4 λ k. entries (pos start +ℤ k) no_entries)
        {m = m} (position-ReadsAt m) (omega arith)
        (then-ReadsAt (λ k. entries (pos m +ℤ k) no_entries) {m = m + 4}
          (everywhere (size-Reads n l))
          (omega (arith, length-int_bytes 4 (pos n) (inr (inr (inl refl)))))
          (rw (+ℤ-pos m n) (loop m)))

  pub array-Reads :
      (items : ℤ → Parser (Items Double)) (n : ℕ) {xs : List ℕ} {vs : Items Double}
      → n < 0x8000_0000
      → ((m : ℕ) → ReadsAt m (items (pos (m + n))) xs vs)
      → Reads (array_step p items) (int_bytes 4 (pos n) ++ xs) vs
  unfolding array_step
  array-Reads items n l loop = then-Reads _ (size-Reads n l) (
      anywhere λ m.
        then-ReadsAt (λ start. items (pos start +ℤ pos n)) {m = m} (position-ReadsAt m)
          (omega arith) (rw (+ℤ-pos m n) (loop m)))

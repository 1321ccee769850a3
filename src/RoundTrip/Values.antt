-- ===== src/RoundTrip/Values.antt =====
-- `parseValue` of lib/parser.js on what `serializeValue` of lib/serializer.js wrote.
use node_amqp.Prelude.{
  ℕ, zero, suc, ◌+◌, ◌<◌, ◌≡◌, refl, arith, List, [], ◌++◌, append-nil, length, length-append,
  subst, true, false, pos,
}
use node_amqp.Result.{ok}
use node_amqp.Values.{
  Text, Value, Items, Entries, Platform, IsFaithful, text, number, boolean, date, bytes, array,
  object, null, unsupported, no_items, item, no_entries, entry,
}
use node_amqp.Serializer.Format.{
  length-format_pos, length-with_size, with_size, short_string, format, format_items,
  format_entries,
}
use node_amqp.Parser.Cursor.{Parser, pure, past}
use node_amqp.Parser.Values.{
  set_entry, by_tag, items_step, entries_step, parse_value, parse_items, parse_entries, parse_table,
}
use node_amqp.RoundTrip.Reads.{Reads, then-Reads, map-Reads, size-Reads, buffer-Reads}
use node_amqp.RoundTrip.Places.{
  ReadsAt, everywhere, round-ReadsAt, stop-ReadsAt, then-ReadsAt, map-ReadsAt,
}
use node_amqp.RoundTrip.Steps.{tag-Reads, table-Reads, array-Reads}
use node_amqp.RoundTrip.Scalars.{short-Reads, long-Reads, number-Reads, octet-Reads, time-Reads}
use node_amqp.RoundTrip.Received.{
  received, received_items, received_entries, EndsLong, IsReadable, AreReadable, AreReadableEntries,
}

module _ (p : Platform) (IsWellFormed : Text → Type 0) (faithful : IsFaithful p IsWellFormed) where
  open p use {Double, encode}

  -- One round of each loop.
  item-ReadsAt :
      (n end : ℕ) (value : Parser (Value Double)) (more : Parser (Items Double)) {xs ys : List ℕ}
      {v : Value Double} {vs : Items Double}
      → n < end
      → Reads value xs v
      → ReadsAt (n + length xs) more ys vs
      → ReadsAt n (items_step p (pos end) value more) (xs ++ ys) (item v vs)
  unfolding items_step
  item-ReadsAt n end value more {xs} {ys} {v} {vs} l h hs =
      round-ReadsAt end (pure no_items) l
        (then-ReadsAt _ {m = n + length xs} (everywhere h) refl (map-ReadsAt (λ us. item v us) hs))

  entry-ReadsAt :
      (n end : ℕ) (table : Entries Double) (value : Parser (Value Double))
      (more : Entries Double → Parser (Entries Double)) (k : Text) {xs ys : List ℕ}
      {v : Value Double} {es : Entries Double}
      → n < end
      → IsWellFormed k
      → Reads value xs v
      → ReadsAt (n + length (short_string p k) + length xs) (more (set_entry k v table)) ys es
      → ReadsAt n (entries_step p (pos end) table value more) (short_string p k ++ (xs ++ ys)) es
  unfolding entries_step
  entry-ReadsAt n end table value more k {xs} {ys} {v} {es} l w h hs =
      round-ReadsAt end (pure table) l (
        then-ReadsAt _ {m = n + length (short_string p k)}
          (everywhere (short-Reads p IsWellFormed faithful k w)) refl
          (then-ReadsAt _ {m = n + length (short_string p k) + length xs} (everywhere h) refl hs))

  length-EndsLong :
      (k : Text) (v : Value Double) (es : Entries Double)
      → EndsLong p IsWellFormed (entry k v es)
      → 4 < length (format_entries p (entry k v es))
  unfolding format
  length-EndsLong k v no_entries h = rw (append-nil (format p v)) h
  length-EndsLong k v (entry l w es) h =
      let longer = length-EndsLong l w es h in
      let rest = format_entries p (entry l w es) in
      omega (arith, length-append (encode k) (format p v ++ rest), length-append (format p v) rest)

  later :
      (k : Text) (v : Value Double) (es : Entries Double)
      → EndsLong p IsWellFormed (entry k v es)
      → EndsLong p IsWellFormed es
  later k v no_entries h = tt
  later k v (entry l w es) h = h

  mutual
    unfolding parse_value format items_step entries_step by_tag

    value-Reads :
        (f : ℕ) (v : Value Double)
        → IsReadable p IsWellFormed v
        → length (format p v) < f
        → Reads (parse_value p f) (format p v) (received v)
    value-Reads zero v h l = absurd (omega arith)
    value-Reads (suc f) (text s) (w, n) l =
        tag-Reads p (parse_entries p f) (parse_items p f) b'S'
          (map-Reads text (long-Reads p IsWellFormed faithful s w n))
    value-Reads (suc f) (number n) h l = number-Reads p IsWellFormed faithful _ _ n h
    value-Reads (suc f) (boolean true) h l =
        tag-Reads p (parse_entries p f) (parse_items p f) b't'
          (octet-Reads p IsWellFormed faithful 1)
    value-Reads (suc f) (boolean false) h l =
        tag-Reads p (parse_entries p f) (parse_items p f) b't'
          (octet-Reads p IsWellFormed faithful 0)
    value-Reads (suc f) (date ms) h l =
        tag-Reads p (parse_entries p f) (parse_items p f) b'T'
          (time-Reads p IsWellFormed faithful ms)
    value-Reads (suc f) (bytes xs) h l =
        tag-Reads p (parse_entries p f) (parse_items p f) b'x'
          (then-Reads _ (size-Reads _ h) (map-Reads bytes (buffer-Reads xs)))
    value-Reads (suc f) (array xs) (n, hs) l =
        tag-Reads p (parse_entries p f) (parse_items p f) b'A' (
          map-Reads array (
            array-Reads p (parse_items p f) _ n λ m.
              items-ReadsAt f m (m + length (format_items p xs)) xs hs
                (omega (arith, length-with_size (format_items p xs))) refl))
    value-Reads (suc f) (object es) (n, e, hs) l =
        tag-Reads p (parse_entries p f) (parse_items p f) b'F' (
          map-Reads object (
            table-Reads p (parse_entries p f) _ n λ m.
              entries-ReadsAt f (m + 4) (m + length (format_entries p es)) no_entries es e hs
                (omega (arith, length-with_size (format_entries p es))) (omega arith)))
    value-Reads (suc f) null h l = tag-Reads p (parse_entries p f) (parse_items p f) b'F' (
        map-Reads object (
          table-Reads p (parse_entries p f) 0 (omega arith) λ m.
            entries-ReadsAt f (m + 4) (m + 0) no_entries no_entries tt tt
              (omega (arith, length-with_size [])) (omega arith)))
    value-Reads (suc f) unsupported h l = elim h [ ]

    items-ReadsAt :
        (f n end : ℕ) (xs : Items Double)
        → AreReadable p IsWellFormed xs
        → length (format_items p xs) + 1 < f
        → end ≡ n + length (format_items p xs)
        → ReadsAt n (parse_items p f (pos end)) (format_items p xs) (received_items xs)
    items-ReadsAt zero n end xs h l e = absurd (omega arith)
    items-ReadsAt (suc f) n end no_items h l e = stop-ReadsAt end _ no_items (omega arith)
    items-ReadsAt (suc f) n end (item v xs) (h, hs) l e =
        let size = length-append (format p v) (format_items p xs) in
        let some = length-format_pos p v (λ e. subst (IsReadable p IsWellFormed) e h) in
        item-ReadsAt n end _ _ (omega arith) (value-Reads f v h (omega arith))
          (items-ReadsAt f (n + length (format p v)) end xs hs (omega arith) (omega arith))

    entries-ReadsAt :
        (f n end : ℕ) (table es : Entries Double)
        → EndsLong p IsWellFormed es
        → AreReadableEntries p IsWellFormed es
        → length (format_entries p es) + 1 < f
        → end + 4 ≡ n + length (format_entries p es)
        → ReadsAt n
            (parse_entries p f (pos end) table)
            (format_entries p es)
            (received_entries table es)
    entries-ReadsAt zero n end table es b h l e = absurd (omega arith)
    entries-ReadsAt (suc f) n end table no_entries b h l e = stop-ReadsAt end _ table (omega arith)
    entries-ReadsAt (suc f) n end table (entry k v es) b (w, h, hs) l e =
        let body = format p v ++ format_entries p es in
        let size = length-append (encode k) body in
        let size' = length-append (format p v) (format_entries p es) in
        let many = length-EndsLong k v es b in
        entry-ReadsAt n end table (parse_value p f) (parse_entries p f (pos end)) k (omega arith) w
          (value-Reads f v h (omega arith))
          (entries-ReadsAt f (n + length (short_string p k) + length (format p v)) end
            (set_entry k (received v) table) es (later k v es b) hs (omega arith) (omega arith))

  -- A table that stands without a type octet, as in the fields of a method.
  pub parse_table-Reads :
      (f : ℕ) (es : Entries Double)
      → IsReadable p IsWellFormed (object es)
      → length (format_entries p es) + 1 < f
      → Reads (parse_table p f) (with_size (format_entries p es)) (received_entries no_entries es)
  unfolding parse_table
  parse_table-Reads f es (n, e, hs) l = table-Reads p (parse_entries p f) _ n λ m.
      entries-ReadsAt f (m + 4) (m + length (format_entries p es)) no_entries es e hs l
        (omega arith)

-- With more fuel than the value has bytes, `parseValue` reads what `serializeValue` writes for a
-- readable value: it gives the value that is received for it, and stands behind it.
pub parse_value-format :
    (p : Platform) (IsWellFormed : Text → Type 0) (faithful : IsFaithful p IsWellFormed) (f : ℕ)
    (v : Value p.Double) (front back : List ℕ)
    → IsReadable p IsWellFormed v
    → length (format p v) < f
    → parse_value p f (past front (format p v ++ back))
      ≡ ok (received v, past (front ++ format p v) back)
parse_value-format p IsWellFormed faithful f v front back h l =
    let reads = value-Reads p IsWellFormed faithful f v h l in reads.run front back

-- ===== src/Serializer/Refines.antt =====
-- lib/serializer.js writes the format: the lengths that it goes back to write are those of what it wrote
-- in between.
use node_amqp.Prelude.{
  ℕ, suc, ◌+◌, ◌-◌, ◌≤◌, ◌≡◌, refl, sym, ap, ◌∙◌, arith, inl, inr, List, [], ◌∷◌, ◌++◌,
  append_assoc, append-nil, length, length-append, length-take, length-drop, take, drop,
  take-append-drop, Bool, true, false, ltb, leb, le→ltb_false, lt→leb_false, ℤ, pos, if◌then◌else◌,
  subst,
}
use node_amqp.Js.{to_uint8}
use node_amqp.Result.{Result, ok, ◌>>=◌}
use node_amqp.Values.{
  Number, int, fraction, Text, Value, Items, Entries, Platform, text, number, boolean, date, bytes,
  array, object, null, unsupported, no_items, item, no_entries, entry,
}
use node_amqp.Serializer.Buffer.{Buffer, at, put, put_bytes}
use node_amqp.Serializer.Ints.{serialize_int, int_bytes, length-int_bytes, serialize_int-at}
use node_amqp.Serializer.Writes.{
  Writer, Writes, then-Writes, put-Writes, put_bytes-Writes, serialize_int-Writes, at_path,
  drop-drop,
}
use node_amqp.Serializer.Values.{
  serialize_buffer, seconds, serialize_date, is_float, is_big_int, with_length,
  serialize_short_string, serialize_long_string, serialize_number, serialize_value, serialize_items,
  serialize_entries,
}
use node_amqp.Serializer.Format.{
  length-format_pos, with_size, short_string, format_number, format, format_items, format_entries,
  IsSendable, AreSendable, AreSendableEntries,
}

-- A type octet in front.
tag-Writes :
    (t : ℕ) {k : ℕ} {f : Writer} {xs : List ℕ}
    → Writes k f xs
    → Writes k (λ b. f (put b (pos t))) (to_uint8 (pos t) ∷ xs)
tag-Writes t h = then-Writes (put-Writes (pos t)) h (omega arith)

pub if-Writes :
    (t : Bool) {k : ℕ} {f g : Writer} {xs ys : List ℕ}
    → Writes k f xs
    → Writes k g ys
    → Writes k (λ b. if t then f b else g b) (if t then xs else ys)
if-Writes true h l = h
if-Writes false h l = l

pub done-Writes : Writes 0 (λ b. ok b) []
done-Writes = record { run = λ front rest room. at_path (sym (append-nil front)) refl }

-- The length is written over the four bytes `hole` that were left out for it.
pub patched :
    (front hole xs back : List ℕ)
    → length hole ≡ 4
    → (serialize_int
          (record { mem = ((front ++ hole) ++ xs) ++ back; used = length front })
          4
          (pos (length ((front ++ hole) ++ xs) - (length front + 4)))
        >>= λ l. ok (record l { used = length ((front ++ hole) ++ xs) }))
      ≡ ok (at (front ++ with_size xs) back)
patched front hole xs back h =
    ap (λ (r : Result Buffer). r >>= λ l. ok (record l { used = length ((front ++ hole) ++ xs) }))
      written
    ∙ λ i. ok (record { mem = regrouped i; used = measured i })
  where
    size : List ℕ
    size = int_bytes 4 (pos (length xs))

    total : length ((front ++ hole) ++ xs) ≡ length front + 4 + length xs
    total = omega (arith, length-append (front ++ hole) xs, length-append front hole)

    opened : ((front ++ hole) ++ xs) ++ back ≡ front ++ (hole ++ (xs ++ back))
    opened = append_assoc (front ++ hole) xs back ∙ append_assoc front hole (xs ++ back)

    count : length ((front ++ hole) ++ xs) - (length front + 4) ≡ length xs
    count = omega (arith, total)

    written :
        serialize_int
          (record { mem = ((front ++ hole) ++ xs) ++ back; used = length front })
          4
          (pos (length ((front ++ hole) ++ xs) - (length front + 4)))
        ≡ ok (at (front ++ size) (xs ++ back))
    written =
        (λ i. serialize_int (record { mem = opened i; used = length front }) 4 (pos (count i)))
        ∙ serialize_int-at 4 (pos (length xs)) front hole (xs ++ back) (inr (inr (inl refl))) h

    regrouped : (front ++ size) ++ (xs ++ back) ≡ (front ++ (size ++ xs)) ++ back
    regrouped =
        sym (append_assoc (front ++ size) xs back)
        ∙ ap (λ (l : List ℕ). l ++ back) (append_assoc front size xs)

    measured : length ((front ++ hole) ++ xs) ≡ length (front ++ (size ++ xs))
    measured = omega (
      arith,
      total,
      length-append front (size ++ xs),
      length-append size xs,
      length-int_bytes 4 (pos (length xs)) (inr (inr (inl refl))),
    )

pub with_length-Writes :
    {f : Writer} (xs : List ℕ) → Writes 0 f xs → Writes 0 (with_length f) (with_size xs)
with_length-Writes {f} xs h = record { run = backpatch }
  where
    size : List ℕ
    size = int_bytes 4 (pos (length xs))

    four : length size ≡ 4
    four = length-int_bytes 4 (pos (length xs)) (inr (inr (inl refl)))

    finish : ℕ → Buffer → Result Buffer
    finish start e =
        serialize_int (record e { used = start }) 4 (pos (e.used - (start + 4))) >>= λ l.
        ok (record l { used = e.used })

    backpatch :
        (front rest : List ℕ)
        → length (with_size xs) + 0 ≤ length rest
        → with_length f (at front rest)
          ≡ ok (at (front ++ with_size xs) (drop (length (with_size xs)) rest))
    backpatch front rest room =
        let sizes : length (size ++ xs) ≡ 4 + length xs =
          omega (arith, length-append size xs, four) in
        let hole : List ℕ = take 4 rest in
        let hole_size : length hole ≡ 4 = omega (arith, length-take 4 rest) in
        let skipped : front ++ rest ≡ (front ++ hole) ++ drop 4 rest =
          ap (◌++◌ front) (sym (take-append-drop 4 rest))
          ∙ sym (append_assoc front hole (drop 4 rest)) in
        let moved : length front + 4 ≡ length (front ++ hole) =
          omega (arith, length-append front hole) in
        unfold with_length in
        (λ i. f (record { mem = skipped i; used = moved i }) >>= finish (length front))
        ∙ (ap (λ (r : Result Buffer). r >>= finish (length front))
              (h.run (front ++ hole) (drop 4 rest) (omega (arith, length-drop 4 rest)))
            ∙ (patched front hole xs (drop (length xs) (drop 4 rest)) hole_size
                ∙ at_path refl
                    (drop-drop 4 (length xs) rest ∙ ap (λ (n : ℕ). drop n rest) (sym sizes))))

date-Writes : (ms : ℤ) → Writes 0 (serialize_date ms) (int_bytes 8 (seconds ms))
unfolding serialize_date
date-Writes ms = serialize_int-Writes 8 (seconds ms) (inr (inr (inr refl)))

buffer-Writes : (xs : List ℕ) → Writes 0 (serialize_buffer xs) (with_size xs)
unfolding serialize_buffer
buffer-Writes xs =
    then-Writes (serialize_int-Writes 4 _ (inr (inr (inl refl)))) (put_bytes-Writes xs)
      (omega arith)

module _ (p : Platform) where
  open p use {Double, encode, pack_double}

  pub short-Writes :
      (s : Text)
      → length (encode s) ≤ 255
      → Writes 1 (serialize_short_string p s) (short_string p s)
  short-Writes s l = record { run = guarded }
    where
      n : ℕ
      n = length (encode s)

      octet : to_uint8 (pos n) ≡ n
      octet = unfold to_uint8 in omega arith

      tag_bytes : Writes 0 (λ b. ok (put_bytes (put b (pos n)) (encode s))) (n ∷ encode s)
      tag_bytes =
          subst
            (λ (t : ℕ). Writes 0 (λ b. ok (put_bytes (put b (pos n)) (encode s))) (t ∷ encode s))
            octet (tag-Writes n (put_bytes-Writes (encode s)))

      guarded :
          (front rest : List ℕ)
          → suc n + 1 ≤ length rest
          → serialize_short_string p s (at front rest)
            ≡ ok (at (front ++ short_string p s) (drop (suc n) rest))
      guarded front rest room =
          let fits : ltb 255 n ≡ false = le→ltb_false 255 n l in
          let space : leb (length (front ++ rest)) (1 + n + length front) ≡ false =
            lt→leb_false _ _ (omega (arith, length-append front rest)) in
          unfold serialize_short_string in
          rw (fits, space) ((tag_bytes).run front rest (omega arith))

  pub long-Writes : (s : Text) → Writes 0 (serialize_long_string p s) (with_size (encode s))
  unfolding serialize_long_string
  long-Writes s =
      then-Writes (serialize_int-Writes 4 _ (inr (inr (inl refl)))) (put_bytes-Writes (encode s))
        (omega arith)

  number-Writes : (n : Number Double) → Writes 0 (serialize_number p n) (format_number p n)
  unfolding serialize_number format_number to_uint8
  number-Writes (fraction d) = tag-Writes b'd' (put_bytes-Writes (pack_double (fraction d)))
  number-Writes (int z) =
      if-Writes (is_float {D = Double} (int z))
        (tag-Writes b'd' (put_bytes-Writes (pack_double (int z))))
        (if-Writes (is_big_int z)
          (tag-Writes b'l' (serialize_int-Writes 8 z (inr (inr (inr refl)))))
          (tag-Writes b'I' (serialize_int-Writes 4 z (inr (inr (inl refl))))))

  mutual
    unfolding serialize_value format to_uint8

    value-Writes : (v : Value Double) → IsSendable p v → Writes 0 (serialize_value p v) (format p v)
    value-Writes (text s) h = tag-Writes b'S' (long-Writes s)
    value-Writes (number n) h = number-Writes n
    value-Writes (boolean true) h = tag-Writes b't' (put-Writes (pos 1))
    value-Writes (boolean false) h = tag-Writes b't' (put-Writes (pos 0))
    value-Writes (date ms) h = tag-Writes b'T' (date-Writes ms)
    value-Writes (bytes xs) h = tag-Writes b'x' (buffer-Writes xs)
    value-Writes (array xs) h =
        tag-Writes b'A' (with_length-Writes (format_items p xs) (items-Writes xs h))
    value-Writes (object es) h =
        tag-Writes b'F' (with_length-Writes (format_entries p es) (entries-Writes es h))
    value-Writes null h = tag-Writes b'F' (with_length-Writes [] done-Writes)
    value-Writes unsupported h = elim h [ ]

    items-Writes :
        (xs : Items Double) → AreSendable p xs → Writes 0 (serialize_items p xs) (format_items p xs)
    items-Writes no_items h = done-Writes
    items-Writes (item v xs) (h, hs) =
        then-Writes (value-Writes v h) (items-Writes xs hs) (omega arith)

    pub entries-Writes :
        (es : Entries Double)
        → AreSendableEntries p es
        → Writes 0 (serialize_entries p es) (format_entries p es)
    entries-Writes no_entries h = done-Writes
    entries-Writes (entry k v es) (l, h, hs) =
        then-Writes (short-Writes k l)
          (then-Writes (value-Writes v h) (entries-Writes es hs) (omega arith))
          (omega (
            arith,
            length-append (format p v) (format_entries p es),
            length-format_pos p v (λ e. subst (IsSendable p) e h),
          ))

-- `serializeValue`, with at least the room that the format takes, succeeds on every value that nests no
-- `undefined` or function and no key of more than 255 bytes; it leaves exactly the format of the value
-- behind what was written before, stands behind it, and leaves the rest of the buffer as it was.
pub serialize_value-format :
    (p : Platform) (v : Value p.Double) (front rest : List ℕ)
    → IsSendable p v
    → length (format p v) ≤ length rest
    → serialize_value p v (at front rest)
      ≡ ok (at (front ++ format p v) (drop (length (format p v)) rest))
serialize_value-format p v front rest h room =
    let w = value-Writes p v h in w.run front rest (omega arith)

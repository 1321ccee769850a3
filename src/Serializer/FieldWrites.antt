-- ===== src/Serializer/FieldWrites.antt =====
-- `serializeFields` of lib/serializer.js writes the bytes of the fields.
use node_amqp.Prelude.{
  ℕ, zero, suc, ◌+◌, ◌≤◌, ◌<◌, ◌≡◌, ◌≢◌, refl, arith, inl, inr, Bool, false, List, [], ◌∷◌, ◌++◌,
  All, length, some, Option, le→ltb_false, ℤ, pos, if◌then◌else◌, get_elem?, subst, sym, ap, ◌∙◌,
}
use node_amqp.Js.{to_uint8}
use node_amqp.Result.{Result, unmatched_field, ok, err, ◌>>=◌}
use node_amqp.Values.{Number, int, Value, Platform, Text, text, number, boolean, bytes, object}
use node_amqp.Definitions.Info.{
  Domain, Field, bit, octet, short, long, timestamp, longlong, shortstr, longstr, table,
}
use node_amqp.Serializer.Buffer.{put}
use node_amqp.Serializer.Ints.{serialize_int}
use node_amqp.Serializer.Writes.{
  Writer, Writes, then-Writes, more_room, put-Writes, serialize_int-Writes,
}
use node_amqp.Serializer.Values.{with_length, serialize_table, serialize_short_string}
use node_amqp.Serializer.Format.{short_string}
use node_amqp.Serializer.Fields.{
  Args, bit_follows, set_bit, number_exceeds, int_of, bounded, element_of, put_elements,
  own_entries, serialize_object, serialize_longstr, serialize_shortstr, serialize_param,
  serialize_field, serialize_found, serialize_loop,
}
use node_amqp.Serializer.Refines.{
  if-Writes, short-Writes, long-Writes, with_length-Writes, entries-Writes, done-Writes,
}
use node_amqp.Serializer.FieldFormat.{
  IsParam, AreParams, Holds, format_param, format_field, format_fields,
}

module _ (p : Platform) where
  open p use {Double, encode}

  element-here :
      (xs : List ℕ) (y j : ℕ) → get_elem? xs j ≡ some y → element_of p (bytes xs) j ≡ ok (pos y)
  unfolding element_of
  element-here xs y j e = rw e refl

  put_all_eight :
      (xs ys : List ℕ) (n j : ℕ)
      → length ys ≡ n
      → All (λ x. x < 256) ys
      → ((i : ℕ) → get_elem? xs (j + i) ≡ get_elem? ys i)
      → Writes 0 (put_elements p (bytes xs) n j) ys
  unfolding put_elements
  put_all_eight xs [] zero j l small same = done-Writes
  put_all_eight xs (y ∷ ys) zero j l small same = absurd (omega arith)
  put_all_eight xs [] (suc n) j l small same = absurd (omega arith)
  put_all_eight xs (y ∷ ys) (suc n) j l (s, small) same =
      let here : element_of p (bytes xs) j ≡ ok (pos y) =
        element-here xs y j (ap (get_elem? xs) (omega arith) ∙ same 0) in
      let octet_same : to_uint8 (pos y) ≡ y = unfold to_uint8 in omega arith in
      subst
        (λ (r : Result ℤ).
          Writes 0 (λ b. r >>= λ x. put_elements p (bytes xs) n (j + 1) (put b x)) (y ∷ ys))
        (sym here)
        (subst
          (λ (x : ℕ). Writes 0 (λ b. put_elements p (bytes xs) n (j + 1) (put b (pos y))) (x ∷ ys))
          octet_same
          (then-Writes (put-Writes (pos y))
            (put_all_eight xs ys n (j + 1) (omega arith) small
              (λ i. ap (get_elem? xs) (omega arith) ∙ same (suc i)))
            (omega arith)))

  bounded-Writes :
      (max : ℕ) (n : Number Double) {k : ℕ} (write : ℤ → Writer) {xs : List ℕ}
      → number_exceeds p n max ≡ false
      → Writes k (write (int_of p (number n))) xs
      → Writes k (bounded p max (number n) write) xs
  unfolding bounded
  bounded-Writes max n {k} write {xs} e h =
      subst
        (λ (t : Bool).
          Writes k (λ b. if t then err unmatched_field else write (int_of p (number n)) b) xs)
        (sym e) h

  fits : (max n : ℕ) → n ≤ max → number_exceeds p (int (pos n)) max ≡ false
  unfolding number_exceeds
  fits max n l = le→ltb_false (max + 0) (n + 0) (omega arith)

  shortstr-Writes :
      (s : Text)
      → length s ≤ 0xff
      → length (encode s) ≤ 0xff
      → Writes 1 (serialize_shortstr p (text s)) (short_string p s)
  unfolding serialize_shortstr
  shortstr-Writes s l m =
      subst
        (λ (t : Bool).
          Writes 1 (λ b. if t then err unmatched_field else serialize_short_string p s b)
            (short_string p s))
        (sym (le→ltb_false 0xff (length s) l)) (short-Writes p s m)

  param-Writes :
      (d : Domain) (v : Value Double)
      → d ≢ bit
      → IsParam p d v
      → Writes 1 (serialize_param p d v) (format_param p d v)
  unfolding serialize_param format_param serialize_longstr serialize_object own_entries
      serialize_table with_length
  param-Writes bit v n h = absurd (n refl)
  param-Writes octet (number (int (pos n))) _ h =
      more_room (omega arith)
        (bounded-Writes 0xff (int (pos n)) (λ z c. ok (put c z)) (fits 0xff n h) (put-Writes _))
  param-Writes short (number (int (pos n))) _ h = more_room (omega arith) (
      bounded-Writes 0xffff (int (pos n)) (λ z c. serialize_int c 2 z) (fits 0xffff n h)
        (serialize_int-Writes 2 _ (inr (inl refl))))
  param-Writes long (number (int (pos n))) _ h = more_room (omega arith) (
      bounded-Writes 0xffff_ffff (int (pos n)) (λ z c. serialize_int c 4 z) (fits 0xffff_ffff n h)
        (serialize_int-Writes 4 _ (inr (inr (inl refl)))))
  param-Writes timestamp (number (int z)) _ h =
      more_room (omega arith) (serialize_int-Writes 8 _ (inr (inr (inr refl))))
  param-Writes longlong (bytes xs) _ (l, small) =
      more_room (omega arith)
        (put_all_eight xs xs 8 0 l small (λ i. ap (get_elem? xs) (omega arith)))
  param-Writes shortstr (text s) _ (l, m) = shortstr-Writes s l m
  param-Writes longstr (text s) _ h = more_room (omega arith) (long-Writes p s)
  param-Writes table (object es) _ h =
      more_room (omega arith) (with_length-Writes _ (entries-Writes p es h))
  param-Writes _ _ _ h = elim h [ ]

  behind :
      (d : Domain) (v : Value Double) (bit_field : ℤ) (i : ℕ) {more : ℤ → ℕ → Writer}
      {bytes_of : ℤ → ℕ → List ℕ}
      → d ≢ bit
      → IsParam p d v
      → ((z : ℤ) (j : ℕ) → Writes 1 (more z j) (bytes_of z j))
      → Writes 1
          (λ b. serialize_param p d v b >>= more bit_field i)
          (format_param p d v ++ bytes_of bit_field i)
  behind d v bit_field i n h next =
      then-Writes (param-Writes d v n h) (next bit_field i) (omega arith)

  pub field-Writes :
      (d : Domain) (v : Value Double) (follows : Bool) (bit_field : ℤ) (i : ℕ)
      {more : ℤ → ℕ → Writer} {bytes_of : ℤ → ℕ → List ℕ}
      → IsParam p d v
      → ((z : ℤ) (j : ℕ) → Writes 1 (more z j) (bytes_of z j))
      → Writes 1
          (λ b. serialize_field p d v follows bit_field i b (λ z j c. more z j c))
          (format_field p d v follows bit_field i bytes_of)
  unfolding serialize_field format_field
  field-Writes bit (boolean x) follows bit_field i h next =
      if-Writes follows (next (set_bit x bit_field i) (i + 1))
        (then-Writes (put-Writes (set_bit x bit_field i)) (next (pos 0) 0) (omega arith))
  field-Writes bit _ follows bit_field i h next = elim h [ ]
  field-Writes octet v follows bit_field i h next = behind octet v bit_field i (λ e. cc) h next
  field-Writes short v follows bit_field i h next = behind short v bit_field i (λ e. cc) h next
  field-Writes long v follows bit_field i h next = behind long v bit_field i (λ e. cc) h next
  field-Writes timestamp v follows bit_field i h next =
      behind timestamp v bit_field i (λ e. cc) h next
  field-Writes longlong v follows bit_field i h next =
      behind longlong v bit_field i (λ e. cc) h next
  field-Writes shortstr v follows bit_field i h next =
      behind shortstr v bit_field i (λ e. cc) h next
  field-Writes longstr v follows bit_field i h next = behind longstr v bit_field i (λ e. cc) h next
  field-Writes table v follows bit_field i h next = behind table v bit_field i (λ e. cc) h next

  pub loop-Writes :
      (args : Args Double) (strict : Bool) (fs : List Field) (vs : List (Value Double))
      (bit_field : ℤ) (i : ℕ)
      → Holds p args fs vs
      → AreParams p fs vs
      → Writes 1 (serialize_loop p args strict fs bit_field i) (format_fields p fs vs bit_field i)
  unfolding serialize_loop format_fields serialize_found
  loop-Writes args strict [] [] bit_field i held are = more_room (omega arith) done-Writes
  loop-Writes args strict (f ∷ fs) (v ∷ vs) bit_field i (here, held) (is, are) =
      subst
        (λ (o : Option (Value Double)).
          Writes 1
            (λ b.
              serialize_found p f (bit_follows fs) strict o bit_field i b
                (serialize_loop p args strict fs))
            (format_fields p (f ∷ fs) (v ∷ vs) bit_field i))
        (sym here)
        (field-Writes f.domain v (bit_follows fs) bit_field i is
          (λ z j. loop-Writes args strict fs vs z j held are))
  loop-Writes args strict _ _ bit_field i held are = elim held [ ]

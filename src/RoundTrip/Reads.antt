-- ===== src/RoundTrip/Reads.antt =====
-- What it means that code reads given bytes, and how such code is put together.
use node_amqp.Prelude.{
  ℕ, ◌+◌, ◌<◌, ◌≤◌, ◌≡◌, refl, sym, ap, ◌∙◌, arith, inl, inr, List, [], ◌∷◌, ◌++◌, append_assoc,
  append-nil, length, length-append, subst, take, drop, take-append, drop-append, le→ltb_false, ℤ,
  pos,
}
use node_amqp.Js.{to_int32}
use node_amqp.Result
use node_amqp.Result.{Result, ok}
use node_amqp.Parser.Cursor.{Cursor, Parser, ◌>>=◌, pure, next, past, next-past}
use node_amqp.Parser.Ints.{parse_int, parse_int4, parse_int8}
use node_amqp.Parser.Values.{take_slice, take_octets, take_buffer}
use node_amqp.Serializer.Ints.{int_bytes}
use node_amqp.RoundTrip.Ints.{parse_int-int_bytes, wire_value}

-- Where `xs` come next, `p` succeeds with `a` and stands behind them.
pub record Reads {A : Type 0} (p : Parser A) (xs : List ℕ) (a : A) : Type 0 where
  pub run : (front back : List ℕ) → p (past front (xs ++ back)) ≡ ok (a, past (front ++ xs) back)

-- Two cursors at the same place of the same frame.
pub past_path :
    {A : Type 0} {a b : A} {front front' : List ℕ} (back : List ℕ)
    → a ≡ b
    → front ≡ front'
    → ◌≡◌ {A = Result (A × Cursor)} (ok (a, past front back)) (ok (b, past front' back))
past_path back e p = λ i. ok (e i, past (p i) back)

pub then-Reads :
    {A B : Type 0} {p : Parser A} (f : A → Parser B) {xs ys : List ℕ} {a : A} {b : B}
    → Reads p xs a
    → Reads (f a) ys b
    → Reads (p >>= f) (xs ++ ys) b
then-Reads {A} {B} {p} f {xs} {ys} {a} {b} h k = record { run = both }
  where
    both :
        (front back : List ℕ)
        → (p >>= f) (past front ((xs ++ ys) ++ back)) ≡ ok (b, past (front ++ (xs ++ ys)) back)
    both front back =
        ap (λ (m : List ℕ). (p >>= f) (record { mem = front ++ m; read = length front }))
          (append_assoc xs ys back)
        ∙ (ap (λ (r : Result (A × Cursor)). Result.◌>>=◌ r λ (x, c). f x c)
              (h.run front (ys ++ back))
            ∙ (k.run (front ++ xs) back ∙ past_path back refl (append_assoc front xs ys)))

pub pure-Reads : {A : Type 0} (a : A) → Reads (pure a) [] a
pure-Reads a = record { run = λ front back. past_path back refl (sym (append-nil front)) }

pub next-Reads : (x : ℕ) → Reads next (x ∷ []) x
next-Reads x = record { run = λ front back. next-past front x back }

-- A value of the last step is all that `f` adds.
pub map-Reads :
    {A B : Type 0} {p : Parser A} (f : A → B) {xs : List ℕ} {a : A}
    → Reads p xs a
    → Reads (p >>= λ x. pure (f x)) xs (f a)
map-Reads {A} {B} {p} f {xs} {a} h =
    subst (λ (l : List ℕ). Reads (p >>= λ x. pure (f x)) l (f a)) (append-nil xs)
      (then-Reads (λ x. pure (f x)) h (pure-Reads (f a)))

pub int4-Reads : (z : ℤ) → Reads parse_int4 (int_bytes 4 z) (to_int32 z)
unfolding parse_int wire_value
int4-Reads z = record {
  run = λ front back. parse_int-int_bytes 4 z front back (inr (inr (inl refl)));
}

pub int8-Reads : (z : ℤ) → Reads parse_int8 (int_bytes 8 z) (to_int32 z)
unfolding parse_int wire_value
int8-Reads z = record {
  run = λ front back. parse_int-int_bytes 8 z front back (inr (inr (inr refl)));
}

-- A length below 2 ^ 31 is read as it was written.
pub to_int32_small : (n : ℕ) → n < 0x8000_0000 → to_int32 (pos n) ≡ pos n
unfolding to_int32
to_int32_small n h = ground arith

pub size-Reads : (n : ℕ) → n < 0x8000_0000 → Reads parse_int4 (int_bytes 4 (pos n)) (pos n)
size-Reads n h = rw (to_int32_small n h) at (int4-Reads (pos n))

taken_slice :
    (front xs back : List ℕ) → take (length xs) (drop (length front) (front ++ (xs ++ back))) ≡ xs
taken_slice front xs back = rw (drop-append front (xs ++ back)) (take-append xs back)

moved :
    (front xs back : List ℕ) {a : List ℕ}
    → a ≡ xs
    → ◌≡◌ {A = Result (List ℕ × Cursor)}
        (ok (a, record { mem = front ++ (xs ++ back); read = length front + length xs }))
        (ok (xs, past (front ++ xs) back))
moved front xs back e = λ i. ok (
  e i,
  record { mem = sym (append_assoc front xs back) i; read = sym (length-append front xs) i },
)

pub slice-Reads : (xs : List ℕ) → Reads (take_slice (pos (length xs))) xs xs
unfolding take_slice
slice-Reads xs = record { run = λ front back. moved front xs back (taken_slice front xs back) }

pub buffer-Reads : (xs : List ℕ) → Reads (take_buffer (pos (length xs))) xs xs
buffer-Reads xs = record { run = read }
  where
    read :
        (front back : List ℕ)
        → take_buffer (pos (length xs)) (past front (xs ++ back)) ≡ ok (xs, past (front ++ xs) back)
    read front back =
        let room : length front + length xs ≤ length (front ++ (xs ++ back)) =
          omega (arith, length-append front (xs ++ back), length-append xs back) in
        unfold take_buffer in
        rw (le→ltb_false _ _ room) (moved front xs back (taken_slice front xs back))

pub octets-Reads : (xs : List ℕ) → Reads (take_octets (length xs)) xs xs
unfolding take_octets
octets-Reads [] = pure-Reads []
octets-Reads (x ∷ xs) = then-Reads _ (next-Reads x) (map-Reads (λ ys. x ∷ ys) (octets-Reads xs))

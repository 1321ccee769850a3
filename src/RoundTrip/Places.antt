-- ===== src/RoundTrip/Places.antt =====
-- Reading that depends on the place, as the loops of lib/parser.js do that compare `buffer.read` with
-- the end of a table or an array.
use node_amqp.Prelude.{
  ℕ, ◌+◌, ◌≡◌, refl, sym, ap, ◌∙◌, List, [], ◌++◌, append_assoc, append-nil, length, length-append,
  arith, ◌<◌, ◌≤◌, ltb_ℤ, pos, if◌then◌else◌, lt→ltb, le→ltb_false,
}
use node_amqp.Result
use node_amqp.Result.{Result, ok}
use node_amqp.Parser.Cursor.{Cursor, Parser, ◌>>=◌, pure, past}
use node_amqp.Parser.Values.{position}
use node_amqp.RoundTrip.Reads.{Reads, past_path}

-- Where `n` bytes have been read and `xs` come next, `p` succeeds with `a` and stands behind them.
pub record ReadsAt {A : Type 0} (n : ℕ) (p : Parser A) (xs : List ℕ) (a : A) : Type 0 where
  pub run :
      (front back : List ℕ)
      → length front ≡ n
      → p (past front (xs ++ back)) ≡ ok (a, past (front ++ xs) back)

pub everywhere :
    {A : Type 0} {p : Parser A} {xs : List ℕ} {a : A} {n : ℕ} → Reads p xs a → ReadsAt n p xs a
everywhere h = record { run = λ front back l. h.run front back }

pub anywhere :
    {A : Type 0} {p : Parser A} {xs : List ℕ} {a : A} → ((n : ℕ) → ReadsAt n p xs a) → Reads p xs a
anywhere h = record { run = λ front back. let r = h (length front) in r.run front back refl }

pub then-ReadsAt :
    {A B : Type 0} {p : Parser A} (f : A → Parser B) {xs ys : List ℕ} {a : A} {b : B} {n m : ℕ}
    → ReadsAt n p xs a
    → m ≡ n + length xs
    → ReadsAt m (f a) ys b
    → ReadsAt n (p >>= f) (xs ++ ys) b
then-ReadsAt {A} {B} {p} f {xs} {ys} {a} {b} {n} {m} h e k = record { run = both }
  where
    both :
        (front back : List ℕ)
        → length front ≡ n
        → (p >>= f) (past front ((xs ++ ys) ++ back)) ≡ ok (b, past (front ++ (xs ++ ys)) back)
    both front back l =
        ap (λ (m : List ℕ). (p >>= f) (record { mem = front ++ m; read = length front }))
          (append_assoc xs ys back)
        ∙ (ap (λ (r : Result (A × Cursor)). Result.◌>>=◌ r λ (x, c). f x c)
              (h.run front (ys ++ back) l)
            ∙ (k.run (front ++ xs) back (omega (arith, length-append front xs))
                ∙ past_path back refl (append_assoc front xs ys)))

pub map-ReadsAt :
    {A B : Type 0} {p : Parser A} (f : A → B) {xs : List ℕ} {a : A} {n : ℕ}
    → ReadsAt n p xs a
    → ReadsAt n (p >>= λ x. pure (f x)) xs (f a)
map-ReadsAt {A} {B} {p} f {xs} {a} {n} h = record {
  run = λ front back l.
      ap (λ (r : Result (A × Cursor)). Result.◌>>=◌ r λ (x, c). ok (f x, c)) (h.run front back l);
}

pub position-ReadsAt : (n : ℕ) → ReadsAt n position [] n
position-ReadsAt n = record { run = λ front back l. past_path back l (sym (append-nil front)) }

-- The condition of a loop, `buffer.read < end`.
abbrev pub before : {A : Type 0} → ℕ → Parser A → Parser A → Parser A
before end p q c = if ltb_ℤ (pos c.read) (pos end) then p c else q c

pub round-ReadsAt :
    {A : Type 0} (end : ℕ) {p : Parser A} (q : Parser A) {xs : List ℕ} {a : A} {n : ℕ}
    → n < end
    → ReadsAt n p xs a
    → ReadsAt n (before end p q) xs a
round-ReadsAt end q l h = record {
  run = λ front back e. rw (lt→ltb (length front + 0) (end + 0) (omega arith)) (h.run front back e);
}

pub stop-ReadsAt :
    {A : Type 0} (end : ℕ) (p : Parser A) (a : A) {n : ℕ}
    → end ≤ n
    → ReadsAt n (before end p (pure a)) [] a
stop-ReadsAt end p a l = record {
  run = λ front back e.
      rw (le→ltb_false (length front + 0) (end + 0) (omega arith))
        (past_path back refl (sym (append-nil front)));
}

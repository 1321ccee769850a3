-- ===== src/Serializer/Writes.antt =====
-- What it means that code writes given bytes, and how such code is put together.
use node_amqp.Prelude.{
  ◌-◌, ℕ, zero, suc, ◌+◌, ◌≤◌, ◌≡◌, sym, ap, ◌∙◌, arith, List, [], ◌∷◌, ◌++◌, append_assoc, length,
  length-append, length-take, length-drop, take, drop, take-append-drop, ℤ,
}
use native.Mathlib.Nat.{suc-add}
use node_amqp.Js.{to_uint8}
use node_amqp.Result.{Result, ok, ◌>>=◌}
use node_amqp.Serializer.Buffer.{Buffer, at, put, put-at, put_bytes, put_bytes-at}
use node_amqp.Serializer.Ints.{
  serialize_int, serialize_int-at, int_bytes, length-int_bytes, IsWidth,
}

abbrev pub Writer : Type 0
Writer = Buffer → Result Buffer

-- With room for `xs` and `slack` bytes more, `f` succeeds, writes `xs`, stands behind it, and changes
-- nothing else.
pub record Writes (slack : ℕ) (f : Writer) (xs : List ℕ) : Type 0 where
  pub run :
      (front rest : List ℕ)
      → length xs + slack ≤ length rest
      → f (at front rest) ≡ ok (at (front ++ xs) (drop (length xs) rest))

pub drop-drop : (m n : ℕ) (xs : List ℕ) → drop n (drop m xs) ≡ drop (m + n) xs
drop-drop zero n xs = ap (λ (k : ℕ). drop k xs) (omega arith)
drop-drop (suc m) zero [] = rw suc-add
drop-drop (suc m) (suc n) [] = rw suc-add
drop-drop (suc m) n (x ∷ xs) = rw suc-add (drop-drop m n xs)

-- More room is no harm.
pub more_room : {j k : ℕ} {f : Writer} {xs : List ℕ} → j ≤ k → Writes j f xs → Writes k f xs
more_room l h = record { run = λ front rest room. h.run front rest (omega arith) }

-- Two buffers are equal if they are cut at the same place.
pub at_path :
    {front front' rest rest' : List ℕ}
    → front ≡ front'
    → rest ≡ rest'
    → ◌≡◌ {A = Result Buffer} (ok (at front rest)) (ok (at front' rest'))
at_path p q = λ i. ok (at (p i) (q i))

pub then-Writes :
    {j k : ℕ} {f g : Writer} {xs ys : List ℕ}
    → Writes j f xs
    → Writes k g ys
    → j ≤ length ys + k
    → Writes k (λ b. f b >>= g) (xs ++ ys)
then-Writes {j} {k} {f} {g} {xs} {ys} hf hg l = record { run = both }
  where
    both :
        (front rest : List ℕ)
        → length (xs ++ ys) + k ≤ length rest
        → (f (at front rest) >>= g) ≡ ok (at (front ++ (xs ++ ys)) (drop (length (xs ++ ys)) rest))
    both front rest room =
        let total : length (xs ++ ys) ≡ length xs + length ys = length-append xs ys in
        let left : length (drop (length xs) rest) ≡ length rest - length xs =
          length-drop (length xs) rest in
        ap (λ (r : Result Buffer). r >>= g) (hf.run front rest (omega arith))
        ∙ (hg.run (front ++ xs) (drop (length xs) rest) (omega arith)
            ∙ at_path (append_assoc front xs ys)
                (drop-drop (length xs) (length ys) rest ∙ ap (λ (n : ℕ). drop n rest) (sym total)))

pub put-Writes : (v : ℤ) → Writes 0 (λ b. ok (put b v)) (to_uint8 v ∷ [])
put-Writes v = record { run = one }
  where
    one :
        (front rest : List ℕ)
        → 1 + 0 ≤ length rest
        → ok (put (at front rest) v) ≡ ok (at (front ++ to_uint8 v ∷ []) (drop 1 rest))
    one front [] room = absurd (omega arith)
    one front (x ∷ rest) room = ap ok (put-at front x v rest)

-- Code that fills a hole of the right length writes what it fills it with.
filled :
    (f : Writer) (xs : List ℕ)
    → ((front hole back : List ℕ)
        → length hole ≡ length xs
        → f (at front (hole ++ back)) ≡ ok (at (front ++ xs) back))
    → Writes 0 f xs
filled f xs h = record {
  run = λ front rest room.
      ap (λ (r : List ℕ). f (at front r)) (sym (take-append-drop (length xs) rest))
      ∙ h front (take (length xs) rest) (drop (length xs) rest)
          (omega (arith, length-take (length xs) rest));
}

pub put_bytes-Writes : (xs : List ℕ) → Writes 0 (λ b. ok (put_bytes b xs)) xs
put_bytes-Writes xs = filled _ xs (λ front hole back l. ap ok (put_bytes-at xs front hole back l))

pub serialize_int-Writes :
    (size : ℕ) (int : ℤ)
    → IsWidth size
    → Writes 0 (λ b. serialize_int b size int) (int_bytes size int)
serialize_int-Writes size int w = filled _ (int_bytes size int) λ front hole back l.
    serialize_int-at size int front hole back w (l ∙ length-int_bytes size int w)

-- ===== src/Serializer/Buffer.antt =====
-- A Node Buffer with the property `used`, which lib/serializer.js writes through.
use node_amqp.Prelude.{
  ℕ, ◌+◌, ◌≡◌, sym, ap, ◌∙◌, arith, List, [], ◌∷◌, ◌++◌, append_assoc, append-nil, map, length,
  length-append, set, set-append, ℤ,
}
use node_amqp.Js.{to_uint8}

-- `mem` is the whole buffer; `used` is the index of the next write.
pub record Buffer : Type 0 where
  pub mem : List ℕ
  pub used : ℕ

-- `b[b.used++] = v`, which is without effect on the bytes where `used` is out of range.
unfoldable pub put : Buffer → ℤ → Buffer
put b v = record { mem = set b.mem b.used (to_uint8 v); used = b.used + 1 }

-- Such writes one after the other.
unfoldable pub put_all : Buffer → List ℤ → Buffer
put_all b [] = b
put_all b (v ∷ vs) = put_all (put b v) vs

-- `copy` and `write`: bytes go in from `used` on, and those past the end are dropped.
unfoldable pub put_bytes : Buffer → List ℕ → Buffer
put_bytes b [] = b
put_bytes b (x ∷ xs) = put_bytes (record { mem = set b.mem b.used x; used = b.used + 1 }) xs

-- The buffer whose next write goes behind `front`.
abbrev pub at : List ℕ → List ℕ → Buffer
at front back = record { mem = front ++ back; used = length front }

step_at :
    (front : List ℕ) (x y : ℕ) (back : List ℕ)
    → (let b : Buffer = at front (x ∷ back) in
        record { mem = set b.mem b.used y; used = b.used + 1 })
      ≡ at (front ++ y ∷ []) back
step_at front x y back = λ i. record {
  mem = (set-append front x y back ∙ sym (append_assoc front (y ∷ []) back)) i;
  used = sym (length-append front (y ∷ [])) i;
}

pub put-at :
    (front : List ℕ) (x : ℕ) (v : ℤ) (back : List ℕ)
    → put (at front (x ∷ back)) v ≡ at (front ++ to_uint8 v ∷ []) back
unfolding put
put-at front x v back = step_at front x (to_uint8 v) back

pub put_all-at :
    (vs : List ℤ) (front hole back : List ℕ)
    → length hole ≡ length vs
    → put_all (at front (hole ++ back)) vs ≡ at (front ++ map to_uint8 vs) back
unfolding put_all
put_all-at [] front [] back h = ap (λ (f : List ℕ). at f back) (sym (append-nil front))
put_all-at [] front (x ∷ hole) back h = absurd (omega arith)
put_all-at (v ∷ vs) front [] back h = absurd (omega arith)
put_all-at (v ∷ vs) front (x ∷ hole) back h = rw (put-at front x v (hole ++ back)) (
    put_all-at vs (front ++ to_uint8 v ∷ []) hole back (omega arith)
    ∙ ap (λ (f : List ℕ). at f back) (append_assoc front (to_uint8 v ∷ []) (map to_uint8 vs)))

pub put_bytes-at :
    (xs front hole back : List ℕ)
    → length hole ≡ length xs
    → put_bytes (at front (hole ++ back)) xs ≡ at (front ++ xs) back
unfolding put_bytes
put_bytes-at [] front [] back h = ap (λ (f : List ℕ). at f back) (sym (append-nil front))
put_bytes-at [] front (x ∷ hole) back h = absurd (omega arith)
put_bytes-at (y ∷ ys) front [] back h = absurd (omega arith)
put_bytes-at (y ∷ ys) front (x ∷ hole) back h = rw (step_at front x y (hole ++ back)) (
    put_bytes-at ys (front ++ y ∷ []) hole back (omega arith)
    ∙ ap (λ (f : List ℕ). at f back) (append_assoc front (y ∷ []) ys))

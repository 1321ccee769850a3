-- ===== src/Parser/Cursor.antt =====
-- A frame with the property `read`, which lib/parser.js reads through.
use node_amqp.Prelude.{
  ℕ, ◌+◌, ◌≡◌, refl, sym, ap, List, [], ◌∷◌, ◌++◌, append_assoc, length, length-append, get_elem?,
  Option, none, some,
}
use node_amqp.Result
use node_amqp.Result.{Result, ok, err, past_end}

-- `read` is the index of the next byte.
pub record Cursor : Type 0 where
  pub mem : List ℕ
  pub read : ℕ

abbrev pub Parser {ℓ} : Type ℓ → Type ℓ
Parser A = Cursor → Result (A × Cursor)

infixl 1 ◌>>=◌
abbrev pub ◌>>=◌ {ℓ κ} : {A : Type ℓ} {B : Type κ} → Parser A → (A → Parser B) → Parser B
◌>>=◌ p f c = Result.◌>>=◌ (p c) λ (a, c'). f a c'

abbrev pub pure {ℓ} : {A : Type ℓ} → A → Parser A
pure a c = ok (a, c)

taken : Cursor → Option ℕ → Result (ℕ × Cursor)
taken c none = err past_end
taken c (some x) = ok (x, record c { read = c.read + 1 })

-- `buffer[buffer.read++]`
unfoldable pub next : Parser ℕ
unfolding taken
next c = taken c (get_elem? c.mem c.read)

-- The cursor that has read `front`.
abbrev pub past : List ℕ → List ℕ → Cursor
past front back = record { mem = front ++ back; read = length front }

pub get_elem?-append :
    (front : List ℕ) (x : ℕ) (back : List ℕ) → get_elem? (front ++ x ∷ back) (length front) ≡ some x
get_elem?-append [] x back = refl
get_elem?-append (y ∷ front) x back = get_elem?-append front x back

pub next-past :
    (front : List ℕ) (x : ℕ) (back : List ℕ)
    → next (past front (x ∷ back)) ≡ ok (x, past (front ++ x ∷ []) back)
unfolding next
next-past front x back =
    rw (get_elem?-append front x back, next)
      (ap {B = Result (ℕ × Cursor)} (λ (c : Cursor). ok (x, c))
        (λ i. record {
          mem = sym (append_assoc front (x ∷ []) back) i;
          read = sym (length-append front (x ∷ [])) i;
        }))

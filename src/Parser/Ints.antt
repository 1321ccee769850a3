-- ===== src/Parser/Ints.antt =====
-- `parseInt` of lib/parser.js, and the number that it reads.
use node_amqp.Prelude.{
  ℕ, ◌+◌, ◌*◌, ◌<◌, ◌≡◌, List, [], ◌∷◌, ◌++◌, append_assoc, ◌==◌, ℤ, pos, ◌+ℤ◌, if◌then◌else◌,
}
use node_amqp.Js.{signed32, js_shl}
use node_amqp.Js.Laws.{join2, join4, join8}
use node_amqp.Result.{ok, err, cannot_parse_size}
use node_amqp.Parser.Cursor.{Parser, ◌>>=◌, pure, next, past, next-past}

unfoldable pub parse_int1 : Parser ℤ
parse_int1 = do a ← next; pure (pos a)

unfoldable pub parse_int2 : Parser ℤ
parse_int2 = do a ← next; b ← next; pure (js_shl (pos a) 8 +ℤ pos b)

unfoldable pub parse_int4 : Parser ℤ
parse_int4 = do
  a ← next
  b ← next
  c ← next
  d ← next
  pure (js_shl (pos a) 24 +ℤ js_shl (pos b) 16 +ℤ js_shl (pos c) 8 +ℤ pos d)

unfoldable pub parse_int8 : Parser ℤ
parse_int8 = do
  a ← next
  b ← next
  c ← next
  d ← next
  e ← next
  f ← next
  g ← next
  h ← next
  pure (
      js_shl (pos a) 56
      +ℤ js_shl (pos b) 48
      +ℤ js_shl (pos c) 40
      +ℤ js_shl (pos d) 32
      +ℤ js_shl (pos e) 24
      +ℤ js_shl (pos f) 16
      +ℤ js_shl (pos g) 8
      +ℤ pos h)

-- `parseInt(buffer, size)`
unfoldable pub parse_int : ℕ → Parser ℤ
unfolding parse_int1 parse_int2 parse_int4 parse_int8
parse_int size =
    if size == 1
    then parse_int1
    else if size == 2
    then parse_int2
    else if size == 4
    then parse_int4
    else if size == 8
    then parse_int8
    else (λ c. err cannot_parse_size)

pub parse_int1-past :
    (front : List ℕ) (a : ℕ) (back : List ℕ)
    → parse_int1 (past front (a ∷ back)) ≡ ok (pos a, past (front ++ a ∷ []) back)
unfolding parse_int1
parse_int1-past front a back = rw (next-past front a back)

pub parse_int2-past :
    (front : List ℕ) (a b : ℕ) (back : List ℕ)
    → a < 256
    → b < 256
    → parse_int2 (past front (a ∷ b ∷ back))
      ≡ ok (pos (a * 256 + b), past (front ++ a ∷ b ∷ []) back)
unfolding parse_int2
parse_int2-past front a b back ha hb = simp (next-past, join2 a b ha hb) (simp append_assoc)

pub parse_int4-past :
    (front : List ℕ) (a b c d : ℕ) (back : List ℕ)
    → a < 256
    → b < 256
    → c < 256
    → d < 256
    → parse_int4 (past front (a ∷ b ∷ c ∷ d ∷ back))
      ≡ ok (
        signed32 (a * 16777216 + b * 65536 + c * 256 + d),
        past (front ++ a ∷ b ∷ c ∷ d ∷ []) back,
      )
unfolding parse_int4
parse_int4-past front a b c d back ha hb hc hd =
    simp (next-past, join4 a b c d ha hb hc hd) (simp append_assoc)

-- Shifts by 56, 48, 40 and 32 are shifts by 24, 16, 8 and 0: both halves land in the low 32 bits.
pub parse_int8-past :
    (front : List ℕ) (a b c d e f g h : ℕ) (back : List ℕ)
    → a < 256
    → b < 256
    → c < 256
    → d < 256
    → e < 256
    → f < 256
    → g < 256
    → h < 256
    → parse_int8 (past front (a ∷ b ∷ c ∷ d ∷ e ∷ f ∷ g ∷ h ∷ back))
      ≡ ok (
        signed32 (a * 16777216 + b * 65536 + c * 256 + d)
            +ℤ signed32 (e * 16777216 + f * 65536 + g * 256 + h),
        past (front ++ a ∷ b ∷ c ∷ d ∷ e ∷ f ∷ g ∷ h ∷ []) back,
      )
unfolding parse_int8
parse_int8-past front a b c d e f g h back ha hb hc hd he hf hg hh =
    simp (next-past, join8 a b c d e f g h ha hb hc hd he hf hg hh) (simp append_assoc)

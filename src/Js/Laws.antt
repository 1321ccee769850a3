-- ===== src/Js/Laws.antt =====
-- The bytes that masks and shifts pick out of an integer, and the integer that shifts put together.
use node_amqp.Prelude.{ℕ, ◌+◌, ◌*◌, ◌/◌, ◌%◌, ◌<◌, ◌≡◌, arith, ℤ, pos, negsuc, ◌+ℤ◌, +ℤ_assoc}
use node_amqp.Prelude.Bits.{bit_and-zero, mask0, mask1, mask2, mask3}
use node_amqp.Js.{word, to_uint32, signed32, to_uint8, js_and, js_shl, js_shr}

pub to_uint32-lt : (a : ℤ) → to_uint32 a < word
unfolding to_uint32
to_uint32-lt (pos n) = omega arith
to_uint32-lt (negsuc n) = omega arith

pub to_uint32-signed32 : (w : ℕ) → w < word → to_uint32 (signed32 w) ≡ w
unfolding to_uint32 signed32
to_uint32-signed32 w h = ground arith

pub byte0 : (a : ℤ) → to_uint8 (js_shr (js_and a (pos 0xff)) 0) ≡ to_uint32 a % 256
unfolding js_and js_shr to_uint8
byte0 a = ground (arith, mask0 (to_uint32 a), to_uint32-lt a)

pub byte1 : (a : ℤ) → to_uint8 (js_shr (js_and a (pos 0xff00)) 8) ≡ to_uint32 a / 256 % 256
unfolding js_and js_shr to_uint8
byte1 a = ground (arith, mask1 (to_uint32 a), to_uint32-lt a)

pub byte2 : (a : ℤ) → to_uint8 (js_shr (js_and a (pos 0xff_0000)) 16) ≡ to_uint32 a / 65536 % 256
unfolding js_and js_shr to_uint8
byte2 a = ground (arith, mask2 (to_uint32 a), to_uint32-lt a)

pub byte3 :
    (a : ℤ) → to_uint8 (js_shr (js_and a (pos 0xff00_0000)) 24) ≡ to_uint32 a / 16777216 % 256
unfolding js_and js_shr to_uint8
byte3 a = ground (arith, mask3 (to_uint32 a), to_uint32-lt a)

-- A mask that lies above the low 32 bits picks nothing out.
pub byte_high : (a : ℤ) (m k : ℕ) → m % word ≡ 0 → to_uint8 (js_shr (js_and a (pos m)) k) ≡ 0
unfolding js_and js_shr to_uint8
byte_high a m k h = rw (h, bit_and-zero (to_uint32 a)) (ground arith)

-- Four bytes shifted into place and added give the signed integer of the pattern.
pub join4 :
    (a b c d : ℕ)
    → a < 256
    → b < 256
    → c < 256
    → d < 256
    → js_shl (pos a) 24 +ℤ js_shl (pos b) 16 +ℤ js_shl (pos c) 8 +ℤ pos d
      ≡ signed32 (a * 16777216 + b * 65536 + c * 256 + d)
unfolding js_shl ◌+ℤ◌ signed32
join4 a b c d ha hb hc hd = ground arith

pub join2 : (a b : ℕ) → a < 256 → b < 256 → js_shl (pos a) 8 +ℤ pos b ≡ pos (a * 256 + b)
unfolding js_shl ◌+ℤ◌ signed32
join2 a b ha hb = ground arith

shl_zero : (d : ℕ) → d < 256 → js_shl (pos d) 32 ≡ pos d
unfolding js_shl signed32
shl_zero d h = ground arith

pub join8 :
    (a b c d e f g h : ℕ)
    → a < 256
    → b < 256
    → c < 256
    → d < 256
    → e < 256
    → f < 256
    → g < 256
    → h < 256
    → js_shl (pos a) 56
        +ℤ js_shl (pos b) 48
        +ℤ js_shl (pos c) 40
        +ℤ js_shl (pos d) 32
        +ℤ js_shl (pos e) 24
        +ℤ js_shl (pos f) 16
        +ℤ js_shl (pos g) 8
        +ℤ pos h
      ≡ signed32 (a * 16777216 + b * 65536 + c * 256 + d)
        +ℤ signed32 (e * 16777216 + f * 65536 + g * 256 + h)
unfolding js_shl
join8 a b c d e f g h ha hb hc hd he hf hg hh =
    rw (shl_zero d hd, join4 a b c d ha hb hc hd, ← join4 e f g h he hf hg hh) (simp +ℤ_assoc)

-- ===== src/Js.antt =====
-- The arithmetic of JavaScript that the wire code uses: ToInt32, ToUint32, the bitwise operators and
-- the conversion of a number that is stored into a byte of a Buffer. A number is an integer here.
pub mod Laws
use node_amqp.Prelude.{
  ℕ, ◌+◌, ◌-◌, ◌*◌, ◌/◌, ◌%◌, ◌^◌, bit_and, bit_or, ℤ, pos, negsuc, ltb, if◌then◌else◌,
}

abbrev pub word : ℕ
word = 0x1_0000_0000

unfoldable pub to_uint32 : ℤ → ℕ
to_uint32 (pos n) = n % word
to_uint32 (negsuc n) = word - 1 - n % word

-- The integer that a 32-bit pattern stands for.
unfoldable pub signed32 : ℕ → ℤ
signed32 w = if ltb w 0x8000_0000 then pos w else negsuc (word - w - 1)

unfoldable pub to_int32 : ℤ → ℤ
unfolding to_uint32 signed32
to_int32 a = signed32 (to_uint32 a)

-- What `buffer[i] = a` stores.
unfoldable pub to_uint8 : ℤ → ℕ
to_uint8 (pos n) = n % 256
to_uint8 (negsuc n) = 255 - n % 256

-- `a & b`
unfoldable pub js_and : ℤ → ℤ → ℤ
unfolding to_uint32 signed32
js_and a b = signed32 (bit_and (to_uint32 a) (to_uint32 b))

-- `a | b`
unfoldable pub js_or : ℤ → ℤ → ℤ
unfolding to_uint32 signed32
js_or a b = signed32 (bit_or (to_uint32 a) (to_uint32 b))

-- `a << k`
unfoldable pub js_shl : ℤ → ℕ → ℤ
unfolding to_uint32 signed32
js_shl a k = signed32 (to_uint32 a * 2 ^ (k % 32) % word)

shift_down : ℤ → ℕ → ℤ
shift_down (pos n) k = pos (n / 2 ^ k)
shift_down (negsuc n) k = negsuc (n / 2 ^ k)

-- `a >> k`, which keeps the sign.
unfoldable pub js_shr : ℤ → ℕ → ℤ
unfolding to_int32 shift_down
js_shr a k = shift_down (to_int32 a) (k % 32)

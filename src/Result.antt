-- ===== src/Result.antt =====
-- Outcomes of code that may throw: a value, or the error. The constructors of `Error` name the
-- `throw` statements and `throwError` calls of serializer.js, parser.js and connection.js.
use node_amqp.Prelude.{ℕ}

pub data Error : Type 0 where
  -- serializer.js
  write_out_of_bounds bad_size string_too_long not_enough_space : Error
  unmatched_field unknown_domain unsupported_type : Error
  -- parser.js
  cannot_parse_size unknown_value_type unhandled_parameter unknown_method bad_method : Error
  too_many_properties oversized_frame missing_frame_end : Error
  unhandled_frame_type : ℕ → Error
  -- A read past the end of a frame. JavaScript reads `undefined` there and goes on with NaN.
  past_end : Error
  -- `new Buffer` of a negative size, and a call of `undefined`
  range_error type_error : Error
  -- connection.js, `generateChannelId`
  no_channel_id : Error
  -- The recursion of the model ran out of fuel.
  out_of_fuel : Error

pub data Result {ℓ} (A : Type ℓ) : Type ℓ where
  ok : A → Result A
  err : Error → Result A

infixl 5 ◌>>=◌
abbrev pub ◌>>=◌ {ℓ κ} : {A : Type ℓ} {B : Type κ} → Result A → (A → Result B) → Result B
ok a >>= f = f a
err e >>= f = err e

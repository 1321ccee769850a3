-- ===== src/Parser/Frames.antt =====
-- The frame level of lib/parser.js: the closures `header`, `frame` and `frameEnd`, `throwError` and
-- `execute`. What the callbacks do is the argument `h`, over a state `S` of their own.
use node_amqp.Prelude.{
  ℕ, zero, suc, ◌+◌, ◌-◌, ◌*◌, List, [], ◌∷◌, ◌++◌, length, take, drop, ltb, ◌==◌, ltb_ℤ, ℤ, pos,
  negsuc, if◌then◌else◌,
}
use node_amqp.Result.{
  Result, ok, err, Error, oversized_frame, missing_frame_end, unhandled_frame_type, range_error,
  type_error, out_of_fuel,
}
use node_amqp.Parser.Cursor.{Cursor, Parser, ◌>>=◌, pure, next}
use node_amqp.Parser.Ints.{parse_int}

-- A call of a callback returns with a new state, or throws.
pub data Outcome (S : Type 0) : Type 0 where
  returned : S → Outcome S
  thrown : S → Error → Outcome S

-- The callbacks, and `maxFrameBuffer`, which one of them changes. `on_error` is `throwError`: it calls
-- `onError`, if that is set, and throws otherwise.
pub record Handlers (S : Type 0) : Type 0 where
  pub max_frame_buffer : S → ℕ
  pub on_method : S → ℤ → List ℕ → Outcome S
  pub on_header : S → ℤ → List ℕ → Outcome S
  pub on_content : S → ℤ → List ℕ → Outcome S
  pub on_heartbeat : S → Outcome S
  pub on_error : S → Error → Outcome S

-- `frameType`, `frameChannel` and the length of `frameBuffer`.
pub record FrameInfo : Type 0 where
  pub kind : ℕ
  pub channel : ℤ
  pub size : ℕ

-- What `this.parse` is, with the bytes that the closures have buffered: those of `frameHeader`, or those
-- of `frameBuffer`. `undefined` is left behind by `frameEnd` after an error that did not throw.
pub data State : Type 0 where
  header : List ℕ → State
  frame : FrameInfo → List ℕ → State
  frame_end : FrameInfo → List ℕ → State
  undefined : State

-- A closure ends by returning the next one, by a tail call of it with the rest of the data, or by an
-- exception.
pub data Turn (S : Type 0) : Type 0 where
  waits : State → S → Turn S
  continues : State → S → List ℕ → Turn S
  throws : S → Error → Turn S

-- The parser between two calls of `execute`, or the exception that ended it.
pub data Run (S : Type 0) : Type 0 where
  running : State → S → Run S
  failed : S → Error → Run S

abbrev pub frame_header_size : ℕ
frame_header_size = 7

abbrev pub frame_end_octet : ℕ
frame_end_octet = 206

-- `fh[fh.read++]`, `parseInt(fh, 2)`, `parseInt(fh, 4)`
unfoldable pub read_header : Parser (ℕ × ℤ × ℤ)
read_header = do kind ← next; channel ← parse_int 2; size ← parse_int 4; pure (kind, channel, size)

module _ {S : Type 0} (h : Handlers S) where
  -- `new Buffer(frameSize)`, which refuses a negative size.
  unfoldable pub new_frame : S → ℕ → ℤ → ℤ → List ℕ → Turn S
  new_frame s kind channel (pos n) rest =
      continues (frame (record { kind = kind; channel = channel; size = n }) []) s rest
  new_frame s kind channel (negsuc n) rest = throws s range_error

  unfoldable pub after_check : Outcome S → ℕ → ℤ → ℤ → List ℕ → Turn S
  unfolding new_frame
  after_check (returned s) kind channel size rest = new_frame s kind channel size rest
  after_check (thrown s e) kind channel size rest = throws s e

  unfoldable pub with_header : S → Result ((ℕ × ℤ × ℤ) × Cursor) → List ℕ → Turn S
  unfolding after_check
  with_header s (err e) rest = throws s e
  with_header s (ok ((kind, channel, size), c)) rest =
      after_check
        (if ltb_ℤ (pos (h.max_frame_buffer s)) size
          then h.on_error s oversized_frame
          else returned s)
        kind channel size rest

  -- The rest of `header`, once its seven bytes are there.
  unfoldable pub open_frame : S → List ℕ → List ℕ → Turn S
  unfolding with_header read_header
  open_frame s fh rest = with_header s (read_header (record { mem = fh; read = 0 })) rest

  unfoldable pub header_closure : S → List ℕ → List ℕ → Turn S
  unfolding open_frame
  header_closure s fh given =
      let needed = frame_header_size - length fh in
      if ltb (length fh + length given) frame_header_size
      then waits (header (fh ++ given)) s
      else open_frame s (fh ++ take needed given) (drop needed given)

  unfoldable pub frame_closure : S → FrameInfo → List ℕ → List ℕ → Turn S
  frame_closure s f fb given =
      let needed = f.size - length fb in
      if ltb needed (length given)
      then continues (frame_end f (fb ++ take needed given)) s (drop needed given)
      else if length given == needed
      then waits (frame_end f (fb ++ given)) s
      else waits (frame f (fb ++ given)) s

  -- The `switch` of `frameEnd`.
  unfoldable pub dispatch : S → FrameInfo → List ℕ → Outcome S
  dispatch s f fb =
      if f.kind == 1
      then h.on_method s f.channel fb
      else if f.kind == 2
      then h.on_header s f.channel fb
      else if f.kind == 3
      then h.on_content s f.channel fb
      else if f.kind == 8
      then h.on_heartbeat s
      else h.on_error s (unhandled_frame_type f.kind)

  unfoldable pub then_header : Outcome S → List ℕ → Turn S
  then_header (returned s) rest = continues (header []) s rest
  then_header (thrown s e) rest = throws s e

  unfoldable pub then_undefined : Outcome S → Turn S
  then_undefined (returned s) = waits undefined s
  then_undefined (thrown s e) = throws s e

  unfoldable pub frame_end_closure : S → FrameInfo → List ℕ → List ℕ → Turn S
  unfolding dispatch then_header then_undefined
  frame_end_closure s f fb [] = waits (frame_end f fb) s
  frame_end_closure s f fb (x ∷ rest) =
      if x == frame_end_octet
      then then_header (dispatch s f fb) rest
      else then_undefined (h.on_error s missing_frame_end)

  -- `this.parse(data)`
  unfoldable pub turn : State → S → List ℕ → Turn S
  unfolding header_closure frame_closure frame_end_closure
  turn (header fh) s given = header_closure s fh given
  turn (frame f fb) s given = frame_closure s f fb given
  turn (frame_end f fb) s given = frame_end_closure s f fb given
  turn undefined s given = throws s type_error

  unfoldable pub resume : (State → S → List ℕ → Run S) → Turn S → Run S
  resume again (waits p s) = running p s
  resume again (continues p s rest) = again p s rest
  resume again (throws s e) = failed s e

  -- The tail calls, on fuel.
  unfoldable pub turns : ℕ → State → S → List ℕ → Run S
  unfolding turn resume
  turns zero p s given = failed s out_of_fuel
  turns (suc n) p s given = resume (turns n) (turn p s given)

  -- `execute(data)`. Three calls take at least one byte, so the fuel is enough.
  unfoldable pub execute : State → S → List ℕ → Run S
  unfolding turns
  execute p s given = turns (3 * length given + 3) p s given

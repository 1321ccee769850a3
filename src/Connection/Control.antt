-- ===== src/Connection/Control.antt =====
-- lib/connection.js: `_onMethod`, which hands methods to the channels and answers those of channel 0,
-- and `_saslResponse`.
use node_amqp.Prelude.{
  ℕ, zero, suc, ◌==◌, not, ◌&&◌, Bool, true, false, List, [], ◌∷◌, ◌++◌, Option, none, some,
  if◌then◌else◌,
}
use node_amqp.Definitions.Tables.{lookup}

-- `authMechanism`, and what `_saslResponse` makes of it: an object with the login and the password, or a
-- text. Texts are lists of UTF-16 units.
pub data Mechanism : Type 0 where
  amqplain plain external anonymous another : Mechanism

pub data Response : Type 0 where
  credentials : List ℕ → List ℕ → Response
  text_of : List ℕ → Response

pub record Options : Type 0 where
  pub mechanism : Mechanism
  pub login : List ℕ
  pub password : List ℕ
  pub response : List ℕ
  pub heartbeat : ℕ

-- `_saslResponse()`
unfoldable pub sasl_response : Mechanism → Options → Response
sasl_response amqplain o = credentials o.login o.password
sasl_response plain o = text_of (0 ∷ o.login ++ 0 ∷ o.password)
sasl_response external o = text_of (0 ∷ [])
sasl_response anonymous o = text_of (0 ∷ [])
sasl_response another o = text_of o.response

-- The methods of channel 0, with the arguments that are read.
pub data ControlMethod : Type 0 where
  connection_start : ℕ → ℕ → ControlMethod
  connection_tune : ℕ → ℕ → ControlMethod
  connection_open_ok connection_close connection_close_ok : ControlMethod
  connection_blocked : List ℕ → ControlMethod
  connection_unblocked : ControlMethod
  uncaught : ControlMethod

-- What the control channel does: `_sendMethod`, `emit`, and calls of the socket and the callback.
pub data Action : Type 0 where
  sends_start_ok : Response → Action
  sends_tune_ok : ℕ → ℕ → ℕ → Action
  sends_open : Action
  resizes_parser : ℕ → Action
  ends_socket destroys_socket calls_ready : Action
  emits_error emits_ready emits_blocked emits_unblocked : Action

-- `_sendBuffer` is known by its length.
pub record Control : Type 0 where
  pub max_frame_buffer : ℕ
  pub channel_max : ℕ
  pub send_buffer : ℕ
  pub ready_callback : Bool
  pub blocked : Bool
  pub blocked_reason : Option (List ℕ)
  pub actions : List Action

unfoldable pub act : Action → Control → Control
act a c = record c { actions = c.actions ++ a ∷ [] }

unfoldable pub tune_frame : ℕ → Control → Control
unfolding act
tune_frame frame_max c =
    if frame_max == 0
    then c
    else act (resizes_parser frame_max)
        (record c { max_frame_buffer = frame_max; send_buffer = frame_max })

unfoldable pub tune_channels : ℕ → Control → Control
tune_channels channel_max c = if channel_max == 0 then c else record c { channel_max = channel_max }

module _ (o : Options) where
  -- The case `connectionTune`.
  unfoldable pub on_tune : ℕ → ℕ → Control → Control
  unfolding tune_frame tune_channels act
  on_tune frame_max channel_max c =
      let d = tune_channels channel_max (tune_frame frame_max c) in
      act sends_open (act (sends_tune_ok d.channel_max d.max_frame_buffer o.heartbeat) d)

  -- The `switch` for channel 0; `none` is the exception for a method that it does not know.
  unfoldable pub on_control : ControlMethod → Control → Option Control
  unfolding on_tune sasl_response act
  on_control (connection_start major minor) c = some (
      if not (major == 0) && not (minor == 9)
      then act emits_error (act ends_socket c)
      else act (sends_start_ok (sasl_response o.mechanism o)) c)
  on_control (connection_tune frame_max channel_max) c = some (on_tune frame_max channel_max c)
  on_control connection_open_ok c = some (
      act emits_ready
        (if c.ready_callback then record (act calls_ready c) { ready_callback = false } else c))
  on_control connection_close c = some (act destroys_socket c)
  on_control connection_close_ok c = some (act destroys_socket (act ends_socket c))
  on_control (connection_blocked reason) c =
      some (act emits_blocked (record c { blocked = true; blocked_reason = some reason }))
  on_control connection_unblocked c =
      some (act emits_unblocked (record c { blocked = false; blocked_reason = none }))
  on_control uncaught c = none

-- Where `_onMethod` takes a method: a channel of another kind has no `_onChannelMethod`.
pub data Route : Type 0 where
  control untracked no_handler : Route
  to_channel : ℕ → Route

unfoldable pub route : List (ℕ × Bool) → ℕ → Route
route channels zero = control
route channels (suc n) = elim (lookup ◌==◌ (suc n) channels) [
  | none ↦ untracked
  | some true ↦ to_channel (suc n)
  | some false ↦ no_handler
]

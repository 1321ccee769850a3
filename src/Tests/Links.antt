-- ===== src/Tests/Links.antt =====
-- Connections that fail, the handshake, and the routes of methods.
use node_amqp.Prelude.{◌≡◌, refl, arith, true, false, [], ◌∷◌, none, some}
use node_amqp.Connection.Backoff.{
  exponential, ImplOptions, Link, new_link, on_error, on_connect, on_ready, schedule,
  outbound_reset,
}
use node_amqp.Connection.Attempts.{
  IsPatient, errs, connects, is_ready, IsReachable, starts, steps, IsReachable-IsPatient, failing,
  failing-doubled,
}
use node_amqp.Definitions.Tables.{lookup}
use node_amqp.Connection.Control.{
  Options, plain, Control, connection_start, connection_tune, on_control, sends_start_ok,
  sends_tune_ok, sends_open, resizes_parser, text_of, sasl_response, on_tune, tune_frame,
  tune_channels, act, route, to_channel,
}

abbrev often : ImplOptions
often = record {
  reconnect = true;
  backoff_time = 10;
  strategy = exponential;
  exponential_limit = 45;
}

failing-doubled_example : (failing often 3 (new_link true)).backoff_time ≡ some 45
failing-doubled_example =
    failing-doubled often 3 (new_link true) refl refl (omega arith) refl refl refl

-- Connected, with an open channel, and then two errors.
abbrev alive : Link
alive = on_ready often true (on_connect often (new_link true))

abbrev failed_twice : Link
failed_twice = on_error often (on_error often alive)

failed_twice-IsReachable : IsReachable often failed_twice
failed_twice-IsReachable =
    steps (on_error often alive) _
      (steps alive _
        (steps (on_connect often (new_link true)) _
          (steps (new_link true) _ (starts true) (connects (new_link true)))
          (is_ready true (on_connect often (new_link true))))
        (errs alive))
      (errs (on_error often alive))

IsReachable-IsPatient_example : IsPatient often failed_twice
IsReachable-IsPatient_example = IsReachable-IsPatient often failed_twice failed_twice-IsReachable

one_attempt : failed_twice.pending ≡ 1
unfolding on_error on_ready on_connect schedule outbound_reset
one_attempt = refl

abbrev options : Options
options = record {
  mechanism = plain;
  login = 5 ∷ [];
  password = 6 ∷ [];
  response = [];
  heartbeat = 30;
}

abbrev idle : Control
idle = record {
  max_frame_buffer = 131072;
  channel_max = 65535;
  send_buffer = 131072;
  ready_callback = true;
  blocked = false;
  blocked_reason = none;
  actions = [];
}

tuned :
    on_control options (connection_tune 4096 0) idle
    ≡ some (record idle {
      max_frame_buffer = 4096;
      send_buffer = 4096;
      actions = resizes_parser 4096 ∷ sends_tune_ok 65535 4096 30 ∷ sends_open ∷ [];
    })
unfolding on_control on_tune tune_frame tune_channels act
tuned = refl

-- A server of the version 1.9 is answered.
wrong_version :
    on_control options (connection_start 1 9) idle
    ≡ some (record idle { actions = sends_start_ok (text_of (0 ∷ 5 ∷ 0 ∷ 6 ∷ [])) ∷ [] })
unfolding on_control sasl_response act
wrong_version = refl

routed : route ((0, true) ∷ (2, true) ∷ []) 2 ≡ to_channel 2
unfolding route lookup
routed = refl

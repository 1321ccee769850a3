-- ===== src/Tests/Promises.antt =====
-- A promise that times out, and then succeeds.
use node_amqp.Prelude.{ℕ, ◌≡◌, ◌≢◌, refl, [], ◌∷◌}
use node_amqp.Promise.Events.{
  Fired, pending, failure, Promise, new_promise, emit_success, add_callback, add_errback,
  set_timeout, timer_runs,
}
use node_amqp.Promise.Once.{
  IsOnce, IsReachable, IsReachable-IsOnce, Step-fired, start, after, succeeds, adds_callback,
  adds_errback, sets_timeout, times_out,
}

abbrev armed : Promise ℕ
armed = set_timeout 100 (add_errback 5 (add_callback 4 new_promise))

abbrev timed_out : Promise ℕ
timed_out = timer_runs 9 armed

abbrev too_late : Promise ℕ
too_late = emit_success 8 timed_out

timed_out-IsReachable : IsReachable timed_out
timed_out-IsReachable =
    after
      (after
        (after (after start (adds_callback 4 new_promise))
          (adds_errback 5 (add_callback 4 new_promise)))
        (sets_timeout 100 (add_errback 5 (add_callback 4 new_promise))))
      (times_out 9 armed)

too_late-errback_calls : too_late.errback_calls ≡ (5, 9) ∷ []
unfolding emit_success timer_runs set_timeout add_errback add_callback
too_late-errback_calls = refl

timed_out-fired : timed_out.fired ≡ failure 9
unfolding emit_success timer_runs set_timeout add_errback add_callback
timed_out-fired = refl

failure≢pending : (f : Fired ℕ) → f ≡ failure 9 → f ≢ pending
failure≢pending f e n = cc

IsReachable-IsOnce_example : IsOnce too_late
IsReachable-IsOnce_example = IsReachable-IsOnce (after timed_out-IsReachable (succeeds 8 timed_out))

Step-fired_example : too_late.fired ≡ timed_out.fired
Step-fired_example =
    Step-fired (succeeds 8 timed_out) (failure≢pending timed_out.fired timed_out-fired)

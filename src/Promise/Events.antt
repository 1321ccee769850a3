-- ===== src/Promise/Events.antt =====
-- The promises of lib/promise.js. A listener is a number, and what it does is not looked at: it does not
-- throw, and does not use the promise.
use node_amqp.Prelude.{ℕ, ◌==◌, Bool, true, false, List, [], ◌∷◌, ◌++◌, if◌then◌else◌}

-- `hasFired`, with `_values`.
pub data Fired (V : Type 0) : Type 0 where
  pending : Fired V
  success : V → Fired V
  failure : V → Fired V

-- `callbacks` and `errbacks` are the listeners of 'success' and 'error', `timer` tells whether there is
-- a `_timer`, `duration` is `_timeoutDuration`, where 0 stands for undefined, and `ticks` whether the
-- check of `emitError` waits for the next tick. `callback_calls` and `errback_calls` are the calls of the
-- listeners so far, and `threw` whether the check has thrown.
pub record Promise (V : Type 0) : Type 0 where
  pub fired : Fired V
  pub callbacks : List ℕ
  pub errbacks : List ℕ
  pub timer : Bool
  pub duration : ℕ
  pub callback_calls : List (ℕ × V)
  pub errback_calls : List (ℕ × V)
  pub threw : Bool

-- `new Promise()`
abbrev pub new_promise : {V : Type 0} → Promise V
new_promise = record {
  fired = pending;
  callbacks = [];
  errbacks = [];
  timer = false;
  duration = 0;
  callback_calls = [];
  errback_calls = [];
  threw = false;
}

abbrev pub calls : {V : Type 0} → List ℕ → V → List (ℕ × V)
calls [] v = []
calls (l ∷ ls) v = (l, v) ∷ calls ls v

abbrev pub is_empty : List ℕ → Bool
is_empty [] = true
is_empty (l ∷ ls) = false

module _ {V : Type 0} where
  -- The part of an operation that only a promise that has not fired comes to.
  unfoldable pub unless_fired : Fired V → Promise V → Promise V → Promise V
  unless_fired pending p q = q
  unless_fired (success v) p q = p
  unless_fired (failure v) p q = p

  -- `emitSuccess(...)`
  unfoldable pub emit_success : V → Promise V → Promise V
  unfolding unless_fired
  emit_success v p = unless_fired p.fired p (record p {
    fired = success v;
    timer = false;
    callback_calls = p.callback_calls ++ calls p.callbacks v;
  })

  -- `emitError(...)`. `emit` of Node throws for 'error' where there is no listener; so what stands behind
  -- it in the code is reached only with one, and does nothing then.
  unfoldable pub emit_error : V → Promise V → Promise V
  unfolding unless_fired
  emit_error v p = unless_fired p.fired p (record p {
    fired = failure v;
    timer = false;
    errback_calls = p.errback_calls ++ calls p.errbacks v;
    threw = is_empty p.errbacks;
  })

  unfoldable pub called_now : Fired V → ℕ → List (ℕ × V)
  called_now (success v) l = (l, v) ∷ []
  called_now _ l = []

  unfoldable pub failed_now : Fired V → ℕ → List (ℕ × V)
  failed_now (failure v) l = (l, v) ∷ []
  failed_now _ l = []

  -- `addCallback(listener)`
  unfoldable pub add_callback : ℕ → Promise V → Promise V
  unfolding called_now
  add_callback l p = record p {
    callback_calls = p.callback_calls ++ called_now p.fired l;
    callbacks = p.callbacks ++ l ∷ [];
  }

  -- `addErrback(listener)`
  unfoldable pub add_errback : ℕ → Promise V → Promise V
  unfolding failed_now
  add_errback l p = record p {
    errback_calls = p.errback_calls ++ failed_now p.fired l;
    errbacks = p.errbacks ++ l ∷ [];
  }

  -- `timeout(timeout)`, and what its timer does, with the error that it makes.
  unfoldable pub set_timeout : ℕ → Promise V → Promise V
  unfolding unless_fired
  set_timeout timeout p =
      if timeout == 0
      then p
      else unless_fired p.fired (record p { duration = timeout })
          (record p { duration = timeout; timer = true })

  unfoldable pub timer_runs : V → Promise V → Promise V
  unfolding emit_error
  timer_runs timeout_error p =
      if p.timer then emit_error timeout_error (record p { timer = false }) else p

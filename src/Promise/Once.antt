-- ===== src/Promise/Once.antt =====
-- A promise of lib/promise.js fires once, and its listeners are called once.
use node_amqp.Prelude.{
  ℕ, ◌≡◌, ◌≢◌, refl, sym, ap, ◌∙◌, Bool, true, false, Bool-cases, inl, inr, List, [], ◌∷◌, ◌++◌,
  ◌==◌,
}
use node_amqp.Promise.Events.{
  Fired, pending, success, failure, Promise, new_promise, calls, unless_fired, emit_success,
  emit_error, called_now, failed_now, add_callback, add_errback, set_timeout, timer_runs,
}

calls-append : {V : Type 0} (ls ms : List ℕ) (v : V) → calls (ls ++ ms) v ≡ calls ls v ++ calls ms v
calls-append [] ms v = refl
calls-append (l ∷ ls) ms v = ap (◌∷◌ (l, v)) (calls-append ls ms v)

-- The calls that are due.
abbrev pub success_calls : {V : Type 0} → Fired V → List ℕ → List (ℕ × V)
success_calls (success v) ls = calls ls v
success_calls _ ls = []

abbrev pub failure_calls : {V : Type 0} → Fired V → List ℕ → List (ℕ × V)
failure_calls (failure v) ls = calls ls v
failure_calls _ ls = []

abbrev IsIdle : {V : Type 0} → Fired V → Bool → Type 0
IsIdle pending timer = Unit
IsIdle _ timer = timer ≡ false

module _ {V : Type 0} where
  -- Each callback was called once, in the order in which they were added, with the values, if the promise
  -- has succeeded, and none if not; so were the errbacks if it has failed; and no timer runs once it has
  -- fired.
  pub record IsOnce (p : Promise V) : Type 0 where
    pub callback : p.callback_calls ≡ success_calls p.fired p.callbacks
    pub errback : p.errback_calls ≡ failure_calls p.fired p.errbacks
    pub idle : IsIdle p.fired p.timer

  success-add :
      (f : Fired V) (ls : List ℕ) (l : ℕ)
      → success_calls f ls ++ called_now f l ≡ success_calls f (ls ++ l ∷ [])
  unfolding called_now
  success-add pending ls l = refl
  success-add (success v) ls l = sym (calls-append ls (l ∷ []) v)
  success-add (failure v) ls l = refl

  failure-add :
      (f : Fired V) (ls : List ℕ) (l : ℕ)
      → failure_calls f ls ++ failed_now f l ≡ failure_calls f (ls ++ l ∷ [])
  unfolding failed_now
  failure-add pending ls l = refl
  failure-add (success v) ls l = refl
  failure-add (failure v) ls l = sym (calls-append ls (l ∷ []) v)

  unless_fired-IsOnce :
      (f : Fired V) (p q : Promise V)
      → IsOnce p
      → (f ≡ pending → IsOnce q)
      → IsOnce (unless_fired f p q)
  unfolding unless_fired
  unless_fired-IsOnce pending p q h k = k refl
  unless_fired-IsOnce (success v) p q h k = h
  unless_fired-IsOnce (failure v) p q h k = h

  -- A pending promise has called nothing.
  pending-callbacks : (p : Promise V) → IsOnce p → p.fired ≡ pending → p.callback_calls ≡ []
  pending-callbacks p h e = h.callback ∙ ap (λ (f : Fired V). success_calls f p.callbacks) e

  pending-errbacks : (p : Promise V) → IsOnce p → p.fired ≡ pending → p.errback_calls ≡ []
  pending-errbacks p h e = h.errback ∙ ap (λ (f : Fired V). failure_calls f p.errbacks) e

  emit_success-IsOnce : (v : V) (p : Promise V) → IsOnce p → IsOnce (emit_success v p)
  unfolding emit_success
  emit_success-IsOnce v p h = unless_fired-IsOnce p.fired p _ h λ e. record {
    callback = ap (λ (l : List (ℕ × V)). l ++ calls p.callbacks v) (pending-callbacks p h e);
    errback = pending-errbacks p h e;
    idle = refl;
  }

  emit_error-IsOnce : (v : V) (p : Promise V) → IsOnce p → IsOnce (emit_error v p)
  unfolding emit_error
  emit_error-IsOnce v p h = unless_fired-IsOnce p.fired p _ h λ e. record {
    callback = pending-callbacks p h e;
    errback = ap (λ (l : List (ℕ × V)). l ++ calls p.errbacks v) (pending-errbacks p h e);
    idle = refl;
  }

  add_callback-IsOnce : (l : ℕ) (p : Promise V) → IsOnce p → IsOnce (add_callback l p)
  unfolding add_callback
  add_callback-IsOnce l p h = record {
    callback =
        ap (λ (cs : List (ℕ × V)). cs ++ called_now p.fired l) h.callback
        ∙ success-add p.fired p.callbacks l;
    errback = h.errback;
    idle = h.idle;
  }

  add_errback-IsOnce : (l : ℕ) (p : Promise V) → IsOnce p → IsOnce (add_errback l p)
  unfolding add_errback
  add_errback-IsOnce l p h = record {
    callback = h.callback;
    errback =
        ap (λ (cs : List (ℕ × V)). cs ++ failed_now p.fired l) h.errback
        ∙ failure-add p.fired p.errbacks l;
    idle = h.idle;
  }

  IsIdle-pending : (f : Fired V) (timer : Bool) → f ≡ pending → IsIdle f timer
  IsIdle-pending pending timer e = tt
  IsIdle-pending (success v) timer e = absurd (cc)
  IsIdle-pending (failure v) timer e = absurd (cc)

  set_timeout-IsOnce : (n : ℕ) (p : Promise V) → IsOnce p → IsOnce (set_timeout n p)
  unfolding set_timeout
  set_timeout-IsOnce n p h = elim (Bool-cases (n == 0)) [
    | inl none_given ↦ rw none_given h
    | inr given ↦ rw given (
        unless_fired-IsOnce p.fired (record p { duration = n })
          (record p { duration = n; timer = true })
          (record { callback = h.callback; errback = h.errback; idle = h.idle })
          λ e. record {
            callback = h.callback;
            errback = h.errback;
            idle = IsIdle-pending p.fired true e;
          })
  ]

  IsIdle-false : (f : Fired V) → IsIdle f false
  IsIdle-false pending = tt
  IsIdle-false (success v) = refl
  IsIdle-false (failure v) = refl

  timer_runs-IsOnce : (v : V) (p : Promise V) → IsOnce p → IsOnce (timer_runs v p)
  unfolding timer_runs
  timer_runs-IsOnce v p h = elim (Bool-cases p.timer) [
    | inl runs ↦ simp runs (
        emit_error-IsOnce v (record p { timer = false })
          (record { callback = h.callback; errback = h.errback; idle = IsIdle-false p.fired }))
    | inr stopped ↦ simp stopped h
  ]

  -- The calls of the interface, and the timer.
  pub data Step : Promise V → Promise V → Type 0 where
    succeeds : (v : V) (p : Promise V) → Step p (emit_success v p)
    fails : (v : V) (p : Promise V) → Step p (emit_error v p)
    adds_callback : (l : ℕ) (p : Promise V) → Step p (add_callback l p)
    adds_errback : (l : ℕ) (p : Promise V) → Step p (add_errback l p)
    sets_timeout : (n : ℕ) (p : Promise V) → Step p (set_timeout n p)
    times_out : (v : V) (p : Promise V) → Step p (timer_runs v p)

  pub data IsReachable : Promise V → Type 0 where
    start : IsReachable new_promise
    after : {p q : Promise V} → IsReachable p → Step p q → IsReachable q

  Step-IsOnce : {p q : Promise V} → Step p q → IsOnce p → IsOnce q
  Step-IsOnce (succeeds v p) h = emit_success-IsOnce v p h
  Step-IsOnce (fails v p) h = emit_error-IsOnce v p h
  Step-IsOnce (adds_callback l p) h = add_callback-IsOnce l p h
  Step-IsOnce (adds_errback l p) h = add_errback-IsOnce l p h
  Step-IsOnce (sets_timeout n p) h = set_timeout-IsOnce n p h
  Step-IsOnce (times_out v p) h = timer_runs-IsOnce v p h

  -- In whatever order listeners are added, before or after, and successes, errors, timeouts and the timer
  -- come: if the promise has succeeded, each callback was called once with the values of the success, in
  -- the order of addition, and no errback was; if it has failed, the other way round; if neither, no
  -- listener was called; and no timer runs once it has fired.
  pub IsReachable-IsOnce : {p : Promise V} → IsReachable p → IsOnce p
  IsReachable-IsOnce start = record { callback = refl; errback = refl; idle = tt }
  IsReachable-IsOnce (after r s) = Step-IsOnce s (IsReachable-IsOnce r)

  unless_fired-skips : (f : Fired V) (p q : Promise V) → f ≢ pending → unless_fired f p q ≡ p
  unfolding unless_fired
  unless_fired-skips pending p q n = absurd (n refl)
  unless_fired-skips (success v) p q n = refl
  unless_fired-skips (failure v) p q n = refl

  emit_success-skips : (v : V) (p : Promise V) → p.fired ≢ pending → emit_success v p ≡ p
  unfolding emit_success
  emit_success-skips v p n = unless_fired-skips p.fired p _ n

  emit_error-skips : (v : V) (p : Promise V) → p.fired ≢ pending → emit_error v p ≡ p
  unfolding emit_error
  emit_error-skips v p n = unless_fired-skips p.fired p _ n

  -- Once a promise has fired, no operation changes how, nor the values.
  pub Step-fired : {p q : Promise V} → Step p q → p.fired ≢ pending → q.fired ≡ p.fired
  unfolding add_callback add_errback set_timeout timer_runs
  Step-fired (succeeds v p) n = ap (λ (q : Promise V). q.fired) (emit_success-skips v p n)
  Step-fired (fails v p) n = ap (λ (q : Promise V). q.fired) (emit_error-skips v p n)
  Step-fired (adds_callback l p) n = refl
  Step-fired (adds_errback l p) n = refl
  Step-fired (sets_timeout m p) n = elim (Bool-cases (m == 0)) [
    | inl none_given ↦ rw none_given refl
    | inr given ↦
        let set : Promise V = record p { duration = m } in
        rw given (
          ap (λ (q : Promise V). q.fired)
            (unless_fired-skips p.fired set (record set { timer = true }) n))
  ]
  Step-fired (times_out v p) n = elim (Bool-cases p.timer) [
    | inl runs ↦
        simp runs
          (ap (λ (q : Promise V). q.fired) (emit_error-skips v (record p { timer = false }) n))
    | inr stopped ↦ simp stopped refl
  ]

-- ===== src/Connection/Attempts.antt =====
-- lib/connection.js: how often and how late a connection is attempted again.
use node_amqp.Prelude.{
  ℕ, zero, suc, ◌*◌, ◌≤◌, ◌≡◌, refl, sym, ap, ◌∙◌, arith, ltb, min, Bool, true, false, Bool-cases,
  ◌⊎◌, inl, inr, Option, none, some, if◌then◌else◌, subst,
}
use node_amqp.Connection.Backoff.{
  Strategy, exponential, linear, unknown, ImplOptions, Link, new_link, grown, next_backoff,
  schedule, on_error, reconnect, attempt, on_connect, on_ready, on_data, on_end, no_heartbeat, end,
  inbound_reset, outbound_reset,
}

module _ (o : ImplOptions) where
  abbrev pub IsBounded : Option ℕ → Type 0
  IsBounded none = Unit
  IsBounded (some time) = (time ≤ o.backoff_time) ⊎ (time ≤ o.exponential_limit)

  abbrev pub scheduled_once : Bool → Bool → ℕ
  scheduled_once true true = 1
  scheduled_once _ _ = 0

  -- Attempts are scheduled one at a time, and no later than the bounds allow.
  pub record IsPatient (l : Link) : Type 0 where
    pub one_timer : l.pending ≡ scheduled_once o.reconnect l.connection_attempt_scheduled
    pub bounded : IsBounded l.backoff_time

  grown-IsBounded :
      (s : Strategy) (time : ℕ) → IsBounded (some time) → IsBounded (some (grown o s time))
  unfolding grown
  grown-IsBounded exponential time h = elim (Bool-cases (ltb o.exponential_limit (time * 2))) [
    | inl e ↦ rw e (inr (omega arith))
    | inr e ↦ rw e (inr (ground arith))
  ]
  grown-IsBounded linear time h = h
  grown-IsBounded unknown time h = h

  next_backoff-IsBounded : (b : Option ℕ) → IsBounded b → IsBounded (some (next_backoff o b))
  unfolding next_backoff
  next_backoff-IsBounded none h = inl (omega arith)
  next_backoff-IsBounded (some time) h = grown-IsBounded o.strategy time h

  -- What happens to a connection. An attempt's timer runs only if it is pending.
  pub data Step : Link → Link → Type 0 where
    errs : (l : Link) → Step l (on_error o l)
    attempts : (l : Link) → 1 ≤ l.pending → Step l (attempt o l)
    reconnects : (l : Link) → Step l (reconnect o l)
    connects : (l : Link) → Step l (on_connect o l)
    is_ready : (writable : Bool) (l : Link) → Step l (on_ready o writable l)
    receives : (throws : Bool) (l : Link) → Step l (on_data o throws l)
    ends : (l : Link) → Step l (on_end o l)
    misses : (readable : Bool) (l : Link) → Step l (no_heartbeat o readable l)
    is_ended : (l : Link) → Step l (end o l)

  pub data IsReachable : Link → Type 0 where
    starts : (heartbeat : Bool) → IsReachable (new_link heartbeat)
    steps : (l m : Link) → IsReachable l → Step l m → IsReachable m

  if-IsPatient :
      (b : Bool) (l m : Link) → IsPatient l → IsPatient m → IsPatient (if b then l else m)
  if-IsPatient true l m h k = h
  if-IsPatient false l m h k = k

  if-cases :
      (b : Bool) (l m : Link)
      → (b ≡ true → IsPatient l)
      → (b ≡ false → IsPatient m)
      → IsPatient (if b then l else m)
  if-cases true l m h k = h refl
  if-cases false l m h k = k refl

  if-true : (b : Bool) (l m : Link) → b ≡ true → (if b then l else m) ≡ l
  if-true b l m e = rw e refl

  if-false : (b : Bool) (l m : Link) → b ≡ false → (if b then l else m) ≡ m
  if-false b l m e = rw e refl

  once-unscheduled : (a : Bool) → scheduled_once a false ≡ 0
  once-unscheduled true = refl
  once-unscheduled false = refl

  once-bound : (a b : Bool) → scheduled_once a b ≤ 1
  once-bound true true = omega arith
  once-bound true false = omega arith
  once-bound false b = omega arith

  schedule-IsPatient :
      (l : Link) → l.connection_attempt_scheduled ≡ false → IsPatient l → IsPatient (schedule o l)
  unfolding schedule
  schedule-IsPatient l e h =
      let idle : l.pending ≡ 0 =
        h.one_timer ∙ (ap (scheduled_once o.reconnect) e ∙ once-unscheduled o.reconnect) in
      if-cases o.reconnect _ _
        (λ r. record {
          one_timer = omega (arith, idle, ap (λ b. scheduled_once b true) r);
          bounded = next_backoff-IsBounded l.backoff_time h.bounded;
        })
        (λ r. record {
          one_timer = omega (arith, idle, ap (λ b. scheduled_once b true) r);
          bounded = h.bounded;
        })

  on_error-IsPatient : (l : Link) → IsPatient l → IsPatient (on_error o l)
  unfolding on_error
  on_error-IsPatient l h =
      let still : Link = record l { inbound_timer = false; outbound_timer = false } in
      let kept : IsPatient still = record { one_timer = h.one_timer; bounded = h.bounded } in
      if-IsPatient l.listening _ l
        (if-cases l.connection_attempt_scheduled still _ (λ e. kept)
          (λ e. schedule-IsPatient still e kept))
        h

  attempt-IsPatient : (l : Link) → IsPatient l → IsPatient (attempt o l)
  unfolding attempt reconnect
  attempt-IsPatient l h = record {
    one_timer = omega (
      arith,
      h.one_timer,
      once-bound o.reconnect l.connection_attempt_scheduled,
      once-unscheduled o.reconnect,
    );
    bounded = h.bounded;
  }

  Step-IsPatient : (l m : Link) → Step l m → IsPatient l → IsPatient m
  unfolding reconnect on_connect on_ready outbound_reset inbound_reset on_data on_end no_heartbeat
      end
  Step-IsPatient _ _ (errs l) h = on_error-IsPatient l h
  Step-IsPatient _ _ (attempts l p) h = attempt-IsPatient l h
  Step-IsPatient _ _ (reconnects l) h = record { one_timer = h.one_timer; bounded = h.bounded }
  Step-IsPatient _ _ (connects l) h = record { one_timer = h.one_timer; bounded = h.bounded }
  Step-IsPatient _ _ (is_ready writable l) h = record { one_timer = h.one_timer; bounded = tt }
  Step-IsPatient _ _ (receives throws l) h =
      let reset : IsPatient (inbound_reset o l) = record {
        one_timer = h.one_timer;
        bounded = h.bounded;
      } in
      if-IsPatient l.has_parser _ _ (if-IsPatient throws _ _ (on_error-IsPatient l h) reset) reset
  Step-IsPatient _ _ (ends l) h = if-IsPatient l.ready_emitted _ _ h (on_error-IsPatient l h)
  Step-IsPatient _ _ (misses readable l) h = if-IsPatient readable _ _ (on_error-IsPatient l h) h
  Step-IsPatient _ _ (is_ended l) h = record { one_timer = h.one_timer; bounded = h.bounded }

  -- In whatever order a connection connects, gets ready, receives, errs, ends and tries again: it has one
  -- timer of an attempt while one is scheduled, if it is to reconnect, and none otherwise; and the backoff
  -- time is within the configured time or the limit.
  pub IsReachable-IsPatient : (l : Link) → IsReachable l → IsPatient l
  IsReachable-IsPatient _ (starts heartbeat) = record {
    one_timer = sym (once-unscheduled o.reconnect);
    bounded = tt;
  }
  IsReachable-IsPatient _ (steps l m r s) = Step-IsPatient l m s (IsReachable-IsPatient l r)

  -- An error and the attempt that follows, again and again, and the backoff time of the last one.
  abbrev pub failing : ℕ → Link → Link
  failing zero l = on_error o l
  failing (suc n) l = on_error o (attempt o (failing n l))

  abbrev pub doubled : ℕ → ℕ → ℕ
  doubled time zero = time
  doubled time (suc n) = 2 * doubled time n

  -- A link whose attempt is scheduled after the time `b`.
  record Waits (l : Link) (b : ℕ) : Type 0 where
    listens : l.listening ≡ true
    scheduled : l.connection_attempt_scheduled ≡ true
    after : l.backoff_time ≡ some b

  schedules :
      (l : Link)
      → o.reconnect ≡ true
      → l.listening ≡ true
      → l.connection_attempt_scheduled ≡ false
      → Waits (on_error o l) (next_backoff o l.backoff_time)
  unfolding on_error schedule
  schedules l r listening idle =
      subst (λ (m : Link). Waits m (next_backoff o l.backoff_time))
        (sym (
          if-true l.listening _ l listening
          ∙ (if-false l.connection_attempt_scheduled _ _ idle ∙ if-true o.reconnect _ _ r)))
        (record { listens = listening; scheduled = refl; after = refl })

  failing-Waits :
      (n : ℕ) (l : Link)
      → o.reconnect ≡ true
      → o.strategy ≡ exponential
      → o.backoff_time ≤ o.exponential_limit
      → l.listening ≡ true
      → l.connection_attempt_scheduled ≡ false
      → l.backoff_time ≡ none
      → Waits (failing n l) (min (doubled o.backoff_time n) o.exponential_limit)
  unfolding next_backoff attempt reconnect grown
  failing-Waits zero l r s le listening idle fresh =
      subst (Waits (on_error o l)) (ap (next_backoff o) fresh ∙ omega (arith, le))
        (schedules l r listening idle)
  failing-Waits (suc n) l r s le listening idle fresh =
      let before = failing-Waits n l r s le listening idle fresh in
      subst (Waits (failing (suc n) l))
        (ap (next_backoff o) before.after
          ∙ (ap (λ t. grown o t (min (doubled o.backoff_time n) o.exponential_limit)) s
              ∙ limited n))
        (schedules (attempt o (failing n l)) r before.listens refl)
    where
      limited :
          (n : ℕ)
          → grown o exponential (min (doubled o.backoff_time n) o.exponential_limit)
            ≡ min (2 * doubled o.backoff_time n) o.exponential_limit
      limited n = ground arith

  -- With the exponential strategy and a first backoff time within the limit: after a success, the failure
  -- that `n` failed attempts precede schedules the next attempt after `2 ^ n` times the first backoff
  -- time, or the limit if that is less.
  pub failing-doubled :
      (n : ℕ) (l : Link)
      → o.reconnect ≡ true
      → o.strategy ≡ exponential
      → o.backoff_time ≤ o.exponential_limit
      → l.listening ≡ true
      → l.connection_attempt_scheduled ≡ false
      → l.backoff_time ≡ none
      → (failing n l).backoff_time ≡ some (min (doubled o.backoff_time n) o.exponential_limit)
  failing-doubled n l r s le listening idle fresh =
      let waits = failing-Waits n l r s le listening idle fresh in waits.after

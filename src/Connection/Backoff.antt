-- ===== src/Connection/Backoff.antt =====
-- lib/connection.js: the listeners of `addAllListeners`, `reconnect`, `end` and the heartbeat timers.
use node_amqp.Prelude.{
  ℕ, ◌+◌, ◌-◌, ◌*◌, ◌==◌, ltb, ◌&&◌, Bool, true, false, List, [], ◌∷◌, ◌++◌, Option, none, some,
  if◌then◌else◌,
}

-- `reconnectBackoffStrategy`
pub data Strategy : Type 0 where
  exponential linear unknown : Strategy

-- `implOptions`
pub record ImplOptions : Type 0 where
  pub reconnect : Bool
  pub backoff_time : ℕ
  pub strategy : Strategy
  pub exponential_limit : ℕ

-- What the listeners share. `pending` counts the timers of reconnection attempts that have not run;
-- `listening` is false once the error listener has removed itself; `closed_channels` tells of each channel
-- whether its state is 'closed', and `closed_consumers` the same of the subscriptions; `reopened` are the
-- channels that `reconnect` was called on, and `attempts` counts the calls of `connect`.
pub record Link : Type 0 where
  pub connection_attempt_scheduled : Bool
  pub pending : ℕ
  pub backoff_time : Option ℕ
  pub listening : Bool
  pub has_parser : Bool
  pub ready_emitted : Bool
  pub heartbeat : Bool
  pub inbound_timer : Bool
  pub outbound_timer : Bool
  pub closed_channels : List (ℕ × Bool)
  pub closed_consumers : List Bool
  pub reopened : List ℕ
  pub attempts : ℕ

-- After `connect()` was called for the first time.
abbrev pub new_link : Bool → Link
new_link heartbeat = record {
  connection_attempt_scheduled = false;
  pending = 0;
  backoff_time = none;
  listening = true;
  has_parser = false;
  ready_emitted = false;
  heartbeat = heartbeat;
  inbound_timer = false;
  outbound_timer = false;
  closed_channels = [];
  closed_consumers = [];
  reopened = [];
  attempts = 1;
}

-- The loops that set the states; the connection is its own channel 0.
unfoldable pub close_channels : List (ℕ × Bool) → List (ℕ × Bool)
close_channels [] = []
close_channels ((n, closed) ∷ cs) =
    let rest = close_channels cs in if n == 0 then (n, closed) ∷ rest else (n, true) ∷ rest

unfoldable pub close_all : List (ℕ × Bool) → List (ℕ × Bool)
close_all [] = []
close_all ((n, closed) ∷ cs) = (n, true) ∷ close_all cs

unfoldable pub close_consumers : List Bool → List Bool
close_consumers [] = []
close_consumers (closed ∷ cs) = true ∷ close_consumers cs

-- The channels that the listener of 'ready' reconnects.
unfoldable pub to_reopen : List (ℕ × Bool) → List ℕ
to_reopen [] = []
to_reopen ((n, closed) ∷ cs) = let rest = to_reopen cs in if n == 0 then rest else n ∷ rest

module _ (o : ImplOptions) where
  -- The next `backoffTime`.
  unfoldable pub grown : Strategy → ℕ → ℕ
  grown exponential time =
      if ltb o.exponential_limit (time * 2) then o.exponential_limit else time * 2
  grown linear time = time
  grown unknown time = time

  unfoldable pub next_backoff : Option ℕ → ℕ
  unfolding grown
  next_backoff none = o.backoff_time
  next_backoff (some time) = grown o.strategy time

  -- The first error since the last attempt.
  unfoldable pub schedule : Link → Link
  unfolding next_backoff close_channels close_consumers
  schedule l =
      let down = record l {
        connection_attempt_scheduled = true;
        has_parser = false;
        closed_channels = close_channels l.closed_channels;
        closed_consumers = close_consumers l.closed_consumers;
      } in
      if o.reconnect
      then record down {
        backoff_time = some (next_backoff l.backoff_time);
        pending = l.pending + 1;
      }
      else record down { listening = false }

  -- The listener of 'error'.
  unfoldable pub on_error : Link → Link
  unfolding schedule
  on_error l =
      let still = record l { inbound_timer = false; outbound_timer = false } in
      if l.listening then (if l.connection_attempt_scheduled then still else schedule still) else l

  -- `reconnect()`
  unfoldable pub reconnect : Link → Link
  unfolding close_all
  reconnect l = record l {
    closed_channels = close_all l.closed_channels;
    attempts = l.attempts + 1;
  }

  -- The timer of an attempt.
  unfoldable pub attempt : Link → Link
  unfolding reconnect
  attempt l = reconnect (record l { connection_attempt_scheduled = false; pending = l.pending - 1 })

  -- The listener of 'connect', where `channels` is set the first time.
  unfoldable pub on_connect : Link → Link
  on_connect l = record l {
    has_parser = true;
    ready_emitted = false;
    closed_channels = elim l.closed_channels [ [] ↦ (0, false) ∷ [] | _ ∷ _ ↦ l.closed_channels ];
  }

  -- `_inboundHeartbeatTimerReset()` and `_outboundHeartbeatTimerReset()`
  unfoldable pub inbound_reset : Link → Link
  inbound_reset l = record l { inbound_timer = l.heartbeat }

  unfoldable pub outbound_reset : Bool → Link → Link
  outbound_reset writable l = record l { outbound_timer = writable && l.heartbeat }

  -- The listener of 'ready'.
  unfoldable pub on_ready : Bool → Link → Link
  unfolding to_reopen outbound_reset
  on_ready writable l =
      let again = if o.reconnect then l.reopened ++ to_reopen l.closed_channels else l.reopened in
      outbound_reset writable
        (record l { backoff_time = none; reopened = again; ready_emitted = true })

  -- The listener of 'data', with what `execute` does to the rest: whether it throws.
  unfoldable pub on_data : Bool → Link → Link
  unfolding on_error inbound_reset
  on_data throws l =
      if l.has_parser then (if throws then on_error l else inbound_reset l) else inbound_reset l

  -- The listener of 'end'.
  unfoldable pub on_end : Link → Link
  unfolding on_error
  on_end l = if l.ready_emitted then l else on_error l

  -- The timer of the inbound heartbeat; `readable` is the condition of its `emit`.
  unfoldable pub no_heartbeat : Bool → Link → Link
  unfolding on_error
  no_heartbeat readable l = if readable then on_error l else l

  -- `end()`
  unfoldable pub end : Link → Link
  end l = record l { heartbeat = false; inbound_timer = false; outbound_timer = false }

-- ===== src/Tests/Queues.antt =====
-- Queues whose connection comes back, their bindings and their messages.
use node_amqp.Prelude.{
  ℕ, zero, suc, ◌+◌, ◌≡◌, refl, arith, true, false, List, [], ◌∷◌, ◌++◌, Option, none, some, pos,
  ◌+ℤ◌,
}
use node_amqp.Channel.Tasks.{task_push, new_channel, find_task, handle_task_reply, flush_loop}
use node_amqp.Exchange.State.{opened}
use node_amqp.Definitions.Tables.{lookup, insert}
use node_amqp.Queue.Messages.{
  Emitted, raw_message, end_of, Deliveries, Body, collect, basic_reject, shift,
}
use node_amqp.Queue.Bodies.{receive, headed, data_events, receive-collect}
use node_amqp.Queue.Bindings.{Bindings, new_bindings, bind, unbind, rebind, release, times_bound}
use node_amqp.Queue.Unbinding.{IsRecorded, IsRecorded-new, IsRecorded-bind, bindings-unbind-bind}
use node_amqp.Queue.Rebinding.{entries_of, rebind-counted}
use node_amqp.Queue.Subscriptions.{
  Consumer, listener_of, close_consumers, find_consumer, set_consuming, consuming,
}
use node_amqp.Queue.State.{
  forgets, sends_delete, sends_close, sends_consume, emits_tag_change, Queue, queue_declare_ok,
  other, destroy, unsubscribe_from, calls,
}
use node_amqp.Queue.Jobs.{call_task, succeed}
use node_amqp.Queue.Calls.{subscribe_raw, resubscribe, resubscribe_closed}
use node_amqp.Queue.Handlers.{on_method}
use node_amqp.Queue.Idle.{AreDistinct}
use node_amqp.Queue.Resubscribing.{renewed}
use node_amqp.Queue.Answers.{Answers}
use node_amqp.Queue.Restoring.{interrupted, restoring_output, on_method-restores}

abbrev zeros : ℕ → List ℕ
zeros zero = []
zeros (suc n) = 0 ∷ zeros n

abbrev nothing : Deliveries
nothing = record { current_message = none; emitted = [] }

abbrev no_body : Body
no_body = record { mem = []; used = 0 }

abbrev chunks : List (List ℕ)
chunks = (1 ∷ 2 ∷ []) ∷ (3 ∷ []) ∷ []

receive-collect_example :
    (r : Deliveries) × (events : List Emitted) × (receive 7 0 3 chunks nothing ≡ some r)
    × (r.emitted ≡ events)
    × (events ≡ raw_message (headed 7 0 3) ∷ (data_events chunks ++ end_of 7 ∷ []))
    × (collect zeros no_body events ≡ (1 ∷ 2 ∷ 3 ∷ []) ∷ [])
receive-collect_example =
    receive-collect zeros 7 0 chunks 2 nothing no_body refl
      ((omega arith, omega arith), ((omega arith, omega arith), tt))

-- Two queues' worth of bindings to the exchange 4, which the connection has.
abbrev bound : Bindings
unfolding bind
bound = bind 4 8 (bind 4 9 (new_bindings ((4, pos 0) ∷ [])))

bound-IsRecorded : IsRecorded bound
unfolding bound
bound-IsRecorded =
    IsRecorded-bind 4 8 (bind 4 9 (new_bindings ((4, pos 0) ∷ [])))
      (IsRecorded-bind 4 9 (new_bindings ((4, pos 0) ∷ [])) (IsRecorded-new ((4, pos 0) ∷ [])))

bindings-unbind-bind_example : (unbind 4 9 (bind 4 9 bound)).bindings ≡ bound.bindings
bindings-unbind-bind_example = bindings-unbind-bind 4 9 bound bound-IsRecorded

rebind-counted_example :
    times_bound 4 9 (rebind bound) ≡ times_bound 4 9 bound + entries_of 4 9 bound.bindings
rebind-counted_example = rebind-counted 4 9 bound

-- After a reconnection one `unbind` does not forget the binding.
remembered : times_bound 4 9 (unbind 4 9 (rebind bound)) ≡ 1
unfolding unbind rebind bind lookup insert
remembered = refl

-- Nor does `destroy` give back what the exchange counts.
left_over : (release (rebind bound)).binds ≡ (4, pos 3) ∷ []
unfolding release rebind bind lookup insert ◌+ℤ◌
left_over = refl

abbrev two_consumers : List Consumer
two_consumers =
    record { tag = 0; listener = 10; prefetch = none; state = consuming }
    ∷ record { tag = 1; listener = 20; prefetch = some 5; state = consuming }
    ∷ []

two_consumers-AreDistinct : AreDistinct two_consumers
two_consumers-AreDistinct = ((λ e. absurd (omega (arith, e)), tt), (tt, tt))

abbrev quiet : ℕ → List (Option ℕ)
quiet n = []

abbrev working : Queue
working = record {
  name = 113 ∷ [];
  no_declare = false;
  close_on_unsubscribe = false;
  phase = opened;
  tasks = record new_channel { is_open = true };
  jobs = [];
  bindings = bound;
  consumers = two_consumers;
  next_tag = 2;
  deliveries = nothing;
  open_callback = false;
  bind_callback = false;
  sequence = none;
  output = [];
}

on_method-restores_example :
    (r : Queue) × (on_method quiet (queue_declare_ok (113 ∷ [])) (interrupted working) ≡ some r)
    × (r.phase ≡ opened)
    × (r.name ≡ 113 ∷ [])
    × (r.output ≡ restoring_output (113 ∷ []) working)
    × (r.consumers ≡ renewed 2 two_consumers)
    × (r.next_tag ≡ 4)
    × (r.tasks.pushed ≡ 2)
    × ((x key : ℕ)
        → times_bound x key r.bindings ≡ times_bound x key bound + entries_of x key bound.bindings)
unfolding find_task
on_method-restores_example =
    on_method-restores quiet (113 ∷ []) working refl refl (omega arith, (omega arith, tt))
      two_consumers-AreDistinct

renewed_listener : listener_of 3 (renewed 2 two_consumers) ≡ some 20
unfolding listener_of
renewed_listener = refl

-- Two consumers that subscribe while the queue is closed, whose tasks wait; then a connection that fails
-- again, and comes back: the push for the first one calls the task of the second one, whose state is
-- 'open' then, so that it keeps its tag.
abbrev waiting : Queue
waiting =
    subscribe_raw 20 none none
      (subscribe_raw 10 none none (record (interrupted working) { consumers = [] }))

abbrev back : Queue
back = resubscribe (record (interrupted waiting) {
  phase = opened;
  tasks = record waiting.tasks { is_open = true };
  output = [];
})

first_only :
    back.consumers
    ≡ record { tag = 3; listener = 20; prefetch = none; state = consuming }
      ∷ record { tag = 4; listener = 10; prefetch = none; state = consuming }
      ∷ []
unfolding resubscribe close_consumers resubscribe_closed find_consumer flush_loop lookup task_push
    set_consuming
first_only = refl

all_consumed :
    back.output ≡ emits_tag_change 2 4 ∷ sends_consume 2 ∷ sends_consume 3 ∷ sends_consume 4 ∷ []
unfolding resubscribe close_consumers resubscribe_closed find_consumer flush_loop lookup task_push
    set_consuming
all_consumed = refl

unknown_method : on_method quiet (other 4) working ≡ none
unfolding on_method handle_task_reply
unknown_method = refl

rejected : shift true true (some (headed 7 0 3)) ≡ (basic_reject 7 true ∷ [], none)
unfolding shift
rejected = refl

-- Two headers are bound behind a `bind` with a callback.
abbrev awaiting : Queue
awaiting = record working { bind_callback = true }

destroyed :
    (call_task (destroy true false) working).output
    ≡ forgets (113 ∷ []) ∷ sends_delete true false ∷ []
unfolding call_task
destroyed = refl

-- The callback of `unsubscribe` forgets the consumer, and closes the channel where that is asked for.
unsubscribed :
    (succeed
      (some (calls (unsubscribe_from 0)))
      (record working { close_on_unsubscribe = true })).output
    ≡ sends_close ∷ []
unfolding succeed
unsubscribed = refl

-- ===== src/Queue/Restoring.antt =====
-- lib/queue.js: what `queueDeclareOk` does for a queue of a connection that has come back.
use node_amqp.Prelude.{
  ℕ, ◌+◌, ◌≡◌, refl, sym, ap, ◌∙◌, Bool, true, false, List, [], ◌∷◌, ◌++◌, append_assoc, append-nil,
  length, Option, none, some, if◌then◌else◌,
}
use node_amqp.Channel.Tasks.{Task, find_task, handle_found, handle_task_reply}
use node_amqp.Channel.Order.{unsent}
use node_amqp.Exchange.State.{opened, closed}
use node_amqp.Queue.Bindings.{rebind, times_bound}
use node_amqp.Queue.Rebinding.{entries_of, rebind-counted}
use node_amqp.Queue.Subscriptions.{close_consumers}
use node_amqp.Queue.State.{
  Queue, Output, Incoming, queue_declare_ok, emits_method, registers, calls_open, emits_open,
  number_of, put_out, set_phase,
}
use node_amqp.Queue.Jobs.{flush, run_since}
use node_amqp.Queue.Calls.{resubscribe}
use node_amqp.Queue.Handlers.{
  call_open, binds_of, on_declare_ok, handle, flushed, take_reply, on_method,
}
use node_amqp.Queue.Idle.{AreOld, AreDistinct, flush-idle}
use node_amqp.Queue.Resubscribing.{renewed, renewals, resubscribe-renewed}

-- The connection lost its socket: the queue is closed, and so is every consumer.
abbrev pub interrupted : Queue → Queue
interrupted q = record q {
  phase = closed;
  tasks = record q.tasks { is_open = false };
  consumers = close_consumers q.consumers;
}

abbrev pub opening_calls : Bool → List Output
opening_calls true = calls_open ∷ []
opening_calls false = []

call_open-equals :
    (q : Queue)
    → call_open q
      ≡ record q { output = q.output ++ opening_calls q.open_callback; open_callback = false }
unfolding call_open put_out
call_open-equals q = called q.open_callback refl
  where
    called :
        (b : Bool)
        → q.open_callback ≡ b
        → (if b then record (put_out (calls_open ∷ []) q) { open_callback = false } else q)
          ≡ record q { output = q.output ++ opening_calls b; open_callback = false }
    called true e = refl
    called false e = λ i. record q { output = sym (append-nil q.output) i; open_callback = e i }

-- The queue before the consumers are subscribed again.
abbrev declared : List ℕ → Queue → Queue
declared name q = record q {
  name = name;
  phase = opened;
  tasks = record q.tasks { is_open = true };
  bindings = rebind q.bindings;
  open_callback = false;
  output =
      (((q.output ++ registers name ∷ []) ++ binds_of q.bindings.bindings)
        ++ opening_calls q.open_callback)
      ++ emits_open ∷ [];
}

on_declare_ok-equals :
    (name : List ℕ) (q : Queue) → on_declare_ok name q ≡ resubscribe (declared name q)
unfolding on_declare_ok put_out set_phase
on_declare_ok-equals name q =
    ap (λ (told : Queue). resubscribe (put_out (emits_open ∷ []) told))
      (call_open-equals (
        put_out (binds_of q.bindings.bindings)
          (record (put_out (registers name ∷ []) (record (set_phase opened q) { name = name })) {
            bindings = rebind q.bindings;
          })))

on_method-unhandled :
    (listeners : ℕ → List (Option ℕ)) (m : Incoming) (q : Queue)
    → find_task (number_of m) q.tasks.tasks ≡ none
    → on_method listeners m q ≡ flushed (handle m (put_out (emits_method (number_of m) ∷ []) q))
unfolding on_method handle_task_reply put_out take_reply run_since
on_method-unhandled listeners m q e =
    let f : Queue = put_out (emits_method (number_of m) ∷ []) q in
    ap
      (λ (o : Option (Task × List Task)).
        let g : Queue = take_reply o f in
        let (tasks, handled) = handle_task_reply listeners (number_of m) g.tasks in
        if handled
        then some (run_since (length g.tasks.called) (record g { tasks = tasks }))
        else flushed (handle m f))
      e
    ∙ ap
        (λ (o : Option (Task × List Task)).
          let (tasks, handled) = handle_found listeners o f.tasks in
          if handled
          then some (run_since (length f.tasks.called) (record f { tasks = tasks }))
          else flushed (handle m f))
        e

append-six :
    (o a b c d e r : List Output)
    → (((((o ++ a) ++ b) ++ c) ++ d) ++ e) ++ r ≡ o ++ (a ++ (b ++ (c ++ (d ++ (e ++ r)))))
append-six o a b c d e r =
    append_assoc ((((o ++ a) ++ b) ++ c) ++ d) e r
    ∙ (append_assoc (((o ++ a) ++ b) ++ c) d (e ++ r)
        ∙ (append_assoc ((o ++ a) ++ b) c (d ++ (e ++ r))
            ∙ (append_assoc (o ++ a) b (c ++ (d ++ (e ++ r)))
                ∙ append_assoc o a (b ++ (c ++ (d ++ (e ++ r)))))))

-- What is emitted and sent, in order.
abbrev pub restoring_output : List ℕ → Queue → List Output
restoring_output name q =
    emits_method (number_of (queue_declare_ok name)) ∷ registers name ∷ binds_of q.bindings.bindings
    ++ (opening_calls q.open_callback ++ (emits_open ∷ renewals q.next_tag q.consumers))

-- A queue whose consumers have distinct tags that were given before, that has called all its tasks when
-- the connection fails, and for whose declaration no task waits: once it is declared again, `_onMethod`
-- opens it under the name that the server gives, sends each recorded binding before the callback and
-- 'open', and then subscribes each consumer again, in order, with its listener, its prefetch count, a new
-- tag and a new task, and tells of the tags; and every binding is counted once more for each of its
-- entries.
pub on_method-restores :
    (listeners : ℕ → List (Option ℕ)) (name : List ℕ) (q : Queue)
    → find_task (number_of (queue_declare_ok name)) q.tasks.tasks ≡ none
    → unsent q.tasks.tasks ≡ []
    → AreOld q.next_tag q.consumers
    → AreDistinct q.consumers
    → (r : Queue) × (on_method listeners (queue_declare_ok name) (interrupted q) ≡ some r)
      × (r.phase ≡ opened)
      × (r.name ≡ name)
      × (r.output ≡ q.output ++ restoring_output name q)
      × (r.consumers ≡ renewed q.next_tag q.consumers)
      × (r.next_tag ≡ q.next_tag + length q.consumers)
      × (r.tasks.pushed ≡ q.tasks.pushed + length q.consumers)
      × ((x key : ℕ)
          → times_bound x key r.bindings
            ≡ times_bound x key q.bindings + entries_of x key q.bindings.bindings)
unfolding handle put_out
on_method-restores listeners name q unawaited called old distinct =
    let f : Queue =
      put_out (emits_method (number_of (queue_declare_ok name)) ∷ []) (interrupted q) in
    let before : Queue = record (declared name f) { consumers = q.consumers } in
    let (t, jobs, renews, pushed, idle) =
      resubscribe-renewed before (record { open_now = refl; all_called = called }) old distinct in
    let r : Queue = record before {
      tasks = t;
      jobs = jobs;
      consumers = renewed q.next_tag q.consumers;
      next_tag = q.next_tag + length q.consumers;
      output = before.output ++ renewals q.next_tag q.consumers;
    } in
    let (u, flushes, same) = flush-idle r idle in
    (
      record r { tasks = u },
      on_method-unhandled listeners (queue_declare_ok name) (interrupted q) unawaited
          ∙ ap (λ (s : Queue). some s) (ap flush (on_declare_ok-equals name f ∙ renews) ∙ flushes),
      refl,
      refl,
      append-six q.output (emits_method (number_of (queue_declare_ok name)) ∷ [])
          (registers name ∷ []) (binds_of q.bindings.bindings) (opening_calls q.open_callback)
          (emits_open ∷ []) (renewals q.next_tag q.consumers),
      refl,
      refl,
      same ∙ pushed,
      λ x key. rebind-counted x key q.bindings,
    )

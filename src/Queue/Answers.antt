-- ===== src/Queue/Answers.antt =====
-- lib/queue.js: where the replies to calls go, with the task queue of lib/channel.js.
use node_amqp.Prelude.{
  ℕ, ◌==◌, ◌≡◌, refl, sym, ap, ◌∙◌, Bool, true, false, inl, inr, List, [], ◌∷◌, length, drop,
  Option, none, some, if◌then◌else◌, subst,
}
use node_amqp.Definitions.Tables.{lookup}
use node_amqp.Channel.Tasks.{Task, Channel, find_task, handle_task_reply}
use node_amqp.Channel.Replies.{IsFirst, handle_task_reply-IsFirst}
use node_amqp.Channel.Waiting.{any_awaits, handle_task_reply-waits}
use node_amqp.Queue.Subscriptions.{Consumer, find_consumer}
use node_amqp.Queue.State.{
  Queue, Output, sends_bind_headers, sends_unbind_headers, sends_unbind, sends_delete, sends_flow,
  sends_purge, sends_cancel, Incoming, queue_bind_ok, queue_unbind_ok, queue_delete_ok, other,
  number_of, emits_method, put_out, set_phase, Call, unsubscribe_from, unbind_from, bind_headers,
  unbind_headers, destroy, purge, flow, Job, consumes, calls,
}
use node_amqp.Queue.Jobs.{call_task, consume, run_job, run_jobs, run_since, succeed}
use node_amqp.Queue.Handlers.{handle, flushed, take_reply, on_method}

-- The reply of the protocol to each method that a call sends.
pub data Answers : Output → Incoming → Type 0 where
  binds : (x k : ℕ) → Answers (sends_bind_headers x k) queue_bind_ok
  unbinds_headers : (x k : ℕ) → Answers (sends_unbind_headers x k) queue_unbind_ok
  unbinds : (x k : ℕ) → Answers (sends_unbind x k) queue_unbind_ok
  deletes : (if_unused if_empty : Bool) → Answers (sends_delete if_unused if_empty) queue_delete_ok
  purges : Answers sends_purge (other 0)
  cancels : (tag : ℕ) → Answers (sends_cancel tag) (other 1)
  flows : (active : Bool) → Answers (sends_flow active) (other 2)

-- What jobs leave alone.
abbrev kept : Queue → Channel × Bool
kept q = (q.tasks, q.bind_callback)

consume-kept : (tag : ℕ) (o : Option Consumer) (q : Queue) → kept (consume tag o q) ≡ kept q
unfolding consume put_out
consume-kept tag none q = refl
consume-kept tag (some c) q = refl

call_task-kept : (c : Call) (q : Queue) → kept (call_task c q) ≡ kept q
unfolding call_task put_out
call_task-kept (unsubscribe_from tag) q = refl
call_task-kept (unbind_from x k) q = refl
call_task-kept (bind_headers x k) q = refl
call_task-kept (unbind_headers x k) q = refl
call_task-kept (destroy u e) q = refl
call_task-kept purge q = refl
call_task-kept (flow a) q = refl

run_jobs-kept : (ns : List ℕ) (q : Queue) → kept (run_jobs ns q) ≡ kept q
unfolding run_jobs run_job
run_jobs-kept [] q = refl
run_jobs-kept (n ∷ ns) q =
    run_jobs-kept ns (run_job (lookup ◌==◌ n q.jobs) q) ∙ one (lookup ◌==◌ n q.jobs)
  where
    one : (o : Option Job) → kept (run_job o q) ≡ kept q
    one none = refl
    one (some (consumes tag)) = consume-kept tag (find_consumer tag q.consumers) q
    one (some (calls c)) = call_task-kept c q

-- What the callback of `unsubscribe` leaves alone.
abbrev noted : Queue → (List Task × List ℕ) × Bool
noted q = ((q.tasks.tasks, q.tasks.fired), q.bind_callback)

if-noted : (b : Bool) (x y : Queue) → noted x ≡ noted y → noted (if b then x else y) ≡ noted y
if-noted true x y h = h
if-noted false x y h = refl

succeed-noted : (o : Option Job) (q : Queue) → noted (succeed o q) ≡ noted q
unfolding succeed put_out set_phase
succeed-noted none q = refl
succeed-noted (some (consumes tag)) q = refl
succeed-noted (some (calls (unsubscribe_from tag))) q = if-noted q.close_on_unsubscribe _ q refl
succeed-noted (some (calls (unbind_from x k))) q = refl
succeed-noted (some (calls (bind_headers x k))) q = refl
succeed-noted (some (calls (unbind_headers x k))) q = refl
succeed-noted (some (calls (destroy u e))) q = refl
succeed-noted (some (calls purge)) q = refl
succeed-noted (some (calls (flow a))) q = refl

take_reply-noted : (o : Option (Task × List Task)) (q : Queue) → noted (take_reply o q) ≡ noted q
unfolding take_reply
take_reply-noted none q = refl
take_reply-noted (some (t, ts)) q = succeed-noted (lookup ◌==◌ t.promise q.jobs) q

if-true {ℓ} : {A : Type ℓ} (b : Bool) (x y : A) → b ≡ true → (if b then x else y) ≡ x
if-true b x y e = rw e refl

-- A task that waits for a method takes it.
pub on_method-taken :
    (listeners : ℕ → List (Option ℕ)) (m : Incoming) (q : Queue)
    → any_awaits (number_of m) q.tasks.tasks ≡ true
    → (t : Task) × (rest : List Task) × (r : Queue) × IsFirst (number_of m) q.tasks.tasks t rest
      × (on_method listeners m q ≡ some r)
      × (r.tasks.fired ≡ t.promise ∷ q.tasks.fired)
      × (r.bind_callback ≡ q.bind_callback)
unfolding on_method put_out run_since
on_method-taken listeners m q waits =
    let n = number_of m in
    let f : Queue = put_out (emits_method n ∷ []) q in
    let g : Queue = take_reply (find_task n q.tasks.tasks) f in
    let same : noted g ≡ noted q = take_reply-noted (find_task n q.tasks.tasks) f in
    let reply = handle_task_reply listeners n g.tasks in
    let waiting : reply.1 ≡ true =
      handle_task_reply-waits listeners n g.tasks
        (ap (λ (x : (List Task × List ℕ) × Bool). any_awaits n x.0.0) same ∙ waits) in
    let after : Queue = record g { tasks = reply.0 } in
    let r : Queue = run_jobs (drop (length g.tasks.called) reply.0.called) after in
    let left : kept r ≡ kept after =
      run_jobs-kept (drop (length g.tasks.called) reply.0.called) after in
    elim (handle_task_reply-IsFirst listeners n g.tasks) [
      | inl (nothing, none_waits) ↦
          let clash : true ≡ false = sym waiting ∙ ap (λ (x : Channel × Bool). x.1) nothing in
          absurd (cc)
      | inr (t, rest, first, handled, fired) ↦ (
        t,
        rest,
        r,
        subst (λ (x : (List Task × List ℕ) × Bool). IsFirst n x.0.0 t rest) same first,
        if-true reply.1 (some r) (flushed (handle m f)) handled,
        ap (λ (x : Channel × Bool). x.0.fired) left
            ∙ (fired ∙ ap (λ (x : (List Task × List ℕ) × Bool). t.promise ∷ x.0.1) same),
        ap (λ (x : Channel × Bool). x.1) left ∙ ap (λ (x : (List Task × List ℕ) × Bool). x.1) same,
      )
    ]

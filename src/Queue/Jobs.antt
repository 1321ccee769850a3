-- ===== src/Queue/Jobs.antt =====
-- lib/queue.js: the tasks of a queue, with lib/channel.js, and what they do once they are called.
use node_amqp.Prelude.{ℕ, ◌==◌, List, [], ◌∷◌, length, drop, Option, none, some, if◌then◌else◌}
use node_amqp.Definitions.Tables.{lookup}
use node_amqp.Channel.Tasks.{tasks_flush, task_push}
use node_amqp.Exchange.State.{closing}
use node_amqp.Queue.Bindings.{release}
use node_amqp.Queue.Subscriptions.{Consumer, forget, set_consuming, find_consumer}
use node_amqp.Queue.State.{
  Queue, forgets, sends_bind_headers, sends_unbind_headers, sends_unbind, sends_delete, sends_flow,
  sends_purge, sends_cancel, sends_consume, sends_close, throws, Call, unsubscribe_from,
  unbind_from, bind_headers, unbind_headers, destroy, purge, flow, Job, consumes, calls, put_out,
  set_phase,
}

-- What the task of a call does.
unfoldable pub call_task : Call → Queue → Queue
unfolding put_out
call_task (unsubscribe_from tag) q = put_out (sends_cancel tag ∷ []) q
call_task (unbind_from exchange key) q = put_out (sends_unbind exchange key ∷ []) q
call_task (bind_headers exchange pairs) q = put_out (sends_bind_headers exchange pairs ∷ []) q
call_task (unbind_headers exchange pairs) q = put_out (sends_unbind_headers exchange pairs ∷ []) q
call_task (destroy if_unused if_empty) q =
    put_out (sends_delete if_unused if_empty ∷ [])
      (record (put_out (forgets q.name ∷ []) q) { bindings = release q.bindings })
call_task purge q = put_out (sends_purge ∷ []) q
call_task (flow active) q = put_out (sends_flow active ∷ []) q

-- What the task of `subscribeRaw` does, where its tag has an entry and where it has none.
unfoldable pub consume : ℕ → Option Consumer → Queue → Queue
unfolding put_out
consume tag none q = put_out (sends_consume tag ∷ throws ∷ []) q
consume tag (some c) q = record (put_out (sends_consume tag ∷ []) q) {
  consumers = set_consuming tag q.consumers;
}

-- A task without a job is one that a listener has pushed.
unfoldable pub run_job : Option Job → Queue → Queue
unfolding call_task consume
run_job none q = q
run_job (some (consumes tag)) q = consume tag (find_consumer tag q.consumers) q
run_job (some (calls c)) q = call_task c q

unfoldable pub run_jobs : List ℕ → Queue → Queue
unfolding run_job
run_jobs [] q = q
run_jobs (n ∷ ns) q = run_jobs ns (run_job (lookup ◌==◌ n q.jobs) q)

-- The jobs of the tasks that were called behind the first `n`.
unfoldable pub run_since : ℕ → Queue → Queue
unfolding run_jobs
run_since n q = run_jobs (drop n q.tasks.called) q

-- `_tasksFlush()`
unfoldable pub flush : Queue → Queue
unfolding run_since
flush q = run_since (length q.tasks.called) (record q { tasks = tasks_flush q.tasks })

-- `_taskPush(reply, cb)`
unfoldable pub push : ℕ → Job → Queue → Queue
unfolding run_since
push reply job q =
    run_since (length q.tasks.called)
      (record q { tasks = task_push (some reply) q.tasks; jobs = (q.tasks.pushed, job) ∷ q.jobs })

-- The callback that `unsubscribe` adds to its promise.
unfoldable pub succeed : Option Job → Queue → Queue
unfolding put_out set_phase
succeed (some (calls (unsubscribe_from tag))) q =
    let left =
      if q.close_on_unsubscribe then put_out (sends_close ∷ []) (set_phase closing q) else q in
    record left { consumers = forget tag left.consumers }
succeed _ q = q

-- ===== src/Channel/Tasks.antt =====
-- The task queue of lib/channel.js, which Queue and Exchange inherit.
use node_amqp.Prelude.{
  ℕ, ◌+◌, Bool, true, false, List, [], ◌∷◌, ◌++◌, Option, none, some, ◌==◌, if◌then◌else◌,
}

-- A task, with the number of its promise. A method is written by its number in the method table; a task
-- without a reply is one of `_taskPush(null, cb)`.
pub record Task : Type 0 where
  pub promise : ℕ
  pub reply : Option ℕ
  pub sent : Bool

-- `is_open` is `state == 'open'`. `pushed` counts the promises made; `called` are the promises of the
-- tasks whose `cb` was called, in order, and `fired` those that succeeded, the first one first.
pub record Channel : Type 0 where
  pub is_open : Bool
  pub tasks : List Task
  pub pushed : ℕ
  pub called : List ℕ
  pub fired : List ℕ

-- `new Channel(connection, channel)`
abbrev pub new_channel : Channel
new_channel = record { is_open = false; tasks = []; pushed = 0; called = []; fired = [] }

-- Behind `task.cb()`: a task with a reply is kept as sent, another one is spliced.
unfoldable pub keep_sent : Option ℕ → Task → List Task → List Task
keep_sent none t ts = ts
keep_sent (some m) t ts = record t { sent = true } ∷ ts

-- The loop of `_tasksFlush`: the tasks that are left, and the promises of those that it calls.
unfoldable pub flush_loop : List Task → List Task × List ℕ
unfolding keep_sent
flush_loop [] = ([], [])
flush_loop (t ∷ ts) =
    let (left, calls) = flush_loop ts in
    if t.sent then (t ∷ left, calls) else (keep_sent t.reply t left, t.promise ∷ calls)

-- `_tasksFlush()`
unfoldable pub tasks_flush : Channel → Channel
unfolding flush_loop
tasks_flush c =
    let (left, calls) = flush_loop c.tasks in
    if c.is_open then record c { tasks = left; called = c.called ++ calls } else c

-- `_taskPush(reply, cb)`
unfoldable pub task_push : Option ℕ → Channel → Channel
unfolding tasks_flush
task_push reply c = tasks_flush (record c {
  tasks = c.tasks ++ record { promise = c.pushed; reply = reply; sent = false } ∷ [];
  pushed = c.pushed + 1;
})

-- `task.reply == method`
unfoldable pub awaits : ℕ → Option ℕ → Bool
awaits method none = false
awaits method (some m) = m == method

unfoldable pub behind : Task → Option (Task × List Task) → Option (Task × List Task)
behind t none = none
behind t (some (u, us)) = some (u, t ∷ us)

-- The loop of `_handleTaskReply`: the first task that waits for the method, and the others.
unfoldable pub find_task : ℕ → List Task → Option (Task × List Task)
unfolding awaits behind
find_task method [] = none
find_task method (t ∷ ts) =
    let later = find_task method ts in
    if awaits method t.reply then some (t, ts) else behind t later

module _ (listeners : ℕ → List (Option ℕ)) where
  -- The pushes that the listeners of a promise make.
  unfoldable pub push_all : List (Option ℕ) → Channel → Channel
  unfolding task_push
  push_all [] c = c
  push_all (r ∷ rs) c = push_all rs (task_push r c)

  -- `_handleTaskReply(channel, method, args)`: `true` where a task was waiting. `emitSuccess` calls the
  -- listeners of the promise, which may push tasks.
  unfoldable pub handle_found : Option (Task × List Task) → Channel → Channel × Bool
  unfolding push_all
  handle_found none c = (c, false)
  handle_found (some (t, ts)) c = (
    tasks_flush
        (push_all (listeners t.promise) (record c { tasks = ts; fired = t.promise ∷ c.fired })),
    true,
  )

  unfoldable pub handle_task_reply : ℕ → Channel → Channel × Bool
  unfolding handle_found find_task
  handle_task_reply method c = handle_found (find_task method c.tasks) c

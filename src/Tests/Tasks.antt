-- ===== src/Tests/Tasks.antt =====
-- A channel and its tasks.
use node_amqp.Prelude.{
  ℕ, zero, suc, ◌≡◌, refl, true, false, ◌⊎◌, All, List, [], ◌∷◌, Option, none, some,
}
use node_amqp.Channel.Tasks.{
  Task, Channel, new_channel, tasks_flush, task_push, handle_task_reply, awaits,
}
use node_amqp.Channel.Complete.{IsKept, IsReachable-IsComplete}
use node_amqp.Channel.Order.{IsOrdered, IsReachable, start, after, pushes, opens, replies}
use node_amqp.Channel.Replies.{IsFirst, handle_task_reply-IsFirst}

-- The promise 0 has a listener that pushes a task without a reply.
abbrev listeners : ℕ → List (Option ℕ)
listeners zero = none ∷ []
listeners (suc n) = []

-- Two tasks that wait for the method 7, pushed before the channel opens.
abbrev opened : Channel
opened =
    tasks_flush (record (task_push (some 7) (task_push (some 7) new_channel)) { is_open = true })

abbrev replied : Channel
replied = (handle_task_reply listeners 7 opened).0

opened-IsReachable : IsReachable listeners opened
opened-IsReachable =
    after
      (after (after start (pushes (some 7) new_channel))
        (pushes (some 7) (task_push (some 7) new_channel)))
      (opens (task_push (some 7) (task_push (some 7) new_channel)))

replied-called : replied.called ≡ 0 ∷ 1 ∷ 2 ∷ []
unfolding handle_task_reply
replied-called = refl

IsReachable-IsComplete_example : IsOrdered replied × IsKept replied
IsReachable-IsComplete_example =
    IsReachable-IsComplete listeners (after opened-IsReachable (replies 7 opened))

handle_task_reply-IsFirst_example :
    ((handle_task_reply listeners 7 opened ≡ (opened, false))
      × All (λ (u : Task). awaits 7 u.reply ≡ false) opened.tasks)
    ⊎ ((t : Task) × (rest : List Task) × IsFirst 7 opened.tasks t rest
        × ((handle_task_reply listeners 7 opened).1 ≡ true)
        × ((handle_task_reply listeners 7 opened).0.fired ≡ t.promise ∷ opened.fired))
handle_task_reply-IsFirst_example = handle_task_reply-IsFirst listeners 7 opened

-- ===== src/Channel/Complete.antt =====
-- That the task queue of lib/channel.js calls every task that is not taken out before.
use node_amqp.Prelude.{
  ℕ, ◌+◌, ◌<◌, ◌≡◌, sym, ap, ◌∙◌, arith, Bool, true, false, Bool-cases, ◌⊎◌, inl, inr, List, [],
  ◌∷◌, ◌++◌, append_assoc, append-nil, Option, none, some, Option-cases, if◌then◌else◌, subst,
}
use node_amqp.Channel.Tasks.{
  Task, Channel, flush_loop, tasks_flush, task_push, awaits, find_task, push_all, handle_task_reply,
}
use node_amqp.Channel.Members.{In, In-left, In-right, In-either, In-suffix}
use node_amqp.Channel.Order.{
  unsent, flush_loop-unsent, unsent-append, IsOrdered, Step, pushes, replies, opens, leaves,
  IsReachable, start, after, IsReachable-IsOrdered,
}

-- Every promise that was made is that of a task that was called, or of one that waits to be called, or it
-- has succeeded, by a reply that came before its task was called.
abbrev pub IsKept : Channel → Type 0
IsKept c = (n : ℕ) → n < c.pushed → In n ((c.called ++ unsent c.tasks) ++ c.fired)

if-IsKept : (b : Bool) (c d : Channel) → IsKept c → IsKept d → IsKept (if b then c else d)
if-IsKept true c d h k = h
if-IsKept false c d h k = k

tasks_flush-IsKept : (c : Channel) → IsKept c → IsKept (tasks_flush c)
unfolding tasks_flush
tasks_flush-IsKept c h =
    let (same, none_left) = flush_loop-unsent c.tasks in
    let (left, calls) = flush_loop c.tasks in
    let moved : (c.called ++ calls) ++ unsent left ≡ c.called ++ unsent c.tasks =
      ap (◌++◌ (c.called ++ calls)) none_left
      ∙ (append-nil (c.called ++ calls) ∙ ap (◌++◌ c.called) same) in
    if-IsKept c.is_open _ c
      (λ n l. subst (λ (xs : List ℕ). In n (xs ++ c.fired)) (sym moved) (h n l)) h

newer : (n p : ℕ) → n < p + 1 → (n < p) ⊎ (n ≡ p)
newer n p l = ground arith

task_push-IsKept : (r : Option ℕ) (c : Channel) → IsKept c → IsKept (task_push r c)
unfolding task_push
task_push-IsKept r c h =
    tasks_flush-IsKept (record c { tasks = c.tasks ++ new ∷ []; pushed = c.pushed + 1 })
      (λ n l. In-suffix n _ _ c.fired (grown n) (wanted n l))
  where
    new : Task
    new = record { promise = c.pushed; reply = r; sent = false }

    -- With the new one behind.
    grown :
        (n : ℕ)
        → In n ((c.called ++ unsent c.tasks) ++ c.pushed ∷ [])
        → In n (c.called ++ unsent (c.tasks ++ new ∷ []))
    grown n = subst (In n) (
        append_assoc c.called (unsent c.tasks) (c.pushed ∷ [])
        ∙ ap (◌++◌ c.called) (sym (unsent-append c.tasks (new ∷ []))))

    wanted :
        (n : ℕ)
        → n < c.pushed + 1
        → In n (((c.called ++ unsent c.tasks) ++ c.pushed ∷ []) ++ c.fired)
    wanted n l = elim (newer n c.pushed l) [
      | inl k ↦
          In-suffix n _ _ c.fired (In-left n (c.called ++ unsent c.tasks) (c.pushed ∷ [])) (h n k)
      | inr e ↦
          In-left n _ c.fired (In-right n (c.called ++ unsent c.tasks) (c.pushed ∷ []) (inl e))
    ]

unsent-cases :
    (t : Task) (ts : List Task) (n : ℕ)
    → In n (unsent (t ∷ ts))
    → (n ≡ t.promise) ⊎ In n (unsent ts)
unsent-cases t ts n h = elim (Bool-cases t.sent) [ inl e ↦ inr (rw e at h) | inr e ↦ rw e at h ]

unsent-behind :
    (t : Task) (ts us : List Task) (n p : ℕ)
    → (In n (unsent ts) → (n ≡ p) ⊎ In n (unsent us))
    → In n (unsent (t ∷ ts))
    → (n ≡ p) ⊎ In n (unsent (t ∷ us))
unsent-behind t ts us n p f h = elim (Bool-cases t.sent) [
  | inl e ↦ rw e (f (rw e at h))
  | inr e ↦ elim (split (rw e at h)) [
    | inl same ↦ inr (rw e (inl same))
    | inr later ↦ elim (f later) [ inl same ↦ inl same | inr left ↦ inr (rw e (inr left)) ]
  ]
]
  where
    split : In n (t.promise ∷ unsent ts) → (n ≡ t.promise) ⊎ In n (unsent ts)
    split h = h

find_task-kept :
    (method : ℕ) (ts : List Task) (u : Task) (us : List Task) (n : ℕ)
    → find_task method ts ≡ some (u, us)
    → In n (unsent ts)
    → (n ≡ u.promise) ⊎ In n (unsent us)
unfolding find_task
find_task-kept method [] u us n e h = absurd h
find_task-kept method (t ∷ ts) u us n e h = elim (Bool-cases (awaits method t.reply)) [
  | inl waits ↦
      let here : ◌≡◌ {A = Option (Task × List Task)} (some (t, ts)) (some (u, us)) =
        rw waits at e in
      let task : t ≡ u = cc in
      let same : ts ≡ us = cc in
      subst (λ (v : Task). (n ≡ v.promise) ⊎ In n (unsent us)) task
        (subst (λ (l : List Task). (n ≡ t.promise) ⊎ In n (unsent l)) same (unsent-cases t ts n h))
  | inr no_match ↦ elim (Option-cases (find_task method ts)) [
    | inl missing ↦
        let nothing : ◌≡◌ {A = Option (Task × List Task)} none (some (u, us)) =
          rw (no_match, missing) at e in
        absurd (cc)
    | inr ((v, vs), found) ↦
        let there : ◌≡◌ {A = Option (Task × List Task)} (some (v, t ∷ vs)) (some (u, us)) =
          rw (no_match, found) at e in
        let task : v ≡ u = cc in
        let same : t ∷ vs ≡ us = cc in
        subst (λ (l : List Task). (n ≡ u.promise) ⊎ In n (unsent l)) same
          (unsent-behind t ts vs n u.promise
            (λ k.
              subst (λ (w : Task). (n ≡ w.promise) ⊎ In n (unsent vs)) task
                (find_task-kept method ts v vs n found k))
            h)
  ]
]

module _ (listeners : ℕ → List (Option ℕ)) where
  push_all-IsKept :
      (rs : List (Option ℕ)) (c : Channel) → IsKept c → IsKept (push_all listeners rs c)
  unfolding push_all
  push_all-IsKept [] c h = h
  push_all-IsKept (r ∷ rs) c h = push_all-IsKept rs (task_push r c) (task_push-IsKept r c h)

  spliced-IsKept :
      (method : ℕ) (c : Channel) (t : Task) (ts : List Task)
      → find_task method c.tasks ≡ some (t, ts)
      → IsKept c
      → IsKept (record c { tasks = ts; fired = t.promise ∷ c.fired })
  spliced-IsKept method c t ts found h n l =
      elim (In-either n (c.called ++ unsent c.tasks) c.fired (h n l)) [
        | inl waits ↦ elim (In-either n c.called (unsent c.tasks) waits) [
          | inl called ↦ In-left n _ (t.promise ∷ c.fired) (In-left n c.called (unsent ts) called)
          | inr new ↦ elim (find_task-kept method c.tasks t ts n found new) [
            | inl same ↦ In-right n (c.called ++ unsent ts) _ (inl same)
            | inr left ↦ In-left n _ (t.promise ∷ c.fired) (In-right n c.called (unsent ts) left)
          ]
        ]
        | inr fired ↦ In-right n (c.called ++ unsent ts) _ (inr fired)
      ]

  handle_task_reply-IsKept :
      (method : ℕ) (c : Channel) → IsKept c → IsKept (handle_task_reply listeners method c).0
  unfolding handle_task_reply
  handle_task_reply-IsKept method c h = elim (Option-cases (find_task method c.tasks)) [
    | inl missing ↦ rw missing h
    | inr ((t, ts), found) ↦
        let spliced : Channel = record c { tasks = ts; fired = t.promise ∷ c.fired } in
        rw found (
          tasks_flush-IsKept (push_all listeners (listeners t.promise) spliced)
            (push_all-IsKept (listeners t.promise) spliced (spliced-IsKept method c t ts found h)))
  ]

  Step-IsKept : {c d : Channel} → Step listeners c d → IsKept c → IsKept d
  Step-IsKept (pushes r c) h = task_push-IsKept r c h
  Step-IsKept (replies method c) h = handle_task_reply-IsKept method c h
  Step-IsKept (opens c) h = tasks_flush-IsKept (record c { is_open = true }) h
  Step-IsKept (leaves c) h = h

  IsReachable-IsKept : {c : Channel} → IsReachable listeners c → IsKept c
  IsReachable-IsKept start = λ n l. absurd (omega (arith, l))
  IsReachable-IsKept (after r s) = Step-IsKept s (IsReachable-IsKept r)

  -- However pushes, replies, openings and closings follow one another on a new channel, and whatever the
  -- listeners of a promise push: the tasks that were called were called in the order in which they were
  -- pushed, each at most once; those that wait to be called were pushed behind all of them, and while the
  -- channel is open there are none; and every task that was pushed was called, or waits to be called, or
  -- its promise has succeeded, which for a task that was never called a reply did before its turn.
  pub IsReachable-IsComplete : {c : Channel} → IsReachable listeners c → IsOrdered c × IsKept c
  IsReachable-IsComplete r = (IsReachable-IsOrdered listeners r, IsReachable-IsKept r)

-- ===== src/Channel/Order.antt =====
-- In which order the task queue of lib/channel.js calls its tasks.
use node_amqp.Prelude.{
  ℕ, suc, ◌+◌, ◌≤◌, ◌≡◌, refl, sym, ap, ◌∙◌, arith, true, false, Bool-cases, inl, inr, List, [],
  ◌∷◌, ◌++◌, append_assoc, append-nil, Option, none, some, Option-cases, if◌then◌else◌, subst,
}
use node_amqp.Channel.Tasks.{
  Task, Channel, new_channel, keep_sent, flush_loop, tasks_flush, task_push, awaits, find_task,
  push_all, handle_task_reply,
}

-- The promises of the tasks that were not called yet.
abbrev pub unsent : List Task → List ℕ
unsent [] = []
unsent (t ∷ ts) = if t.sent then unsent ts else t.promise ∷ unsent ts

-- The numbers rise from at least `lo` to less than `hi`.
abbrev pub IsAscending : ℕ → List ℕ → ℕ → Type 0
IsAscending lo [] hi = lo ≤ hi
IsAscending lo (x ∷ xs) hi = (lo ≤ x) × IsAscending (suc x) xs hi

IsAscending-last :
    (xs : List ℕ) (lo hi : ℕ) → IsAscending lo xs hi → IsAscending lo (xs ++ hi ∷ []) (hi + 1)
IsAscending-last [] lo hi h = (h, omega arith)
IsAscending-last (x ∷ xs) lo hi (l, h) = (l, IsAscending-last xs (suc x) hi h)

IsAscending-lower :
    (xs : List ℕ) (lo lo' hi : ℕ) → lo' ≤ lo → IsAscending lo xs hi → IsAscending lo' xs hi
IsAscending-lower [] lo lo' hi l h = omega arith
IsAscending-lower (x ∷ xs) lo lo' hi l (m, h) = (omega arith, h)

IsAscending-prefix :
    (cs xs ys : List ℕ) (hi : ℕ)
    → ((lo : ℕ) → IsAscending lo xs hi → IsAscending lo ys hi)
    → (lo : ℕ) → IsAscending lo (cs ++ xs) hi
    → IsAscending lo (cs ++ ys) hi
IsAscending-prefix [] xs ys hi f lo h = f lo h
IsAscending-prefix (c ∷ cs) xs ys hi f lo (l, h) = (l, IsAscending-prefix cs xs ys hi f (suc c) h)

unsent-keep_sent :
    (r : Option ℕ) (t : Task) (ts : List Task) → unsent (keep_sent r t ts) ≡ unsent ts
unfolding keep_sent
unsent-keep_sent none t ts = refl
unsent-keep_sent (some m) t ts = refl

-- `_tasksFlush` calls what is unsent, and leaves nothing unsent.
pub flush_loop-unsent :
    (ts : List Task)
    → (let (left, calls) = flush_loop ts in (calls ≡ unsent ts) × (unsent left ≡ []))
unfolding flush_loop
flush_loop-unsent [] = (refl, refl)
flush_loop-unsent (t ∷ ts) =
    let (same, none_left) = flush_loop-unsent ts in
    elim (Bool-cases t.sent) [
      | inl old ↦ rw old (same, none_left)
      | inr new ↦ simp new (ap (◌∷◌ t.promise) same, unsent-keep_sent t.reply t _ ∙ none_left)
    ]

pub unsent-append : (ts us : List Task) → unsent (ts ++ us) ≡ unsent ts ++ unsent us
unsent-append [] us = refl
unsent-append (t ∷ ts) us = elim (Bool-cases t.sent) [
  | inl old ↦ rw old (unsent-append ts us)
  | inr new ↦ rw new (ap (◌∷◌ t.promise) (unsent-append ts us))
]

-- Every task was called in the order of the pushes, and at most once, and those that wait to be called
-- come behind; and while the channel is open none waits.
pub record IsOrdered (c : Channel) : Type 0 where
  pub ascending : IsAscending 0 (c.called ++ unsent c.tasks) c.pushed
  pub flushed : c.is_open ≡ true → unsent c.tasks ≡ []

tasks_flush-IsOrdered :
    (c : Channel) → IsAscending 0 (c.called ++ unsent c.tasks) c.pushed → IsOrdered (tasks_flush c)
unfolding tasks_flush
tasks_flush-IsOrdered c h =
    let (same, none_left) = flush_loop-unsent c.tasks in
    let (left, calls) = flush_loop c.tasks in
    let moved : (c.called ++ calls) ++ unsent left ≡ c.called ++ unsent c.tasks =
      ap (◌++◌ (c.called ++ calls)) none_left
      ∙ (append-nil (c.called ++ calls) ∙ ap (◌++◌ c.called) same) in
    elim (Bool-cases c.is_open) [
      | inl open_now ↦ simp open_now (record {
        ascending = subst (λ (l : List ℕ). IsAscending 0 l c.pushed) (sym moved) h;
        flushed = λ e. none_left;
      })
      | inr shut ↦
          simp shut
            (record { ascending = h; flushed = λ e. let clash : true ≡ false = sym e ∙ shut in cc })
    ]

task_push-IsOrdered :
    (r : Option ℕ) (c : Channel)
    → IsAscending 0 (c.called ++ unsent c.tasks) c.pushed
    → IsOrdered (task_push r c)
unfolding task_push
task_push-IsOrdered r c h =
    let new : Task = record { promise = c.pushed; reply = r; sent = false } in
    let grown : Channel = record c { tasks = c.tasks ++ new ∷ []; pushed = c.pushed + 1 } in
    tasks_flush-IsOrdered grown (
      subst (λ (l : List ℕ). IsAscending 0 l (c.pushed + 1))
        (append_assoc c.called (unsent c.tasks) (c.pushed ∷ [])
          ∙ ap (◌++◌ c.called) (sym (unsent-append c.tasks (new ∷ []))))
        (IsAscending-last (c.called ++ unsent c.tasks) 0 c.pushed h))

unsent-tail :
    (t : Task) (ts : List Task) (lo hi : ℕ)
    → IsAscending lo (unsent (t ∷ ts)) hi
    → IsAscending lo (unsent ts) hi
unsent-tail t ts lo hi h = elim (Bool-cases t.sent) [
  | inl old ↦ rw old at h
  | inr new ↦
      let (l, rest) : IsAscending lo (t.promise ∷ unsent ts) hi = rw new at h in
      IsAscending-lower (unsent ts) (suc t.promise) lo hi (omega arith) rest
]

unsent-behind :
    (t : Task) (ts us : List Task) (hi : ℕ)
    → ((lo : ℕ) → IsAscending lo (unsent ts) hi → IsAscending lo (unsent us) hi)
    → (lo : ℕ) → IsAscending lo (unsent (t ∷ ts)) hi
    → IsAscending lo (unsent (t ∷ us)) hi
unsent-behind t ts us hi f lo h = elim (Bool-cases t.sent) [
  | inl old ↦ rw old (f lo (rw old at h))
  | inr new ↦
      let (l, rest) : IsAscending lo (t.promise ∷ unsent ts) hi = rw new at h in
      rw new (l, f (suc t.promise) rest)
]

-- The other tasks than the one found wait in the same order.
find_task-unsent :
    (method : ℕ) (ts : List Task) (u : Task) (us : List Task) (hi : ℕ)
    → find_task method ts ≡ some (u, us)
    → (lo : ℕ) → IsAscending lo (unsent ts) hi
    → IsAscending lo (unsent us) hi
unfolding find_task
find_task-unsent method [] u us hi e lo h = absurd (cc)
find_task-unsent method (t ∷ ts) u us hi e lo h = elim (Bool-cases (awaits method t.reply)) [
  | inl waits ↦
      let here : ◌≡◌ {A = Option (Task × List Task)} (some (t, ts)) (some (u, us)) =
        rw waits at e in
      let same : ts ≡ us = cc in
      subst (λ (l : List Task). IsAscending lo (unsent l) hi) same (unsent-tail t ts lo hi h)
  | inr no_match ↦ elim (Option-cases (find_task method ts)) [
    | inl missing ↦
        let nothing : ◌≡◌ {A = Option (Task × List Task)} none (some (u, us)) =
          rw (no_match, missing) at e in
        absurd (cc)
    | inr ((v, vs), found) ↦
        let there : ◌≡◌ {A = Option (Task × List Task)} (some (v, t ∷ vs)) (some (u, us)) =
          rw (no_match, found) at e in
        let same : t ∷ vs ≡ us = cc in
        subst (λ (l : List Task). IsAscending lo (unsent l) hi) same
          (unsent-behind t ts vs hi (find_task-unsent method ts v vs hi found) lo h)
  ]
]

module _ (listeners : ℕ → List (Option ℕ)) where
  push_all-IsAscending :
      (rs : List (Option ℕ)) (c : Channel)
      → IsAscending 0 (c.called ++ unsent c.tasks) c.pushed
      → (let d : Channel = push_all listeners rs c in
          IsAscending 0 (d.called ++ unsent d.tasks) d.pushed)
  unfolding push_all
  push_all-IsAscending [] c h = h
  push_all-IsAscending (r ∷ rs) c h =
      let pushed = task_push-IsOrdered r c h in
      push_all-IsAscending rs (task_push r c) pushed.ascending

  handle_task_reply-IsOrdered :
      (method : ℕ) (c : Channel) → IsOrdered c → IsOrdered (handle_task_reply listeners method c).0
  unfolding handle_task_reply
  handle_task_reply-IsOrdered method c h = elim (Option-cases (find_task method c.tasks)) [
    | inl missing ↦ rw missing h
    | inr ((t, ts), found) ↦
        let spliced : Channel = record c { tasks = ts; fired = t.promise ∷ c.fired } in
        rw found (
          tasks_flush-IsOrdered (push_all listeners (listeners t.promise) spliced) (
            push_all-IsAscending (listeners t.promise) spliced (
              IsAscending-prefix c.called (unsent c.tasks) (unsent ts) c.pushed
                (find_task-unsent method c.tasks t ts c.pushed found) 0 h.ascending)))
  ]

  -- What happens to a channel: a task is pushed, a reply comes, the channel opens and flushes, or leaves
  -- the state 'open'.
  pub data Step : Channel → Channel → Type 0 where
    pushes : (r : Option ℕ) (c : Channel) → Step c (task_push r c)
    replies : (method : ℕ) (c : Channel) → Step c (handle_task_reply listeners method c).0
    opens : (c : Channel) → Step c (tasks_flush (record c { is_open = true }))
    leaves : (c : Channel) → Step c (record c { is_open = false })

  pub data IsReachable : Channel → Type 0 where
    start : IsReachable new_channel
    after : {c d : Channel} → IsReachable c → Step c d → IsReachable d

  Step-IsOrdered : {c d : Channel} → Step c d → IsOrdered c → IsOrdered d
  Step-IsOrdered (pushes r c) h = task_push-IsOrdered r c h.ascending
  Step-IsOrdered (replies method c) h = handle_task_reply-IsOrdered method c h
  Step-IsOrdered (opens c) h = tasks_flush-IsOrdered (record c { is_open = true }) h.ascending
  Step-IsOrdered (leaves c) h = record { ascending = h.ascending; flushed = λ e. cc }

  -- On a channel that is reached from a new one the promises that were called and those that wait to be
  -- called rise, and while it is open none waits.
  pub IsReachable-IsOrdered : {c : Channel} → IsReachable c → IsOrdered c
  IsReachable-IsOrdered start = record { ascending = omega arith; flushed = λ e. refl }
  IsReachable-IsOrdered (after r s) = Step-IsOrdered s (IsReachable-IsOrdered r)

-- ===== src/Channel/Replies.antt =====
-- Which task a reply belongs to, in lib/channel.js, and how often a promise fires.
use node_amqp.Prelude.{
  ℕ, ◌+◌, ◌≡◌, refl, ap, ◌∙◌, true, false, Bool-cases, ◌⊎◌, inl, inr, List, [], ◌∷◌, ◌++◌, All,
  Option, none, some, Option-cases,
}
use node_amqp.Channel.Tasks.{
  Task, Channel, tasks_flush, task_push, awaits, behind, find_task, push_all, handle_task_reply,
}

-- The first task of `ts` that waits for `method` is `t`, and `rest` are the others.
pub record IsFirst (method : ℕ) (ts : List Task) (t : Task) (rest : List Task) : Type 0 where
  pub front : List Task
  pub back : List Task
  pub whole : ts ≡ front ++ t ∷ back
  pub others : rest ≡ front ++ back
  pub not_before : All (λ (u : Task). awaits method u.reply ≡ false) front
  pub waits : awaits method t.reply ≡ true

-- What the loop finds.
abbrev pub Found : ℕ → List Task → Option (Task × List Task) → Type 0
Found method ts none = All (λ (u : Task). awaits method u.reply ≡ false) ts
Found method ts (some (t, rest)) = IsFirst method ts t rest

behind-Found :
    (method : ℕ) (t : Task) (ts : List Task) (r : Option (Task × List Task))
    → awaits method t.reply ≡ false
    → Found method ts r
    → Found method (t ∷ ts) (behind t r)
unfolding behind
behind-Found method t ts none no_match h = (no_match, h)
behind-Found method t ts (some (u, us)) no_match h = record {
  front = t ∷ h.front;
  back = h.back;
  whole = ap (◌∷◌ t) h.whole;
  others = ap (◌∷◌ t) h.others;
  not_before = (no_match, h.not_before);
  waits = h.waits;
}

find_task-Found : (method : ℕ) (ts : List Task) → Found method ts (find_task method ts)
unfolding find_task
find_task-Found method [] = tt
find_task-Found method (t ∷ ts) = elim (Bool-cases (awaits method t.reply)) [
  | inl waits ↦ rw waits (record {
    front = [];
    back = ts;
    whole = refl;
    others = refl;
    not_before = tt;
    waits = waits;
  })
  | inr no_match ↦
      rw no_match
        (behind-Found method t ts (find_task method ts) no_match (find_task-Found method ts))
]

pub tasks_flush-fired : (c : Channel) → (tasks_flush c).fired ≡ c.fired
unfolding tasks_flush
tasks_flush-fired c = elim (Bool-cases c.is_open) [
  | inl open_now ↦ simp open_now refl
  | inr shut ↦ simp shut refl
]

module _ (listeners : ℕ → List (Option ℕ)) where
  push_all-fired : (rs : List (Option ℕ)) (c : Channel) → (push_all listeners rs c).fired ≡ c.fired
  unfolding push_all task_push
  push_all-fired [] c = refl
  push_all-fired (r ∷ rs) c =
      push_all-fired rs (task_push r c)
      ∙ tasks_flush-fired (record c {
        tasks = c.tasks ++ record { promise = c.pushed; reply = r; sent = false } ∷ [];
        pushed = c.pushed + 1;
      })

  -- A reply for which no task waits changes nothing, and `_handleTaskReply` returns false. Otherwise it
  -- returns true, and the first task that waits for the reply, sent or not, and no other, succeeds.
  pub handle_task_reply-IsFirst :
      (method : ℕ) (c : Channel)
      → ((handle_task_reply listeners method c ≡ (c, false))
          × All (λ (u : Task). awaits method u.reply ≡ false) c.tasks)
        ⊎ ((t : Task) × (rest : List Task) × IsFirst method c.tasks t rest
            × ((handle_task_reply listeners method c).1 ≡ true)
            × ((handle_task_reply listeners method c).0.fired ≡ t.promise ∷ c.fired))
  unfolding handle_task_reply
  handle_task_reply-IsFirst method c = elim (Option-cases (find_task method c.tasks)) [
    | inl missing ↦ inl (rw missing refl, rw missing at (find_task-Found method c.tasks))
    | inr ((t, ts), found) ↦
        let spliced : Channel = record c { tasks = ts; fired = t.promise ∷ c.fired } in
        inr (
          t,
          ts,
          rw found at (find_task-Found method c.tasks),
          rw found refl,
          rw found (
              tasks_flush-fired (push_all listeners (listeners t.promise) spliced)
              ∙ push_all-fired (listeners t.promise) spliced),
        )
  ]

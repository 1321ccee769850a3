-- ===== src/Channel/Waiting.antt =====
-- lib/channel.js: a reply for which a task waits is taken by a task.
use node_amqp.Prelude.{
  ℕ, ◌≡◌, refl, ap, ◌∙◌, ◌||◌, Bool, true, false, Bool-cases, inl, inr, List, [], ◌∷◌, ◌++◌, Option,
  none, some, if◌then◌else◌, ==-eq,
}
use node_amqp.Channel.Tasks.{
  Task, Channel, keep_sent, flush_loop, tasks_flush, task_push, awaits, behind, find_task,
  handle_found, handle_task_reply,
}

-- Whether a task waits for a method.
abbrev pub any_awaits : ℕ → List Task → Bool
any_awaits m [] = false
any_awaits m (t ∷ ts) = awaits m t.reply || any_awaits m ts

abbrev is_found : Option (Task × List Task) → Bool
is_found none = false
is_found (some (t, ts)) = true

behind-is_found : (t : Task) (o : Option (Task × List Task)) → is_found (behind t o) ≡ is_found o
unfolding behind
behind-is_found t none = refl
behind-is_found t (some (u, us)) = refl

find_task-any_awaits : (m : ℕ) (ts : List Task) → is_found (find_task m ts) ≡ any_awaits m ts
unfolding find_task
find_task-any_awaits m [] = refl
find_task-any_awaits m (t ∷ ts) = elim (Bool-cases (awaits m t.reply)) [
  | inl e ↦ rw e refl
  | inr e ↦ rw e (behind-is_found t (find_task m ts) ∙ find_task-any_awaits m ts)
]

kept-any_awaits :
    (m : ℕ) (r : Option ℕ) (t : Task) (left ts : List Task)
    → t.reply ≡ r
    → any_awaits m left ≡ any_awaits m ts
    → any_awaits m (keep_sent r t left) ≡ (awaits m t.reply || any_awaits m ts)
unfolding keep_sent awaits
kept-any_awaits m none t left ts e h = rw e h
kept-any_awaits m (some n) t left ts e h = ap (◌||◌ (awaits m t.reply)) h

if-any_awaits :
    (m : ℕ) (b : Bool) (x y : List Task × List ℕ) (c : Bool)
    → any_awaits m x.0 ≡ c
    → any_awaits m y.0 ≡ c
    → any_awaits m (if b then x else y).0 ≡ c
if-any_awaits m true x y c h k = h
if-any_awaits m false x y c h k = k

flush_loop-any_awaits : (m : ℕ) (ts : List Task) → any_awaits m (flush_loop ts).0 ≡ any_awaits m ts
unfolding flush_loop
flush_loop-any_awaits m [] = refl
flush_loop-any_awaits m (t ∷ ts) =
    if-any_awaits m t.sent _ _ _ (ap (◌||◌ (awaits m t.reply)) (flush_loop-any_awaits m ts))
      (kept-any_awaits m t.reply t _ ts refl (flush_loop-any_awaits m ts))

any_awaits-append :
    (m : ℕ) (ts : List Task) (t : Task) → t.reply ≡ some m → any_awaits m (ts ++ t ∷ []) ≡ true
unfolding awaits
any_awaits-append m [] t e = rw (e, ==-eq m m refl) refl
any_awaits-append m (u ∷ ts) t e = or-true (awaits m u.reply) _ (any_awaits-append m ts t e)
  where
    or-true : (a b : Bool) → b ≡ true → (a || b) ≡ true
    or-true true b h = refl
    or-true false b h = h

if-tasks :
    (m : ℕ) (b : Bool) (c d : Channel) (a : Bool)
    → any_awaits m c.tasks ≡ a
    → any_awaits m d.tasks ≡ a
    → any_awaits m (if b then c else d).tasks ≡ a
if-tasks m true c d a h k = h
if-tasks m false c d a h k = k

pub task_push-any_awaits : (m : ℕ) (c : Channel) → any_awaits m (task_push (some m) c).tasks ≡ true
unfolding task_push tasks_flush
task_push-any_awaits m c =
    let task : Task = record { promise = c.pushed; reply = some m; sent = false } in
    let waits = any_awaits-append m c.tasks task refl in
    if-tasks m c.is_open _ _ true (flush_loop-any_awaits m (c.tasks ++ task ∷ []) ∙ waits) waits

module _ (listeners : ℕ → List (Option ℕ)) where
  handle_found-is_found :
      (o : Option (Task × List Task)) (c : Channel) → (handle_found listeners o c).1 ≡ is_found o
  unfolding handle_found
  handle_found-is_found none c = refl
  handle_found-is_found (some (t, ts)) c = refl

  pub handle_task_reply-waits :
      (m : ℕ) (c : Channel)
      → any_awaits m c.tasks ≡ true
      → (handle_task_reply listeners m c).1 ≡ true
  unfolding handle_task_reply
  handle_task_reply-waits m c h =
      handle_found-is_found (find_task m c.tasks) c ∙ (find_task-any_awaits m c.tasks ∙ h)

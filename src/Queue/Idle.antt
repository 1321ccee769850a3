-- ===== src/Queue/Idle.antt =====
-- lib/queue.js: what `subscribeRaw` does on an open queue that has called all its tasks.
use node_amqp.Prelude.{
  ℕ, ◌+◌, ◌<◌, ◌≤◌, ◌≡◌, ◌≢◌, refl, ap, ◌∙◌, arith, ◌==◌, ==-eq, ==-ne, Bool, true, false, List, [],
  ◌∷◌, ◌++◌, length, drop, drop-append, All, Option, some, if◌then◌else◌,
}
use node_amqp.Definitions.Tables.{lookup}
use node_amqp.Channel.Tasks.{Task, Channel, flush_loop, tasks_flush, task_push}
use node_amqp.Channel.Order.{unsent, flush_loop-unsent, unsent-append}
use node_amqp.Queue.Subscriptions.{
  opening, consuming, closed, Consumer, forget, set_consuming, find_consumer, tags_of,
  close_consumers,
}
use node_amqp.Queue.State.{Queue, sends_consume, Job, consumes, put_out, consume_ok}
use node_amqp.Queue.Jobs.{flush, run_job, run_jobs, run_since, push, consume}
use node_amqp.Queue.Calls.{qos, changed, subscribe_raw}

abbrev pub IsAway : ℕ → List Consumer → Type 0
IsAway tag cs = All (λ c. c.tag ≢ tag) cs

abbrev pub AreDistinct : List Consumer → Type 0
AreDistinct [] = Unit
AreDistinct (c ∷ cs) = IsAway c.tag cs × AreDistinct cs

abbrev pub AreOld : ℕ → List Consumer → Type 0
AreOld n cs = All (λ c. c.tag < n) cs

pub forget-away : (tag : ℕ) (cs : List Consumer) → IsAway tag cs → forget tag cs ≡ cs
unfolding forget
forget-away tag [] h = refl
forget-away tag (c ∷ cs) (n, h) =
    rw (==-ne c.tag tag n) (ap (λ (ds : List Consumer). c ∷ ds) (forget-away tag cs h))

-- The consumer that is renewed goes first.
pub forget-here :
    (c : Consumer) (cs : List Consumer)
    → forget c.tag (record c { state = closed } ∷ cs) ≡ forget c.tag cs
unfolding forget
forget-here c cs = rw (==-eq c.tag c.tag refl)

pub find-here :
    (c : Consumer) (cs : List Consumer)
    → find_consumer c.tag (record c { state = closed } ∷ cs) ≡ some (record c { state = closed })
unfolding find_consumer
find-here c cs = rw (==-eq c.tag c.tag refl) refl

-- The new consumer goes last.
find-last :
    (c : Consumer) (cs : List Consumer)
    → IsAway c.tag cs
    → find_consumer c.tag (cs ++ c ∷ []) ≡ some c
unfolding find_consumer
find-last c [] h = rw (==-eq c.tag c.tag refl) refl
find-last c (d ∷ ds) (n, h) = rw (==-ne d.tag c.tag n) (find-last c ds h)

set_consuming-last :
    (c : Consumer) (cs : List Consumer)
    → IsAway c.tag cs
    → set_consuming c.tag (cs ++ c ∷ []) ≡ cs ++ record c { state = consuming } ∷ []
unfolding set_consuming
set_consuming-last c [] h = rw (==-eq c.tag c.tag refl) refl
set_consuming-last c (d ∷ ds) (n, h) =
    rw (==-ne d.tag c.tag n) (ap (λ (es : List Consumer). d ∷ es) (set_consuming-last c ds h))

pub IsAway-close : (tag : ℕ) (cs : List Consumer) → IsAway tag cs → IsAway tag (close_consumers cs)
unfolding close_consumers
IsAway-close tag [] h = tt
IsAway-close tag (c ∷ cs) (n, h) = (n, IsAway-close tag cs h)

pub tags_of-close : (cs : List Consumer) → tags_of (close_consumers cs) ≡ tags_of cs
unfolding close_consumers
tags_of-close [] = refl
tags_of-close (c ∷ cs) = ap (λ (ts : List ℕ). c.tag ∷ ts) (tags_of-close cs)

pub IsAway-append :
    (tag : ℕ) (cs ds : List Consumer) → IsAway tag cs → IsAway tag ds → IsAway tag (cs ++ ds)
IsAway-append tag [] ds h k = k
IsAway-append tag (c ∷ cs) ds (n, h) k = (n, IsAway-append tag cs ds h k)

-- The tags of the consumers that were renewed, between two bounds.
abbrev pub AreBetween : ℕ → ℕ → List Consumer → Type 0
AreBetween lo hi cs = All (λ c. (lo ≤ c.tag) × (c.tag < hi)) cs

pub IsAway-below :
    (lo hi tag : ℕ) (cs : List Consumer) → tag < lo → AreBetween lo hi cs → IsAway tag cs
IsAway-below lo hi tag [] l h = tt
IsAway-below lo hi tag (c ∷ cs) l ((m, k), h) =
    (λ e. absurd (omega (arith, l, m, e)), IsAway-below lo hi tag cs l h)

pub IsAway-above : (lo hi : ℕ) (cs : List Consumer) → AreBetween lo hi cs → IsAway hi cs
IsAway-above lo hi [] h = tt
IsAway-above lo hi (c ∷ cs) ((m, k), h) =
    (λ e. absurd (omega (arith, k, e)), IsAway-above lo hi cs h)

pub IsAway-old : (base hi : ℕ) (cs : List Consumer) → base ≤ hi → AreOld base cs → IsAway hi cs
IsAway-old base hi [] l h = tt
IsAway-old base hi (c ∷ cs) l (m, h) =
    (λ e. absurd (omega (arith, l, m, e)), IsAway-old base hi cs l h)

pub AreBetween-append :
    (lo hi : ℕ) (cs : List Consumer) (d : Consumer)
    → lo ≤ hi
    → d.tag ≡ hi
    → AreBetween lo hi cs
    → AreBetween lo (hi + 1) (cs ++ d ∷ [])
AreBetween-append lo hi [] d l e h = ((omega (arith, l, e), omega (arith, e)), tt)
AreBetween-append lo hi (c ∷ cs) d l e ((m, k), h) =
    ((m, omega (arith, k)), AreBetween-append lo hi cs d l e h)

-- A queue that is open and has called all its tasks.
pub record IsIdle (c : Channel) : Type 0 where
  pub open_now : c.is_open ≡ true
  pub all_called : unsent c.tasks ≡ []

if-true {ℓ} : {A : Type ℓ} (b : Bool) (x y : A) → b ≡ true → (if b then x else y) ≡ x
if-true b x y e = rw e refl

lookup-first :
    (n : ℕ) (job : Job) (jobs : List (ℕ × Job)) → lookup ◌==◌ n ((n, job) ∷ jobs) ≡ some job
unfolding lookup
lookup-first n job jobs = rw (==-eq n n refl) refl

-- On such a queue a push calls its own task and no other.
push-idle :
    (reply : ℕ) (job : Job) (q : Queue)
    → IsIdle q.tasks
    → (t : Channel) × (push reply job q
        ≡ run_job (some job) (record q { tasks = t; jobs = (q.tasks.pushed, job) ∷ q.jobs }))
      × IsIdle t
      × (t.pushed ≡ q.tasks.pushed + 1)
unfolding push run_since run_jobs task_push tasks_flush
push-idle reply job q h =
    let new : Task = record { promise = q.tasks.pushed; reply = some reply; sent = false } in
    let grown : Channel = record q.tasks {
      tasks = q.tasks.tasks ++ new ∷ [];
      pushed = q.tasks.pushed + 1;
    } in
    let (left, calls) = flush_loop grown.tasks in
    let (same, none_left) = flush_loop-unsent grown.tasks in
    let t : Channel = record grown { tasks = left; called = q.tasks.called ++ calls } in
    let ready : Queue = record q { tasks = t; jobs = (q.tasks.pushed, job) ∷ q.jobs } in
    let flushed : task_push (some reply) q.tasks ≡ t = if-true q.tasks.is_open t grown h.open_now in
    let one : calls ≡ q.tasks.pushed ∷ [] =
      same
      ∙ (unsent-append q.tasks.tasks (new ∷ [])
          ∙ ap (λ (l : List ℕ). l ++ q.tasks.pushed ∷ []) h.all_called) in
    (
      t,
      ap
            (λ (c : Channel).
              run_jobs (drop (length q.tasks.called) c.called)
                (record q { tasks = c; jobs = (q.tasks.pushed, job) ∷ q.jobs }))
            flushed
          ∙ (ap (λ (l : List ℕ). run_jobs l ready) (drop-append q.tasks.called calls ∙ one)
              ∙ ap (λ (o : Option Job). run_job o ready) (lookup-first q.tasks.pushed job q.jobs)),
      record { open_now = h.open_now; all_called = none_left },
      refl,
    )

-- What `subscribeRaw` leaves of an idle queue on which the new tag is not in use.
pub subscribe_raw-idle :
    (listener : ℕ) (prefetch old : Option ℕ) (q : Queue)
    → IsIdle q.tasks
    → IsAway q.next_tag q.consumers
    → (t : Channel) × (jobs : List (ℕ × Job)) × (subscribe_raw listener prefetch old q ≡ record q {
      tasks = t;
      jobs = jobs;
      consumers =
          q.consumers
          ++ record {
            tag = q.next_tag;
            listener = listener;
            prefetch = prefetch;
            state = consuming;
          }
            ∷ [];
      next_tag = q.next_tag + 1;
      output =
          (q.output ++ (qos prefetch ++ changed old q.next_tag)) ++ sends_consume q.next_tag ∷ [];
    })
      × IsIdle t
      × (t.pushed ≡ q.tasks.pushed + 1)
unfolding subscribe_raw put_out run_job consume
subscribe_raw-idle listener prefetch old q idle away =
    let new : Consumer = record {
      tag = q.next_tag;
      listener = listener;
      prefetch = prefetch;
      state = opening;
    } in
    let added : Queue = record q {
      consumers = q.consumers ++ new ∷ [];
      next_tag = q.next_tag + 1;
      output = q.output ++ (qos prefetch ++ changed old q.next_tag);
    } in
    let (t, pushed, idle_now, more) = push-idle consume_ok (consumes q.next_tag) added idle in
    let jobs : List (ℕ × Job) = (q.tasks.pushed, consumes q.next_tag) ∷ q.jobs in
    let ready : Queue = record added { tasks = t; jobs = jobs } in
    (
      t,
      jobs,
      pushed
          ∙ (ap (λ (o : Option Consumer). consume q.next_tag o ready)
                (find-last new q.consumers away)
              ∙ ap
                  (λ (cs : List Consumer). record (put_out (sends_consume q.next_tag ∷ []) ready) {
                    consumers = cs;
                  })
                  (set_consuming-last new q.consumers away)),
      idle_now,
      more,
    )

-- Flushing such a queue changes nothing.
pub flush-idle :
    (q : Queue)
    → IsIdle q.tasks
    → (t : Channel) × (flush q ≡ record q { tasks = t }) × (t.pushed ≡ q.tasks.pushed)
unfolding flush run_since run_jobs tasks_flush
flush-idle q h =
    let (left, calls) = flush_loop q.tasks.tasks in
    let (same, none_left) = flush_loop-unsent q.tasks.tasks in
    let t : Channel = record q.tasks { tasks = left; called = q.tasks.called ++ calls } in
    let flushed : tasks_flush q.tasks ≡ t = if-true q.tasks.is_open t q.tasks h.open_now in
    (
      t,
      ap
            (λ (c : Channel).
              run_jobs (drop (length q.tasks.called) c.called) (record q { tasks = c }))
            flushed
          ∙ ap (λ (l : List ℕ). run_jobs l (record q { tasks = t }))
              (drop-append q.tasks.called calls ∙ (same ∙ h.all_called)),
      refl,
    )

-- ===== src/Queue/Resubscribing.antt =====
-- lib/queue.js: every consumer of a queue is subscribed again once a reconnected queue is declared.
use node_amqp.Prelude.{
  ℕ, suc, ◌+◌, ◌≤◌, ◌≡◌, ◌≢◌, refl, sym, ap, ◌∙◌, arith, List, [], ◌∷◌, ◌++◌, append_assoc,
  append-nil, length, Option, some,
}
use node_amqp.Channel.Tasks.{Channel}
use node_amqp.Queue.Subscriptions.{consuming, closed, Consumer, forget, tags_of, close_consumers}
use node_amqp.Queue.State.{Queue, Output, sends_consume, Job}
use node_amqp.Queue.Calls.{
  qos, changed, resubscribe_closed, resubscribe_one, resubscribe_loop, resubscribe,
}
use node_amqp.Queue.Idle.{
  IsAway, AreDistinct, AreOld, AreBetween, IsIdle, forget-away, forget-here, find-here,
  IsAway-close, tags_of-close, IsAway-append, IsAway-below, IsAway-above, IsAway-old,
  AreBetween-append, subscribe_raw-idle,
}

-- The consumers with the tags from `n` on.
abbrev pub renewed : ℕ → List Consumer → List Consumer
renewed n [] = []
renewed n (c ∷ cs) = record c { tag = n; state = consuming } ∷ renewed (n + 1) cs

-- What is sent and emitted for them.
abbrev pub renewals : ℕ → List Consumer → List Output
renewals n [] = []
renewals n (c ∷ cs) =
    (qos c.prefetch ++ changed (some c.tag) n) ++ sends_consume n ∷ renewals (n + 1) cs

-- The loop, with the consumers `done` that it has renewed.
loop-renewed :
    (base : ℕ) (cs done : List Consumer) (q : Queue)
    → IsIdle q.tasks
    → AreOld base cs
    → AreDistinct cs
    → AreBetween base q.next_tag done
    → base ≤ q.next_tag
    → (t : Channel) × (jobs : List (ℕ × Job)) × (resubscribe_loop
          (tags_of cs)
          (record q { consumers = close_consumers cs ++ done })
        ≡ record q {
          tasks = t;
          jobs = jobs;
          consumers = done ++ renewed q.next_tag cs;
          next_tag = q.next_tag + length cs;
          output = q.output ++ renewals q.next_tag cs;
        })
      × (t.pushed ≡ q.tasks.pushed + length cs)
      × IsIdle t
unfolding resubscribe_loop resubscribe_one resubscribe_closed close_consumers
loop-renewed base [] done q idle old distinct between l = (
  q.tasks,
  q.jobs,
  λ i. record q {
    consumers = sym (append-nil done) i;
    next_tag = same q.next_tag i;
    output = sym (append-nil q.output) i;
  },
  same q.tasks.pushed,
  idle,
)
  where
    same : (n : ℕ) → n ≡ n + 0
    same n = omega arith
loop-renewed base (c ∷ cs) done q idle (o, old) (away, distinct) between l =
    let n = q.next_tag in
    let d : Consumer = record c { tag = n; state = consuming } in
    let rest = close_consumers cs ++ done in
    let this : Queue = record q { consumers = record c { state = closed } ∷ rest } in
    let elsewhere : c.tag ≢ n = λ e. absurd (omega (arith, e, o, l)) in
    let unused : IsAway n this.consumers = (
      elsewhere,
      IsAway-append n (close_consumers cs) done (IsAway-close n cs (IsAway-old base n cs l old))
          (IsAway-above base n done between),
    ) in
    let others : IsAway c.tag (rest ++ d ∷ []) =
      IsAway-append c.tag rest (d ∷ [])
        (IsAway-append c.tag (close_consumers cs) done (IsAway-close c.tag cs away)
          (IsAway-below base n c.tag done o between))
        (λ e. absurd (omega (arith, e, o, l)), tt) in
    let (t, jobs, again, idle_now, more) =
      subscribe_raw-idle c.listener c.prefetch (some c.tag) this idle unused in
    let next : Queue = record q {
      tasks = t;
      jobs = jobs;
      next_tag = n + 1;
      output = (q.output ++ (qos c.prefetch ++ changed (some c.tag) n)) ++ sends_consume n ∷ [];
    } in
    let left : forget c.tag ((record c { state = closed } ∷ rest) ++ d ∷ [])
        ≡ close_consumers cs ++ (done ++ d ∷ []) =
      forget-here c (rest ++ d ∷ [])
      ∙ (forget-away c.tag (rest ++ d ∷ []) others
          ∙ append_assoc (close_consumers cs) done (d ∷ [])) in
    let (u, later_jobs, renews, pushed, settled) =
      loop-renewed base cs (done ++ d ∷ []) next idle_now old distinct
        (AreBetween-append base n done d l refl between) (omega arith) in
    (
      u,
      later_jobs,
      ap (λ (f : Option Consumer). resubscribe_loop (tags_of cs) (resubscribe_one f this))
            (find-here c rest)
          ∙ (ap
                (λ (r : Queue).
                  resubscribe_loop (tags_of cs) (record r { consumers = forget c.tag r.consumers }))
                again
              ∙ (ap
                    (λ (ds : List Consumer).
                      resubscribe_loop (tags_of cs) (record next { consumers = ds }))
                    left
                  ∙ (renews ∙ (λ i. record q {
                    tasks = u;
                    jobs = later_jobs;
                    consumers = append_assoc done (d ∷ []) (renewed (n + 1) cs) i;
                    next_tag = later n (length cs) i;
                    output =
                        joined q.output (qos c.prefetch ++ changed (some c.tag) n) (sends_consume n)
                          (renewals (n + 1) cs) i;
                  })))),
      omega (arith, pushed, more),
      settled,
    )
  where
    later : (n k : ℕ) → n + 1 + k ≡ n + suc k
    later n k = omega arith

    joined :
        (o a : List Output) (s : Output) (r : List Output)
        → ((o ++ a) ++ s ∷ []) ++ r ≡ o ++ (a ++ s ∷ r)
    joined o a s r = append_assoc (o ++ a) (s ∷ []) r ∙ append_assoc o a (s ∷ r)

-- What the loop does on an idle queue whose consumers have distinct tags that were given before, and that
-- the connection has closed.
pub resubscribe-renewed :
    (q : Queue)
    → IsIdle q.tasks
    → AreOld q.next_tag q.consumers
    → AreDistinct q.consumers
    → (t : Channel) × (jobs : List (ℕ × Job)) × (resubscribe
          (record q { consumers = close_consumers q.consumers })
        ≡ record q {
          tasks = t;
          jobs = jobs;
          consumers = renewed q.next_tag q.consumers;
          next_tag = q.next_tag + length q.consumers;
          output = q.output ++ renewals q.next_tag q.consumers;
        })
      × (t.pushed ≡ q.tasks.pushed + length q.consumers)
      × IsIdle t
unfolding resubscribe
resubscribe-renewed q idle old distinct =
    let (t, jobs, renews, pushed, settled) =
      loop-renewed q.next_tag q.consumers [] q idle old distinct tt (omega arith) in
    (
      t,
      jobs,
      (λ i.
            resubscribe_loop (tags_of-close q.consumers i)
              (record q { consumers = sym (append-nil (close_consumers q.consumers)) i }))
          ∙ renews,
      pushed,
      settled,
    )

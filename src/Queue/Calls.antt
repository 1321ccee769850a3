-- ===== src/Queue/Calls.antt =====
-- lib/queue.js: the operations that push a task, and `subscribeRaw`.
use node_amqp.Prelude.{ℕ, ◌+◌, List, [], ◌∷◌, ◌++◌, Option, none, some}
use node_amqp.Queue.Bindings.{unbind}
use node_amqp.Queue.Subscriptions
use node_amqp.Queue.Subscriptions.{
  Consumer, ConsumerState, opening, consuming, forget, find_consumer, tags_of,
}
use node_amqp.Queue.State.{
  Queue, Output, sends_qos, emits_tag_change, throws, Incoming, queue_bind_ok, queue_unbind_ok,
  queue_delete_ok, other, number_of, consume_ok, Call, unsubscribe_from, unbind_from, bind_headers,
  unbind_headers, destroy, purge, flow, consumes, calls, put_out,
}
use node_amqp.Queue.Jobs.{push}

-- `queuePurgeOk`, `basicCancelOk` and `channelFlowOk` are methods that only tasks wait for.
abbrev pub reply_to : Call → Incoming
reply_to (unsubscribe_from tag) = other 1
reply_to (unbind_from exchange key) = queue_unbind_ok
reply_to (bind_headers exchange pairs) = queue_bind_ok
reply_to (unbind_headers exchange pairs) = queue_unbind_ok
reply_to (destroy if_unused if_empty) = queue_delete_ok
reply_to purge = other 0
reply_to (flow active) = other 2

-- What is done before the task is pushed.
unfoldable pub prepare : Call → Queue → Queue
prepare (unbind_from exchange key) q = record q { bindings = unbind exchange key q.bindings }
prepare _ q = q

unfoldable pub call : Call → Queue → Queue
unfolding prepare push
call c q = push (number_of (reply_to c)) (calls c) (prepare c q)

abbrev pub qos : Option ℕ → List Output
qos none = []
qos (some n) = sends_qos n ∷ []

abbrev pub changed : Option ℕ → ℕ → List Output
changed none tag = []
changed (some old) tag = emits_tag_change old tag ∷ []

-- `subscribeRaw(options, messageListener, oldConsumerTag)`
unfoldable pub subscribe_raw : ℕ → Option ℕ → Option ℕ → Queue → Queue
unfolding put_out push
subscribe_raw listener prefetch old q =
    let tag = q.next_tag in
    let added = record q {
      consumers =
          q.consumers
          ++ record { tag = tag; listener = listener; prefetch = prefetch; state = opening } ∷ [];
      next_tag = tag + 1;
    } in
    push consume_ok (consumes tag) (put_out (qos prefetch ++ changed old tag) added)

unfoldable pub resubscribe_closed : ConsumerState → Consumer → Queue → Queue
unfolding subscribe_raw forget
resubscribe_closed Subscriptions.closed c q =
    let again = subscribe_raw c.listener c.prefetch (some c.tag) q in
    record again { consumers = forget c.tag again.consumers }
resubscribe_closed _ c q = q

-- One round of the loop of `queueDeclareOk`, which reads the state that the consumer has then.
unfoldable pub resubscribe_one : Option Consumer → Queue → Queue
unfolding resubscribe_closed put_out
resubscribe_one none q = put_out (throws ∷ []) q
resubscribe_one (some c) q = resubscribe_closed c.state c q

-- The loop, over the tags that were there at first.
unfoldable pub resubscribe_loop : List ℕ → Queue → Queue
unfolding resubscribe_one
resubscribe_loop [] q = q
resubscribe_loop (tag ∷ tags) q =
    resubscribe_loop tags (resubscribe_one (find_consumer tag q.consumers) q)

unfoldable pub resubscribe : Queue → Queue
unfolding resubscribe_loop
resubscribe q = resubscribe_loop (tags_of q.consumers) q

-- ===== src/Queue/Handlers.antt =====
-- lib/queue.js: `_onMethod`.
use node_amqp.Prelude.{
  ℕ, ◌==◌, ◌&&◌, false, List, [], ◌∷◌, ◌++◌, length, Option, none, some, if◌then◌else◌,
}
use node_amqp.Definitions.Tables.{lookup}
use node_amqp.Channel.Tasks.{Task, find_task, handle_task_reply}
use node_amqp.Exchange.State.{declaring, opened, closing, closed}
use node_amqp.Queue.Bindings.{Keys, rebind}
use node_amqp.Queue.Messages.{on_deliver}
use node_amqp.Queue.State.{
  Queue, Output, sends_declare, sends_close_ok, sends_close, sends_bind, emits_method, emits_open,
  emits_error, emits_close, calls_open, calls_bind, registers, forgets, Incoming, channel_open_ok,
  queue_declare_ok, basic_consume_ok, queue_bind_ok, queue_unbind_ok, basic_qos_ok,
  confirm_select_ok, channel_close, channel_close_ok, queue_delete_ok, basic_cancel, basic_deliver,
  other, number_of, put_out, set_phase,
}
use node_amqp.Queue.Jobs.{flush, run_since, succeed}
use node_amqp.Queue.Calls.{resubscribe}

unfoldable pub call_open : Queue → Queue
unfolding put_out
call_open q =
    if q.open_callback then record (put_out (calls_open ∷ []) q) { open_callback = false } else q

-- `if (this.name.indexOf('amq.') == 0) this.name = ''`
unfoldable pub declared_name : List ℕ → List ℕ
declared_name (a ∷ m ∷ q ∷ d ∷ rest) =
    if a == b'a' && m == b'm' && q == b'q' && d == b'.' then [] else a ∷ m ∷ q ∷ d ∷ rest
declared_name name = name

-- The case `channelOpenOk`.
unfoldable pub on_open_ok : Queue → Queue
unfolding put_out set_phase call_open declared_name
on_open_ok q =
    if q.no_declare
    then put_out (emits_open ∷ []) (call_open (set_phase opened q))
    else set_phase declaring
        (put_out (sends_declare ∷ []) (record q { name = declared_name q.name }))

-- The methods that the bindings made again send.
unfoldable pub binds_of : List (ℕ × Keys) → List Output
binds_of [] = []
binds_of ((x, ks) ∷ bs) = keys_of x ks ++ binds_of bs
  where
    keys_of : ℕ → Keys → List Output
    keys_of x [] = []
    keys_of x ((key, n) ∷ ks) = sends_bind x key ∷ keys_of x ks

-- The case `queueDeclareOk`.
unfoldable pub on_declare_ok : List ℕ → Queue → Queue
unfolding put_out set_phase call_open binds_of resubscribe
on_declare_ok name q =
    let named = put_out (registers name ∷ []) (record (set_phase opened q) { name = name }) in
    let bound =
      put_out (binds_of q.bindings.bindings) (record named { bindings = rebind q.bindings }) in
    resubscribe (put_out (emits_open ∷ []) (call_open bound))

-- The case `queueBindOk`.
unfoldable pub on_bind_ok : Queue → Queue
unfolding put_out
on_bind_ok q =
    if q.bind_callback then put_out (calls_bind ∷ []) (record q { bind_callback = false }) else q

-- The `switch` of `_onMethod`; `none` is the exception for an unknown method.
unfoldable pub handle : Incoming → Queue → Option Queue
unfolding on_open_ok on_declare_ok on_bind_ok
handle channel_open_ok q = some (on_open_ok q)
handle (queue_declare_ok name) q = some (on_declare_ok name q)
handle basic_consume_ok q = some q
handle queue_bind_ok q = some (on_bind_ok q)
handle queue_unbind_ok q = some q
handle basic_qos_ok q = some q
handle confirm_select_ok q = some (record q { sequence = some 1 })
handle channel_close q = some (
    put_out (sends_close_ok ∷ forgets q.name ∷ emits_error ∷ emits_close ∷ []) (set_phase closed q))
handle channel_close_ok q = some (put_out (forgets q.name ∷ emits_close ∷ []) q)
handle queue_delete_ok q = some q
handle basic_cancel q = some (put_out (sends_close ∷ []) (set_phase closing q))
handle (basic_deliver delivery_tag consumer_tag) q =
    some (record q { deliveries = on_deliver delivery_tag consumer_tag q.deliveries })
handle (other n) q = none

abbrev pub flushed : Option Queue → Option Queue
flushed none = none
flushed (some q) = some (flush q)

-- The reply is taken by a task, before the listeners of its promise.
unfoldable pub take_reply : Option (Task × List Task) → Queue → Queue
unfolding succeed
take_reply none q = q
take_reply (some (t, ts)) q = succeed (lookup ◌==◌ t.promise q.jobs) q

module _ (listeners : ℕ → List (Option ℕ)) where
  -- `_onMethod(channel, method, args)`
  unfoldable pub on_method : Incoming → Queue → Option Queue
  unfolding handle flush take_reply run_since
  on_method m q =
      let f = put_out (emits_method (number_of m) ∷ []) q in
      let g = take_reply (find_task (number_of m) f.tasks.tasks) f in
      let (tasks, handled) = handle_task_reply listeners (number_of m) g.tasks in
      let taken = run_since (length g.tasks.called) (record g { tasks = tasks }) in
      let others = flushed (handle m f) in if handled then some taken else others

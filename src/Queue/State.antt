-- ===== src/Queue/State.antt =====
-- lib/queue.js: the state of a queue.
use node_amqp.Prelude.{ℕ, ◌+◌, Bool, List, ◌++◌, Option}
use node_amqp.Channel.Tasks.{Channel}
use node_amqp.Exchange.State.{Phase, is_open}
use node_amqp.Queue.Bindings.{Bindings}
use node_amqp.Queue.Subscriptions.{Consumer}
use node_amqp.Queue.Messages.{Deliveries}

-- The methods that `_onMethod` knows, with what it reads of their arguments, and the others.
pub data Incoming : Type 0 where
  channel_open_ok : Incoming
  queue_declare_ok : List ℕ → Incoming
  basic_consume_ok queue_bind_ok queue_unbind_ok basic_qos_ok confirm_select_ok : Incoming
  channel_close channel_close_ok queue_delete_ok basic_cancel : Incoming
  basic_deliver : ℕ → ℕ → Incoming
  other : ℕ → Incoming

-- The tasks of `subscribeRaw` wait for `basicConsumeOk`.
abbrev pub consume_ok : ℕ
consume_ok = 2

-- The numbers by which the task queue knows the methods.
abbrev pub number_of : Incoming → ℕ
number_of channel_open_ok = 0
number_of (queue_declare_ok name) = 1
number_of basic_consume_ok = consume_ok
number_of queue_bind_ok = 3
number_of queue_unbind_ok = 4
number_of basic_qos_ok = 5
number_of confirm_select_ok = 6
number_of channel_close = 7
number_of channel_close_ok = 8
number_of queue_delete_ok = 9
number_of basic_cancel = 10
number_of (basic_deliver delivery_tag consumer_tag) = 11
number_of (other n) = n + 12

-- What a queue does to others: `_sendMethod`, `emit`, its callbacks, `connection.queues[name] = this` and
-- `connection.queueClosed(name)`. `throws` is the exception of a task that finds no entry under its tag;
-- what stands behind it is not done.
pub data Output : Type 0 where
  sends_declare sends_close_ok sends_close : Output
  sends_bind sends_bind_headers sends_unbind_headers sends_unbind : ℕ → ℕ → Output
  sends_delete : Bool → Bool → Output
  sends_flow : Bool → Output
  sends_purge throws : Output
  sends_cancel sends_qos sends_consume : ℕ → Output
  emits_tag_change : ℕ → ℕ → Output
  emits_method : ℕ → Output
  emits_open emits_error emits_close calls_open calls_bind : Output
  registers forgets : List ℕ → Output

-- A call that pushes a task, with its arguments; exchanges, routing keys and pairs to match are written by
-- numbers.
pub data Call : Type 0 where
  unsubscribe_from : ℕ → Call
  unbind_from bind_headers unbind_headers : ℕ → ℕ → Call
  destroy : Bool → Bool → Call
  purge : Call
  flow : Bool → Call

-- What the `cb` of a task is: that of `subscribeRaw` with its tag, or that of a call.
pub data Job : Type 0 where
  consumes : ℕ → Job
  calls : Call → Job

-- `jobs` has the job of each promise, the last one first. Tags are made with `Math.random()`; the next one
-- is `next_tag`. `close_on_unsubscribe` is `options.closeChannelOnUnsubscribe`.
pub record Queue : Type 0 where
  pub name : List ℕ
  pub no_declare : Bool
  pub close_on_unsubscribe : Bool
  pub phase : Phase
  pub tasks : Channel
  pub jobs : List (ℕ × Job)
  pub bindings : Bindings
  pub consumers : List Consumer
  pub next_tag : ℕ
  pub deliveries : Deliveries
  pub open_callback : Bool
  pub bind_callback : Bool
  pub sequence : Option ℕ
  pub output : List Output

unfoldable pub put_out : List Output → Queue → Queue
put_out os q = record q { output = q.output ++ os }

-- `this.state = phase`, which the task queue looks at.
unfoldable pub set_phase : Phase → Queue → Queue
set_phase phase q = record q { phase = phase; tasks = record q.tasks { is_open = is_open phase } }

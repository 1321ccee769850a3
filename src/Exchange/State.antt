-- ===== src/Exchange/State.antt =====
-- lib/exchange.js: the state of an exchange, `_onMethod` and `publish`.
use node_amqp.Prelude.{
  ℕ, ◌+◌, ◌==◌, Bool, true, false, ◌||◌, ◌&&◌, not, List, [], ◌∷◌, ◌++◌, Option, none, some,
  if◌then◌else◌,
}
use node_amqp.Channel.Tasks.{Channel, new_channel, tasks_flush, task_push, handle_task_reply}
use node_amqp.Exchange.Confirms.{
  Confirms, new_confirms, on_error, low_word, basic_ack, publish_confirms,
}

-- `state`
pub data Phase : Type 0 where
  unopened declaring opened closing closed : Phase

-- The methods that `_onMethod` knows, with what it reads of their arguments, and the others.
pub data Incoming : Type 0 where
  channel_open_ok exchange_declare_ok confirm_select_ok channel_close channel_close_ok : Incoming
  basic_return exchange_bind_ok exchange_unbind_ok : Incoming
  basic_ack_of : List ℕ → Bool → Incoming
  other : ℕ → Incoming

-- `methods.exchangeDeclare` and so on.
pub data Outgoing : Type 0 where
  exchange_declare confirm_select close_ok : Outgoing
  exchange_bind exchange_bind_headers : ℕ → ℕ → Outgoing
  exchange_unbind : ℕ → ℕ → Outgoing
  exchange_delete : Bool → Outgoing

pub data Signal : Type 0 where
  method_name : ℕ → Signal
  open_event close_event error_event ack_event return_event : Signal

-- What an exchange does to others: `_sendMethod`, `emit`, its callbacks, `connection.exchangeClosed`.
pub data Output : Type 0 where
  sends : Outgoing → Output
  emits : Signal → Output
  calls_open calls_bind calls_unbind forgets : Output

-- `open_callback` and so on tell whether the callback is set.
pub record Exchange : Type 0 where
  pub name : List ℕ
  pub no_declare : Bool
  pub phase : Phase
  pub tasks : Channel
  pub confirms : Confirms
  pub open_callback : Bool
  pub bind_callback : Bool
  pub unbind_callback : Bool
  pub output : List Output

abbrev pub is_open : Phase → Bool
is_open opened = true
is_open _ = false

-- `new Exchange(connection, channel, name, options, openCallback)`
abbrev pub new_exchange : List ℕ → Bool → Bool → Bool → Exchange
new_exchange name confirm no_declare open_callback = record {
  name = name;
  no_declare = no_declare;
  phase = unopened;
  tasks = new_channel;
  confirms = new_confirms confirm;
  open_callback = open_callback;
  bind_callback = false;
  unbind_callback = false;
  output = [];
}

abbrev starts_amq : List ℕ → Bool
starts_amq (a ∷ m ∷ q ∷ d ∷ _) = a == b'a' && m == b'm' && q == b'q' && d == b'.'
starts_amq _ = false

contains_amq : List ℕ → Bool
contains_amq [] = false
contains_amq (x ∷ xs) = let rest = contains_amq xs in starts_amq (x ∷ xs) || rest

-- `/^$|(amq\.)/.test(name)`
unfoldable pub is_pre_baked : List ℕ → Bool
unfolding contains_amq
is_pre_baked [] = true
is_pre_baked (x ∷ xs) = contains_amq (x ∷ xs)

unfoldable pub put_out : Output → Exchange → Exchange
put_out o e = record e { output = e.output ++ o ∷ [] }

-- `this.state = phase`, which the task queue looks at.
unfoldable pub set_phase : Phase → Exchange → Exchange
set_phase phase e = record e { phase = phase; tasks = record e.tasks { is_open = is_open phase } }

unfoldable pub flush : Exchange → Exchange
flush e = record e { tasks = tasks_flush e.tasks }

-- `if (this._openCallback) { ... }`
unfoldable pub call_open : Exchange → Exchange
unfolding put_out
call_open e = if e.open_callback then record (put_out calls_open e) { open_callback = false } else e

-- `this._sequence = null` or `1`
unfoldable pub set_sequence : Option ℕ → Exchange → Exchange
set_sequence s e = record e { confirms = record e.confirms { sequence = s } }

-- The error handlers are added once.
unfoldable pub add_handler : Exchange → Exchange
add_handler e = record e { confirms = record e.confirms { handler_added = true } }

-- `_confirmSelect(channel)`, or the state 'open' with its callback first.
unfoldable pub opens_at_once : Exchange → Exchange
unfolding put_out set_phase call_open flush
opens_at_once e =
    if e.confirms.confirm
    then put_out (sends confirm_select) e
    else flush (put_out (emits open_event) (call_open (set_phase opened e)))

-- The case `channelOpenOk`.
unfoldable pub on_open_ok : Exchange → Exchange
unfolding set_sequence add_handler opens_at_once
on_open_ok e =
    let f = add_handler (set_sequence none e) in
    if is_pre_baked e.name || e.no_declare
    then opens_at_once f
    else flush (set_phase declaring (put_out (sends exchange_declare) f))

-- The state 'open', with its event first.
unfoldable pub opens : Exchange → Exchange
unfolding put_out set_phase call_open
opens e = call_open (put_out (emits open_event) (set_phase opened e))

-- The case `exchangeDeclareOk`.
unfoldable pub on_declare_ok : Exchange → Exchange
unfolding opens
on_declare_ok e = flush (if e.confirms.confirm then put_out (sends confirm_select) e else opens e)

-- The event 'error', which the error handler listens to.
unfoldable pub emit_error : Exchange → Exchange
unfolding put_out
emit_error e = record (put_out (emits error_event) e) { confirms = on_error e.confirms }

-- The case `channelClose`.
unfoldable pub on_close : Exchange → Exchange
unfolding set_phase emit_error
on_close e = flush (
    put_out (emits close_event)
      (emit_error (put_out forgets (put_out (sends close_ok) (set_phase closed e)))))

unfoldable pub on_bind_ok : Exchange → Exchange
unfolding put_out
on_bind_ok e =
    if e.bind_callback then put_out calls_bind (record e { bind_callback = false }) else e

unfoldable pub on_unbind_ok : Exchange → Exchange
unfolding put_out
on_unbind_ok e =
    if e.unbind_callback then put_out calls_unbind (record e { unbind_callback = false }) else e

-- The `switch` of `_onMethod`; `none` is the exception for an unknown method.
unfoldable pub handle : Incoming → Exchange → Option Exchange
unfolding on_open_ok on_declare_ok on_close on_bind_ok on_unbind_ok
handle channel_open_ok e = some (on_open_ok e)
handle exchange_declare_ok e = some (on_declare_ok e)
handle confirm_select_ok e = some (flush (opens (set_sequence (some 1) e)))
handle channel_close e = some (on_close e)
handle channel_close_ok e = some (flush (put_out (emits close_event) (put_out forgets e)))
handle (basic_ack_of tag multiple) e =
    let f = put_out (emits ack_event) e in
    some (flush (record f { confirms = basic_ack (low_word tag) multiple f.confirms }))
handle basic_return e = some (flush (put_out (emits return_event) e))
handle exchange_bind_ok e = some (flush (on_bind_ok e))
handle exchange_unbind_ok e = some (flush (on_unbind_ok e))
handle (other n) e = none

-- The numbers by which the task queue knows the methods.
abbrev pub number_of : Incoming → ℕ
number_of channel_open_ok = 0
number_of exchange_declare_ok = 1
number_of confirm_select_ok = 2
number_of channel_close = 3
number_of channel_close_ok = 4
number_of basic_return = 5
number_of exchange_bind_ok = 6
number_of exchange_unbind_ok = 7
number_of (basic_ack_of tag multiple) = 8
number_of (other n) = n + 9

module _ (listeners : ℕ → List (Option ℕ)) where
  -- `_onMethod(channel, method, args)`
  unfoldable pub on_method : Incoming → Exchange → Option Exchange
  unfolding handle
  on_method m e =
      let f = put_out (emits (method_name (number_of m))) e in
      let (tasks, handled) = handle_task_reply listeners (number_of m) f.tasks in
      let others = handle m f in if handled then some (record f { tasks = tasks }) else others

-- `publish(routingKey, data, options, callback)`; the task sends the message.
unfoldable pub publish : Bool → Exchange → Exchange
publish blocked e =
    let confirms = publish_confirms blocked (is_open e.phase) e.confirms in
    let ready =
      not (e.confirms.confirm && elim e.confirms.sequence [ none ↦ true | some s ↦ false ]) in
    if not blocked && (is_open e.phase && ready)
    then record e { tasks = task_push none e.tasks; confirms = confirms }
    else record e { confirms = confirms }

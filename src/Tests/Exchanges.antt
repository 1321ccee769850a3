-- ===== src/Tests/Exchanges.antt =====
-- Exchanges with publisher confirms.
use node_amqp.Prelude.{
  ℕ, ◌≡◌, refl, ltb, Bool, true, false, List, [], ◌∷◌, Option, none, some, pos, ◌+ℤ◌,
}
use node_amqp.Channel.Tasks.{Channel, handle_task_reply}
use node_amqp.Exchange.Confirms.{on_error, publish_confirms, basic_ack, low_word}
use node_amqp.Exchange.State.{
  Exchange, new_exchange, Incoming, channel_open_ok, exchange_declare_ok, confirm_select_ok,
  basic_ack_of, other, on_method, publish, is_pre_baked, Output, emits, method_name, calls_bind,
  sends, forgets, exchange_delete, exchange_bind_ok,
}
use node_amqp.Exchange.Sources.{
  Bound, bind, bind_headers, unbind_task, destroy, destroy_task, cleanup,
}
use node_amqp.Definitions.Tables.{lookup, insert}
use node_amqp.Exchange.Counts.{one_if, calls_of}
use node_amqp.Exchange.Runs.{
  publishes, receives, IsReachable, starts, steps, on_error-calls_of, IsReachable-IsAccounted,
}
use node_amqp.Exchange.Accounts.{IsAccounted}

abbrev quiet : ℕ → List (Option ℕ)
quiet n = []

abbrev receive : Incoming → Option Exchange → Option Exchange
receive m none = none
receive m (some e) = on_method quiet m e

abbrev publish_to : Option Exchange → Option Exchange
publish_to none = none
publish_to (some e) = some (publish false e)

abbrev tag : ℕ → List ℕ
tag n = 0 ∷ 0 ∷ 0 ∷ 0 ∷ 0 ∷ 0 ∷ 0 ∷ n ∷ []

abbrev fresh : Exchange
fresh = new_exchange (7 ∷ []) true false true

abbrev ready : Option Exchange
ready =
    receive confirm_select_ok (receive exchange_declare_ok (receive channel_open_ok (some fresh)))

abbrev resolved_of : Option Exchange → List (ℕ × Bool)
resolved_of none = []
resolved_of (some e) = e.confirms.resolved

abbrev waiting_in : Option Exchange → List (ℕ × ℕ)
waiting_in none = []
waiting_in (some e) = e.confirms.un_acked

abbrev three : Option Exchange
three = publish_to (publish_to (publish_to ready))

-- `multiple` acknowledges what has a lower key, too.
two_acked : resolved_of (receive (basic_ack_of (tag 2) true) three) ≡ (0, false) ∷ (1, false) ∷ []
unfolding on_method publish handle_task_reply is_pre_baked publish_confirms basic_ack low_word
two_acked = refl

third_waits : waiting_in (receive (basic_ack_of (tag 2) true) three) ≡ (3, 2) ∷ []
unfolding on_method publish handle_task_reply is_pre_baked publish_confirms basic_ack low_word
third_waits = refl

-- A negative acknowledgement is a method that the exchange does not know.
nack_throws : receive (other 3) three ≡ none
unfolding on_method publish handle_task_reply is_pre_baked publish_confirms basic_ack low_word
nack_throws = refl

-- Where the channel is opened again without an error, the keys start again, and the call that waited
-- under the first key is lost.
lost :
    waiting_in (
      publish_to (
        receive confirm_select_ok
          (receive exchange_declare_ok (receive channel_open_ok (publish_to ready)))))
    ≡ (1, 1) ∷ []
unfolding on_method publish handle_task_reply is_pre_baked publish_confirms basic_ack low_word
lost = refl

never_called :
    resolved_of (
      publish_to (
        receive confirm_select_ok
          (receive exchange_declare_ok (receive channel_open_ok (publish_to ready)))))
    ≡ []
unfolding on_method publish handle_task_reply is_pre_baked publish_confirms basic_ack low_word
never_called = refl

-- The same run in steps.
abbrev or_fresh : Option Exchange → Exchange
or_fresh none = fresh
or_fresh (some e) = e

abbrev asked : Exchange
asked = or_fresh (receive channel_open_ok (some fresh))

abbrev declared : Exchange
declared = or_fresh (receive exchange_declare_ok (some asked))

abbrev confirming : Exchange
confirming = or_fresh (receive confirm_select_ok (some declared))

one_waits-IsReachable : IsReachable quiet (publish false confirming)
unfolding on_method publish handle_task_reply is_pre_baked publish_confirms basic_ack low_word
one_waits-IsReachable =
    steps confirming _
      (steps declared _
        (steps asked _
          (steps fresh _ (starts (7 ∷ []) false true)
            (receives channel_open_ok fresh asked tt refl))
          (receives exchange_declare_ok asked declared tt refl))
        (receives confirm_select_ok declared confirming refl refl))
      (publishes false confirming)

IsReachable-IsAccounted_example : IsAccounted (publish false confirming).confirms
IsReachable-IsAccounted_example =
    IsReachable-IsAccounted quiet (publish false confirming) one_waits-IsReachable

on_error-calls_of_example :
    calls_of 0 (on_error (publish false confirming).confirms).resolved
    ≡ one_if (ltb 0 (on_error (publish false confirming).confirms).published)
on_error-calls_of_example =
    on_error-calls_of quiet (publish false confirming) one_waits-IsReachable 0

error_called : (on_error (publish false confirming).confirms).resolved ≡ (0, true) ∷ []
unfolding on_method publish handle_task_reply is_pre_baked publish_confirms basic_ack low_word
    on_error
error_called = refl

-- The callback of `bind`, which pushes no task, is called.
abbrev sources : Bound
sources = record { exchange = confirming; source_exchanges = []; exchange_binds = (5, pos 0) ∷ [] }

abbrev outputs_of : Option Exchange → List Output
outputs_of none = []
outputs_of (some e) = e.output

answered :
    outputs_of
      (on_method quiet exchange_bind_ok (record (bind 5 8 true sources).exchange { output = [] }))
    ≡ emits (method_name 6) ∷ calls_bind ∷ []
unfolding on_method handle_task_reply bind is_pre_baked
answered = refl

held : (bind_headers 5 8 true sources).exchange_binds ≡ (5, pos 1) ∷ []
unfolding bind_headers insert ◌+ℤ◌ lookup
held = refl

let_go_again : (unbind_task 5 8 (bind 5 8 true sources)).exchange_binds ≡ (5, pos 0) ∷ []
unfolding unbind_task bind insert ◌+ℤ◌ lookup
let_go_again = refl

cleaned :
    (cleanup (pos 0) (destroy_task true (destroy (record fresh { output = [] })))).output
    ≡ forgets ∷ sends (exchange_delete true) ∷ forgets ∷ []
unfolding cleanup destroy_task destroy
cleaned = refl

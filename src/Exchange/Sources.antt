-- ===== src/Exchange/Sources.antt =====
-- lib/exchange.js: `bind`, `bind_headers` and `unbind` between exchanges, `destroy` and `cleanup`.
use node_amqp.Prelude.{
  ℕ, zero, ◌==◌, ◌||◌, Bool, List, [], ◌∷◌, Option, none, some, if◌then◌else◌, ℤ, pos, negsuc, ◌+ℤ◌,
}
use node_amqp.Definitions.Tables.{lookup, insert}
use node_amqp.Channel.Tasks.{task_push}
use node_amqp.Exchange.State.{
  Exchange, sends, forgets, exchange_bind, exchange_bind_headers, exchange_unbind, exchange_delete,
  exchange_unbind_ok, other, number_of, put_out,
}

-- An exchange, the keys of its `sourceExchanges`, and `exchangeBinds` of the exchanges that the connection
-- has. Exchanges, routing keys and pairs to match are written by numbers.
pub record Bound : Type 0 where
  pub exchange : Exchange
  pub source_exchanges : List ℕ
  pub exchange_binds : List (ℕ × ℤ)

unfoldable pub without : ℕ → List ℕ → List ℕ
without x [] = []
without x (y ∷ ys) = let rest = without x ys in if y == x then rest else y ∷ rest

-- The source is held, or let go, where the connection has it.
unfoldable pub hold : ℕ → Option ℤ → Bound → Bound
unfolding without
hold source none b = b
hold source (some n) b = record b {
  source_exchanges = source ∷ without source b.source_exchanges;
  exchange_binds = insert ◌==◌ source (n +ℤ pos 1) b.exchange_binds;
}

unfoldable pub let_go : ℕ → Option ℤ → Bound → Bound
unfolding without
let_go source none b = b
let_go source (some n) b = record b {
  source_exchanges = without source b.source_exchanges;
  exchange_binds = insert ◌==◌ source (n +ℤ negsuc 0) b.exchange_binds;
}

-- `bind(exchange, routingKey, callback)`
unfoldable pub bind : ℕ → ℕ → Bool → Bound → Bound
unfolding hold put_out
bind source key callback b =
    let held = hold source (lookup ◌==◌ source b.exchange_binds) b in
    record held {
      exchange =
          put_out (sends (exchange_bind source key))
            (record b.exchange { bind_callback = callback || b.exchange.bind_callback });
    }

-- `bind_headers(exchange, routing, callback)`
unfoldable pub bind_headers : ℕ → ℕ → Bool → Bound → Bound
unfolding hold put_out
bind_headers source routing callback b =
    let held = hold source (lookup ◌==◌ source b.exchange_binds) b in
    record held {
      exchange =
          put_out (sends (exchange_bind_headers source routing))
            (record b.exchange { bind_callback = callback || b.exchange.bind_callback });
    }

-- `unbind(exchange, routingKey, callback)`, and what its task does once it is called.
unfoldable pub unbind : Bool → Exchange → Exchange
unbind callback e = record e {
  unbind_callback = callback || e.unbind_callback;
  tasks = task_push (some (number_of exchange_unbind_ok)) e.tasks;
}

unfoldable pub unbind_task : ℕ → ℕ → Bound → Bound
unfolding let_go put_out
unbind_task source key b =
    let left = let_go source (lookup ◌==◌ source b.exchange_binds) b in
    record left { exchange = put_out (sends (exchange_unbind source key)) b.exchange }

-- `exchangeDeleteOk`, a method that only a task waits for.
abbrev delete_ok : ℕ
delete_ok = number_of (other 0)

-- `destroy(ifUnused)`, and what its task does once it is called.
unfoldable pub destroy : Exchange → Exchange
destroy e = record e { tasks = task_push (some delete_ok) e.tasks }

unfoldable pub destroy_task : Bool → Exchange → Exchange
unfolding put_out
destroy_task if_unused e = put_out (sends (exchange_delete if_unused)) (put_out forgets e)

-- `cleanup()`, with `binds`.
unfoldable pub cleanup : ℤ → Exchange → Exchange
unfolding put_out
cleanup (pos zero) e = put_out forgets e
cleanup _ e = e

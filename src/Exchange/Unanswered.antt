-- ===== src/Exchange/Unanswered.antt =====
-- lib/exchange.js: who hears of the reply to `unbind`, with the task queue of lib/channel.js.
use node_amqp.Channel.Tasks.{Channel}
use node_amqp.Exchange.State.{Exchange}

-- ===== src/Definitions/Protocol.antt =====
-- lib/amqp-definitions-0-9-1.js, `exports.classes`: the protocol's classes in order.
use node_amqp.Prelude.{List, [], ◌∷◌}
use node_amqp.Definitions.Info.{ClassInfo}
use node_amqp.Definitions.Connection.{connection_class}
use node_amqp.Definitions.Channel.{channel_class, tx_class, confirm_class}
use node_amqp.Definitions.Exchange.{exchange_class}
use node_amqp.Definitions.Queue.{queue_class}
use node_amqp.Definitions.Basic.{basic_class}

abbrev pub protocol_classes : List ClassInfo
protocol_classes =
    connection_class ∷ channel_class ∷ exchange_class ∷ queue_class ∷ basic_class ∷ tx_class
    ∷ confirm_class ∷ []

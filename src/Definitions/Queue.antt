-- ===== src/Definitions/Queue.antt =====
-- lib/amqp-definitions-0-9-1.js: the class queue.
use node_amqp.Prelude.{[], ◌∷◌}
use node_amqp.Definitions.Info.{ClassInfo, field, method, bit, short, long, shortstr, table}

abbrev pub queue_class : ClassInfo
queue_class = record {
  name = "queue";
  index = 50;
  fields = [];
  methods =
      method "declare" 10 (
        field "reserved1" short
        ∷ field "queue" shortstr
        ∷ field "passive" bit
        ∷ field "durable" bit
        ∷ field "exclusive" bit
        ∷ field "autoDelete" bit
        ∷ field "noWait" bit
        ∷ field "arguments" table
        ∷ [])
      ∷ method "declareOk" 11
          (field "queue" shortstr ∷ field "messageCount" long ∷ field "consumerCount" long ∷ [])
      ∷ method "bind" 20 (
          field "reserved1" short
          ∷ field "queue" shortstr
          ∷ field "exchange" shortstr
          ∷ field "routingKey" shortstr
          ∷ field "noWait" bit
          ∷ field "arguments" table
          ∷ [])
      ∷ method "bindOk" 21 ([])
      ∷ method "unbind" 50 (
          field "reserved1" short
          ∷ field "queue" shortstr
          ∷ field "exchange" shortstr
          ∷ field "routingKey" shortstr
          ∷ field "arguments" table
          ∷ [])
      ∷ method "unbindOk" 51 ([])
      ∷ method "purge" 30
          (field "reserved1" short ∷ field "queue" shortstr ∷ field "noWait" bit ∷ [])
      ∷ method "purgeOk" 31 (field "messageCount" long ∷ [])
      ∷ method "delete" 40 (
          field "reserved1" short
          ∷ field "queue" shortstr
          ∷ field "ifUnused" bit
          ∷ field "ifEmpty" bit
          ∷ field "noWait" bit
          ∷ [])
      ∷ method "deleteOk" 41 (field "messageCount" long ∷ [])
      ∷ [];
}

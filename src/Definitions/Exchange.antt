-- ===== src/Definitions/Exchange.antt =====
-- lib/amqp-definitions-0-9-1.js: the class exchange.
use node_amqp.Prelude.{[], ◌∷◌}
use node_amqp.Definitions.Info.{ClassInfo, field, method, bit, short, shortstr, table}

abbrev pub exchange_class : ClassInfo
exchange_class = record {
  name = "exchange";
  index = 40;
  fields = [];
  methods =
      method "declare" 10 (
        field "reserved1" short
        ∷ field "exchange" shortstr
        ∷ field "type" shortstr
        ∷ field "passive" bit
        ∷ field "durable" bit
        ∷ field "autoDelete" bit
        ∷ field "reserved2" bit
        ∷ field "reserved3" bit
        ∷ field "noWait" bit
        ∷ field "arguments" table
        ∷ [])
      ∷ method "declareOk" 11 ([])
      ∷ method "delete" 20 (
          field "reserved1" short
          ∷ field "exchange" shortstr
          ∷ field "ifUnused" bit
          ∷ field "noWait" bit
          ∷ [])
      ∷ method "deleteOk" 21 ([])
      ∷ method "bind" 30 (
          field "reserved1" short
          ∷ field "destination" shortstr
          ∷ field "source" shortstr
          ∷ field "routingKey" shortstr
          ∷ field "noWait" bit
          ∷ field "arguments" table
          ∷ [])
      ∷ method "bindOk" 31 ([])
      ∷ method "unbind" 40 (
          field "reserved1" short
          ∷ field "destination" shortstr
          ∷ field "source" shortstr
          ∷ field "routingKey" shortstr
          ∷ field "noWait" bit
          ∷ field "arguments" table
          ∷ [])
      ∷ method "unbindOk" 51 ([])
      ∷ [];
}

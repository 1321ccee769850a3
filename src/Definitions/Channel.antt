-- ===== src/Definitions/Channel.antt =====
-- lib/amqp-definitions-0-9-1.js: the classes channel, confirm, tx.
use node_amqp.Prelude.{[], ◌∷◌}
use node_amqp.Definitions.Info.{ClassInfo, field, method, bit, short, shortstr, longstr}

abbrev pub channel_class : ClassInfo
channel_class = record {
  name = "channel";
  index = 20;
  fields = [];
  methods =
      method "open" 10 (field "reserved1" shortstr ∷ [])
      ∷ method "openOk" 11 (field "reserved1" longstr ∷ [])
      ∷ method "flow" 20 (field "active" bit ∷ [])
      ∷ method "flowOk" 21 (field "active" bit ∷ [])
      ∷ method "close" 40 (
          field "replyCode" short
          ∷ field "replyText" shortstr
          ∷ field "classId" short
          ∷ field "methodId" short
          ∷ [])
      ∷ method "closeOk" 41 ([])
      ∷ [];
}

abbrev pub tx_class : ClassInfo
tx_class = record {
  name = "tx";
  index = 90;
  fields = [];
  methods =
      method "select" 10 ([])
      ∷ method "selectOk" 11 ([])
      ∷ method "commit" 20 ([])
      ∷ method "commitOk" 21 ([])
      ∷ method "rollback" 30 ([])
      ∷ method "rollbackOk" 31 ([])
      ∷ [];
}

abbrev pub confirm_class : ClassInfo
confirm_class = record {
  name = "confirm";
  index = 85;
  fields = [];
  methods = method "select" 10 (field "noWait" bit ∷ []) ∷ method "selectOk" 11 ([]) ∷ [];
}

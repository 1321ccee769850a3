-- ===== src/Definitions/Connection.antt =====
-- lib/amqp-definitions-0-9-1.js: the class connection.
use node_amqp.Prelude.{[], ◌∷◌}
use node_amqp.Definitions.Info.{
  ClassInfo, field, method, bit, octet, short, long, shortstr, longstr, table,
}

abbrev pub connection_class : ClassInfo
connection_class = record {
  name = "connection";
  index = 10;
  fields = [];
  methods =
      method "start" 10 (
        field "versionMajor" octet
        ∷ field "versionMinor" octet
        ∷ field "serverProperties" table
        ∷ field "mechanisms" longstr
        ∷ field "locales" longstr
        ∷ [])
      ∷ method "startOk" 11 (
          field "clientProperties" table
          ∷ field "mechanism" shortstr
          ∷ field "response" longstr
          ∷ field "locale" shortstr
          ∷ [])
      ∷ method "secure" 20 (field "challenge" longstr ∷ [])
      ∷ method "secureOk" 21 (field "response" longstr ∷ [])
      ∷ method "tune" 30
          (field "channelMax" short ∷ field "frameMax" long ∷ field "heartbeat" short ∷ [])
      ∷ method "tuneOk" 31
          (field "channelMax" short ∷ field "frameMax" long ∷ field "heartbeat" short ∷ [])
      ∷ method "open" 40
          (field "virtualHost" shortstr ∷ field "reserved1" shortstr ∷ field "reserved2" bit ∷ [])
      ∷ method "openOk" 41 (field "reserved1" shortstr ∷ [])
      ∷ method "close" 50 (
          field "replyCode" short
          ∷ field "replyText" shortstr
          ∷ field "classId" short
          ∷ field "methodId" short
          ∷ [])
      ∷ method "closeOk" 51 ([])
      ∷ method "blocked" 60 (field "reason" shortstr ∷ [])
      ∷ method "unblocked" 61 ([])
      ∷ [];
}

-- ===== src/Definitions/Basic.antt =====
-- lib/amqp-definitions-0-9-1.js: the class basic.
use node_amqp.Prelude.{List, [], ◌∷◌, ◌++◌}
use node_amqp.Definitions.Info.{
  ClassInfo, MethodInfo, Field, field, method, bit, octet, short, long, longlong, timestamp,
  shortstr, table,
}

-- The properties of a content header.
abbrev pub basic_fields : List Field
basic_fields =
    field "contentType" shortstr
    ∷ field "contentEncoding" shortstr
    ∷ field "headers" table
    ∷ field "deliveryMode" octet
    ∷ field "priority" octet
    ∷ field "correlationId" shortstr
    ∷ field "replyTo" shortstr
    ∷ field "expiration" shortstr
    ∷ field "messageId" shortstr
    ∷ field "timestamp" timestamp
    ∷ field "type" shortstr
    ∷ field "userId" shortstr
    ∷ field "appId" shortstr
    ∷ field "reserved" shortstr
    ∷ []

abbrev pub basic_consumer_methods : List MethodInfo
basic_consumer_methods =
    method "qos" 10
      (field "prefetchSize" long ∷ field "prefetchCount" short ∷ field "global" bit ∷ [])
    ∷ method "qosOk" 11 ([])
    ∷ method "consume" 20 (
        field "reserved1" short
        ∷ field "queue" shortstr
        ∷ field "consumerTag" shortstr
        ∷ field "noLocal" bit
        ∷ field "noAck" bit
        ∷ field "exclusive" bit
        ∷ field "noWait" bit
        ∷ field "arguments" table
        ∷ [])
    ∷ method "consumeOk" 21 (field "consumerTag" shortstr ∷ [])
    ∷ method "cancel" 30 (field "consumerTag" shortstr ∷ field "noWait" bit ∷ [])
    ∷ method "cancelOk" 31 (field "consumerTag" shortstr ∷ [])
    ∷ []

abbrev pub basic_message_methods : List MethodInfo
basic_message_methods =
    method "publish" 40 (
      field "reserved1" short
      ∷ field "exchange" shortstr
      ∷ field "routingKey" shortstr
      ∷ field "mandatory" bit
      ∷ field "immediate" bit
      ∷ [])
    ∷ method "return" 50 (
        field "replyCode" short
        ∷ field "replyText" shortstr
        ∷ field "exchange" shortstr
        ∷ field "routingKey" shortstr
        ∷ [])
    ∷ method "deliver" 60 (
        field "consumerTag" shortstr
        ∷ field "deliveryTag" longlong
        ∷ field "redelivered" bit
        ∷ field "exchange" shortstr
        ∷ field "routingKey" shortstr
        ∷ [])
    ∷ method "get" 70 (field "reserved1" short ∷ field "queue" shortstr ∷ field "noAck" bit ∷ [])
    ∷ method "getOk" 71 (
        field "deliveryTag" longlong
        ∷ field "redelivered" bit
        ∷ field "exchange" shortstr
        ∷ field "routingKey" shortstr
        ∷ field "messageCount" long
        ∷ [])
    ∷ method "getEmpty" 72 (field "reserved1" shortstr ∷ [])
    ∷ method "ack" 80 (field "deliveryTag" longlong ∷ field "multiple" bit ∷ [])
    ∷ method "reject" 90 (field "deliveryTag" longlong ∷ field "requeue" bit ∷ [])
    ∷ method "recoverAsync" 100 (field "requeue" bit ∷ [])
    ∷ method "recover" 110 (field "requeue" bit ∷ [])
    ∷ method "recoverOk" 111 ([])
    ∷ []

abbrev pub basic_class : ClassInfo
basic_class = record {
  name = "basic";
  index = 60;
  fields = basic_fields;
  methods = basic_consumer_methods ++ basic_message_methods;
}

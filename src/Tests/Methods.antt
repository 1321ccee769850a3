-- ===== src/Tests/Methods.antt =====
-- Methods and headers, sent and received.
use node_amqp.Prelude.{
  ℕ, zero, suc, ◌≡◌, ◌<◌, All, refl, arith, List, [], ◌∷◌, ◌++◌, ap, length, true, false, pos,
}
use node_amqp.Result.{Error, ok, unknown_method, bad_method, type_error}
use node_amqp.Values.{Value, boolean, bytes}
use node_amqp.Definitions.Info.{field, bit, longlong}
use node_amqp.Definitions.Tables.{Method, Tables, lookup, get_method, codes, same_codes}
use node_amqp.Serializer.Buffer.{Buffer}
use node_amqp.Serializer.Ints.{int_bytes}
use node_amqp.Serializer.Fields.{Args, set_bit}
use node_amqp.Js.{to_uint32, to_uint8, js_or, js_shl}
use node_amqp.Parser.Cursor.{past}
use node_amqp.Serializer.FieldFormat.{format_fields, Holds}
use node_amqp.Parser.Frames.{returned, header, running, failed, execute}
use node_amqp.Parser.Methods.{Callbacks}
use node_amqp.RoundTrip.Fields.{received_fields, write_read_fields, write_read_fields-received}
use node_amqp.Connection.Methods.{send_method, method_bytes}
use node_amqp.Connection.Frame.{wire_frame}
use node_amqp.Connection.Unknown.{reporting, execute-unknown}
use node_amqp.Connection.Calls.{CanTravel, other_end, send_method-execute}
use node_amqp.Tests.Platform.{ascii, IsAscii, ascii-IsFaithful}

-- `basicNack`
abbrev nack : Method
nack = record {
  name = codes "basicNack";
  fields = field "deliveryTag" longlong ∷ field "multiple" bit ∷ field "requeue" bit ∷ [];
  method_index = 120;
  class_index = 60;
}

abbrev tables : Tables
tables = record {
  method_table = (60, (120, nack) ∷ []) ∷ [];
  methods = (codes "basicNack", nack) ∷ [];
  classes = [];
}

abbrev tag : List ℕ
tag = 0 ∷ 0 ∷ 0 ∷ 0 ∷ 0 ∷ 0 ∷ 1 ∷ 2 ∷ []

abbrev values : List (Value Unit)
values = bytes tag ∷ boolean false ∷ boolean true ∷ []

-- More arguments than fields, in another order.
abbrev args : Args Unit
args =
    ("requeue", boolean true)
    ∷ ("noWait", boolean false)
    ∷ ("deliveryTag", bytes tag)
    ∷ ("multiple", boolean false)
    ∷ []

abbrev Calls : Type 0
Calls = List (Method × Args Unit)

abbrev callbacks : Callbacks Unit Calls
callbacks = record {
  on_method = λ s c m a. returned ((m, a) ∷ s);
  on_content_header = λ s c i w a n. returned s;
  on_error = λ s e. returned s;
}

tag_octets : All (λ x. x < 256) tag
tag_octets = (
  omega arith,
  (
    omega arith,
    (omega arith, (omega arith, (omega arith, (omega arith, (omega arith, (omega arith, tt)))))),
  ),
)

nack-CanTravel : CanTravel ascii IsAscii ascii-IsFaithful 1 tables callbacks nack values
unfolding get_method lookup
nack-CanTravel = record {
  known = refl;
  small_class = omega arith;
  small_method = omega arith;
  params = ((refl, tag_octets), (tt, (tt, tt)));
  readable = (tt, (tt, (tt, tt)));
  few_bits = (omega arith, (omega arith, (omega arith, tt)));
}

abbrev zeros : ℕ → List ℕ
zeros zero = []
zeros (suc n) = 0 ∷ zeros n

abbrev send_buffer : Buffer
send_buffer = record { mem = zeros 30; used = 17 }

abbrev payload : List ℕ
payload = 0 ∷ 60 ∷ 0 ∷ 120 ∷ 0 ∷ 0 ∷ 0 ∷ 0 ∷ 0 ∷ 0 ∷ 1 ∷ 2 ∷ 2 ∷ []

payload_bytes : method_bytes ascii nack values ≡ payload
unfolding int_bytes format_fields to_uint32 to_uint8 set_bit js_or js_shl
payload_bytes = refl

length_payload : length (method_bytes ascii nack values) ≡ 13
length_payload = ap length payload_bytes

nack-Holds : Holds ascii args nack.fields values
unfolding lookup same_codes
nack-Holds = (refl, (refl, (refl, tt)))

send_method-execute_example :
    (sent : List ℕ) × (c : Buffer) × (send_method ascii (pos 3) nack args send_buffer
      ≡ ok (sent, c))
    × (execute
          (other_end ascii IsAscii ascii-IsFaithful 1 tables callbacks
            (λ s. 100)
            (λ s c b. returned s)
            (λ s. returned s))
          (header [])
          []
          sent
        ≡ running (header []) ((nack, received_fields nack.fields values) ∷ []))
send_method-execute_example =
    send_method-execute ascii IsAscii ascii-IsFaithful 1 tables callbacks (λ s. 100)
      (λ s c b. returned s) (λ s. returned s) 3 nack args values send_buffer [] nack-CanTravel
      nack-Holds (omega arith) (omega (arith, length_payload)) (omega (arith, length_payload))
      (omega (arith, length_payload))

-- `onError` keeps what it is told, the last one first.
abbrev reported : Callbacks Unit (List Error)
reported = record {
  on_method = λ s c m a. returned s;
  on_content_header = λ s c i w a n. returned s;
  on_error = λ s e. returned (e ∷ s);
}

execute-unknown_example :
    execute
      (reporting ascii 1 tables reported
        (λ s e. e ∷ s)
        (λ s e. refl)
        (λ s. 100)
        (λ s c b. returned s)
        (λ s. returned s))
      (header [])
      []
      (wire_frame 1 (pos 3) ((int_bytes 2 (pos 60) ++ int_bytes 2 (pos 121)) ++ 7 ∷ []))
    ≡ failed (bad_method ∷ unknown_method ∷ []) type_error
unfolding get_method lookup
execute-unknown_example =
    execute-unknown ascii 1 tables reported (λ s e. e ∷ s) (λ s e. refl) (λ s. 100)
      (λ s c b. returned s) (λ s. returned s) [] 3 60 121 (7 ∷ []) (omega arith) (omega arith) refl
      (omega arith) (omega arith) (omega arith)

write_read_fields-received_example :
    write_read_fields ascii 1 nack.fields args true (5 ∷ []) (zeros 10)
    ≡ ok (
      ("deliveryTag", bytes tag) ∷ ("multiple", boolean false) ∷ ("requeue", boolean true) ∷ [],
      past (5 ∷ 0 ∷ 0 ∷ 0 ∷ 0 ∷ 0 ∷ 0 ∷ 1 ∷ 2 ∷ 2 ∷ []) (0 ∷ []),
    )
unfolding int_bytes format_fields to_uint32 to_uint8 set_bit js_or js_shl
write_read_fields-received_example =
    write_read_fields-received ascii IsAscii ascii-IsFaithful 1 nack.fields values args true
      (5 ∷ []) (zeros 10) nack-Holds ((refl, tag_octets), (tt, (tt, tt))) (tt, (tt, (tt, tt)))
      (omega arith, (omega arith, (omega arith, tt))) (omega arith)

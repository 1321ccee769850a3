-- ===== src/Tests/Headers.antt =====
-- Headers, sent and received.
use node_amqp.Prelude.{ℕ, zero, suc, ◌≡◌, refl, arith, List, [], ◌∷◌, length, ℤ, pos}
use node_amqp.Result.{ok}
use node_amqp.Values.{int, number, text}
use node_amqp.Definitions.Basic.{basic_class}
use node_amqp.Definitions.Tables.{Tables, lookup, insert, codes, same_codes}
use node_amqp.Serializer.Ints.{int_bytes}
use node_amqp.Serializer.Fields.{Args}
use node_amqp.Serializer.FieldFormat.{format_fields}
use node_amqp.Parser.Frames.{returned, thrown, header, running, execute}
use node_amqp.Parser.Methods.{Callbacks}
use node_amqp.Connection.Headers.{send_header, with_defaults, truthy}
use node_amqp.Connection.Properties.{header_bytes}
use node_amqp.Connection.Contents.{CanDescribe, reader, send_header-execute}
use node_amqp.Tests.Platform.{ascii, IsAscii, ascii-IsFaithful, all_ascii-IsAscii}

abbrev tables : Tables
tables = record { method_table = []; methods = []; classes = (60, basic_class) ∷ [] }

abbrev properties : Args Unit
properties = ("deliveryMode", number (int (pos 2))) ∷ []

-- The `contentType` is added.
abbrev all_properties : Args Unit
all_properties =
    ("deliveryMode", number (int (pos 2)))
    ∷ ("contentType", text (codes "application/octet-stream"))
    ∷ []

abbrev received : Args Unit
received =
    ("contentType", text (codes "application/octet-stream"))
    ∷ ("deliveryMode", number (int (pos 2)))
    ∷ []

abbrev Calls : Type 0
Calls = List (Args Unit × ℤ)

abbrev callbacks : Callbacks Unit Calls
callbacks = record {
  on_method = λ s c m a. returned s;
  on_content_header = λ s c i w a n. returned ((a, n) ∷ s);
  on_error = λ s e. thrown s e;
}

completed : with_defaults ascii properties ≡ all_properties
unfolding with_defaults lookup insert same_codes
completed = refl

all_described :
    CanDescribe ascii IsAscii ascii-IsFaithful 1 tables callbacks basic_class all_properties
unfolding lookup same_codes truthy
all_described = record {
  known = refl;
  small = omega arith;
  few_fields = omega arith;
  suitable = (
    refl,
    (refl, (omega arith, omega arith)),
    (
      refl,
      tt,
      (
        refl,
        tt,
        (
          refl,
          (refl, omega arith),
          (
            refl,
            tt,
            (
              refl,
              tt,
              (
                refl,
                tt,
                (
                  refl,
                  tt,
                  (refl, tt, (refl, tt, (refl, tt, (refl, tt, (refl, tt, (refl, tt, tt)))))),
                ),
              ),
            ),
          ),
        ),
      ),
    ),
  );
  readable = (all_ascii-IsAscii (codes "application/octet-stream") refl, (tt, tt));
}

described :
    CanDescribe ascii IsAscii ascii-IsFaithful 1 tables callbacks basic_class
      (with_defaults ascii properties)
described = rw completed all_described

length_header : length (header_bytes ascii basic_class 5 (with_defaults ascii properties)) ≡ 40
unfolding with_defaults lookup insert same_codes int_bytes format_fields
length_header = refl

abbrev zeros : ℕ → List ℕ
zeros zero = []
zeros (suc n) = 0 ∷ zeros n

length-zeros : (n : ℕ) → length (zeros n) ≡ n
length-zeros zero = refl
length-zeros (suc n) = omega (arith, length-zeros n)

send_header-execute_example :
    (sent : List ℕ) × (send_header ascii zeros 131072 tables (pos 3) 5 properties ≡ ok sent)
    × (execute
          (reader ascii IsAscii ascii-IsFaithful 1 tables callbacks
            (λ s. 100)
            (λ s c b. returned s)
            (λ s. returned s))
          (header [])
          []
          sent
        ≡ running (header []) ((received, pos 5) ∷ []))
unfolding with_defaults lookup insert same_codes
send_header-execute_example =
    send_header-execute ascii IsAscii ascii-IsFaithful 1 tables callbacks (λ s. 100)
      (λ s c b. returned s) (λ s. returned s) zeros 131072 properties basic_class 3 5 []
      (length-zeros 131072) (omega arith) refl described (omega arith) (omega arith)
      (omega (arith, length_header)) (omega (arith, length_header))

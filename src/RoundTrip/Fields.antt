-- ===== src/RoundTrip/Fields.antt =====
-- `parseFields` of lib/parser.js on what `serializeFields` of lib/serializer.js wrote, with the bits
-- that share an octet.
use Prim.Native.String.{String}
use node_amqp.Prelude.{
  ℕ, ◌+◌, ◌≤◌, ◌≡◌, ◌≢◌, refl, sym, ap, ◌∙◌, Bool, true, false, List, [], ◌∷◌, ◌++◌, append_assoc,
  length, drop, subst, ℤ, pos,
}
use node_amqp.Js.{to_uint8}
use node_amqp.Result
use node_amqp.Result.{Result, ok}
use node_amqp.Serializer.Buffer.{Buffer, at}
use node_amqp.Serializer.FieldWrites.{loop-Writes}
use node_amqp.Values.{Text, Value, Platform, IsFaithful, boolean}
use node_amqp.Definitions.Info.{
  Domain, Field, bit, octet, short, long, timestamp, longlong, shortstr, longstr, table,
}
use node_amqp.Serializer.Fields.{Args, is_bit, bit_follows, set_bit, serialize_fields}
use node_amqp.Serializer.FieldFormat.{
  IsParam, AreParams, Holds, format_param, format_field, format_fields,
}
use node_amqp.Parser.Cursor.{Cursor, Parser, ◌>>=◌, pure, past}
use node_amqp.Parser.Fields.{parse_bit, parse_param, parse_field, parse_loop, parse_fields}
use node_amqp.RoundTrip.Bits.{packed}
use node_amqp.RoundTrip.Reads.{Reads, then-Reads, map-Reads, pure-Reads}
use node_amqp.RoundTrip.Params.{received_param, IsReadableParam, param-Reads}
use node_amqp.RoundTrip.Octets.{
  run, run_head, AreShort, OctetHolds, after, run-none, fresh-HoldsBits, first-octet, peek-Reads,
  last-Reads,
}

-- What `parseFields` gives for the values.
abbrev pub received_fields : {D : Type 0} → List Field → List (Value D) → Args D
received_fields (f ∷ fs) (v ∷ vs) = (f.name, received_param f.domain v) ∷ received_fields fs vs
received_fields _ _ = []

module _ (p : Platform) where
  open p use {Double}

  -- A round of the loop, and the rounds that follow.
  abbrev named :
      String → Parser (Value Double × ℕ) → (ℕ → Parser (Args Double)) → Parser (Args Double)
  named name field more = do x ← field; rest ← more x.1; pure ((name, x.0) ∷ rest)

  module _ (IsWellFormed : Text → Type 0) where
    abbrev pub AreReadableParams : ℕ → List Field → List (Value Double) → Type 0
    AreReadableParams fuel (f ∷ fs) (v ∷ vs) =
        IsReadableParam p IsWellFormed fuel f.domain v × AreReadableParams fuel fs vs
    AreReadableParams fuel _ _ = Unit

    module _ (faithful : IsFaithful p IsWellFormed) where
      -- A field that is not a bit, in front of which no bits are open.
      plain-Reads :
          (fuel : ℕ) (d : Domain) (v : Value Double) (name : String) (z : ℤ) (i : ℕ)
          (bs : List Bool) (more : ℤ → ℕ → List ℕ) (parse : ℕ → Parser (Args Double))
          {args : Args Double}
          → d ≢ bit
          → IsParam p d v
          → IsReadableParam p IsWellFormed fuel d v
          → (z ≡ pos 0) × (i ≡ 0)
          → OctetHolds (pos 0) 0 bs
          → (OctetHolds z i bs → Reads (parse i) (more z i) args)
          → Reads
              (named name (λ c. (parse_param p fuel d >>= λ w. pure (w, i)) c) parse)
              (format_param p d v ++ more z i)
              ((name, received_param d v) ∷ args)
      plain-Reads fuel d v name z i bs more parse {args} n h r (z_zero, i_zero) fresh next =
          let held : OctetHolds z i bs = rw (z_zero, i_zero) fresh in
          let first : Reads (λ c. (parse_param p fuel d >>= λ w. pure (w, i)) c)
              (format_param p d v) (received_param d v, i) =
            map-Reads (λ w. (w, i)) (param-Reads p IsWellFormed faithful fuel d v n h r) in
          then-Reads (λ y. parse y.1 >>= λ rest. pure ((name, y.0) ∷ rest)) first
            (map-Reads (λ rest. (name, received_param d v) ∷ rest) (next held))

      -- One round, with the octet that holds the bits from this field on.
      step-Reads :
          (fuel : ℕ) (d : Domain) (v : Value Double) (follows : Bool) (name : String) (z : ℤ)
          (i : ℕ) (bs : List Bool) (later : List ℕ) (more : ℤ → ℕ → List ℕ)
          (parse : ℕ → Parser (Args Double)) {args : Args Double}
          → IsParam p d v
          → IsReadableParam p IsWellFormed fuel d v
          → (is_bit d ≡ false → (z ≡ pos 0) × (i ≡ 0))
          → OctetHolds z i (run_head d v bs)
          → OctetHolds (pos 0) 0 bs
          → (follows ≡ true → (y : ℤ) (j : ℕ) → more y j ≡ to_uint8 (packed y j bs) ∷ later)
          → (follows ≡ false → bs ≡ [])
          → ((y : ℤ) (j : ℕ)
              → (follows ≡ false → (y ≡ pos 0) × (j ≡ 0))
              → OctetHolds y j bs
              → Reads (parse j) (more y j) args)
          → Reads
              (named name (parse_field p fuel d follows i) parse)
              (format_field p d v follows z i more)
              ((name, received_param d v) ∷ args)
      unfolding parse_field format_field
      step-Reads fuel bit (boolean x) true name z i bs later more parse {args} h r start
            (here, held) fresh inside last next =
          subst
            (λ (l : List ℕ).
              Reads (named name (parse_field p fuel bit true i) parse) l ((name, boolean x) ∷ args))
            (sym (inside refl _ _))
            (peek-Reads p i _ x (λ y. parse y.1 >>= λ rest. pure ((name, y.0) ∷ rest)) here
              (map-Reads (λ rest. (name, boolean x) ∷ rest)
                (subst (λ (l : List ℕ). Reads (parse (i + 1)) l args) (inside refl _ _)
                  (next (set_bit x z i) (i + 1) (λ e. cc) held))))
      step-Reads fuel bit (boolean x) false name z i bs later more parse {args} h r start held fresh
            inside last next =
          let alone = last refl in
          let first : Reads (λ c. parse_bit p false i c) (to_uint8 (set_bit x z i) ∷ [])
              (boolean x, 0) =
            last-Reads p i _ x (rw alone at held).0 in
          then-Reads (λ y. parse y.1 >>= λ rest. pure ((name, y.0) ∷ rest)) first
            (map-Reads (λ rest. (name, boolean x) ∷ rest)
              (next (pos 0) 0 (λ _. (refl, refl)) fresh))
      step-Reads fuel bit _ follows name z i bs later more parse {args} h r start held fresh inside
            last next =
          elim h [ ]
      step-Reads fuel octet v follows name z i bs later more parse h r start held fresh inside last
            next =
          plain-Reads fuel octet v name z i bs more parse (λ e. cc) h r (start refl) fresh
            (next z i (λ _. start refl))
      step-Reads fuel short v follows name z i bs later more parse h r start held fresh inside last
            next =
          plain-Reads fuel short v name z i bs more parse (λ e. cc) h r (start refl) fresh
            (next z i (λ _. start refl))
      step-Reads fuel long v follows name z i bs later more parse h r start held fresh inside last
            next =
          plain-Reads fuel long v name z i bs more parse (λ e. cc) h r (start refl) fresh
            (next z i (λ _. start refl))
      step-Reads fuel timestamp v follows name z i bs later more parse h r start held fresh inside
            last next =
          plain-Reads fuel timestamp v name z i bs more parse (λ e. cc) h r (start refl) fresh
            (next z i (λ _. start refl))
      step-Reads fuel longlong v follows name z i bs later more parse h r start held fresh inside
            last next =
          plain-Reads fuel longlong v name z i bs more parse (λ e. cc) h r (start refl) fresh
            (next z i (λ _. start refl))
      step-Reads fuel shortstr v follows name z i bs later more parse h r start held fresh inside
            last next =
          plain-Reads fuel shortstr v name z i bs more parse (λ e. cc) h r (start refl) fresh
            (next z i (λ _. start refl))
      step-Reads fuel longstr v follows name z i bs later more parse h r start held fresh inside
            last next =
          plain-Reads fuel longstr v name z i bs more parse (λ e. cc) h r (start refl) fresh
            (next z i (λ _. start refl))
      step-Reads fuel table v follows name z i bs later more parse h r start held fresh inside last
            next =
          plain-Reads fuel table v name z i bs more parse (λ e. cc) h r (start refl) fresh
            (next z i (λ _. start refl))

      pub loop-Reads :
          (fuel : ℕ) (fs : List Field) (vs : List (Value Double)) (z : ℤ) (i : ℕ)
          → AreParams p fs vs
          → AreReadableParams fuel fs vs
          → AreShort fs vs
          → (bit_follows fs ≡ false → (z ≡ pos 0) × (i ≡ 0))
          → OctetHolds z i (run fs vs)
          → Reads (parse_loop p fuel fs i) (format_fields p fs vs z i) (received_fields fs vs)
      unfolding parse_loop format_fields
      loop-Reads fuel [] [] z i are readable few start held = pure-Reads []
      loop-Reads fuel [] (v ∷ vs) z i are readable few start held = elim are [ ]
      loop-Reads fuel (f ∷ fs) [] z i are readable few start held = elim are [ ]
      loop-Reads fuel (f ∷ fs) (v ∷ vs) z i (is, are) (r, readable) (_, few) start held =
          step-Reads fuel f.domain v (bit_follows fs) f.name z i (run fs vs) (after p fs vs)
            (format_fields p fs vs) (parse_loop p fuel fs) is r start held
            (fresh-HoldsBits fs vs few) (λ e y j. first-octet p fs vs y j are e) (run-none fs vs)
            (λ y j aligned held. loop-Reads fuel fs vs y j are readable few aligned held)

-- Fields written behind `front` into the bytes `rest`, and read from the same place.
abbrev pub write_read_fields :
    (p : Platform)
    → ℕ
    → List Field
    → Args p.Double
    → Bool
    → List ℕ
    → List ℕ
    → Result (Args p.Double × Cursor)
write_read_fields p fuel fs args strict front rest =
    Result.◌>>=◌ (serialize_fields p args strict fs (at front rest))
      λ b. parse_fields p fuel fs (record { mem = b.mem; read = length front })

-- Arguments that have a value for every field, each suitable for its field and readable (well-
-- formed texts, lengths below 2^31, exact numbers, no table that ends in an entry of at most four
-- bytes, and enough fuel for the tables), with at most eight bits in a row: where there is room
-- for their bytes and one more, serializeFields writes them and parseFields reads them back, as
-- the fields' names with the values that are received; it stands behind them, and the bytes around
-- them are as they were. What is received is a long or a timestamp as the 32-bit integer of its
-- low word, a table as its entries arrive, and every other value unchanged.
pub write_read_fields-received :
    (p : Platform) (IsWellFormed : Text → Type 0) (faithful : IsFaithful p IsWellFormed) (fuel : ℕ)
    (fs : List Field) (vs : List (Value p.Double)) (args : Args p.Double) (strict : Bool)
    (front rest : List ℕ)
    → Holds p args fs vs
    → AreParams p fs vs
    → AreReadableParams p IsWellFormed fuel fs vs
    → AreShort fs vs
    → length (format_fields p fs vs (pos 0) 0) + 1 ≤ length rest
    → write_read_fields p fuel fs args strict front rest
      ≡ ok (
        received_fields fs vs,
        past
            (front ++ format_fields p fs vs (pos 0) 0)
            (drop (length (format_fields p fs vs (pos 0) 0)) rest),
      )
unfolding serialize_fields parse_fields
write_read_fields-received p IsWellFormed faithful fuel fs vs args strict front rest held are
      readable few room =
    let bytes = format_fields p fs vs (pos 0) 0 in
    let back = drop (length bytes) rest in
    let write = loop-Writes p args strict fs vs (pos 0) 0 held are in
    let read =
      loop-Reads p IsWellFormed faithful fuel fs vs (pos 0) 0 are readable few (λ _. (refl, refl))
        (fresh-HoldsBits fs vs few) in
    ap
      (λ (r : Result Buffer).
        Result.◌>>=◌ r λ b. parse_loop p fuel fs 0 (record { mem = b.mem; read = length front }))
      (write.run front rest room)
    ∙ (ap (λ (m : List ℕ). parse_loop p fuel fs 0 (record { mem = m; read = length front }))
          (append_assoc front bytes back)
        ∙ read.run front back)

-- ===== src/Connection/Properties.antt =====
-- The header frames that `_sendHeader` of lib/connection.js writes, and `_parseHeaderFrame` of
-- lib/parser.js at the other end.
use node_amqp.Prelude.{
  ℕ, suc, ◌+◌, ◌≤◌, ◌≡◌, refl, sym, ap, ◌∙◌, arith, inl, inr, Bool, true, false, List, [], ◌∷◌,
  ◌++◌, append_assoc, length, drop, take, take-append, subst, Option, none, some, ◌==◌, ℤ, pos,
}
use node_amqp.Js.{to_uint8}
use node_amqp.Result.{Result, ok, ◌>>=◌}
use node_amqp.Values.{Value, Platform}
use node_amqp.Definitions.Info.{Domain, Field, ClassInfo, bit}
use node_amqp.Definitions.Tables.{Tables, lookup}
use node_amqp.Serializer.Buffer.{Buffer}
use node_amqp.Serializer.Ints.{int_bytes}
use node_amqp.Serializer.Writes.{
  Writer, Writes, then-Writes, more_room, put-Writes, serialize_int-Writes,
}
use node_amqp.Serializer.Fields.{
  Args, same_name, is_bit, bit_follows, serialize_found, serialize_field, serialize_loop,
  serialize_fields,
}
use node_amqp.Serializer.FieldFormat.{IsParam, AreParams, format_field, format_fields}
use node_amqp.Serializer.FieldWrites.{field-Writes}
use node_amqp.Serializer.Refines.{done-Writes}
use node_amqp.Connection.Frame.{wire_frame, length-wire_frame}
use node_amqp.Connection.Methods.{with_dummy-Writes}
use node_amqp.Connection.Headers.{
  truthy, truthy_property, property_flags, fill_properties, fill_header, send_header, with_defaults,
}
use node_amqp.RoundTrip.Flags.{flags_of, chosen}

module _ (p : Platform) where
  open p use {Double}

  abbrev pub sent_field : Option (Value Double) → Field → List Field → List Field
  sent_field none f fs = fs
  sent_field (some v) f fs = f ∷ fs

  abbrev pub sent_value : Option (Value Double) → List (Value Double) → List (Value Double)
  sent_value none vs = vs
  sent_value (some v) vs = v ∷ vs

  -- The fields of which there is a property, and their values.
  abbrev pub sent_fields : Args Double → List Field → List Field
  sent_fields properties [] = []
  sent_fields properties (f ∷ fs) =
      sent_field (lookup same_name f.name properties) f (sent_fields properties fs)

  abbrev pub sent_values : Args Double → List Field → List (Value Double)
  sent_values properties [] = []
  sent_values properties (f ∷ fs) =
      sent_value (lookup same_name f.name properties) (sent_values properties fs)

  abbrev pub IsProperty : Field → Option (Value Double) → Type 0
  IsProperty f none = Unit
  IsProperty f (some v) = (truthy p v ≡ true) × IsParam p f.domain v

  -- Every property suits its field, and none is falsy.
  abbrev pub AreProperties : Args Double → List Field → Type 0
  AreProperties properties [] = Unit
  AreProperties properties (f ∷ fs) =
      (is_bit f.domain ≡ false)
      × IsProperty f (lookup same_name f.name properties)
      × AreProperties properties fs

  abbrev pub presence : Args Double → List Field → List Bool
  presence properties [] = []
  presence properties (f ∷ fs) =
      truthy_property p (lookup same_name f.name properties) ∷ presence properties fs

  pub property_flags-presence :
      (properties : Args Double) (fs : List Field) (z : ℤ) (i : ℕ)
      → property_flags p properties z i fs ≡ flags_of z i (presence properties fs)
  unfolding property_flags
  property_flags-presence properties [] z i = refl
  property_flags-presence properties (f ∷ fs) z i = property_flags-presence properties fs _ (i + 1)

  pub length-presence :
      (properties : Args Double) (fs : List Field) → length (presence properties fs) ≡ length fs
  length-presence properties [] = refl
  length-presence properties (f ∷ fs) = ap suc (length-presence properties fs)

  choose :
      (f : Field) (o : Option (Value Double)) (bs : List Bool) (fs gs : List Field)
      → IsProperty f o
      → chosen bs fs ≡ gs
      → chosen (truthy_property p o ∷ bs) (f ∷ fs) ≡ sent_field o f gs
  choose f none bs fs gs h e = e
  choose f (some v) bs fs gs (t, _) e = rw t (ap (λ (gs : List Field). f ∷ gs) e)

  pub chosen-presence :
      (properties : Args Double) (fs : List Field)
      → AreProperties properties fs
      → chosen (presence properties fs) fs ≡ sent_fields properties fs
  chosen-presence properties [] h = refl
  chosen-presence properties (f ∷ fs) (_, is, h) =
      choose f _ (presence properties fs) fs _ is (chosen-presence properties fs h)

  add-AreParams :
      (f : Field) (o : Option (Value Double)) (gs : List Field) (vs : List (Value Double))
      → IsProperty f o
      → AreParams p gs vs
      → AreParams p (sent_field o f gs) (sent_value o vs)
  add-AreParams f none gs vs _ h = h
  add-AreParams f (some v) gs vs (_, q) h = (q, h)

  pub sent-AreParams :
      (properties : Args Double) (fs : List Field)
      → AreProperties properties fs
      → AreParams p (sent_fields properties fs) (sent_values properties fs)
  sent-AreParams properties [] h = tt
  sent-AreParams properties (f ∷ fs) (_, is, h) =
      add-AreParams f _ _ _ is (sent-AreParams properties fs h)

  -- A field that is not a bit is written in the same way whatever follows it.
  format_field-plain :
      (d : Domain) (v : Value Double) (follows : Bool) (z : ℤ) (i : ℕ) (more : ℤ → ℕ → List ℕ)
      → is_bit d ≡ false
      → format_field p d v follows z i more ≡ format_field p d v false z i more
  unfolding format_field
  format_field-plain bit v follows z i more h = cc
  format_field-plain _ v follows z i more h = refl

  found-Writes :
      (f : Field) (follows : Bool) (o : Option (Value Double)) (gs : List Field)
      (vs : List (Value Double)) (z : ℤ) (i : ℕ) {more : ℤ → ℕ → Writer}
      → is_bit f.domain ≡ false
      → IsProperty f o
      → ((y : ℤ) (j : ℕ) → Writes 1 (more y j) (format_fields p gs vs y j))
      → Writes 1
          (λ b. serialize_found p f follows false o z i b (λ y j c. more y j c))
          (format_fields p (sent_field o f gs) (sent_value o vs) z i)
  unfolding serialize_found format_fields
  found-Writes f follows none gs vs z i plain is next = next z i
  found-Writes f follows (some v) gs vs z i {more} plain (_, is) next =
      subst (Writes 1 (λ b. serialize_field p f.domain v follows z i b (λ y j c. more y j c)))
        (format_field-plain f.domain v follows z i (format_fields p gs vs) plain
          ∙ sym (format_field-plain f.domain v (bit_follows gs) z i (format_fields p gs vs) plain))
        (field-Writes p f.domain v follows z i is next)

  properties-Writes :
      (properties : Args Double) (fs : List Field) (z : ℤ) (i : ℕ)
      → AreProperties properties fs
      → Writes 1
          (serialize_loop p properties false fs z i)
          (format_fields p (sent_fields properties fs) (sent_values properties fs) z i)
  unfolding serialize_loop format_fields
  properties-Writes properties [] z i h = more_room (omega arith) done-Writes
  properties-Writes properties (f ∷ fs) z i (plain, is, h) =
      found-Writes f (bit_follows fs) _ (sent_fields properties fs) (sent_values properties fs) z i
        plain is (λ y j. properties-Writes properties fs y j h)

  -- The payload of a header frame.
  abbrev pub header_bytes : ClassInfo → ℕ → Args Double → List ℕ
  header_bytes info size properties =
      int_bytes 2 (pos info.index)
      ++ (int_bytes 2 (pos 0)
          ++ (int_bytes 8 (pos size)
              ++ (int_bytes 2 (property_flags p properties (pos 0) 0 info.fields)
                  ++ format_fields p (sent_fields properties info.fields)
                      (sent_values properties info.fields) (pos 0) 0)))

  fill_header-Writes :
      (properties : Args Double) (info : ClassInfo) (channel : ℤ) (size : ℕ)
      → AreProperties properties info.fields
      → Writes 0
          (fill_header p properties info channel size)
          (wire_frame 2 channel (header_bytes info size properties))
  unfolding fill_header fill_properties serialize_fields to_uint8
  fill_header-Writes properties info channel size h =
      subst
        (λ (l : List ℕ).
          Writes 0 (fill_header p properties info channel size) (2 ∷ int_bytes 2 channel ++ l))
        (append_assoc (int_bytes 4 (pos (length bytes))) bytes (206 ∷ []))
        (then-Writes (put-Writes (pos 2))
          (then-Writes (serialize_int-Writes 2 channel (inr (inl refl)))
            (then-Writes
              (with_dummy-Writes (pos 0) bytes (
                then-Writes (serialize_int-Writes 2 _ (inr (inl refl)))
                  (then-Writes (serialize_int-Writes 2 _ (inr (inl refl)))
                    (then-Writes (serialize_int-Writes 8 _ (inr (inr (inr refl))))
                      (then-Writes (serialize_int-Writes 2 _ (inr (inl refl)))
                        (properties-Writes properties info.fields (pos 0) 0 h) (omega arith))
                      (omega arith))
                    (omega arith))
                  (omega arith)))
              (put-Writes (pos 206)) (omega arith))
            (omega arith))
          (omega arith))
    where
      bytes : List ℕ
      bytes = header_bytes info size properties

  -- With room for the frame, `_sendHeader` gives the frame of the header to the socket.
  pub send_header-wire_frame :
      (memory : ℕ → List ℕ) (max_frame_buffer : ℕ) (tables : Tables) (properties : Args Double)
      (info : ClassInfo) (channel : ℤ) (size : ℕ)
      → length (memory max_frame_buffer) ≡ max_frame_buffer
      → lookup ◌==◌ 60 tables.classes ≡ some info
      → AreProperties (with_defaults p properties) info.fields
      → length (header_bytes info size (with_defaults p properties)) + 8 ≤ max_frame_buffer
      → send_header p memory max_frame_buffer tables channel size properties
        ≡ ok (wire_frame 2 channel (header_bytes info size (with_defaults p properties)))
  unfolding send_header
  send_header-wire_frame memory max_frame_buffer tables properties info channel size sized known h
        room =
      let bytes = header_bytes info size (with_defaults p properties) in
      let frame = wire_frame 2 channel bytes in
      let length_frame = length-wire_frame 2 channel bytes in
      let back = drop (length frame) (memory max_frame_buffer) in
      let fill = fill_header-Writes (with_defaults p properties) info channel size h in
      rw known (
        ap (λ (r : Result Buffer). r >>= λ b. ok (take b.used b.mem))
          (fill.run [] (memory max_frame_buffer) (omega arith))
        ∙ ap ok (take-append frame back))

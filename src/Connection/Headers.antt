-- ===== src/Connection/Headers.antt =====
-- `_sendHeader` of lib/connection.js.
use node_amqp.Prelude.{
  ℕ, zero, ◌+◌, ◌-◌, ◌==◌, Bool, true, false, List, [], ◌∷◌, take, Option, none, some, ℤ, pos,
  if◌then◌else◌,
}
use node_amqp.Js.{js_or, js_shl}
use node_amqp.Result.{Result, ok, err, ◌>>=◌, type_error}
use node_amqp.Values.{int, fraction, Value, Platform, text, number, boolean, null, unsupported}
use node_amqp.Definitions.Info.{Field, ClassInfo}
use node_amqp.Definitions.Tables.{Tables, lookup, insert, codes}
use node_amqp.Serializer.Buffer.{put}
use node_amqp.Serializer.Ints.{serialize_int}
use node_amqp.Serializer.Writes.{Writer}
use node_amqp.Serializer.Fields.{Args, same_name, serialize_fields}
use node_amqp.Connection.Methods.{with_dummy}

-- A flag that is set.
unfoldable pub set_flag : Bool → ℤ → ℕ → ℤ
set_flag true flags i = js_or flags (js_shl (pos 1) (15 - i))
set_flag false flags i = flags

module _ (p : Platform) where
  open p use {Double, is_truthy, is_undefined}

  -- What a condition takes a value for.
  unfoldable pub truthy : Value Double → Bool
  truthy (text []) = false
  truthy (number (int (pos zero))) = false
  truthy (boolean b) = b
  truthy null = false
  truthy (number (fraction d)) = is_truthy (number (fraction d))
  truthy unsupported = is_truthy unsupported
  truthy _ = true

  abbrev pub truthy_property : Option (Value Double) → Bool
  truthy_property none = false
  truthy_property (some v) = truthy v

  missing : Option (Value Double) → Bool
  missing (some unsupported) = is_undefined unsupported
  missing (some v) = false
  missing none = true

  -- `_.defaults(properties || {}, {contentType: 'application/octet-stream'})`
  unfoldable pub with_defaults : Args Double → Args Double
  unfolding missing
  with_defaults properties =
      if missing (lookup same_name "contentType" properties)
      then insert same_name "contentType" (text (codes "application/octet-stream")) properties
      else properties

  module _ (properties : Args Double) where
    -- The loop that sets the flags, from the `i`th field on.
    unfoldable pub property_flags : ℤ → ℕ → List Field → ℤ
    unfolding truthy set_flag
    property_flags flags i [] = flags
    property_flags flags i (f ∷ fs) =
        property_flags (set_flag (truthy_property (lookup same_name f.name properties)) flags i)
          (i + 1) fs

    -- The header's body.
    unfoldable pub fill_properties : ClassInfo → ℕ → Writer
    unfolding property_flags
    fill_properties info size b = serialize_int b 2 (pos info.index) >>= λ c.
        serialize_int c 2 (pos 0) >>= λ d. serialize_int d 8 (pos size) >>= λ e.
        serialize_int e 2 (property_flags (pos 0) 0 info.fields) >>= λ f.
        serialize_fields p properties false info.fields f

    unfoldable pub fill_header : ClassInfo → ℤ → ℕ → Writer
    unfolding fill_properties
    fill_header info channel size b = serialize_int (put b (pos 2)) 2 channel >>= λ c.
        with_dummy (pos 0) (fill_properties info size) c >>= λ d. ok (put d (pos 206))

  -- `new Buffer(n)` gives `memory n`; `maxFrameBuffer` changes with `connectionTune`.
  module _ (memory : ℕ → List ℕ) (max_frame_buffer : ℕ) (tables : Tables) where
    filled_header : Option ClassInfo → ℤ → ℕ → Args Double → Result (List ℕ)
    filled_header none channel size properties = err type_error
    filled_header (some info) channel size properties =
        fill_header properties info channel size
          (record { mem = memory max_frame_buffer; used = 0 })
        >>= λ b. ok (take b.used b.mem)

    -- `_sendHeader(channel, size, properties)`: what is given to `write`.
    unfoldable pub send_header : ℤ → ℕ → Args Double → Result (List ℕ)
    unfolding filled_header with_defaults fill_header
    send_header channel size properties =
        filled_header (lookup ◌==◌ 60 tables.classes) channel size (with_defaults properties)

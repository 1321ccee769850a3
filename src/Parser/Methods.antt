-- ===== src/Parser/Methods.antt =====
-- `_parseMethodFrame` and `_parseHeaderFrame` of lib/parser.js.
use node_amqp.Prelude.{
  ℕ, ◌+◌, ◌-◌, ◌==◌, ltb, Bool, true, false, List, [], ◌∷◌, length, Option, none, some, ℤ, pos,
  negsuc, if◌then◌else◌,
}
use node_amqp.Js.{js_and, js_shl}
use node_amqp.Result.{
  Result, Error, ok, err, unknown_method, bad_method, too_many_properties, type_error,
}
use node_amqp.Values.{Platform}
use node_amqp.Definitions.Info.{Field, ClassInfo}
use node_amqp.Definitions.Tables.{Method, Rows, Tables, lookup, get_method}
use node_amqp.Serializer.Fields.{Args}
use node_amqp.Parser.Cursor.{Cursor, Parser, ◌>>=◌, pure}
use node_amqp.Parser.Ints.{parse_int}
use node_amqp.Parser.Frames.{Outcome, returned, thrown, Handlers}
use node_amqp.Parser.Fields.{is_set, parse_fields}

-- `onMethod`, `onContentHeader` and `throwError`.
pub record Callbacks (D S : Type 0) : Type 0 where
  pub on_method : S → ℤ → Method → Args D → Outcome S
  pub on_content_header : S → ℤ → ClassInfo → ℤ → Args D → ℤ → Outcome S
  pub on_error : S → Error → Outcome S

-- A statement that comes after a call.
abbrev pub then_do : {S : Type 0} → Outcome S → (S → Outcome S) → Outcome S
then_do (returned s) f = f s
then_do (thrown s e) f = thrown s e

unfoldable pub method_ids : Parser (ℤ × ℤ)
method_ids = do class_id ← parse_int 2; method_id ← parse_int 2; pure (class_id, method_id)

-- `methodTable[classId]`, and an entry of it.
abbrev pub has_class : Rows → ℤ → Bool
has_class t (pos c) = elim (lookup ◌==◌ c t) [ some row ↦ true | none ↦ false ]
has_class t (negsuc c) = false

unfoldable pub find_method : Rows → ℤ → ℤ → Option Method
find_method t (pos c) (pos m) = get_method c m t
find_method t _ _ = none

unfoldable pub header_ids : Parser (ℤ × ℤ × ℤ)
header_ids = do
  class_index ← parse_int 2
  weight ← parse_int 2
  size ← parse_int 8
  pure (class_index, weight, size)

abbrev find_class : List (ℕ × ClassInfo) → ℤ → Option ClassInfo
find_class t (pos c) = lookup ◌==◌ c t
find_class t (negsuc c) = none

-- The fields that `propertyFlags` has, from the `i`th on. No class has more than 15.
unfoldable pub flagged : ℤ → ℕ → List Field → List Field
flagged flags i [] = []
flagged flags i (f ∷ fs) =
    let rest = flagged flags (i + 1) fs in
    if is_set (js_and flags (js_shl (pos 1) (15 - i))) then f ∷ rest else rest

module _ (p : Platform) (fuel : ℕ) (tables : Tables) {S : Type 0} (h : Callbacks p.Double S) where
  open p use {Double}

  unfoldable pub with_args : S → ℤ → Method → Result (Args Double × Cursor) → Outcome S
  with_args s channel m (ok (args, c)) = h.on_method s channel m args
  with_args s channel m (err e) = thrown s e

  -- An unknown pair of indices. After an `onError` that returns, the method is looked up once more.
  unfoldable pub unknown_pair : S → Bool → Outcome S
  unknown_pair s true =
      then_do (h.on_error s unknown_method)
        λ t. then_do (h.on_error t bad_method) λ u. thrown u type_error
  unknown_pair s false = then_do (h.on_error s unknown_method) λ t. thrown t type_error

  unfoldable pub with_method : S → ℤ → Bool → Option Method → Cursor → Outcome S
  unfolding with_args unknown_pair
  with_method s channel class_known (some m) c =
      with_args s channel m (parse_fields p fuel m.fields c)
  with_method s channel class_known none c = unknown_pair s class_known

  unfoldable pub with_ids : S → ℤ → Result ((ℤ × ℤ) × Cursor) → Outcome S
  unfolding with_method
  with_ids s channel (ok ((class_id, method_id), c)) =
      with_method s channel (has_class tables.method_table class_id)
        (find_method tables.method_table class_id method_id) c
  with_ids s channel (err e) = thrown s e

  -- `_parseMethodFrame(channel, buffer)`
  unfoldable pub parse_method_frame : S → ℤ → List ℕ → Outcome S
  unfolding with_ids
  parse_method_frame s channel buffer =
      with_ids s channel (method_ids (record { mem = buffer; read = 0 }))

  -- From `propertyFlags` on.
  unfoldable pub parse_properties : ClassInfo → Parser (Args Double)
  parse_properties info = do
    property_flags ← parse_int 2
    parse_fields p fuel (flagged property_flags 0 info.fields)

  unfoldable pub with_properties :
      S → ℤ → ClassInfo → ℤ → ℤ → Result (Args Double × Cursor) → Outcome S
  with_properties s channel info weight size (ok (properties, c)) =
      h.on_content_header s channel info weight properties size
  with_properties s channel info weight size (err e) = thrown s e

  unfoldable pub with_class : S → ℤ → Option ClassInfo → ℤ → ℤ → Cursor → Outcome S
  unfolding with_properties parse_properties
  with_class s channel none weight size c = thrown s type_error
  with_class s channel (some info) weight size c =
      then_do (if ltb 15 (length info.fields) then h.on_error s too_many_properties else returned s)
        λ t. with_properties t channel info weight size (parse_properties info c)

  unfoldable pub with_header_ids : S → ℤ → Result ((ℤ × ℤ × ℤ) × Cursor) → Outcome S
  unfolding with_class
  with_header_ids s channel (ok ((class_index, weight, size), c)) =
      with_class s channel (find_class tables.classes class_index) weight size c
  with_header_ids s channel (err e) = thrown s e

  -- `_parseHeaderFrame(channel, buffer)`
  unfoldable pub parse_header_frame : S → ℤ → List ℕ → Outcome S
  unfolding with_header_ids
  parse_header_frame s channel buffer =
      with_header_ids s channel (header_ids (record { mem = buffer; read = 0 }))

  -- What `frameEnd` calls; `onContent` and `onHeartBeat` are called with what they are.
  abbrev pub frame_handlers : (S → ℕ) → (S → ℤ → List ℕ → Outcome S) → (S → Outcome S) → Handlers S
  frame_handlers max_frame_buffer on_content on_heartbeat = record {
    max_frame_buffer = max_frame_buffer;
    on_method = parse_method_frame;
    on_header = parse_header_frame;
    on_content = on_content;
    on_heartbeat = on_heartbeat;
    on_error = h.on_error;
  }

-- ===== src/RoundTrip/Plain.antt =====
-- The values that come back from lib/parser.js as they were given to lib/serializer.js.
use node_amqp.Prelude.{
  ℕ, ◌<◌, ◌≤◌, ◌≡◌, ◌≢◌, refl, sym, ap, ◌∙◌, List, [], ◌∷◌, ◌++◌, append_assoc, length, drop, true,
  false, Bool-cases, ◌==◌, ==_iff, inl, inr,
}
use node_amqp.Result.{Result, ok, ◌>>=◌}
use node_amqp.Values.{
  Text, Value, Items, Entries, Platform, IsFaithful, text, number, boolean, date, bytes, array,
  object, null, unsupported, no_items, item, no_entries, entry,
}
use node_amqp.Serializer.Buffer.{at}
use node_amqp.Serializer.Values.{is_float, serialize_value}
use node_amqp.Serializer.Format.{format, IsSendable}
use node_amqp.Serializer.Refines.{serialize_value-format}
use node_amqp.Parser.Cursor.{Cursor, past}
use node_amqp.Parser.Values.{set_entry, same_text, parse_value}
use node_amqp.RoundTrip.Received.{received, received_items, received_entries, IsReadable}
use node_amqp.RoundTrip.Values.{parse_value-format}

-- One more entry at the end, and the entries of one table behind those of another.
abbrev pub add_last : {D : Type 0} → Entries D → Text → Value D → Entries D
add_last no_entries k v = entry k v no_entries
add_last (entry j w es) k v = entry j w (add_last es k v)

abbrev join : {D : Type 0} → Entries D → Entries D → Entries D
join no_entries fs = fs
join (entry k v es) fs = entry k v (join es fs)

abbrev pub IsAbsent : {D : Type 0} → Text → Entries D → Type 0
IsAbsent k no_entries = Unit
IsAbsent k (entry j w es) = (j ≢ k) × IsAbsent k es

-- No key of the second table is one of the first's, or of an earlier entry's.
abbrev pub AreFresh : {D : Type 0} → Entries D → Entries D → Type 0
AreFresh table no_entries = Unit
AreFresh table (entry k v es) = IsAbsent k table × AreFresh (add_last table k v) es

-- Texts, booleans, buffers, and the integers that fit into 32 bits, in arrays and in objects whose
-- keys are distinct.
abbrev mutual
  pub IsPlain : {D : Type 0} → Value D → Type 0
  IsPlain (text s) = Unit
  IsPlain (number n) = is_float n ≡ false
  IsPlain (boolean b) = Unit
  IsPlain (bytes xs) = Unit
  IsPlain (array xs) = ArePlain xs
  IsPlain (object es) = AreFresh no_entries es × ArePlainEntries es
  IsPlain _ = ⊥

  pub ArePlain : {D : Type 0} → Items D → Type 0
  ArePlain no_items = Unit
  ArePlain (item v xs) = IsPlain v × ArePlain xs

  pub ArePlainEntries : {D : Type 0} → Entries D → Type 0
  ArePlainEntries no_entries = Unit
  ArePlainEntries (entry k v es) = IsPlain v × ArePlainEntries es

same_text→≡ : (s t : Text) → same_text s t ≡ true → s ≡ t
same_text→≡ [] [] h = refl
same_text→≡ [] (y ∷ t) h = cc
same_text→≡ (x ∷ s) [] h = cc
same_text→≡ (x ∷ s) (y ∷ t) h = elim (Bool-cases (x == y)) [
  | inl e ↦ let (equal, _) = ==_iff x y in λ i. equal e i ∷ same_text→≡ s t (rw e at h) i
  | inr e ↦ let clash : false ≡ true = rw e at h in cc
]

different_text : (s t : Text) → s ≢ t → same_text s t ≡ false
different_text s t h = elim (Bool-cases (same_text s t)) [
  | inl e ↦ absurd (h (same_text→≡ s t e))
  | inr e ↦ e
]

set_entry-absent :
    {D : Type 0} (k : Text) (v : Value D) (table : Entries D)
    → IsAbsent k table
    → set_entry k v table ≡ add_last table k v
unfolding set_entry
set_entry-absent k v no_entries h = refl
set_entry-absent k v (entry j w es) (h, hs) =
    rw (different_text j k h) (ap (entry j w) (set_entry-absent k v es hs))

join-no_entries : {D : Type 0} (es : Entries D) → join es no_entries ≡ es
join-no_entries no_entries = refl
join-no_entries (entry k v es) = ap (entry k v) (join-no_entries es)

join-add_last :
    {D : Type 0} (table : Entries D) (k : Text) (v : Value D) (es : Entries D)
    → join (add_last table k v) es ≡ join table (entry k v es)
join-add_last no_entries k v es = refl
join-add_last (entry j w fs) k v es = ap (entry j w) (join-add_last fs k v es)

mutual
  received-IsPlain : {D : Type 0} (v : Value D) → IsPlain v → received v ≡ v
  received-IsPlain (text s) h = refl
  received-IsPlain (number n) h = rw h refl
  received-IsPlain (boolean b) h = refl
  received-IsPlain (bytes xs) h = refl
  received-IsPlain (array xs) h = ap array (received_items-ArePlain xs h)
  received-IsPlain (object es) (fresh, h) =
      ap object (received_entries-ArePlain no_entries es fresh h)
  received-IsPlain (date ms) h = elim h [ ]
  received-IsPlain null h = elim h [ ]
  received-IsPlain unsupported h = elim h [ ]

  received_items-ArePlain : {D : Type 0} (xs : Items D) → ArePlain xs → received_items xs ≡ xs
  received_items-ArePlain no_items h = refl
  received_items-ArePlain (item v xs) (h, hs) =
      λ i. item (received-IsPlain v h i) (received_items-ArePlain xs hs i)

  received_entries-ArePlain :
      {D : Type 0} (table es : Entries D)
      → AreFresh table es
      → ArePlainEntries es
      → received_entries table es ≡ join table es
  received_entries-ArePlain table no_entries fresh h = sym (join-no_entries table)
  received_entries-ArePlain {D = D} table (entry k v es) (absent, fresh) (h, hs) =
      ap (λ (t : Entries D). received_entries t es)
        (ap (λ w. set_entry k w table) (received-IsPlain v h) ∙ set_entry-absent k v table absent)
      ∙ (received_entries-ArePlain (add_last table k v) es fresh hs ∙ join-add_last table k v es)

-- A value written into the bytes `rest`, and a value read from the same place.
abbrev pub write_read_value :
    (p : Platform) → ℕ → Value p.Double → List ℕ → List ℕ → Result (Value p.Double × Cursor)
write_read_value p f v front rest = serialize_value p v (at front rest) >>= λ b.
    parse_value p f (record { mem = b.mem; read = length front })

-- What `serializeValue` writes into a buffer with enough room, `parseValue` reads back as `received`
-- describes it: the theorem for any value that can be sent and read.
pub write_read_value-received :
    (p : Platform) (IsWellFormed : Text → Type 0) (faithful : IsFaithful p IsWellFormed) (f : ℕ)
    (v : Value p.Double) (front rest : List ℕ)
    → IsSendable p v
    → IsReadable p IsWellFormed v
    → length (format p v) < f
    → length (format p v) ≤ length rest
    → write_read_value p f v front rest
      ≡ ok (received v, past (front ++ format p v) (drop (length (format p v)) rest))
write_read_value-received p IsWellFormed faithful f v front rest s r fuel room =
    rw (serialize_value-format p v front rest s room) (
      ap (λ (m : List ℕ). parse_value p f (record { mem = m; read = length front }))
        (append_assoc front (format p v) (drop (length (format p v)) rest))
      ∙ parse_value-format p IsWellFormed faithful f v front _ r fuel)

-- A plain value, written into a buffer with enough room, is read back as it was.
pub write_read_value-IsPlain :
    (p : Platform) (IsWellFormed : Text → Type 0) (faithful : IsFaithful p IsWellFormed) (f : ℕ)
    (v : Value p.Double) (front rest : List ℕ)
    → IsPlain v
    → IsSendable p v
    → IsReadable p IsWellFormed v
    → length (format p v) < f
    → length (format p v) ≤ length rest
    → write_read_value p f v front rest
      ≡ ok (v, past (front ++ format p v) (drop (length (format p v)) rest))
write_read_value-IsPlain p IsWellFormed faithful f v front rest plain s r fuel room =
    rw (received-IsPlain v plain) at
      (write_read_value-received p IsWellFormed faithful f v front rest s r fuel room)

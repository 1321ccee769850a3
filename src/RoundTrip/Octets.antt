-- ===== src/RoundTrip/Octets.antt =====
-- The octets of bits that `serializeFields` of lib/serializer.js writes, and how `parseFields` of
-- lib/parser.js reads one of their bits.
use node_amqp.Prelude.{
  ℕ, ◌+◌, ◌≤◌, ◌≡◌, refl, sym, ap, ◌∙◌, Bool, true, false, List, [], ◌∷◌, ◌++◌, append_assoc,
  length, length-append, Option, get_elem?, ℤ, pos,
}
use node_amqp.Js.{to_uint8}
use node_amqp.Result.{ok}
use node_amqp.Values.{Value, Platform, boolean}
use node_amqp.Definitions.Info.{Domain, Field, bit}
use node_amqp.Serializer.Fields.{is_bit, bit_follows, set_bit}
use node_amqp.Serializer.FieldFormat.{IsParam, AreParams, format_field, format_fields}
use node_amqp.Parser.Cursor.{Parser, ◌>>=◌, past, get_elem?-append}
use node_amqp.Parser.Fields.{bit_at, peeked, parse_bit}
use node_amqp.RoundTrip.Bits.{packed, HoldsBits, packed-HoldsBits}
use node_amqp.RoundTrip.Reads.{Reads}

-- The bits that share an octet with the first field.
abbrev pub run_head : {D : Type 0} → Domain → Value D → List Bool → List Bool
run_head bit (boolean x) bs = x ∷ bs
run_head _ _ bs = []

abbrev pub run : {D : Type 0} → List Field → List (Value D) → List Bool
run (f ∷ fs) (v ∷ vs) = run_head f.domain v (run fs vs)
run _ _ = []

-- No more than eight bits stand in a row.
abbrev pub AreShort : {D : Type 0} → List Field → List (Value D) → Type 0
AreShort (f ∷ fs) (v ∷ vs) = (length (run (f ∷ fs) (v ∷ vs)) ≤ 8) × AreShort fs vs
AreShort _ _ = Unit

abbrev pub OctetHolds : ℤ → ℕ → List Bool → Type 0
OctetHolds z i bs = HoldsBits (to_uint8 (packed z i bs)) i bs

pub fresh-HoldsBits :
    {D : Type 0} (fs : List Field) (vs : List (Value D))
    → AreShort fs vs
    → OctetHolds (pos 0) 0 (run fs vs)
fresh-HoldsBits [] vs h = tt
fresh-HoldsBits (f ∷ fs) [] h = tt
fresh-HoldsBits (f ∷ fs) (v ∷ vs) (h, _) = packed-HoldsBits (run (f ∷ fs) (v ∷ vs)) h

-- What stands behind the octet of the first bits.
abbrev after_head : Bool → List ℕ → List ℕ → List ℕ
after_head true later now = later
after_head false later now = now

pub run-none :
    {D : Type 0} (fs : List Field) (vs : List (Value D)) → bit_follows fs ≡ false → run fs vs ≡ []
run-none [] vs h = refl
run-none (f ∷ fs) [] h = refl
run-none (f ∷ fs) (v ∷ vs) h = none f.domain v (run fs vs) h
  where
    none :
        {D : Type 0} (d : Domain) (v : Value D) (bs : List Bool)
        → is_bit d ≡ false
        → run_head d v bs ≡ []
    none bit v bs h = cc
    none _ v bs h = refl

module _ (p : Platform) where
  open p use {Double}

  head-octet :
      (d : Domain) (v : Value Double) (follows : Bool) (bs : List Bool) (more : ℤ → ℕ → List ℕ)
      (later : List ℕ) (z : ℤ) (i : ℕ)
      → is_bit d ≡ true
      → IsParam p d v
      → (follows ≡ true → (y : ℤ) (j : ℕ) → more y j ≡ to_uint8 (packed y j bs) ∷ later)
      → (follows ≡ false → bs ≡ [])
      → format_field p d v follows z i more
        ≡ to_uint8 (packed z i (run_head d v bs)) ∷ after_head follows later (more (pos 0) 0)
  unfolding format_field
  head-octet bit (boolean x) true bs more later z i e h inside _ =
      inside refl (set_bit x z i) (i + 1)
  head-octet bit (boolean x) false bs more later z i e h _ last = rw (last refl) refl
  head-octet bit _ follows bs more later z i e h inside last = elim h [ ]
  head-octet _ v follows bs more later z i e h inside last = cc

  abbrev pub after : List Field → List (Value Double) → List ℕ
  after (f ∷ fs) (v ∷ vs) =
      after_head (bit_follows fs) (after fs vs) (format_fields p fs vs (pos 0) 0)
  after _ _ = []

  pub first-octet :
      (fs : List Field) (vs : List (Value Double)) (z : ℤ) (i : ℕ)
      → AreParams p fs vs
      → bit_follows fs ≡ true
      → format_fields p fs vs z i ≡ to_uint8 (packed z i (run fs vs)) ∷ after fs vs
  unfolding format_fields
  first-octet [] vs z i h e = cc
  first-octet (f ∷ fs) [] z i h e = elim h [ ]
  first-octet (f ∷ fs) (v ∷ vs) z i (h, hs) e =
      head-octet f.domain v (bit_follows fs) (run fs vs) (format_fields p fs vs) (after fs vs) z i e
        h (λ l y j. first-octet fs vs y j hs l) (run-none fs vs)

  bit-here :
      (i w : ℕ) (front back : List ℕ) (x : Bool)
      → bit_at (pos w) i ≡ x
      → bit_at (peeked (get_elem? (front ++ w ∷ back) (length front))) i ≡ x
  bit-here i w front back x e =
      ap (λ (o : Option ℕ). bit_at (peeked o) i) (get_elem?-append front w back) ∙ e

  -- A bit that is not the last of its octet leaves the octet to be read again.
  pub peek-Reads :
      (i w : ℕ) (x : Bool) {A : Type 0} (k : Value Double × ℕ → Parser A) {ys : List ℕ} {a : A}
      → bit_at (pos w) i ≡ x
      → Reads (k (boolean x, i + 1)) (w ∷ ys) a
      → Reads (λ c. ◌>>=◌ (parse_bit p true i) k c) (w ∷ ys) a
  unfolding parse_bit
  peek-Reads i w x k {ys} e h = record {
    run = λ front back.
        ap (λ b. k (boolean b, i + 1) (past front (w ∷ (ys ++ back))))
          (bit-here i w front (ys ++ back) x e)
        ∙ h.run front back;
  }

  pub last-Reads :
      (i w : ℕ) (x : Bool)
      → bit_at (pos w) i ≡ x
      → Reads (parse_bit p false i) (w ∷ []) (boolean x, 0)
  unfolding parse_bit
  last-Reads i w x e = record {
    run = λ front back. λ j. ok (
      (boolean (bit-here i w front back x e j), 0),
      record {
        mem = sym (append_assoc front (w ∷ []) back) j;
        read = sym (length-append front (w ∷ [])) j;
      },
    );
  }

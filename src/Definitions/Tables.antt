-- ===== src/Definitions/Tables.antt =====
-- lib/definitions.js: the look-up tables `methodTable`, `methods` and `classes`.
use Prim.Native.Char.{code}
use Prim.Native.String.{String}
use node_amqp.Prelude.{
  ℕ, ◌-◌, ◌≡◌, ◌↔◌, inl, inr, ◌∙◌, refl, Bool, Bool-cases, ==_iff, true, false, ◌&&◌, List, [], ◌∷◌,
  ◌++◌, Option, none, some, ◌==◌, leb, if◌then◌else◌,
}
use node_amqp.Definitions.Info.{Field, MethodInfo, ClassInfo}

-- A text by its character codes.
abbrev pub codes : String → List ℕ
codes String.[] = []
codes (String.◌∷◌ c s) = code c ∷ codes s

unfoldable pub same_codes : List ℕ → List ℕ → Bool
same_codes [] [] = true
same_codes (x ∷ xs) (y ∷ ys) = x == y && same_codes xs ys
same_codes _ _ = false

-- A method as the handlers see it. JavaScript compares these objects by identity.
pub record Method : Type 0 where
  pub name : List ℕ
  pub fields : List Field
  pub method_index : ℕ
  pub class_index : ℕ

-- An object used as a map with keys that `eq` compares.
module _ {ℓ κ} {K : Type κ} (eq : K → K → Bool) {V : Type ℓ} where
  unfoldable pub lookup : K → List (K × V) → Option V
  lookup k [] = none
  lookup k ((j, v) ∷ m) = if eq j k then some v else lookup k m

  unfoldable pub insert : K → V → List (K × V) → List (K × V)
  insert k v [] = (k, v) ∷ []
  insert k v ((j, w) ∷ m) = if eq j k then (j, v) ∷ m else (j, w) ∷ insert k v m

module _ {ℓ κ} {K : Type κ} (eq : K → K → Bool) (iff : (a b : K) → (eq a b ≡ true) ↔ (a ≡ b))
    {V : Type ℓ} where
  pub lookup-insert_self :
      (k : K) (v : V) (m : List (K × V)) → lookup eq k (insert eq k v m) ≡ some v
  unfolding lookup insert
  lookup-insert_self k v [] = rw ((iff k k).1 refl)
  lookup-insert_self k v ((j, w) ∷ m) = elim (Bool-cases (eq j k)) [
    | inl e ↦ rw (e, lookup, e)
    | inr e ↦ rw (e, lookup, e) (lookup-insert_self k v m)
  ]

  pub lookup-insert_ne :
      (k j : K) (v : V) (m : List (K × V))
      → eq k j ≡ false
      → lookup eq j (insert eq k v m) ≡ lookup eq j m
  unfolding lookup insert
  lookup-insert_ne k j v [] h = rw h
  lookup-insert_ne k j v ((i, w) ∷ m) h = elim (Bool-cases (eq i k)) [
    | inl e ↦ rw (e, lookup, (iff i k).0 e, h)
    | inr e ↦ rw (e, lookup, lookup-insert_ne k j v m h)
  ]

abbrev pub Rows : Type 0
Rows = List (ℕ × List (ℕ × Method))

pub record Tables : Type 0 where
  pub method_table : Rows
  pub methods : List (List ℕ × Method)
  pub classes : List (ℕ × ClassInfo)

or_empty : Option (List (ℕ × Method)) → List (ℕ × Method)
or_empty none = []
or_empty (some row) = row

-- `methodTable[c][m] = method`, with the row made if it is not there.
unfoldable pub set_method : ℕ → ℕ → Method → Rows → Rows
unfolding or_empty
set_method c m method t = insert ◌==◌ c (insert ◌==◌ m method (or_empty (lookup ◌==◌ c t))) t

in_row : ℕ → Option (List (ℕ × Method)) → Option Method
in_row m none = none
in_row m (some row) = lookup ◌==◌ m row

-- `methodTable[c] && methodTable[c][m]`
unfoldable pub get_method : ℕ → ℕ → Rows → Option Method
unfolding in_row
get_method c m t = in_row m (lookup ◌==◌ c t)

pub get_method-set_self :
    (c m : ℕ) (x : Method) (t : Rows) → get_method c m (set_method c m x t) ≡ some x
unfolding get_method set_method
get_method-set_self c m x t =
    rw (lookup-insert_self ◌==◌ ==_iff c (insert ◌==◌ m x (or_empty (lookup ◌==◌ c t))) t)
      (lookup-insert_self ◌==◌ ==_iff m x (or_empty (lookup ◌==◌ c t)))

lookup-or_empty : (m : ℕ) (o : Option (List (ℕ × Method))) → lookup ◌==◌ m (or_empty o) ≡ in_row m o
unfolding or_empty in_row lookup
lookup-or_empty m none = refl
lookup-or_empty m (some row) = refl

pub get_method-set_ne :
    (c m c' m' : ℕ) (x : Method) (t : Rows)
    → (c == c' && m == m') ≡ false
    → get_method c' m' (set_method c m x t) ≡ get_method c' m' t
unfolding get_method set_method
get_method-set_ne c m c' m' x t h = elim (Bool-cases (c == c')) [
  | inl e ↦
      rw
        (
          ← (==_iff c c').0 e,
          lookup-insert_self ◌==◌ ==_iff c (insert ◌==◌ m x (or_empty (lookup ◌==◌ c t))) t,
        )
        (lookup-insert_ne ◌==◌ ==_iff m m' x (or_empty (lookup ◌==◌ c t)) (rw e at h)
          ∙ lookup-or_empty m' (lookup ◌==◌ c t))
  | inr e ↦ rw (lookup-insert_ne ◌==◌ ==_iff c c' _ t e)
]

upper : ℕ → ℕ
upper c = if leb b'a' c && leb c b'z' then c - 32 else c

-- `name[0].toUpperCase() + name.slice(1)`
capitalized : List ℕ → List ℕ
unfolding upper
capitalized [] = []
capitalized (c ∷ cs) = upper c ∷ cs

-- The object that the inner loop makes.
unfoldable pub method_of : ClassInfo → MethodInfo → Method
unfolding capitalized
method_of c m = record {
  name = codes c.name ++ capitalized (codes m.name);
  fields = m.fields;
  method_index = m.index;
  class_index = c.index;
}

-- The inner loop, over `classInfo.methods`.
unfoldable pub add_methods : ClassInfo → List MethodInfo → Tables → Tables
unfolding method_of set_method
add_methods c [] t = t
add_methods c (m ∷ ms) t = add_methods c ms (record t {
  method_table = set_method c.index m.index (method_of c m) t.method_table;
  methods = insert same_codes (method_of c m).name (method_of c m) t.methods;
})

-- The outer loop, over `protocol.classes`.
unfoldable pub add_classes : List ClassInfo → Tables → Tables
unfolding add_methods
add_classes [] t = t
add_classes (c ∷ cs) t =
    add_classes cs
      (add_methods c c.methods (record t { classes = insert ◌==◌ c.index c t.classes }))

unfoldable pub tables_of : List ClassInfo → Tables
unfolding add_classes
tables_of p = add_classes p (record { method_table = []; methods = []; classes = [] })

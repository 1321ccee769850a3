-- ===== src/Definitions/Complete.antt =====
-- lib/definitions.js: the tables find every method that the protocol defines.
use node_amqp.Prelude.{
  ℕ, ◌≡◌, refl, ◌∙◌, subst, ◌⊎◌, inl, inr, ◌↔◌, Bool, true, not, ◌&&◌, List, [], ◌∷◌, ◌++◌, some,
  ◌==◌, arith,
}
use node_amqp.Definitions.Info.{MethodInfo, ClassInfo}
use node_amqp.Definitions.Tables.{
  Method, Tables, lookup, insert, same_codes, set_method, get_method, get_method-set_self,
  get_method-set_ne, lookup-insert_self, lookup-insert_ne, method_of, add_methods, add_classes,
  tables_of,
}

pub same_codes_iff : (a b : List ℕ) → (same_codes a b ≡ true) ↔ (a ≡ b)
unfolding same_codes
same_codes_iff [] [] = (λ _. refl, λ _. refl)
same_codes_iff [] (y ∷ b) = (λ h. cc, λ h. cc)
same_codes_iff (x ∷ a) [] = (λ h. cc, λ h. cc)
same_codes_iff (x ∷ a) (y ∷ b) =
    (λ h. ground (arith, (same_codes_iff a b).0), λ h. ground (arith, (same_codes_iff a b).1))

-- Two methods that no table confuses.
unfoldable pub differ : Method → Method → Bool
differ x y =
    not (x.class_index == y.class_index && x.method_index == y.method_index)
    && not (same_codes x.name y.name)

unfoldable pub differ_all : Method → List Method → Bool
unfolding differ
differ_all x [] = true
differ_all x (y ∷ ys) = differ y x && differ_all x ys

-- No two methods of the list share their pair of indices or their name.
unfoldable pub all_differ : List Method → Bool
unfolding differ_all
all_differ [] = true
all_differ (x ∷ xs) = differ_all x xs && all_differ xs

methods_of : ClassInfo → List MethodInfo → List Method
methods_of c [] = []
methods_of c (m ∷ ms) = method_of c m ∷ methods_of c ms

-- The methods of a protocol, in order.
unfoldable pub all_methods : List ClassInfo → List Method
unfolding methods_of
all_methods [] = []
all_methods (c ∷ cs) = methods_of c c.methods ++ all_methods cs

abbrev pub In : {A : Type 0} → A → List A → Type 0
In x [] = ⊥
In x (y ∷ ys) = (y ≡ x) ⊎ In x ys

-- The two tables with one method more.
abbrev store : Method → Tables → Tables
store x t = record t {
  method_table = set_method x.class_index x.method_index x t.method_table;
  methods = insert same_codes x.name x t.methods;
}

-- The two tables, filled from a list of methods.
fill : List Method → Tables → Tables
fill [] t = t
fill (x ∷ xs) t = fill xs (store x t)

fill-append : (xs ys : List Method) (t : Tables) → fill (xs ++ ys) t ≡ fill ys (fill xs t)
unfolding fill
fill-append [] ys t = refl
fill-append (x ∷ xs) ys t = fill-append xs ys _

-- The tables without `classes`, which the look-ups of methods do not read.
abbrev Agree : Tables → Tables → Type 0
Agree s t = (s.method_table ≡ t.method_table) × (s.methods ≡ t.methods)

fill-Agree : (xs : List Method) (s t : Tables) → Agree s t → Agree (fill xs s) (fill xs t)
unfolding fill
fill-Agree [] s t h = h
fill-Agree (x ∷ xs) s t (h, k) = fill-Agree xs _ _ (rw h, rw k)

add_methods-fill :
    (c : ClassInfo) (ms : List MethodInfo) (t : Tables)
    → add_methods c ms t ≡ fill (methods_of c ms) t
unfolding add_methods fill methods_of
add_methods-fill c [] t = refl
add_methods-fill c (m ∷ ms) t = add_methods-fill c ms _

add_classes-Agree :
    (cs : List ClassInfo) (s t : Tables)
    → Agree s t
    → Agree (add_classes cs s) (fill (all_methods cs) t)
unfolding add_classes all_methods
add_classes-Agree [] s t h = unfold fill in h
add_classes-Agree (c ∷ cs) s t h = rw (fill-append (methods_of c c.methods) (all_methods cs) t) (
    add_classes-Agree cs _ _
      (rw (add_methods-fill c c.methods _) (fill-Agree (methods_of c c.methods) _ t h)))

-- What the two tables say of a method.
abbrev Finds : Tables → Method → Type 0
Finds t x =
    (get_method x.class_index x.method_index t.method_table ≡ some x)
    × (lookup same_codes x.name t.methods ≡ some x)

store-Finds : (x : Method) (t : Tables) → Finds (store x t) x
store-Finds x t = (
  get_method-set_self x.class_index x.method_index x t.method_table,
  lookup-insert_self same_codes same_codes_iff x.name x t.methods,
)

fill-keeps :
    (ys : List Method) (x : Method) (t : Tables)
    → differ_all x ys ≡ true
    → Finds t x
    → Finds (fill ys t) x
unfolding fill differ_all
fill-keeps [] x t d h = h
fill-keeps (y ∷ ys) x t d h = fill-keeps ys x _ (ground arith) (
  get_method-set_ne y.class_index y.method_index x.class_index x.method_index y t.method_table
        (ground arith)
      ∙ h.0,
  lookup-insert_ne same_codes same_codes_iff y.name x.name y t.methods (ground arith) ∙ h.1,
)

fill-Finds :
    (xs : List Method) (x : Method) (t : Tables)
    → all_differ xs ≡ true
    → In x xs
    → Finds (fill xs t) x
unfolding fill all_differ
fill-Finds [] x t d m = elim m [ ]
fill-Finds (y ∷ xs) x t d (inl e) =
    subst (Finds (fill xs (store y t))) e
      (fill-keeps xs y (store y t) (ground arith) (store-Finds y t))
fill-Finds (y ∷ xs) x t d (inr m) = fill-Finds xs x (store y t) (ground arith) m

-- Whatever the protocol, if no two of its methods share their indices or their name, then after the
-- two loops `methodTable` at the indices of each method and `methods` at its name hold that method.
pub tables_of-Finds :
    (p : List ClassInfo) (x : Method)
    → all_differ (all_methods p) ≡ true
    → In x (all_methods p)
    → (get_method x.class_index x.method_index (tables_of p).method_table ≡ some x)
      × (lookup same_codes x.name (tables_of p).methods ≡ some x)
unfolding tables_of
tables_of-Finds p x d m =
    let none_yet : Tables = record { method_table = []; methods = []; classes = [] } in
    let (h, k) = add_classes-Agree p none_yet none_yet (refl, refl) in
    let (f, g) = fill-Finds (all_methods p) x none_yet d m in (rw h f, rw k g)

-- ===== src/Queue/Unbinding.antt =====
-- lib/queue.js: what `unbind` leaves of the bindings that `bind` records.
use node_amqp.Prelude.{
  ℕ, zero, suc, ◌+◌, ◌-◌, ◌≡◌, refl, sym, ap, ◌∙◌, arith, ◌==◌, ==_iff, Bool-cases, inl, inr, List,
  [], ◌∷◌, All, Option, none, some, subst, ℤ,
}
use node_amqp.Definitions.Tables.{lookup, insert, lookup-insert_self}
use node_amqp.Queue.Bindings.{
  Count, count, not_a_number, Keys, Bindings, or_none, counted_up, counted_down, remove, kept_count,
  kept_keys, bind, unbound, unbind, new_bindings,
}

insert-insert {ℓ} :
    {V : Type ℓ} (k : ℕ) (v w : V) (m : List (ℕ × V))
    → insert ◌==◌ k v (insert ◌==◌ k w m) ≡ insert ◌==◌ k v m
unfolding insert
insert-insert k v w [] = rw ((==_iff k k).1 refl) refl
insert-insert k v w ((j, u) ∷ m) = elim (Bool-cases (j == k)) [
  | inl e ↦ rw (e, insert, e) refl
  | inr e ↦ rw (e, insert, e) (ap (◌∷◌ (j, u)) (insert-insert k v w m))
]

insert-lookup {ℓ} :
    {V : Type ℓ} (k : ℕ) (v : V) (m : List (ℕ × V))
    → lookup ◌==◌ k m ≡ some v
    → insert ◌==◌ k v m ≡ m
unfolding insert lookup
insert-lookup k v [] h = absurd (cc)
insert-lookup k v ((j, u) ∷ m) h = elim (Bool-cases (j == k)) [
  | inl e ↦
      let here : ◌≡◌ {A = Option _} (some u) (some v) = rw e at h in
      let same : u ≡ v = cc in rw e (λ i. (j, sym same i) ∷ m)
  | inr e ↦ rw e (ap (◌∷◌ (j, u)) (insert-lookup k v m (rw e at h)))
]

remove-absent {ℓ} :
    {V : Type ℓ} (k : ℕ) (m : List (ℕ × V)) → lookup ◌==◌ k m ≡ none → remove k m ≡ m
unfolding remove lookup
remove-absent k [] h = refl
remove-absent k ((j, u) ∷ m) h = elim (Bool-cases (j == k)) [
  | inl e ↦ let clash : ◌≡◌ {A = Option _} (some u) none = rw e at h in absurd (cc)
  | inr e ↦ rw e (ap (◌∷◌ (j, u)) (remove-absent k m (rw e at h)))
]

remove-insert {ℓ} :
    {V : Type ℓ} (k : ℕ) (v : V) (m : List (ℕ × V))
    → lookup ◌==◌ k m ≡ none
    → remove k (insert ◌==◌ k v m) ≡ m
unfolding remove insert lookup
remove-insert k v [] h = rw ((==_iff k k).1 refl) refl
remove-insert k v ((j, u) ∷ m) h = elim (Bool-cases (j == k)) [
  | inl e ↦ let clash : ◌≡◌ {A = Option _} (some u) none = rw e at h in absurd (cc)
  | inr e ↦ rw (e, remove, e) (ap (◌∷◌ (j, u)) (remove-insert k v m (rw e at h)))
]

lookup-All {ℓ m} :
    {V : Type ℓ} (P : V → Type m) (k : ℕ) (v : V) (xs : List (ℕ × V))
    → All (λ e. P e.1) xs
    → lookup ◌==◌ k xs ≡ some v
    → P v
unfolding lookup
lookup-All P k v [] h e = absurd (cc)
lookup-All P k v ((j, u) ∷ xs) (here, h) e = elim (Bool-cases (j == k)) [
  | inl f ↦
      let same : ◌≡◌ {A = Option _} (some u) (some v) = rw f at e in
      let value : u ≡ v = cc in subst P value here
  | inr f ↦ lookup-All P k v xs h (rw f at e)
]

-- Entries are counted from 1 on, and an exchange has entries.
abbrev pub IsCounted : Count → Type 0
IsCounted (count (suc n)) = Unit
IsCounted _ = ⊥

abbrev pub HasEntries : Keys → Type 0
HasEntries [] = ⊥
HasEntries (k ∷ ks) = All (λ e. IsCounted e.1) (k ∷ ks)

abbrev pub IsRecorded : Bindings → Type 0
IsRecorded b = All (λ e. HasEntries e.1) b.bindings

-- The count of a key goes up and down again.
counted-back :
    (key : ℕ) (o : Option Count) (ks : Keys)
    → lookup ◌==◌ key ks ≡ o
    → ((c : Count) → o ≡ some c → IsCounted c)
    → kept_count key (counted_down (some (counted_up o))) (insert ◌==◌ key (counted_up o) ks) ≡ ks
unfolding kept_count
counted-back key none ks e h = remove-insert key (count 1) ks e
counted-back key (some not_a_number) ks e h = absurd (h not_a_number refl)
counted-back key (some (count zero)) ks e h = absurd (h (count 0) refl)
counted-back key (some (count (suc n))) ks e h =
    ap (λ l. kept_count key (count l) (insert ◌==◌ key (count (suc n + 1)) ks)) (back n)
    ∙ (insert-insert key (count (suc n)) (count (suc n + 1)) ks
        ∙ insert-lookup key (count (suc n)) ks e)
  where
    back : (n : ℕ) → suc n + 1 - 1 ≡ suc n
    back n = omega arith

-- The keys of an exchange are there again.
kept-back :
    (x : ℕ) (o : Option Keys) (more : Keys) (bs : List (ℕ × Keys))
    → lookup ◌==◌ x bs ≡ o
    → ((ks : Keys) → o ≡ some ks → HasEntries ks)
    → kept_keys x (or_none o) (insert ◌==◌ x more bs) ≡ bs
unfolding kept_keys
kept-back x none more bs e h = remove-insert x more bs e
kept-back x (some []) more bs e h = absurd (h [] refl)
kept-back x (some (k ∷ ks)) more bs e h =
    insert-insert x (k ∷ ks) more bs ∙ insert-lookup x (k ∷ ks) bs e

key-IsCounted :
    (key : ℕ) (o : Option Keys)
    → ((ks : Keys) → o ≡ some ks → HasEntries ks)
    → (c : Count) → lookup ◌==◌ key (or_none o) ≡ some c
    → IsCounted c
unfolding lookup
key-IsCounted key none h c e = absurd (cc)
key-IsCounted key (some []) h c e = absurd (cc)
key-IsCounted key (some (k ∷ ks)) h c e = lookup-All IsCounted key c (k ∷ ks) (h (k ∷ ks) refl) e

-- Where every entry is counted from 1 on and every exchange has an entry, as `bind` and `unbind` leave
-- them from the start: once a queue has bound and unbound the same exchange and key, its bindings, which a reconnection
-- makes again, are what they were before, all entries with their counts and in their order.
pub bindings-unbind-bind :
    (x key : ℕ) (b : Bindings) → IsRecorded b → (unbind x key (bind x key b)).bindings ≡ b.bindings
unfolding bind unbind unbound
bindings-unbind-bind x key b recorded =
    let o = lookup ◌==◌ x b.bindings in
    let keys = or_none o in
    let old = lookup ◌==◌ key keys in
    let more : Keys = insert ◌==◌ key (counted_up old) keys in
    let entries : (ks : Keys) → o ≡ some ks → HasEntries ks =
      λ ks e. lookup-All HasEntries x ks b.bindings recorded e in
    ap (λ (l : Option Keys). unbound x key l (insert ◌==◌ x more b.bindings))
      (lookup-insert_self ◌==◌ ==_iff x more b.bindings)
    ∙ (ap
          (λ (l : Option Count).
            kept_keys x (kept_count key (counted_down l) more) (insert ◌==◌ x more b.bindings))
          (lookup-insert_self ◌==◌ ==_iff key (counted_up old) keys)
        ∙ (ap (λ (ks : Keys). kept_keys x ks (insert ◌==◌ x more b.bindings))
              (counted-back key old keys refl (key-IsCounted key o entries))
            ∙ kept-back x o more b.bindings refl entries))

All-insert {ℓ m} :
    {V : Type ℓ} (P : V → Type m) (k : ℕ) (v : V) (xs : List (ℕ × V))
    → P v
    → All (λ e. P e.1) xs
    → All (λ e. P e.1) (insert ◌==◌ k v xs)
unfolding insert
All-insert P k v [] p h = (p, tt)
All-insert P k v ((j, u) ∷ xs) p (here, h) = elim (Bool-cases (j == k)) [
  | inl e ↦ rw e (p, h)
  | inr e ↦ rw e (here, All-insert P k v xs p h)
]

All-remove {ℓ m} :
    {V : Type ℓ} (P : V → Type m) (k : ℕ) (xs : List (ℕ × V))
    → All (λ e. P e.1) xs
    → All (λ e. P e.1) (remove k xs)
unfolding remove
All-remove P k [] h = tt
All-remove P k ((j, u) ∷ xs) (here, h) = elim (Bool-cases (j == k)) [
  | inl e ↦ rw e (All-remove P k xs h)
  | inr e ↦ rw e (here, All-remove P k xs h)
]

abbrev AreCounted : Keys → Type 0
AreCounted ks = All (λ e. IsCounted e.1) ks

HasEntries-insert :
    (key : ℕ) (c : Count) (ks : Keys)
    → IsCounted c
    → AreCounted ks
    → HasEntries (insert ◌==◌ key c ks)
unfolding insert
HasEntries-insert key c [] p h = (p, tt)
HasEntries-insert key c ((j, u) ∷ ks) p h = elim (Bool-cases (j == key)) [
  | inl e ↦ rw e (p, h.1)
  | inr e ↦ rw e (h.0, All-insert IsCounted key c ks p h.1)
]

HasEntries-counted : (ks : Keys) → HasEntries ks → AreCounted ks
HasEntries-counted [] h = tt
HasEntries-counted (k ∷ ks) h = h

AreCounted-kept_count :
    (key : ℕ) (c : Count) (ks : Keys) → AreCounted ks → AreCounted (kept_count key c ks)
unfolding kept_count
AreCounted-kept_count key (count (suc n)) ks h = All-insert IsCounted key (count (suc n)) ks tt h
AreCounted-kept_count key (count zero) ks h = All-remove IsCounted key ks h
AreCounted-kept_count key not_a_number ks h = All-remove IsCounted key ks h

IsCounted-counted_up : (o : Option Count) → IsCounted (counted_up o)
IsCounted-counted_up none = tt
IsCounted-counted_up (some not_a_number) = tt
IsCounted-counted_up (some (count n)) = subst (λ m. IsCounted (count m)) (later n) tt
  where
    later : (n : ℕ) → suc n ≡ n + 1
    later n = omega arith

pub IsRecorded-new : (binds : List (ℕ × ℤ)) → IsRecorded (new_bindings binds)
IsRecorded-new binds = tt

pub IsRecorded-bind : (x key : ℕ) (b : Bindings) → IsRecorded b → IsRecorded (bind x key b)
unfolding bind
IsRecorded-bind x key b h =
    All-insert HasEntries x _ b.bindings
      (HasEntries-insert key _ (or_none (lookup ◌==◌ x b.bindings))
        (IsCounted-counted_up (lookup ◌==◌ key (or_none (lookup ◌==◌ x b.bindings))))
        (counted (lookup ◌==◌ x b.bindings)
          (λ ks e. HasEntries-counted ks (lookup-All HasEntries x ks b.bindings h e))))
      h
  where
    counted :
        (o : Option Keys) → ((ks : Keys) → o ≡ some ks → AreCounted ks) → AreCounted (or_none o)
    counted none f = tt
    counted (some ks) f = f ks refl

pub IsRecorded-unbind : (x key : ℕ) (b : Bindings) → IsRecorded b → IsRecorded (unbind x key b)
unfolding unbind unbound kept_keys
IsRecorded-unbind x key b h =
    left (lookup ◌==◌ x b.bindings) (λ ks e. lookup-All HasEntries x ks b.bindings h e)
  where
    kept : (ks : Keys) → AreCounted ks → All (λ e. HasEntries e.1) (kept_keys x ks b.bindings)
    kept [] k = All-remove HasEntries x b.bindings h
    kept (e ∷ ks) k = All-insert HasEntries x (e ∷ ks) b.bindings k h

    left :
        (o : Option Keys)
        → ((ks : Keys) → o ≡ some ks → HasEntries ks)
        → All (λ e. HasEntries e.1) (unbound x key o b.bindings)
    left none f = h
    left (some ks) f = kept _ (AreCounted-kept_count key _ ks (HasEntries-counted ks (f ks refl)))

-- ===== src/Connection/ChannelIds.antt =====
-- `generateChannelId` of lib/connection.js.
use node_amqp.Prelude.{
  ℕ, zero, suc, ◌+◌, ◌-◌, ◌%◌, ◌<◌, ◌≤◌, ◌≡◌, refl, sym, ◌∙◌, arith, ◌⊎◌, inl, inr, Bool, true,
  false, Bool-cases, leb, ◌==◌, if◌then◌else◌, ==-ne, ==_iff,
}
use native.Mathlib.Nat.{mod-eq_of_lt, mod-lt, mod_self}
use mathlib.Core.Logic.{◌≢◌}
use node_amqp.Result.{Result, ok, err, no_channel_id, out_of_fuel}

different : (a b : ℕ) → (a == b) ≡ false → a ≢ b
different a b h = ground arith

le_cases : (a b : ℕ) → a ≤ b → (a < b) ⊎ (a ≡ b)
le_cases a b h = ground arith

-- `channels` tells which ids have an entry in `this.channels`.
module _ (channels : ℕ → Bool) (channel_max counter : ℕ) where
  -- The loop, from the id of the round before.
  unfoldable pub search_channel_id : ℕ → ℕ → Result ℕ
  search_channel_id zero before = err out_of_fuel
  search_channel_id (suc f) before =
      let channel_id = before % channel_max + 1 in
      let rest = search_channel_id f channel_id in
      if channels channel_id
      then if channel_id == counter then err no_channel_id else rest
      else ok channel_id

  -- `generateChannelId()`, which also makes the id the new `channelCounter`.
  unfoldable pub generate_channel_id : Result ℕ
  unfolding search_channel_id
  generate_channel_id = search_channel_id channel_max counter

  -- The ids that the loop has met once it has come to `id`: those behind the counter up to `id`, or, once
  -- it has begun again, also those up to `id` from 1 on.
  abbrev IsPassed : ℕ → ℕ → Type 0
  IsPassed id j =
      ((counter ≤ id) × (counter < j) × (j ≤ id)) ⊎ ((id < counter) × ((counter < j) ⊎ (j ≤ id)))

  abbrev ArePassedTaken : ℕ → Type 0
  ArePassedTaken id = (j : ℕ) → 1 ≤ j → j ≤ channel_max → IsPassed id j → channels j ≡ true

  -- The rounds that are left before the loop comes back to the counter.
  abbrev rounds_left : ℕ → ℕ
  rounds_left id = if leb counter id then channel_max - id + counter else counter - id

  -- The result of a search: a free id with all ids before it taken, or every id is taken.
  abbrev pub IsFound : Result ℕ → Type 0
  IsFound r =
      ((id : ℕ) × (r ≡ ok id) × (1 ≤ id) × (id ≤ channel_max) × (channels id ≡ false))
      ⊎ ((r ≡ err no_channel_id) × ((j : ℕ) → 1 ≤ j → j ≤ channel_max → channels j ≡ true))

  -- The id that follows another one.
  abbrev Follows : ℕ → ℕ → Type 0
  Follows before id =
      ((before < channel_max) × (id ≡ before + 1)) ⊎ ((before ≡ channel_max) × (id ≡ 1))

  next-Follows : (before : ℕ) → before ≤ channel_max → Follows before (before % channel_max + 1)
  next-Follows before b = elim (le_cases before channel_max b) [
    | inl below ↦ inl (below, omega (arith, mod-eq_of_lt below))
    | inr last ↦ inr (last, (rw last (omega (arith, mod_self channel_max))))
  ]

  -- Where the search does not start at 0, or there is a free id, it comes to an end.
  abbrev pub IsLive : Type 0
  IsLive = (1 ≤ counter) ⊎ ((j : ℕ) × (1 ≤ j) × (j ≤ channel_max) × (channels j ≡ false))

  module _ (before id : ℕ) (step : Follows before id) (b : before ≤ channel_max)
      (c : counter ≤ channel_max) (some : 1 ≤ rounds_left before) where
    IsPassed-before :
        (j : ℕ) → 1 ≤ j → j ≤ channel_max → IsPassed id j → (j ≡ id) ⊎ IsPassed before j
    IsPassed-before j p m h = ground arith

    IsPassed-all : id ≡ counter → (j : ℕ) → 1 ≤ j → j ≤ channel_max → (j ≡ id) ⊎ IsPassed before j
    IsPassed-all e j p m = ground arith

    fewer_rounds : id ≢ counter → suc (rounds_left id) ≡ rounds_left before
    fewer_rounds n = ground arith

    now_taken :
        channels id ≡ true
        → ArePassedTaken before
        → (j : ℕ) → 1 ≤ j
        → j ≤ channel_max
        → (j ≡ id) ⊎ IsPassed before j
        → channels j ≡ true
    now_taken used taken j p m (inl e) = rw e used
    now_taken used taken j p m (inr h) = taken j p m h

    round-IsPassed : (j : ℕ) → 1 ≤ j → j ≤ channel_max → (1 ≤ rounds_left id) ⊎ IsPassed id j
    round-IsPassed j p m = ground arith

    goes_on :
        IsLive → channels id ≡ true → ArePassedTaken before → id ≢ counter → 1 ≤ rounds_left id
    goes_on (inl l) used taken n = ground arith
    goes_on (inr (j, p, m, free)) used taken n = elim (round-IsPassed j p m) [
      | inl more ↦ more
      | inr h ↦
          let clash : true ≡ false =
            sym (now_taken used taken j p m (IsPassed-before j p m h)) ∙ free in
          cc
    ]

  search-IsFound :
      (f before : ℕ)
      → IsLive
      → counter ≤ channel_max
      → before ≤ channel_max
      → ArePassedTaken before
      → rounds_left before ≤ f
      → 1 ≤ rounds_left before
      → IsFound (search_channel_id f before)
  unfolding search_channel_id
  search-IsFound zero before live c b taken fuel some = absurd (omega arith)
  search-IsFound (suc f) before live c b taken fuel some =
      let id = before % channel_max + 1 in
      let step = next-Follows before b in
      elim (Bool-cases (channels id)) [
        | inr free ↦ inl (id, rw free refl, ground arith, ground arith, free)
        | inl used ↦ elim (Bool-cases (id == counter)) [
          | inl back ↦
              let (equal, _) = ==_iff id counter in
              rw (used, back)
                (inr (
                  refl,
                  λ j p m.
                      now_taken before id step b c some used taken j p m
                        (IsPassed-all before id step b c some (equal back) j p m),
                ))
          | inr on ↦
              let other : id ≢ counter = λ e. different id counter on e in
              let left = fewer_rounds before id step b c some other in
              rw (used, on)
                (search-IsFound f id live c (ground arith)
                  (λ j p m h.
                    now_taken before id step b c some used taken j p m
                      (IsPassed-before before id step b c some j p m h))
                  (omega arith) (goes_on before id step b c some live used taken other))
        ]
      ]

  -- With a counter of at most `channel_max`, which is at least 1, and a free id left where the counter is
  -- 0, `generateChannelId` ends: it gives an id from 1 to `channel_max` with no entry, or throws, and
  -- then every one of these ids has an entry.
  pub generate_channel_id-IsFound :
      1 ≤ channel_max → counter ≤ channel_max → IsLive → IsFound generate_channel_id
  unfolding generate_channel_id
  generate_channel_id-IsFound l c live =
      search-IsFound channel_max counter live c c (λ j p m h. ground arith) (ground arith)
        (ground arith)

  -- With every id from 1 to `channel_max` in use, and a counter that is none of them, as after a tune
  -- that lowers `channel_max`, `generateChannelId` ends for no number of rounds.
  pub search_channel_id-endless :
      (f before : ℕ)
      → (counter ≡ 0) ⊎ (channel_max < counter)
      → 1 ≤ channel_max
      → ((j : ℕ) → 1 ≤ j → j ≤ channel_max → channels j ≡ true)
      → search_channel_id f before ≡ err out_of_fuel
  unfolding search_channel_id
  search_channel_id-endless zero before outside l taken = refl
  search_channel_id-endless (suc f) before outside l taken =
      let id = before % channel_max + 1 in
      let small : before % channel_max < channel_max = mod-lt before l in
      let used = taken id (omega arith) (omega arith) in
      let other = ==-ne id counter (λ e. ground arith) in
      rw (used, other) (search_channel_id-endless f id outside l taken)

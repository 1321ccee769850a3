-- ===== src/Parser/Chunks.antt =====
-- lib/parser.js, `execute`: how the bytes are cut into chunks makes no difference.
use node_amqp.Prelude.{
  ℕ, zero, suc, ◌+◌, ◌-◌, ◌*◌, ◌<◌, ◌≤◌, ◌≡◌, ◌≢◌, refl, sym, ap, ◌∙◌, arith, ◌⊎◌, inl, inr, List,
  [], ◌∷◌, ◌++◌, length, length-append, length-drop, drop, ltb, ◌==◌, ℤ, pos, negsuc, Bool-cases,
  ==-ne, ==_iff, ltb→lt, ltb_false→le, take_all, drop_all,
}
use node_amqp.Result.{Result, ok, err, missing_frame_end}
use node_amqp.Parser.Cursor.{Cursor}
use node_amqp.Parser.Frames.{
  Outcome, returned, thrown, Handlers, FrameInfo, State, header, frame, frame_end, undefined, Turn,
  waits, continues, throws, Run, running, failed, frame_end_octet, open_frame, with_header,
  after_check, new_frame, then_header, then_undefined, dispatch, turn, turns, resume, execute,
  frame_closure, frame_end_closure,
}
use node_amqp.Parser.Stream.{
  settled, feed, feed_all, feed_all-append, after, header_short, header_full, frame_short,
  frame_full, end_full,
}

-- The states that the parser waits in.
abbrev pub IsReady : State → Type 0
IsReady (header fh) = length fh < 7
IsReady (frame f fb) = length fb < f.size
IsReady (frame_end f fb) = Unit
IsReady undefined = ⊥

-- The states of a tail call: a frame may be complete, or empty, before anything is read into it.
abbrev IsCalled : State → Type 0
IsCalled (header fh) = length fh < 7
IsCalled (frame f fb) = length fb ≤ f.size
IsCalled (frame_end f fb) = Unit
IsCalled undefined = ⊥

-- An upper bound of the tail calls still to come.
abbrev calls : State → List ℕ → ℕ
calls (header fh) xs = 3 * length xs
calls (frame f fb) xs = 3 * length xs + 2
calls (frame_end f fb) xs = 3 * length xs + 1
calls undefined xs = 0

-- What every closure keeps: it waits in a ready state, or calls on with fewer calls to come.
abbrev Keeps : {S : Type 0} → ℕ → Turn S → Type 0
Keeps n (waits p s) = (p ≡ undefined) ⊎ IsReady p
Keeps n (continues p s xs) = IsCalled p × (calls p xs < n)
Keeps n (throws s e) = Unit

abbrev pub KeepsRun : {S : Type 0} → Run S → Type 0
KeepsRun (running p s) = (p ≡ undefined) ⊎ IsReady p
KeepsRun (failed s e) = Unit

module _ {S : Type 0} (h : Handlers S) where
  new_frame-Keeps :
      (b : ℕ) (s : S) (k : ℕ) (c n : ℤ) (xs : List ℕ)
      → 3 * length xs + 2 < b
      → Keeps b (new_frame h s k c n xs)
  unfolding new_frame
  new_frame-Keeps b s k c (pos n) xs l = (omega arith, l)
  new_frame-Keeps b s k c (negsuc n) xs l = tt

  check-Keeps :
      (b : ℕ) (o : Outcome S) (k : ℕ) (c n : ℤ) (xs : List ℕ)
      → 3 * length xs + 2 < b
      → Keeps b (after_check h o k c n xs)
  unfolding after_check
  check-Keeps b (returned s) k c n xs l = new_frame-Keeps b s k c n xs l
  check-Keeps b (thrown s e) k c n xs l = tt

  with_header-Keeps :
      (b : ℕ) (s : S) (r : Result ((ℕ × ℤ × ℤ) × Cursor)) (xs : List ℕ)
      → 3 * length xs + 2 < b
      → Keeps b (with_header h s r xs)
  unfolding with_header
  with_header-Keeps b s (err e) xs l = tt
  with_header-Keeps b s (ok ((k, c, n), u)) xs l = check-Keeps b _ k c n xs l

  open_frame-Keeps :
      (b : ℕ) (s : S) (fh xs : List ℕ) → 3 * length xs + 2 < b → Keeps b (open_frame h s fh xs)
  unfolding open_frame
  open_frame-Keeps b s fh xs l = with_header-Keeps b s _ xs l

  then_header-Keeps :
      (b : ℕ) (o : Outcome S) (xs : List ℕ) → 3 * length xs < b → Keeps b (then_header h o xs)
  unfolding then_header
  then_header-Keeps b (returned s) xs l = (omega arith, l)
  then_header-Keeps b (thrown s e) xs l = tt

  then_undefined-Keeps : (b : ℕ) (o : Outcome S) → Keeps b (then_undefined h o)
  unfolding then_undefined
  then_undefined-Keeps b (returned s) = inl refl
  then_undefined-Keeps b (thrown s e) = tt

  -- One call of a closure does what its bytes do one after the other.
  Steps : State → S → List ℕ → Type 0
  Steps p s xs =
      (feed_all h (running (settled p) s) xs ≡ after h (turn h p s xs))
      × Keeps (calls p xs) (turn h p s xs)

  header-Steps : (fh xs : List ℕ) (s : S) → length fh < 7 → Steps (header fh) s xs
  unfolding Steps turn settled after
  header-Steps fh xs s l = elim (Bool-cases (ltb (length fh + length xs) 7)) [
    | inl e ↦ rw e (
      header_short h xs fh s (ltb→lt _ _ e),
      inr (omega (arith, ltb→lt _ _ e, length-append fh xs)),
    )
    | inr e ↦
        let room : 7 ≤ length fh + length xs = ltb_false→le _ _ e in
        let k : 7 - length fh ≡ suc (6 - length fh) = omega arith in
        rw (e, k)
          (
            header_full h (6 - length fh) fh xs s (omega arith) (omega arith),
            open_frame-Keeps (3 * length xs) s _ (drop (suc (6 - length fh)) xs)
                (omega (arith, length-drop (suc (6 - length fh)) xs)),
          )
  ]

  frame_exact :
      (f : FrameInfo) (fb xs : List ℕ) (s : S)
      → length fb + length xs ≡ f.size
      → feed_all h (running (settled (frame f fb)) s) xs ≡ running (frame_end f (fb ++ xs)) s
  frame_exact f fb xs s e =
      frame_full h (length xs) fb xs f s e (omega arith)
      ∙ rw (take_all xs, drop_all xs) (unfold feed_all in refl)

  frame-Steps :
      (f : FrameInfo) (fb xs : List ℕ) (s : S) → length fb ≤ f.size → Steps (frame f fb) s xs
  unfolding Steps turn frame_closure after settled
  frame-Steps f fb xs s l = elim (Bool-cases (ltb (f.size - length fb) (length xs))) [
    | inl e ↦
        let room : f.size - length fb < length xs = ltb→lt _ _ e in
        rw e (
          frame_full h (f.size - length fb) fb xs f s (omega arith) (omega arith),
          (tt, omega (arith, length-drop (f.size - length fb) xs)),
        )
    | inr e ↦ elim (Bool-cases (length xs == f.size - length fb)) [
      | inl q ↦
          let exact : length xs ≡ f.size - length fb = (==_iff _ _).0 q in
          rw (e, q) (frame_exact f fb xs s (omega arith), inr tt)
      | inr q ↦
          rw (e, q)
            (
              frame_short h xs fb f s (ground (arith, ltb_false→le _ _ e)),
              inr (ground (arith, ltb_false→le _ _ e, length-append fb xs)),
            )
    ]
  ]

  end-Keeps :
      (f : FrameInfo) (fb xs : List ℕ) (s : S) (x : ℕ)
      → Keeps (3 * suc (length xs) + 1) (frame_end_closure h s f fb (x ∷ xs))
  unfolding frame_end_closure
  end-Keeps f fb xs s x = elim (Bool-cases (x == frame_end_octet)) [
    | inl e ↦ rw e (then_header-Keeps _ (dispatch h s f fb) xs (omega arith))
    | inr e ↦ rw e (then_undefined-Keeps _ (h.on_error s missing_frame_end))
  ]

  end-Steps : (f : FrameInfo) (fb xs : List ℕ) (s : S) → Steps (frame_end f fb) s xs
  unfolding Steps turn settled
  end-Steps f fb [] s =
      (unfold feed_all after frame_end_closure in refl, unfold frame_end_closure in inr tt)
  end-Steps f fb (x ∷ xs) s =
      (unfold feed_all feed in end_full h f fb xs s x, end-Keeps f fb xs s x)

  turn-Steps : (p : State) (xs : List ℕ) (s : S) → IsCalled p → Steps p s xs
  turn-Steps (header fh) xs s l = header-Steps fh xs s l
  turn-Steps (frame f fb) xs s l = frame-Steps f fb xs s l
  turn-Steps (frame_end f fb) xs s l = end-Steps f fb xs s
  turn-Steps undefined xs s l = elim l [ ]

  -- `n` tail calls do what the bytes do one after the other.
  Follows : ℕ → Type 0
  Follows n =
      (p : State) (xs : List ℕ) (s : S)
      → IsCalled p
      → calls p xs < n
      → (turns h n p s xs ≡ feed_all h (running (settled p) s) xs) × KeepsRun (turns h n p s xs)

  resume-Follows :
      (n b : ℕ) (t : Turn S)
      → Follows n
      → Keeps b t
      → b ≤ n
      → (resume h (turns h n) t ≡ after h t) × KeepsRun (resume h (turns h n) t)
  unfolding Follows resume after
  resume-Follows n b (waits p s) ih k l = (refl, k)
  resume-Follows n b (continues p s xs) ih k l = ih p xs s k.0 (omega arith)
  resume-Follows n b (throws s e) ih k l = (refl, tt)

  turns-Follows : (n : ℕ) → Follows n
  unfolding Follows turns Steps
  turns-Follows zero p xs s l b = absurd (omega arith)
  turns-Follows (suc n) p xs s l b =
      let (e, k) = turn-Steps p xs s l in
      let (f, m) =
        resume-Follows n (calls p xs) (turn h p s xs) (turns-Follows n) k (omega arith) in
      (f ∙ sym e, m)

  IsReady→IsCalled : (p : State) → IsReady p → IsCalled p
  IsReady→IsCalled (header fh) r = r
  IsReady→IsCalled (frame f fb) r = omega arith
  IsReady→IsCalled (frame_end f fb) r = tt
  IsReady→IsCalled undefined r = r

  settled_ready : (p : State) → IsReady p → settled p ≡ p
  unfolding settled
  settled_ready (header fh) r = refl
  settled_ready (frame f fb) r = rw (==-ne (length fb) f.size (omega arith))
  settled_ready (frame_end f fb) r = refl
  settled_ready undefined r = refl

  calls-lt : (p : State) (xs : List ℕ) → calls p xs < 3 * length xs + 3
  calls-lt (header fh) xs = omega arith
  calls-lt (frame f fb) xs = omega arith
  calls-lt (frame_end f fb) xs = omega arith
  calls-lt undefined xs = omega arith

  -- From a waiting state `execute` ends as the parser that takes one byte at a time does, whatever the
  -- callbacks do, an exception included; and it waits again or has lost the frames, so that the fuel
  -- was enough.
  pub execute-feed_all :
      (p : State) (s : S) (xs : List ℕ)
      → IsReady p
      → (execute h p s xs ≡ feed_all h (running p s) xs) × KeepsRun (execute h p s xs)
  unfolding execute Follows
  execute-feed_all p s xs r =
      rw (settled_ready p r) at
        (turns-Follows (3 * length xs + 3) p xs s (IsReady→IsCalled p r) (calls-lt p xs))

  -- The run that goes on with a second chunk, if the first ended in a state that can be called.
  abbrev pub execute_next : Run S → List ℕ → Run S
  execute_next (running p s) ys = execute h p s ys
  execute_next (failed s e) ys = failed s e

  waiting-IsReady : (p : State) (s : S) → KeepsRun (running p s) → p ≢ undefined → IsReady p
  waiting-IsReady p s (inl e) n = absurd (n e)
  waiting-IsReady p s (inr r) n = r

  feed_all-next :
      (q : Run S) (ys : List ℕ)
      → KeepsRun q
      → ((p : State) (t : S) → q ≡ running p t → p ≢ undefined)
      → feed_all h q ys ≡ execute_next q ys
  feed_all-next (running p s) ys k n =
      sym (execute-feed_all p s ys (waiting-IsReady p s k (n p s refl))).0
  feed_all-next (failed s e) ys k n = unfold feed_all in refl

  -- Data that comes in two chunks is parsed as in one: if the first chunk leaves the parser waiting for
  -- more, parsing the second from there gives the same callbacks and the same end as parsing both at
  -- once; and if it ends in an exception, so does parsing both at once.
  pub execute-append :
      (p : State) (s : S) (xs ys : List ℕ)
      → IsReady p
      → ((q : State) (t : S) → execute h p s xs ≡ running q t → q ≢ undefined)
      → execute h p s (xs ++ ys) ≡ execute_next (execute h p s xs) ys
  execute-append p s xs ys r n =
      let (whole, _) = execute-feed_all p s (xs ++ ys) r in
      let (first, keeps) = execute-feed_all p s xs r in
      whole
      ∙ (feed_all-append h (running p s) xs ys
          ∙ (ap (λ (q : Run S). feed_all h q ys) (sym first)
              ∙ feed_all-next (execute h p s xs) ys keeps n))

-- ===== src/Parser/Stream.antt =====
-- The frame level of lib/parser.js against a parser that takes one byte at a time.
use node_amqp.Prelude.{
  ℕ, zero, suc, ◌+◌, ◌<◌, ◌≤◌, ◌≡◌, refl, ap, ◌∙◌, arith, inl, inr, List, [], ◌∷◌, ◌++◌,
  append_assoc, append-nil, length, length-append, take, drop, ◌==◌, ℤ, pos, negsuc, if◌then◌else◌,
  Bool-cases, ==-eq, ==-ne,
}
use node_amqp.Result.{Result, ok, err, missing_frame_end}
use node_amqp.Parser.Cursor.{Cursor}
use node_amqp.Parser.Frames.{
  Outcome, returned, thrown, Handlers, FrameInfo, State, header, frame, frame_end, undefined, Turn,
  waits, continues, throws, Run, running, failed, frame_header_size, frame_end_octet, open_frame,
  dispatch, new_frame, then_header, then_undefined, after_check, with_header, frame_end_closure,
}

-- A frame whose bytes are all there waits for its end.
unfoldable pub settled : State → State
settled (frame f fb) = if length fb == f.size then frame_end f fb else frame f fb
settled p = p

module _ {S : Type 0} (h : Handlers S) where
  unfoldable pub settle : Turn S → Run S
  unfolding settled
  settle (waits p s) = running (settled p) s
  settle (continues p s rest) = running (settled p) s
  settle (throws s e) = failed s e

  -- One byte. After an error that did not throw nothing is read any more.
  unfoldable pub feed : State → S → ℕ → Run S
  unfolding settle
  feed (header fh) s x =
      if length fh + 1 == frame_header_size
      then settle (open_frame h s (fh ++ x ∷ []) [])
      else running (header (fh ++ x ∷ [])) s
  feed (frame f fb) s x = running (settled (frame f (fb ++ x ∷ []))) s
  feed (frame_end f fb) s x = settle (frame_end_closure h s f fb (x ∷ []))
  feed undefined s x = running undefined s

  -- Byte after byte; a parser that has thrown stays as it is.
  unfoldable pub feed_all : Run S → List ℕ → Run S
  feed_all (failed s e) xs = failed s e
  feed_all (running p s) [] = running p s
  feed_all (running p s) (x ∷ xs) = feed_all (feed p s x) xs

  pub feed_all-append :
      (r : Run S) (xs ys : List ℕ) → feed_all r (xs ++ ys) ≡ feed_all (feed_all r xs) ys
  unfolding feed_all
  feed_all-append (failed s e) xs ys = refl
  feed_all-append (running p s) [] ys = refl
  feed_all-append (running p s) (x ∷ xs) ys = feed_all-append (feed p s x) xs ys

  -- What is left to do after a call of a closure, byte after byte.
  unfoldable pub after : Turn S → Run S
  after (waits p s) = running p s
  after (continues p s rest) = feed_all (running (settled p) s) rest
  after (throws s e) = failed s e

  feed_more :
      (fh : List ℕ) (s : S) (x : ℕ)
      → length fh + 1 < 7
      → feed (header fh) s x ≡ running (header (fh ++ x ∷ [])) s
  unfolding feed
  feed_more fh s x l = rw (==-ne (length fh + 1) 7 (omega arith))

  feed_last :
      (fh : List ℕ) (s : S) (x : ℕ)
      → length fh + 1 ≡ 7
      → feed (header fh) s x ≡ settle (open_frame h s (fh ++ x ∷ []) [])
  unfolding feed
  feed_last fh s x l = rw (==-eq (length fh + 1) 7 l)

  pub header_short :
      (xs fh : List ℕ) (s : S)
      → length fh + length xs < 7
      → feed_all (running (header fh) s) xs ≡ running (header (fh ++ xs)) s
  unfolding feed_all
  header_short [] fh s l = rw append-nil
  header_short (x ∷ xs) fh s l =
      ap (λ (r : Run S). feed_all r xs) (feed_more fh s x (omega arith))
      ∙ (header_short xs (fh ++ x ∷ []) s (omega (arith, length-append fh (x ∷ [])))
          ∙ rw append_assoc)

  after_new :
      (s : S) (k : ℕ) (c n : ℤ) (xs : List ℕ)
      → feed_all (settle (new_frame h s k c n [])) xs ≡ after (new_frame h s k c n xs)
  unfolding new_frame feed_all after settle
  after_new s k c (pos n) xs = refl
  after_new s k c (negsuc n) xs = refl

  after_opened :
      (o : Outcome S) (k : ℕ) (c n : ℤ) (xs : List ℕ)
      → feed_all (settle (after_check h o k c n [])) xs ≡ after (after_check h o k c n xs)
  unfolding after_check
  after_opened (returned s) k c n xs = after_new s k c n xs
  after_opened (thrown s e) k c n xs = unfold feed_all after settle in refl

  after_with :
      (s : S) (r : Result ((ℕ × ℤ × ℤ) × Cursor)) (xs : List ℕ)
      → feed_all (settle (with_header h s r [])) xs ≡ after (with_header h s r xs)
  unfolding with_header
  after_with s (err e) xs = unfold feed_all after settle in refl
  after_with s (ok ((k, c, n), u)) xs = after_opened _ k c n xs

  after_open :
      (s : S) (fh xs : List ℕ)
      → feed_all (settle (open_frame h s fh [])) xs ≡ after (open_frame h s fh xs)
  unfolding open_frame
  after_open s fh xs = after_with s _ xs

  pub header_full :
      (k : ℕ) (fh xs : List ℕ) (s : S)
      → length fh + suc k ≡ 7
      → suc k ≤ length xs
      → feed_all (running (header fh) s) xs
        ≡ after (open_frame h s (fh ++ take (suc k) xs) (drop (suc k) xs))
  unfolding feed_all
  header_full k fh [] s e l = absurd (omega arith)
  header_full zero fh (x ∷ xs) s e l =
      ap (λ (r : Run S). feed_all r xs) (feed_last fh s x (omega arith)) ∙ after_open s _ xs
  header_full (suc k) fh (x ∷ xs) s e l =
      ap (λ (r : Run S). feed_all r xs) (feed_more fh s x (omega arith))
      ∙ (header_full k (fh ++ x ∷ []) xs s (omega (arith, length-append fh (x ∷ []))) (omega arith)
          ∙ rw append_assoc)

  pub frame_short :
      (xs fb : List ℕ) (f : FrameInfo) (s : S)
      → length fb + length xs < f.size
      → feed_all (running (settled (frame f fb)) s) xs ≡ running (frame f (fb ++ xs)) s
  unfolding feed_all settled feed
  frame_short [] fb f s l = rw (==-ne (length fb) f.size (omega arith), append-nil)
  frame_short (x ∷ xs) fb f s l = rw (==-ne (length fb) f.size (omega arith)) (
      frame_short xs (fb ++ x ∷ []) f s (omega (arith, length-append fb (x ∷ [])))
      ∙ rw append_assoc)

  pub frame_full :
      (k : ℕ) (fb xs : List ℕ) (f : FrameInfo) (s : S)
      → length fb + k ≡ f.size
      → k ≤ length xs
      → feed_all (running (settled (frame f fb)) s) xs
        ≡ feed_all (running (frame_end f (fb ++ take k xs)) s) (drop k xs)
  unfolding feed_all settled feed
  frame_full zero fb xs f s e l = rw (==-eq (length fb) f.size (omega arith), append-nil)
  frame_full (suc k) fb [] f s e l = absurd (omega arith)
  frame_full (suc k) fb (x ∷ xs) f s e l = rw (==-ne (length fb) f.size (omega arith)) (
      frame_full k (fb ++ x ∷ []) xs f s (omega (arith, length-append fb (x ∷ []))) (omega arith)
      ∙ rw append_assoc)

  after_dispatch :
      (o : Outcome S) (xs : List ℕ)
      → feed_all (settle (then_header h o [])) xs ≡ after (then_header h o xs)
  unfolding then_header feed_all after settle
  after_dispatch (returned s) xs = refl
  after_dispatch (thrown s e) xs = refl

  feed_all-undefined :
      (xs : List ℕ) (s : S) → feed_all (running undefined s) xs ≡ running undefined s
  unfolding feed_all feed
  feed_all-undefined [] s = refl
  feed_all-undefined (x ∷ xs) s = feed_all-undefined xs s

  after_lost :
      (o : Outcome S) (xs : List ℕ)
      → feed_all (settle (then_undefined h o)) xs ≡ after (then_undefined h o)
  unfolding then_undefined after settle
  after_lost (returned s) xs = feed_all-undefined xs s
  after_lost (thrown s e) xs = unfold feed_all in refl

  pub end_full :
      (f : FrameInfo) (fb xs : List ℕ) (s : S) (x : ℕ)
      → feed_all (settle (frame_end_closure h s f fb (x ∷ []))) xs
        ≡ after (frame_end_closure h s f fb (x ∷ xs))
  unfolding frame_end_closure
  end_full f fb xs s x = elim (Bool-cases (x == frame_end_octet)) [
    | inl e ↦ rw e (after_dispatch (dispatch h s f fb) xs)
    | inr e ↦ rw e (after_lost (h.on_error s missing_frame_end) xs)
  ]

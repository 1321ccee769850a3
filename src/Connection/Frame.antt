-- ===== src/Connection/Frame.antt =====
-- A frame of any kind on the wire, and lib/parser.js as it takes one in.
use node_amqp.Prelude.{
  ℕ, ◌+◌, ◌<◌, ◌≤◌, ◌≡◌, refl, sym, ap, ◌∙◌, arith, inl, inr, List, [], ◌∷◌, ◌++◌, append_assoc,
  append-nil, length, length-append, take, drop, take-append, drop-append, le→ltb_false, ℤ, pos,
}
use node_amqp.Js.{to_uint32}
use node_amqp.Serializer.Ints.{int_bytes, length-int_bytes}
use node_amqp.Parser.Ints.{parse_int}
use node_amqp.Parser.Frames.{
  Outcome, returned, thrown, Handlers, FrameInfo, header, frame, Run, running, failed, read_header,
  with_header, after_check, new_frame, open_frame, dispatch, then_header, frame_end_closure, Turn,
}
use node_amqp.Parser.Stream.{settled, feed, feed_all, after, header_full, frame_full, end_full}
use node_amqp.RoundTrip.Ints.{wire_value}
use node_amqp.RoundTrip.Reads.{Reads, then-Reads, map-Reads, next-Reads, size-Reads}
use node_amqp.RoundTrip.Ints.{parse_int-int_bytes}

-- A frame from its type to its end.
abbrev pub wire_frame : ℕ → ℤ → List ℕ → List ℕ
wire_frame kind channel chunk =
    kind ∷ int_bytes 2 channel ++ (int_bytes 4 (pos (length chunk)) ++ (chunk ++ 206 ∷ []))

pub length-wire_frame :
    (kind : ℕ) (channel : ℤ) (chunk : List ℕ)
    → length (wire_frame kind channel chunk) ≡ length chunk + 8
length-wire_frame kind channel chunk =
    let size = int_bytes 4 (pos (length chunk)) in
    omega (
      arith,
      length-append (int_bytes 2 channel) (size ++ (chunk ++ 206 ∷ [])),
      length-int_bytes 2 channel (inr (inl refl)),
      length-append size (chunk ++ 206 ∷ []),
      length-int_bytes 4 (pos (length chunk)) (inr (inr (inl refl))),
      length-append chunk (206 ∷ []),
    )

-- The seven bytes in front of a chunk.
abbrev frame_header : ℕ → ℤ → List ℕ → List ℕ
frame_header kind channel chunk = kind ∷ int_bytes 2 channel ++ int_bytes 4 (pos (length chunk))

wire_channel : (n : ℕ) → n ≤ 65535 → wire_value 2 (pos n) ≡ pos n
unfolding wire_value to_uint32
wire_channel n l = ground arith

int2-Reads : (z : ℤ) → Reads (parse_int 2) (int_bytes 2 z) (wire_value 2 z)
int2-Reads z = record { run = λ front back. parse_int-int_bytes 2 z front back (inr (inl refl)) }

header-Reads :
    (kind channel : ℕ) (chunk : List ℕ)
    → channel ≤ 65535
    → length chunk < 0x8000_0000
    → Reads read_header
        (frame_header kind (pos channel) chunk)
        (kind, pos channel, pos (length chunk))
unfolding read_header parse_int
header-Reads kind channel chunk l m = then-Reads _ (next-Reads kind) (
    then-Reads _ (rw (wire_channel channel l) at (int2-Reads (pos channel)))
      (map-Reads (λ n. (kind, pos channel, n)) (size-Reads (length chunk) m)))

module _ {S : Type 0} (h : Handlers S) where
  -- What a parser does after a callback: it goes on from where the callback returned.
  abbrev pub on_return : Outcome S → (S → Run S) → Run S
  on_return (returned t) k = k t
  on_return (thrown t e) k = failed t e

  after-then_header :
      (o : Outcome S) (more : List ℕ)
      → after h (then_header h o more) ≡ on_return o (λ t. feed_all h (running (header []) t) more)
  unfolding after then_header settled
  after-then_header (returned t) more = refl
  after-then_header (thrown t e) more = refl

  module _ (kind channel : ℕ) (chunk : List ℕ) where
    abbrev pub frame_info : FrameInfo
    frame_info = record { kind = kind; channel = pos channel; size = length chunk }

    open_frame-wire :
        (s : S) (rest : List ℕ)
        → channel ≤ 65535
        → length chunk < 0x8000_0000
        → length chunk ≤ h.max_frame_buffer s
        → open_frame h s (frame_header kind (pos channel) chunk) rest
          ≡ Turn.continues (frame frame_info []) s rest
    unfolding open_frame with_header after_check new_frame
    open_frame-wire s rest l m small =
        let reads = header-Reads kind channel chunk l m in
        let read = rw append-nil at (reads.run [] []) in
        rw (read, le→ltb_false (h.max_frame_buffer s + 0) (length chunk + 0) (omega arith)) refl

    end-wire :
        (s : S) (more : List ℕ)
        → after h (frame_end_closure h s frame_info chunk (206 ∷ more))
          ≡ on_return (dispatch h s frame_info chunk) (λ t. feed_all h (running (header []) t) more)
    unfolding frame_end_closure
    end-wire s more = after-then_header (dispatch h s frame_info chunk) more

    pub feed_all-wire_frame :
        (s : S) (more : List ℕ)
        → channel ≤ 65535
        → length chunk < 0x8000_0000
        → length chunk ≤ h.max_frame_buffer s
        → feed_all h (running (header []) s) (wire_frame kind (pos channel) chunk ++ more)
          ≡ on_return (dispatch h s frame_info chunk) (λ t. feed_all h (running (header []) t) more)
    unfolding after feed_all feed
    feed_all-wire_frame s more l m small =
        ap (feed_all h (running (header []) s)) grouped
        ∙ (header_full h 6 [] (head ++ left) s refl (omega (arith, length-append head left, seven))
            ∙ (ap (after h) (opened ∙ open_frame-wire s left l m small) ∙ (body ∙ end-wire s more)))
      where
        head : List ℕ
        head = frame_header kind (pos channel) chunk

        left : List ℕ
        left = chunk ++ 206 ∷ more

        seven : length head ≡ 7
        seven = omega (
          arith,
          length-append (int_bytes 2 (pos channel)) (int_bytes 4 (pos (length chunk))),
          length-int_bytes 2 (pos channel) (inr (inl refl)),
          length-int_bytes 4 (pos (length chunk)) (inr (inr (inl refl))),
        )

        grouped : wire_frame kind (pos channel) chunk ++ more ≡ head ++ left
        grouped =
            append_assoc (kind ∷ int_bytes 2 (pos channel)) _ more
            ∙ (ap (λ (l : List ℕ). (kind ∷ int_bytes 2 (pos channel)) ++ l)
                  (append_assoc (int_bytes 4 (pos (length chunk))) (chunk ++ 206 ∷ []) more
                    ∙ ap (λ (l : List ℕ). int_bytes 4 (pos (length chunk)) ++ l)
                        (append_assoc chunk (206 ∷ []) more))
                ∙ sym (
                    append_assoc (kind ∷ int_bytes 2 (pos channel))
                      (int_bytes 4 (pos (length chunk))) left))

        opened :
            open_frame h s ([] ++ take 7 (head ++ left)) (drop 7 (head ++ left))
            ≡ open_frame h s head left
        opened = λ i.
            open_frame h s
              ((ap (λ (n : ℕ). take n (head ++ left)) (sym seven) ∙ take-append head left) i)
              ((ap (λ (n : ℕ). drop n (head ++ left)) (sym seven) ∙ drop-append head left) i)

        body :
            after h (Turn.continues (frame frame_info []) s left)
            ≡ after h (frame_end_closure h s frame_info chunk (206 ∷ more))
        body =
            frame_full h (length chunk) [] left frame_info s (omega arith)
              (omega (arith, length-append chunk (206 ∷ more)))
            ∙ (rw (take-append chunk (206 ∷ more), drop-append chunk (206 ∷ more))
                (end_full h frame_info chunk more s 206))

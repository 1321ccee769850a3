-- ===== src/Connection/Body.antt =====
-- `_sendBody` of lib/connection.js, after its header frame: the body is cut into frames.
use node_amqp.Prelude.{
  ℕ, zero, suc, ◌+◌, ◌≤◌, ◌≡◌, refl, sym, ap, ◌∙◌, arith, inl, inr, List, [], ◌∷◌, ◌++◌, append-nil,
  length, length-take, length-drop, take, drop, take-append-drop, drop_all, All, min, ℤ, pos,
}
use node_amqp.Js.{to_uint8}
use node_amqp.Result.{Result, ok, err, ◌>>=◌, out_of_fuel}
use node_amqp.Serializer.Buffer.{put, put_bytes}
use node_amqp.Serializer.Ints.{serialize_int}
use node_amqp.Serializer.Writes.{
  Writer, Writes, then-Writes, put-Writes, put_bytes-Writes, serialize_int-Writes,
}
use node_amqp.Connection.Frame.{wire_frame, length-wire_frame}

-- `headerBytes` and `frameEndBytes`
abbrev pub meta_size : ℕ
meta_size = 8

-- What a frame is filled with, from the frame's type to its end.
unfoldable pub fill_frame : ℤ → List ℕ → Writer
fill_frame channel chunk b = serialize_int (put b (pos 3)) 2 channel >>= λ c.
    serialize_int c 4 (pos (length chunk)) >>= λ d. ok (put (put_bytes d chunk) (pos 206))

-- `new Buffer(n)` gives `memory n`, which holds what the memory held.
module _ (memory : ℕ → List ℕ) where
  unfoldable pub body_frame : ℤ → List ℕ → Result (List ℕ)
  unfolding fill_frame
  body_frame channel chunk =
      fill_frame channel chunk (record { mem = memory (length chunk + meta_size); used = 0 })
      >>= λ b. ok b.mem

  -- The loop; what it has written to the socket is its result. `body` is what is left of the buffer, from
  -- `pos` on. With no room for a byte in a frame it never ends.
  unfoldable pub send_chunks : ℕ → ℕ → ℤ → List ℕ → Result (List ℕ)
  send_chunks f max_body_size channel [] = ok []
  send_chunks zero max_body_size channel (x ∷ body) = err out_of_fuel
  send_chunks (suc f) max_body_size channel (x ∷ body) =
      let body_size = min (length (x ∷ body)) max_body_size in
      body_frame channel (take body_size (x ∷ body)) >>= λ frame.
      send_chunks f max_body_size channel (drop body_size (x ∷ body)) >>= λ frames.
      ok (frame ++ frames)

abbrev pub wire_frames : ℤ → List (List ℕ) → List ℕ
wire_frames channel [] = []
wire_frames channel (c ∷ cs) = wire_frame 3 channel c ++ wire_frames channel cs

abbrev pub joined : List (List ℕ) → List ℕ
joined [] = []
joined (c ∷ cs) = c ++ joined cs

fill_frame-Writes :
    (channel : ℤ) (chunk : List ℕ)
    → Writes 0 (fill_frame channel chunk) (wire_frame 3 channel chunk)
unfolding fill_frame to_uint8
fill_frame-Writes channel chunk =
    then-Writes (put-Writes (pos 3))
      (then-Writes (serialize_int-Writes 2 channel (inr (inl refl)))
        (then-Writes (serialize_int-Writes 4 (pos (length chunk)) (inr (inr (inl refl))))
          (then-Writes (put_bytes-Writes chunk) (put-Writes (pos 206)) (omega arith)) (omega arith))
        (omega arith))
      (omega arith)

-- The chunks of a body, all of them filled but the last.
abbrev pub AreChunks : ℕ → List (List ℕ) → Type 0
AreChunks max_body_size cs = All (λ c. (1 ≤ length c) × (length c ≤ max_body_size)) cs

module _ (memory : ℕ → List ℕ) (sized : (n : ℕ) → length (memory n) ≡ n) where
  body_frame-wire_frame :
      (channel : ℤ) (chunk : List ℕ)
      → body_frame memory channel chunk ≡ ok (wire_frame 3 channel chunk)
  unfolding body_frame
  body_frame-wire_frame channel chunk =
      let fill = fill_frame-Writes channel chunk in
      let new = memory (length chunk + meta_size) in
      let wire = wire_frame 3 channel chunk in
      let room : length new ≡ length wire =
        sized (length chunk + meta_size) ∙ sym (length-wire_frame 3 channel chunk) in
      rw (fill.run [] new (omega arith)) (
        ap (λ (back : List ℕ). ok (wire ++ back))
          (ap (λ (n : ℕ). drop n new) (sym room) ∙ drop_all new)
        ∙ ap ok (append-nil wire))

  -- With room for a byte in a frame, and fuel for the bytes of the body, the loop ends.
  pub send_chunks-wire_frames :
      (f max_body_size : ℕ) (channel : ℤ) (body : List ℕ)
      → 1 ≤ max_body_size
      → length body ≤ f
      → (cs : List (List ℕ)) × (joined cs ≡ body)
        × AreChunks max_body_size cs
        × (send_chunks memory f max_body_size channel body ≡ ok (wire_frames channel cs))
  unfolding send_chunks
  send_chunks-wire_frames f m channel [] l fuel = ([], refl, tt, refl)
  send_chunks-wire_frames zero m channel (x ∷ body) l fuel = absurd (omega arith)
  send_chunks-wire_frames (suc f) m channel (x ∷ body) l fuel =
      let n = min (length (x ∷ body)) m in
      let chunk = take n (x ∷ body) in
      let left = drop n (x ∷ body) in
      let (cs, same, fit, sent) =
        send_chunks-wire_frames f m channel left l (omega (arith, length-drop n (x ∷ body))) in
      let size = length-take n (x ∷ body) in
      (
        chunk ∷ cs,
        ap (◌++◌ chunk) same ∙ take-append-drop n (x ∷ body),
        ((omega arith, omega arith), fit),
        rw (body_frame-wire_frame channel chunk, sent) refl,
      )

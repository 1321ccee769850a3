-- ===== src/Connection/Delivery.antt =====
-- The frames that `_sendBody` of lib/connection.js writes, and lib/parser.js at the other end.
use node_amqp.Prelude.{ℕ, ◌<◌, ◌≤◌, ◌≡◌, refl, ◌∙◌, arith, List, [], ◌∷◌, length, ℤ, pos}
use node_amqp.Result.{ok}
use node_amqp.Parser.Frames.{Handlers, header, Run, running, dispatch, execute}
use node_amqp.Parser.Stream.{feed_all}
use node_amqp.Parser.Chunks.{execute-feed_all}
use node_amqp.Connection.Frame.{frame_info, on_return, feed_all-wire_frame}
use node_amqp.Connection.Body.{wire_frames, joined, AreChunks, send_chunks, send_chunks-wire_frames}

module _ {S : Type 0} (h : Handlers S) where
  -- The calls of `onContent`, one for each chunk, until one throws.
  unfoldable pub deliver : S → ℤ → List (List ℕ) → Run S
  deliver s channel [] = running (header []) s
  deliver s channel (c ∷ cs) = on_return h (h.on_content s channel c) (λ t. deliver t channel cs)

  dispatch-body :
      (channel : ℕ) (chunk : List ℕ) (s : S)
      → dispatch h s (frame_info h 3 channel chunk) chunk ≡ h.on_content s (pos channel) chunk
  unfolding dispatch
  dispatch-body channel chunk s = refl

  feed_all-wire_frames :
      (channel max_body_size : ℕ) (cs : List (List ℕ)) (s : S)
      → channel ≤ 65535
      → max_body_size < 0x8000_0000
      → ((t : S) → max_body_size ≤ h.max_frame_buffer t)
      → AreChunks max_body_size cs
      → feed_all h (running (header []) s) (wire_frames (pos channel) cs)
        ≡ deliver s (pos channel) cs
  unfolding deliver
  feed_all-wire_frames channel m [] s l b room fit = unfold feed_all in refl
  feed_all-wire_frames channel m (c ∷ cs) s l b room ((_, small), fit) =
      let enough = room s in
      feed_all-wire_frame h 3 channel c s (wire_frames (pos channel) cs) l (omega arith)
        (omega arith)
      ∙ (λ i.
          on_return h (dispatch-body channel c s i)
            λ t. feed_all-wire_frames channel m cs t l b room fit i)

  -- The loop of `_sendBody`, with at least one byte of room in a frame and fuel for the bytes of the
  -- body, writes frames that cut the body into chunks of at least one byte and of at most the room; and
  -- a waiting parser that accepts frames of this size calls `onContent` with these chunks in order, on
  -- the channel, and waits for the next frame, unless a call throws.
  pub send_chunks-deliver :
      (memory : ℕ → List ℕ)
      → ((n : ℕ) → length (memory n) ≡ n)
      → (f channel max_body_size : ℕ) (body : List ℕ) (s : S) → length body ≤ f
      → channel ≤ 65535
      → 1 ≤ max_body_size
      → max_body_size < 0x8000_0000
      → ((t : S) → max_body_size ≤ h.max_frame_buffer t)
      → (cs : List (List ℕ)) × (joined cs ≡ body)
        × AreChunks max_body_size cs
        × (bytes : List ℕ) × (send_chunks memory f max_body_size (pos channel) body ≡ ok bytes)
        × (execute h (header []) s bytes ≡ deliver s (pos channel) cs)
  send_chunks-deliver memory sized f channel m body s fuel l some b room =
      let (cs, same, fit, sent) =
        send_chunks-wire_frames memory sized f m (pos channel) body some fuel in
      let bytes = wire_frames (pos channel) cs in
      let (run, _) = execute-feed_all h (header []) s bytes (omega arith) in
      (cs, same, fit, bytes, sent, run ∙ feed_all-wire_frames channel m cs s l b room fit)

-- ===== src/Connection/Methods.antt =====
-- `_sendMethod` of lib/connection.js.
use node_amqp.Prelude.{
  ℕ, ◌+◌, ◌-◌, ◌≤◌, ◌≡◌, refl, ap, ◌∙◌, arith, inl, inr, List, [], ◌∷◌, ◌++◌, append_assoc, length,
  length-append, length-drop, take, drop, take-append, subst, true, ℤ, pos,
}
use node_amqp.Js.{to_uint8}
use node_amqp.Result.{Result, ok, ◌>>=◌}
use node_amqp.Values.{Value, Platform}
use node_amqp.Definitions.Tables.{Method}
use node_amqp.Serializer.Buffer.{Buffer, at, put}
use node_amqp.Serializer.Ints.{serialize_int, int_bytes, length-int_bytes}
use node_amqp.Serializer.Writes.{
  Writer, Writes, then-Writes, put-Writes, serialize_int-Writes, at_path, drop-drop,
}
use node_amqp.Serializer.Format.{with_size}
use node_amqp.Serializer.Fields.{Args, serialize_fields}
use node_amqp.Serializer.FieldFormat.{AreParams, Holds, format_fields}
use node_amqp.Serializer.FieldWrites.{loop-Writes}
use node_amqp.Serializer.Refines.{patched}
use node_amqp.Connection.Frame.{wire_frame}

-- A length that is written once it is known; `dummy` stands in its place before.
unfoldable pub with_dummy : ℤ → Writer → Writer
with_dummy dummy contents b = serialize_int b 4 dummy >>= λ d. contents d >>= λ e.
    serialize_int (record e { used = b.used }) 4 (pos (e.used - d.used)) >>= λ l.
    ok (record l { used = e.used })

module _ (p : Platform) where
  open p use {Double}

  unfoldable pub fill_method : ℤ → Method → Args Double → Writer
  unfolding with_dummy
  fill_method channel m args b = serialize_int (put b (pos 1)) 2 channel >>= λ c.
      with_dummy (pos 42)
        (λ d. serialize_int d 2 (pos m.class_index) >>= λ e.
          serialize_int e 2 (pos m.method_index) >>= λ f. serialize_fields p args true m.fields f)
        c
      >>= λ g. ok (put g (pos 206))

  -- `_sendMethod(channel, method, args)`: what is given to `write`, and `_sendBuffer` afterwards.
  unfoldable pub send_method : ℤ → Method → Args Double → Buffer → Result (List ℕ × Buffer)
  unfolding fill_method
  send_method channel m args b =
      fill_method channel m args (record b { used = 0 }) >>= λ c. ok (take c.used c.mem, c)

pub with_dummy-Writes :
    (n : ℤ) {k : ℕ} {f : Writer} (xs : List ℕ)
    → Writes k f xs
    → Writes k (with_dummy n f) (with_size xs)
with_dummy-Writes n {k} {f} xs h = record { run = backpatch }
  where
    hole : List ℕ
    hole = int_bytes 4 n

    four : length hole ≡ 4
    four = length-int_bytes 4 n (inr (inr (inl refl)))

    sizes : length (with_size xs) ≡ 4 + length xs
    sizes = omega (
      arith,
      length-append (int_bytes 4 (pos (length xs))) xs,
      length-int_bytes 4 (pos (length xs)) (inr (inr (inl refl))),
    )

    finish : ℕ → ℕ → Buffer → Result Buffer
    finish index start e =
        serialize_int (record e { used = index }) 4 (pos (e.used - start)) >>= λ l.
        ok (record l { used = e.used })

    backpatch :
        (front rest : List ℕ)
        → length (with_size xs) + k ≤ length rest
        → with_dummy n f (at front rest)
          ≡ ok (at (front ++ with_size xs) (drop (length (with_size xs)) rest))
    backpatch front rest room =
        let dummy = serialize_int-Writes 4 n (inr (inr (inl refl))) in
        let behind = drop (length hole) rest in
        let total = sizes in
        let hole_size = four in
        unfold with_dummy in
        ap (λ (r : Result Buffer). r >>= λ d. f d >>= finish (length front) d.used)
          (dummy.run front rest (omega arith))
        ∙ (ap (λ (r : Result Buffer). r >>= finish (length front) (length (front ++ hole)))
              (h.run (front ++ hole) behind (omega (arith, length-drop (length hole) rest)))
            ∙ ((λ i.
                  finish (length front) (moved front i)
                    (at ((front ++ hole) ++ xs) (drop (length xs) behind)))
                ∙ (patched front hole xs (drop (length xs) behind) four
                    ∙ at_path refl (
                        drop-drop (length hole) (length xs) rest
                        ∙ ap (λ (n : ℕ). drop n rest) (omega arith)))))
      where
        moved : (front : List ℕ) → length (front ++ hole) ≡ length front + 4
        moved front = omega (arith, length-append front hole, four)

module _ (p : Platform) where
  open p use {Double}

  -- The payload of a method frame.
  abbrev pub method_bytes : Method → List (Value Double) → List ℕ
  method_bytes m vs =
      int_bytes 2 (pos m.class_index)
      ++ (int_bytes 2 (pos m.method_index) ++ format_fields p m.fields vs (pos 0) 0)

  fill_method-Writes :
      (channel : ℤ) (m : Method) (args : Args Double) (vs : List (Value Double))
      → Holds p args m.fields vs
      → AreParams p m.fields vs
      → Writes 0 (fill_method p channel m args) (wire_frame 1 channel (method_bytes m vs))
  unfolding fill_method serialize_fields to_uint8
  fill_method-Writes channel m args vs held are =
      subst (λ (l : List ℕ). Writes 0 (fill_method p channel m args) (1 ∷ int_bytes 2 channel ++ l))
        (append_assoc (int_bytes 4 (pos (length (method_bytes m vs)))) (method_bytes m vs)
          (206 ∷ []))
        (then-Writes (put-Writes (pos 1))
          (then-Writes (serialize_int-Writes 2 channel (inr (inl refl)))
            (then-Writes
              (with_dummy-Writes (pos 42) (method_bytes m vs) (
                then-Writes (serialize_int-Writes 2 _ (inr (inl refl)))
                  (then-Writes (serialize_int-Writes 2 _ (inr (inl refl)))
                    (loop-Writes p args true m.fields vs (pos 0) 0 held are) (omega arith))
                  (omega arith)))
              (put-Writes (pos 206)) (omega arith))
            (omega arith))
          (omega arith))

  -- With room for the frame in the buffer, `_sendMethod` gives the frame of the method to the socket.
  pub send_method-wire_frame :
      (channel : ℤ) (m : Method) (args : Args Double) (vs : List (Value Double)) (b : Buffer)
      → Holds p args m.fields vs
      → AreParams p m.fields vs
      → length (wire_frame 1 channel (method_bytes m vs)) ≤ length b.mem
      → (c : Buffer) × (send_method p channel m args b
          ≡ ok (wire_frame 1 channel (method_bytes m vs), c))
  unfolding send_method
  send_method-wire_frame channel m args vs b held are room =
      let frame = wire_frame 1 channel (method_bytes m vs) in
      let back = drop (length frame) b.mem in
      let fill = fill_method-Writes channel m args vs held are in
      (
        at frame back,
        ap (λ (r : Result Buffer). r >>= λ c. ok (take c.used c.mem, c))
              (fill.run [] b.mem (omega arith))
            ∙ ap (λ (l : List ℕ). ok (l, at frame back)) (take-append frame back),
      )

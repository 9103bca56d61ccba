-- ===== src/ConnPool/Sending/Delivery.antt =====
-- No byte is lost, repeated or put out of order between the buffer and the channel, and the events that the
-- worker waits for fit what is left.
use salticidae.Base.{
  if-cases, ℕ, ◌+◌, ◌<◌, ◌≤◌, ◌≡◌, ◌⊎◌, inl, inr, refl, sym, ap, ◌∙◌, Bool, true, false, not, List,
  [], ◌∷◌, ◌++◌, length, take, drop, Bool-cases, append_assoc, arith, take-append-drop, length-drop,
  length-append,
}
use salticidae.Bytes.{All}
use salticidae.ConnPool.{Sent, accepted, send_fails, Channel, Conn}
use salticidae.ConnPool.Sending.{
  Output, send_loop, send_data, on_written, drained, unsent, is_whole,
}

abbrev pub concat : List (List ℕ) → List ℕ
concat [] = []
concat (s ∷ ss) = s ++ concat ss

module _ (channel : Channel) where
  open channel use {World, send, send_again}

  -- What was accepted and what is still to be sent.
  abbrev pub stream : Output channel → List ℕ
  stream o = o.wire ++ concat o.conn.send_buffer

  unsent_lem :
      (seg : List ℕ) (segs : List (List ℕ)) (answer : Sent) (o : Output channel)
      → stream (unsent channel seg segs answer o) ≡ o.wire ++ (seg ++ concat segs)
  unfolding unsent
  unsent_lem seg segs (send_fails code) o = ground arith
  unsent_lem seg segs (accepted n) o =
      append_assoc o.wire (take n seg) (drop n seg ++ concat segs)
      ∙ ap (λ l. o.wire ++ l)
          (sym (append_assoc (take n seg) (drop n seg) (concat segs))
            ∙ ap (λ l. l ++ concat segs) (take-append-drop n seg))

  send_loop_lem :
      (segs : List (List ℕ)) (o : Output channel)
      → stream (send_loop channel segs o) ≡ o.wire ++ concat segs
  unfolding send_loop drained
  send_loop_lem [] o = refl
  send_loop_lem ([] ∷ segs) o = refl
  send_loop_lem ((b ∷ bs) ∷ segs) o =
      elim (Bool-cases (is_whole channel (b ∷ bs) (send o.world (b ∷ bs)).0)) [
        | inl y ↦ rw y (send_loop_lem segs _ ∙ append_assoc o.wire (b ∷ bs) (concat segs))
        | inr n ↦ rw n (unsent_lem (b ∷ bs) segs (send o.world (b ∷ bs)).0 _)
      ]

  pub send_data-stream :
      (failed : Bool) (o : Output channel) → stream (send_data channel failed o) ≡ stream o
  unfolding send_data
  send_data-stream true o = refl
  send_data-stream false o = send_loop_lem o.conn.send_buffer o

  pub on_written-stream : (o : Output channel) → stream (on_written channel o) ≡ stream o
  unfolding on_written
  on_written-stream o =
      if-cases (λ r. stream r ≡ stream o) o.conn.ready_send _ o
        (λ y. send_data-stream false (record o {
          conn = record o.conn { events = record { read = not o.conn.ready_recv; write = true } };
        }))
        (λ n. refl)

  -- The worker waits for READ unless the socket waits for the buffer, and for WRITE unless the buffer
  -- waits for more segments.
  abbrev pub EventsFit : Conn → Type 0
  EventsFit c = (c.events.read ≡ not c.ready_recv) × (c.events.write ≡ not c.ready_send)

  abbrev pub IsFilled : List ℕ → Type 0
  IsFilled seg = 0 < length seg

  -- How sending ends: everything is sent, or something is left for the next WRITE event, or the
  -- connection is to be terminated.
  abbrev pub Ends : ℕ → Conn → Type 0
  Ends n c =
      ((c.terminations ≡ n)
        × EventsFit c
        × (((c.ready_send ≡ true) × (c.send_buffer ≡ []))
            ⊎ ((c.ready_send ≡ false) × (0 < length (concat c.send_buffer)))))
      ⊎ (c.terminations ≡ n + 1)

  -- The world answers within the bounds of the segment.
  unsent-Ends :
      (seg : List ℕ) (segs : List (List ℕ)) (answer : Sent) (o : Output channel)
      → IsFilled seg
      → ((n : ℕ) → answer ≡ accepted n → n ≤ length seg)
      → is_whole channel seg answer ≡ false
      → o.conn.events.read ≡ not o.conn.ready_recv
      → o.conn.events.write ≡ true
      → Ends o.conn.terminations (unsent channel seg segs answer o).conn
  unfolding unsent is_whole
  unsent-Ends seg segs (send_fails code) o filled law part r w =
      elim (Bool-cases (send_again code)) [
        | inl y ↦
            rw y (inl (refl, (r, w), inr (refl, omega (arith, length-append seg (concat segs)))))
        | inr n ↦ rw n (inr refl)
      ]
  unsent-Ends seg segs (accepted n) o filled law part r w = inl (
    refl,
    (r, w),
    inr (
      refl,
      ground (arith, law n refl, length-append (drop n seg) (concat segs), length-drop n seg),
    ),
  )

  send_loop-Ends :
      (segs : List (List ℕ)) (o : Output channel)
      → All IsFilled segs
      → o.conn.events.read ≡ not o.conn.ready_recv
      → o.conn.events.write ≡ true
      → Ends o.conn.terminations (send_loop channel segs o).conn
  unfolding send_loop drained
  send_loop-Ends [] o filled r w = inl (refl, (refl, refl), inl (refl, refl))
  send_loop-Ends ([] ∷ segs) o filled r w = absurd (omega (arith, filled.0))
  send_loop-Ends ((b ∷ bs) ∷ segs) o filled r w =
      elim (Bool-cases (is_whole channel (b ∷ bs) (send o.world (b ∷ bs)).0)) [
        | inl y ↦ rw y (send_loop-Ends segs _ filled.1 r w)
        | inr n ↦ rw n (
            unsent-Ends (b ∷ bs) segs (send o.world (b ∷ bs)).0 _ filled.0
              (channel.accepted-le o.world (b ∷ bs)) n r w)
      ]

  -- On a WRITE event sending ends with an empty buffer and WRITE masked, or with bytes left and WRITE
  -- awaited, or the connection is terminated. The condition is that no segment is empty.
  pub send_data-Ends :
      (o : Output channel)
      → All IsFilled o.conn.send_buffer
      → o.conn.events.read ≡ not o.conn.ready_recv
      → o.conn.events.write ≡ true
      → Ends o.conn.terminations (send_data channel false o).conn
  unfolding send_data
  send_data-Ends o filled r w = send_loop-Ends o.conn.send_buffer o filled r w

  -- After a segment has been put in the buffer, the handler leaves none of it unattended: the events fit
  -- again, and with bytes left the worker waits for WRITE.
  pub on_written-Ends :
      (o : Output channel)
      → All IsFilled o.conn.send_buffer
      → 0 < length (concat o.conn.send_buffer)
      → EventsFit o.conn
      → Ends o.conn.terminations (on_written channel o).conn
  unfolding on_written
  on_written-Ends o filled some_left (r, w) = elim (Bool-cases o.conn.ready_send) [
    | inl y ↦ rw y (send_data-Ends _ filled refl refl)
    | inr n ↦ rw n (inl (refl, (r, w ∙ ap not n), inr (refl, some_left)))
  ]

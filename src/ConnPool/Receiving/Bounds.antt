-- ===== src/ConnPool/Receiving/Bounds.antt =====
-- What is received goes into the buffer in order, and the buffer keeps within its limit of segments.
use salticidae.Base.{
  ℕ, zero, suc, ◌+◌, ◌-◌, ◌<◌, ◌≤◌, ◌≡◌, ◌⊎◌, inl, inr, refl, sym, ap, ◌∙◌, true, false, not, ◌&&◌,
  List, [], ◌∷◌, ◌++◌, length, ◌==◌, leb, ltb, Bool-cases, leb→le, leb-false→lt, ltb-false→le,
  true≢false, if-cases, and-false, append_assoc, append-nil, arith,
}
use salticidae.Buffer
use salticidae.Buffer.{SegBuffer}
use salticidae.Buffer.Contents.{contents, contents-push, len-push}
use salticidae.ConnPool.{Received, bytes, recv_fails, Channel, Conn}
use salticidae.ConnPool.Receiving.{
  Input, recv_loop, recv_data, reading, resume, full, finished, pushed, answered, fuel_for,
}

module _ (channel : Channel) where
  open channel use {World, recv, recv_again}

  -- The events fit and the limit is reached, while the reader has not been told, or they fit and the reader has
  -- been told; or the connection is to be terminated.
  abbrev pub Ends : Conn → Conn → Type 0
  Ends c d =
      ((d.terminations ≡ c.terminations)
        × ((d.ready_send ≡ c.ready_send) × (d.max_recv_buff_size ≡ c.max_recv_buff_size))
        × (d.events.read ≡ not d.ready_recv)
        × (d.events.write ≡ not d.ready_send)
        × (((d.ready_recv ≡ true)
              × (c.max_recv_buff_size ≤ Buffer.len d.recv_buffer)
              × (d.reads ≡ c.reads))
            ⊎ ((d.ready_recv ≡ false) × (d.reads ≡ c.reads + 1))))
      ⊎ (d.terminations ≡ c.terminations + 1)

  -- What a round keeps, from the input `i` to the input `j`: the bytes received are appended, the
  -- buffer has at most its limit of segments, and the fuel has not run out.
  pub record Keeps (i j : Input channel) : Type 0 where
    pub new : List ℕ
    pub received : j.wire ≡ i.wire ++ new
    pub appended : contents j.conn.recv_buffer ≡ contents i.conn.recv_buffer ++ new
    pub within :
        Buffer.len i.conn.recv_buffer ≤ i.conn.max_recv_buff_size
        → Buffer.len j.conn.recv_buffer ≤ i.conn.max_recv_buff_size
    pub fuelled : j.starved ≡ i.starved
    pub ends : Ends i.conn j.conn

  -- A round that takes no bytes.
  idle-Keeps :
      (i : Input channel) (d : Conn)
      → d.recv_buffer ≡ i.conn.recv_buffer
      → Ends i.conn d
      → Keeps i (record i { conn = d })
  idle-Keeps i d same e = record {
    new = [];
    received = sym (append-nil i.wire);
    appended = ap contents same ∙ sym (append-nil (contents i.conn.recv_buffer));
    within = λ h. rw same h;
    fuelled = refl;
    ends = e;
  }

  pushed-Keeps :
      (bs : List ℕ) (i j : Input channel)
      → Buffer.len i.conn.recv_buffer < i.conn.max_recv_buff_size
      → Keeps (pushed channel bs i) j
      → Keeps i j
  unfolding pushed
  pushed-Keeps bs i j room k = record {
    new = bs ++ k.new;
    received = k.received ∙ append_assoc i.wire bs k.new;
    appended =
        k.appended
        ∙ ap (λ l. l ++ k.new) (contents-push bs i.conn.recv_buffer)
        ∙ append_assoc (contents i.conn.recv_buffer) bs k.new;
    within = λ h. k.within (omega (arith, len-push bs i.conn.recv_buffer));
    fuelled = k.fuelled;
    ends = k.ends;
  }

  answered-Keeps :
      (answer : Received) (more : Input channel → Input channel) (i : Input channel)
      → Buffer.len i.conn.recv_buffer < i.conn.max_recv_buff_size
      → i.conn.events.read ≡ true
      → i.conn.events.write ≡ not i.conn.ready_send
      → ((bs : List ℕ) → Keeps (pushed channel bs i) (more (pushed channel bs i)))
      → Keeps i (answered channel answer more i)
  unfolding answered finished pushed
  answered-Keeps (recv_fails code) more i room r w k = elim (Bool-cases (recv_again code)) [
    | inl y ↦ rw y (idle-Keeps i _ refl (inl (refl, (refl, refl), r, w, inr (refl, refl))))
    | inr n ↦ rw n (idle-Keeps i _ refl (inr refl))
  ]
  answered-Keeps (bytes []) more i room r w k = idle-Keeps i _ refl (inr refl)
  answered-Keeps (bytes (b ∷ bs)) more i room r w k =
      elim (Bool-cases (length (b ∷ bs) == i.conn.recv_chunk_size)) [
        | inl y ↦ rw y (pushed-Keeps (b ∷ bs) i _ room (k (b ∷ bs)))
        | inr n ↦ rw n (
            pushed-Keeps (b ∷ bs) i _ room (
              idle-Keeps (pushed channel (b ∷ bs) i) _ refl
                (inl (refl, (refl, refl), r, w, inr (refl, refl)))))
      ]

  -- A call of `recv` takes the world on.
  called-Keeps : (w : World) (i j : Input channel) → Keeps (record i { world = w }) j → Keeps i j
  called-Keeps w i j k = record {
    new = k.new;
    received = k.received;
    appended = k.appended;
    within = k.within;
    fuelled = k.fuelled;
    ends = k.ends;
  }

  recv_loop-Keeps :
      (fuel : ℕ) (i : Input channel)
      → i.conn.max_recv_buff_size - Buffer.len i.conn.recv_buffer < fuel
      → i.conn.events.read ≡ true
      → i.conn.events.write ≡ not i.conn.ready_send
      → Keeps i (recv_loop channel fuel i)
  unfolding recv_loop full pushed
  recv_loop-Keeps zero i enough r w = absurd (omega arith)
  recv_loop-Keeps (suc fuel) i enough r w =
      let room : leb i.conn.max_recv_buff_size (Buffer.len i.conn.recv_buffer) ≡ false
          → Buffer.len i.conn.recv_buffer < i.conn.max_recv_buff_size =
        leb-false→lt _ _ in
      elim (Bool-cases (leb i.conn.max_recv_buff_size (Buffer.len i.conn.recv_buffer))) [
        | inl y ↦ rw y (
            idle-Keeps i _ refl
              (inl (refl, (refl, refl), refl, refl, inl (refl, leb→le _ _ y, refl))))
        | inr n ↦ rw n (
            called-Keeps (recv i.world i.conn.recv_chunk_size).1 i _ (
              answered-Keeps (recv i.world i.conn.recv_chunk_size).0 (recv_loop channel fuel) _
                (room n) r w
                (λ bs.
                  recv_loop-Keeps fuel _ (omega (arith, room n, len-push bs i.conn.recv_buffer)) r
                    w)))
      ]

  pub recv_data-Keeps :
      (i : Input channel)
      → i.conn.events.read ≡ true
      → i.conn.events.write ≡ not i.conn.ready_send
      → Keeps i (recv_data channel false i)
  unfolding recv_data
  recv_data-Keeps i r w = recv_loop-Keeps (fuel_for channel i.conn) i (omega arith) r w

  abbrev pub EventsFit : Conn → Type 0
  EventsFit c = (c.events.read ≡ not c.ready_recv) × (c.events.write ≡ not c.ready_send)

  -- A connection that reads, or waits with its buffer at the limit.
  abbrev pub IsAttended : Conn → Type 0
  IsAttended c =
      EventsFit c × ((c.ready_recv ≡ true) → c.max_recv_buff_size ≤ Buffer.len c.recv_buffer)

  attended :
      (c d : Conn)
      → Ends c d
      → (IsAttended d × (d.terminations ≡ c.terminations)) ⊎ (d.terminations ≡ c.terminations + 1)
  attended c d (inl (t, (s, m), r, w, inl (waits, limit, _))) =
      inl (((r, w), λ _. omega (arith, m, limit)), t)
  attended c d (inl (t, (s, m), r, w, inr (reads, told))) =
      inl (((r, w), λ y. absurd (true≢false (sym y ∙ reads))), t)
  attended c d (inr t) = inr t

  -- When the reader has taken what it can out of the buffer, no connection is left masked with room in its
  -- buffer: it reads, or waits at its limit, or is to be terminated.
  pub resume_lem :
      (i : Input channel)
      → EventsFit i.conn
      → (IsAttended (resume channel i).conn
          × ((resume channel i).conn.terminations ≡ i.conn.terminations))
        ⊎ ((resume channel i).conn.terminations ≡ i.conn.terminations + 1)
  unfolding resume
  resume_lem i (r, w) =
      let room = ltb (Buffer.len i.conn.recv_buffer) i.conn.max_recv_buff_size in
      if-cases
        (λ j.
          (IsAttended j.conn × (j.conn.terminations ≡ i.conn.terminations))
          ⊎ (j.conn.terminations ≡ i.conn.terminations + 1))
        (i.conn.ready_recv && room) (recv_data channel false (reading channel i)) i
        (λ y.
          attended (reading channel i).conn (recv_data channel false (reading channel i)).conn
            (recv_data-Keeps (reading channel i) refl refl).ends)
        (λ n. inl (((r, w), λ y. ltb-false→le _ _ (and-false i.conn.ready_recv room n y)), refl))

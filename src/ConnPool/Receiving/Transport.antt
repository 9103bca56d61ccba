-- ===== src/ConnPool/Receiving/Transport.antt =====
-- The bytes that a worker receives come out of flight in order, and go into the buffer in segments.
use salticidae.Base.{
  ℕ, zero, suc, ◌≡◌, refl, sym, ap, ◌∙◌, Bool, true, false, List, [], ◌∷◌, ◌++◌, length, ◌==◌, leb,
  ltb, ◌&&◌, if-cases, append_assoc,
}
use salticidae.Buffer
use salticidae.Buffer.{SegBuffer}
use salticidae.ConnPool.{Received, bytes, recv_fails, Gives, Pipe}
use salticidae.ConnPool.Sending.Delivery.{concat}
use salticidae.ConnPool.Receiving.{
  Input, recv_loop, recv_data, resume, reading, full, finished, pushed, answered, fuel_for,
}

abbrev pub push_all : List (List ℕ) → SegBuffer → SegBuffer
push_all [] b = b
push_all (seg ∷ segs) b = push_all segs (Buffer.push seg b)

module _ (pipe : Pipe) where
  open pipe use {channel, in_flight, gives}
  open channel use {World, recv, recv_again}

  -- From the input `i` to the input `j`, segments have come out of flight and into the buffer.
  pub record Brings (i j : Input channel) : Type 0 where
    pub segs : List (List ℕ)
    pub buffered : j.conn.recv_buffer ≡ push_all segs i.conn.recv_buffer
    pub taken : in_flight i.world ≡ concat segs ++ in_flight j.world

  same-Brings :
      (i j : Input channel)
      → j.conn.recv_buffer ≡ i.conn.recv_buffer
      → in_flight j.world ≡ in_flight i.world
      → Brings i j
  same-Brings i j b f = record { segs = []; buffered = b; taken = sym f }

  -- A segment `bs` comes, with the world `w` behind it.
  pushed-Brings :
      (bs : List ℕ) (i j : Input channel) (w : World)
      → in_flight i.world ≡ bs ++ in_flight w
      → Brings (pushed channel bs (record i { world = w })) j
      → Brings i j
  unfolding pushed
  pushed-Brings bs i j w e k = record {
    segs = bs ∷ k.segs;
    buffered = k.buffered;
    taken =
        e ∙ ap (λ l. bs ++ l) k.taken ∙ sym (append_assoc bs (concat k.segs) (in_flight j.world));
  }

  answered-Brings :
      (answer : Received) (more : Input channel → Input channel) (i : Input channel) (w : World)
      → Gives in_flight answer i.world w
      → ((k : Input channel) → Brings k (more k))
      → Brings i (answered channel answer more (record i { world = w }))
  unfolding answered finished
  answered-Brings (recv_fails code) more i w g k =
      if-cases (Brings i) (recv_again code) _ _ (λ y. same-Brings i _ refl g)
        (λ n. same-Brings i _ refl g)
  answered-Brings (bytes []) more i w g k = same-Brings i _ refl (sym g)
  answered-Brings (bytes (b ∷ bs)) more i w g k =
      if-cases (Brings i) (length (b ∷ bs) == i.conn.recv_chunk_size) _ _
        (λ y. pushed-Brings (b ∷ bs) i _ w g (k _))
        (λ n. pushed-Brings (b ∷ bs) i _ w g (same-Brings _ _ refl refl))

  recv_loop-Brings : (fuel : ℕ) (i : Input channel) → Brings i (recv_loop channel fuel i)
  unfolding recv_loop full
  recv_loop-Brings zero i = same-Brings i _ refl refl
  recv_loop-Brings (suc fuel) i =
      if-cases (Brings i) (leb i.conn.max_recv_buff_size (Buffer.len i.conn.recv_buffer)) _ _
        (λ y. same-Brings i _ refl refl)
        (λ n.
          answered-Brings (recv i.world i.conn.recv_chunk_size).0 (recv_loop channel fuel) i
            (recv i.world i.conn.recv_chunk_size).1 (gives i.world i.conn.recv_chunk_size)
            (recv_loop-Brings fuel))

  -- Receiving takes bytes out of flight and puts them in the buffer, in order.
  pub recv_data-Brings : (failed : Bool) (i : Input channel) → Brings i (recv_data channel failed i)
  unfolding recv_data
  recv_data-Brings true i = same-Brings i _ refl refl
  recv_data-Brings false i = recv_loop-Brings (fuel_for channel i.conn) i

  pub resume-Brings : (i : Input channel) → Brings i (resume channel i)
  unfolding resume
  resume-Brings i =
      if-cases (Brings i)
        (i.conn.ready_recv && ltb (Buffer.len i.conn.recv_buffer) i.conn.max_recv_buff_size)
        (recv_data channel false (reading channel i)) i
        (λ y. reread (recv_data-Brings false (reading channel i))) (λ n. same-Brings i i refl refl)
    where
      reread : {j : Input channel} → Brings (reading channel i) j → Brings i j
      reread k = record { segs = k.segs; buffered = k.buffered; taken = k.taken }

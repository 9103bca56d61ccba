-- ===== src/Network/Reader/Delivery/History.antt =====
-- Histories of one connection: the segments of its byte stream in any sizes, mixed in any order
-- with reads, polls and the user's loop.
use salticidae.Base.{
  ℕ, ◌+◌, ◌<◌, ◌≡◌, refl, sym, ap, ◌∙◌, subst, false, Bool-cases, inl, inr, Option, none, some,
  if◌then◌else◌, arith, List, [], ◌∷◌, ◌++◌, map, length, length-append, append_assoc, append-nil,
  ◌^◌,
}
use salticidae.Bytes.{All}
use salticidae.Buffer
use salticidae.Buffer.Contents
use salticidae.Buffer.Contents.{IsValid, push_lem, size_lem, empty-IsValid, contents-empty}
use salticidae.Platform.{Platform}
use salticidae.Msg.{Msg}
use salticidae.Network.Reader.{
  Inbox, MsgState, header, payload, Conn, ReadResult, on_read, enqueue_poll,
}
use salticidae.Network.Reader.Rounds.{wire, Fits, Holds, tag, sleeping}
use salticidae.Network.Reader.Delivery.{
  Event, segment, readable, polls, takes, arrived, Keeps, on_read_lem, enqueue_poll_lem,
}
use salticidae.Network.Reader.Delivery.Lengths.{wire_suffix, Holds-length, Short-Holds}

module _ (p : Platform) (inbox : Inbox) (max_msg_size : ℕ) where
  open inbox use {Queue, dequeue}

  -- A connection, the queue behind it, and what the user has taken out.
  pub record Link : Type 0 where
    pub conn : Conn
    pub queue : Queue
    pub taken : List (Msg × ℕ)

  abbrev after_read : Link → ReadResult p inbox max_msg_size → Link
  after_read l r = record l { conn = r.conn; queue = r.queue }

  taking : Link → Option ((Msg × ℕ) × Queue) → Link
  taking l none = l
  taking l (some (x, r)) = record l { queue = r; taken = l.taken ++ (x ∷ []) }

  unfoldable pub step : Link → Event → Link
  unfolding taking
  step l (segment bytes) = record l {
    conn = record l.conn { recv_buffer = Buffer.push bytes l.conn.recv_buffer };
  }
  step l readable = after_read l (on_read p inbox max_msg_size l.conn l.queue)
  step l polls =
      if l.conn.poll_armed
      then after_read l (enqueue_poll p inbox max_msg_size l.conn l.queue)
      else l
  step l takes = taking l (dequeue l.queue)

  unfoldable pub run : Link → List Event → Link
  run l [] = l
  run l (e ∷ es) = run (step l e) es

  -- A connection before its first byte, and an empty queue.
  pub record IsFresh (l : Link) : Type 0 where
    pub no_bytes : l.conn.recv_buffer ≡ Buffer.empty
    pub at_header : l.conn.msg_state ≡ header
    pub awake : l.conn.msg_sleep ≡ false
    pub unarmed : l.conn.poll_armed ≡ false
    pub no_messages : inbox.contents l.queue ≡ []
    pub none_taken : l.taken ≡ []

  abbrev pub LinkInv : ℕ → List Msg → List ℕ → Link → Type 0
  LinkInv id ms future l = Keeps p inbox max_msg_size id ms future l.taken l.conn l.queue

  module _ (id : ℕ) (ms : List Msg) (fits : length (wire p inbox max_msg_size ms) < 2 ^ 64) where
    segment_lem :
        (l : Link) (bytes future : List ℕ)
        → LinkInv id ms (bytes ++ future) l
        → LinkInv id ms future (step l (segment bytes))
    unfolding step
    segment_lem l bytes future i = record {
      rest = i.rest;
      same = i.same;
      armed = i.armed;
      valid = pushed.0;
      fits = i.fits;
      holds = regroup l.conn.msg_state i.rest i.holds;
      in_order = i.in_order;
    }
      where
        room : l.conn.recv_buffer.total + length bytes < 2 ^ 64
        room = omega (
          arith,
          fits,
          i.valid.counted,
          length-append bytes future,
          Holds-length p inbox max_msg_size (bytes ++ future) l.conn.msg_state l.conn i.rest i.fits
              i.holds,
          wire_suffix p inbox max_msg_size id
              (l.taken ++ (inbox.contents l.queue ++ sleeping p inbox max_msg_size l.conn)) i.rest
              ms (simp append_assoc i.in_order),
        )

        pushed :
            IsValid (Buffer.push bytes l.conn.recv_buffer)
            × (Contents.contents (Buffer.push bytes l.conn.recv_buffer)
                ≡ Contents.contents l.conn.recv_buffer ++ bytes)
        pushed = push_lem bytes l.conn.recv_buffer i.valid room

        regroup :
            (s : MsgState) (rest : List Msg)
            → Holds p inbox max_msg_size (bytes ++ future) s l.conn.recv_buffer l.conn.msg rest
            → Holds p inbox max_msg_size future s
                (Buffer.push bytes l.conn.recv_buffer)
                l.conn.msg
                rest
        regroup header rest h =
            rw pushed.1 (append_assoc (Contents.contents l.conn.recv_buffer) bytes future ∙ h)
        regroup payload [] h = absurd h
        regroup payload (m ∷ rest) h = (
          h.0,
          rw pushed.1 (append_assoc (Contents.contents l.conn.recv_buffer) bytes future ∙ h.1),
        )

    polls_lem :
        (l : Link) (future : List ℕ) → LinkInv id ms future l → LinkInv id ms future (step l polls)
    polls_lem l future i = elim (Bool-cases l.conn.poll_armed) [
      | inl armed ↦
          unfold step in
          simp armed
            (enqueue_poll_lem p inbox max_msg_size id ms future l.taken l.conn l.queue i
              (sym i.armed ∙ armed)).0
      | inr idle ↦ unfold step in simp idle i
    ]

    takes_lem :
        (l : Link) (future : List ℕ) → LinkInv id ms future l → LinkInv id ms future (step l takes)
    unfolding step
    takes_lem l future i = take_from (dequeue l.queue) refl
      where
        take_from :
            (o : Option ((Msg × ℕ) × Queue))
            → dequeue l.queue ≡ o
            → LinkInv id ms future (taking l o)
        take_from none k = i
        take_from (some (x, r)) k = record {
          rest = i.rest;
          same = i.same;
          armed = i.armed;
          valid = i.valid;
          fits = i.fits;
          holds = i.holds;
          in_order = simp append_assoc (rw (inbox.contents-dequeue x l.queue r k) at i.in_order);
        }

    run_lem :
        (es : List Event) (l : Link) (future : List ℕ)
        → LinkInv id ms (arrived es ++ future) l
        → LinkInv id ms future (run l es)
    unfolding run
    run_lem [] l future i = i
    run_lem (segment bytes ∷ es) l future i = run_lem es (step l (segment bytes)) future (
        segment_lem l bytes (arrived es ++ future)
          (subst (λ f. LinkInv id ms f l) (append_assoc bytes (arrived es) future) i))
    run_lem (readable ∷ es) l future i = run_lem es (step l readable) future (
        unfold step in
        (on_read_lem p inbox max_msg_size id ms (arrived es ++ future) l.taken l.conn l.queue i).0)
    run_lem (polls ∷ es) l future i =
        run_lem es (step l polls) future (polls_lem l (arrived es ++ future) i)
    run_lem (takes ∷ es) l future i =
        run_lem es (step l takes) future (takes_lem l (arrived es ++ future) i)

  fresh-LinkInv :
      (l : Link) (ms : List Msg)
      → IsFresh l
      → All (Fits p inbox max_msg_size) ms
      → LinkInv l.conn.id ms (wire p inbox max_msg_size ms) l
  fresh-LinkInv l ms f g = record {
    rest = ms;
    same = refl;
    armed = f.unarmed ∙ sym f.awake;
    valid = rw f.no_bytes empty-IsValid;
    fits = g;
    holds =
        rw (f.at_header, f.no_bytes) (ap (λ bs. bs ++ wire p inbox max_msg_size ms) contents-empty);
    in_order = simp (f.awake, f.no_messages, f.none_taken);
  }

  -- Messages are sent one after another, with fewer than 2^64 bytes in all, and some of their bytes arrive at a fresh connection, in
  -- segments of any sizes, mixed with reads, polls and takes in any order, where the queue may
  -- refuse a message at any time. Then what the user has taken, what is in the queue and the
  -- message that waits for room are the first messages that were sent: none is lost, repeated,
  -- changed or out of order.
  pub run-prefix :
      (es : List Event) (l : Link) (ms : List Msg) (more : List ℕ)
      → IsFresh l
      → All (Fits p inbox max_msg_size) ms
      → length (wire p inbox max_msg_size ms) < 2 ^ 64
      → arrived es ++ more ≡ wire p inbox max_msg_size ms
      → (rest : List Msg) × ((run l es).taken
            ++ (inbox.contents (run l es).queue
                ++ (sleeping p inbox max_msg_size (run l es).conn
                    ++ map (tag p inbox max_msg_size l.conn.id) rest))
          ≡ map (tag p inbox max_msg_size l.conn.id) ms)
  run-prefix es l ms more f g n e =
      let i =
        run_lem l.conn.id ms n es l more
          (subst (λ t. LinkInv l.conn.id ms t l) (sym e) (fresh-LinkInv l ms f g)) in
      (i.rest, i.in_order)

  -- When all bytes have arrived and `on_read` runs once more and does not end asleep, every message
  -- has been delivered: what the user has taken and what is in the queue are the messages sent.
  pub run_complete :
      (es : List Event) (l : Link) (ms : List Msg)
      → IsFresh l
      → All (Fits p inbox max_msg_size) ms
      → length (wire p inbox max_msg_size ms) < 2 ^ 64
      → arrived es ≡ wire p inbox max_msg_size ms
      → (step (run l es) readable).conn.msg_sleep ≡ false
      → (step (run l es) readable).taken ++ inbox.contents (step (run l es) readable).queue
        ≡ map (tag p inbox max_msg_size l.conn.id) ms
  unfolding step
  run_complete es l ms f g n e awake =
      let i = run_lem l.conn.id ms n es l [] (
        subst (λ t. LinkInv l.conn.id ms t l) (sym (append-nil (arrived es) ∙ e))
          (fresh-LinkInv l ms f g)) in
      let (j, end) =
        on_read_lem p inbox max_msg_size l.conn.id ms [] (run l es).taken (run l es).conn
          (run l es).queue i in
      elim end [
        | inl (_, _, short) ↦
            let none_left =
              Short-Holds p inbox max_msg_size _ _ j.rest j.valid j.fits short j.holds in
            simp (awake, none_left, append-nil) at j.in_order
        | inr (_, sleeps) ↦ cc (sym awake ∙ sleeps)
      ]

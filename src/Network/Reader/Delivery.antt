-- ===== src/Network/Reader/Delivery.antt =====
-- The connection delivers the messages that were sent, whatever the pieces in which their bytes
-- arrive and however often the queue is full.
pub mod Lengths
pub mod History
use salticidae.Base.{
  ℕ, zero, suc, ◌+◌, ◌≤◌, ◌<◌, ◌≡◌, ◌≢◌, refl, sym, ap, ◌∙◌, subst, Bool, true, false, Bool-cases,
  ◌⊎◌, inl, inr, Option, none, some, Option-cases, ltb, if◌then◌else◌, Result, ok, err, arith, List,
  [], ◌∷◌, ◌++◌, map, length, take, drop, length-append, append-split, append_assoc, append-nil,
  ltb-false, lt→ltb, ◌^◌,
}
use salticidae.Bytes.{All}
use salticidae.Buffer
use salticidae.Buffer.{SegBuffer}
use salticidae.Buffer.Contents.{IsValid, pop_lem, size_lem, push_lem}
use salticidae.Buffer.Contents
use salticidae.Platform.{Platform}
use salticidae.Msg.{Msg, header_size, serialize}
use salticidae.Network.Reader.{
  Inbox, MsgState, header, payload, Conn, End, waiting, dropped, asleep, thrown, starved, Flow,
  next, stop, round, read_loop, fuel_for, ReadResult, read_unless, on_read, enqueue_poll, polled,
}
use salticidae.Network.Reader.Framing.{on_read-ne-starved}
use salticidae.Network.Reader.Rounds.{
  wire, Fits, Holds, tag, sleeping, Inv, Short, Holding, Rounds, round_lem,
}

-- What happens to a connection: `_recv_data` pushes a segment; it calls `on_read`; the poll timer
-- fires; the user's loop takes a message out of the queue.
pub data Event : Type 0 where
  segment : List ℕ → Event
  readable polls takes : Event

-- The bytes that the events bring.
abbrev pub arrived : List Event → List ℕ
arrived [] = []
arrived (segment bytes ∷ es) = bytes ++ arrived es
arrived (readable ∷ es) = arrived es
arrived (polls ∷ es) = arrived es
arrived (takes ∷ es) = arrived es

module _ (p : Platform) (inbox : Inbox) (max_msg_size : ℕ) where
  open inbox use {Queue, enqueue, dequeue}

  module _ (id : ℕ) (ms : List Msg) (future : List ℕ) (taken : List (Msg × ℕ)) where
    abbrev pub Keeps : Conn → Queue → Type 0
    Keeps c q = Inv p inbox max_msg_size id ms future taken c.msg_state c q

    abbrev pub Ended : End → Conn → Queue → Type 0
    Ended waiting c q = Keeps c q × (c.msg_sleep ≡ false) × Short p inbox max_msg_size c.msg_state c
    Ended asleep c q = Keeps c q × (c.msg_sleep ≡ true)
    Ended starved c q = Unit
    Ended e c q = ⊥

    loop_lem :
        (fuel : ℕ) (c : Conn) (q : Queue)
        → Keeps c q
        → c.msg_sleep ≡ false
        → let (e, d, r) = read_loop p inbox max_msg_size fuel c q in Ended e d r
    unfolding read_loop
    loop_lem zero c q i awake = tt
    loop_lem (suc fuel) c q i awake =
        go (λ d r j w. loop_lem fuel d r j w) (round p inbox max_msg_size c q)
          (round_lem p inbox max_msg_size id ms future taken c q i awake)
      where
        go :
            ((d : Conn) (r : Queue)
              → Keeps d r
              → d.msg_sleep ≡ false
              → let (e, d', r') = read_loop p inbox max_msg_size fuel d r in Ended e d' r')
            → (f : Flow (Conn × Queue)) → Rounds p inbox max_msg_size id ms future taken f
            → let (e, d, r) = elim f as (λ _. End × Conn × Queue) [
              | next (c', q') ↦ read_loop p inbox max_msg_size fuel c' q'
              | stop e (c', q') ↦ (e, c', q')
            ] in
              Ended e d r
        go ih (next (d, r)) (j, w) = ih d r j w
        go ih (stop waiting (d, r)) k = k
        go ih (stop asleep (d, r)) k = k
        go ih (stop dropped (d, r)) k = absurd k
        go ih (stop (thrown x) (d, r)) k = absurd k
        go ih (stop starved (d, r)) k = absurd k

    -- `on_read` keeps the invariant. It ends with no whole message left in the buffer, or asleep.
    abbrev pub Settled : ReadResult p inbox max_msg_size → Type 0
    Settled r =
        Keeps r.conn r.queue
        × (((r.end ≡ waiting)
              × (r.conn.msg_sleep ≡ false)
              × Short p inbox max_msg_size r.conn.msg_state r.conn)
            ⊎ ((r.end ≡ asleep) × (r.conn.msg_sleep ≡ true)))

    Ended-cases :
        (e : End) (c : Conn) (q : Queue)
        → Ended e c q
        → e ≢ starved
        → Keeps c q
          × (((e ≡ waiting) × (c.msg_sleep ≡ false) × Short p inbox max_msg_size c.msg_state c)
              ⊎ ((e ≡ asleep) × (c.msg_sleep ≡ true)))
    Ended-cases waiting c q (k, w, s) n = (k, inl (refl, w, s))
    Ended-cases asleep c q (k, w) n = (k, inr (refl, w))
    Ended-cases dropped c q k n = absurd k
    Ended-cases (thrown x) c q k n = absurd k
    Ended-cases starved c q k n = absurd (n refl)

    pub on_read_lem :
        (c : Conn) (q : Queue) → Keeps c q → Settled (on_read p inbox max_msg_size c q)
    unfolding on_read
    on_read_lem c q i =
        either c.msg_sleep refl (on_read-ne-starved p inbox max_msg_size c q i.valid)
      where
        either :
            (b : Bool)
            → c.msg_sleep ≡ b
            → (read_unless p inbox max_msg_size b c q).end ≢ starved
            → Settled (read_unless p inbox max_msg_size b c q)
        either true sleeps n = (i, inr (refl, sleeps))
        either false awake n = Ended-cases _ _ _ (loop_lem (fuel_for c) c q i awake) n

    -- So does the poll of a sleeping connection: the message that was refused is queued at last, or
    -- goes on waiting.
    pub enqueue_poll_lem :
        (c : Conn) (q : Queue)
        → Keeps c q
        → c.msg_sleep ≡ true
        → Settled (enqueue_poll p inbox max_msg_size c q)
    unfolding enqueue_poll
    enqueue_poll_lem c q i sleeps = offer (enqueue (c.msg, c.id) q) refl
      where
        offer :
            (o : Option Queue)
            → enqueue (c.msg, c.id) q ≡ o
            → Settled (polled p inbox max_msg_size (record c { poll_armed = false }) q o)
        offer none k = (
          record {
            rest = i.rest;
            same = i.same;
            armed = refl;
            valid = i.valid;
            fits = i.fits;
            holds = i.holds;
            in_order = simp sleeps at i.in_order;
          },
          inr (refl, refl),
        )
        offer (some r) k =
            on_read_lem (record c { poll_armed = false; msg_sleep = false }) r
              (record {
                rest = i.rest;
                same = i.same;
                armed = refl;
                valid = i.valid;
                fits = i.fits;
                holds = i.holds;
                in_order =
                    simp (inbox.contents-enqueue (c.msg, c.id) q r k, append_assoc)
                      (simp sleeps at i.in_order);
              })

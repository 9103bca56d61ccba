-- ===== src/Network/Reader/Rounds.antt =====
-- One round of the loop of `on_read` against the messages that were sent: it moves one into the
-- queue, or finds too few bytes, or puts the connection to sleep before a full queue.
use native.Mathlib.Decide.{dec_lt}
use salticidae.Base.{
  ℕ, ◌≤◌, ◌<◌, ◌≡◌, refl, sym, ap, ◌∙◌, subst, true, false, Option, none, some, if◌then◌else◌,
  arith, List, [], ◌∷◌, ◌++◌, map, length, length-append, append-split, append_assoc, ltb-false,
  lt→ltb,
}
use salticidae.Bytes.{All}
use salticidae.Buffer
use salticidae.Buffer.{SegBuffer}
use salticidae.Buffer.Contents.{IsValid, pop_lem, size_lem, push_lem}
use salticidae.Buffer.Contents
use salticidae.Platform.{Platform}
use salticidae.Msg.{Msg, header_size, get_length, serialize}
use salticidae.Msg.RoundTrip.{
  header_bytes, length-header_bytes, header_of, IsSendable, serialize_lem, of_stream-header_bytes,
  set_payload-header_of,
}
use salticidae.Network.Reader.{
  Inbox, MsgState, header, payload, Conn, waiting, asleep, Flow, next, stop, got_header,
  read_header, queued, checked, read_payload, after_header, round_at, round,
}

module _ (p : Platform) (inbox : Inbox) (max_msg_size : ℕ) where
  open inbox use {Queue, enqueue}

  -- The bytes of messages sent one after another.
  abbrev pub wire : List Msg → List ℕ
  wire [] = []
  wire (m ∷ ms) = serialize p m ++ wire ms

  -- A message that a sender makes and the receiver's limit allows.
  abbrev pub Fits : Msg → Type 0
  Fits m = IsSendable p m × (m.length_field ≤ max_msg_size)

  -- The buffer and the bytes still to come hold `rest`, but for a header already read.
  abbrev pub Holds : List ℕ → MsgState → SegBuffer → Msg → List Msg → Type 0
  Holds future header b msg rest = Contents.contents b ++ future ≡ wire rest
  Holds future payload b msg [] = ⊥
  Holds future payload b msg (m ∷ rest) =
      (msg ≡ header_of m) × (Contents.contents b ++ future ≡ m.payload ++ wire rest)

  -- A whole header is parsed.
  header_lem :
      (future : List ℕ) (c : Conn) (m : Msg) (rest : List Msg)
      → IsValid c.recv_buffer
      → Fits m
      → Contents.contents c.recv_buffer ++ future ≡ wire (m ∷ rest)
      → header_size ≤ Buffer.size c.recv_buffer
      → (b : SegBuffer) × (read_header p inbox max_msg_size c
          ≡ next (record c { recv_buffer = b; msg = header_of m; msg_state = payload }))
        × IsValid b
        × (Contents.contents b ++ future ≡ m.payload ++ wire rest)
  unfolding read_header got_header get_length
  header_lem future c m rest v f e big =
      let b = c.recv_buffer in
      let (out, w, left) = pop_lem header_size b v in
      let split : Contents.contents b ++ future ≡ header_bytes m ++ (m.payload ++ wire rest) =
        e
        ∙ ap (λ bs. bs ++ wire rest) (serialize_lem p m f.0.in_range)
        ∙ append_assoc (header_bytes m) m.payload (wire rest) in
      let (front, behind) =
        append-split header_size (Contents.contents b) future (header_bytes m) _ split
          (length-header_bytes m) (omega (arith, size_lem b v)) in
      (
        (Buffer.pop header_size b).1,
        rw
            (
              ltb-false _ _ big,
              out ∙ front,
              of_stream-header_bytes p m f.0.in_range,
              ltb-false _ _ f.1,
            )
            refl,
        w,
        rw left behind,
      )

  -- A whole payload completes the message.
  payload_lem :
      (future : List ℕ) (c : Conn) (q : Queue) (m : Msg) (rest : List Msg)
      → IsValid c.recv_buffer
      → Fits m
      → c.msg ≡ header_of m
      → Contents.contents c.recv_buffer ++ future ≡ m.payload ++ wire rest
      → m.length_field ≤ Buffer.size c.recv_buffer
      → (b : SegBuffer) × (read_payload p inbox max_msg_size c q
          ≡ queued p inbox max_msg_size
              (record c { recv_buffer = b; msg = m; msg_state = header })
              q
              (enqueue (m, c.id) q))
        × IsValid b
        × (Contents.contents b ++ future ≡ wire rest)
  unfolding read_payload checked get_length
  payload_lem future c q m rest v f e h big =
      let b = c.recv_buffer in
      let (out, w, left) = pop_lem m.length_field b v in
      let (front, behind) =
        append-split m.length_field (Contents.contents b) future m.payload (wire rest) h
          (sym f.0.measured) (omega (arith, size_lem b v)) in
      (
        (Buffer.pop m.length_field b).1,
        rw e
            (rw (ltb-false _ _ big, out ∙ front, set_payload-header_of p m f.0, f.0.verified) refl),
        w,
        rw left behind,
      )

  abbrev pub tag : ℕ → Msg → Msg × ℕ
  tag id m = (m, id)

  -- The message that waits for room in the queue.
  abbrev pub sleeping : Conn → List (Msg × ℕ)
  sleeping c = if c.msg_sleep then (c.msg, c.id) ∷ [] else []

  -- Of the messages sent, in order: those taken from the queue, those in it, one that waits for
  -- room, and `rest`, which the buffer and the bytes still to come hold.
  pub record Inv (id : ℕ) (ms : List Msg) (future : List ℕ) (taken : List (Msg × ℕ)) (s : MsgState)
      (c : Conn) (q : Queue) : Type 0 where
    pub rest : List Msg
    pub same : c.id ≡ id
    pub armed : c.poll_armed ≡ c.msg_sleep
    pub valid : IsValid c.recv_buffer
    pub fits : All Fits rest
    pub holds : Holds future s c.recv_buffer c.msg rest
    pub in_order :
        taken ++ (inbox.contents q ++ (sleeping c ++ map (tag id) rest)) ≡ map (tag id) ms

  -- The next message is not whole yet.
  abbrev pub Short : MsgState → Conn → Type 0
  Short header c = Buffer.size c.recv_buffer < header_size
  Short payload c = Buffer.size c.recv_buffer < c.msg.length_field

  module _ (id : ℕ) (ms : List Msg) (future : List ℕ) (taken : List (Msg × ℕ)) where
    abbrev pub Holding : Conn → Queue → Type 0
    Holding c q = Inv id ms future taken c.msg_state c q

    -- What a round leaves: the invariant, a short buffer or a full queue, and no other end.
    abbrev pub Rounds : Flow (Conn × Queue) → Type 0
    Rounds (next (c, q)) = Holding c q × (c.msg_sleep ≡ false)
    Rounds (stop waiting (c, q)) = Holding c q × (c.msg_sleep ≡ false) × Short c.msg_state c
    Rounds (stop asleep (c, q)) = Holding c q × (c.msg_sleep ≡ true)
    Rounds (stop e s) = ⊥

    queued_lem :
        (c : Conn) (q : Queue) (rest : List Msg) (o : Option Queue)
        → c.id ≡ id
        → c.poll_armed ≡ c.msg_sleep
        → c.msg_sleep ≡ false
        → c.msg_state ≡ header
        → IsValid c.recv_buffer
        → All Fits rest
        → Contents.contents c.recv_buffer ++ future ≡ wire rest
        → taken ++ (inbox.contents q ++ map (tag id) (c.msg ∷ rest)) ≡ map (tag id) ms
        → enqueue (c.msg, c.id) q ≡ o
        → Rounds (queued p inbox max_msg_size c q o)
    unfolding queued
    queued_lem c q rest (some r) same armed awake at v f h e k = (
      record {
        rest = rest;
        same = same;
        armed = armed;
        valid = v;
        fits = f;
        holds = subst (λ s. Holds future s c.recv_buffer c.msg rest) (sym at) h;
        in_order = simp (awake, inbox.contents-enqueue (c.msg, c.id) q r k, append_assoc, same) e;
      },
      awake,
    )
    queued_lem c q rest none same armed awake at v f h e k = (
      record {
        rest = rest;
        same = same;
        armed = refl;
        valid = v;
        fits = f;
        holds = subst (λ s. Holds future s c.recv_buffer c.msg rest) (sym at) h;
        in_order = simp same e;
      },
      refl,
    )

    payload_round :
        (c : Conn) (q : Queue) (m : Msg) (rest : List Msg)
        → c.id ≡ id
        → c.poll_armed ≡ c.msg_sleep
        → c.msg_sleep ≡ false
        → c.msg_state ≡ payload
        → IsValid c.recv_buffer
        → All Fits (m ∷ rest)
        → Holds future payload c.recv_buffer c.msg (m ∷ rest)
        → taken ++ (inbox.contents q ++ map (tag id) (m ∷ rest)) ≡ map (tag id) ms
        → Rounds (read_payload p inbox max_msg_size c q)
    payload_round c q m rest same armed awake at v f (e, h) order =
        elim (dec_lt (Buffer.size c.recv_buffer) m.length_field) [
          | yes short ↦
              let small : Buffer.size c.recv_buffer < c.msg.length_field = rw e short in
              unfold read_payload get_length in
              rw (lt→ltb _ _ small) (
                record {
                  rest = m ∷ rest;
                  same = same;
                  armed = armed;
                  valid = v;
                  fits = f;
                  holds =
                      subst (λ s. Holds future s c.recv_buffer c.msg (m ∷ rest)) (sym at) (e, h);
                  in_order = simp awake order;
                },
                awake,
                subst (λ s. Short s c) (sym at) small,
              )
          | no whole ↦
              let (b, run, w, left) = payload_lem future c q m rest v f.0 e h (omega arith) in
              rw run (
                queued_lem (record c { recv_buffer = b; msg = m; msg_state = header }) q rest
                  (enqueue (m, c.id) q) same armed awake refl w f.1 left order refl)
        ]

    header_round :
        (c : Conn) (q : Queue) (rest : List Msg)
        → c.id ≡ id
        → c.poll_armed ≡ c.msg_sleep
        → c.msg_sleep ≡ false
        → c.msg_state ≡ header
        → IsValid c.recv_buffer
        → All Fits rest
        → Holds future header c.recv_buffer c.msg rest
        → taken ++ (inbox.contents q ++ map (tag id) rest) ≡ map (tag id) ms
        → Rounds (after_header p inbox max_msg_size (read_header p inbox max_msg_size c) q)
    unfolding after_header
    header_round c q rest same armed awake at v f h order =
        elim (dec_lt (Buffer.size c.recv_buffer) header_size) [
          | yes short ↦
              unfold read_header in
              rw (lt→ltb _ _ short) (
                record {
                  rest = rest;
                  same = same;
                  armed = armed;
                  valid = v;
                  fits = f;
                  holds = subst (λ s. Holds future s c.recv_buffer c.msg rest) (sym at) h;
                  in_order = simp awake order;
                },
                awake,
                subst (λ s. Short s c) (sym at) short,
              )
          | no whole ↦ parse rest f h order (omega arith)
        ]
      where
        parse :
            (ns : List Msg)
            → All Fits ns
            → Holds future header c.recv_buffer c.msg ns
            → taken ++ (inbox.contents q ++ map (tag id) ns) ≡ map (tag id) ms
            → header_size ≤ Buffer.size c.recv_buffer
            → Rounds (after_header p inbox max_msg_size (read_header p inbox max_msg_size c) q)
        parse [] g k o big = absurd (
            omega (
              arith,
              ap length k,
              length-append (Contents.contents c.recv_buffer) future,
              size_lem c.recv_buffer v,
            ))
        parse (m ∷ ns) g k o big =
            let (b, run, w, left) = header_lem future c m ns v g.0 k big in
            rw run (
              payload_round (record c { recv_buffer = b; msg = header_of m; msg_state = payload }) q
                m ns same armed awake refl w g (refl, left) o)

    pub round_lem :
        (c : Conn) (q : Queue)
        → Holding c q
        → c.msg_sleep ≡ false
        → Rounds (round p inbox max_msg_size c q)
    unfolding round round_at
    round_lem c q i awake =
        at_state c.msg_state i.rest refl i.fits i.holds (simp awake at (i.in_order))
      where
        at_state :
            (s : MsgState) (rest : List Msg)
            → c.msg_state ≡ s
            → All Fits rest
            → Holds future s c.recv_buffer c.msg rest
            → taken ++ (inbox.contents q ++ map (tag id) rest) ≡ map (tag id) ms
            → Rounds (round_at p inbox max_msg_size s c q)
        at_state header rest at f h order =
            header_round c q rest i.same i.armed awake at i.valid f h order
        at_state payload [] at f h order = absurd h
        at_state payload (m ∷ rest) at f h order =
            payload_round c q m rest i.same i.armed awake at i.valid f h order

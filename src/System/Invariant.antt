-- ===== src/System/Invariant.antt =====
-- What each step keeps: the receiver's history, and where the bytes are that were sent.
use salticidae.Base.{
  ℕ, ◌≡◌, refl, sym, ap, ◌∙◌, List, [], ◌∷◌, ◌++◌, map, ◌==◌, Bool-cases, inl, inr, append_assoc,
  append-nil,
}
use salticidae.Platform.{Platform}
use salticidae.Msg.{Msg, serialize}
use salticidae.ConnPool.{Pipe}
use salticidae.ConnPool.Sending.{Output}
use salticidae.ConnPool.Sending.Delivery.{concat, stream}
use salticidae.ConnPool.Sending.Transport.{Follows}
use salticidae.ConnPool.Receiving.{Input}
use salticidae.ConnPool.Receiving.Transport.{push_all, Brings}
use salticidae.Network.Reader.{Inbox}
use salticidae.Network.Reader.Rounds.{wire}
use salticidae.Network.Reader.Delivery
use salticidae.Network.Reader.Delivery.Lengths.{wire-append}
use salticidae.Network.Reader.Delivery.{segment, readable, polls, takes, arrived}
use salticidae.Network.Reader.Delivery.History
use salticidae.Network.Reader.Delivery.History.{Link, IsFresh, run-prefix, run_complete}
use salticidae.System.{sends, System, input, after_send, after_recv, filled, step}

arrived-append : (es fs : List Delivery.Event) → arrived (es ++ fs) ≡ arrived es ++ arrived fs
arrived-append [] fs = refl
arrived-append (segment bs ∷ es) fs =
    ap (λ l. bs ++ l) (arrived-append es fs) ∙ sym (append_assoc bs (arrived es) (arrived fs))
arrived-append (readable ∷ es) fs = arrived-append es fs
arrived-append (polls ∷ es) fs = arrived-append es fs
arrived-append (takes ∷ es) fs = arrived-append es fs

arrived-map : (segs : List (List ℕ)) → arrived (map segment segs) ≡ concat segs
arrived-map [] = refl
arrived-map (seg ∷ segs) = ap (λ l. seg ++ l) (arrived-map segs)

concat-append : (xs ys : List (List ℕ)) → concat (xs ++ ys) ≡ concat xs ++ concat ys
concat-append [] ys = refl
concat-append (x ∷ xs) ys =
    ap (λ l. x ++ l) (concat-append xs ys) ∙ sym (append_assoc x (concat xs) (concat ys))

module _ (p : Platform) (inbox : Inbox) (max_msg_size : ℕ) (pipe : Pipe) where
  open pipe use {channel, in_flight}

  run-append :
      (l : Link p inbox max_msg_size) (es fs : List Delivery.Event)
      → History.run p inbox max_msg_size l (es ++ fs)
        ≡ History.run p inbox max_msg_size (History.run p inbox max_msg_size l es) fs
  unfolding History.run
  run-append l [] fs = refl
  run-append l (e ∷ es) fs = run-append (History.step p inbox max_msg_size l e) es fs

  run-snoc :
      (l : Link p inbox max_msg_size) (es : List Delivery.Event) (e : Delivery.Event)
      → History.run p inbox max_msg_size l (es ++ (e ∷ []))
        ≡ History.step p inbox max_msg_size (History.run p inbox max_msg_size l es) e
  unfolding History.run
  run-snoc l es e = run-append l es (e ∷ [])

  run-segments :
      (segs : List (List ℕ)) (l : Link p inbox max_msg_size)
      → History.run p inbox max_msg_size l (map segment segs)
        ≡ record l { conn = record l.conn { recv_buffer = push_all segs l.conn.recv_buffer } }
  unfolding History.run History.step
  run-segments [] l = refl
  run-segments (seg ∷ segs) l = run-segments segs _

  -- The receiver has a history of its own, and the bytes that have not arrived are in flight or wait to
  -- be sent.
  pub record Inv (l : Link p inbox max_msg_size) (ms : List Msg)
      (s : System p inbox max_msg_size pipe) : Type 0 where
    pub history : List Delivery.Event
    pub linked : s.link ≡ History.run p inbox max_msg_size l history
    pub whole :
        arrived history ++ (in_flight s.world ++ concat s.sender.send_buffer)
        ≡ wire p inbox max_msg_size ms

  module _ (l : Link p inbox max_msg_size) where
    pub after_send-Inv :
        (ms : List Msg) (s : System p inbox max_msg_size pipe) (o : Output channel)
        → stream channel o ≡ concat s.sender.send_buffer
        → Follows pipe (in_flight s.world) o
        → Inv l ms s
        → Inv l ms (after_send p inbox max_msg_size pipe s o)
    unfolding after_send
    after_send-Inv ms s o e f i = record {
      history = i.history;
      linked = i.linked;
      whole =
          ap (λ bs. arrived i.history ++ (bs ++ concat o.conn.send_buffer)) f
          ∙ ap (λ bs. arrived i.history ++ bs)
              (append_assoc (in_flight s.world) o.wire (concat o.conn.send_buffer))
          ∙ ap (λ bs. arrived i.history ++ (in_flight s.world ++ bs)) e
          ∙ i.whole;
    }

    -- What came out of flight, behind what had arrived.
    arrived_lem :
        (ms : List Msg) (s : System p inbox max_msg_size pipe) (j : Input channel)
        (ends : List Delivery.Event)
        → arrived ends ≡ []
        → (b : Brings pipe (input p inbox max_msg_size pipe s) j) (i : Inv l ms s)
        → arrived (i.history ++ (map segment b.segs ++ ends))
            ++ (in_flight j.world ++ concat s.sender.send_buffer)
          ≡ wire p inbox max_msg_size ms
    arrived_lem ms s j ends none_come b i =
        ap (λ bs. bs ++ left) come
        ∙ append_assoc (arrived i.history) (concat b.segs) left
        ∙ ap (λ bs. arrived i.history ++ bs)
            (sym (append_assoc (concat b.segs) (in_flight j.world) (concat s.sender.send_buffer))
              ∙ ap (λ bs. bs ++ concat s.sender.send_buffer) (sym b.taken))
        ∙ i.whole
      where
        left : List ℕ
        left = in_flight j.world ++ concat s.sender.send_buffer

        come :
            arrived (i.history ++ (map segment b.segs ++ ends)) ≡ arrived i.history ++ concat b.segs
        come =
            arrived-append i.history (map segment b.segs ++ ends)
            ∙ ap (λ bs. arrived i.history ++ bs)
                (arrived-append (map segment b.segs) ends
                  ∙ ap (λ bs. bs ++ arrived ends) (arrived-map b.segs)
                  ∙ ap (λ bs. concat b.segs ++ bs) none_come
                  ∙ append-nil (concat b.segs))

    -- The link has taken the segments.
    filled_lem :
        (ms : List Msg) (s : System p inbox max_msg_size pipe) (j : Input channel)
        → (b : Brings pipe (input p inbox max_msg_size pipe s) j) (i : Inv l ms s)
        → filled p inbox max_msg_size pipe s j
          ≡ History.run p inbox max_msg_size l (i.history ++ map segment b.segs)
    filled_lem ms s j b i =
        ap (λ buf. record s.link { conn = record s.link.conn { recv_buffer = buf } }) b.buffered
        ∙ sym (run-segments b.segs s.link)
        ∙ ap (λ k. History.run p inbox max_msg_size k (map segment b.segs)) i.linked
        ∙ sym (run-append l i.history (map segment b.segs))

    pub after_recv-Inv :
        (ms : List Msg) (s : System p inbox max_msg_size pipe) (j : Input channel)
        → Brings pipe (input p inbox max_msg_size pipe s) j
        → Inv l ms s
        → Inv l ms (after_recv p inbox max_msg_size pipe s j)
    unfolding after_recv
    after_recv-Inv ms s j b i = elim (Bool-cases (j.conn.reads == s.receiver.reads)) [
      | inl y ↦ record {
        history = i.history ++ (map segment b.segs ++ []);
        linked = rw (y, append-nil (map segment b.segs)) (filled_lem ms s j b i);
        whole = arrived_lem ms s j [] refl b i;
      }
      | inr n ↦ record {
        history = i.history ++ (map segment b.segs ++ (readable ∷ []));
        linked = rw n (
            ap (λ k. History.step p inbox max_msg_size k readable) (filled_lem ms s j b i)
            ∙ sym (run-snoc l (i.history ++ map segment b.segs) readable)
            ∙ ap (History.run p inbox max_msg_size l)
                (append_assoc i.history (map segment b.segs) (readable ∷ [])));
        whole = arrived_lem ms s j (readable ∷ []) refl b i;
      }
    ]

    -- A poll, or a message taken, brings no bytes.
    pub later-Inv :
        (ms : List Msg) (s : System p inbox max_msg_size pipe) (e : Delivery.Event)
        → arrived (e ∷ []) ≡ []
        → Inv l ms s
        → Inv l ms (record s { link = History.step p inbox max_msg_size s.link e })
    later-Inv ms s e none_come i = record {
      history = i.history ++ (e ∷ []);
      linked =
          ap (λ k. History.step p inbox max_msg_size k e) i.linked ∙ sym (run-snoc l i.history e);
      whole =
          ap (λ bs. bs ++ (in_flight s.world ++ concat s.sender.send_buffer))
            (arrived-append i.history (e ∷ [])
              ∙ ap (λ bs. arrived i.history ++ bs) none_come
              ∙ append-nil (arrived i.history))
          ∙ i.whole;
    }

    pub sends-Inv :
        (ms : List Msg) (s : System p inbox max_msg_size pipe) (m : Msg)
        → Inv l ms s
        → Inv l (ms ++ (m ∷ [])) (step p inbox max_msg_size pipe s (sends m))
    unfolding step
    sends-Inv ms s m i = record {
      history = i.history;
      linked = i.linked;
      whole =
          ap (λ bs. arrived i.history ++ (in_flight s.world ++ bs))
            (concat-append s.sender.send_buffer (serialize p m ∷ []))
          ∙ ap (λ bs. arrived i.history ++ bs)
              (sym (
                append_assoc (in_flight s.world) (concat s.sender.send_buffer)
                  (serialize p m ++ [])))
          ∙ sym (
              append_assoc (arrived i.history) (in_flight s.world ++ concat s.sender.send_buffer)
                (serialize p m ++ []))
          ∙ ap (λ bs. bs ++ (serialize p m ++ [])) i.whole
          ∙ sym (wire-append p inbox max_msg_size ms (m ∷ []));
    }

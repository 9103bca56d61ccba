-- ===== src/System/Delivery.antt =====
-- Messages reach the user at the other end: what the parts promise, put together.
use salticidae.Base.{
  ℕ, ◌<◌, ◌≡◌, refl, sym, ap, subst, ◌∙◌, false, List, [], ◌∷◌, ◌++◌, map, length, append_assoc,
  append-nil, ◌^◌,
}
use salticidae.Bytes.{All}
use salticidae.Platform.{Platform}
use salticidae.Msg.{Msg}
use salticidae.ConnPool.{Pipe}
use salticidae.ConnPool.Sending.Delivery.{concat, send_data-stream, on_written-stream}
use salticidae.ConnPool.Sending.Transport.{Follows, send_data-Follows, on_written-Follows}
use salticidae.ConnPool.Receiving.Transport.{recv_data-Brings, resume-Brings}
use salticidae.Network.Reader.{Inbox}
use salticidae.Network.Reader.Rounds.{wire, Fits, tag, sleeping}
use salticidae.Network.Reader.Delivery.{readable, polls, takes, arrived}
use salticidae.Network.Reader.Delivery.History
use salticidae.Network.Reader.Delivery.History.{Link, IsFresh, run-prefix, run_complete}
use salticidae.System.{
  Event, sends, refuses, writes, resumes, retries, takes_one, writable, arrives, System, output,
  input, step, run, sent,
}
use salticidae.System.Invariant.{Inv, after_send-Inv, after_recv-Inv, later-Inv, sends-Inv}

module _ (p : Platform) (inbox : Inbox) (max_msg_size : ℕ) (pipe : Pipe) where
  open pipe use {channel, in_flight}

  module _ (l : Link p inbox max_msg_size) where
    nothing_sent :
        (s : System p inbox max_msg_size pipe)
        → Follows pipe (in_flight s.world) (output p inbox max_msg_size pipe s)
    nothing_sent s = sym (append-nil (in_flight s.world))

    run-Inv :
        (es : List Event) (ms : List Msg) (s : System p inbox max_msg_size pipe)
        → Inv p inbox max_msg_size pipe l ms s
        → Inv p inbox max_msg_size pipe l (ms ++ sent es) (run p inbox max_msg_size pipe s es)
    unfolding run step
    run-Inv [] ms s i = subst (λ t. Inv p inbox max_msg_size pipe l t s) (sym (append-nil ms)) i
    run-Inv (sends m ∷ es) ms s i =
        subst
          (λ t.
            Inv p inbox max_msg_size pipe l t
              (run p inbox max_msg_size pipe (step p inbox max_msg_size pipe s (sends m)) es))
          (append_assoc ms (m ∷ []) (sent es))
          (run-Inv es (ms ++ (m ∷ [])) _ (sends-Inv p inbox max_msg_size pipe l ms s m i))
    run-Inv (refuses m ∷ es) ms s i = run-Inv es ms s i
    run-Inv (writes ∷ es) ms s i = run-Inv es ms _ (
        after_send-Inv p inbox max_msg_size pipe l ms s _
          (on_written-stream channel (output p inbox max_msg_size pipe s))
          (on_written-Follows pipe (in_flight s.world) _ (nothing_sent s)) i)
    run-Inv (writable failed ∷ es) ms s i = run-Inv es ms _ (
        after_send-Inv p inbox max_msg_size pipe l ms s _
          (send_data-stream channel failed (output p inbox max_msg_size pipe s))
          (send_data-Follows pipe failed (in_flight s.world) _ (nothing_sent s)) i)
    run-Inv (arrives failed ∷ es) ms s i = run-Inv es ms _ (
        after_recv-Inv p inbox max_msg_size pipe l ms s _
          (recv_data-Brings pipe failed (input p inbox max_msg_size pipe s)) i)
    run-Inv (resumes ∷ es) ms s i = run-Inv es ms _ (
        after_recv-Inv p inbox max_msg_size pipe l ms s _
          (resume-Brings pipe (input p inbox max_msg_size pipe s)) i)
    run-Inv (retries ∷ es) ms s i =
        run-Inv es ms _ (later-Inv p inbox max_msg_size pipe l ms s polls refl i)
    run-Inv (takes_one ∷ es) ms s i =
        run-Inv es ms _ (later-Inv p inbox max_msg_size pipe l ms s takes refl i)

  -- A connection on which nothing has been sent.
  pub record IsIdle (s : System p inbox max_msg_size pipe) : Type 0 where
    pub none_queued : s.sender.send_buffer ≡ []
    pub none_flying : in_flight s.world ≡ []
    pub link_fresh : IsFresh p inbox max_msg_size s.link

  idle-Inv :
      (s : System p inbox max_msg_size pipe) → IsIdle s → Inv p inbox max_msg_size pipe s.link [] s
  unfolding History.run
  idle-Inv s f = record {
    history = [];
    linked = refl;
    whole = rw (f.none_flying, f.none_queued) refl;
  }

  -- One process sends messages on an idle connection, each valid and not larger than the receiver allows, with fewer
  -- than 2^64 bytes in all. Its worker and that of the other process run in any order, the system calls accept and
  -- return any number of bytes or fail, and the queue may refuse a message at any time. Then what the user at the
  -- other end has taken, what is in its queue and the message that waits for room are the first messages that were
  -- sent, those that the write buffer has taken.
  pub run-delivers :
      (es : List Event) (s : System p inbox max_msg_size pipe)
      → IsIdle s
      → All (Fits p inbox max_msg_size) (sent es)
      → length (wire p inbox max_msg_size (sent es)) < 2 ^ 64
      → let t = (run p inbox max_msg_size pipe s es).link in
        (rest : List Msg) × (t.taken
            ++ (inbox.contents t.queue
                ++ (sleeping p inbox max_msg_size t.conn
                    ++ map (tag p inbox max_msg_size s.link.conn.id) rest))
          ≡ map (tag p inbox max_msg_size s.link.conn.id) (sent es))
  run-delivers es s f g n =
      let i = run-Inv s.link es [] s (idle-Inv s f) in
      rw i.linked
        (run-prefix p inbox max_msg_size i.history s.link (sent es) _ f.link_fresh g n i.whole)

  -- One process has sent messages on an idle connection, those that the write buffer has taken, each valid and not larger than the receiver allows, with
  -- fewer than 2^64 bytes in all. When all of them have left the sender and come out of flight, and `on_read` runs
  -- once more and does not end asleep, every message has been delivered: what the user has taken and what is in the
  -- queue are the messages sent.
  pub run-settles :
      (es : List Event) (s : System p inbox max_msg_size pipe)
      → IsIdle s
      → All (Fits p inbox max_msg_size) (sent es)
      → length (wire p inbox max_msg_size (sent es)) < 2 ^ 64
      → let t = run p inbox max_msg_size pipe s es in
        let u = History.step p inbox max_msg_size t.link readable in
        in_flight t.world ++ concat t.sender.send_buffer ≡ []
        → u.conn.msg_sleep ≡ false
        → u.taken ++ inbox.contents u.queue
          ≡ map (tag p inbox max_msg_size s.link.conn.id) (sent es)
  run-settles es s f g n none_left awake =
      let i = run-Inv s.link es [] s (idle-Inv s f) in
      let come : arrived i.history ≡ wire p inbox max_msg_size (sent es) =
        sym (append-nil (arrived i.history))
        ∙ ap (λ bs. arrived i.history ++ bs) (sym none_left)
        ∙ i.whole in
      rw i.linked (
        run_complete p inbox max_msg_size i.history s.link (sent es) f.link_fresh g n come
          (rw i.linked at awake))

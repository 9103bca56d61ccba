-- ===== src/ConnPool/Sending/Transport.antt =====
-- The bytes that a worker sends go into flight in order.
use salticidae.Base.{
  ℕ, ◌≡◌, ap, ◌∙◌, Bool, true, false, List, [], ◌∷◌, ◌++◌, length, take, ◌==◌, ==_iff,
  if◌then◌else◌, if-cases, append_assoc, take_all, arith,
}
use salticidae.ConnPool.{Sent, accepted, send_fails, Adds, Pipe}
use salticidae.ConnPool.Sending.{Output, send_loop, send_data, on_written, unsent, is_whole}

module _ (pipe : Pipe) where
  open pipe use {channel, in_flight, adds}
  open channel use {World, send, send_again}

  -- What has been accepted since bytes `before` were in flight is behind them.
  abbrev pub Follows : List ℕ → Output channel → Type 0
  Follows before o = in_flight o.world ≡ before ++ o.wire

  -- The answer of one call, when the segment was not and when it was sent as a whole.
  answer_lem :
      (before seg : List ℕ) (segs : List (List ℕ)) (answer : Sent) (o rest : Output channel)
      (w : World)
      → Adds in_flight answer seg o.world w
      → Follows before o
      → (in_flight w ≡ before ++ (o.wire ++ seg) → Follows before rest)
      → Follows before (
          if is_whole channel seg answer
          then rest
          else unsent channel seg segs answer (record o { world = w }))
  unfolding unsent is_whole
  answer_lem before seg segs (send_fails code) o rest w a f k =
      if-cases (Follows before) (send_again code) _ _ (λ y. a ∙ f) (λ n. a ∙ f)
  answer_lem before seg segs (accepted n) o rest w a f k =
      let more : in_flight w ≡ before ++ (o.wire ++ take n seg) =
        a ∙ ap (λ l. l ++ take n seg) f ∙ append_assoc before o.wire (take n seg) in
      if-cases (Follows before) (n == length seg) _ _
        (λ y. k (
          more
          ∙ ap (λ l. before ++ (o.wire ++ l))
              (take_all n seg (omega (arith, (==_iff n (length seg)).0 y)))))
        (λ n. more)

  send_loop-Follows :
      (before : List ℕ) (segs : List (List ℕ)) (o : Output channel)
      → Follows before o
      → Follows before (send_loop channel segs o)
  unfolding send_loop
  send_loop-Follows before [] o f = f
  send_loop-Follows before ([] ∷ segs) o f = f
  send_loop-Follows before ((b ∷ bs) ∷ segs) o f =
      answer_lem before (b ∷ bs) segs (send o.world (b ∷ bs)).0 o _ (send o.world (b ∷ bs)).1
        (adds o.world (b ∷ bs)) f (λ e. send_loop-Follows before segs _ e)

  -- Sending adds to the bytes in flight what the channel has accepted.
  pub send_data-Follows :
      (failed : Bool) (before : List ℕ) (o : Output channel)
      → Follows before o
      → Follows before (send_data channel failed o)
  unfolding send_data
  send_data-Follows true before o f = f
  send_data-Follows false before o f = send_loop-Follows before o.conn.send_buffer o f

  pub on_written-Follows :
      (before : List ℕ) (o : Output channel)
      → Follows before o
      → Follows before (on_written channel o)
  unfolding on_written
  on_written-Follows before o f =
      if-cases (Follows before) o.conn.ready_send _ o (λ y. send_data-Follows false before _ f)
        (λ n. f)

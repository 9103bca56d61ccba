-- ===== src/Network/Reader/Framing.antt =====
-- The loop of `on_read` ends: each round that goes on shortens what is left to do.
use salticidae.Base.{
  ℕ, zero, suc, ◌+◌, ◌≤◌, ◌<◌, ◌≢◌, Bool, true, false, Bool-cases, inl, inr, Option, none, some,
  ltb, Result, ok, err, arith,
}
use salticidae.Buffer
use salticidae.Buffer.{SegBuffer}
use salticidae.Buffer.Contents.{IsValid, size-pop, pop_lem}
use salticidae.Platform.{Platform}
use salticidae.Msg.{Msg, header_size, get_length}
use salticidae.Network.Reader.{
  Inbox, MsgState, header, payload, Conn, End, starved, Flow, next, stop, got_header, read_header,
  queued, checked, read_payload, after_header, round_at, round, read_loop, fuel_for, read_unless,
  on_read,
}

abbrev pub state_weight : MsgState → ℕ
state_weight header = 0
state_weight payload = 1

abbrev pub measure : Conn → ℕ
measure c = Buffer.size c.recv_buffer + state_weight c.msg_state

-- What a step leaves when it goes on; and if it stops, the code has stopped it.
abbrev OnNext : {A : Type 0} → (A → Type 0) → Flow A → Type 0
OnNext P (next a) = P a
OnNext P (stop e a) = e ≢ starved

OnNext-mono :
    {A : Type 0} (P Q : A → Type 0) → ((a : A) → P a → Q a) → (f : Flow A) → OnNext P f → OnNext Q f
OnNext-mono P Q h (next a) k = h a k
OnNext-mono P Q h (stop e a) k = k

module _ (p : Platform) (inbox : Inbox) (max_msg_size : ℕ) where
  open inbox use {Queue, enqueue}

  got_header-OnNext :
      (P : Conn → Type 0) (c : Conn) (b : SegBuffer) (r : Result Msg)
      → ((m : Msg) → P (record c { recv_buffer = b; msg = m; msg_state = payload }))
      → OnNext P (got_header p inbox max_msg_size c b r)
  unfolding got_header
  got_header-OnNext P c b (err e) h = λ k. cc
  got_header-OnNext P c b (ok m) h = elim (Bool-cases (ltb max_msg_size (get_length m))) [
    | inl long ↦ rw long (λ e. cc)
    | inr fits ↦ rw fits (h m)
  ]

  queued-OnNext :
      (P : Conn × Queue → Type 0) (c : Conn) (q : Queue) (o : Option Queue)
      → ((r : Queue) → P (c, r))
      → OnNext P (queued p inbox max_msg_size c q o)
  unfolding queued
  queued-OnNext P c q (some r) h = h r
  queued-OnNext P c q none h = λ k. cc

  checked-OnNext :
      (P : Conn × Queue → Type 0) (c : Conn) (q : Queue) (r : Result Bool)
      → ((r : Queue) → P (c, r))
      → OnNext P (checked p inbox max_msg_size c q r)
  unfolding checked
  checked-OnNext P c q (err e) h = λ k. cc
  checked-OnNext P c q (ok false) h = λ k. cc
  checked-OnNext P c q (ok true) h = queued-OnNext P c q (enqueue (c.msg, c.id) q) h

  -- Of a valid buffer there is less to do than `n`.
  abbrev Less : ℕ → Conn → Type 0
  Less n c = IsValid c.recv_buffer × (measure c < n)

  read_payload-OnNext :
      (c : Conn) (q : Queue)
      → IsValid c.recv_buffer
      → OnNext
          (λ s. Less (Buffer.size c.recv_buffer + 1) s.0)
          (read_payload p inbox max_msg_size c q)
  read_payload-OnNext c q v =
      elim (Bool-cases (ltb (Buffer.size c.recv_buffer) (get_length c.msg))) [
        | inl short ↦ unfold read_payload in rw short (λ e. cc)
        | inr there ↦
            unfold read_payload in
            rw there (
              checked-OnNext (λ s. Less (Buffer.size c.recv_buffer + 1) s.0) _ q _
                (λ r.
                  let fits : get_length c.msg ≤ Buffer.size c.recv_buffer = ground arith in
                  (
                    (pop_lem (get_length c.msg) c.recv_buffer v).1,
                    omega (arith, size-pop (get_length c.msg) c.recv_buffer v fits),
                  )))
      ]

  after_header-OnNext :
      (n : ℕ) (f : Flow Conn) (q : Queue)
      → OnNext (λ d. IsValid d.recv_buffer × (Buffer.size d.recv_buffer + 1 < n)) f
      → OnNext (λ s. Less n s.0) (after_header p inbox max_msg_size f q)
  unfolding after_header
  after_header-OnNext n (stop e c) q h = h
  after_header-OnNext n (next c) q h =
      OnNext-mono (λ s. Less (Buffer.size c.recv_buffer + 1) s.0) (λ s. Less n s.0)
        (λ s l. (l.0, omega arith)) (read_payload p inbox max_msg_size c q)
        (read_payload-OnNext c q h.0)

  read_header-OnNext :
      (c : Conn)
      → IsValid c.recv_buffer
      → OnNext
          (λ d. IsValid d.recv_buffer × (Buffer.size d.recv_buffer + 1 < Buffer.size c.recv_buffer))
          (read_header p inbox max_msg_size c)
  read_header-OnNext c v = elim (Bool-cases (ltb (Buffer.size c.recv_buffer) header_size)) [
    | inl short ↦ unfold read_header in rw short (λ e. cc)
    | inr there ↦
        unfold read_header in
        rw there (
          got_header-OnNext _ c _ _ (λ m.
            let fits : header_size ≤ Buffer.size c.recv_buffer = ground arith in
            (
              (pop_lem header_size c.recv_buffer v).1,
              omega (arith, size-pop header_size c.recv_buffer v fits),
            )))
  ]

  round_at-OnNext :
      (s : MsgState) (c : Conn) (q : Queue)
      → IsValid c.recv_buffer
      → OnNext
          (λ d. Less (Buffer.size c.recv_buffer + state_weight s) d.0)
          (round_at p inbox max_msg_size s c q)
  unfolding round_at
  round_at-OnNext header c q v = after_header-OnNext _ (read_header p inbox max_msg_size c) q (
      OnNext-mono
        (λ d. IsValid d.recv_buffer × (Buffer.size d.recv_buffer + 1 < Buffer.size c.recv_buffer)) _
        (λ d l. (l.0, omega arith)) (read_header p inbox max_msg_size c) (read_header-OnNext c v))
  round_at-OnNext payload c q v = read_payload-OnNext c q v

  -- On a valid buffer `on_read` never runs out of fuel, whatever the bytes are.
  read_loop-ne-starved :
      (fuel : ℕ) (c : Conn) (q : Queue)
      → IsValid c.recv_buffer
      → measure c < fuel
      → (read_loop p inbox max_msg_size fuel c q).0 ≢ starved
  unfolding read_loop round
  read_loop-ne-starved zero c q v h = absurd (omega arith)
  read_loop-ne-starved (suc fuel) c q v h =
      go (λ d r w l. read_loop-ne-starved fuel d r w l) (round p inbox max_msg_size c q)
        (round_at-OnNext c.msg_state c q v)
    where
      go :
          ((d : Conn) (r : Queue)
            → IsValid d.recv_buffer
            → measure d < fuel
            → (read_loop p inbox max_msg_size fuel d r).0 ≢ starved)
          → (f : Flow (Conn × Queue)) → OnNext (λ d. Less (measure c) d.0) f
          → (elim f as (λ _. End × Conn × Queue) [
            | next (c', q') ↦ read_loop p inbox max_msg_size fuel c' q'
            | stop e (c', q') ↦ (e, c', q')
          ]).0
            ≢ starved
      go rest (next (d, r)) l = rest d r l.0 (omega arith)
      go rest (stop e d) l = l

  -- On a valid buffer `on_read` ends by itself, whatever the bytes are: the model's fuel, two more
  -- than the bytes in the buffer, never runs out.
  pub on_read-ne-starved :
      (c : Conn) (q : Queue)
      → IsValid c.recv_buffer
      → (on_read p inbox max_msg_size c q).end ≢ starved
  unfolding on_read
  on_read-ne-starved c q v = either c.msg_sleep
    where
      weigh : (s : MsgState) → Buffer.size c.recv_buffer + state_weight s < fuel_for c
      weigh header = omega arith
      weigh payload = omega arith

      either : (b : Bool) → (read_unless p inbox max_msg_size b c q).end ≢ starved
      either true = λ e. cc
      either false = read_loop-ne-starved (fuel_for c) c q v (weigh c.msg_state)

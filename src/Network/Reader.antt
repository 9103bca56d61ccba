-- ===== src/Network/Reader.antt =====
-- How MsgNetwork of include/salticidae/network.h turns the bytes of one connection into messages:
-- `on_read` and the timer callback of `on_worker_setup`.
pub mod Errors
pub mod Framing
pub mod Rounds
pub mod Delivery
use salticidae.Base.{
  ℕ, zero, suc, ◌+◌, ◌<◌, ◌≡◌, Bool, true, false, ◌&&◌, List, [], ◌∷◌, ◌++◌, Option, none, some,
  ltb, if◌then◌else◌, Result, ok, err, Exception, oversized_msg,
}
use salticidae.Buffer
use salticidae.Buffer.{SegBuffer}
use salticidae.Platform.{Platform}
use salticidae.Stream.{of_bytes}
use salticidae.Msg.{Msg, header_size, get_length, set_payload, verify_checksum, of_stream}

-- `incoming_msgs`, a queue whose `enqueue` with `unbounded = false` may refuse and whose
-- `try_dequeue` may find nothing; an item is a message with its connection.
pub record Inbox : Type 1 where
  pub Queue : Type 0
  pub enqueue : Msg × ℕ → Queue → Option Queue
  pub contents : Queue → List (Msg × ℕ)
  pub contents-enqueue :
      (x : Msg × ℕ) (q r : Queue) → enqueue x q ≡ some r → contents r ≡ contents q ++ (x ∷ [])
  pub dequeue : Queue → Option ((Msg × ℕ) × Queue)
  pub contents-dequeue :
      (x : Msg × ℕ) (q r : Queue) → dequeue q ≡ some (x, r) → contents q ≡ x ∷ contents r

pub data MsgState : Type 0 where
  header payload : MsgState

-- The fields of MsgNetwork::Conn and ConnPool::Conn that reading uses; `id` stands for the identity
-- of the object, `poll_armed` for a pending `ev_enqueue_poll`.
pub record Conn : Type 0 where
  pub id : ℕ
  pub msg : Msg
  pub msg_state : MsgState
  pub msg_sleep : Bool
  pub poll_armed : Bool
  pub recv_buffer : SegBuffer
  pub ready_recv : Bool
  pub max_recv_buff_size : ℕ

-- How the loop of `on_read` ends: not enough bytes, a wrong checksum, a full queue, an exception;
-- `starved` is none of the code's, the model's loop ran out of fuel.
pub data End : Type 0 where
  waiting dropped asleep : End
  thrown : Exception → End
  starved : End

-- A round of the loop goes on or ends it, with a state in either case.
pub data Flow (A : Type 0) : Type 0 where
  next : A → Flow A
  stop : End → A → Flow A

-- A round of the loop that goes on takes a header off the buffer, or leaves the state PAYLOAD.
abbrev pub fuel_for : Conn → ℕ
fuel_for c = Buffer.size c.recv_buffer + 2

module _ (p : Platform) (inbox : Inbox) (max_msg_size : ℕ) where
  open inbox use {Queue, enqueue}

  got_header : Conn → SegBuffer → Result Msg → Flow Conn
  got_header c buffer (err e) = stop (thrown e) (record c { recv_buffer = buffer })
  got_header c buffer (ok m) =
      if ltb max_msg_size (get_length m)
      then stop (thrown oversized_msg) (record c { recv_buffer = buffer; msg = m })
      else next (record c { recv_buffer = buffer; msg = m; msg_state = payload })

  -- The first half of a round, in the state HEADER.
  unfoldable pub read_header : Conn → Flow Conn
  unfolding got_header
  read_header c =
      let (bytes, buffer) = Buffer.pop header_size c.recv_buffer in
      if ltb (Buffer.size c.recv_buffer) header_size
      then stop waiting c
      else got_header c buffer (of_stream p (of_bytes bytes))

  queued : Conn → Queue → Option Queue → Flow (Conn × Queue)
  queued c q (some r) = next (c, r)
  queued c q none = stop asleep (record c { msg_sleep = true; poll_armed = true }, q)

  checked : Conn → Queue → Result Bool → Flow (Conn × Queue)
  unfolding queued
  checked c q (err e) = stop (thrown e) (c, q)
  checked c q (ok false) = stop dropped (c, q)
  checked c q (ok true) = queued c q (enqueue (c.msg, c.id) q)

  -- The second half, in the state PAYLOAD.
  unfoldable pub read_payload : Conn → Queue → Flow (Conn × Queue)
  unfolding checked
  read_payload c q =
      let (bytes, buffer) = Buffer.pop (get_length c.msg) c.recv_buffer in
      let m = set_payload bytes c.msg in
      let c' = record c { recv_buffer = buffer; msg = m; msg_state = header } in
      if ltb (Buffer.size c.recv_buffer) (get_length c.msg)
      then stop waiting (c, q)
      else checked c' q (verify_checksum p m)

  after_header : Flow Conn → Queue → Flow (Conn × Queue)
  after_header (stop e c) q = stop e (c, q)
  after_header (next c) q = read_payload c q

  round_at : MsgState → Conn → Queue → Flow (Conn × Queue)
  unfolding after_header
  round_at header c q = after_header (read_header c) q
  round_at payload c q = read_payload c q

  unfoldable pub round : Conn → Queue → Flow (Conn × Queue)
  unfolding round_at
  round c q = round_at c.msg_state c q

  unfoldable pub read_loop : ℕ → Conn → Queue → End × Conn × Queue
  read_loop zero c q = (starved, c, q)
  read_loop (suc fuel) c q = elim (round c q) [
    | next (c', q') ↦ read_loop fuel c' q'
    | stop e (c', q') ↦ (e, c', q')
  ]

  -- What `on_read` leaves behind; `resumes` says that it goes on to read from the socket.
  pub record ReadResult : Type 0 where
    pub conn : Conn
    pub queue : Queue
    pub end : End
    pub resumes : Bool

  -- The test behind the loop, which a full queue and an exception skip.
  resumes_after : End → Conn → Bool
  resumes_after waiting c = c.ready_recv && ltb (Buffer.len c.recv_buffer) c.max_recv_buff_size
  resumes_after dropped c = c.ready_recv && ltb (Buffer.len c.recv_buffer) c.max_recv_buff_size
  resumes_after _ c = false

  -- The first argument is `msg_sleep`.
  read_unless : Bool → Conn → Queue → ReadResult
  unfolding resumes_after
  read_unless true c q = record { conn = c; queue = q; end = asleep; resumes = false }
  read_unless false c q =
      let (e, c', q') = read_loop (fuel_for c) c q in
      record { conn = c'; queue = q'; end = e; resumes = resumes_after e c' }

  unfoldable pub on_read : Conn → Queue → ReadResult
  unfolding read_unless
  on_read c q = read_unless c.msg_sleep c q

  polled : Conn → Queue → Option Queue → ReadResult
  polled c q none = record {
    conn = record c { msg_sleep = true; poll_armed = true };
    queue = q;
    end = asleep;
    resumes = false;
  }
  polled c q (some r) = on_read (record c { msg_sleep = false }) r

  -- The callback of `ev_enqueue_poll`: the timer has fired, and the message that was refused is
  -- offered again.
  unfoldable pub enqueue_poll : Conn → Queue → ReadResult
  unfolding polled
  enqueue_poll c q = polled (record c { poll_armed = false }) q (enqueue (c.msg, c.id) q)

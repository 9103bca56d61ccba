-- ===== src/ConnPool/Receiving.antt =====
-- `_recv_data` and `_recv_data_tls` of src/conn.cpp, and the end of `MsgNetwork::on_read`, which reads on
-- from a socket that waits.
pub mod Bounds
pub mod Transport
use salticidae.Base.{
  ℕ, zero, suc, ◌+◌, ◌-◌, Bool, true, false, not, ◌&&◌, List, [], ◌∷◌, ◌++◌, length, ◌==◌, ltb, leb,
  if◌then◌else◌,
}
use salticidae.Buffer
use salticidae.Buffer.{SegBuffer}
use salticidae.ConnPool.{Received, bytes, recv_fails, Channel, Events, Conn}

module _ (channel : Channel) where
  open channel use {World, recv, recv_again}

  -- The connection, the world, all bytes that `recv` has returned, and whether the model's fuel ran out.
  pub record Input : Type 0 where
    pub conn : Conn
    pub world : World
    pub wire : List ℕ
    pub starved : Bool

  abbrev terminate : Conn → Conn
  terminate c = record c { terminations = c.terminations + 1 }

  -- `recv_buffer` is full: the READ event is masked.
  unfoldable pub full : Conn → Conn
  full c = record c {
    events = record { read = false; write = not c.ready_send };
    ready_recv = true;
  }

  -- The loop ends with the socket empty.
  unfoldable pub finished : Conn → Conn
  finished c = record c { ready_recv = false; reads = c.reads + 1 }

  unfoldable pub pushed : List ℕ → Input → Input
  pushed bs i = record i {
    conn = record i.conn { recv_buffer = Buffer.push bs i.conn.recv_buffer };
    wire = i.wire ++ bs;
  }

  -- What follows a call of `recv`; `more` is the next round.
  unfoldable pub answered : Received → (Input → Input) → Input → Input
  unfolding finished pushed
  answered (recv_fails code) more i =
      if recv_again code
      then record i { conn = finished i.conn }
      else record i { conn = terminate i.conn }
  answered (bytes []) more i = record i { conn = terminate i.conn }
  answered (bytes (b ∷ bs)) more i =
      let rest = more (pushed (b ∷ bs) i) in
      let j = pushed (b ∷ bs) i in
      if length (b ∷ bs) == i.conn.recv_chunk_size
      then rest
      else record j { conn = finished j.conn }

  unfoldable pub recv_loop : ℕ → Input → Input
  unfolding full answered
  recv_loop zero i = record i { starved = true }
  recv_loop (suc fuel) i =
      let answer = (recv i.world i.conn.recv_chunk_size).0 in
      let i' = record i { world = (recv i.world i.conn.recv_chunk_size).1 } in
      let round = answered answer (recv_loop fuel) i' in
      if leb i.conn.max_recv_buff_size (Buffer.len i.conn.recv_buffer)
      then record i { conn = full i.conn }
      else round

  -- Each round that goes on adds a segment to a buffer that is not full.
  abbrev pub fuel_for : Conn → ℕ
  fuel_for c = suc (c.max_recv_buff_size - Buffer.len c.recv_buffer)

  -- `failed` is the test for FdEvent::ERROR.
  unfoldable pub recv_data : Bool → Input → Input
  unfolding recv_loop
  recv_data true i = record i { conn = terminate i.conn }
  recv_data false i = recv_loop (fuel_for i.conn) i

  -- READ is unmasked.
  abbrev pub reading : Input → Input
  reading i = record i {
    conn = record i.conn { events = record { read = true; write = not i.conn.ready_send } };
  }

  -- The end of `on_read`, when it has taken bytes out of the buffer.
  pub resume : Input → Input
  unfolding recv_data
  resume i =
      if i.conn.ready_recv && ltb (Buffer.len i.conn.recv_buffer) i.conn.max_recv_buff_size
      then recv_data false (reading i)
      else i

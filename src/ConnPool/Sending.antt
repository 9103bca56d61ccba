-- ===== src/ConnPool/Sending.antt =====
-- `_send_data` and `_send_data_tls` of src/conn.cpp, which differ in the calls that Channel stands for,
-- and the handler that `enable_send_buffer` registers.
pub mod Delivery
pub mod Transport
use salticidae.Base.{
  ℕ, ◌+◌, Bool, true, false, not, List, [], ◌∷◌, ◌++◌, length, take, drop, ◌==◌, ltb, if◌then◌else◌,
}
use salticidae.ConnPool.{Sent, accepted, send_fails, Channel, Events, Conn}

module _ (channel : Channel) where
  open channel use {World, send, send_again}

  -- The connection, the world and all bytes that `send` has accepted.
  pub record Output : Type 0 where
    pub conn : Conn
    pub world : World
    pub wire : List ℕ

  -- `worker_terminate`, which only queues a call.
  abbrev terminate : Conn → Conn
  terminate c = record c { terminations = c.terminations + 1 }

  -- The WRITE event is masked.
  unfoldable pub drained : Conn → Conn
  drained c = record c {
    events = record { read = not c.ready_recv; write = false };
    ready_send = true;
  }

  -- A segment is not sent as a whole: it goes back to the front of the buffer, or what is left of it.
  unfoldable pub unsent : List ℕ → List (List ℕ) → Sent → Output → Output
  unsent seg segs (send_fails code) o =
      let c = record o.conn { send_buffer = seg ∷ segs } in
      if send_again code
      then record o { conn = record c { ready_send = false } }
      else record o { conn = terminate c }
  unsent seg segs (accepted n) o = record o {
    conn = record o.conn { send_buffer = drop n seg ∷ segs; ready_send = false };
    wire = o.wire ++ take n seg;
  }

  unfoldable pub is_whole : List ℕ → Sent → Bool
  is_whole seg (send_fails code) = false
  is_whole seg (accepted n) = n == length seg

  -- The loop, over the segments of the buffer. It also ends at an empty segment, which it drops.
  unfoldable pub send_loop : List (List ℕ) → Output → Output
  unfolding drained unsent is_whole
  send_loop [] o = record o { conn = drained (record o.conn { send_buffer = [] }) }
  send_loop ([] ∷ segs) o = record o { conn = drained (record o.conn { send_buffer = segs }) }
  send_loop ((b ∷ bs) ∷ segs) o =
      let answer = (send o.world (b ∷ bs)).0 in
      let o' = record o { world = (send o.world (b ∷ bs)).1 } in
      let rest = send_loop segs (record o' { wire = o.wire ++ (b ∷ bs) }) in
      if is_whole (b ∷ bs) answer then rest else unsent (b ∷ bs) segs answer o'

  -- `failed` is the test for FdEvent::ERROR.
  unfoldable pub send_data : Bool → Output → Output
  unfolding send_loop
  send_data true o = record o { conn = terminate o.conn }
  send_data false o = send_loop o.conn.send_buffer o

  -- The handler of the queue of segments.
  unfoldable pub on_written : Output → Output
  unfolding send_data
  on_written o =
      if o.conn.ready_send
      then send_data false (record o {
        conn = record o.conn { events = record { read = not o.conn.ready_recv; write = true } };
      })
      else o

-- ===== src/ConnPool.antt =====
-- ConnPool of include/salticidae/conn.h and src/conn.cpp: what a worker does with the data of a connection.
pub mod Sending
pub mod Receiving
pub mod Lifecycle
pub mod Workers
use salticidae.Base.{◌++◌, take, ℕ, ◌≤◌, ◌≡◌, Bool, true, false, not, List, length, ◌==◌}
use salticidae.Buffer.{SegBuffer}

-- What a call to send or receive returns: a number or the bytes, or a negative number with an error.
pub data Sent : Type 0 where
  accepted : ℕ → Sent
  send_fails : ℕ → Sent

pub data Received : Type 0 where
  bytes : List ℕ → Received
  recv_fails : ℕ → Received

-- The system calls `send` and `recv` on the socket, or those of the class TLS, with the state behind
-- them. The two tests tell the errors after which the call is made again later: EWOULDBLOCK, or
-- SSL_ERROR_WANT_WRITE and SSL_ERROR_WANT_READ. The laws are that no more is taken or returned than
-- the buffer has.
pub record Channel : Type 1 where
  pub World : Type 0
  pub send : World → List ℕ → Sent × World
  pub recv : World → ℕ → Received × World
  pub send_again : ℕ → Bool
  pub recv_again : ℕ → Bool
  pub accepted-le : (w : World) (bs : List ℕ) (n : ℕ) → (send w bs).0 ≡ accepted n → n ≤ length bs
  pub bytes-le : (w : World) (n : ℕ) (bs : List ℕ) → (recv w n).0 ≡ bytes bs → length bs ≤ n

-- What a call of `send` adds to the bytes in flight, and what one of `recv` takes from them.
module _ {W : Type 0} (in_flight : W → List ℕ) where
  abbrev pub Adds : Sent → List ℕ → W → W → Type 0
  Adds (accepted n) bs w v = in_flight v ≡ in_flight w ++ take n bs
  Adds (send_fails code) bs w v = in_flight v ≡ in_flight w

  abbrev pub Gives : Received → W → W → Type 0
  Gives (bytes bs) w v = in_flight w ≡ bs ++ in_flight v
  Gives (recv_fails code) w v = in_flight v ≡ in_flight w

-- The two sockets of a TCP connection, in the direction of the messages: `send` at one end and `recv` at the
-- other. Bytes that were accepted and not yet received are in flight, in order.
pub record Pipe : Type 1 where
  pub channel : Channel
  pub in_flight : channel.World → List ℕ
  pub adds :
      (w : channel.World) (bs : List ℕ)
      → Adds in_flight (channel.send w bs).0 bs w (channel.send w bs).1
  pub gives :
      (w : channel.World) (n : ℕ) → Gives in_flight (channel.recv w n).0 w (channel.recv w n).1

-- The events that `ev_socket` waits for.
pub record Events : Type 0 where
  pub read : Bool
  pub write : Bool

-- The fields of Conn that its worker uses. `send_buffer` is the list of segments that the queue of
-- MPSCWriteBuffer holds; `terminations` counts the calls of `worker_terminate`, `reads` those of
-- `on_read`.
pub record Conn : Type 0 where
  pub recv_chunk_size : ℕ
  pub max_recv_buff_size : ℕ
  pub send_buffer : List (List ℕ)
  pub recv_buffer : SegBuffer
  pub events : Events
  pub ready_send : Bool
  pub ready_recv : Bool
  pub terminations : ℕ
  pub reads : ℕ

-- ===== src/Peer.antt =====
-- The class PeerNetwork of include/salticidae/network.h: the state that its dispatcher owns. The
-- handlers run one at a time on the dispatcher's thread, so each is a function from state to state.
-- What they ask of other threads or of later events (messages sent, connections to be terminated,
-- callbacks, timers) is recorded in `log` in the order of the calls.
pub mod Messages
pub mod Store
pub mod Session
pub mod Handlers
pub mod Calls
pub mod Sending
use salticidae.Base.{
  ℕ, Bool, true, false, List, Option, none, some, Exception, ℤ, ◌==◌, if◌then◌else◌,
}
use salticidae.NetAddr.{NetAddr}

-- `passive_nonce`
abbrev pub passive_nonce : ℕ
passive_nonce = 0xffff

-- A ping or pong: `none` for a heartbeat, the claimed address and the nonce for a handshake.
pub record Ping : Type 0 where
  pub claimed_addr : NetAddr
  pub nonce : ℕ

pub data Wire : Type 0 where
  ping pong : Option Ping → Wire

pub data ConnMode : Type 0 where
  active passive : ConnMode

-- A connection object. `peer` is the pointer to a Peer; `cert` stands for the peer's certificate;
-- `send_buffer` has the segments that wait to be sent.
pub record Conn : Type 0 where
  pub mode : ConnMode
  pub addr : NetAddr
  pub cert : ℕ
  pub terminated : Bool
  pub peer : Option ℕ
  pub manual : Bool
  pub send_buffer : List (List ℕ)

pub data PeerState : Type 0 where
  disconnected connected reset : PeerState

-- The delay of the retry timer: none, or a random one around the peer's `retry_delay`.
pub data Delay : Type 0 where
  immediate random : Delay

-- `ev_retry_timer`: cleared, set up by `conn_peer` but not running, or running.
pub data RetryTimer : Type 0 where
  unset stopped : RetryTimer
  armed : Delay → RetryTimer

-- The struct Peer. Connections are named by numbers.
pub record Peer : Type 0 where
  pub addr : NetAddr
  pub nonce : ℕ
  pub conn : ℕ
  pub ntry : ℤ
  pub cur_ntry : ℤ
  pub retry_timer : RetryTimer
  pub chosen_conn : Option ℕ
  pub inbound_conn : Option ℕ
  pub outbound_conn : Option ℕ
  pub ping_timer_armed : Bool
  pub ping_timer_ok : Bool
  pub pong_msg_ok : Bool
  pub inbound_preempt_ping : Option Ping
  pub state : PeerState

-- What a handler asks of others. A callback of the user's loop is queued, a connection is terminated
-- by its worker later on.
pub data Effect : Type 0 where
  sends : ℕ → Wire → Effect
  writes : ℕ → List ℕ → Effect
  terminates : ℕ → Effect
  resets_timeout : ℕ → Effect
  -- `peer_cb` and `unknown_peer_cb`.
  tells : ℕ → Bool → Effect
  tells_unknown : NetAddr → ℕ → Effect
  -- `peer_cb` with false, then `ping_handler` with the deferred ping.
  replays : ℕ → Ping → Option ℕ → Effect
  -- `recoverable_error` with the id of the call, and `disp_error_cb`.
  reports : Exception → ℕ → Effect
  fails : Exception → Effect

-- Connections and Peer objects by their addresses in memory, where `none` is a Peer that has been
-- deleted or not made yet; the two maps; the next addresses to be given out.
pub record State : Type 0 where
  pub conns : ℕ → Conn
  pub peers : ℕ → Option Peer
  pub known_peers : ℕ → Option ℕ
  pub pending_peers : NetAddr → Option ℕ
  pub listen_addr : NetAddr
  pub next_conn : ℕ
  pub next_peer : ℕ
  pub log : List Effect

-- How a handler ends: with a value and a new state, with an exception, or at an assert that fails or
-- a pointer to a deleted object.
pub data Outcome (A : Type 0) : Type 0 where
  done : A → State → Outcome A
  throws : Exception → State → Outcome A
  aborts : Outcome A

-- What the network takes from its configuration and from SHA-256: the id of a peer, by the address
-- or by the certificate, and the random number that `RAND_bytes` gives, if it gives one.
pub record Config : Type 0 where
  pub enable_tls : Bool
  pub addr_based : Bool
  pub id_of_addr : NetAddr → ℕ
  pub id_of_cert : ℕ → ℕ
  pub rand_bytes : Option ℕ

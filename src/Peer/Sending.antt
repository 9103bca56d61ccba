-- ===== src/Peer/Sending.antt =====
-- PeerNetwork of include/salticidae/network.h: the queries and the sending of messages, as the dispatcher
-- runs them. `Buffers` has the write buffer of each connection; a message goes there by MsgNetwork.
pub mod Reached
pub mod Attempts
pub mod Multicast
use salticidae.Base.{
  ℕ, Bool, true, false, ◌&&◌, List, [], ◌∷◌, Option, none, some, Exception, conn_not_ready,
}
use salticidae.Platform.{Platform}
use salticidae.Msg.{Msg}
use salticidae.WriteBuffer.{Segments}
use salticidae.Network.Outgoing
use salticidae.Peer.{State, Outcome, done, throws, aborts, reports}
use salticidae.Peer.Store.{Action, ◌>>=◌, pure, throw, peer_at, known, update, caught}
use salticidae.Peer.Calls.{found}

-- `_get_peer_conn`, which is also what `get_peer_conn` runs.
pub get_peer_conn : ℕ → Action ℕ
get_peer_conn pid = do entry ← known pid; q ← found entry; p ← peer_at q; pure p.conn

-- `known_peers.count(pid)`
counted : Option ℕ → Bool
counted none = false
counted (some q) = true

pub has_peer : ℕ → Action Bool
unfolding counted
has_peer pid = do entry ← known pid; pure (counted entry)

abbrev pub Buffers : Type 0
Buffers = ℕ → Segments

-- `if (!succ) throw PeerNetworkError(SALTI_ERROR_CONN_NOT_READY);`
ready : Outcome Bool → Outcome Unit
ready (done true s) = done tt s
ready (done false s) = throws conn_not_ready s
ready (throws e s) = throws e s
ready aborts = aborts

-- `recoverable_error` with the number of the call.
reporting : ℕ → Outcome Bool × Buffers → Outcome Unit × Buffers
unfolding ready
reporting id (o, bs) = (caught (λ e. reports e id) (ready o), bs)

module _ (p : Platform) (size max_send_buff_size : ℕ) (msg : Msg) where
  written : ℕ → Buffers → Option Segments → Bool × Buffers
  written c bs none = (false, bs)
  written c bs (some r) = (true, update c r bs)

  -- `MsgNet::_send_msg`
  pub write_to : ℕ → Buffers → Bool × Buffers
  unfolding written
  write_to c bs = written c bs (Outgoing.send_msg p size max_send_buff_size msg (bs c))

  sent : Outcome ℕ → Buffers → Outcome Bool × Buffers
  unfolding write_to
  sent (done c s) bs = (done (write_to c bs).0 s, (write_to c bs).1)
  sent (throws e s) bs = (throws e s, bs)
  sent aborts bs = (aborts, bs)

  -- `_send_msg`
  pub send_msg : ℕ → State → Buffers → Outcome Bool × Buffers
  unfolding sent get_peer_conn
  send_msg pid s bs = sent (get_peer_conn pid s) bs

  -- The call of `_send_msg_deferred`.
  pub send_msg_deferred : ℕ → ℕ → State → Buffers → Outcome Unit × Buffers
  unfolding send_msg reporting
  send_msg_deferred pid id s bs = reporting id (send_msg pid s bs)

  -- What follows a call in the loop, which an exception leaves.
  go_on :
      (Bool → State → Buffers → Outcome Bool × Buffers)
      → Outcome Bool × Buffers
      → Outcome Bool × Buffers
  go_on more (done b s, bs) = more b s bs
  go_on more (throws e s, bs) = (throws e s, bs)
  go_on more (aborts, bs) = (aborts, bs)

  -- The loop of `_multicast_msg`.
  send_all : List ℕ → Bool → State → Buffers → Outcome Bool × Buffers
  unfolding send_msg go_on
  send_all [] succ s bs = (done succ s, bs)
  send_all (pid ∷ pids) succ s bs = go_on (λ b. send_all pids (succ && b)) (send_msg pid s bs)

  -- The call of `_multicast_msg`.
  pub multicast_msg : List ℕ → ℕ → State → Buffers → Outcome Unit × Buffers
  unfolding send_all reporting
  multicast_msg pids id s bs = reporting id (send_all pids true s bs)

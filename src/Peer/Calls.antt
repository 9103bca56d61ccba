-- ===== src/Peer/Calls.antt =====
-- The calls of PeerNetwork by which the user manages the peers, as the dispatcher runs them. `id` is
-- the number that the call has returned. A PeerNetworkError is reported under it.
pub mod Membership
pub mod Reconnecting
use salticidae.Base.{
  ℕ, ◌+◌, Bool, true, false, ◌&&◌, not, List, [], ◌∷◌, Option, none, some, Exception,
  peer_already_exists, peer_not_exist, peer_not_ready, ◌==◌, if◌then◌else◌, ℤ, pos, is_nonzero,
}
use salticidae.NetAddr.{NetAddr, null_addr, is_null}
use salticidae.Peer.{
  passive_nonce, Conn, active, passive, Peer, PeerState, disconnected, connected, reset, RetryTimer,
  stopped, unset, Delay, State, Outcome, done, terminates, reports,
}
use salticidae.Peer.Store.{
  Action, ◌>>=◌, ◌>>◌, pure, throw, assert, when, given, emit, conn_at, change_conn, peer_at,
  put_peer, known, update, caught,
}
use salticidae.Peer.Session.{is_disconnected, add_retry}

-- A new Peer with its connection that is terminated from the start, whose mode and address have no
-- value that is read.
new_peer : ℕ → Peer
new_peer c = record {
  addr = null_addr;
  nonce = passive_nonce;
  conn = c;
  ntry = pos 0;
  cur_ntry = pos 0;
  retry_timer = unset;
  chosen_conn = none;
  inbound_conn = none;
  outbound_conn = none;
  ping_timer_armed = false;
  ping_timer_ok = false;
  pong_msg_ok = false;
  inbound_preempt_ping = none;
  state = disconnected;
}

new_conn : ℕ → Conn
new_conn q = record {
  mode = passive;
  addr = null_addr;
  cert = 0;
  terminated = true;
  peer = some q;
  manual = true;
  send_buffer = [];
}

enter : ℕ → Option ℕ → Action Unit
unfolding new_peer new_conn
enter pid (some q) s = throw peer_already_exists s
enter pid none s = done tt (record s {
  conns = update s.next_conn (new_conn s.next_peer) s.conns;
  peers = update s.next_peer (some (new_peer s.next_conn)) s.peers;
  known_peers = update pid (some s.next_peer) s.known_peers;
  next_conn = s.next_conn + 1;
  next_peer = s.next_peer + 1;
})

pub add_peer : ℕ → ℕ → Action Unit
unfolding enter
add_peer pid id s = caught (λ e. reports e id) ((do found ← known pid; enter pid found) s)

-- `it->second`, or an exception where the id is not known.
abbrev pub found : Option ℕ → Action ℕ
found none = throw peer_not_exist
found (some q) = pure q

-- The established connection is terminated before the next attempt is made.
restart : ℕ → Bool → PeerState → Action Unit
restart q b disconnected = when b (add_retry q Delay.immediate)
restart q b connected = do
  p ← peer_at q
  put_peer q (record p { state = reset })
  emit (terminates p.conn)
restart q b reset = pure tt

pub conn_peer : ℕ → ℤ → ℕ → Action Unit
unfolding restart
conn_peer pid ntry id s =
    caught (λ e. reports e id)
      ((do
        entry ← known pid
        q ← found entry
        p ← peer_at q
        if is_null p.addr then throw peer_not_ready else (do
          put_peer q (record p {
            ntry = ntry;
            cur_ntry = ntry;
            inbound_conn = none;
            outbound_conn = none;
            ping_timer_armed = false;
            nonce = 0;
            retry_timer = stopped;
          })
          restart q (is_nonzero ntry) p.state))
        s)

pub set_peer_addr : ℕ → NetAddr → ℕ → Action Unit
set_peer_addr pid a id s =
    caught (λ e. reports e id)
      ((do entry ← known pid; q ← found entry; p ← peer_at q; put_peer q (record p { addr = a })) s)

-- `known_peers.erase`, which deletes the Peer: `~Peer` clears the pointers of its two handshake
-- connections.
erase : ℕ → ℕ → Action Unit
erase pid q s =
    done tt
      (record s { known_peers = update pid none s.known_peers; peers = update q none s.peers })

forget : Option ℕ → Action Unit
forget o = given o (λ c. change_conn c (λ k. record k { peer = none }))

pub del_peer : ℕ → ℕ → Action Unit
unfolding erase forget
del_peer pid id s =
    caught (λ e. reports e id)
      ((do
        entry ← known pid
        q ← found entry
        p ← peer_at q
        change_conn p.conn (λ k. record k { peer = none })
        emit (terminates p.conn)
        given p.inbound_conn (λ c. emit (terminates c))
        given p.outbound_conn (λ c. emit (terminates c))
        forget p.inbound_conn
        forget p.outbound_conn
        erase pid q)
        s)

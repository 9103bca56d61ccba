-- ===== src/Tests/Membership.antt =====
-- A session that is lost, and peers that are added and deleted.
use salticidae.Base.{
  subst, ℕ, ◌≡◌, refl, ◌⊎◌, true, false, [], ◌∷◌, ◌++◌, Option, none, some, peer_already_exists,
  peer_not_exist, peer_not_ready, pos, ◌==◌, if◌then◌else◌,
}
use salticidae.Peer.Session.{finish_handshake}
use salticidae.Peer.Session.Establishment.{Establishes, finish_handshake_lem}
use salticidae.Peer.{Peer, active, passive, State, done, reset, reports}
use salticidae.Peer.Handlers.{on_dispatcher_teardown}
use salticidae.Peer.Handlers.Teardown.{IsLost, Loses, teardown_lem}
use salticidae.NetAddr.{is_null}
use salticidae.Peer.Calls.{add_peer, del_peer, conn_peer}
use salticidae.Peer.Calls.Reconnecting.{Restarts, conn_peer_lem}
use salticidae.Peer.Calls.Membership.{Adds, Removes, add_peer_lem, del_peer_lem}
use salticidae.Tests.Peers.{other_end, conn_to, network}

-- A peer that `conn_peer` has reset, whose connection 1 is about to end.
abbrev resetting : Peer
resetting = record (other_end 2 4 none) { conn = 1; state = reset }

abbrev busy : State
busy = record (network 1 active 2 resetting) {
  conns = λ c. record (conn_to active 2 false) { peer = some 0 };
}

busy-IsLost : IsLost 0 1 resetting busy
busy-IsLost = record {
  linked = refl;
  automatic = refl;
  stored = refl;
  had_session = refl;
  carries = refl;
  no_ping = refl;
  timer_set = refl;
}

teardown_example : Loses 0 resetting (on_dispatcher_teardown 1 busy)
teardown_example = teardown_lem 0 1 resetting busy busy-IsLost

add_peer_example :
    ((busy.known_peers 7 ≡ none) × Adds 7 busy (add_peer 7 3 busy))
    ⊎ ((q : ℕ) × (busy.known_peers 7 ≡ some q)
        × (add_peer 7 3 busy
            ≡ done tt (record busy { log = [] ++ (reports peer_already_exists 3 ∷ []) })))
add_peer_example = add_peer_lem 7 3 busy

-- The one known peer has its object.
busy_live : (q : ℕ) → busy.known_peers 2 ≡ some q → (p : Peer) × (busy.peers q ≡ some p)
busy_live q e = subst (λ o. (p : Peer) × (at_address o ≡ some p)) e (resetting, refl)
  where
    at_address : Option ℕ → Option Peer
    at_address none = none
    at_address (some q) = busy.peers q

del_peer_example :
    ((q : ℕ) × (p : Peer) × (busy.known_peers 2 ≡ some q)
      × (busy.peers q ≡ some p)
      × Removes 2 q p busy (del_peer 2 3 busy))
    ⊎ ((busy.known_peers 2 ≡ none)
        × (del_peer 2 3 busy
            ≡ done tt (record busy { log = [] ++ (reports peer_not_exist 3 ∷ []) })))
del_peer_example = del_peer_lem 2 3 busy busy_live

-- A peer that has chosen the connection 1, with a segment that waits in the old connection 0.
abbrev choosing : Peer
choosing = record (other_end 2 4 (some 1)) { chosen_conn = some 1 }

abbrev waiting : State
waiting = record (network 1 active 2 choosing) {
  conns = λ c.
      if c == 0
      then record (conn_to passive 2 true) { send_buffer = (8 ∷ 9 ∷ []) ∷ [] }
      else record (conn_to active 2 false) { peer = some 0 };
}

finish_handshake_example : Establishes 0 1 (finish_handshake 0 waiting)
finish_handshake_example = finish_handshake_lem 0 1 waiting choosing refl refl refl refl

conn_peer_example :
    ((busy.known_peers 2 ≡ none)
      × (conn_peer 2 (pos 3) 5 busy
          ≡ done tt (record busy { log = [] ++ (reports peer_not_exist 5 ∷ []) })))
    ⊎ ((q : ℕ) × (p : Peer) × (busy.known_peers 2 ≡ some q)
        × (busy.peers q ≡ some p)
        × (((is_null p.addr ≡ true)
              × (conn_peer 2 (pos 3) 5 busy
                  ≡ done tt (record busy { log = [] ++ (reports peer_not_ready 5 ∷ []) })))
            ⊎ ((is_null p.addr ≡ false) × Restarts q p (pos 3) busy (conn_peer 2 (pos 3) 5 busy))))
conn_peer_example = conn_peer_lem 2 (pos 3) 5 busy busy_live

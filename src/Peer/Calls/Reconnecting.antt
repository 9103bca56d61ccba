-- ===== src/Peer/Calls/Reconnecting.antt =====
-- What `conn_peer` makes of a peer.
use salticidae.Base.{
  ℕ, ◌≡◌, refl, ◌⊎◌, inl, inr, Bool, true, false, List, [], ◌∷◌, ◌++◌, none, some, peer_not_exist,
  peer_not_ready, ℤ, is_nonzero, Bool-cases, Option-cases,
}
use salticidae.NetAddr.{is_null}
use salticidae.Peer.{
  Peer, PeerState, disconnected, connected, reset, stopped, armed, Delay, State, Outcome, done,
  throws, aborts, Effect, reports, terminates,
}
use salticidae.Peer.Store.{update, caught}
use salticidae.Peer.Session.{add_retry}
use salticidae.Peer.Session.Establishment.{==-self}
use salticidae.Peer.Calls.{conn_peer, restart}

-- What is scheduled, by the state that the Peer had: a first try at once, or the end of its
-- connection, after which the teardown goes on; the log is `log` before.
abbrev pub Schedules : PeerState → Bool → Peer → List Effect → List Effect → Type 0
Schedules disconnected true r log t =
    (r.state ≡ disconnected) × (r.retry_timer ≡ armed Delay.immediate) × (t ≡ log)
Schedules disconnected false r log t =
    (r.state ≡ disconnected) × (r.retry_timer ≡ stopped) × (t ≡ log)
Schedules connected tries r log t =
    (r.state ≡ reset) × (r.retry_timer ≡ stopped) × (t ≡ log ++ (terminates r.conn ∷ []))
Schedules reset tries r log t = (r.state ≡ reset) × (r.retry_timer ≡ stopped) × (t ≡ log)

-- The Peer `q` counts its tries anew, draws a new nonce, and has no handshake connection.
abbrev pub Restarts : ℕ → Peer → ℤ → State → Outcome (Unit {0}) → Type 0
Restarts q p ntry s (done u t) =
    (r : Peer) × (t.peers q ≡ some r)
    × (r.nonce ≡ 0)
    × (r.cur_ntry ≡ ntry)
    × (r.ntry ≡ ntry)
    × (r.inbound_conn ≡ none)
    × (r.outbound_conn ≡ none)
    × (r.conn ≡ p.conn)
    × Schedules p.state (is_nonzero ntry) r s.log t.log
Restarts q p ntry s (throws e t) = ⊥
Restarts q p ntry s aborts = ⊥

restart_lem :
    (q : ℕ) (ntry : ℤ) (s : State) (p : Peer) (st : PeerState)
    → s.peers q ≡ some p
    → p.state ≡ st
    → p.nonce ≡ 0
    → p.cur_ntry ≡ ntry
    → p.ntry ≡ ntry
    → p.inbound_conn ≡ none
    → p.outbound_conn ≡ none
    → p.retry_timer ≡ stopped
    → Restarts q p ntry s (restart q (is_nonzero ntry) st s)
unfolding restart add_retry
restart_lem q ntry s p disconnected e st n c0 c1 i o t = elim (Bool-cases (is_nonzero ntry)) [
  | inl y ↦
      rw (y, e, t, st)
        (
          record p { state = disconnected; retry_timer = armed Delay.immediate },
          rw (==-self q) refl,
          n,
          c0,
          c1,
          i,
          o,
          refl,
          rw y (refl, refl, refl),
        )
  | inr y ↦ rw (y, st) (p, e, n, c0, c1, i, o, refl, rw y (st, t, refl))
]
restart_lem q ntry s p connected e st n c0 c1 i o t =
    rw (e, st)
      (record p { state = reset }, rw (==-self q) refl, n, c0, c1, i, o, refl, (refl, t, refl))
restart_lem q ntry s p reset e st n c0 c1 i o t = rw st (p, e, n, c0, c1, i, o, refl, (st, t, refl))

-- `conn_peer` restarts the tries of a known peer with an address: at once when it is disconnected and
-- some tries are asked for, and by terminating the connection when it is connected. It reports
-- peer_not_exist for an unknown peer and peer_not_ready for one with no address, and then changes
-- nothing else. The condition is that a known id has its Peer object.
pub conn_peer_lem :
    (pid : ℕ) (ntry : ℤ) (id : ℕ) (s : State)
    → ((q : ℕ) → s.known_peers pid ≡ some q → (p : Peer) × (s.peers q ≡ some p))
    → ((s.known_peers pid ≡ none)
        × (conn_peer pid ntry id s
            ≡ done tt (record s { log = s.log ++ (reports peer_not_exist id ∷ []) })))
      ⊎ ((q : ℕ) × (p : Peer) × (s.known_peers pid ≡ some q)
          × (s.peers q ≡ some p)
          × (((is_null p.addr ≡ true)
                × (conn_peer pid ntry id s
                    ≡ done tt (record s { log = s.log ++ (reports peer_not_ready id ∷ []) })))
              ⊎ ((is_null p.addr ≡ false) × Restarts q p ntry s (conn_peer pid ntry id s))))
unfolding conn_peer
conn_peer_lem pid ntry id s live = elim (Option-cases (s.known_peers pid)) [
  | inl fresh ↦ inl (fresh, rw fresh refl)
  | inr (q, old) ↦
      let (p, e) = live q old in
      inr (
        q,
        p,
        old,
        e,
        elim (Bool-cases (is_null p.addr)) [
          | inl null ↦ inl (null, rw (old, e, null) refl)
          | inr set ↦ inr (set, rw (old, e, set) (restarted q p))
        ],
      )
]
  where
    cleared : Peer → Peer
    cleared p = record p {
      nonce = 0;
      ntry = ntry;
      cur_ntry = ntry;
      retry_timer = stopped;
      inbound_conn = none;
      outbound_conn = none;
      ping_timer_armed = false;
    }

    kept :
        (q : ℕ) (p : Peer) (o : Outcome (Unit {0}))
        → Restarts q p ntry s o
        → Restarts q p ntry s (caught (λ e. reports e id) o)
    kept q p (done u t) h = h
    kept q p (throws e t) h = absurd h
    kept q p aborts h = absurd h

    restarted :
        (q : ℕ) (p : Peer)
        → Restarts q p ntry s (
            caught
              (λ e. reports e id)
              (restart q
                (is_nonzero ntry)
                p.state
                (record s { peers = update q (some (cleared p)) s.peers })))
    restarted q p = kept q p _ (
        restart_lem q ntry (record s { peers = update q (some (cleared p)) s.peers }) (cleared p)
          p.state (rw (==-self q) refl) refl refl refl refl refl refl refl)

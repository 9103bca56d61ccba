-- ===== src/Peer/Handlers/Teardown.antt =====
-- What the loss of a peer's connection leaves behind.
use salticidae.Base.{
  ℕ, ◌≡◌, refl, inl, inr, true, false, none, some, dec_pos, is_nonzero, Bool-cases, ◌&&◌,
  if◌then◌else◌,
}
use salticidae.Peer.{
  passive_nonce, Peer, disconnected, armed, Delay, State, Outcome, done, throws, aborts,
}
use salticidae.Peer.Session.{add_retry, is_set, is_disconnected}
use salticidae.Peer.Session.Establishment.{==-self}
use salticidae.Peer.Handlers.{on_dispatcher_teardown, teardown, ended, lost, is_active}

-- The Peer after the loss: disconnected, with one try less; it waits for its next try, or is passive.
abbrev pub Loses : ℕ → Peer → Outcome (Unit {0}) → Type 0
Loses q p (done u t) =
    (r : Peer) × (t.peers q ≡ some r)
    × (r.state ≡ disconnected)
    × (r.outbound_conn ≡ none)
    × (r.inbound_conn ≡ none)
    × (r.cur_ntry ≡ dec_pos p.cur_ntry)
    × (if is_nonzero (dec_pos p.cur_ntry)
        then (r.nonce ≡ 0) × (r.retry_timer ≡ armed Delay.random)
        else (r.nonce ≡ passive_nonce) × (r.retry_timer ≡ p.retry_timer))
Loses q p (throws e t) = ⊥
Loses q p aborts = ⊥

-- The connection `c` of a Peer that has a session by it, or had one until `conn_peer` reset it, is
-- lost while no ping waits.
pub record IsLost (q c : ℕ) (p : Peer) (s : State) : Type 0 where
  pub linked : (s.conns c).peer ≡ some q
  pub automatic : (is_active (s.conns c).mode && (s.conns c).manual) ≡ false
  pub stored : s.peers q ≡ some p
  pub had_session : is_disconnected p.state ≡ false
  pub carries : p.conn ≡ c
  pub no_ping : p.inbound_preempt_ping ≡ none
  pub timer_set : is_set p.retry_timer ≡ true

abbrev left_by : ℕ → Peer → Peer
left_by c p = record p {
  conn = c;
  cur_ntry = dec_pos p.cur_ntry;
  inbound_conn = none;
  outbound_conn = none;
  ping_timer_armed = false;
  inbound_preempt_ping = none;
  state = disconnected;
}

-- A connection is lost by which its Peer had a session, which `conn_peer` may have asked to reset. It was not made by
-- `connect`, no deferred ping waits at the Peer, and its retry timer has been set. Then the Peer is disconnected,
-- without handshake connections and with one try less. If a try is left, it is delayed, also after a reset;
-- else the Peer becomes passive.
pub teardown_lem :
    (q c : ℕ) (p : Peer) (s : State) → IsLost q c p s → Loses q p (on_dispatcher_teardown c s)
unfolding on_dispatcher_teardown teardown ended lost add_retry
teardown_lem q c p s h = elim (Bool-cases (is_nonzero (dec_pos p.cur_ntry))) [
  | inl more ↦
      rw (h.linked, h.automatic, h.stored, h.had_session, h.carries, ==-self c, h.no_ping)
        (rw (==-self q, ==-self q, more, ==-self q, h.timer_set)
          (
            record (left_by c p) { nonce = 0; retry_timer = armed Delay.random },
            rw (==-self q) refl,
            refl,
            refl,
            refl,
            refl,
            rw more (refl, refl),
          ))
  | inr last ↦
      rw (h.linked, h.automatic, h.stored, h.had_session, h.carries, ==-self c, h.no_ping)
        (rw (==-self q, ==-self q, last)
          (
            record (left_by c p) { nonce = passive_nonce },
            rw (==-self q) refl,
            refl,
            refl,
            refl,
            refl,
            rw last (refl, refl),
          ))
]

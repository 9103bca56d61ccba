-- ===== src/Peer/Handlers/Agreement.antt =====
-- The two ends of a handshake decide alike whether its connection is the one to keep.
use native.Mathlib.Decide.{dec_lt}
use salticidae.Base.{
  ℕ, ◌≤◌, ◌<◌, ◌≡◌, refl, ◌⊎◌, inl, inr, true, false, List, [], ◌∷◌, ◌++◌, none, some, ◌==◌, ltb,
  lt→ltb, ltb-false, Exception, Bool-cases, if◌then◌else◌, arith,
}
use salticidae.NetAddr.{is_null, is_eq}
use salticidae.Peer.{
  active, passive, Peer, disconnected, Ping, pong, Config, State, Outcome, done, throws, aborts,
  Effect, terminates, sends, fails,
}
use salticidae.Peer.Store.{update, caught}
use salticidae.Peer.Session.{get_peer_id, reset_ping_timer}
use salticidae.Peer.Session.Nonces.{nonce_of, with_peer, get_nonce-done}
use salticidae.Peer.Session.Establishment.{==-self, Establishes, finish_handshake_lem}
use salticidae.Peer.Handlers.{
  ping_handler, pong_handler, greeted, inbound, answer, own_addr, drop_stale, answered, outbound,
  accept,
}

-- The handler returns, the connection `c` is being terminated, and the Peer `q` is not connected.
abbrev pub Declines : ℕ → ℕ → Outcome (Unit {0}) → Type 0
Declines q c (done u t) =
    (r : Peer) × (before : List Effect) × (t.peers q ≡ some r)
    × (r.state ≡ disconnected)
    × (t.log ≡ before ++ (terminates c ∷ []))
Declines q c (throws e t) = ⊥
Declines q c aborts = ⊥

-- A handshake ping `m` reaches the passive connection `c` of a known Peer that is disconnected, has an
-- address and no other inbound connection, and will answer with the nonce `b`.
pub record IsGreeted (config : Config) (m : Ping) (q c b : ℕ) (p : Peer) (s : State) : Type 0 where
  pub alive : (s.conns c).terminated ≡ false
  pub is_passive : (s.conns c).mode ≡ passive
  pub is_handshake : is_null m.claimed_addr ≡ false
  pub has_nonce : (m.nonce == 0) ≡ false
  pub known : s.known_peers (get_peer_id config (s.conns c).cert m.claimed_addr) ≡ some q
  pub stored : s.peers q ≡ some p
  pub is_disconnected : p.state ≡ disconnected
  pub nonce : nonce_of config p ≡ some b
  pub has_addr : is_null p.addr ≡ false
  pub no_inbound : p.inbound_conn ≡ none
  pub over : (s.conns p.conn).terminated ≡ true

-- The Peer that has chosen the inbound connection `c`.
abbrev picked : ℕ → ℕ → Peer → Peer
picked c b p = record p { nonce = b; chosen_conn = some c; inbound_conn = some c }

caught-Establishes :
    (f : Exception → Effect) (q c : ℕ) (o : Outcome (Unit {0}))
    → Establishes q c o
    → Establishes q c (caught f o)
caught-Establishes f q c (done u t) h = h
caught-Establishes f q c (throws e t) h = absurd h
caught-Establishes f q c aborts h = absurd h

-- The ping is accepted if the nonce in it is less than the one that is answered.
pub answers_lem :
    (config : Config) (m : Ping) (q c b : ℕ) (p : Peer) (s : State)
    → IsGreeted config m q c b p s
    → if ltb m.nonce b
      then Establishes q c (ping_handler config (some m) c s)
      else Declines q c (ping_handler config (some m) c s)
unfolding ping_handler greeted inbound answer drop_stale own_addr
answers_lem config m q c b p s h = elim (Bool-cases (ltb m.nonce b)) [
  | inl less ↦
      rw
        (
          less, h.alive, h.is_handshake, h.is_passive, h.known, h.has_nonce, h.stored,
          h.is_disconnected,
        )
        (rw
          (get_nonce-done config q b p s h.stored h.nonce, h.no_inbound, ==-self q, less, ==-self q)
          (caught-Establishes (λ x. fails x) q c _
            (finish_handshake_lem q c
              (record s {
                peers = update q (some (picked c b p)) (
                    update q (some (record p { nonce = b; inbound_conn = some c }))
                      (with_peer q (record p { nonce = b; inbound_conn = none }) s).peers);
                log =
                    s.log
                    ++ (sends c (pong (some (record { claimed_addr = s.listen_addr; nonce = b })))
                        ∷ []);
              })
              (picked c b p) (rw (==-self q) refl) h.is_disconnected refl h.over)))
  | inr more ↦
      rw
        (
          more, h.alive, h.is_handshake, h.is_passive, h.known, h.has_nonce, h.stored,
          h.is_disconnected,
        )
        (rw
          (
            get_nonce-done config q b p s h.stored h.nonce,
            h.no_inbound,
            ==-self q,
            more,
            h.has_addr,
          )
          (
            record p { nonce = b; inbound_conn = some c },
            s.log
                ++ (sends c (pong (some (record { claimed_addr = s.listen_addr; nonce = b })))
                    ∷ []),
            rw (==-self q) refl,
            h.is_disconnected,
            refl,
          ))
]

-- A handshake pong `m` reaches the active connection `c` of a known Peer that is disconnected, has its
-- address and no other outbound connection, and whose own nonce is `a`.
pub record IsAnswered (config : Config) (m : Ping) (q c a : ℕ) (p : Peer) (s : State) : Type 0 where
  pub alive : (s.conns c).terminated ≡ false
  pub is_active : (s.conns c).mode ≡ active
  pub is_handshake : is_null m.claimed_addr ≡ false
  pub known : s.known_peers (get_peer_id config (s.conns c).cert (s.conns c).addr) ≡ some q
  pub stored : s.peers q ≡ some p
  pub is_disconnected : p.state ≡ disconnected
  pub nonce : nonce_of config p ≡ some a
  pub has_addr : is_null p.addr ≡ false
  pub connects_to : is_eq p.addr (s.conns c).addr ≡ true
  pub claims : is_eq p.addr m.claimed_addr ≡ true
  pub started : p.outbound_conn ≡ some c
  pub over : (s.conns p.conn).terminated ≡ true

-- The Peer that has chosen the outbound connection `c`.
abbrev taken : ℕ → ℕ → Peer → Peer
taken c a p = record p { nonce = a; chosen_conn = some c; outbound_conn = some c }

-- The pong is accepted if the nonce in it is greater than the own one.
pub accepts_lem :
    (config : Config) (m : Ping) (q c a : ℕ) (p : Peer) (s : State)
    → IsAnswered config m q c a p s
    → if ltb a m.nonce
      then Establishes q c (pong_handler config (some m) c s)
      else Declines q c (pong_handler config (some m) c s)
unfolding pong_handler answered outbound accept drop_stale reset_ping_timer
accepts_lem config m q c a p s h =
    let opened =
      get_nonce-done config q a (record p { outbound_conn = some c })
        (with_peer q (record p { outbound_conn = some c }) s) (rw (==-self q) refl) h.nonce in
    elim (Bool-cases (ltb a m.nonce)) [
      | inl less ↦
          rw
            (
              less,
              h.alive,
              h.is_handshake,
              h.is_active,
              h.known,
              h.stored,
              h.has_addr,
              h.connects_to,
              h.is_disconnected,
              h.claims,
              h.started,
              ==-self c,
            )
            (rw (h.stored, opened, less, ==-self q, ==-self q)
              (caught-Establishes (λ x. fails x) q c _
                (finish_handshake_lem q c
                  (with_peer q (record (taken c a p) { ping_timer_armed = true })
                    (with_peer q (taken c a p) (
                      with_peer q (record p { nonce = a; outbound_conn = some c })
                        (with_peer q (record p { outbound_conn = some c }) s))))
                  (record (taken c a p) { ping_timer_armed = true }) (rw (==-self q) refl)
                  h.is_disconnected refl h.over)))
      | inr more ↦
          rw
            (
              more,
              h.alive,
              h.is_handshake,
              h.is_active,
              h.known,
              h.stored,
              h.has_addr,
              h.connects_to,
              h.is_disconnected,
              h.claims,
              h.started,
              ==-self c,
            )
            (rw (h.stored, opened, more)
              (
                record p { nonce = a; outbound_conn = some c },
                s.log,
                rw (==-self q) refl,
                h.is_disconnected,
                refl,
              ))
    ]

-- A handshake ends alike at both ends. The ping carries the nonce of the end that has connected, the
-- pong the nonce of the end that was connected to; each end knows the other, is disconnected from it
-- and has no other connection in the same direction, both connections are alive, and the old session of
-- each is over. The conditions include that the ping has a nonce other than 0; that the end that was connected
-- to has an address for its peer, without which it keeps the connection whatever the nonces are; and that the
-- end that has connected did so to the address that it has for its peer and that the pong claims. If the nonce
-- of the ping is less than that of the pong, both establish this connection, and else both terminate it.
pub handshake_agrees :
    (config_a config_b : Config) (sent replied : Ping) (qa ca qb cb : ℕ) (pa pb : Peer)
    (sa sb : State)
    → IsGreeted config_b sent qb cb replied.nonce pb sb
    → IsAnswered config_a replied qa ca sent.nonce pa sa
    → ((sent.nonce < replied.nonce)
        × Establishes qb cb (ping_handler config_b (some sent) cb sb)
        × Establishes qa ca (pong_handler config_a (some replied) ca sa))
      ⊎ ((replied.nonce ≤ sent.nonce)
          × Declines qb cb (ping_handler config_b (some sent) cb sb)
          × Declines qa ca (pong_handler config_a (some replied) ca sa))
handshake_agrees config_a config_b sent replied qa ca qb cb pa pb sa sb g w =
    let greeted = answers_lem config_b sent qb cb replied.nonce pb sb g in
    let answered = accepts_lem config_a replied qa ca sent.nonce pa sa w in
    elim (dec_lt sent.nonce replied.nonce) [
      | yes less ↦
          let t = lt→ltb sent.nonce replied.nonce less in
          inl (less, rw t at greeted, rw t at answered)
      | no more ↦
          let f = ltb-false sent.nonce replied.nonce (omega arith) in
          inr (omega arith, rw f at greeted, rw f at answered)
    ]

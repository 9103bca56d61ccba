-- ===== src/Peer/Session/Establishment.antt =====
-- What `finish_handshake` leaves behind.
use salticidae.Base.{
  ℕ, ◌≡◌, refl, sym, ap, ◌∙◌, Bool, true, false, List, [], ◌∷◌, ◌++◌, none, some, ◌==◌, ==_iff,
  Bool-cases, Option-cases, inl, inr,
}
use salticidae.Peer.{
  Conn, Peer, disconnected, connected, State, ping, Outcome, done, throws, aborts, Effect,
}
use salticidae.Peer.Store.{update}
use salticidae.Peer.Session.{
  finish_handshake, move_segments, adopt, reset_ping_timer, send_ping, heartbeat, deleted,
}

pub ==-self : (n : ℕ) → (n == n) ≡ true
==-self n = (==_iff n n).1 refl

pub update-same : {A : Type 0} (k : ℕ) (a : A) (f : ℕ → A) → update k a f k ≡ a
update-same k a f = rw (==-self k) refl

-- The handler returns; the Peer `q` is connected by the connection `c`, which points to it, and has
-- all its retries again.
abbrev pub Establishes : ℕ → ℕ → Outcome (Unit {0}) → Type 0
Establishes q c (done u t) =
    (r : Peer) × (t.peers q ≡ some r)
    × (r.state ≡ connected)
    × (r.conn ≡ c)
    × (r.cur_ntry ≡ r.ntry)
    × ((t.conns c).peer ≡ some q)
Establishes q c (throws e t) = ⊥
Establishes q c aborts = ⊥

-- Moving segments changes the log alone.
move_segments-done :
    (new : ℕ) (segs : List (List ℕ)) (s : State)
    → (left : List (List ℕ)) × (log : List Effect) × (move_segments new segs s
        ≡ done left (record s { log = log }))
unfolding move_segments
move_segments-done new [] s = ([], s.log, refl)
move_segments-done new ([] ∷ segs) s = (segs, s.log, refl)
move_segments-done new ((b ∷ bs) ∷ segs) s =
    let (left, log, e) =
      move_segments-done new segs (record s { log = s.log ++ (Effect.writes new (b ∷ bs) ∷ []) }) in
    (left, log, e)

adopt_lem :
    (q c : ℕ) (s : State) (p : Peer)
    → s.peers q ≡ some p
    → p.state ≡ connected
    → p.cur_ntry ≡ p.ntry
    → (s.conns p.conn).terminated ≡ true
    → Establishes q c (adopt q p.conn (some c) s)
unfolding adopt
adopt_lem q c s p e st full over =
    let (left, log, moved) = move_segments-done c (s.conns p.conn).send_buffer s in
    rw (over, moved, e)
      (record p { conn = c }, update-same q _ s.peers, st, refl, full, rw (==-self c) refl)

-- Clearing the `peer` of a connection leaves the others terminated or not as they were.
freed :
    (o i : ℕ) (f : ℕ → Conn)
    → (update o (record (f o) { peer = none }) f i).terminated ≡ (f i).terminated
freed o i f = elim (Bool-cases (i == o)) [
  | inl y ↦ rw y (ap (λ k. (f k).terminated) (sym ((==_iff i o).0 y)))
  | inr n ↦ rw n refl
]

-- The Peer after each of the changes that come before the connections are swapped, and the state
-- that they leave.
abbrev cleared : ℕ → Bool → Peer → Peer
cleared c armed p = record p {
  chosen_conn = some c;
  inbound_conn = none;
  outbound_conn = none;
  ping_timer_armed = armed;
  state = connected;
}

abbrev pinged : ℕ → Peer → Peer
pinged c p = record (cleared c true p) { ping_timer_ok = false; pong_msg_ok = false }

abbrev ready : ℕ → Peer → Peer
ready c p = record (pinged c p) { retry_timer = deleted p.retry_timer; cur_ntry = p.ntry }

abbrev readied : ℕ → ℕ → State → (ℕ → Conn) → Peer → State
readied q c s conns p = record s {
  conns = conns;
  peers = update q (some (ready c p)) (
      update q (some (pinged c p))
        (update q (some (cleared c true p)) (update q (some (cleared c false p)) s.peers)));
  log = (s.log ++ (Effect.resets_timeout c ∷ [])) ++ (Effect.sends c (ping none) ∷ []);
}

-- On a disconnected Peer whose last connection has ended and that has chosen a connection,
-- `finish_handshake` establishes that connection: no assert fails.
pub finish_handshake_lem :
    (q c : ℕ) (s : State) (p : Peer)
    → s.peers q ≡ some p
    → p.state ≡ disconnected
    → p.chosen_conn ≡ some c
    → (s.conns p.conn).terminated ≡ true
    → Establishes q c (finish_handshake q s)
unfolding finish_handshake reset_ping_timer send_ping heartbeat
finish_handshake_lem q c s p e st chosen over = elim (Option-cases p.outbound_conn) [
  | inl none_out ↦
      rw (e, st, none_out, chosen, ==-self q, ==-self q, ==-self q, ==-self q, ==-self q)
        (adopt_lem q c (readied q c s s.conns p) (ready c p) (rw (==-self q) refl) refl refl over)
  | inr (o, out) ↦
      rw (e, st, out, chosen, ==-self q, ==-self q, ==-self q, ==-self q, ==-self q)
        (adopt_lem q c (readied q c s (update o (record (s.conns o) { peer = none }) s.conns) p)
          (ready c p) (rw (==-self q) refl) refl refl (freed o p.conn s.conns ∙ over))
]

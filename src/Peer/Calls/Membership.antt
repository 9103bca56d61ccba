-- ===== src/Peer/Calls/Membership.antt =====
-- The known peers after `add_peer` and `del_peer`.
use salticidae.Base.{
  ℕ, ◌≡◌, refl, ap, ◌∙◌, ◌⊎◌, inl, inr, true, false, List, [], ◌∷◌, ◌++◌, Option, none, some,
  peer_already_exists, peer_not_exist, ◌==◌, Bool-cases, Option-cases, append_assoc,
}
use salticidae.Peer.{
  passive_nonce, Conn, Peer, disconnected, State, Outcome, done, throws, aborts, Effect, reports,
  terminates,
}
use salticidae.Peer.Store.{update}
use salticidae.Peer.Session.Establishment.{==-self}
use salticidae.Peer.Calls.{add_peer, del_peer, enter, new_peer, new_conn, erase, forget}

-- A Peer that is new to the network is known under its id: disconnected, passive, with no address, and
-- with a connection that has ended. The other peers are as they were.
abbrev pub Adds : ℕ → State → Outcome (Unit {0}) → Type 0
Adds pid s (done u t) =
    (q : ℕ) × (p : Peer) × (t.known_peers pid ≡ some q)
    × (t.peers q ≡ some p)
    × (p.state ≡ disconnected)
    × (p.nonce ≡ passive_nonce)
    × ((t.conns p.conn).terminated ≡ true)
    × ((t.conns p.conn).peer ≡ some q)
    × ((i : ℕ) → (i == pid) ≡ false → t.known_peers i ≡ s.known_peers i)
Adds pid s (throws e t) = ⊥
Adds pid s aborts = ⊥

-- `add_peer` adds a peer that is not known. For one that is known it reports peer_already_exists
-- under the id of the call and changes nothing else.
pub add_peer_lem :
    (pid id : ℕ) (s : State)
    → ((s.known_peers pid ≡ none) × Adds pid s (add_peer pid id s))
      ⊎ ((q : ℕ) × (s.known_peers pid ≡ some q)
          × (add_peer pid id s
              ≡ done tt (record s { log = s.log ++ (reports peer_already_exists id ∷ []) })))
unfolding add_peer enter new_peer new_conn
add_peer_lem pid id s = elim (Option-cases (s.known_peers pid)) [
  | inl fresh ↦ inl (
    fresh,
    rw fresh (
      s.next_peer,
      new_peer s.next_conn,
      rw (==-self pid) refl,
      rw (==-self s.next_peer) refl,
      refl,
      refl,
      rw (==-self s.next_conn) refl,
      rw (==-self s.next_conn) refl,
      λ i ne. rw ne refl,
    ),
  )
  | inr (q, old) ↦ inr (q, old, rw old refl)
]

-- A Peer that is gone: its id is unknown, the object is deleted, its connection is being terminated
-- and no longer points to it. The other peers are as they were.
abbrev pub Removes : ℕ → ℕ → Peer → State → Outcome (Unit {0}) → Type 0
Removes pid q p s (done u t) =
    (t.known_peers pid ≡ none)
    × (t.peers q ≡ none)
    × ((t.conns p.conn).peer ≡ none)
    × ((later : List Effect) × (t.log ≡ s.log ++ (terminates p.conn ∷ later)))
    × ((i : ℕ) → (i == pid) ≡ false → t.known_peers i ≡ s.known_peers i)
Removes pid q p s (throws e t) = ⊥
Removes pid q p s aborts = ⊥

abbrev unlinked : ℕ → (ℕ → Conn) → ℕ → Conn
unlinked k f = update k (record (f k) { peer = none }) f

-- Clearing the `peer` of a connection keeps those that are cleared.
still_free : (o i : ℕ) (f : ℕ → Conn) → (f i).peer ≡ none → (unlinked o f i).peer ≡ none
still_free o i f h = elim (Bool-cases (i == o)) [ inl y ↦ rw y refl | inr n ↦ rw n h ]

gone : {A : Type 0} (k : ℕ) (f : ℕ → Option A) → update k none f k ≡ none
gone k f = rw (==-self k) refl

freed : (k : ℕ) (f : ℕ → Conn) → (unlinked k f k).peer ≡ none
freed k f = rw (==-self k) refl

-- `del_peer` removes a known peer. For one that is not known it reports peer_not_exist under the id of
-- the call and changes nothing else. The condition is that a known id has its Peer object.
pub del_peer_lem :
    (pid id : ℕ) (s : State)
    → ((q : ℕ) → s.known_peers pid ≡ some q → (p : Peer) × (s.peers q ≡ some p))
    → ((q : ℕ) × (p : Peer) × (s.known_peers pid ≡ some q)
        × (s.peers q ≡ some p)
        × Removes pid q p s (del_peer pid id s))
      ⊎ ((s.known_peers pid ≡ none)
          × (del_peer pid id s
              ≡ done tt (record s { log = s.log ++ (reports peer_not_exist id ∷ []) })))
unfolding del_peer erase forget
del_peer_lem pid id s live = elim (Option-cases (s.known_peers pid)) [
  | inl fresh ↦ inr (fresh, rw fresh refl)
  | inr (q, old) ↦
      let (p, e) = live q old in
      inl (
        q,
        p,
        old,
        e,
        rw (old, e)
            (elim (Option-cases p.inbound_conn) [
              | inl ei ↦ elim (Option-cases p.outbound_conn) [
                | inl eo ↦
                    rw (ei, eo)
                      (
                        gone pid s.known_peers,
                        gone q s.peers,
                        freed p.conn s.conns,
                        ([], refl),
                        others,
                      )
                | inr (o, eo) ↦
                    rw (ei, eo)
                      (
                        gone pid s.known_peers,
                        gone q s.peers,
                        still_free o p.conn (unlinked p.conn s.conns) (freed p.conn s.conns),
                        (_, append_assoc s.log _ _),
                        others,
                      )
              ]
              | inr (n, ei) ↦ elim (Option-cases p.outbound_conn) [
                | inl eo ↦
                    rw (ei, eo)
                      (
                        gone pid s.known_peers,
                        gone q s.peers,
                        still_free n p.conn (unlinked p.conn s.conns) (freed p.conn s.conns),
                        (_, append_assoc s.log _ _),
                        others,
                      )
                | inr (o, eo) ↦
                    rw (ei, eo)
                      (
                        gone pid s.known_peers,
                        gone q s.peers,
                        still_free o p.conn (unlinked n (unlinked p.conn s.conns))
                            (still_free n p.conn (unlinked p.conn s.conns) (freed p.conn s.conns)),
                        (
                          _,
                          ap (λ l. l ++ (terminates o ∷ [])) (append_assoc s.log _ _)
                              ∙ append_assoc s.log _ _,
                        ),
                        others,
                      )
              ]
            ]),
      )
]
  where
    others : (i : ℕ) → (i == pid) ≡ false → update pid none s.known_peers i ≡ s.known_peers i
    others i ne = rw ne refl

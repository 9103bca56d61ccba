-- ===== src/Peer/Sending/Reached.antt =====
-- The connections of known peers, and how often a list mentions each.
use salticidae.Base.{
  ℕ, suc, ◌≡◌, refl, ap, ◌==◌, if◌then◌else◌, List, [], ◌∷◌, none, some, peer_not_exist,
}
use salticidae.Peer.{Peer, State, done, throws}
use salticidae.Peer.Sending.{get_peer_conn}

-- A known peer has a Peer object.
abbrev pub IsOwned : State → Type 0
IsOwned s = (pid q : ℕ) → s.known_peers pid ≡ some q → (p : Peer) × (s.peers q ≡ some p)

abbrev pub HasConn : State → ℕ → ℕ → Type 0
HasConn s pid c =
    (q : ℕ) × (p : Peer) × (s.known_peers pid ≡ some q) × (s.peers q ≡ some p) × (p.conn ≡ c)

-- The connections of the peers, one for each mention of a peer.
pub data Conns (s : State) : List ℕ → List ℕ → Type 0 where
  no_peers : Conns s [] []
  peer :
      (pid c : ℕ) (pids cs : List ℕ)
      → HasConn s pid c
      → Conns s pids cs
      → Conns s (pid ∷ pids) (c ∷ cs)

abbrev pub mentions : ℕ → List ℕ → ℕ
mentions c [] = 0
mentions c (d ∷ ds) = if c == d then suc (mentions c ds) else mentions c ds

pub get_peer_conn-HasConn :
    (s : State) (pid c : ℕ) → HasConn s pid c → get_peer_conn pid s ≡ done c s
unfolding get_peer_conn
get_peer_conn-HasConn s pid c (q, p, k, o, e) = rw k (rw o (ap (λ d. done d s) e))

pub get_peer_conn_unknown :
    (s : State) (pid : ℕ) → s.known_peers pid ≡ none → get_peer_conn pid s ≡ throws peer_not_exist s
unfolding get_peer_conn
get_peer_conn_unknown s pid k = rw k refl

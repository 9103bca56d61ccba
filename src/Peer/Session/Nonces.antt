-- ===== src/Peer/Session/Nonces.antt =====
-- What `get_nonce` gives.
use salticidae.Base.{
  ℕ, ◌+◌, ◌≡◌, refl, ap, Bool, true, false, Option, none, some, ◌==◌, if◌then◌else◌,
}
use salticidae.Peer.{Peer, Config, State, done}
use salticidae.Peer.Store.{pure, update}
use salticidae.Peer.Session.{get_nonce, drawn}

abbrev bumped : Option ℕ → Option ℕ
bumped none = none
bumped (some n) = some (n + 1)

-- The nonce that `get_nonce` returns, if it does not throw.
abbrev pub nonce_of : Config → Peer → Option ℕ
nonce_of config p = if p.nonce == 0 then bumped config.rand_bytes else some p.nonce

abbrev pub with_peer : ℕ → Peer → State → State
with_peer q p s = record s { peers = update q (some p) s.peers }

drawn_lem :
    (z : Bool) (r : Option ℕ) (n b : ℕ) (s : State)
    → (if z then bumped r else some n) ≡ some b
    → (if z then drawn r else pure n) s ≡ done b s
unfolding drawn
drawn_lem true none n b s h = cc
drawn_lem true (some k) n b s h = ap (λ x. done x s) (ap held h)
  where
    held : Option ℕ → ℕ
    held none = 0
    held (some x) = x
drawn_lem false r n b s h = ap (λ x. done x s) (ap held h)
  where
    held : Option ℕ → ℕ
    held none = 0
    held (some x) = x

-- The nonce is kept in the Peer.
pub get_nonce-done :
    (config : Config) (q b : ℕ) (p : Peer) (s : State)
    → s.peers q ≡ some p
    → nonce_of config p ≡ some b
    → get_nonce config q s ≡ done b (with_peer q (record p { nonce = b }) s)
unfolding get_nonce
get_nonce-done config q b p s e h =
    rw (e, drawn_lem (p.nonce == 0) config.rand_bytes p.nonce b s h) refl

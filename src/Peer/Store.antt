-- ===== src/Peer/Store.antt =====
-- The handlers of PeerNetwork as actions: each reads and changes the state, may throw, and may end the
-- program at an assert.
use salticidae.Base.{
  ℕ, Bool, true, false, [], ◌∷◌, ◌++◌, Option, none, some, Exception, ◌==◌, if◌then◌else◌,
}
use salticidae.NetAddr.{NetAddr, is_eq}
use salticidae.Peer.{Conn, Peer, Effect, State, Outcome, done, throws, aborts}

abbrev pub Action : Type 0 → Type 0
Action A = State → Outcome A

abbrev pub bind : {A B : Type 0} → Outcome A → (A → Action B) → Outcome B
bind (done a s) f = f a s
bind (throws e s) f = throws e s
bind aborts f = aborts

infixl 5 ◌>>=◌
abbrev pub ◌>>=◌ : {A B : Type 0} → Action A → (A → Action B) → Action B
(m >>= f) s = bind (m s) f

infixl 5 ◌>>◌
abbrev pub ◌>>◌ : {A B : Type 0} → Action A → Action B → Action B
(m >> n) s = bind (m s) (λ a. n)

abbrev pub pure : {A : Type 0} → A → Action A
pure a s = done a s

abbrev pub throw : {A : Type 0} → Exception → Action A
throw e s = throws e s

abbrev pub assert : Bool → Action Unit
assert true s = done tt s
assert false s = aborts

-- `if (b) a;`
abbrev pub when : Bool → Action Unit → Action Unit
when true a s = a s
when false a s = done tt s

-- `if (o) f(*o);`
abbrev pub given : {A : Type 0} → Option A → (A → Action Unit) → Action Unit
given none f s = done tt s
given (some a) f s = f a s

abbrev pub emit : Effect → Action Unit
emit e s = done tt (record s { log = s.log ++ (e ∷ []) })

abbrev pub update {ℓ} : {A : Type ℓ} → ℕ → A → (ℕ → A) → ℕ → A
update k a f i = if i == k then a else f i

abbrev pub conn_at : ℕ → Action Conn
conn_at c s = done (s.conns c) s

abbrev pub change_conn : ℕ → (Conn → Conn) → Action Unit
change_conn c f s = done tt (record s { conns = update c (f (s.conns c)) s.conns })

-- A pointer to a Peer is followed.
abbrev pub at : Option Peer → Action Peer
at none s = aborts
at (some p) s = done p s

abbrev pub peer_at : ℕ → Action Peer
peer_at q s = at (s.peers q) s

abbrev pub put_peer : ℕ → Peer → Action Unit
put_peer q p s = done tt (record s { peers = update q (some p) s.peers })

abbrev pub change_peer : ℕ → (Peer → Peer) → Action Unit
change_peer q f = do p ← peer_at q; put_peer q (f p)

abbrev pub known : ℕ → Action (Option ℕ)
known pid s = done (s.known_peers pid) s

abbrev pub erase_pending : NetAddr → Action Unit
erase_pending a s =
    done tt (record s { pending_peers = λ b. if is_eq b a then none else s.pending_peers b })

abbrev pub pending_at : NetAddr → Action (Option ℕ)
pending_at a s = done (s.pending_peers a) s

-- `insert`, which leaves a key that is there as it is.
abbrev pub insert_pending : NetAddr → ℕ → Action Unit
insert_pending a c s = done tt (record s {
  pending_peers = λ b. if is_eq b a then kept (s.pending_peers a) else s.pending_peers b;
})
  where
    kept : Option ℕ → Option ℕ
    kept none = some c
    kept (some o) = some o

-- How an exception that leaves the handler is passed on.
abbrev pub caught : (Exception → Effect) → Outcome Unit → Outcome Unit
caught f (throws e s) = emit (f e) s
caught f (done u s) = done u s
caught f aborts = aborts

-- ===== src/Peer/Sending/Multicast.antt =====
-- Which connections a message reaches that is sent to several peers.
use salticidae.Base.{
  ℕ, ◌<◌, ◌≡◌, ◌⊎◌, inl, inr, refl, sym, ap, subst, ◌∙◌, Bool, true, ◌&&◌, Option-cases, List, [],
  ◌∷◌, ◌++◌, none, Exception, true≢false, peer_not_exist, conn_not_ready,
}
use salticidae.Platform.{Platform}
use salticidae.Msg.{Msg}
use salticidae.WriteBuffer.{Segments}
use salticidae.Queue.Refine.{Holds}
use salticidae.Peer.{State, Outcome, done, reports}
use salticidae.Peer.Store.{emit}
use salticidae.Peer.Sending.{
  Buffers, ready, write_to, sent, send_msg, go_on, reporting, send_all, multicast_msg,
}
use salticidae.Peer.Sending.Reached.{
  IsOwned, Conns, no_peers, peer, mentions, get_peer_conn-HasConn, get_peer_conn_unknown,
}
use salticidae.Peer.Sending.Attempts.{
  buffer_after, count, Tries, buffer_after-Tries, buffer_after-peer, Accounts, Accounts-none,
  Accounts-peer,
}

module _ (p : Platform) (size max_send_buff_size : ℕ) (msg : Msg) where
  -- The loop over known peers, whatever peers come behind them.
  send_all_known :
      (s : State) (pids cs : List ℕ) (succ : Bool) (bs : Buffers)
      → Conns s pids cs
      → (b : Bool) × (after : Buffers) × ((c : ℕ)
          → after c ≡ buffer_after p size max_send_buff_size msg (mentions c cs) (bs c))
        × Accounts p size max_send_buff_size msg succ b bs cs
        × ((rest : List ℕ)
            → send_all p size max_send_buff_size msg (pids ++ rest) succ s bs
              ≡ send_all p size max_send_buff_size msg rest b s after)
  unfolding send_all send_msg sent go_on
  send_all_known s [] [] succ bs no_peers =
      (succ, bs, λ c. refl, Accounts-none p size max_send_buff_size msg succ bs, λ rest. refl)
  send_all_known s [] (c ∷ cs) succ bs ks = elim ks [ ]
  send_all_known s (pid ∷ pids) [] succ bs ks = elim ks [ ]
  send_all_known s (pid ∷ pids) (c ∷ cs) succ bs (peer _ _ _ _ k ks) =
      let to = write_to p size max_send_buff_size msg c bs in
      let (b, after, each, accounts, rests) = send_all_known s pids cs (succ && to.0) to.1 ks in
      (
        b,
        after,
        λ d. each d ∙ buffer_after-peer p size max_send_buff_size msg c d cs bs,
        Accounts-peer p size max_send_buff_size msg succ b c cs bs accounts,
        λ rest.
            ap
              (λ o.
                go_on p size max_send_buff_size msg
                  (λ b. send_all p size max_send_buff_size msg (pids ++ rest) (succ && b))
                  (sent p size max_send_buff_size msg o bs))
              (get_peer_conn-HasConn s pid c k)
            ∙ rests rest,
      )

-- The peers up to the first that is not known.
split_peers :
    (s : State) (pids : List ℕ)
    → IsOwned s
    → (front rest cs : List ℕ) × (pids ≡ front ++ rest)
      × Conns s front cs
      × ((rest ≡ [])
          ⊎ ((pid : ℕ) × (later : List ℕ) × (rest ≡ pid ∷ later) × (s.known_peers pid ≡ none)))
split_peers s [] o = ([], [], [], refl, no_peers, inl refl)
split_peers s (pid ∷ pids) o = elim (Option-cases (s.known_peers pid)) [
  | inl k ↦ ([], pid ∷ pids, [], refl, no_peers, inr (pid, pids, refl, k))
  | inr (q, k) ↦
      let (p, at) = o pid q k in
      let (front, rest, cs, e, ks, end) = split_peers s pids o in
      (
        pid ∷ front,
        rest,
        p.conn ∷ cs,
        ap (◌∷◌ pid) e,
        peer pid p.conn front cs (q, p, k, at, refl) ks,
        end,
      )
]

module _ (p : Platform) (size max_send_buff_size : ℕ) (msg : Msg) where
  -- What the call reports, if it does.
  abbrev pub reported : Exception → ℕ → State → Outcome Unit
  reported e id s = emit (reports e id) s

  -- How many of the attempts on a connection its buffer takes.
  abbrev pub reached : Buffers → List ℕ → ℕ → ℕ
  reached bs cs c = count p size max_send_buff_size msg (mentions c cs) (bs c)

  -- The three ways in which a multicast to the known peers with the connections `cs` and to `rest` ends, when
  -- `n` messages have reached each connection.
  abbrev pub Ends : ℕ → State → Outcome Unit → (ℕ → ℕ) → List ℕ → List ℕ → Type 0
  Ends id s o n cs rest =
      ((rest ≡ []) × (o ≡ done tt s) × ((c : ℕ) → n c ≡ mentions c cs))
      ⊎ ((rest ≡ []) × (o ≡ reported conn_not_ready id s) × ((c : ℕ) × (n c < mentions c cs)))
      ⊎ ((pid : ℕ) × (later : List ℕ) × (rest ≡ pid ∷ later)
          × (s.known_peers pid ≡ none)
          × (o ≡ reported peer_not_exist id s))

  finish :
      (id : ℕ) (s : State) (bs after : Buffers) (b : Bool) (cs rest : List ℕ)
      → ((rest ≡ [])
          ⊎ ((pid : ℕ) × (later : List ℕ) × (rest ≡ pid ∷ later) × (s.known_peers pid ≡ none)))
      → Accounts p size max_send_buff_size msg true b bs cs
      → let r = send_all p size max_send_buff_size msg rest b s after in
        ((reporting id r).1 ≡ after) × Ends id s (reporting id r).0 (reached bs cs) cs rest
  unfolding send_all reporting ready send_msg sent go_on
  finish id s bs after b cs rest (inl none_left) (inl (y, _, k)) =
      rw (none_left, y) (refl, inl (refl, refl, k))
  finish id s bs after b cs rest (inl none_left) (inr (y, inr l)) =
      rw (none_left, y) (refl, inr (inl (refl, refl, l)))
  finish id s bs after b cs rest (inl none_left) (inr (y, inl f)) = absurd (true≢false f)
  finish id s bs after b cs rest (inr (pid, later, e, unknown)) accounts =
      rw e (
        rw (get_peer_conn_unknown s pid unknown)
          (refl, inr (inr (pid, later, refl, unknown, refl))))

  -- What becomes of the buffer `s` of a connection that held `vs`: `k` attempts have been made on it, whatever the
  -- other buffers did, and what it has taken is behind `vs`. It has taken all, or fewer and then it has a limit and
  -- is full.
  abbrev pub Tried : ℕ → Segments → List (List ℕ) → Segments → Type 0
  Tried k s vs r =
      (r ≡ buffer_after p size max_send_buff_size msg k s)
      × Tries p size max_send_buff_size msg k s vs (count p size max_send_buff_size msg k s) r

  -- A multicast goes through the peers up to the first that is not known, also when the buffer of one refuses the
  -- message, and to none behind it. On the buffer of each connection it makes one attempt of `_send_msg` for each
  -- mention of its peer among those, and what the buffer becomes depends on these attempts alone. It has then got
  -- the message once for each attempt that it took, and has refused one only if it has a limit and is full. The
  -- caller's error callback gets PEER_NOT_EXIST if a peer is not known; else it gets CONN_NOT_READY if some
  -- connection has refused the message; else no error, and every connection has taken it each time. The conditions
  -- are that each known peer has a Peer object and each write buffer holds a list of segments, in blocks of at
  -- least one cell.
  pub multicast_msg_lem :
      (pids : List ℕ) (id : ℕ) (s : State) (bs : Buffers) (vs : ℕ → List (List ℕ))
      → 0 < size
      → IsOwned s
      → ((c : ℕ) → Holds (List ℕ) size (bs c) (vs c))
      → let (o, after) = multicast_msg p size max_send_buff_size msg pids id s bs in
        (front rest cs : List ℕ) × (pids ≡ front ++ rest)
        × Conns s front cs
        × ((c : ℕ) → Tried (mentions c cs) (bs c) (vs c) (after c))
        × Ends id s o (reached bs cs) cs rest
  unfolding multicast_msg reporting
  multicast_msg_lem pids id s bs vs pos owned h =
      let (front, rest, cs, e, ks, end) = split_peers s pids owned in
      let (b, after, each, accounts, rests) =
        send_all_known p size max_send_buff_size msg s front cs true bs ks in
      let all : send_all p size max_send_buff_size msg pids true s bs
          ≡ send_all p size max_send_buff_size msg rest b s after =
        ap (λ l. send_all p size max_send_buff_size msg l true s bs) e ∙ rests rest in
      let (buffers, ends) = finish id s bs after b cs rest end accounts in
      let left : (c : ℕ)
          → (reporting id (send_all p size max_send_buff_size msg pids true s bs)).1 c
            ≡ buffer_after p size max_send_buff_size msg (mentions c cs) (bs c) =
        λ c. ap (λ r. (reporting id r).1 c) all ∙ ap (λ f. f c) buffers ∙ each c in
      (
        front,
        rest,
        cs,
        e,
        ks,
        λ c. (
          left c,
          subst
              (Tries p size max_send_buff_size msg (mentions c cs) (bs c) (vs c) (reached bs cs c))
              (sym (left c))
              (buffer_after-Tries p size max_send_buff_size msg (mentions c cs) (bs c) (vs c) pos
                (h c)),
        ),
        subst (λ r. Ends id s (reporting id r).0 (reached bs cs) cs rest) (sym all) ends,
      )

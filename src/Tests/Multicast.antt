-- ===== src/Tests/Multicast.antt =====
-- A message to three peers, of which the second has no room and the third is not known.
use salticidae.Base.{ℕ, ◌≡◌, refl, List, [], ◌∷◌, ◌++◌, none, some, ◌==◌, if◌then◌else◌, arith}
use salticidae.Peer.{active, State}
use salticidae.Peer.Sending.{Buffers, multicast_msg}
use salticidae.Peer.Sending.Reached.{IsOwned, Conns, mentions}
use salticidae.Peer.Sending.Multicast.{Ends, Tried, reached, multicast_msg_lem}
use salticidae.Tests.Platforms.{little}
use salticidae.Tests.Messages.{hello}
use salticidae.Tests.Outgoing.{one_waits, one_waits-Holds}
use salticidae.Tests.Peers.{other_end, network}

-- The peers 2 and 3, with the connection 1.
abbrev two_known : State
two_known = record (network 1 active 2 (record (other_end 2 4 none) { conn = 1 })) {
  known_peers = λ pid. if pid == 2 then some 0 else if pid == 3 then some 0 else none;
  peers = λ q. some (record (other_end 2 4 none) { conn = 1 });
}

two_known-IsOwned : IsOwned two_known
two_known-IsOwned pid q e = (record (other_end 2 4 none) { conn = 1 }, refl)

-- Each connection has room for one message.
abbrev buffers : Buffers
buffers c = one_waits

multicast_msg_example :
    let (o, after) = multicast_msg little 2 1 hello (2 ∷ 3 ∷ 9 ∷ 2 ∷ []) 6 two_known buffers in
    (front rest cs : List ℕ) × (2 ∷ 3 ∷ 9 ∷ 2 ∷ [] ≡ front ++ rest)
    × Conns two_known front cs
    × ((c : ℕ) → Tried little 2 1 hello (mentions c cs) (buffers c) ((9 ∷ []) ∷ []) (after c))
    × Ends little 2 1 hello 6 two_known o (reached little 2 1 hello buffers cs) cs rest
multicast_msg_example =
    multicast_msg_lem little 2 1 hello (2 ∷ 3 ∷ 9 ∷ 2 ∷ []) 6 two_known buffers (λ c. (9 ∷ []) ∷ [])
      (omega arith) two_known-IsOwned (λ c. one_waits-Holds)

-- ===== src/Tests/Outgoing.antt =====
-- A message that is sent on a connection, and one to an address.
use salticidae.Base.{
  ℕ, ◌≡◌, ◌⊎◌, refl, Bool, true, false, List, [], ◌∷◌, none, some, ok, err, client_not_exist, arith,
  ◌+◌,
}
use salticidae.Msg.{Msg}
use salticidae.NetAddr.{NetAddr}
use salticidae.Queue.Refine.{Holds}
use salticidae.WriteBuffer.{Segments}
use salticidae.Network.Clients
use salticidae.Network.Clients.{sets_up, tears_down, AddrMap, Event, all_passive, last_at, after}
use salticidae.Tests.Messages.{hello}

-- A block of two cells with one segment, and no other block.
abbrev pub one_waits : Segments
one_waits = record {
  blocks = record { head = 0; tail = 1; cells = some (9 ∷ []) ∷ none ∷ [] } ∷ [];
  free = [];
}

pub one_waits-Holds : Holds (List ℕ) 2 one_waits ((9 ∷ []) ∷ [])
one_waits-Holds = (record { ends = refl; bounded = omega arith; shape = refl }, tt)

abbrev client : NetAddr
client = record { ip = 1; port = 2 }

-- The client has come back on a second connection, before the first is torn down.
abbrev came_back : List Event
came_back = tears_down client 1 ∷ sets_up true client 2 ∷ sets_up true client 1 ∷ []

abbrev counted : Msg → ℕ → ℕ → Bool × ℕ
counted msg c n = (true, n + c)

send_msg_example :
    ((all_passive came_back ≡ false) × (after came_back ≡ none))
    ⊎ ((all_passive came_back ≡ true)
        × (m : AddrMap) × (after came_back ≡ some m)
        × (((last_at client came_back ≡ none)
              × (Clients.send_msg counted hello client m 0 ≡ err client_not_exist))
            ⊎ ((c : ℕ) × (last_at client came_back ≡ some c)
                × (Clients.send_msg counted hello client m 0 ≡ ok (counted hello c 0)))))
send_msg_example = Clients.send_msg_lem counted hello client came_back 0

-- Its second connection is then not found.
forgotten : last_at client came_back ≡ none
forgotten = refl

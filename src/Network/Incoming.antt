-- ===== src/Network/Incoming.antt =====
-- `incoming_msgs` of MsgNetwork: the queue of include/salticidae/queue.h fills the interface that
-- the reader of a connection takes.
use salticidae.Base.{
  ℕ, ◌<◌, ◌≡◌, sym, ap, ◌⊎◌, inl, inr, false, List, [], ◌∷◌, ◌++◌, Option, none, some,
}
use salticidae.Msg.{Msg}
use salticidae.Queue.{Queue, Dequeued, nothing, got, spins, enqueue, try_dequeue}
use salticidae.Queue.Refine.{Holds, IsFull, Takes, enqueue_lem, try_dequeue-Takes}
use salticidae.Network.Reader.{Inbox}

abbrev Item : Type 0
Item = Msg × ℕ

module _ (size : ℕ) (pos : 0 < size) where
  -- A queue with the items that it holds.
  abbrev pub Stored : Type 0
  Stored = (q : Queue Item) × (vs : List Item) × Holds Item size q vs

  stored :
      (e : Item) (s : Stored)
      → ((r : Queue Item) × (enqueue size e false s.0 ≡ some r)
          × Holds Item size r (s.1 ++ (e ∷ [])))
        ⊎ ((enqueue size e false s.0 ≡ none)
            × (false ≡ false)
            × IsFull Item size s.0.blocks s.0.free)
      → Option Stored
  stored e s (inl (r, _, h)) = some (r, s.1 ++ (e ∷ []), h)
  stored e s (inr _) = none

  enqueue_stored : Item → Stored → Option Stored
  unfolding stored
  enqueue_stored e s = stored e s (enqueue_lem Item size e false s.0 s.1 pos s.2)

  contents-enqueue_stored :
      (e : Item) (s t : Stored) → enqueue_stored e s ≡ some t → t.1 ≡ s.1 ++ (e ∷ [])
  unfolding enqueue_stored
  contents-enqueue_stored e s t k = added (enqueue_lem Item size e false s.0 s.1 pos s.2) k
    where
      added :
          (r : ((r : Queue Item) × (enqueue size e false s.0 ≡ some r)
              × Holds Item size r (s.1 ++ (e ∷ [])))
            ⊎ ((enqueue size e false s.0 ≡ none)
                × (false ≡ false)
                × IsFull Item size s.0.blocks s.0.free))
          → stored e s r ≡ some t
          → t.1 ≡ s.1 ++ (e ∷ [])
      added (inl (r, _, h)) k = sym (ap held k)
        where
          held : Option Stored → List Item
          held none = []
          held (some u) = u.1
      added (inr _) k = cc

  taken : (vs : List Item) (d : Dequeued Item) → Takes Item size vs d → Option (Item × Stored)
  taken [] (nothing q) k = none
  taken [] (got x q) k = none
  taken [] spins k = none
  taken (v ∷ vs) (got x q) k = some (v, (q, vs, k.1))
  taken (v ∷ vs) (nothing q) k = none
  taken (v ∷ vs) spins k = none

  dequeue_stored : Stored → Option (Item × Stored)
  unfolding taken
  dequeue_stored s = taken s.1 (try_dequeue size s.0) (try_dequeue-Takes Item size s.0 s.1 s.2)

  removed :
      (vs : List Item) (d : Dequeued Item) (k : Takes Item size vs d) (x : Item) (t : Stored)
      → taken vs d k ≡ some (x, t)
      → vs ≡ x ∷ t.1
  unfolding taken
  removed [] (nothing q) k x t e = cc
  removed [] (got y q) k x t e = absurd k
  removed [] spins k x t e = absurd k
  removed (v ∷ vs) (got y q) k x t e = ap held e
    where
      held : Option (Item × Stored) → List Item
      held none = []
      held (some (y, u)) = y ∷ u.1
  removed (v ∷ vs) (nothing q) k x t e = absurd k
  removed (v ∷ vs) spins k x t e = absurd k

  contents-dequeue_stored :
      (x : Item) (s t : Stored) → dequeue_stored s ≡ some (x, t) → s.1 ≡ x ∷ t.1
  unfolding dequeue_stored
  contents-dequeue_stored x s t e =
      removed s.1 (try_dequeue size s.0) (try_dequeue-Takes Item size s.0 s.1 s.2) x t e

  -- The bounded queue of messages, at blocks of `size` cells.
  pub mpsc_inbox : Inbox
  mpsc_inbox = record {
    Queue = Stored;
    enqueue = enqueue_stored;
    contents = λ s. s.1;
    contents-enqueue = contents-enqueue_stored;
    dequeue = dequeue_stored;
    contents-dequeue = contents-dequeue_stored;
  }

-- ===== src/WriteBuffer.antt =====
-- MPSCWriteBuffer of include/salticidae/buffer.h: the segments that wait to be sent, in the queue of Queue.
-- The entries of a SegBuffer that it holds are always whole, so that each is its byte array.
use salticidae.Base.{ℕ, ◌<◌, ◌≡◌, ◌⊎◌, refl, Bool, false, List, [], ◌∷◌, ◌++◌, Option, none, some}
use salticidae.Queue.{Queue, Dequeued, nothing, got, spins, enqueue, try_dequeue}
use salticidae.Queue
use salticidae.Queue.Refine.{Holds, IsFull, Takes, enqueue_lem, try_dequeue-Takes, rewind_lem}

abbrev pub Segments : Type 0
Segments = Queue (List ℕ)

module _ (size : ℕ) where
  pub rewind : List ℕ → Segments → Segments
  rewind seg s = Queue.rewind size seg s

  -- `none` stands for the result false.
  pub push : List ℕ → Bool → Segments → Option Segments
  push seg unbounded s = enqueue size seg unbounded s

  -- An empty array if there is no segment; `none` if the queue waits for ever.
  popped : Dequeued (List ℕ) → Option (List ℕ × Segments)
  popped (nothing q) = some ([], q)
  popped (got e q) = some (e, q)
  popped spins = none

  pub move_pop : Segments → Option (List ℕ × Segments)
  unfolding popped
  move_pop s = popped (try_dequeue size s)

  -- The operations of the list of segments that the sending of a connection works on.
  abbrev pub PopsFirst : List (List ℕ) → Option (List ℕ × Segments) → Type 0
  PopsFirst vs none = ⊥
  PopsFirst [] (some (seg, r)) = (seg ≡ []) × Holds (List ℕ) size r []
  PopsFirst (v ∷ vs) (some (seg, r)) = (seg ≡ v) × Holds (List ℕ) size r vs

  -- The buffer behaves as the list of its segments: `move_pop` always returns, with the first segment
  -- or, if there is none, an empty array; `rewind` puts a segment in front.
  pub move_pop_lem :
      (s : Segments) (vs : List (List ℕ)) → Holds (List ℕ) size s vs → PopsFirst vs (move_pop s)
  unfolding move_pop
  move_pop_lem s vs h = by_result vs (try_dequeue size s) (try_dequeue-Takes (List ℕ) size s vs h)
    where
      by_result :
          (vs : List (List ℕ)) (d : Dequeued (List ℕ))
          → Takes (List ℕ) size vs d
          → PopsFirst vs (popped d)
      by_result [] (nothing q) k = (refl, k)
      by_result [] (got e q) k = absurd k
      by_result [] spins k = absurd k
      by_result (v ∷ vs) (nothing q) k = absurd k
      by_result (v ∷ vs) (got e q) k = k
      by_result (v ∷ vs) spins k = absurd k

  pub rewind-Holds :
      (seg : List ℕ) (s : Segments) (vs : List (List ℕ))
      → 0 < size
      → Holds (List ℕ) size s vs
      → Holds (List ℕ) size (rewind seg s) (seg ∷ vs)
  unfolding rewind
  rewind-Holds seg s vs pos h = rewind_lem (List ℕ) size seg s vs pos h

  pub push_lem :
      (seg : List ℕ) (unbounded : Bool) (s : Segments) (vs : List (List ℕ))
      → 0 < size
      → Holds (List ℕ) size s vs
      → ((r : Segments) × (push seg unbounded s ≡ some r)
          × Holds (List ℕ) size r (vs ++ (seg ∷ [])))
        ⊎ ((push seg unbounded s ≡ none)
            × (unbounded ≡ false)
            × IsFull (List ℕ) size s.blocks s.free)
  unfolding push
  push_lem seg unbounded s vs pos h = enqueue_lem (List ℕ) size seg unbounded s vs pos h

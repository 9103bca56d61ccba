-- ===== src/Tests/Queues.antt =====
-- A queue of numbers in blocks of two.
use salticidae.Base.{ℕ, ◌≡◌, refl, ◌⊎◌, true, false, [], ◌∷◌, none, some, arith}
use salticidae.Queue.{Queue, enqueue, try_dequeue, rewind}
use salticidae.Queue.Refine.Passing.{Frees}
use salticidae.Queue.Refine.{Holds, IsFull, Takes, enqueue_lem, try_dequeue_lem, rewind_lem}

-- A block that is half taken, then a full one.
abbrev three : Queue ℕ
three = record {
  blocks =
      record { head = 1; tail = 2; cells = none ∷ some 4 ∷ [] }
      ∷ record { head = 0; tail = 2; cells = some 5 ∷ some 6 ∷ [] }
      ∷ [];
  free = [];
}

three-Holds : Holds ℕ 2 three (4 ∷ 5 ∷ 6 ∷ [])
three-Holds = (
  (
    4 ∷ [],
    5 ∷ 6 ∷ [],
    refl,
    record { ends = refl; bounded = omega arith; shape = refl },
    refl,
    record { ends = refl; bounded = omega arith; shape = refl },
  ),
  tt,
)

enqueue_example :
    ((r : Queue ℕ) × (enqueue 2 7 true three ≡ some r) × Holds ℕ 2 r (4 ∷ 5 ∷ 6 ∷ 7 ∷ []))
    ⊎ ((enqueue 2 7 true three ≡ none) × (true ≡ false) × IsFull ℕ 2 three.blocks [])
enqueue_example = enqueue_lem ℕ 2 7 true three (4 ∷ 5 ∷ 6 ∷ []) (omega arith) three-Holds

-- All cells of the first block have been taken.
abbrev one_drained : Queue ℕ
one_drained = record {
  blocks =
      record { head = 2; tail = 2; cells = none ∷ none ∷ [] }
      ∷ record { head = 0; tail = 2; cells = some 5 ∷ some 6 ∷ [] }
      ∷ [];
  free = [];
}

one_drained-Holds : Holds ℕ 2 one_drained (5 ∷ 6 ∷ [])
one_drained-Holds = (
  (
    [],
    5 ∷ 6 ∷ [],
    refl,
    record { ends = refl; bounded = omega arith; shape = refl },
    refl,
    record { ends = refl; bounded = omega arith; shape = refl },
  ),
  tt,
)

try_dequeue_example :
    Takes ℕ 2 (5 ∷ 6 ∷ []) (try_dequeue 2 one_drained)
    × Frees ℕ 2 one_drained.blocks one_drained.free (try_dequeue 2 one_drained)
try_dequeue_example = try_dequeue_lem ℕ 2 one_drained (5 ∷ 6 ∷ []) one_drained-Holds

rewind_example : Holds ℕ 2 (rewind 2 3 three) (3 ∷ 4 ∷ 5 ∷ 6 ∷ [])
rewind_example = rewind_lem ℕ 2 3 three (4 ∷ 5 ∷ 6 ∷ []) (omega arith) three-Holds

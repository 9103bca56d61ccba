-- ===== src/Tests/FreeLists.antt =====
-- One thread pushes a node while another pops.
use salticidae.Base.{ℕ, ◌+◌, ◌≤◌, ◌≡◌, refl, false, if◌then◌else◌, ◌==◌, List, [], ◌∷◌, none, arith}
use salticidae.FreeList.{
  ends, outside, releasing, restoring, loading, at, act, after, seen_top, State, goes_on,
  calls_push, calls_pop, Run, stays, then_step,
}
use salticidae.FreeList.Places.{count, Linked}
use salticidae.FreeList.Ownership.{owners, IsStart, Run-owns, Run-keeps}

-- The first thread owns the nodes 0 and 1.
abbrev start : State
start = record {
  memory = record {
    top = none;
    next = λ u. none;
    refcnt = λ u. if u == 0 then 1 else if u == 1 then 1 else 0;
  };
  threads = at outside (0 ∷ 1 ∷ []) ∷ at outside [] ∷ [];
}

start-IsStart : IsStart start
start-IsStart = record {
  none_free = refl;
  no_calls = (refl, (refl, tt));
  counts = λ u. grind arith;
  distinct = λ u. grind arith;
}

-- Each thread's next access.
abbrev first : State → State
first s = elim s.threads [
  | [] ↦ s
  | t ∷ ts ↦ record {
    memory = (act false t.point t.owned s.memory).1;
    threads = (act false t.point t.owned s.memory).0 ∷ ts;
  }
]

abbrev second : State → State
second s = elim s.threads [
  | [] ↦ s
  | r ∷ ts ↦ elim ts [
    | [] ↦ s
    | t ∷ us ↦ record {
      memory = (act false t.point t.owned s.memory).1;
      threads = r ∷ (act false t.point t.owned s.memory).0 ∷ us;
    }
  ]
]

abbrev in_push : State
in_push = record start { threads = at (releasing 0 ends) (1 ∷ []) ∷ at outside [] ∷ [] }

-- The first thread has put the node 0 on top, and its `refcnt` is still 0.
abbrev on_top : State
on_top = first (first (first (first in_push)))

on_top-Run : Run start on_top
unfolding act after seen_top
on_top-Run =
    then_step _ _ _
      (then_step _ _ _
        (then_step _ _ _
          (then_step _ _ _
            (then_step _ _ _ (stays _) (calls_push [] (at outside [] ∷ []) 0 (1 ∷ []) _))
            (goes_on false [] (at outside [] ∷ []) _ _))
          (goes_on false [] (at outside [] ∷ []) _ _))
        (goes_on false [] (at outside [] ∷ []) _ _))
      (goes_on false [] (at outside [] ∷ []) _ _)

Run-owns_example :
    (chain : List ℕ) × Linked on_top.memory.next on_top.memory.top chain
    × ((u : ℕ) → count u chain + owners u on_top.threads ≤ 1)
Run-owns_example = Run-owns start on_top start-IsStart on_top-Run

-- The second thread sees the node and waits for its `refcnt`, then takes it.
abbrev popping : State
popping = record {
  memory = on_top.memory;
  threads = at (restoring 0 ends) (1 ∷ []) ∷ at loading [] ∷ [];
}

abbrev ended : State
ended = second (second (second (second (second (first (second popping))))))

ended-Run : Run start ended
unfolding act after seen_top
ended-Run =
    then_step _ _ _
      (then_step _ _ _
        (then_step _ _ _
          (then_step _ _ _
            (then_step _ _ _
              (then_step _ _ _
                (then_step _ _ _
                  (then_step _ _ _ on_top-Run
                    (calls_pop (at (restoring 0 ends) (1 ∷ []) ∷ []) [] [] _))
                  (goes_on false (at (restoring 0 ends) (1 ∷ []) ∷ []) [] _ _))
                (goes_on false [] _ _ _))
              (goes_on false (at outside (1 ∷ []) ∷ []) [] _ _))
            (goes_on false (at outside (1 ∷ []) ∷ []) [] _ _))
          (goes_on false (at outside (1 ∷ []) ∷ []) [] _ _))
        (goes_on false (at outside (1 ∷ []) ∷ []) [] _ _))
      (goes_on false (at outside (1 ∷ []) ∷ []) [] _ _)

Run-keeps_example :
    (chain : List ℕ) × Linked ended.memory.next ended.memory.top chain
    × (count 0 chain + owners 0 ended.threads ≡ 1)
    × (ended.memory.refcnt 0 ≡ 1)
unfolding act after seen_top
Run-keeps_example = Run-keeps start ended 0 start-IsStart ended-Run (refl, (refl, tt)) refl

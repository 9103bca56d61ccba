-- ===== src/FreeList/Ownership.antt =====
-- A node has one place at a time, and none is lost.
use salticidae.Base.{ℕ, ◌+◌, ◌≤◌, ◌≡◌, refl, sym, List, [], ◌∷◌, ◌++◌, Option, none, ◌==◌, arith}
use salticidae.Bytes.{All}
use salticidae.FreeList.{
  Memory, ends, outside, releasing, loading, Thread, at, State, Step, goes_on, calls_push,
  calls_pop, Run, stays, then_step,
}
use salticidae.FreeList.Places.{
  count, held, mine, pushes, restores, Agrees, total, Fine, Linked, given_up,
}
use salticidae.FreeList.Around.{Around, moved}
use salticidae.FreeList.Accesses.{act-Keeps}

total-at :
    (f : Thread → ℕ) (before later : List Thread) (t : Thread)
    → total f (before ++ (t ∷ later)) ≡ f t + total f (before ++ later)
total-at f [] later t = refl
total-at f (s ∷ before) later t = omega (arith, total-at f before later t)

All-at {κ} :
    (P : Thread → Type κ) (before later : List Thread) (t : Thread)
    → All P (before ++ (t ∷ later))
    → P t × All P (before ++ later)
All-at P [] later t a = a
All-at P (s ∷ before) later t a = let (b, c) = All-at P before later t a.1 in (b, (a.0, c))

at-All {κ} :
    (P : Thread → Type κ) (before later : List Thread) (t : Thread)
    → P t
    → All P (before ++ later)
    → All P (before ++ (t ∷ later))
at-All P [] later t p a = (p, a)
at-All P (s ∷ before) later t p a = (a.0, at-All P before later t p a.1)

Fine-sums :
    (e r c h h' o o' p p' w w' : ℕ)
    → h ≡ h'
    → o ≡ o'
    → p ≡ p'
    → w ≡ w'
    → Fine e r h c o p w
    → Fine e r h' c o' p' w'
Fine-sums e r c h h' o o' p p' w w' eh eo ep ew f = grind arith

record Inv (exists : ℕ → ℕ) (s : State) : Type 0 where
  chain : List ℕ
  linked : Linked s.memory.next s.memory.top chain
  fine :
      (u : ℕ)
      → Fine
          (exists u)
          (s.memory.refcnt u)
          (total (held u) s.threads)
          (count u chain)
          (total (mine u) s.threads)
          (total (pushes u) s.threads)
          (total (restores u) s.threads)
  agree : All (Agrees s.memory.next) s.threads

module _ (exists : ℕ → ℕ) (m : Memory) (before later : List Thread) (t : Thread) where
  abbrev whole : State
  whole = record { memory = m; threads = before ++ (t ∷ later) }

  around : Inv exists whole → Around exists m t (before ++ later)
  around i =
      let (own, rest) = All-at (Agrees m.next) before later t i.agree in
      record {
        chain = i.chain;
        linked = i.linked;
        fine = λ u.
            Fine-sums _ _ _ _ _ _ _ _ _ _ _ (total-at (held u) before later t)
              (total-at (mine u) before later t) (total-at (pushes u) before later t)
              (total-at (restores u) before later t) (i.fine u);
        agrees = own;
        others_agree = rest;
      }

  back : Around exists m t (before ++ later) → Inv exists whole
  back i = record {
    chain = i.chain;
    linked = i.linked;
    fine = λ u.
        Fine-sums _ _ _ _ _ _ _ _ _ _ _ (sym (total-at (held u) before later t))
          (sym (total-at (mine u) before later t)) (sym (total-at (pushes u) before later t))
          (sym (total-at (restores u) before later t)) (i.fine u);
    agree = at-All (Agrees m.next) before later t i.agrees i.others_agree;
  }

Step-Inv : (exists : ℕ → ℕ) (s t : State) → Step s t → Inv exists s → Inv exists t
Step-Inv exists s t (goes_on fails before later th m) i = back exists _ before later _ (
    act-Keeps exists (before ++ later) th.owned m th.point fails
      (around exists m before later th i))
Step-Inv exists s t (calls_push before later u owned m) i =
    let a = around exists m before later _ i in
    back exists m before later _ (
      moved a (at (releasing u ends) owned)
        (λ v.
          given_up (exists v) (v == u) (m.refcnt v) (total (held v) (before ++ later))
            (count v a.chain) 0 (total (pushes v) (before ++ later))
            (total (restores v) (before ++ later)) 0 (count v owned)
            (total (mine v) (before ++ later)) (a.fine v))
        tt)
Step-Inv exists s t (calls_pop before later owned m) i =
    let a = around exists m before later _ i in
    back exists m before later _ (moved a (at loading owned) a.fine tt)

Run-Inv : (exists : ℕ → ℕ) (s t : State) → Run s t → Inv exists s → Inv exists t
Run-Inv exists s t (stays _) i = i
Run-Inv exists s u (then_step _ t _ r k) i = Step-Inv exists t u k (Run-Inv exists s t r i)

-- How many threads own a node.
abbrev pub owners : ℕ → List Thread → ℕ
owners u [] = 0
owners u (t ∷ ts) = count u t.owned + owners u ts

abbrev pub IsOutside : Thread → Type 0
IsOutside t = t.point ≡ outside

-- The list is empty, no thread is in a call, each node has one owner, and its `refcnt` is 1.
pub record IsStart (s : State) : Type 0 where
  pub none_free : s.memory.top ≡ none
  pub no_calls : All IsOutside s.threads
  pub counts : (u : ℕ) → s.memory.refcnt u ≡ owners u s.threads
  pub distinct : (u : ℕ) → owners u s.threads ≤ 1

-- Outside of all calls nothing is held or under way.
record Idle (u : ℕ) (ts : List Thread) : Type 0 where
  none_held : total (held u) ts ≡ 0
  none_pushing : total (pushes u) ts ≡ 0
  none_waiting : total (restores u) ts ≡ 0
  owned : total (mine u) ts ≡ owners u ts

outside-Idle : (u : ℕ) (ts : List Thread) → All IsOutside ts → Idle u ts
outside-Idle u [] a = record {
  none_held = refl;
  none_pushing = refl;
  none_waiting = refl;
  owned = refl;
}
outside-Idle u (t ∷ ts) (e, a) =
    let i = outside-Idle u ts a in
    rw e (record {
      none_held = omega (arith, i.none_held);
      none_pushing = omega (arith, i.none_pushing);
      none_waiting = omega (arith, i.none_waiting);
      owned = omega (arith, i.owned);
    })

outside-Agrees : (next : ℕ → Option ℕ) (ts : List Thread) → All IsOutside ts → All (Agrees next) ts
outside-Agrees next [] a = tt
outside-Agrees next (t ∷ ts) (e, a) = (rw e tt, outside-Agrees next ts a)

start-Inv : (s : State) → IsStart s → Inv (λ u. owners u s.threads) s
start-Inv s b = record {
  chain = [];
  linked = b.none_free;
  fine = λ u.
      let i = outside-Idle u s.threads b.no_calls in
      Fine-sums _ _ _ _ _ _ _ _ _ _ _ (sym i.none_held) (sym i.owned) (sym i.none_pushing)
        (sym i.none_waiting)
        (first (owners u s.threads) (s.memory.refcnt u) (b.counts u) (b.distinct u));
  agree = outside-Agrees s.memory.next s.threads b.no_calls;
}
  where
    first : (n r : ℕ) → r ≡ n → n ≤ 1 → Fine n r 0 0 n 0 0
    first n r e h = grind arith

owners-le : (u : ℕ) (ts : List Thread) → owners u ts ≤ total (mine u) ts
owners-le u [] = omega arith
owners-le u (t ∷ ts) = omega (arith, owners-le u ts)

-- At first the list is empty, no thread is in a call, and each node has one owner and a `refcnt` of 1. Threads push
-- the nodes that they own and pop nodes, one atomic access after another in any order, where a weak exchange may fail
-- without a reason. Then the nodes that are linked from `top` on end with a null pointer, and no node is there twice,
-- or owned by two threads, or there and owned at once.
pub Run-owns :
    (s t : State)
    → IsStart s
    → Run s t
    → (chain : List ℕ) × Linked t.memory.next t.memory.top chain
      × ((u : ℕ) → count u chain + owners u t.threads ≤ 1)
Run-owns s t b r =
    let i = Run-Inv _ s t r (start-Inv s b) in
    (i.chain, i.linked, λ u. grind (arith, i.fine u, owners-le u t.threads))

-- At first the list is empty, no thread is in a call, and each node has one owner and a `refcnt` of 1. Threads push
-- and pop nodes in any interleaving. When all of them have come out of their calls, each node of the start is in the
-- list or has an owner, and its `refcnt` is 1 again: the races of `push` and `pop` lose no node.
pub Run-keeps :
    (s t : State) (u : ℕ)
    → IsStart s
    → Run s t
    → All IsOutside t.threads
    → owners u s.threads ≡ 1
    → (chain : List ℕ) × Linked t.memory.next t.memory.top chain
      × (count u chain + owners u t.threads ≡ 1)
      × (t.memory.refcnt u ≡ 1)
Run-keeps s t u b r quiet known =
    let i = Run-Inv _ s t r (start-Inv s b) in
    let d = outside-Idle u t.threads quiet in
    let (all, one) =
      settled _ _ _ _ _ _ _ d.none_held d.none_pushing d.none_waiting d.owned known (i.fine u) in
    (i.chain, i.linked, all, one)
  where
    settled :
        (e n h c o p w : ℕ)
        → h ≡ 0
        → p ≡ 0
        → w ≡ 0
        → o ≡ owners u t.threads
        → e ≡ 1
        → Fine e n h c o p w
        → (c + owners u t.threads ≡ 1) × (n ≡ 1)
    settled e n h c o p w eh ep ew eo ee f = grind arith

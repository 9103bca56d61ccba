-- ===== src/Queue/Refine.antt =====
-- A queue of blocks refines a list: an enqueue adds at the end, a dequeue takes from the front, a
-- rewind puts back at the front.
pub mod Blocks
pub mod Passing
use native.Mathlib.Decide.{dec_lt, ℕ_discrete}
use salticidae.Base.{
  ℕ, zero, suc, ◌+◌, ◌-◌, ◌≤◌, ◌<◌, ◌≡◌, ◌≢◌, refl, sym, ap, ◌∙◌, subst, ◌⊎◌, inl, inr, Bool, true,
  false, List, [], ◌∷◌, ◌++◌, map, Option, none, some, length, replicate, set, get_elem?, arith,
  ltb, ltb-false, ltb-false→le, if-cases, lt→ltb, if◌then◌else◌, ◌==◌, ==_iff, ==-false,
  append_assoc, append-nil, length-append, max, ◌/◌, Bool-cases,
}
use salticidae.Bytes.{All}
use salticidae.Queue.{
  Block, Queue, Dequeued, nothing, got, spins, new_block, create, push_new, set_capacity, linked,
  put, extend, keep, enqueue_blocks, enqueued, enqueue, take_cell, dequeue_blocks, try_dequeue,
  at_end, put_front, with_room, fill_front, rewind_blocks, rewind,
}
use Blocks.{
  BlockHolds, IsBlank, new_block-IsBlank, new_block-BlockHolds, linked-BlockHolds,
  at_end-BlockHolds, put-BlockHolds, put_front-BlockHolds, first_cell, drained-IsBlank,
}
use Passing.{Frees, take_cell-Frees, behind-Frees}

module _ (A : Type 0) (size : ℕ) where
  -- Every block but the last is filled to its end.
  abbrev pub BlocksHold : List (Block A) → List A → Type 0
  BlocksHold [] vs = ⊥
  BlocksHold (b ∷ []) vs = BlockHolds A size b vs
  BlocksHold (b ∷ c ∷ bs) vs =
      (us : List A) × (ws : List A) × (vs ≡ us ++ ws)
      × BlockHolds A size b us
      × (b.tail ≡ size)
      × BlocksHold (c ∷ bs) ws

  -- The queue holds `vs`, oldest first, and its free blocks are blank.
  abbrev pub Holds : Queue A → List A → Type 0
  Holds q vs = BlocksHold q.blocks vs × All (IsBlank A size) q.free

  -- A queue just made holds nothing.
  pub create-Holds : Holds (create A size) []
  unfolding create
  create-Holds = (new_block-BlockHolds A size, tt)

  -- The last block is full and there is no free one.
  abbrev pub IsFull : List (Block A) → List (Block A) → Type 0
  IsFull [] free = ⊥
  IsFull (t ∷ []) free = (t.tail ≡ size) × (free ≡ [])
  IsFull (b ∷ c ∷ bs) free = IsFull (c ∷ bs) free

  -- What an enqueue makes of the blocks: the list `vs`, or a refusal that is due.
  abbrev Enqueued :
      List A
      → Bool
      → List (Block A)
      → List (Block A)
      → Option (List (Block A) × List (Block A))
      → Type 0
  Enqueued vs unbounded bs free none = (unbounded ≡ false) × IsFull bs free
  Enqueued vs unbounded bs free (some (cs, left)) = BlocksHold cs vs × All (IsBlank A size) left

  extend_lem :
      (e : A) (unbounded : Bool) (t : Block A) (free : List (Block A)) (vs : List A)
      → 0 < size
      → BlockHolds A size t vs
      → t.tail ≡ size
      → All (IsBlank A size) free
      → Enqueued (vs ++ (e ∷ [])) unbounded (t ∷ []) free (extend size e unbounded t free)
  unfolding extend
  extend_lem e unbounded t (f ∷ free) vs pos h full blank = (
    (
      vs,
      e ∷ [],
      refl,
      h,
      full,
      put-BlockHolds A size (linked size f) [] e (linked-BlockHolds A size f blank.0) pos,
    ),
    blank.1,
  )
  extend_lem e true t [] vs pos h full blank = (
    (
      vs,
      e ∷ [],
      refl,
      h,
      full,
      put-BlockHolds A size _ [] e
          (linked-BlockHolds A size (new_block A size) (new_block-IsBlank A size)) pos,
    ),
    tt,
  )
  extend_lem e false t [] vs pos h full blank = (refl, (full, refl))

  enqueue_blocks_lem :
      (e : A) (unbounded : Bool) (bs free : List (Block A)) (vs : List A)
      → 0 < size
      → BlocksHold bs vs
      → All (IsBlank A size) free
      → Enqueued (vs ++ (e ∷ [])) unbounded bs free (enqueue_blocks size e unbounded bs free)
  unfolding enqueue_blocks
  enqueue_blocks_lem e unbounded [] free vs pos h blank = absurd h
  enqueue_blocks_lem e unbounded (t ∷ []) free vs pos h blank = elim (dec_lt t.tail size) [
    | yes room ↦ rw (lt→ltb _ _ room) (put-BlockHolds A size t vs e h room, blank)
    | no full ↦
        rw (ltb-false t.tail size (omega arith))
          (extend_lem e unbounded t free vs pos h (omega (arith, h.bounded)) blank)
  ]
  enqueue_blocks_lem e unbounded (b ∷ c ∷ bs) free vs pos (us, ws, split, hb, full, hs) blank =
      kept (enqueue_blocks size e unbounded (c ∷ bs) free)
        (enqueue_blocks_lem e unbounded (c ∷ bs) free ws pos hs blank)
    where
      kept :
          (o : Option (List (Block A) × List (Block A)))
          → Enqueued (ws ++ (e ∷ [])) unbounded (c ∷ bs) free o
          → Enqueued (vs ++ (e ∷ [])) unbounded (b ∷ c ∷ bs) free (keep size b o)
      kept none k = k
      kept (some ([], left)) k = absurd k.0
      kept (some (d ∷ ds, left)) k = (
        (
          us,
          ws ++ (e ∷ []),
          ap (λ l. l ++ (e ∷ [])) split ∙ append_assoc us ws (e ∷ []),
          hb,
          full,
          k.0,
        ),
        k.1,
      )

  -- An enqueue adds its element at the end. It is refused only if it is bounded, the last block is
  -- full and the free list empty.
  pub enqueue_lem :
      (e : A) (unbounded : Bool) (q : Queue A) (vs : List A)
      → 0 < size
      → Holds q vs
      → ((r : Queue A) × (enqueue size e unbounded q ≡ some r) × Holds r (vs ++ (e ∷ [])))
        ⊎ ((enqueue size e unbounded q ≡ none) × (unbounded ≡ false) × IsFull q.blocks q.free)
  unfolding enqueue
  enqueue_lem e unbounded q vs pos h =
      result (enqueue_blocks size e unbounded q.blocks q.free)
        (enqueue_blocks_lem e unbounded q.blocks q.free vs pos h.0 h.1)
    where
      result :
          (o : Option (List (Block A) × List (Block A)))
          → Enqueued (vs ++ (e ∷ [])) unbounded q.blocks q.free o
          → ((r : Queue A) × (enqueued size o ≡ some r) × Holds r (vs ++ (e ∷ [])))
            ⊎ ((enqueued size o ≡ none) × (unbounded ≡ false) × IsFull q.blocks q.free)
      result none k = inr (refl, k.0, k.1)
      result (some (bs, free)) k = inl (record { blocks = bs; free = free }, refl, k)

  -- What a dequeue makes of blocks that hold `vs`.
  abbrev pub Takes : List A → Dequeued A → Type 0
  Takes [] (nothing q) = Holds q []
  Takes (v ∷ vs) (got x q) = (x ≡ v) × Holds q vs
  Takes _ _ = ⊥

  take_cell_lem :
      (h : Block A) (bs free : List (Block A)) (v : A) (vs : List A)
      → get_elem? h.cells h.head ≡ some (some v)
      → BlocksHold (record h { head = h.head + 1; cells = set h.cells h.head none } ∷ bs) vs
      → All (IsBlank A size) free
      → Takes (v ∷ vs) (take_cell size h bs free (get_elem? h.cells h.head))
  unfolding take_cell
  take_cell_lem h bs free v vs e k blank = rw e (refl, (k, blank))

  dequeue_blocks_lem :
      (bs free : List (Block A)) (vs : List A)
      → BlocksHold bs vs
      → All (IsBlank A size) free
      → Takes vs (dequeue_blocks size bs free)
  unfolding dequeue_blocks
  dequeue_blocks_lem [] free vs h blank = absurd h
  dequeue_blocks_lem (h ∷ []) free [] k blank =
      rw (ltb-false h.head h.tail (omega (arith, k.ends))) (k, blank)
  dequeue_blocks_lem (h ∷ []) free (v ∷ vs) k blank =
      let (cell, rest) = first_cell A size h v vs k in
      rw (lt→ltb h.head h.tail (omega (arith, k.ends)))
        (take_cell_lem h [] free v vs cell rest blank)
  dequeue_blocks_lem (h ∷ c ∷ bs) free vs (v ∷ us, ws, split, k, full, ks) blank =
      let (cell, rest) = first_cell A size h v us k in
      rw (lt→ltb h.head h.tail (omega (arith, k.ends)), split)
        (take_cell_lem h (c ∷ bs) free v (us ++ ws) cell (us, ws, refl, rest, full, ks) blank)
  dequeue_blocks_lem (h ∷ c ∷ bs) free vs ([], ws, split, k, full, ks) blank =
      rw
        (
          ltb-false h.head h.tail (omega (arith, k.ends)),
          ltb-false h.tail size (omega arith),
          split,
        )
        (dequeue_blocks_lem (c ∷ bs) (h ∷ free) ws ks (drained-IsBlank A size h k full, blank))

  pub try_dequeue-Takes : (q : Queue A) (vs : List A) → Holds q vs → Takes vs (try_dequeue size q)
  unfolding try_dequeue
  try_dequeue-Takes q vs h = dequeue_blocks_lem q.blocks q.free vs h.0 h.1

  dequeue_blocks-Frees :
      (bs free : List (Block A)) (vs : List A)
      → BlocksHold bs vs
      → Frees A size bs free (dequeue_blocks size bs free)
  unfolding dequeue_blocks
  dequeue_blocks-Frees [] free vs h = absurd h
  dequeue_blocks-Frees (h ∷ []) free vs k =
      if-cases (Frees A size (h ∷ []) free) (ltb h.head h.tail) _ _
        (λ y. take_cell-Frees A size h [] free _) (λ n. ([], h, h, [], refl, tt, refl, refl, refl))
  dequeue_blocks-Frees (h ∷ c ∷ bs) free vs (us, ws, split, k, full, ks) =
      if-cases (Frees A size (h ∷ c ∷ bs) free) (ltb h.head h.tail) _ _
        (λ y. take_cell-Frees A size h (c ∷ bs) free _)
        (λ n.
          if-cases (Frees A size (h ∷ c ∷ bs) free) (ltb h.tail size) _ _
            (λ y. ([], h, h, c ∷ bs, refl, tt, refl, refl, refl))
            (λ m.
              behind-Frees A size h (c ∷ bs) free _
                (omega (arith, full, k.ends, ltb-false→le h.head h.tail n), full)
                (dequeue_blocks-Frees (c ∷ bs) (h ∷ free) ws ks)))

  -- A dequeue takes the oldest element, or returns false exactly when there is none, and never waits
  -- for a cell. The blocks that it passes, all of them drained, go to the free list one after another, blank; the
  -- blocks behind the one that it stops at stay as they are.
  pub try_dequeue_lem :
      (q : Queue A) (vs : List A)
      → Holds q vs
      → Takes vs (try_dequeue size q) × Frees A size q.blocks q.free (try_dequeue size q)
  unfolding try_dequeue
  try_dequeue_lem q vs h = (try_dequeue-Takes q vs h, dequeue_blocks-Frees q.blocks q.free vs h.0)

  fill_front_lem :
      (e : A) (q : Queue A) (h : Block A) (bs : List (Block A)) (vs : List A)
      → BlocksHold (h ∷ bs) vs
      → 0 < h.head
      → All (IsBlank A size) q.free
      → Holds (fill_front size e q (h ∷ bs)) (e ∷ vs)
  unfolding fill_front
  fill_front_lem e q h [] vs k room blank = (put_front-BlockHolds A size h vs e k room, blank)
  fill_front_lem e q h (c ∷ bs) vs (us, ws, split, k, full, ks) room blank =
      ((e ∷ us, ws, ap (◌∷◌ e) split, put_front-BlockHolds A size h us e k room, full, ks), blank)

  rewind_blocks_lem :
      (e : A) (q : Queue A) (bs : List (Block A)) (vs : List A)
      → 0 < size
      → q.blocks ≡ bs
      → BlocksHold bs vs
      → All (IsBlank A size) q.free
      → Holds (rewind_blocks size e q bs) (e ∷ vs)
  unfolding rewind_blocks
  rewind_blocks_lem e q [] vs pos at k blank = absurd k
  rewind_blocks_lem e q (h ∷ bs) vs pos at k blank = elim (ℕ_discrete h.head 0) [
    | yes z ↦ rw ((==_iff h.head 0).1 z) (fresh q.free blank)
    | no nz ↦ rw (==-false h.head 0 nz) (rw at (fill_front_lem e q h bs vs k (omega arith) blank))
  ]
    where
      fresh :
          (free : List (Block A))
          → All (IsBlank A size) free
          → Holds
              (fill_front size e (with_room size h bs free) (with_room size h bs free).blocks)
              (e ∷ vs)
      fresh [] b = (
        (
          e ∷ [],
          vs,
          refl,
          put_front-BlockHolds A size (at_end size (new_block A size)) [] e
              (at_end-BlockHolds A size (new_block A size) (new_block-IsBlank A size)) pos,
          refl,
          k,
        ),
        tt,
      )
      fresh (f ∷ free) b = (
        (
          e ∷ [],
          vs,
          refl,
          put_front-BlockHolds A size (at_end size f) [] e (at_end-BlockHolds A size f b.0) pos,
          refl,
          k,
        ),
        b.1,
      )

  -- A rewind puts its element back at the front.
  pub rewind_lem :
      (e : A) (q : Queue A) (vs : List A) → 0 < size → Holds q vs → Holds (rewind size e q) (e ∷ vs)
  unfolding rewind
  rewind_lem e q vs pos h = rewind_blocks_lem e q q.blocks vs pos refl h.0 h.1

  -- Reserving capacity adds blank blocks, at least one.
  pub set_capacity-Holds :
      (capacity : ℕ) (q : Queue A) (vs : List A)
      → Holds q vs
      → Holds (set_capacity A size capacity q) vs × ((set_capacity A size capacity q).free ≢ [])
  unfolding set_capacity
  set_capacity-Holds capacity q vs h =
      ((h.0, blank (max (capacity / size) 1)), some_free (max (capacity / size) 1) (omega arith))
    where
      blank : (k : ℕ) → All (IsBlank A size) (push_new A size k q.free)
      blank zero = h.1
      blank (suc k) = (new_block-IsBlank A size, blank k)

      some_free : (k : ℕ) → 0 < k → push_new A size k q.free ≢ []
      some_free zero k = absurd (omega arith)
      some_free (suc k) pos = λ e. cc

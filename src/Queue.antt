-- ===== src/Queue.antt =====
-- The class MPSCQueue of include/salticidae/queue.h with what it inherits from MPMCQueue, as its
-- calls run one after another: the blocks from `head` to `tail` along `next`, and the blocks of the
-- free list. A cell holds an element where `avail` is set. Between two calls each block's `refcnt`
-- is 1, so the counts and the retries after a lost race are left out. The theorems ask that
-- MPMCQ_SIZE, a parameter here so that small queues can be run, is not 0.
pub mod Refine
use salticidae.Base.{
  ℕ, zero, suc, ◌+◌, ◌-◌, ◌/◌, max, Bool, true, false, List, [], ◌∷◌, Option, none, some, replicate,
  set, get_elem?, ltb, ◌==◌, if◌then◌else◌,
}

-- MPMCQ_SIZE
abbrev pub mpmcq_size : ℕ
mpmcq_size = 4096

pub record Block (A : Type 0) : Type 0 where
  pub head : ℕ
  pub tail : ℕ
  pub cells : List (Option A)

-- The first block of the list is `head`, the last is `tail`.
pub record Queue (A : Type 0) : Type 0 where
  pub blocks : List (Block A)
  pub free : List (Block A)

-- What `try_dequeue` does: it returns false, or true with an element, or waits for a cell that no
-- enqueue will fill.
pub data Dequeued (A : Type 0) : Type 0 where
  nothing : Queue A → Dequeued A
  got : A → Queue A → Dequeued A
  spins : Dequeued A

module _ (A : Type 0) (size : ℕ) where
  -- `new Block()`: no cell is available. The positions have no value until they are set.
  pub new_block : Block A
  new_block = record { head = 0; tail = 0; cells = replicate size none }

  -- The constructor of MPMCQueue.
  pub create : Queue A
  unfolding new_block
  create = record { blocks = new_block ∷ []; free = [] }

  push_new : ℕ → List (Block A) → List (Block A)
  unfolding new_block
  push_new zero free = free
  push_new (suc k) free = new_block ∷ push_new k free

  pub set_capacity : ℕ → Queue A → Queue A
  unfolding push_new
  set_capacity capacity q = record q { free = push_new (max (capacity / size) 1) q.free }

module _ {A : Type 0} (size : ℕ) where
  -- A block is linked behind the last one with its positions reset.
  pub linked : Block A → Block A
  linked b = record b { head = 0; tail = 0 }

  pub put : A → Block A → Block A
  put e b = record b { cells = set b.cells b.tail (some e); tail = b.tail + 1 }

  -- The last block is full: one from the free list, or a new one, takes its place.
  extend : A → Bool → Block A → List (Block A) → Option (List (Block A) × List (Block A))
  unfolding linked put new_block
  extend e unbounded t (f ∷ free) = some (t ∷ put e (linked f) ∷ [], free)
  extend e true t [] = some (t ∷ put e (linked (new_block A size)) ∷ [], [])
  extend e false t [] = none

  keep :
      Block A → Option (List (Block A) × List (Block A)) → Option (List (Block A) × List (Block A))
  keep b none = none
  keep b (some (bs, free)) = some (b ∷ bs, free)

  enqueue_blocks :
      A → Bool → List (Block A) → List (Block A) → Option (List (Block A) × List (Block A))
  unfolding extend put keep
  enqueue_blocks e unbounded [] free = none
  enqueue_blocks e unbounded (t ∷ []) free =
      if ltb t.tail size then some (put e t ∷ [], free) else extend e unbounded t free
  enqueue_blocks e unbounded (b ∷ c ∷ bs) free = keep b (enqueue_blocks e unbounded (c ∷ bs) free)

  enqueued : Option (List (Block A) × List (Block A)) → Option (Queue A)
  enqueued none = none
  enqueued (some (bs, free)) = some (record { blocks = bs; free = free })

  -- `_enqueue`; `none` stands for its result false.
  pub enqueue : A → Bool → Queue A → Option (Queue A)
  unfolding enqueue_blocks enqueued
  enqueue e unbounded q = enqueued (enqueue_blocks e unbounded q.blocks q.free)

  pub take_cell : Block A → List (Block A) → List (Block A) → Option (Option A) → Dequeued A
  take_cell h bs free (some (some e)) = got e (record {
    blocks = record h { head = h.head + 1; cells = set h.cells h.head none } ∷ bs;
    free = free;
  })
  take_cell h bs free (some none) = spins
  take_cell h bs free none = spins

  dequeue_blocks : List (Block A) → List (Block A) → Dequeued A
  unfolding take_cell
  dequeue_blocks [] free = nothing (record { blocks = []; free = free })
  dequeue_blocks (h ∷ []) free =
      if ltb h.head h.tail
      then take_cell h [] free (get_elem? h.cells h.head)
      else nothing (record { blocks = h ∷ []; free = free })
  dequeue_blocks (h ∷ c ∷ bs) free =
      let next = dequeue_blocks (c ∷ bs) (h ∷ free) in
      if ltb h.head h.tail
      then take_cell h (c ∷ bs) free (get_elem? h.cells h.head)
      else if ltb h.tail size
      then nothing (record { blocks = h ∷ c ∷ bs; free = free })
      else next

  -- MPSCQueue::try_dequeue
  pub try_dequeue : Queue A → Dequeued A
  unfolding dequeue_blocks
  try_dequeue q = dequeue_blocks q.blocks q.free

  -- A block from the free list, or a new one, whose positions are at its end.
  pub at_end : Block A → Block A
  at_end b = record b { head = size; tail = size }

  pub put_front : A → Block A → Block A
  put_front e h = record h { cells = set h.cells (h.head - 1) (some e); head = h.head - 1 }

  with_room : Block A → List (Block A) → List (Block A) → Queue A
  unfolding at_end new_block
  with_room h bs [] = record { blocks = at_end (new_block A size) ∷ h ∷ bs; free = [] }
  with_room h bs (f ∷ free) = record { blocks = at_end f ∷ h ∷ bs; free = free }

  fill_front : A → Queue A → List (Block A) → Queue A
  unfolding put_front
  fill_front e q [] = q
  fill_front e q (h ∷ bs) = record q { blocks = put_front e h ∷ bs }

  rewind_blocks : A → Queue A → List (Block A) → Queue A
  unfolding with_room fill_front
  rewind_blocks e q [] = q
  rewind_blocks e q (h ∷ bs) =
      let roomy = if h.head == 0 then with_room h bs q.free else q in
      fill_front e roomy roomy.blocks

  -- MPSCQueue::rewind, which puts an element back at the front.
  pub rewind : A → Queue A → Queue A
  unfolding rewind_blocks
  rewind e q = rewind_blocks e q q.blocks

-- ===== src/Queue/Refine/Passing.antt =====
-- The blocks that a dequeue passes, and the free list that it leaves.
use salticidae.Base.{ℕ, ◌≡◌, refl, ap, List, [], ◌∷◌, ◌++◌, Option, none, some}
use salticidae.Bytes.{All}
use salticidae.Queue.{Block, Queue, Dequeued, nothing, got, spins, take_cell}

module _ (A : Type 0) (size : ℕ) where
  -- Blocks go to the free list one after another.
  abbrev pub freed : List (Block A) → List (Block A) → List (Block A)
  freed [] free = free
  freed (b ∷ bs) free = freed bs (b ∷ free)

  -- All its cells have been taken.
  abbrev pub IsDrained : Block A → Type 0
  IsDrained b = (b.head ≡ size) × (b.tail ≡ size)

  -- The blocks before the one that is first in `q` were drained and are in its free list; those behind that one
  -- are as they were.
  abbrev pub Passes : List (Block A) → List (Block A) → Queue A → Type 0
  Passes bs free q =
      (passed : List (Block A)) × (h : Block A) × (k : Block A) × (rest : List (Block A)) × (bs
        ≡ passed ++ (h ∷ rest))
      × All IsDrained passed
      × (q.blocks ≡ k ∷ rest)
      × (k.tail ≡ h.tail)
      × (q.free ≡ freed passed free)

  abbrev pub Frees : List (Block A) → List (Block A) → Dequeued A → Type 0
  Frees bs free (nothing q) = Passes bs free q
  Frees bs free (got x q) = Passes bs free q
  Frees bs free spins = Unit

  pub take_cell-Frees :
      (h : Block A) (bs free : List (Block A)) (cell : Option (Option A))
      → Frees (h ∷ bs) free (take_cell size h bs free cell)
  unfolding take_cell
  take_cell-Frees h bs free (some (some e)) = ([], h, _, bs, refl, tt, refl, refl, refl)
  take_cell-Frees h bs free (some none) = tt
  take_cell-Frees h bs free none = tt

  pub behind-Frees :
      (h : Block A) (bs free : List (Block A)) (d : Dequeued A)
      → IsDrained h
      → Frees bs (h ∷ free) d
      → Frees (h ∷ bs) free d
  behind-Frees h bs free (nothing q) e (passed, b, k, rest, s, all, l, t, f) =
      (h ∷ passed, b, k, rest, ap (◌∷◌ h) s, (e, all), l, t, f)
  behind-Frees h bs free (got x q) e (passed, b, k, rest, s, all, l, t, f) =
      (h ∷ passed, b, k, rest, ap (◌∷◌ h) s, (e, all), l, t, f)
  behind-Frees h bs free spins e f = tt

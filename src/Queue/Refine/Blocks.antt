-- ===== src/Queue/Refine/Blocks.antt =====
-- One block as the list of elements between its positions.
use mathlib.Core.List.{map-append}
use salticidae.Base.{
  ℕ, suc, ◌+◌, ◌-◌, ◌≤◌, ◌<◌, ◌≡◌, refl, sym, ap, ◌∙◌, List, [], ◌∷◌, ◌++◌, map, Option, none, some,
  length, replicate, set, get_elem?, arith, set_middle, get_middle, replicate-append_cons,
  replicate-append, length-replicate, length-append, append_assoc,
}
use salticidae.Queue.{Block, new_block, linked, put, at_end, put_front}

module _ (A : Type 0) (size : ℕ) where
  -- The cells from `head` to `tail` hold `vs`, and no other cell is available.
  pub record BlockHolds (b : Block A) (vs : List A) : Type 0 where
    pub ends : b.head + length vs ≡ b.tail
    pub bounded : b.tail ≤ size
    pub shape : b.cells ≡ replicate b.head none ++ (map some vs ++ replicate (size - b.tail) none)

  abbrev pub IsBlank : Block A → Type 0
  IsBlank b = b.cells ≡ replicate size none

  length-map-some : (vs : List A) → length (map {B = Option A} some vs) ≡ length vs
  length-map-some [] = refl
  length-map-some (v ∷ vs) = ap suc (length-map-some vs)

  pub new_block-IsBlank : IsBlank (new_block A size)
  unfolding new_block
  new_block-IsBlank = refl

  pub new_block-BlockHolds : BlockHolds (new_block A size) []
  unfolding new_block
  new_block-BlockHolds = record {
    ends = omega arith;
    bounded = omega arith;
    shape = let z : size ≡ size - 0 = omega arith in ap (λ k. replicate k none) z;
  }

  pub linked-BlockHolds : (b : Block A) → IsBlank b → BlockHolds (linked size b) []
  unfolding linked
  linked-BlockHolds b h = record {
    ends = omega arith;
    bounded = omega arith;
    shape = let z : size ≡ size - 0 = omega arith in h ∙ ap (λ k. replicate k none) z;
  }

  pub at_end-BlockHolds : (b : Block A) → IsBlank b → BlockHolds (at_end size b) []
  unfolding at_end
  at_end-BlockHolds b h = record {
    ends = omega arith;
    bounded = omega arith;
    shape =
        let z : size ≡ size + (size - size) = omega arith in
        h ∙ ap (λ k. replicate k none) z ∙ sym (replicate-append size (size - size) none);
  }

  pub put-BlockHolds :
      (b : Block A) (vs : List A) (e : A)
      → BlockHolds b vs
      → b.tail < size
      → BlockHolds (put size e b) (vs ++ (e ∷ []))
  unfolding put
  put-BlockHolds b vs e h room = record {
    ends = omega (arith, h.ends, length-append vs (e ∷ []));
    bounded = omega arith;
    shape =
        let one : size - b.tail ≡ suc (size - (b.tail + 1)) = omega arith in
        let front : List (Option A) = replicate b.head none ++ map some vs in
        let n : length front ≡ b.tail = omega (
          arith,
          length-append (replicate {A = Option A} b.head none) (map some vs),
          length-replicate {A = Option A} b.head none,
          length-map-some vs,
          h.ends,
        ) in
        ap (λ cs. set cs b.tail (some e))
          (h.shape
            ∙ ap (λ k. replicate b.head none ++ (map some vs ++ replicate k none)) one
            ∙ sym (append_assoc (replicate b.head none) (map some vs) _))
        ∙ set_middle b.tail front (replicate (size - (b.tail + 1)) none) none (some e) n
        ∙ simp (append_assoc, map-append);
  }

  pub put_front-BlockHolds :
      (b : Block A) (vs : List A) (e : A)
      → BlockHolds b vs
      → 0 < b.head
      → BlockHolds (put_front size e b) (e ∷ vs)
  unfolding put_front
  put_front-BlockHolds b vs e h room = record {
    ends = omega (arith, h.ends);
    bounded = h.bounded;
    shape =
        let k : b.head ≡ suc (b.head - 1) = omega arith in
        let n : length (replicate {A = Option A} (b.head - 1) none) ≡ b.head - 1 =
          length-replicate {A = Option A} (b.head - 1) none in
        ap (λ cs. set cs (b.head - 1) (some e))
          (h.shape
            ∙ ap (λ j. replicate j none ++ (map some vs ++ replicate (size - b.tail) none)) k
            ∙ sym (
                replicate-append_cons (b.head - 1) none
                  (map some vs ++ replicate (size - b.tail) none)))
        ∙ set_middle (b.head - 1) (replicate (b.head - 1) none) _ none (some e) n;
  }

  -- The first element stands in the cell at `head`, and the block without it holds the others.
  pub first_cell :
      (b : Block A) (v : A) (vs : List A)
      → BlockHolds b (v ∷ vs)
      → (get_elem? b.cells b.head ≡ some (some v))
        × BlockHolds (record b { head = b.head + 1; cells = set b.cells b.head none }) vs
  first_cell b v vs h = (
    ap (λ cs. get_elem? cs b.head) h.shape ∙ get_middle b.head (replicate b.head none) _ (some v) n,
    record {
      ends = omega (arith, h.ends);
      bounded = h.bounded;
      shape =
          let k : suc b.head ≡ b.head + 1 = omega arith in
          ap (λ cs. set cs b.head none) h.shape
          ∙ set_middle b.head (replicate b.head none) _ (some v) none n
          ∙ replicate-append_cons b.head none _
          ∙ ap (λ j. replicate j none ++ (map some vs ++ replicate (size - b.tail) none)) k;
    },
  )
    where
      n : length (replicate {A = Option A} b.head none) ≡ b.head
      n = length-replicate {A = Option A} b.head none

  -- A block that holds nothing and is full is blank again.
  pub drained-IsBlank : (b : Block A) → BlockHolds b [] → b.tail ≡ size → IsBlank b
  drained-IsBlank b h full =
      let k : b.head + (size - b.tail) ≡ size = omega (arith, h.ends) in
      h.shape ∙ replicate-append b.head (size - b.tail) none ∙ ap (λ j. replicate j none) k

-- ===== src/FreeList/Places.antt =====
-- The references to each node, and the places where it is, add up.
use salticidae.Base.{
  ℕ, ◌+◌, ◌-◌, ◌≤◌, ◌<◌, ◌≡◌, ◌≢◌, ◌⊎◌, refl, sym, ap, Bool, true, List, [], ◌∷◌, Option, none,
  some, ◌==◌, ==_iff, ==-false, if◌then◌else◌, arith, true≢false,
}
use salticidae.FreeList.{
  After, ends, again, returns, outside, releasing, pushing, linking, swapping, restoring, loading,
  seen, counting, holding, swinging, Thread, same, write,
}

abbrev pub hit : ℕ → ℕ → ℕ
hit u v = if u == v then 1 else 0

abbrev pub count : ℕ → List ℕ → ℕ
count u [] = 0
count u (v ∷ vs) = hit u v + count u vs

abbrev pub due : ℕ → After → ℕ
due u ends = 0
due u again = 0
due u (returns v) = hit u v

-- The references that a thread holds for a while.
abbrev pub held : ℕ → Thread → ℕ
held u t = elim t.point [
  | releasing v k ↦ hit u v
  | holding v ↦ hit u v
  | swinging v w ↦ hit u v
  | outside ↦ 0
  | pushing v k ↦ 0
  | linking w v k ↦ 0
  | swapping w v k ↦ 0
  | restoring v k ↦ 0
  | loading ↦ 0
  | seen v ↦ 0
  | counting v n ↦ 0
]

-- The nodes that are its own, with the one that `pop` is about to return.
abbrev pub mine : ℕ → Thread → ℕ
mine u t = count u t.owned + elim t.point [
  | releasing v k ↦ due u k
  | pushing v k ↦ due u k
  | linking w v k ↦ due u k
  | swapping w v k ↦ due u k
  | restoring v k ↦ due u k
  | outside ↦ 0
  | holding v ↦ 0
  | swinging v w ↦ 0
  | loading ↦ 0
  | seen v ↦ 0
  | counting v n ↦ 0
]

abbrev pub pushes : ℕ → Thread → ℕ
pushes u t = elim t.point [
  | pushing v k ↦ hit u v
  | linking w v k ↦ hit u v
  | swapping w v k ↦ hit u v
  | restoring v k ↦ 0
  | releasing v k ↦ 0
  | outside ↦ 0
  | holding v ↦ 0
  | swinging v w ↦ 0
  | loading ↦ 0
  | seen v ↦ 0
  | counting v n ↦ 0
]

abbrev pub restores : ℕ → Thread → ℕ
restores u t = elim t.point [
  | restoring v k ↦ hit u v
  | pushing v k ↦ 0
  | linking w v k ↦ 0
  | swapping w v k ↦ 0
  | releasing v k ↦ 0
  | outside ↦ 0
  | holding v ↦ 0
  | swinging v w ↦ 0
  | loading ↦ 0
  | seen v ↦ 0
  | counting v n ↦ 0
]

-- What a thread has read and relies on.
abbrev pub Agrees : (ℕ → Option ℕ) → Thread → Type 0
Agrees next t = elim t.point [
  | swapping w v k ↦ next v ≡ w
  | counting v n ↦ 0 < n
  | swinging v w ↦ next v ≡ w
  | restoring v k ↦ Unit
  | pushing v k ↦ Unit
  | linking w v k ↦ Unit
  | releasing v k ↦ Unit
  | outside ↦ Unit
  | holding v ↦ Unit
  | loading ↦ Unit
  | seen v ↦ Unit
]

abbrev pub total : (Thread → ℕ) → List Thread → ℕ
total f [] = 0
total f (t ∷ ts) = f t + total f ts

-- A node's `refcnt`, the references held, and the numbers of times it is in the list, is owned, is being pushed,
-- and waits in the list for its `refcnt`.
pub record Fine (exists refcnt refs listed owners pushers waiting : ℕ) : Type 0 where
  pub counted : refcnt + waiting ≡ refs + listed + owners
  pub once : listed + owners + pushers ≤ 1
  pub quiet : (pushers + waiting ≡ 0) ⊎ (refcnt ≡ 0)
  pub inside : waiting ≤ listed
  pub single : exists ≤ 1
  pub kept : exists ≤ refs + listed + owners + pushers

abbrev pub Linked : (ℕ → Option ℕ) → Option ℕ → List ℕ → Type 0
Linked next top [] = top ≡ none
Linked next top (v ∷ vs) = (top ≡ some v) × Linked next (next v) vs

-- What the accesses do to the numbers of a node, where `x` tells whether it is the node of the access.
module _ (s : ℕ) (x : Bool) (r h c o p w q : ℕ) where
  abbrev pub one : ℕ
  one = if x then 1 else 0

  abbrev pub new : ℕ
  new = if x then q else r

  pub fetched_last :
      (x ≡ true → q ≡ r - 1)
      → (x ≡ true → r ≡ 1)
      → Fine s r (one + h) c o (0 + p) (0 + w)
      → Fine s new (0 + h) c o (one + p) (0 + w)
  fetched_last e l f = grind arith

  pub fetched_other :
      (x ≡ true → q ≡ r - 1)
      → (x ≡ true → r ≢ 1)
      → Fine s r (one + h) c o (0 + p) (0 + w)
      → Fine s new (0 + h) c o (0 + p) (0 + w)
  fetched_other e l f = grind arith

  pub put_back :
      Fine s r (0 + h) c o (one + p) (0 + w) → Fine s r (0 + h) (one + c) o (0 + p) (one + w)
  put_back f = grind arith

  pub restored :
      (x ≡ true → q ≡ 1)
      → Fine s r (0 + h) c o (0 + p) (one + w)
      → Fine s new (0 + h) c o (0 + p) (0 + w)
  restored e f = grind arith

  pub grabbed :
      (x ≡ true → q ≡ r + 1)
      → (x ≡ true → 0 < r)
      → Fine s r (0 + h) c o (0 + p) (0 + w)
      → Fine s new (one + h) c o (0 + p) (0 + w)
  grabbed e l f = grind arith

  pub taken :
      (a b : ℕ)
      → Fine s r (one + h) (one + c) (a + 0 + b) (0 + p) (0 + w)
      → Fine s r (one + h) c (a + one + b) (0 + p) (0 + w)
  taken a b f = grind arith

  pub given_up :
      (a b : ℕ)
      → Fine s r (0 + h) c (one + a + 0 + b) (0 + p) (0 + w)
      → Fine s r (one + h) c (a + 0 + b) (0 + p) (0 + w)
  given_up a b f = grind arith

pub hit-eq : (u v : ℕ) → (u == v) ≡ true → u ≡ v
hit-eq u v e = (==_iff u v).0 e

pub hit-ne : (u x : ℕ) → hit u x ≡ 0 → ¬ (x ≡ u)
hit-ne u x h e = grind (arith, h, e)

pub write-apart {ℓ} : {A : Type ℓ} (u x : ℕ) (v : A) (f : ℕ → A) → hit u x ≡ 0 → write u v f x ≡ f x
write-apart u x v f h = rw (==-false x u (hit-ne u x h)) refl

pub same-eq : (s t : Option ℕ) → same s t ≡ true → s ≡ t
same-eq none none e = refl
same-eq none (some v) e = absurd (true≢false (sym e))
same-eq (some u) none e = absurd (true≢false (sym e))
same-eq (some u) (some v) e = ap some ((==_iff u v).0 e)

-- Nobody else has a node that is being pushed.
pub unseen :
    (s r h c o p q : ℕ) → Fine s r (0 + h) c o (1 + p) (0 + q) → (h ≡ 0) × (c ≡ 0) × (p ≡ 0)
unseen s r h c o p q f = grind arith

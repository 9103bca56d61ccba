-- ===== src/ConnPool/Lifecycle/Order/Reports.antt =====
-- Reports in order, and the calls that lead to them.
use salticidae.Base.{ℕ, ◌+◌, ◌≡◌, refl, ap, Bool, true, false, not, List, [], ◌∷◌, ◌++◌, arith}
use salticidae.ConnPool.Lifecycle.{
  WorkerCall, feeds, shuts, listens, DispCall, asks, shuts_unfed, sets_up, removes,
}
use salticidae.ConnPool.Lifecycle.Release.Parts.{number}

abbrev pub trues : List Bool → ℕ
trues [] = 0
trues (b ∷ l) = number b + trues l

abbrev pub falses : List Bool → ℕ
falses [] = 0
falses (b ∷ l) = number (not b) + falses l

-- No `true` comes after a `false`.
abbrev pub IsSorted : List Bool → Type 0
IsSorted [] = Unit {0}
IsSorted (true ∷ l) = IsSorted l
IsSorted (false ∷ l) = trues l ≡ 0

pub trues-append : (xs ys : List Bool) → trues (xs ++ ys) ≡ trues xs + trues ys
trues-append [] ys = omega arith
trues-append (b ∷ xs) ys = omega (arith, trues-append xs ys)

pub falses-append : (xs ys : List Bool) → falses (xs ++ ys) ≡ falses xs + falses ys
falses-append [] ys = omega arith
falses-append (b ∷ xs) ys = omega (arith, falses-append xs ys)

pub IsSorted-true : (l : List Bool) → falses l ≡ 0 → IsSorted (l ++ (true ∷ []))
IsSorted-true [] f = tt
IsSorted-true (true ∷ l) f = IsSorted-true l (omega (arith, f))
IsSorted-true (false ∷ l) f = absurd (omega arith)

pub IsSorted-false : (l : List Bool) → IsSorted l → IsSorted (l ++ (false ∷ []))
IsSorted-false [] h = refl
IsSorted-false (true ∷ l) h = IsSorted-false l h
IsSorted-false (false ∷ l) h = omega (arith, trues-append l (false ∷ []), h)

-- An element may be left out.
pub IsSorted-without :
    (xs ys : List Bool) (b : Bool) → IsSorted (xs ++ (b ∷ ys)) → IsSorted (xs ++ ys)
IsSorted-without [] ys true h = h
IsSorted-without [] [] false h = tt
IsSorted-without [] (true ∷ ys) false h = absurd (omega (arith, h))
IsSorted-without [] (false ∷ ys) false h = omega (arith, h)
IsSorted-without (true ∷ xs) ys b h = IsSorted-without xs ys b h
IsSorted-without (false ∷ xs) ys b h =
    omega (arith, trues-append xs ys, trues-append xs (b ∷ ys), h)

pub IsSorted-prefix : (xs ys : List Bool) → IsSorted (xs ++ ys) → IsSorted xs
IsSorted-prefix [] ys h = tt
IsSorted-prefix (true ∷ xs) ys h = IsSorted-prefix xs ys h
IsSorted-prefix (false ∷ xs) ys h = omega (arith, trues-append xs ys, h)

-- The calls of `feed`, those of `disp_terminate` without a worker, and what the dispatcher will report.
abbrev pub feeds_in : List WorkerCall → ℕ
feeds_in [] = 0
feeds_in (feeds ∷ cs) = 1 + feeds_in cs
feeds_in (shuts ∷ cs) = feeds_in cs
feeds_in (listens w ∷ cs) = feeds_in cs

abbrev pub tail : List WorkerCall → List WorkerCall
tail [] = []
tail (c ∷ cs) = cs

abbrev pub unfed_shuts : List DispCall → ℕ
unfed_shuts [] = 0
unfed_shuts (shuts_unfed ∷ cs) = 1 + unfed_shuts cs
unfed_shuts (asks ∷ cs) = unfed_shuts cs
unfed_shuts (sets_up ∷ cs) = unfed_shuts cs
unfed_shuts (removes ∷ cs) = unfed_shuts cs

abbrev pub setups : List DispCall → List Bool
setups [] = []
setups (shuts_unfed ∷ cs) = setups cs
setups (asks ∷ cs) = setups cs
setups (sets_up ∷ cs) = true ∷ setups cs
setups (removes ∷ cs) = false ∷ setups cs

pub feeds_in-append : (xs ys : List WorkerCall) → feeds_in (xs ++ ys) ≡ feeds_in xs + feeds_in ys
feeds_in-append [] ys = omega arith
feeds_in-append (feeds ∷ xs) ys = omega (arith, feeds_in-append xs ys)
feeds_in-append (shuts ∷ xs) ys = feeds_in-append xs ys
feeds_in-append (listens w ∷ xs) ys = feeds_in-append xs ys

pub unfed_shuts-append :
    (xs ys : List DispCall) → unfed_shuts (xs ++ ys) ≡ unfed_shuts xs + unfed_shuts ys
unfed_shuts-append [] ys = omega arith
unfed_shuts-append (shuts_unfed ∷ xs) ys = omega (arith, unfed_shuts-append xs ys)
unfed_shuts-append (asks ∷ xs) ys = unfed_shuts-append xs ys
unfed_shuts-append (sets_up ∷ xs) ys = unfed_shuts-append xs ys
unfed_shuts-append (removes ∷ xs) ys = unfed_shuts-append xs ys

pub setups-append : (xs ys : List DispCall) → setups (xs ++ ys) ≡ setups xs ++ setups ys
setups-append [] ys = refl
setups-append (shuts_unfed ∷ xs) ys = setups-append xs ys
setups-append (asks ∷ xs) ys = setups-append xs ys
setups-append (sets_up ∷ xs) ys = ap (◌∷◌ true) (setups-append xs ys)
setups-append (removes ∷ xs) ys = ap (◌∷◌ false) (setups-append xs ys)

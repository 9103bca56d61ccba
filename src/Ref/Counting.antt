-- ===== src/Ref/Counting.antt =====
-- The counts are the numbers of handles.
use native.Mathlib.Decide.{ℕ_discrete}
use salticidae.Base.{
  if-cases, subst, ℕ, ◌+◌, ◌-◌, ◌^◌, ◌<◌, ◌≡◌, refl, sym, ap, ◌∙◌, Option, none, some, ◌==◌,
  if◌then◌else◌, arith, ==_iff, ==-false,
}
use salticidae.Ref.{
  RcCtl, dec, Op, copy, weaken, copy_weak, upgrade, drop, drop_weak, Shared, fresh, step, on_ctl,
  at_ctl, dropped, add_ref, add_weak, release_ref, release_weak,
}

-- The counts exist as long as there is a handle, and tell the numbers of handles.
abbrev pub Counts : Option RcCtl → ℕ → ℕ → Type 0
Counts (some c) strong weak = (c.ref_cnt ≡ strong) × (c.weak_cnt ≡ weak) × (0 < strong + weak)
Counts none strong weak = strong + weak ≡ 0

-- The object has been deleted once if there is no strong handle, and else not.
pub record IsCounted (s : Shared) : Type 0 where
  pub counts : Counts s.ctl s.strong s.weak
  pub deleted_once : s.deletions ≡ (if s.strong == 0 then 1 else 0)
  pub small : (s.strong < 2 ^ 64) × (s.weak < 2 ^ 64)

-- There is a handle that the operation starts from, and no count passes the end of its type.
abbrev pub Allowed : Op → Shared → Type 0
Allowed copy s = (0 < s.strong) × (s.strong + 1 < 2 ^ 64)
Allowed weaken s = (0 < s.strong) × (s.weak + 1 < 2 ^ 64)
Allowed copy_weak s = (0 < s.weak) × (s.weak + 1 < 2 ^ 64)
Allowed upgrade s = (0 < s.weak) × (s.strong + 1 < 2 ^ 64)
Allowed drop s = 0 < s.strong
Allowed drop_weak s = 0 < s.weak

on_ctl-IsCounted :
    (op : Op) (c : RcCtl) (s : Shared)
    → Counts (some c) s.strong s.weak
    → s.deletions ≡ (if s.strong == 0 then 1 else 0)
    → (s.strong < 2 ^ 64) × (s.weak < 2 ^ 64)
    → Allowed op s
    → IsCounted (on_ctl op c s)
unfolding on_ctl add_ref add_weak release_ref release_weak dropped
on_ctl-IsCounted copy c s h d b a = record {
  counts = ground arith;
  deleted_once = ground arith;
  small = ground arith;
}
on_ctl-IsCounted weaken c s h d b a = record {
  counts = ground arith;
  deleted_once = ground arith;
  small = ground arith;
}
on_ctl-IsCounted copy_weak c s h d b a = record {
  counts = ground arith;
  deleted_once = ground arith;
  small = ground arith;
}
on_ctl-IsCounted upgrade c s h d b a =
    if-cases IsCounted (c.ref_cnt == 0) _ _
      (λ y. record { counts = h; deleted_once = d; small = b })
      (λ n. record { counts = ground arith; deleted_once = ground arith; small = ground arith })
on_ctl-IsCounted drop c s h d b a =
    let r : dec c.ref_cnt ≡ s.strong - 1 = omega (arith, h, b, a) in
    rw r (elim (ℕ_discrete (s.strong - 1) 0) [
      | yes z ↦ rw ((==_iff (s.strong - 1) 0).1 z) (elim (ℕ_discrete c.weak_cnt 0) [
        | yes w ↦
            rw ((==_iff c.weak_cnt 0).1 w)
              (record { counts = ground arith; deleted_once = ground arith; small = ground arith })
        | no w ↦
            rw (==-false c.weak_cnt 0 w)
              (record { counts = ground arith; deleted_once = ground arith; small = ground arith })
      ])
      | no nz ↦
          rw (==-false (s.strong - 1) 0 nz)
            (record { counts = ground arith; deleted_once = ground arith; small = ground arith })
    ])
on_ctl-IsCounted drop_weak c s h d b a =
    let r : dec c.weak_cnt ≡ s.weak - 1 = omega (arith, h, b, a) in
    rw r (elim (ℕ_discrete (s.weak - 1) 0) [
      | yes z ↦ rw ((==_iff (s.weak - 1) 0).1 z) (elim (ℕ_discrete c.ref_cnt 0) [
        | yes w ↦
            rw ((==_iff c.ref_cnt 0).1 w)
              (record { counts = ground arith; deleted_once = ground arith; small = ground arith })
        | no w ↦
            rw (==-false c.ref_cnt 0 w)
              (record { counts = ground arith; deleted_once = ground arith; small = ground arith })
      ])
      | no nz ↦
          rw (==-false (s.weak - 1) 0 nz)
            (record { counts = ground arith; deleted_once = ground arith; small = ground arith })
    ])

-- An operation on a handle that exists never uses deleted counts, and the counts stay right. So the
-- object is deleted with its last RcObj, once, and the counts with the last handle.
pub step-IsCounted :
    (op : Op) (s : Shared)
    → IsCounted s
    → Allowed op s
    → (t : Shared) × (step op s ≡ some t) × IsCounted t
unfolding step at_ctl
step-IsCounted op s i a = by_ctl s.ctl refl i.counts
  where
    handles : (op : Op) → Allowed op s → 0 < s.strong + s.weak
    handles copy a = omega arith
    handles weaken a = omega arith
    handles copy_weak a = omega arith
    handles upgrade a = omega arith
    handles drop a = omega arith
    handles drop_weak a = omega arith

    by_ctl :
        (o : Option RcCtl)
        → s.ctl ≡ o
        → Counts o s.strong s.weak
        → (t : Shared) × (at_ctl op o s ≡ some t) × IsCounted t
    by_ctl none e h = absurd (omega (arith, handles op a, h))
    by_ctl (some c) e h = (on_ctl op c s, refl, on_ctl-IsCounted op c s h i.deleted_once i.small a)

-- The states that allowed operations lead to.
pub data Reaches : Shared → Shared → Type 0 where
  here : (s : Shared) → Reaches s s
  onward :
      (op : Op) (s t u : Shared) → Reaches s t → Allowed op t → step op t ≡ some u → Reaches s u

pub fresh-IsCounted : IsCounted fresh
fresh-IsCounted = record { counts = omega arith; deleted_once = refl; small = omega arith }

-- In every state that operations on existing handles lead to from one new RcObj, the counts are the
-- numbers of handles, they are deleted when there is no handle, and the object has been deleted once
-- if no RcObj is left and else not.
pub reachable-IsCounted : (s : Shared) → Reaches fresh s → IsCounted s
reachable-IsCounted s r = from fresh s r fresh-IsCounted
  where
    from : (s t : Shared) → Reaches s t → IsCounted s → IsCounted t
    from s t (here _) i = i
    from s u (onward op _ t _ r a e) i =
        let (v, f, k) = step-IsCounted op t (from s t r i) a in
        subst IsCounted (ap held (sym f ∙ e)) k
      where
        held : Option Shared → Shared
        held none = fresh
        held (some x) = x

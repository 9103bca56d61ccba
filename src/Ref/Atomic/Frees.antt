-- ===== src/Ref/Atomic/Frees.antt =====
-- When the counts and the object are deleted.
use salticidae.Base.{ℕ, zero, suc, ◌⊎◌, inl, inr, ◌<◌, ◌≤◌, ◌≡◌, refl, arith}
use salticidae.Ref.Atomic.{
  ArcCtl, fresh_ctl, threads, Step, copies, weakens, copies_weak, tests_lock, locks, begins_ref,
  drops_ref, leaves_shared_ref, tests_weak, leaves_observed_ref, closes_ref, begins_weak,
  drops_weak, leaves_shared_weak, tests_ref, leaves_observed_weak, closes_weak,
}
use salticidae.Ref.Atomic.Handles.{
  Counted, add_ref-Counted, add_weak-Counted, begin_ref-Counted, drop_ref-Counted,
}
use salticidae.Ref.Atomic.Threads.{
  leave_shared_ref-Counted, leave_observed_ref-Counted, leave_shared_weak-Counted,
  leave_observed_weak-Counted, test_weak-Counted, test_ref-Counted, begin_weak-Counted,
  drop_weak-Counted, close_ref-Counted, close_weak-Counted, test_lock-Counted, lock-Counted,
}

-- The two races of the code are left out: a weak handle is made while a thread that has dropped the last
-- one has yet to test `ref_cnt`; a strong handle is made from a weak one when the last strong one
-- has been dropped since the test.
abbrev pub IsCalm : {s t : ArcCtl} → Step s t → Type 0
IsCalm {s = s} (weakens h) = s.in_weak.last ≡ 0
IsCalm {s = s} (locks k e) = 0 < s.ref_cnt
IsCalm st = Unit {0}

Step-Counted : (s t : ArcCtl) (st : Step s t) → IsCalm st → Counted s → Counted t
Step-Counted s _ (copies h) m c = add_ref-Counted s (omega (arith, c.refs)) c
Step-Counted s _ (weakens h) m c = add_weak-Counted s (omega (arith, c.refs)) m c
Step-Counted s _ (copies_weak h) m c =
    add_weak-Counted s (omega (arith, c.weaks)) (omega (arith, c.last_weak, c.weaks)) c
Step-Counted s _ (tests_lock h) m c = test_lock-Counted s h c
Step-Counted s _ (locks k e) m c = lock-Counted k s e m c
Step-Counted s _ (begins_ref k e h) m c = begin_ref-Counted k s e h c
Step-Counted s _ (drops_ref k e) m c = drop_ref-Counted k s e c
Step-Counted s _ (leaves_shared_ref k e) m c = leave_shared_ref-Counted k s e c
Step-Counted s _ (tests_weak k e) m c = test_weak-Counted k s e c
Step-Counted s _ (leaves_observed_ref k e) m c = leave_observed_ref-Counted k s e c
Step-Counted s _ (closes_ref k e) m c = close_ref-Counted k s e c
Step-Counted s _ (begins_weak k e l h) m c = begin_weak-Counted k s e l h c
Step-Counted s _ (drops_weak k e) m c = drop_weak-Counted k s e c
Step-Counted s _ (leaves_shared_weak k e) m c = leave_shared_weak-Counted k s e c
Step-Counted s _ (tests_ref k e) m c = test_ref-Counted k s e c
Step-Counted s _ (leaves_observed_weak k e) m c = leave_observed_weak-Counted k s e c
Step-Counted s _ (closes_weak k e) m c = close_weak-Counted k s e c

fresh-Counted : Counted fresh_ctl
fresh-Counted = record {
  refs = refl;
  weaks = refl;
  held = omega arith;
  inside = refl;
  few = omega arith;
  alive = refl;
  last_weak = omega arith;
  closing_weak = omega arith;
  closing_ref = omega arith;
  freed = omega arith;
  freed_once = omega arith;
}

-- Runs without the two races.
pub data CalmReach : ArcCtl → Type 0 where
  made_calm : CalmReach fresh_ctl
  calmly : {s t : ArcCtl} → CalmReach s → (st : Step s t) → IsCalm st → CalmReach t

CalmReach-Counted : (s : ArcCtl) → CalmReach s → Counted s
CalmReach-Counted _ made_calm = fresh-Counted
CalmReach-Counted t (calmly {s = s} p st m) = Step-Counted s t st m (CalmReach-Counted s p)

zero_or_one : (n : ℕ) → n ≤ 1 → (n ≡ 0) ⊎ (n ≡ 1)
zero_or_one zero h = inl refl
zero_or_one (suc n) h = inr (omega arith)

-- In every interleaving without the two races, in which fewer than 256 threads release at a time, the
-- object is deleted at most once, with no strong handle left, and the counts are deleted at most
-- once, with no handle left and no other thread inside.
pub CalmReach-frees_le :
    (s : ArcCtl)
    → CalmReach s
    → ((s.deletions ≡ 0) ⊎ ((s.deletions ≡ 1) × (s.strong ≡ 0)))
      × ((s.frees ≡ 0) ⊎ ((s.frees ≡ 1) × (s.strong ≡ 0) × (s.weak ≡ 0) × (threads s ≡ 0)))
CalmReach-frees_le s p = (
  elim (zero_or_one s.deletions (omega (arith, c.alive))) [
    | inl z ↦ inl z
    | inr o ↦ inr (o, omega (arith, c.alive, c.refs, o))
  ],
  elim (zero_or_one s.frees c.freed_once) [
    | inl z ↦ inl z
    | inr o ↦ inr (
      o,
      omega (arith, c.freed, c.refs, o),
      omega (arith, c.freed, c.weaks, o),
      omega (arith, c.freed, o),
    )
  ],
)
  where
    c : Counted s
    c = CalmReach-Counted s p

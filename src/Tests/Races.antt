-- ===== src/Tests/Races.antt =====
-- Interleavings of the threads that share a pointer.
use salticidae.Base.{◌≡◌, ◌⊎◌, refl, arith}
use salticidae.Ref.Atomic.{
  ArcCtl, fresh_ctl, threads, add_ref, add_weak, test_lock, lock, begin_ref, drop_ref, test_weak,
  leave_observed_ref, close_ref, begin_weak, drop_weak, test_ref, close_weak, weakens, tests_lock,
  locks, begins_ref, drops_ref, tests_weak, leaves_observed_ref, closes_ref, begins_weak,
  drops_weak, tests_ref, closes_weak, Reach, made, later,
}
use salticidae.Ref.Atomic.Frees.{CalmReach, made_calm, calmly, CalmReach-frees_le}

-- The only handle is given up.
abbrev given_up : ArcCtl
given_up = close_ref 0 (test_weak 0 (drop_ref 0 (begin_ref 0 fresh_ctl)))

given_up-CalmReach : CalmReach given_up
unfolding begin_ref drop_ref test_weak
given_up-CalmReach =
    calmly
      (calmly (calmly (calmly made_calm (begins_ref 0 refl (omega arith)) tt) (drops_ref 0 refl) tt)
        (tests_weak 0 refl) tt)
      (closes_ref 0 refl) tt

CalmReach-frees_le_example :
    ((given_up.deletions ≡ 0) ⊎ ((given_up.deletions ≡ 1) × (given_up.strong ≡ 0)))
    × ((given_up.frees ≡ 0)
        ⊎ ((given_up.frees ≡ 1)
            × (given_up.strong ≡ 0)
            × (given_up.weak ≡ 0)
            × (threads given_up ≡ 0)))
CalmReach-frees_le_example = CalmReach-frees_le given_up given_up-CalmReach

given_up-frees : given_up.frees ≡ 1
unfolding begin_ref drop_ref test_weak close_ref
given_up-frees = refl

-- A thread drops the last weak handle; another one makes a new weak handle and gives up the last strong
-- one; then the first sees that `ref_cnt` is 0, and deletes the counts under the new handle.
freed_under_handle : (s : ArcCtl) × Reach s × (s.frees ≡ 1) × (s.weak ≡ 1)
unfolding add_weak begin_weak drop_weak begin_ref drop_ref test_weak leave_observed_ref test_ref
    close_weak
freed_under_handle = (
  _,
  later
      (later
        (later
          (later
            (later
              (later
                (later
                  (later
                    (later (later made (weakens (omega arith)))
                      (begins_weak 0 refl (omega arith) (omega arith)))
                    (drops_weak 0 refl))
                  (weakens (omega arith)))
                (begins_ref 0 refl (omega arith)))
              (drops_ref 0 refl))
            (tests_weak 0 refl))
          (leaves_observed_ref 0 refl))
        (tests_ref 0 refl))
      (closes_weak 0 refl),
  refl,
  refl,
)

-- A thread finds a strong handle, the last one is given up and the object is deleted, and then the first
-- makes its handle.
made_of_deleted : (s : ArcCtl) × Reach s × (s.deletions ≡ 1) × (s.strong ≡ 1)
unfolding add_ref add_weak test_lock begin_ref drop_ref test_weak leave_observed_ref lock
made_of_deleted = (
  _,
  later
      (later
        (later
          (later
            (later (later (later made (weakens (omega arith))) (tests_lock (omega arith)))
              (begins_ref 0 refl (omega arith)))
            (drops_ref 0 refl))
          (tests_weak 0 refl))
        (leaves_observed_ref 0 refl))
      (locks 0 refl),
  refl,
  refl,
)

-- One thread gives up the last strong handle and sees the weak one; another drops that and finds `dcnt` in
-- use: nobody deletes the counts.
never_freed :
    (s : ArcCtl) × Reach s × (s.frees ≡ 0) × (s.strong ≡ 0) × (s.weak ≡ 0) × (threads s ≡ 0)
unfolding add_weak begin_weak drop_weak begin_ref drop_ref test_weak leave_observed_ref test_ref
    close_weak
never_freed = (
  _,
  later
      (later
        (later
          (later
            (later
              (later
                (later
                  (later (later made (weakens (omega arith))) (begins_ref 0 refl (omega arith)))
                  (drops_ref 0 refl))
                (tests_weak 0 refl))
              (begins_weak 0 refl (omega arith) (omega arith)))
            (drops_weak 0 refl))
          (tests_ref 0 refl))
        (closes_weak 0 refl))
      (leaves_observed_ref 0 refl),
  refl,
  refl,
  refl,
  refl,
)

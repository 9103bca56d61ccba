-- ===== src/Ref/Atomic/Threads.antt =====
-- The other accesses of the threads keep the counts right.
use salticidae.Base.{
  ℕ, ◌+◌, ◌-◌, ◌<◌, ◌≤◌, min, ◌≡◌, refl, ◌∙◌, ◌==◌, ==_iff, if◌then◌else◌, if-cases, arith,
}
use salticidae.Ref.Atomic.{
  ArcCtl, dec8, threads, add_ref, test_lock, lock, leave_shared_ref, test_weak, leave_observed_ref,
  close_ref, begin_weak, drop_weak, leave_shared_weak, test_ref, leave_observed_weak, close_weak,
}
use salticidae.Ref.Atomic.Handles.{Counted, inc8_lem, dec8_lem, add_ref-Counted, same-Counted}

-- One thread less is inside.
pub dcnt_less : (s : ArcCtl) (k : ℕ) → Counted s → threads s ≡ k + 1 → dec8 s.dcnt ≡ k
dcnt_less s k c e = dec8_lem s.dcnt k (c.inside ∙ e) (omega (arith, c.few))

pub leave_shared_ref-Counted :
    (k : ℕ) (s : ArcCtl) → s.in_ref.shared ≡ k + 1 → Counted s → Counted (leave_shared_ref k s)
unfolding leave_shared_ref
leave_shared_ref-Counted k s e c =
    same-Counted s _ c refl refl refl refl c.held (dcnt_less s _ c (omega (arith, e)))
      (omega (arith, e)) refl (omega arith) (omega arith) (omega arith) refl

pub leave_observed_ref-Counted :
    (k : ℕ) (s : ArcCtl) → s.in_ref.observed ≡ k + 1 → Counted s → Counted (leave_observed_ref k s)
unfolding leave_observed_ref
leave_observed_ref-Counted k s e c =
    same-Counted s _ c refl refl refl refl c.held (dcnt_less s _ c (omega (arith, e)))
      (omega (arith, e)) (omega (arith, e)) (omega arith) (omega arith) (omega arith) refl

pub leave_shared_weak-Counted :
    (k : ℕ) (s : ArcCtl) → s.in_weak.shared ≡ k + 1 → Counted s → Counted (leave_shared_weak k s)
unfolding leave_shared_weak
leave_shared_weak-Counted k s e c =
    same-Counted s _ c refl refl refl refl c.held (dcnt_less s _ c (omega (arith, e)))
      (omega (arith, e)) refl (omega arith) (omega arith) (omega arith) refl

pub leave_observed_weak-Counted :
    (k : ℕ) (s : ArcCtl)
    → s.in_weak.observed ≡ k + 1
    → Counted s
    → Counted (leave_observed_weak k s)
unfolding leave_observed_weak
leave_observed_weak-Counted k s e c =
    same-Counted s _ c refl refl refl refl c.held (dcnt_less s _ c (omega (arith, e)))
      (omega (arith, e)) refl (omega arith) (omega arith) (omega arith) refl

pub test_weak-Counted :
    (k : ℕ) (s : ArcCtl) → s.in_ref.last ≡ k + 1 → Counted s → Counted (test_weak k s)
unfolding test_weak
test_weak-Counted k s e c =
    if-cases Counted (s.weak_cnt == 0) _ _
      (λ y. record {
        refs = c.refs;
        weaks = c.weaks;
        held = c.held;
        inside = omega (arith, c.inside, e);
        few = omega (arith, c.few, e);
        alive = omega (arith, c.alive, e);
        last_weak = c.last_weak;
        closing_weak = c.closing_weak;
        closing_ref = omega (arith, (==_iff s.weak_cnt 0).0 y);
        freed = omega (arith, c.freed, e);
        freed_once = c.freed_once;
      })
      (λ n.
        same-Counted s _ c refl refl refl refl c.held (omega (arith, c.inside, e))
          (omega (arith, e)) (omega (arith, e)) (omega arith) (omega arith) (omega arith) refl)

pub test_ref-Counted :
    (k : ℕ) (s : ArcCtl) → s.in_weak.last ≡ k + 1 → Counted s → Counted (test_ref k s)
unfolding test_ref
test_ref-Counted k s e c =
    if-cases Counted (s.ref_cnt == 0) _ _
      (λ y. record {
        refs = c.refs;
        weaks = c.weaks;
        held = c.held;
        inside = omega (arith, c.inside, e);
        few = omega (arith, c.few, e);
        alive = c.alive;
        last_weak = omega (arith, c.last_weak, e);
        closing_weak = omega (arith, c.last_weak, e, (==_iff s.ref_cnt 0).0 y);
        closing_ref = c.closing_ref;
        freed = omega (arith, c.freed, e);
        freed_once = c.freed_once;
      })
      (λ n.
        same-Counted s _ c refl refl refl refl c.held (omega (arith, c.inside, e))
          (omega (arith, e)) refl (omega (arith, e)) (omega arith) (omega arith) refl)

pub begin_weak-Counted :
    (k : ℕ) (s : ArcCtl)
    → s.weak ≡ k + 1
    → s.locking ≤ k
    → threads s < 255
    → Counted s
    → Counted (begin_weak k s)
unfolding begin_weak
begin_weak-Counted k s e free room c = record {
  refs = c.refs;
  weaks = omega (arith, c.weaks, e);
  held = free;
  inside = omega (arith, c.inside, inc8_lem s.dcnt (omega (arith, c.inside)));
  few = omega arith;
  alive = c.alive;
  last_weak = c.last_weak;
  closing_weak = c.closing_weak;
  closing_ref = c.closing_ref;
  freed = omega (arith, c.freed, c.weaks);
  freed_once = c.freed_once;
}

pub drop_weak-Counted :
    (k : ℕ) (s : ArcCtl) → s.in_weak.begun ≡ k + 1 → Counted s → Counted (drop_weak k s)
unfolding drop_weak
drop_weak-Counted k s e c =
    if-cases Counted (s.weak_cnt - 1 == 0) _ _
      (λ y. record {
        refs = c.refs;
        weaks = omega (arith, c.weaks, e);
        held = c.held;
        inside = omega (arith, c.inside, e);
        few = omega (arith, c.few, e);
        alive = c.alive;
        last_weak = omega (arith, (==_iff (s.weak_cnt - 1) 0).0 y);
        closing_weak = omega (arith, c.closing_weak);
        closing_ref = omega (arith, c.closing_ref);
        freed = omega (arith, c.freed, e);
        freed_once = c.freed_once;
      })
      (λ n. record {
        refs = c.refs;
        weaks = omega (arith, c.weaks, e);
        held = c.held;
        inside = omega (arith, c.inside, e);
        few = omega (arith, c.few, e);
        alive = c.alive;
        last_weak = omega (arith, c.last_weak);
        closing_weak = omega (arith, c.closing_weak);
        closing_ref = omega (arith, c.closing_ref);
        freed = omega (arith, c.freed, e);
        freed_once = c.freed_once;
      })

-- The counts are deleted by a thread that is then the last.
pub freed_lem :
    (frees d inside : ℕ)
    → frees ≡ 0
    → d ≡ inside
    → (min 1 (if d == 0 then frees + 1 else frees) + min 1 inside ≤ 1)
      × ((if d == 0 then frees + 1 else frees) ≤ 1)
freed_lem frees d inside z e =
    if-cases (λ n. (min 1 n + min 1 inside ≤ 1) × (n ≤ 1)) (d == 0) (frees + 1) frees
      (λ y. (omega (arith, (==_iff d 0).0 y), omega arith)) (λ n. (omega arith, omega arith))

pub close_ref-Counted :
    (k : ℕ) (s : ArcCtl) → s.in_ref.closing ≡ k + 1 → Counted s → Counted (close_ref k s)
unfolding close_ref
close_ref-Counted k s e c =
    let left = threads (close_ref k s) in
    let less : dec8 s.dcnt ≡ left = dcnt_less s left c (omega (arith, e)) in
    let freed = freed_lem s.frees (dec8 s.dcnt) left (omega (arith, c.freed, e)) less in
    record {
      refs = c.refs;
      weaks = c.weaks;
      held = c.held;
      inside = less;
      few = omega (arith, c.few, e);
      alive = omega (arith, c.alive, e);
      last_weak = c.last_weak;
      closing_weak = c.closing_weak;
      closing_ref = omega (arith, c.closing_ref);
      freed = omega (arith, freed.0, c.alive, c.closing_ref, e);
      freed_once = freed.1;
    }

pub close_weak-Counted :
    (k : ℕ) (s : ArcCtl) → s.in_weak.closing ≡ k + 1 → Counted s → Counted (close_weak k s)
unfolding close_weak
close_weak-Counted k s e c =
    let left = threads (close_weak k s) in
    let less : dec8 s.dcnt ≡ left = dcnt_less s left c (omega (arith, e)) in
    let freed = freed_lem s.frees (dec8 s.dcnt) left (omega (arith, c.freed, e)) less in
    record {
      refs = c.refs;
      weaks = c.weaks;
      held = c.held;
      inside = less;
      few = omega (arith, c.few, e);
      alive = c.alive;
      last_weak = c.last_weak;
      closing_weak = omega (arith, c.closing_weak);
      closing_ref = c.closing_ref;
      freed = omega (arith, freed.0, c.closing_weak, e);
      freed_once = freed.1;
    }

pub test_lock-Counted : (s : ArcCtl) → s.locking < s.weak → Counted s → Counted (test_lock s)
unfolding test_lock
test_lock-Counted s h c =
    if-cases Counted (s.ref_cnt == 0) s _ (λ y. c)
      (λ n.
        same-Counted s _ c refl refl refl refl (omega (arith, h)) c.inside (omega arith) refl
          (omega arith) (omega arith) (omega arith) refl)

pub lock-Counted :
    (k : ℕ) (s : ArcCtl) → s.locking ≡ k + 1 → 0 < s.ref_cnt → Counted s → Counted (lock k s)
unfolding lock add_ref
lock-Counted k s e alive c =
    let a = add_ref-Counted s alive c in
    record {
      refs = a.refs;
      weaks = a.weaks;
      held = omega (arith, c.held, e);
      inside = a.inside;
      few = a.few;
      alive = a.alive;
      last_weak = a.last_weak;
      closing_weak = a.closing_weak;
      closing_ref = a.closing_ref;
      freed = a.freed;
      freed_once = a.freed_once;
    }

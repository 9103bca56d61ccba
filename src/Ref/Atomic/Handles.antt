-- ===== src/Ref/Atomic/Handles.antt =====
-- What the counts say of the handles and the threads, and the calls that add or begin to drop a strong one.
use salticidae.Base.{ℕ, ◌+◌, ◌-◌, ◌<◌, ◌≤◌, min, ◌≡◌, sym, ◌∙◌, ◌==◌, ==_iff, if-cases, arith}
use salticidae.Ref.Atomic.{ArcCtl, inc8, dec8, threads, add_ref, add_weak, begin_ref, drop_ref}

-- The counts are those of the handles that live or are about to be dropped; one thread drops the last
-- strong handle; and who may delete the counts finds no handle left.
pub record Counted (s : ArcCtl) : Type 0 where
  pub refs : s.ref_cnt ≡ s.strong + s.in_ref.begun
  pub weaks : s.weak_cnt ≡ s.weak + s.in_weak.begun
  pub held : s.locking ≤ s.weak
  pub inside : s.dcnt ≡ threads s
  pub few : threads s < 256
  pub alive :
      s.in_ref.last + s.in_ref.observed + s.in_ref.closing + s.deletions + min 1 s.ref_cnt ≡ 1
  pub last_weak : min 1 s.in_weak.last + min 1 s.weak_cnt ≤ 1
  pub closing_weak : min 1 s.in_weak.closing + min 1 (s.ref_cnt + s.weak_cnt) ≤ 1
  pub closing_ref : min 1 s.in_ref.closing + min 1 s.weak_cnt ≤ 1
  pub freed : min 1 s.frees + min 1 (s.ref_cnt + s.weak_cnt + threads s) ≤ 1
  pub freed_once : s.frees ≤ 1

pub inc8_lem : (n : ℕ) → n < 255 → inc8 n ≡ n + 1
inc8_lem n h = omega arith

pub dec8_lem : (n k : ℕ) → n ≡ k + 1 → k < 255 → dec8 n ≡ k
dec8_lem n k e h = omega arith

pub add_ref-Counted : (s : ArcCtl) → 0 < s.ref_cnt → Counted s → Counted (add_ref s)
unfolding add_ref
add_ref-Counted s h c = record {
  refs = omega (arith, c.refs);
  weaks = c.weaks;
  held = c.held;
  inside = c.inside;
  few = c.few;
  alive = omega (arith, c.alive);
  last_weak = c.last_weak;
  closing_weak = omega (arith, c.closing_weak);
  closing_ref = c.closing_ref;
  freed = omega (arith, c.freed);
  freed_once = c.freed_once;
}

pub add_weak-Counted :
    (s : ArcCtl)
    → 0 < s.ref_cnt + s.weak_cnt
    → s.in_weak.last ≡ 0
    → Counted s
    → Counted (add_weak s)
unfolding add_weak
add_weak-Counted s h calm c = record {
  refs = c.refs;
  weaks = omega (arith, c.weaks);
  held = omega (arith, c.held);
  inside = c.inside;
  few = c.few;
  alive = c.alive;
  last_weak = omega (arith, calm);
  closing_weak = omega (arith, c.closing_weak);
  closing_ref = omega (arith, c.alive, c.closing_ref, h);
  freed = omega (arith, c.freed);
  freed_once = c.freed_once;
}

pub begin_ref-Counted :
    (k : ℕ) (s : ArcCtl) → s.strong ≡ k + 1 → threads s < 255 → Counted s → Counted (begin_ref k s)
unfolding begin_ref
begin_ref-Counted k s e room c = record {
  refs = omega (arith, c.refs, e);
  weaks = c.weaks;
  held = c.held;
  inside = omega (arith, c.inside, inc8_lem s.dcnt (omega (arith, c.inside)));
  few = omega arith;
  alive = c.alive;
  last_weak = c.last_weak;
  closing_weak = c.closing_weak;
  closing_ref = c.closing_ref;
  freed = omega (arith, c.freed, c.refs);
  freed_once = c.freed_once;
}

pub drop_ref-Counted :
    (k : ℕ) (s : ArcCtl) → s.in_ref.begun ≡ k + 1 → Counted s → Counted (drop_ref k s)
unfolding drop_ref
drop_ref-Counted k s e c =
    if-cases Counted (s.ref_cnt - 1 == 0) _ _
      (λ y. record {
        refs = omega (arith, c.refs, e);
        weaks = c.weaks;
        held = c.held;
        inside = omega (arith, c.inside, e);
        few = omega (arith, c.few, e);
        alive = omega (arith, c.alive, c.refs, e, (==_iff (s.ref_cnt - 1) 0).0 y);
        last_weak = c.last_weak;
        closing_weak = omega (arith, c.closing_weak, c.refs);
        closing_ref = c.closing_ref;
        freed = omega (arith, c.freed, c.refs, e);
        freed_once = c.freed_once;
      })
      (λ n. record {
        refs = omega (arith, c.refs, e);
        weaks = c.weaks;
        held = c.held;
        inside = omega (arith, c.inside, e);
        few = omega (arith, c.few, e);
        alive = ground (arith, c.alive, c.refs, e, n);
        last_weak = c.last_weak;
        closing_weak = omega (arith, c.closing_weak, c.refs);
        closing_ref = c.closing_ref;
        freed = omega (arith, c.freed, c.refs, e);
        freed_once = c.freed_once;
      })

-- A step that moves a thread on, or lets it leave, and takes no decision.
pub same-Counted :
    (s t : ArcCtl)
    → Counted s
    → t.ref_cnt ≡ s.ref_cnt
    → t.weak_cnt ≡ s.weak_cnt
    → t.strong + t.in_ref.begun ≡ s.strong + s.in_ref.begun
    → t.weak + t.in_weak.begun ≡ s.weak + s.in_weak.begun
    → t.locking ≤ t.weak
    → t.dcnt ≡ threads t
    → threads t ≤ threads s
    → t.in_ref.last + t.in_ref.observed + t.in_ref.closing + t.deletions
      ≡ s.in_ref.last + s.in_ref.observed + s.in_ref.closing + s.deletions
    → t.in_weak.last ≤ s.in_weak.last
    → t.in_weak.closing ≤ s.in_weak.closing
    → t.in_ref.closing ≤ s.in_ref.closing
    → t.frees ≡ s.frees
    → Counted t
same-Counted s t c rc wc sb wb lo dc th al lw cw cr fr = record {
  refs = rc ∙ c.refs ∙ sym sb;
  weaks = wc ∙ c.weaks ∙ sym wb;
  held = lo;
  inside = dc;
  few = omega (arith, c.few);
  alive = omega (arith, c.alive, rc, al);
  last_weak = omega (arith, c.last_weak, wc, lw);
  closing_weak = omega (arith, c.closing_weak, wc, rc, cw);
  closing_ref = omega (arith, c.closing_ref, wc, cr);
  freed = omega (arith, c.freed, wc, rc, fr, th);
  freed_once = omega (arith, c.freed_once, fr);
}

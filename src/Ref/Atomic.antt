-- ===== src/Ref/Atomic.antt =====
-- _ARCCtl of include/salticidae/ref.h: the counts that threads share. A step is one atomic access. Threads
-- differ only in how far they are, so that their numbers at each point are enough. A handle is made
-- from one of the same thread, which lives as long as that takes.
pub mod Handles
pub mod Threads
pub mod Frees
use salticidae.Base.{ℕ, suc, ◌+◌, ◌-◌, ◌%◌, ◌<◌, ◌≤◌, ◌≡◌, Bool, true, false, ◌==◌, if◌then◌else◌}

-- Threads in `release_ref`: before `--ref_cnt`; before the `dcnt--` of a return of false; before the test
-- of `weak_cnt`; before the `dcnt--` and before the `--dcnt` of a return of true.
pub record InRef : Type 0 where
  pub begun : ℕ
  pub shared : ℕ
  pub last : ℕ
  pub observed : ℕ
  pub closing : ℕ

-- Threads in `release_weak`: before `--weak_cnt`; before the first `dcnt--`; before the test of `ref_cnt`;
-- before the second `dcnt--`; before `--dcnt`.
pub record InWeak : Type 0 where
  pub begun : ℕ
  pub shared : ℕ
  pub last : ℕ
  pub observed : ℕ
  pub closing : ℕ

-- The counts; the handles that no thread is giving up; the threads that make a strong handle from a weak one,
-- between their test of `ref_cnt` and `add_ref`; the other threads; how often `delete this` has run, and
-- how often `release_ref` has returned true, which tells to delete the object.
pub record ArcCtl : Type 0 where
  pub ref_cnt : ℕ
  pub weak_cnt : ℕ
  pub dcnt : ℕ
  pub strong : ℕ
  pub weak : ℕ
  pub locking : ℕ
  pub in_ref : InRef
  pub in_weak : InWeak
  pub frees : ℕ
  pub deletions : ℕ

abbrev pub fresh_ctl : ArcCtl
fresh_ctl = record {
  ref_cnt = 1;
  weak_cnt = 0;
  dcnt = 0;
  strong = 1;
  weak = 0;
  locking = 0;
  in_ref = record { begun = 0; shared = 0; last = 0; observed = 0; closing = 0 };
  in_weak = record { begun = 0; shared = 0; last = 0; observed = 0; closing = 0 };
  frees = 0;
  deletions = 0;
}

-- `dcnt` is a uint8_t.
abbrev pub inc8 : ℕ → ℕ
inc8 n = (n + 1) % 256

abbrev pub dec8 : ℕ → ℕ
dec8 n = (n + 255) % 256

abbrev pub threads : ArcCtl → ℕ
threads s =
    (s.in_ref.begun + s.in_ref.shared + s.in_ref.last + s.in_ref.observed + s.in_ref.closing)
    + (s.in_weak.begun + s.in_weak.shared + s.in_weak.last + s.in_weak.observed + s.in_weak.closing)

-- `add_ref` and `add_weak`.
unfoldable pub add_ref : ArcCtl → ArcCtl
add_ref s = record s { ref_cnt = s.ref_cnt + 1; strong = s.strong + 1 }

unfoldable pub add_weak : ArcCtl → ArcCtl
add_weak s = record s { weak_cnt = s.weak_cnt + 1; weak = s.weak + 1 }

-- The constructor of a strong handle from a weak one, in two accesses. If `ref_cnt` is 0 it makes a null
-- pointer.
unfoldable pub test_lock : ArcCtl → ArcCtl
test_lock s = if s.ref_cnt == 0 then s else record s { locking = s.locking + 1 }

unfoldable pub lock : ℕ → ArcCtl → ArcCtl
unfolding add_ref
lock k s = record (add_ref s) { locking = k }

-- `release_ref` by its accesses. Before each, `k` is the number of the other threads that are as far.
unfoldable pub begin_ref : ℕ → ArcCtl → ArcCtl
begin_ref k s = record s {
  strong = k;
  dcnt = inc8 s.dcnt;
  in_ref = record s.in_ref { begun = s.in_ref.begun + 1 };
}

unfoldable pub drop_ref : ℕ → ArcCtl → ArcCtl
drop_ref k s =
    let t = record s { ref_cnt = s.ref_cnt - 1 } in
    if s.ref_cnt - 1 == 0
    then record t { in_ref = record s.in_ref { begun = k; last = s.in_ref.last + 1 } }
    else record t { in_ref = record s.in_ref { begun = k; shared = s.in_ref.shared + 1 } }

unfoldable pub leave_shared_ref : ℕ → ArcCtl → ArcCtl
leave_shared_ref k s = record s { dcnt = dec8 s.dcnt; in_ref = record s.in_ref { shared = k } }

unfoldable pub test_weak : ℕ → ArcCtl → ArcCtl
test_weak k s =
    if s.weak_cnt == 0
    then record s { in_ref = record s.in_ref { last = k; closing = s.in_ref.closing + 1 } }
    else record s { in_ref = record s.in_ref { last = k; observed = s.in_ref.observed + 1 } }

unfoldable pub leave_observed_ref : ℕ → ArcCtl → ArcCtl
leave_observed_ref k s = record s {
  dcnt = dec8 s.dcnt;
  in_ref = record s.in_ref { observed = k };
  deletions = s.deletions + 1;
}

unfoldable pub close_ref : ℕ → ArcCtl → ArcCtl
close_ref k s = record s {
  dcnt = dec8 s.dcnt;
  in_ref = record s.in_ref { closing = k };
  frees = if dec8 s.dcnt == 0 then s.frees + 1 else s.frees;
  deletions = s.deletions + 1;
}

-- `release_weak` in the same way.
unfoldable pub begin_weak : ℕ → ArcCtl → ArcCtl
begin_weak k s = record s {
  weak = k;
  dcnt = inc8 s.dcnt;
  in_weak = record s.in_weak { begun = s.in_weak.begun + 1 };
}

unfoldable pub drop_weak : ℕ → ArcCtl → ArcCtl
drop_weak k s =
    let t = record s { weak_cnt = s.weak_cnt - 1 } in
    if s.weak_cnt - 1 == 0
    then record t { in_weak = record s.in_weak { begun = k; last = s.in_weak.last + 1 } }
    else record t { in_weak = record s.in_weak { begun = k; shared = s.in_weak.shared + 1 } }

unfoldable pub leave_shared_weak : ℕ → ArcCtl → ArcCtl
leave_shared_weak k s = record s { dcnt = dec8 s.dcnt; in_weak = record s.in_weak { shared = k } }

unfoldable pub test_ref : ℕ → ArcCtl → ArcCtl
test_ref k s =
    if s.ref_cnt == 0
    then record s { in_weak = record s.in_weak { last = k; closing = s.in_weak.closing + 1 } }
    else record s { in_weak = record s.in_weak { last = k; observed = s.in_weak.observed + 1 } }

unfoldable pub leave_observed_weak : ℕ → ArcCtl → ArcCtl
leave_observed_weak k s = record s {
  dcnt = dec8 s.dcnt;
  in_weak = record s.in_weak { observed = k };
}

unfoldable pub close_weak : ℕ → ArcCtl → ArcCtl
close_weak k s = record s {
  dcnt = dec8 s.dcnt;
  in_weak = record s.in_weak { closing = k };
  frees = if dec8 s.dcnt == 0 then s.frees + 1 else s.frees;
}

-- One access of some thread. Fewer than 256 threads release at a time.
pub data Step (s : ArcCtl) : ArcCtl → Type 0 where
  copies : 0 < s.strong → Step s (add_ref s)
  weakens : 0 < s.strong → Step s (add_weak s)
  copies_weak : 0 < s.weak → Step s (add_weak s)
  tests_lock : s.locking < s.weak → Step s (test_lock s)
  locks : (k : ℕ) → s.locking ≡ k + 1 → Step s (lock k s)
  begins_ref : (k : ℕ) → s.strong ≡ k + 1 → threads s < 255 → Step s (begin_ref k s)
  drops_ref : (k : ℕ) → s.in_ref.begun ≡ k + 1 → Step s (drop_ref k s)
  leaves_shared_ref : (k : ℕ) → s.in_ref.shared ≡ k + 1 → Step s (leave_shared_ref k s)
  tests_weak : (k : ℕ) → s.in_ref.last ≡ k + 1 → Step s (test_weak k s)
  leaves_observed_ref : (k : ℕ) → s.in_ref.observed ≡ k + 1 → Step s (leave_observed_ref k s)
  closes_ref : (k : ℕ) → s.in_ref.closing ≡ k + 1 → Step s (close_ref k s)
  begins_weak : (k : ℕ) → s.weak ≡ k + 1 → s.locking ≤ k → threads s < 255 → Step s (begin_weak k s)
  drops_weak : (k : ℕ) → s.in_weak.begun ≡ k + 1 → Step s (drop_weak k s)
  leaves_shared_weak : (k : ℕ) → s.in_weak.shared ≡ k + 1 → Step s (leave_shared_weak k s)
  tests_ref : (k : ℕ) → s.in_weak.last ≡ k + 1 → Step s (test_ref k s)
  leaves_observed_weak : (k : ℕ) → s.in_weak.observed ≡ k + 1 → Step s (leave_observed_weak k s)
  closes_weak : (k : ℕ) → s.in_weak.closing ≡ k + 1 → Step s (close_weak k s)

-- The runs from the constructor on.
pub data Reach : ArcCtl → Type 0 where
  made : Reach fresh_ctl
  later : {s t : ArcCtl} → Reach s → Step s t → Reach t

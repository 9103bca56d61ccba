-- ===== src/Ref.antt =====
-- The counts of include/salticidae/ref.h for one thread: _RCCtl, and the handles RcObj and WeakObj as
-- far as they drive it. A handle is made from another one or given up; moving one changes no count.
pub mod Counting
pub mod Atomic
use salticidae.Base.{
  ℕ, ◌+◌, ◌-◌, ◌%◌, ◌^◌, ◌<◌, Bool, true, false, Option, none, some, ◌==◌, if◌then◌else◌,
}

pub record RcCtl : Type 0 where
  pub ref_cnt : ℕ
  pub weak_cnt : ℕ

-- `++` and `--` of a size_t.
abbrev pub inc : ℕ → ℕ
inc n = (n + 1) % 2 ^ 64

abbrev pub dec : ℕ → ℕ
dec n = (n + (2 ^ 64 - 1)) % 2 ^ 64

abbrev pub make : RcCtl
make = record { ref_cnt = 1; weak_cnt = 0 }

pub add_ref : RcCtl → RcCtl
add_ref c = record c { ref_cnt = inc c.ref_cnt }

pub add_weak : RcCtl → RcCtl
add_weak c = record c { weak_cnt = inc c.weak_cnt }

-- The result tells to delete the object; `none` says that the counts have been deleted.
pub release_ref : RcCtl → Bool × Option RcCtl
release_ref c =
    let d = record c { ref_cnt = dec c.ref_cnt } in
    if d.ref_cnt == 0
    then (if d.weak_cnt == 0 then (true, none) else (true, some d))
    else (false, some d)

pub release_weak : RcCtl → Option RcCtl
release_weak c =
    let d = record c { weak_cnt = dec c.weak_cnt } in
    if d.weak_cnt == 0 then (if d.ref_cnt == 0 then none else some d) else some d

-- The copy constructor of RcObj, the constructor of WeakObj from an RcObj, the copy constructor of
-- WeakObj, the constructor of RcObj from a WeakObj, and the two destructors.
pub data Op : Type 0 where
  copy weaken copy_weak upgrade drop drop_weak : Op

-- An object with its counts, the handles that exist, and how often the object has been deleted.
pub record Shared : Type 0 where
  pub ctl : Option RcCtl
  pub strong : ℕ
  pub weak : ℕ
  pub deletions : ℕ

abbrev pub fresh : Shared
fresh = record { ctl = some make; strong = 1; weak = 0; deletions = 0 }

dropped : Shared → Bool × Option RcCtl → Shared
dropped s (true, o) = record s { ctl = o; strong = s.strong - 1; deletions = s.deletions + 1 }
dropped s (false, o) = record s { ctl = o; strong = s.strong - 1 }

on_ctl : Op → RcCtl → Shared → Shared
unfolding add_ref add_weak release_ref release_weak dropped
on_ctl copy c s = record s { ctl = some (add_ref c); strong = s.strong + 1 }
on_ctl weaken c s = record s { ctl = some (add_weak c); weak = s.weak + 1 }
on_ctl copy_weak c s = record s { ctl = some (add_weak c); weak = s.weak + 1 }
on_ctl upgrade c s =
    if c.ref_cnt == 0
    then record s { ctl = some c }
    else record s { ctl = some (add_ref c); strong = s.strong + 1 }
on_ctl drop c s = dropped s (release_ref c)
on_ctl drop_weak c s = record s { ctl = release_weak c; weak = s.weak - 1 }

at_ctl : Op → Option RcCtl → Shared → Option Shared
at_ctl op none s = none
at_ctl op (some c) s = some (on_ctl op c s)

-- `none` stands for a use of counts that have been deleted.
unfoldable pub step : Op → Shared → Option Shared
unfolding at_ctl on_ctl
step op s = at_ctl op s.ctl s

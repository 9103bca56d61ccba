-- ===== src/Tests/Refs.antt =====
-- An object whose last RcObj goes before its last WeakObj.
use salticidae.Base.{refl, some, arith}
use salticidae.Ref.{Shared, weaken, drop, fresh, step}
use salticidae.Ref.Counting.{IsCounted, Reaches, here, onward, reachable-IsCounted}

abbrev watched : Shared
watched = record {
  ctl = some (record { ref_cnt = 1; weak_cnt = 1 });
  strong = 1;
  weak = 1;
  deletions = 0;
}

abbrev orphaned : Shared
orphaned = record {
  ctl = some (record { ref_cnt = 0; weak_cnt = 1 });
  strong = 0;
  weak = 1;
  deletions = 1;
}

orphaned_reached : Reaches fresh orphaned
unfolding step
orphaned_reached =
    onward drop fresh watched orphaned
      (onward weaken fresh fresh watched (here fresh) (omega arith) refl) (omega arith) refl

reachable_example : IsCounted orphaned
reachable_example = reachable-IsCounted orphaned orphaned_reached

-- ===== src/ConnPool/Lifecycle/Order.antt =====
-- What the user is told of an accepted connection.
pub mod Reports
pub mod Worker
pub mod Dispatcher
use salticidae.Base.{
  ℕ, ◌+◌, ◌<◌, ◌≤◌, ◌≡◌, ◌⊎◌, inl, inr, refl, sym, ap, subst, ◌∙◌, Bool, true, false, not, List, [],
  ◌∷◌, ◌++◌, append_assoc, append-nil, if◌then◌else◌, if-cases, true≢false, arith,
}
use salticidae.ConnPool.Lifecycle.{
  WorkerCall, feeds, shuts, listens, DispCall, asks, shuts_unfed, sets_up, removes, Life,
  worker_terminate, disp_terminate, accepted_conn, connected_conn, conn_server, on_worker_teardown,
  del_conn, set_up, feed, hands_shaken, run_worker, run_disp, run_user, Step, connects,
  shakes_hands, breaks, is_terminated, works, dispatches, reports, Run, none_yet, later,
}
use salticidae.ConnPool.Lifecycle.Release.Parts.{number, number_zero}
use salticidae.ConnPool.Lifecycle.Order.Reports.{
  trues, falses, IsSorted, trues-append, falses-append, IsSorted-true, IsSorted-false,
  IsSorted-without, IsSorted-prefix, feeds_in, tail, unfed_shuts, setups, feeds_in-append,
  unfed_shuts-append, setups-append,
}
use salticidae.ConnPool.Lifecycle.Order.Worker.{
  seen, Ord, listed, quiet-Ord, reads-Ord, worker_terminate-Ord, disp_terminate-Ord, seen-last,
  set_up-Ord, shaken-Ord, hands_shaken-Ord, tail_le, fed_le, worker_rest-Ord, fed-Ord,
  run_worker-Ord,
}
use salticidae.ConnPool.Lifecycle.Order.Dispatcher.{
  disp_rest-Ord, unreported-Ord, moved, run_disp-Ord, run_user-Ord,
}

Step-Ord : (tls : Bool) (s t : Life) → Step tls s t → Ord s → Ord t
Step-Ord tls s _ (connects sent timeout h) o = absurd (true≢false (sym h ∙ o.unheard))
Step-Ord tls s _ (shakes_hands fatal h) o = hands_shaken-Ord fatal s h o
Step-Ord tls s _ (breaks h) o = worker_terminate-Ord s o
Step-Ord tls s _ is_terminated o =
    quiet-Ord s _ o refl o.unheard o.fed_first
      (omega (arith, o.direct, unfed_shuts-append s.disp_calls (asks ∷ [])))
      (seen-last s asks ∙ append-nil (seen s)) (omega arith) (omega arith) refl
Step-Ord tls s _ (works fatal c rest e) o = run_worker-Ord tls fatal c rest s e o
Step-Ord tls s _ (dispatches throws c rest e) o = run_disp-Ord throws c rest s e o
Step-Ord tls s _ (reports wanted connected rest e) o = run_user-Ord wanted connected rest s e o

accepted-Ord : Ord accepted_conn
accepted-Ord = record {
  placed = refl;
  unheard = refl;
  fed_first = refl;
  direct = refl;
  sorted = tt;
  once = omega arith;
  ended_once = omega arith;
  over = omega arith;
}

Run-Ord : (tls : Bool) (s : Life) → Run tls accepted_conn s → Ord s
Run-Ord tls _ none_yet = accepted-Ord
Run-Ord tls s (later {t = t} p st) = Step-Ord tls t s st (Run-Ord tls t p)

-- At most one `true`, and then at most one `false`.
abbrev pub IsHistory : List Bool → Type 0
IsHistory l = (l ≡ []) ⊎ ((l ≡ true ∷ []) ⊎ ((l ≡ false ∷ []) ⊎ (l ≡ true ∷ false ∷ [])))

sorted-IsHistory : (l : List Bool) → IsSorted l → trues l ≤ 1 → falses l ≤ 1 → IsHistory l
sorted-IsHistory [] s t f = inl refl
sorted-IsHistory (true ∷ []) s t f = inr (inl refl)
sorted-IsHistory (false ∷ []) s t f = inr (inr (inl refl))
sorted-IsHistory (true ∷ false ∷ []) s t f = inr (inr (inr refl))
sorted-IsHistory (true ∷ true ∷ l) s t f = absurd (omega arith)
sorted-IsHistory (false ∷ true ∷ l) s t f = absurd (omega (arith, s))
sorted-IsHistory (false ∷ false ∷ l) s t f = absurd (omega arith)
sorted-IsHistory (true ∷ false ∷ true ∷ l) s t f = absurd (omega (arith, s))
sorted-IsHistory (true ∷ false ∷ false ∷ l) s t f = absurd (omega arith)

-- However the calls of the threads are ordered, the user's callback hears of an accepted connection in
-- order: at most once that it is connected, then at most once that it is not, and nothing after
-- that.
pub Run-IsHistory : (tls : Bool) (s : Life) → Run tls accepted_conn s → IsHistory s.reported
Run-IsHistory tls s p =
    sorted-IsHistory s.reported (IsSorted-prefix s.reported later_ones o.sorted)
      (omega (arith, o.once, trues-append s.reported later_ones))
      (omega (arith, o.ended_once, o.over, falses-append s.reported later_ones))
  where
    o : Ord s
    o = Run-Ord tls s p

    later_ones : List Bool
    later_ones = s.user_calls ++ setups s.disp_calls

-- ===== src/ConnPool/Lifecycle/Order/Dispatcher.antt =====
-- The calls of the dispatcher and of the user's loop keep the order of the reports.
use salticidae.Base.{
  ◌≡◌, refl, sym, ap, subst, ◌∙◌, Bool, true, false, List, [], ◌∷◌, ◌++◌, append_assoc, if-cases,
  arith,
}
use salticidae.ConnPool.Lifecycle.{
  listens, DispCall, asks, shuts_unfed, sets_up, removes, Life, disp_terminate, del_conn, run_disp,
  run_user,
}
use salticidae.ConnPool.Lifecycle.Order.Reports.{
  trues, falses, IsSorted, trues-append, falses-append, IsSorted-without, unfed_shuts, setups,
  feeds_in-append,
}
use salticidae.ConnPool.Lifecycle.Order.Worker.{seen, Ord, listed, quiet-Ord, disp_terminate-Ord}

-- The dispatcher takes its first call, which reports nothing, or whose report is left out, or moves to
-- the user's loop.
pub disp_rest-Ord :
    (c : DispCall) (rest : List DispCall) (s : Life)
    → s.disp_calls ≡ c ∷ rest
    → setups (c ∷ rest) ≡ setups rest
    → unfed_shuts (c ∷ rest) ≡ unfed_shuts rest
    → Ord s
    → Ord (record s { disp_calls = rest })
disp_rest-Ord c rest s e silent u o =
    quiet-Ord s (record s { disp_calls = rest }) o refl o.unheard o.fed_first
      (omega (arith, o.direct, u, ap unfed_shuts e))
      (ap (λ l. s.reported ++ (s.user_calls ++ l)) (sym silent ∙ sym (ap setups e))) (omega arith)
      (omega arith) refl

pub unreported-Ord :
    (b : Bool) (c : DispCall) (rest : List DispCall) (s : Life)
    → s.disp_calls ≡ c ∷ rest
    → setups (c ∷ rest) ≡ b ∷ setups rest
    → unfed_shuts (c ∷ rest) ≡ unfed_shuts rest
    → Ord s
    → Ord (record s { disp_calls = rest })
unreported-Ord b c rest s e reports_b u o =
    let r = s.reported ++ s.user_calls in
    let before : seen s ≡ r ++ (b ∷ setups rest) =
      ap (λ l. s.reported ++ (s.user_calls ++ l)) (ap setups e ∙ reports_b)
      ∙ sym (append_assoc s.reported s.user_calls (b ∷ setups rest)) in
    let after : s.reported ++ (s.user_calls ++ setups rest) ≡ r ++ setups rest =
      sym (append_assoc s.reported s.user_calls (setups rest)) in
    record {
      placed = o.placed;
      unheard = o.unheard;
      fed_first = o.fed_first;
      direct = omega (arith, o.direct, u, ap unfed_shuts e);
      sorted =
          subst IsSorted (sym after)
            (IsSorted-without r (setups rest) b (subst IsSorted before o.sorted));
      once = omega (
        arith,
        o.once,
        ap trues before,
        ap trues after,
        trues-append r (b ∷ setups rest),
        trues-append r (setups rest),
      );
      ended_once = omega (
        arith,
        o.ended_once,
        ap falses before,
        ap falses after,
        falses-append r (b ∷ setups rest),
        falses-append r (setups rest),
      );
      over = o.over;
    }

pub moved :
    (b : Bool) (c : DispCall) (rest : List DispCall) (s : Life)
    → s.disp_calls ≡ c ∷ rest
    → setups (c ∷ rest) ≡ b ∷ setups rest
    → s.reported ++ ((s.user_calls ++ (b ∷ [])) ++ setups rest) ≡ seen s
moved b c rest s e reports_b =
    ap (λ l. s.reported ++ l)
      (append_assoc s.user_calls (b ∷ []) (setups rest)
        ∙ ap (λ l. s.user_calls ++ l) (sym reports_b ∙ sym (ap setups e)))

pub run_disp-Ord :
    (throws : Bool) (c : DispCall) (rest : List DispCall) (s : Life)
    → s.disp_calls ≡ c ∷ rest
    → Ord s
    → Ord (run_disp throws c (record s { disp_calls = rest }))
unfolding run_disp del_conn
run_disp-Ord throws asks rest s e o = disp_terminate-Ord _ (disp_rest-Ord asks rest s e refl refl o)
run_disp-Ord throws shuts_unfed rest s e o = absurd (omega (arith, o.direct, ap unfed_shuts e))
run_disp-Ord throws sets_up rest s e o =
    let t = record s { disp_calls = rest } in
    if-cases Ord throws (disp_terminate t) _
      (λ y. disp_terminate-Ord t (unreported-Ord true sets_up rest s e refl refl o))
      (λ n.
        quiet-Ord s _ o refl o.unheard o.fed_first (omega (arith, o.direct, ap unfed_shuts e))
          (moved true sets_up rest s e refl) (omega arith) (omega arith) refl)
run_disp-Ord throws removes rest s e o =
    let t = record s { disp_calls = rest } in
    let k = unreported-Ord false removes rest s e refl refl o in
    if-cases Ord s.in_pool _ _
      (λ y.
        quiet-Ord s _ o refl refl o.fed_first k.direct (moved false removes rest s e refl)
          (omega arith) (omega arith) refl)
      (λ n.
        quiet-Ord t _ k refl k.unheard k.fed_first k.direct refl (omega arith) (omega arith) refl)

pub run_user-Ord :
    (wanted connected : Bool) (rest : List Bool) (s : Life)
    → s.user_calls ≡ connected ∷ rest
    → Ord s
    → Ord (run_user wanted connected (record s { user_calls = rest }))
unfolding run_user
run_user-Ord wanted connected rest s e o = by_report connected e
  where
    told :
        (b : Bool)
        → s.user_calls ≡ b ∷ rest
        → (s.reported ++ (b ∷ [])) ++ (rest ++ setups s.disp_calls) ≡ seen s
    told b e =
        append_assoc s.reported (b ∷ []) (rest ++ setups s.disp_calls)
        ∙ ap (λ l. s.reported ++ (l ++ setups s.disp_calls)) (sym e)

    by_report :
        (b : Bool)
        → s.user_calls ≡ b ∷ rest
        → Ord (run_user wanted b (record s { user_calls = rest }))
    by_report true e =
        quiet-Ord s _ o refl o.unheard (listed s.worker_calls (listens wanted) refl o.fed_first)
          o.direct (told true e) (omega arith)
          (omega (arith, feeds_in-append s.worker_calls (listens wanted ∷ []))) refl
    by_report false e =
        quiet-Ord s _ o refl o.unheard o.fed_first o.direct (told false e) (omega arith)
          (omega arith) refl

-- ===== src/Tests/Lives.antt =====
-- Connections that are made and terminated.
use salticidae.Base.{◌≤◌, ◌+◌, ◌≡◌, refl, true, false, [], ◌∷◌}
use salticidae.ConnPool.Lifecycle.{
  feeds, asks, shuts_unfed, is_terminated, sets_up, Life, accepted_conn, connected_conn, set_up,
  feed, run_worker, run_disp, run_user, del_conn, disp_terminate, on_worker_teardown, conn_server,
  connects, works, dispatches, reports, Run, none_yet, later, calls,
}
use salticidae.ConnPool.Lifecycle.Release.Parts.{number}
use salticidae.ConnPool.Lifecycle.Release.{Run-releases_le, Run-quiet}
use salticidae.ConnPool.Lifecycle.Order.{IsHistory, Run-IsHistory}

-- `::connect` fails, and the dispatcher runs the call that terminates the connection.
abbrev refused : Life
refused = run_disp false shuts_unfed (record (connected_conn false) { disp_calls = [] })

refused-Run : Run false (connected_conn false) refused
unfolding connected_conn disp_terminate
refused-Run = later none_yet (dispatches false shuts_unfed [] refl)

Run-releases_le_example :
    (refused.teardowns ≤ 1)
    × (refused.releases + number refused.in_pool ≡ 1)
    × (refused.releases ≤ refused.teardowns)
    × (refused.failed ≡ false)
Run-releases_le_example =
    Run-releases_le false (connected_conn false) refused (calls false) refused-Run

Run-quiet_example :
    (refused.terminated ≡ true)
    × (refused.teardowns ≡ 1)
    × (refused.releases ≡ 1)
    × (refused.in_pool ≡ false)
unfolding connected_conn disp_terminate run_disp del_conn on_worker_teardown
Run-quiet_example =
    Run-quiet false (connected_conn false) refused (calls false) refused-Run refl refl refl

-- A connection is accepted, and the user hears that it is connected.
abbrev with_worker : Life
with_worker = run_worker false false feeds (record accepted_conn { worker_calls = [] })

abbrev with_setup : Life
with_setup = run_disp false sets_up (record with_worker { disp_calls = [] })

abbrev told : Life
told = run_user true true (record with_setup { user_calls = [] })

told-Run : Run false accepted_conn told
unfolding run_worker feed set_up run_disp
told-Run =
    later (later (later none_yet (works false feeds [] refl)) (dispatches false sets_up [] refl))
      (reports true true [] refl)

Run-IsHistory_example : IsHistory told.reported
Run-IsHistory_example = Run-IsHistory false told told-Run

told_true : told.reported ≡ true ∷ []
unfolding run_worker feed set_up run_disp run_user
told_true = refl

-- A connection is terminated while it is being made: `disp_terminate` finds no worker and queues a call, but
-- `conn_server` gives the connection to a worker before that call runs. It is then set up after its
-- release, and the user hears that it is not connected, and then that it is.
abbrev begun : Life
begun = connected_conn true

abbrev queued : Life
queued = run_disp false asks (record begun { disp_calls = []; asked = true })

abbrev overtaken : Life
overtaken = conn_server true false queued

abbrev released : Life
released = run_disp false shuts_unfed (record overtaken { disp_calls = [] })

abbrev fed_late : Life
fed_late = run_worker false false feeds (record released { worker_calls = [] })

abbrev set_up_late : Life
set_up_late = run_disp false sets_up (record fed_late { disp_calls = [] })

abbrev heard_false : Life
heard_false = run_user true false (record set_up_late { user_calls = true ∷ [] })

abbrev heard_both : Life
heard_both = run_user true true (record heard_false { user_calls = [] })

late-Run : Run false begun heard_both
unfolding connected_conn disp_terminate run_disp conn_server del_conn on_worker_teardown run_worker
    feed set_up run_user
late-Run =
    later
      (later
        (later
          (later
            (later
              (later (later (later none_yet is_terminated) (dispatches false asks [] refl))
                (connects true false refl))
              (dispatches false shuts_unfed [] refl))
            (works false feeds [] refl))
          (dispatches false sets_up [] refl))
        (reports true false (true ∷ []) refl))
      (reports true true [] refl)

heard_late : (heard_both.reported ≡ false ∷ true ∷ []) × (heard_both.releases ≡ 1)
unfolding connected_conn disp_terminate run_disp conn_server del_conn on_worker_teardown run_worker
    feed set_up run_user
heard_late = (refl, refl)

-- Three workers, of which two have the fewest connections.

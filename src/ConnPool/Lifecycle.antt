-- ===== src/ConnPool/Lifecycle.antt =====
-- How a connection is made and terminated: `_connect`, `accept_client`, `conn_server`, `feed`,
-- `update_conn`, `worker_terminate`, `disp_terminate`, `del_conn` and `release_conn` of
-- include/salticidae/conn.h and src/conn.cpp, for one connection. The dispatcher, its worker and the
-- user's loop each run the calls in a ThreadCall in order. The dispatcher may itself be the worker; its
-- one queue then has the calls of both lists, in one of the orders that the steps allow. Another
-- connection has another descriptor, and so another entry of `pool`.
pub mod Release
pub mod Order
use salticidae.Base.{ℕ, ◌+◌, ◌≡◌, Bool, true, false, not, List, [], ◌∷◌, ◌++◌, if◌then◌else◌}

-- Calls for the worker: of `feed`; of `worker_terminate`; and of `update_conn`, with the result of the
-- user's callback.
pub data WorkerCall : Type 0 where
  feeds shuts : WorkerCall
  listens : Bool → WorkerCall

-- Calls for the dispatcher: of `terminate`; of `disp_terminate` without a worker; those that a worker
-- makes when the connection is set up, and when it has been torn down.
pub data DispCall : Type 0 where
  asks shuts_unfed sets_up removes : DispCall

-- `in_pool`: the connection is in `pool`. `connecting` and `handshaking`: `ev_connect`, or `ev_socket`
-- in a handshake, may still call. `user_calls` has the values of `connected` that are still to be
-- reported, and `reported` those that `conn_cb` has had. Then come: how often `on_worker_teardown` and
-- `release_conn` have run, whether an assertion has failed, and whether a termination was ever asked for.
pub record Life : Type 0 where
  pub terminated : Bool
  pub has_worker : Bool
  pub in_pool : Bool
  pub connecting : Bool
  pub handshaking : Bool
  pub reading : Bool
  pub fed : ℕ
  pub unfed : ℕ
  pub worker_calls : List WorkerCall
  pub disp_calls : List DispCall
  pub user_calls : List Bool
  pub reported : List Bool
  pub teardowns : ℕ
  pub releases : ℕ
  pub failed : Bool
  pub asked : Bool

pub worker_terminate : Life → Life
worker_terminate s = record s { worker_calls = s.worker_calls ++ (shuts ∷ []); asked = true }

unfoldable pub disp_terminate : Life → Life
unfolding worker_terminate
disp_terminate s =
    if s.has_worker
    then worker_terminate s
    else record s { disp_calls = s.disp_calls ++ (shuts_unfed ∷ []); asked = true }

-- `accept_client`, which chooses a worker at once.
abbrev pub accepted_conn : Life
accepted_conn = record {
  terminated = false;
  has_worker = true;
  in_pool = true;
  connecting = false;
  handshaking = false;
  reading = false;
  fed = 0;
  unfed = 0;
  worker_calls = feeds ∷ [];
  disp_calls = [];
  user_calls = [];
  reported = [];
  teardowns = 0;
  releases = 0;
  failed = false;
  asked = false;
}

-- `_connect`, by whether `::connect` has begun to connect.
unfoldable pub connected_conn : Bool → Life
unfolding disp_terminate
connected_conn true = record accepted_conn {
  has_worker = false;
  connecting = true;
  worker_calls = [];
}
connected_conn false =
    disp_terminate (record accepted_conn { has_worker = false; worker_calls = [] })

-- `conn_server`, by whether the descriptor can be written, and whether the timer has called, which
-- has deleted the event.
unfoldable pub conn_server : Bool → Bool → Life → Life
unfolding disp_terminate
conn_server true timeout s = record s {
  connecting = false;
  has_worker = true;
  worker_calls = s.worker_calls ++ (feeds ∷ []);
}
conn_server false timeout s = disp_terminate (record s { connecting = not timeout })

-- ConnPool::on_worker_teardown. Without `ev_socket` there are no more events.
unfoldable pub on_worker_teardown : Life → Life
on_worker_teardown s = record s {
  unfed = if s.has_worker then s.unfed + 1 else s.unfed;
  handshaking = false;
  reading = false;
  teardowns = s.teardowns + 1;
}

-- `release_conn` under `del_conn`. An assertion that fails ends the program.
unfoldable pub del_conn : Life → Life
del_conn s =
    if s.in_pool
    then record s {
      in_pool = false;
      user_calls = s.user_calls ++ (false ∷ []);
      connecting = false;
      handshaking = false;
      reading = false;
      releases = s.releases + 1;
    }
    else record s { failed = true }

-- What the worker does for a connection that can be used.
unfoldable pub set_up : Life → Life
set_up s = record s { disp_calls = s.disp_calls ++ (sets_up ∷ []) }

-- The call of `feed`. If something throws, `on_fatal_error` ends the pool.
unfoldable pub feed : Bool → Bool → Life → Life
unfolding set_up
feed tls true s = s
feed true false s = record s { handshaking = true; fed = s.fed + 1 }
feed false false s = record (set_up s) { fed = s.fed + 1 }

-- The end of `_recv_data_tls_handshake`, by whether `on_worker_setup` throws.
pub hands_shaken : Bool → Life → Life
unfolding set_up worker_terminate
hands_shaken true s = worker_terminate (record s { handshaking = false })
hands_shaken false s = set_up (record s { handshaking = false })

-- A call that the worker runs. `tls` is `enable_tls`.
unfoldable pub run_worker : Bool → Bool → WorkerCall → Life → Life
unfolding feed on_worker_teardown worker_terminate
run_worker tls fatal feeds s = feed tls fatal s
run_worker tls fatal shuts s = if s.terminated then s else record (on_worker_teardown s) {
  terminated = true;
  disp_calls = s.disp_calls ++ (removes ∷ []);
}
run_worker true fatal (listens wanted) s =
    if s.terminated then s else if wanted then record s { reading = true } else worker_terminate s
run_worker false fatal (listens wanted) s = if s.terminated then s else record s { reading = true }

-- A call that the dispatcher runs. `throws` tells whether `on_dispatcher_setup` throws.
unfoldable pub run_disp : Bool → DispCall → Life → Life
unfolding disp_terminate del_conn on_worker_teardown
run_disp throws asks s = disp_terminate s
run_disp throws shuts_unfed s =
    if s.terminated then s else del_conn (record (on_worker_teardown s) { terminated = true })
run_disp throws sets_up s =
    if throws then disp_terminate s else record s { user_calls = s.user_calls ++ (true ∷ []) }
run_disp throws removes s = del_conn s

-- The call of `update_conn` in the user's loop. `wanted` is what `conn_cb` returns.
unfoldable pub run_user : Bool → Bool → Life → Life
run_user wanted true s = record s {
  reported = s.reported ++ (true ∷ []);
  worker_calls = s.worker_calls ++ (listens wanted ∷ []);
}
run_user wanted false s = record s { reported = s.reported ++ (false ∷ []) }

-- What may happen next: an event of `ev_connect`; the end of a handshake; an error on the socket; a
-- call of `terminate` in some thread; or the first call in one of the queues.
pub data Step (tls : Bool) (s : Life) : Life → Type 0 where
  connects : (sent timeout : Bool) → s.connecting ≡ true → Step tls s (conn_server sent timeout s)
  shakes_hands : (fatal : Bool) → s.handshaking ≡ true → Step tls s (hands_shaken fatal s)
  breaks : s.has_worker ≡ true → Step tls s (worker_terminate s)
  is_terminated : Step tls s (record s { disp_calls = s.disp_calls ++ (asks ∷ []); asked = true })
  works :
      (fatal : Bool) (c : WorkerCall) (rest : List WorkerCall)
      → s.worker_calls ≡ c ∷ rest
      → Step tls s (run_worker tls fatal c (record s { worker_calls = rest }))
  dispatches :
      (throws : Bool) (c : DispCall) (rest : List DispCall)
      → s.disp_calls ≡ c ∷ rest
      → Step tls s (run_disp throws c (record s { disp_calls = rest }))
  reports :
      (wanted connected : Bool) (rest : List Bool)
      → s.user_calls ≡ connected ∷ rest
      → Step tls s (run_user wanted connected (record s { user_calls = rest }))

pub data Start : Life → Type 0 where
  accepts : Start accepted_conn
  calls : (begun : Bool) → Start (connected_conn begun)

pub data Run (tls : Bool) (s : Life) : Life → Type 0 where
  none_yet : Run tls s s
  later : {t u : Life} → Run tls s t → Step tls t u → Run tls s u

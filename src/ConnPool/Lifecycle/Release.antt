-- ===== src/ConnPool/Lifecycle/Release.antt =====
-- A connection is torn down and released at most once, and a termination that was asked for is carried out.
pub mod Parts
use salticidae.Base.{
  if-cases, Bool-cases, false≢true, ℕ, ◌+◌, ◌<◌, ◌≤◌, ◌≡◌, refl, sym, ap, ◌∙◌, Bool, true, false,
  not, List, [], ◌∷◌, ◌++◌, if◌then◌else◌, arith,
}
use salticidae.ConnPool.Lifecycle.{
  WorkerCall, feeds, shuts, listens, DispCall, asks, shuts_unfed, sets_up, removes, Life,
  worker_terminate, disp_terminate, accepted_conn, connected_conn, conn_server, on_worker_teardown,
  del_conn, set_up, feed, hands_shaken, run_worker, run_disp, run_user, Step, connects,
  shakes_hands, breaks, is_terminated, works, dispatches, reports, Run, none_yet, Start, accepts,
  calls, later,
}
use salticidae.ConnPool.Lifecycle.Release.Parts.{
  number_one, number_zero, removals-append, disp_shuts-append, worker_shuts-append, Inv, Core, core,
  worker_terminate-Inv, disp_terminate-Inv, same-Inv, conn_server-Inv, set_up-Inv, feed-Inv,
  hands_shaken-Inv, number, removals, disp_shuts, worker_shuts,
}

run_worker-Inv :
    (tls fatal : Bool) (c : WorkerCall) (rest : List WorkerCall) (s : Life)
    → s.worker_calls ≡ c ∷ rest
    → Inv s
    → Inv (run_worker tls fatal c (record s { worker_calls = rest }))
unfolding run_worker on_worker_teardown
run_worker-Inv tls fatal feeds rest s e i =
    feed-Inv tls fatal _
      (same-Inv s _ i refl refl refl refl refl refl refl refl (sym (ap worker_shuts e)))
run_worker-Inv tls fatal shuts rest s e i =
    if-cases Inv s.terminated _ _
      (λ y. record {
        torn_down = i.torn_down;
        removed = i.removed;
        pooled = i.pooled;
        sound = i.sound;
        pending = λ a. omega (arith, ap number y);
      })
      (λ n. record {
        torn_down = omega (arith, i.torn_down, ap number n);
        removed =
            omega (arith, i.removed, ap number n, removals-append s.disp_calls (removes ∷ []));
        pooled = i.pooled;
        sound = i.sound;
        pending = λ a. omega arith;
      })
run_worker-Inv true fatal (listens wanted) rest s e i =
    let t = record s { worker_calls = rest } in
    let listened : Inv t =
      same-Inv s t i refl refl refl refl refl refl refl refl (sym (ap worker_shuts e)) in
    if-cases Inv s.terminated t _ (λ y. listened)
      (λ n.
        if-cases Inv wanted (record t { reading = true }) (worker_terminate t)
          (λ y. same-Inv t _ listened refl refl refl refl refl refl refl refl refl)
          (λ n. worker_terminate-Inv t (core t listened)))
run_worker-Inv false fatal (listens wanted) rest s e i =
    if-cases Inv s.terminated _ _ (λ y. listened)
      (λ n. same-Inv _ _ listened refl refl refl refl refl refl refl refl refl)
  where
    listened : Inv (record s { worker_calls = rest })
    listened = same-Inv s _ i refl refl refl refl refl refl refl refl (sym (ap worker_shuts e))

-- An assertion holds while the connection is in the pool.
del_conn-Inv :
    (s : Life)
    → s.in_pool ≡ true
    → s.releases ≡ 0
    → s.failed ≡ false
    → s.terminated ≡ true
    → s.teardowns ≡ 1
    → removals s.disp_calls ≡ 0
    → Inv (del_conn s)
unfolding del_conn
del_conn-Inv s p r f t d n = rw p record {
  torn_down = omega (arith, d, ap number t);
  removed = omega (arith, n, r, ap number t);
  pooled = omega (arith, r);
  sound = f;
  pending = λ a. omega (arith, ap number t);
}

run_disp-Inv :
    (throws : Bool) (c : DispCall) (rest : List DispCall) (s : Life)
    → s.disp_calls ≡ c ∷ rest
    → Inv s
    → Inv (run_disp throws c (record s { disp_calls = rest }))
unfolding run_disp disp_terminate on_worker_teardown worker_terminate
run_disp-Inv throws asks rest s e i =
    disp_terminate-Inv (record s { disp_calls = rest })
      record {
        torn_down = i.torn_down;
        removed = omega (arith, i.removed, ap removals e);
        pooled = i.pooled;
        sound = i.sound;
      }
run_disp-Inv throws shuts_unfed rest s e i =
    if-cases Inv s.terminated _ _
      (λ y. record {
        torn_down = i.torn_down;
        removed = omega (arith, i.removed, ap removals e);
        pooled = i.pooled;
        sound = i.sound;
        pending = λ a. omega (arith, ap number y);
      })
      (λ n.
        del_conn-Inv _ (number_one s.in_pool (omega (arith, i.pooled, i.removed, ap number n)))
          (omega (arith, i.removed, ap number n)) i.sound refl
          (omega (arith, i.torn_down, ap number n))
          (omega (arith, i.removed, ap number n, ap removals e)))
run_disp-Inv throws sets_up rest s e i =
    let t = record s { disp_calls = rest } in
    let kept : Inv t =
      same-Inv s t i refl refl refl refl refl refl (sym (ap removals e)) (sym (ap disp_shuts e))
        refl in
    if-cases Inv throws (disp_terminate t) _ (λ y. disp_terminate-Inv t (core t kept))
      (λ n. same-Inv t _ kept refl refl refl refl refl refl refl refl refl)
run_disp-Inv throws removes rest s e i =
    let gone : s.terminated ≡ true =
      number_one s.terminated (omega (arith, i.removed, ap removals e)) in
    del_conn-Inv _
      (number_one s.in_pool (omega (arith, i.pooled, i.removed, ap number gone, ap removals e)))
      (omega (arith, i.removed, ap number gone, ap removals e)) i.sound gone
      (omega (arith, i.torn_down, ap number gone))
      (omega (arith, i.removed, ap number gone, ap removals e))

run_user-Inv :
    (wanted connected : Bool) (rest : List Bool) (s : Life)
    → Inv s
    → Inv (run_user wanted connected (record s { user_calls = rest }))
unfolding run_user
run_user-Inv wanted true rest s i =
    same-Inv s _ i refl refl refl refl refl refl refl refl
      (omega (arith, worker_shuts-append s.worker_calls (listens wanted ∷ [])))
run_user-Inv wanted false rest s i = same-Inv s _ i refl refl refl refl refl refl refl refl refl

Step-Inv : (tls : Bool) (s t : Life) → Step tls s t → Inv s → Inv t
Step-Inv tls s _ (connects sent timeout h) i = conn_server-Inv sent timeout s i
Step-Inv tls s _ (shakes_hands fatal h) i = hands_shaken-Inv fatal s i
Step-Inv tls s _ (breaks h) i = worker_terminate-Inv s (core s i)
Step-Inv tls s _ is_terminated i = record {
  torn_down = i.torn_down;
  removed = omega (arith, i.removed, removals-append s.disp_calls (asks ∷ []));
  pooled = i.pooled;
  sound = i.sound;
  pending = λ a. omega (arith, disp_shuts-append s.disp_calls (asks ∷ []));
}
Step-Inv tls s _ (works fatal c rest e) i = run_worker-Inv tls fatal c rest s e i
Step-Inv tls s _ (dispatches throws c rest e) i = run_disp-Inv throws c rest s e i
Step-Inv tls s _ (reports wanted connected rest e) i = run_user-Inv wanted connected rest s i

accepted-Inv : Inv accepted_conn
accepted-Inv = record {
  torn_down = refl;
  removed = refl;
  pooled = refl;
  sound = refl;
  pending = λ a. absurd (false≢true a);
}

connected-Inv : (begun : Bool) → Inv (connected_conn begun)
unfolding connected_conn
connected-Inv true =
    same-Inv accepted_conn _ accepted-Inv refl refl refl refl refl refl refl refl refl
connected-Inv false =
    let t = record accepted_conn { has_worker = false; worker_calls = [] } in
    disp_terminate-Inv t
      (core t (same-Inv accepted_conn t accepted-Inv refl refl refl refl refl refl refl refl refl))

Start-Inv : (s : Life) → Start s → Inv s
Start-Inv _ accepts = accepted-Inv
Start-Inv _ (calls begun) = connected-Inv begun

Run-Inv : (tls : Bool) (s t : Life) → Start s → Run tls s t → Inv t
Run-Inv tls s _ b none_yet = Start-Inv s b
Run-Inv tls s u b (later {t = t} p st) = Step-Inv tls t u st (Run-Inv tls s t b p)

-- However the calls of the threads are ordered, a connection is torn down and released at most once, is
-- in the pool until it is released, and no assertion of `del_conn` fails.
pub Run-releases_le :
    (tls : Bool) (r s : Life)
    → Start r
    → Run tls r s
    → (s.teardowns ≤ 1)
      × (s.releases + number s.in_pool ≡ 1)
      × (s.releases ≤ s.teardowns)
      × (s.failed ≡ false)
Run-releases_le tls r s b p =
    (ground (arith, i.torn_down), i.pooled, omega (arith, i.torn_down, i.removed), i.sound)
  where
    i : Inv s
    i = Run-Inv tls r s b p

-- Once a termination has been asked for, by any thread and any number of times, and no call is left
-- that was queued for the worker or the dispatcher, the connection has been torn down and released
-- exactly once and is not in the pool.
pub Run-quiet :
    (tls : Bool) (r s : Life)
    → Start r
    → Run tls r s
    → s.asked ≡ true
    → s.worker_calls ≡ []
    → s.disp_calls ≡ []
    → (s.terminated ≡ true) × (s.teardowns ≡ 1) × (s.releases ≡ 1) × (s.in_pool ≡ false)
Run-quiet tls r s b p a w d = (
  gone,
  i.torn_down ∙ ap number gone,
  omega (arith, i.removed, ap number gone, ap removals d),
  number_zero s.in_pool (omega (arith, i.pooled, i.removed, ap number gone, ap removals d)),
)
  where
    i : Inv s
    i = Run-Inv tls r s b p

    gone : s.terminated ≡ true
    gone = number_one s.terminated (omega (arith, i.pending a, ap worker_shuts w, ap disp_shuts d))

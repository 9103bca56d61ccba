-- ===== src/ConnPool/Lifecycle/Order/Worker.antt =====
-- The order of the reports, and that the calls of the worker keep it.
use salticidae.Base.{
  ◌+◌, ◌≤◌, ◌≡◌, refl, sym, ap, subst, ◌∙◌, Bool, true, false, List, [], ◌∷◌, ◌++◌, append_assoc,
  if-cases, true≢false, arith,
}
use salticidae.ConnPool.Lifecycle.{
  WorkerCall, feeds, shuts, listens, DispCall, sets_up, removes, Life, worker_terminate,
  disp_terminate, on_worker_teardown, set_up, feed, hands_shaken, run_worker,
}
use salticidae.ConnPool.Lifecycle.Release.Parts.{number, number_zero}
use salticidae.ConnPool.Lifecycle.Order.Reports.{
  trues, falses, IsSorted, trues-append, falses-append, IsSorted-true, IsSorted-false, feeds_in,
  tail, unfed_shuts, setups, feeds_in-append, unfed_shuts-append, setups-append,
}

-- All reports: those made, those queued, and those that the dispatcher will make.
abbrev pub seen : Life → List Bool
seen s = s.reported ++ (s.user_calls ++ setups s.disp_calls)

-- The first call of the worker is the one that feeds, if there is one; nothing is set up when the
-- connection has been terminated.
pub record Ord (s : Life) : Type 0 where
  pub placed : s.has_worker ≡ true
  pub unheard : s.connecting ≡ false
  pub fed_first : feeds_in (tail s.worker_calls) ≡ 0
  pub direct : unfed_shuts s.disp_calls ≡ 0
  pub sorted : IsSorted (seen s)
  pub once : trues (seen s) + number s.handshaking + feeds_in s.worker_calls ≤ 1
  pub ended_once : falses (seen s) ≤ number s.terminated
  pub over : feeds_in s.worker_calls + number s.handshaking + number s.terminated ≤ 1

-- A call that does not feed may be put last.
pub listed :
    (cs : List WorkerCall) (c : WorkerCall)
    → feeds_in (c ∷ []) ≡ 0
    → feeds_in (tail cs) ≡ 0
    → feeds_in (tail (cs ++ (c ∷ []))) ≡ 0
listed [] c n h = refl
listed (x ∷ xs) c n h = omega (arith, feeds_in-append xs (c ∷ []))

-- A step that reports nothing new.
pub quiet-Ord :
    (s t : Life)
    → Ord s
    → t.has_worker ≡ s.has_worker
    → t.connecting ≡ false
    → feeds_in (tail t.worker_calls) ≡ 0
    → unfed_shuts t.disp_calls ≡ 0
    → seen t ≡ seen s
    → number t.handshaking ≤ number s.handshaking
    → feeds_in t.worker_calls ≤ feeds_in s.worker_calls
    → t.terminated ≡ s.terminated
    → Ord t
quiet-Ord s t o hw co ff us se hs fe te = record {
  placed = hw ∙ o.placed;
  unheard = co;
  fed_first = ff;
  direct = us;
  sorted = subst IsSorted (sym se) o.sorted;
  once = omega (arith, o.once, ap trues se, hs, fe);
  ended_once = omega (arith, o.ended_once, ap falses se, ap number te);
  over = omega (arith, o.over, hs, fe, ap number te);
}

pub reads-Ord : (s : Life) → Ord s → Ord (record s { reading = true })
reads-Ord s o =
    quiet-Ord s (record s { reading = true }) o refl o.unheard o.fed_first o.direct refl
      (omega arith) (omega arith) refl

pub worker_terminate-Ord : (s : Life) → Ord s → Ord (worker_terminate s)
unfolding worker_terminate
worker_terminate-Ord s o =
    quiet-Ord s _ o refl o.unheard (listed s.worker_calls shuts refl o.fed_first) o.direct refl
      (omega arith) (omega (arith, feeds_in-append s.worker_calls (shuts ∷ []))) refl

-- With a worker, `disp_terminate` leaves the rest to it.
pub disp_terminate-Ord : (s : Life) → Ord s → Ord (disp_terminate s)
unfolding disp_terminate
disp_terminate-Ord s o =
    if-cases Ord s.has_worker (worker_terminate s) _ (λ y. worker_terminate-Ord s o)
      (λ n. absurd (true≢false (sym o.placed ∙ n)))

pub seen-last :
    (s : Life) (c : DispCall)
    → s.reported ++ (s.user_calls ++ setups (s.disp_calls ++ (c ∷ []))) ≡ seen s ++ setups (c ∷ [])
seen-last s c =
    ap (λ l. s.reported ++ (s.user_calls ++ l)) (setups-append s.disp_calls (c ∷ []))
    ∙ ap (λ l. s.reported ++ l)
        (sym (append_assoc s.user_calls (setups s.disp_calls) (setups (c ∷ []))))
    ∙ sym (append_assoc s.reported (s.user_calls ++ setups s.disp_calls) (setups (c ∷ [])))

-- The connection is set up while nothing was reported and nothing is left to set it up.
pub set_up-Ord :
    (s : Life)
    → Ord s
    → s.terminated ≡ false
    → trues (seen s) + number s.handshaking + feeds_in s.worker_calls ≡ 0
    → Ord (set_up s)
unfolding set_up
set_up-Ord s o open_yet none =
    let last = seen-last s sets_up in
    let more_trues = trues-append (seen s) (true ∷ []) in
    let more_falses = falses-append (seen s) (true ∷ []) in
    record {
      placed = o.placed;
      unheard = o.unheard;
      fed_first = o.fed_first;
      direct = omega (arith, o.direct, unfed_shuts-append s.disp_calls (sets_up ∷ []));
      sorted =
          subst IsSorted (sym last)
            (IsSorted-true (seen s) (omega (arith, o.ended_once, ap number open_yet)));
      once = omega (arith, ap trues last, more_trues, none);
      ended_once = omega (arith, ap falses last, more_falses, o.ended_once);
      over = o.over;
    }

pub shaken-Ord : (s : Life) → Ord s → Ord (record s { handshaking = false })
shaken-Ord s o =
    quiet-Ord s (record s { handshaking = false }) o refl o.unheard o.fed_first o.direct refl
      (omega arith) (omega arith) refl

pub hands_shaken-Ord :
    (fatal : Bool) (s : Life) → s.handshaking ≡ true → Ord s → Ord (hands_shaken fatal s)
unfolding hands_shaken
hands_shaken-Ord true s h o = worker_terminate-Ord _ (shaken-Ord s o)
hands_shaken-Ord false s h o =
    set_up-Ord (record s { handshaking = false }) (shaken-Ord s o)
      (number_zero s.terminated (omega (arith, o.over, ap number h)))
      (omega (arith, o.once, ap number h))

pub tail_le : (cs : List WorkerCall) → feeds_in (tail cs) ≤ feeds_in cs
tail_le [] = omega arith
tail_le (feeds ∷ cs) = omega arith
tail_le (shuts ∷ cs) = omega arith
tail_le (listens w ∷ cs) = omega arith

pub fed_le : (c : WorkerCall) (cs : List WorkerCall) → feeds_in cs ≤ feeds_in (c ∷ cs)
fed_le feeds cs = omega arith
fed_le shuts cs = omega arith
fed_le (listens w) cs = omega arith

-- The worker takes its first call.
pub worker_rest-Ord :
    (c : WorkerCall) (rest : List WorkerCall) (s : Life)
    → s.worker_calls ≡ c ∷ rest
    → Ord s
    → Ord (record s { worker_calls = rest })
worker_rest-Ord c rest s e o =
    quiet-Ord s (record s { worker_calls = rest }) o refl o.unheard
      (omega (arith, tail_le rest, o.fed_first, ap (λ cs. feeds_in (tail cs)) e)) o.direct refl
      (omega arith) (omega (arith, fed_le c rest, ap feeds_in e)) refl

-- The call that feeds is the first, and no other one does.
pub fed-Ord :
    (tls fatal : Bool) (rest : List WorkerCall) (s : Life)
    → s.worker_calls ≡ feeds ∷ rest
    → Ord s
    → Ord (feed tls fatal (record s { worker_calls = rest }))
unfolding feed
fed-Ord tls true rest s e o = worker_rest-Ord feeds rest s e o
fed-Ord true false rest s e o =
    let t = worker_rest-Ord feeds rest s e o in
    let first = ap feeds_in e in
    record {
      placed = o.placed;
      unheard = o.unheard;
      fed_first = t.fed_first;
      direct = o.direct;
      sorted = o.sorted;
      once = omega (arith, o.once, first);
      ended_once = o.ended_once;
      over = omega (arith, o.over, first);
    }
fed-Ord false false rest s e o =
    let first = ap feeds_in e in
    let t = record s { worker_calls = rest } in
    let u =
      set_up-Ord t (worker_rest-Ord feeds rest s e o)
        (number_zero s.terminated (omega (arith, o.over, first))) (omega (arith, o.once, first)) in
    quiet-Ord (set_up t) _ u refl u.unheard u.fed_first u.direct refl (omega arith) (omega arith)
      refl

pub run_worker-Ord :
    (tls fatal : Bool) (c : WorkerCall) (rest : List WorkerCall) (s : Life)
    → s.worker_calls ≡ c ∷ rest
    → Ord s
    → Ord (run_worker tls fatal c (record s { worker_calls = rest }))
unfolding run_worker on_worker_teardown
run_worker-Ord tls fatal feeds rest s e o = fed-Ord tls fatal rest s e o
run_worker-Ord tls fatal shuts rest s e o =
    let t = record s { worker_calls = rest } in
    let k = worker_rest-Ord shuts rest s e o in
    let last = seen-last s removes in
    if-cases Ord s.terminated t _ (λ y. k)
      (λ n. record {
        placed = k.placed;
        unheard = k.unheard;
        fed_first = k.fed_first;
        direct = omega (arith, k.direct, unfed_shuts-append s.disp_calls (removes ∷ []));
        sorted = subst IsSorted (sym last) (IsSorted-false (seen s) o.sorted);
        once = omega (arith, k.once, ap trues last, trues-append (seen s) (false ∷ []));
        ended_once =
            omega (
              arith,
              k.ended_once,
              ap number n,
              ap falses last,
              falses-append (seen s) (false ∷ []),
            );
        over = omega (arith, o.fed_first, ap (λ cs. feeds_in (tail cs)) e);
      })
run_worker-Ord true fatal (listens wanted) rest s e o =
    let t = record s { worker_calls = rest } in
    let k = worker_rest-Ord (listens wanted) rest s e o in
    if-cases Ord s.terminated t _ (λ y. k)
      (λ n.
        if-cases Ord wanted (record t { reading = true }) (worker_terminate t) (λ y. reads-Ord t k)
          (λ n. worker_terminate-Ord t k))
run_worker-Ord false fatal (listens wanted) rest s e o =
    let t = record s { worker_calls = rest } in
    let k = worker_rest-Ord (listens wanted) rest s e o in
    if-cases Ord s.terminated t _ (λ y. k) (λ n. reads-Ord t k)

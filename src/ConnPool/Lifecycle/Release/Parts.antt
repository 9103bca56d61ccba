-- ===== src/ConnPool/Lifecycle/Release/Parts.antt =====
-- What the release of a connection rests on, and that the parts of the handlers keep it.
use salticidae.Base.{
  if-cases, ℕ, ◌+◌, ◌<◌, ◌≡◌, refl, sym, ap, ◌∙◌, Bool, true, false, not, List, [], ◌∷◌, ◌++◌,
  arith,
}
use salticidae.ConnPool.Lifecycle.{
  WorkerCall, feeds, shuts, listens, DispCall, asks, shuts_unfed, sets_up, removes, Life,
  worker_terminate, disp_terminate, conn_server, set_up, feed, hands_shaken,
}

abbrev pub number : Bool → ℕ
number true = 1
number false = 0

pub number_one : (b : Bool) → 0 < number b → b ≡ true
number_one true h = refl
number_one false h = absurd (omega arith)

pub number_zero : (b : Bool) → number b ≡ 0 → b ≡ false
number_zero true h = absurd (omega arith)
number_zero false h = refl

-- The calls that are to remove the connection, and those that are to terminate it.
abbrev pub removals : List DispCall → ℕ
removals [] = 0
removals (removes ∷ cs) = 1 + removals cs
removals (asks ∷ cs) = removals cs
removals (shuts_unfed ∷ cs) = removals cs
removals (sets_up ∷ cs) = removals cs

abbrev pub disp_shuts : List DispCall → ℕ
disp_shuts [] = 0
disp_shuts (removes ∷ cs) = disp_shuts cs
disp_shuts (asks ∷ cs) = 1 + disp_shuts cs
disp_shuts (shuts_unfed ∷ cs) = 1 + disp_shuts cs
disp_shuts (sets_up ∷ cs) = disp_shuts cs

abbrev pub worker_shuts : List WorkerCall → ℕ
worker_shuts [] = 0
worker_shuts (feeds ∷ cs) = worker_shuts cs
worker_shuts (shuts ∷ cs) = 1 + worker_shuts cs
worker_shuts (listens w ∷ cs) = worker_shuts cs

pub removals-append : (xs ys : List DispCall) → removals (xs ++ ys) ≡ removals xs + removals ys
removals-append [] ys = omega arith
removals-append (removes ∷ xs) ys = omega (arith, removals-append xs ys)
removals-append (asks ∷ xs) ys = removals-append xs ys
removals-append (shuts_unfed ∷ xs) ys = removals-append xs ys
removals-append (sets_up ∷ xs) ys = removals-append xs ys

pub disp_shuts-append :
    (xs ys : List DispCall) → disp_shuts (xs ++ ys) ≡ disp_shuts xs + disp_shuts ys
disp_shuts-append [] ys = omega arith
disp_shuts-append (removes ∷ xs) ys = disp_shuts-append xs ys
disp_shuts-append (asks ∷ xs) ys = omega (arith, disp_shuts-append xs ys)
disp_shuts-append (shuts_unfed ∷ xs) ys = omega (arith, disp_shuts-append xs ys)
disp_shuts-append (sets_up ∷ xs) ys = disp_shuts-append xs ys

pub worker_shuts-append :
    (xs ys : List WorkerCall) → worker_shuts (xs ++ ys) ≡ worker_shuts xs + worker_shuts ys
worker_shuts-append [] ys = omega arith
worker_shuts-append (feeds ∷ xs) ys = worker_shuts-append xs ys
worker_shuts-append (shuts ∷ xs) ys = omega (arith, worker_shuts-append xs ys)
worker_shuts-append (listens w ∷ xs) ys = worker_shuts-append xs ys

-- Who set `terminated` has torn the connection down, and either has released it or has queued its removal.
pub record Inv (s : Life) : Type 0 where
  pub torn_down : s.teardowns ≡ number s.terminated
  pub removed : removals s.disp_calls + s.releases ≡ number s.terminated
  pub pooled : s.releases + number s.in_pool ≡ 1
  pub sound : s.failed ≡ false
  pub pending :
      s.asked ≡ true
      → 0 < number s.terminated + worker_shuts s.worker_calls + disp_shuts s.disp_calls

-- What holds in between, when a call to terminate has been taken from its queue.
pub record Core (s : Life) : Type 0 where
  pub torn_down : s.teardowns ≡ number s.terminated
  pub removed : removals s.disp_calls + s.releases ≡ number s.terminated
  pub pooled : s.releases + number s.in_pool ≡ 1
  pub sound : s.failed ≡ false

pub core : (s : Life) → Inv s → Core s
core s i = record {
  torn_down = i.torn_down;
  removed = i.removed;
  pooled = i.pooled;
  sound = i.sound;
}

pub worker_terminate-Inv : (s : Life) → Core s → Inv (worker_terminate s)
unfolding worker_terminate
worker_terminate-Inv s i = record {
  torn_down = i.torn_down;
  removed = i.removed;
  pooled = i.pooled;
  sound = i.sound;
  pending = λ a. omega (arith, worker_shuts-append s.worker_calls (shuts ∷ []));
}

pub disp_terminate-Inv : (s : Life) → Core s → Inv (disp_terminate s)
unfolding disp_terminate
disp_terminate-Inv s i =
    if-cases Inv s.has_worker (worker_terminate s) _ (λ y. worker_terminate-Inv s i)
      (λ n. record {
        torn_down = i.torn_down;
        removed = omega (arith, i.removed, removals-append s.disp_calls (shuts_unfed ∷ []));
        pooled = i.pooled;
        sound = i.sound;
        pending = λ a. omega (arith, disp_shuts-append s.disp_calls (shuts_unfed ∷ []));
      })

-- A change of the other fields.
pub same-Inv :
    (s t : Life)
    → Inv s
    → t.terminated ≡ s.terminated
    → t.teardowns ≡ s.teardowns
    → t.releases ≡ s.releases
    → t.in_pool ≡ s.in_pool
    → t.failed ≡ s.failed
    → t.asked ≡ s.asked
    → removals t.disp_calls ≡ removals s.disp_calls
    → disp_shuts t.disp_calls ≡ disp_shuts s.disp_calls
    → worker_shuts t.worker_calls ≡ worker_shuts s.worker_calls
    → Inv t
same-Inv s t i term down rel pool bad ask rem ds ws = record {
  torn_down = down ∙ i.torn_down ∙ sym (ap number term);
  removed = omega (arith, rem, rel, i.removed, ap number term);
  pooled = omega (arith, rel, i.pooled, ap number pool);
  sound = bad ∙ i.sound;
  pending = λ a. omega (arith, i.pending (sym ask ∙ a), ap number term, ds, ws);
}

pub conn_server-Inv : (sent timeout : Bool) (s : Life) → Inv s → Inv (conn_server sent timeout s)
unfolding conn_server
conn_server-Inv true timeout s i =
    same-Inv s _ i refl refl refl refl refl refl refl refl
      (omega (arith, worker_shuts-append s.worker_calls (feeds ∷ [])))
conn_server-Inv false timeout s i =
    let t = record s { connecting = not timeout } in
    disp_terminate-Inv t (core t (same-Inv s t i refl refl refl refl refl refl refl refl refl))

pub set_up-Inv : (s : Life) → Inv s → Inv (set_up s)
unfolding set_up
set_up-Inv s i =
    same-Inv s _ i refl refl refl refl refl refl
      (omega (arith, removals-append s.disp_calls (sets_up ∷ [])))
      (omega (arith, disp_shuts-append s.disp_calls (sets_up ∷ []))) refl

pub feed-Inv : (tls fatal : Bool) (s : Life) → Inv s → Inv (feed tls fatal s)
unfolding feed
feed-Inv tls true s i = i
feed-Inv true false s i = same-Inv s _ i refl refl refl refl refl refl refl refl refl
feed-Inv false false s i =
    same-Inv (set_up s) _ (set_up-Inv s i) refl refl refl refl refl refl refl refl refl

pub hands_shaken-Inv : (fatal : Bool) (s : Life) → Inv s → Inv (hands_shaken fatal s)
unfolding hands_shaken
hands_shaken-Inv true s i =
    let t = record s { handshaking = false } in
    worker_terminate-Inv t (core t (same-Inv s t i refl refl refl refl refl refl refl refl refl))
hands_shaken-Inv false s i =
    set_up-Inv _ (same-Inv s _ i refl refl refl refl refl refl refl refl refl)

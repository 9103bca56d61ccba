-- ===== src/FreeList.antt =====
-- The class FreeList of include/salticidae/queue.h, which the threads of a queue share. A step is one atomic
-- access of one thread. `freed` is written by `push` and read only by
-- `MPMCQueue::_enqueue`, not by this class, so it is left out.
pub mod Places
pub mod Around
pub mod Accesses
pub mod Ownership
use salticidae.Base.{
  ℕ, ◌+◌, ◌-◌, Bool, true, false, ◌&&◌, List, [], ◌∷◌, ◌++◌, Option, none, some, ◌==◌,
  if◌then◌else◌,
}

-- `top`, and the fields `next` and `refcnt` of the nodes, which are numbered.
pub record Memory : Type 0 where
  pub top : Option ℕ
  pub next : ℕ → Option ℕ
  pub refcnt : ℕ → ℕ

-- What a thread does after `release_ref`: the end of `push`, another round of `pop`, or its return with a node.
pub data After : Type 0 where
  ends again : After
  returns : ℕ → After

-- Where a thread is. In `release_ref`: before `fetch_sub`; in the loop before the load of `top`, before the store
-- of `next`, before the exchange of `top`; before the store of `refcnt`. In `pop`: before the load of `top`, before
-- the load of `refcnt`, before its exchange, before the load of `next`, and before the exchange of `top`.
pub data Point : Type 0 where
  outside : Point
  releasing pushing : ℕ → After → Point
  linking swapping : Option ℕ → ℕ → After → Point
  restoring : ℕ → After → Point
  loading : Point
  seen : ℕ → Point
  counting : ℕ → ℕ → Point
  holding : ℕ → Point
  swinging : ℕ → Option ℕ → Point

-- A thread, and the nodes that it has popped or made.
pub record Thread : Type 0 where
  pub point : Point
  pub owned : List ℕ

abbrev pub same : Option ℕ → Option ℕ → Bool
same none none = true
same none (some v) = false
same (some u) none = false
same (some u) (some v) = u == v

abbrev pub write {ℓ} : {A : Type ℓ} → ℕ → A → (ℕ → A) → ℕ → A
write u a f v = if v == u then a else f v

-- Where `release_ref` returns to.
unfoldable pub after : After → List ℕ → Thread
after ends owned = record { point = outside; owned = owned }
after again owned = record { point = loading; owned = owned }
after (returns u) owned = record { point = outside; owned = u ∷ owned }

abbrev pub at : Point → List ℕ → Thread
at point owned = record { point = point; owned = owned }

unfoldable pub seen_top : Option ℕ → List ℕ → Thread
seen_top none owned = at outside owned
seen_top (some u) owned = at (seen u) owned

-- The next access of a thread. `fails` is true if `compare_exchange_weak` fails without a reason.
unfoldable pub act : Bool → Point → List ℕ → Memory → Thread × Memory
unfolding after seen_top
act fails outside owned m = (at outside owned, m)
act fails (releasing u k) owned m =
    let m' = record m { refcnt = write u (m.refcnt u - 1) m.refcnt } in
    if m.refcnt u == 1 then (at (pushing u k) owned, m') else (after k owned, m')
act fails (pushing u k) owned m = (at (linking m.top u k) owned, m)
act fails (linking t u k) owned m =
    (at (swapping t u k) owned, record m { next = write u t m.next })
act true (swapping t u k) owned m = (at (pushing u k) owned, m)
act false (swapping t u k) owned m =
    if same m.top t
    then (at (restoring u k) owned, record m { top = some u })
    else (at (pushing u k) owned, m)
act fails (restoring u k) owned m = (after k owned, record m { refcnt = write u 1 m.refcnt })
act fails loading owned m = (seen_top m.top owned, m)
act fails (seen u) owned m =
    if m.refcnt u == 0 then (at loading owned, m) else (at (counting u (m.refcnt u)) owned, m)
act true (counting u t) owned m = (at loading owned, m)
act false (counting u t) owned m =
    if m.refcnt u == t
    then (at (holding u) owned, record m { refcnt = write u (t + 1) m.refcnt })
    else (at loading owned, m)
act fails (holding u) owned m = (at (swinging u (m.next u)) owned, m)
act true (swinging u v) owned m = (at (releasing u again) owned, m)
act false (swinging u v) owned m =
    if same m.top (some u)
    then (at (releasing u (returns u)) owned, record m { top = v })
    else (at (releasing u again) owned, m)

pub record State : Type 0 where
  pub memory : Memory
  pub threads : List Thread

-- A thread goes on, or calls `push` for a node that it owns, or calls `pop`.
pub data Step : State → State → Type 0 where
  goes_on :
      (fails : Bool) (before later : List Thread) (t : Thread) (m : Memory)
      → Step
          (record { memory = m; threads = before ++ (t ∷ later) })
          (record {
            memory = (act fails t.point t.owned m).1;
            threads = before ++ ((act fails t.point t.owned m).0 ∷ later);
          })
  calls_push :
      (before later : List Thread) (u : ℕ) (owned : List ℕ) (m : Memory)
      → Step
          (record { memory = m; threads = before ++ (at outside (u ∷ owned) ∷ later) })
          (record { memory = m; threads = before ++ (at (releasing u ends) owned ∷ later) })
  calls_pop :
      (before later : List Thread) (owned : List ℕ) (m : Memory)
      → Step
          (record { memory = m; threads = before ++ (at outside owned ∷ later) })
          (record { memory = m; threads = before ++ (at loading owned ∷ later) })

pub data Run : State → State → Type 0 where
  stays : (s : State) → Run s s
  then_step : (s t u : State) → Run s t → Step t u → Run s u

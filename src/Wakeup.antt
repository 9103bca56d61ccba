-- ===== src/Wakeup.antt =====
-- MPSCQueueEventDriven and ThreadCall of include/salticidae/event.h: producers on any threads and one
-- consumer, an event loop that sleeps until the file descriptor of NotifyFd is readable. A step is one
-- atomic access. A call of `enqueue` of the queue itself is one step here; one that is refused changes
-- nothing and is left out. Producers differ only in how far they are, so that their numbers are enough.
pub mod Invariant
pub mod Progress
use salticidae.Base.{
  ℕ, ◌+◌, ◌≡◌, Bool, true, false, List, [], ◌∷◌, ◌++◌, Option, none, some, ◌==◌, if◌then◌else◌,
  Result, ok, err, Exception, not_avail,
}

-- The consumer: asleep until the descriptor is readable; in its callback before `nfd.reset()`, then
-- before `wait_sig.exchange(true)`; in the loop of ThreadCall after `cnt` elements; and before
-- `nfd.notify()`, after a whole burst.
pub data Consumer : Type 0 where
  asleep woken cleared : Consumer
  draining : ℕ → Consumer
  renotifying : Consumer

-- `entered` producers are between the queue's `enqueue` and `wait_sig.exchange(false)`, and
-- `notifying` ones before `nfd.notify()`. `sent` has all elements ever enqueued, `taken` those that
-- the consumer has dequeued.
pub record Loop (A : Type 0) : Type 0 where
  pub items : List A
  pub wait_sig : Bool
  pub signalled : Bool
  pub entered : ℕ
  pub notifying : ℕ
  pub consumer : Consumer
  pub sent : List A
  pub taken : List A

module _ {A : Type 0} where
  -- The constructor, with the handler registered.
  abbrev pub start : Loop A
  start = record {
    items = [];
    wait_sig = true;
    signalled = false;
    entered = 0;
    notifying = 0;
    consumer = asleep;
    sent = [];
    taken = [];
  }

  -- `enqueue`, in three steps.
  unfoldable pub enter : A → Loop A → Loop A
  enter x s = record s {
    items = s.items ++ (x ∷ []);
    entered = s.entered + 1;
    sent = s.sent ++ (x ∷ []);
  }

  -- One producer leaves `entered`, of which `k` are left. It goes on to notify if `wait_sig` was true.
  unfoldable pub exchange : ℕ → Loop A → Loop A
  exchange k s =
      if s.wait_sig
      then record s { wait_sig = false; entered = k; notifying = s.notifying + 1 }
      else record s { entered = k }

  unfoldable pub notify : ℕ → Loop A → Loop A
  notify k s = record s { signalled = true; notifying = k }

  -- A round of the loop of ThreadCall: the element that it takes, and what comes next.
  unfoldable pub dequeue : ℕ → ℕ → A → List A → Loop A → Loop A
  dequeue burst cnt x rest s = record s {
    items = rest;
    taken = s.taken ++ (x ∷ []);
    consumer = if cnt + 1 == burst then renotifying else draining (cnt + 1);
  }

  -- A step of the producers or of the consumer, with bursts of `burst` elements.
  pub data Step (burst : ℕ) (s : Loop A) : Loop A → Type 0 where
    enters : (x : A) → Step burst s (enter x s)
    exchanges : (k : ℕ) → s.entered ≡ k + 1 → Step burst s (exchange k s)
    notifies : (k : ℕ) → s.notifying ≡ k + 1 → Step burst s (notify k s)
    wakes : s.consumer ≡ asleep → s.signalled ≡ true → Step burst s (record s { consumer = woken })
    resets : s.consumer ≡ woken → Step burst s (record s { signalled = false; consumer = cleared })
    restores :
        s.consumer ≡ cleared → Step burst s (record s { wait_sig = true; consumer = draining 0 })
    takes :
        (cnt : ℕ) (x : A) (rest : List A)
        → s.consumer ≡ draining cnt
        → s.items ≡ x ∷ rest
        → Step burst s (dequeue burst cnt x rest s)
    finds_none :
        (cnt : ℕ)
        → s.consumer ≡ draining cnt
        → s.items ≡ []
        → Step burst s (record s { consumer = asleep })
    renotifies :
        s.consumer ≡ renotifying → Step burst s (record s { signalled = true; consumer = asleep })

  pub data Reach (burst : ℕ) : Loop A → Type 0 where
    initial : Reach burst start
    later : {s t : Loop A} → Reach burst s → Step burst s t → Reach burst t

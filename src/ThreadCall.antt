-- ===== src/ThreadCall.antt =====
-- The handler of ThreadCall in include/salticidae/event.h, over the handles that are in its queue when it
-- runs. The one that wakes it is modelled in Wakeup.
use salticidae.Base.{
  ℕ, ◌+◌, Bool, true, false, List, [], ◌∷◌, Result, err, not_avail, ◌==◌, if◌then◌else◌,
}

-- A call: what its callback returns or throws, and whether it calls `stop`.
pub record Handle : Type 0 where
  pub outcome : Result ℕ
  pub stops : Bool

-- `exec` and the catch block: what the caller receives if it waits, by `stopped`.
pub reply : Bool → Handle → Result ℕ
reply true h = err not_avail
reply false h = h.outcome

after : Bool → Handle → Bool
after true h = true
after false h = h.stops

-- What the handler has done when it returns: the replies, the handles left in the queue, `stopped`,
-- and its result, which tells to run it again.
pub record Served : Type 0 where
  pub replies : List (Result ℕ)
  pub queue : List Handle
  pub stopped : Bool
  pub again : Bool

replied : Result ℕ → Served → Served
replied r s = record s { replies = r ∷ s.replies }

-- The loop after `cnt` handles.
pub serve : ℕ → ℕ → Bool → List Handle → Served
unfolding reply after replied
serve burst cnt stopped [] = record { replies = []; queue = []; stopped = stopped; again = false }
serve burst cnt stopped (h ∷ hs) =
    let rest = serve burst (cnt + 1) (after stopped h) hs in
    replied (reply stopped h) (
      if cnt + 1 == burst
      then record { replies = []; queue = hs; stopped = after stopped h; again = true }
      else rest)

-- The replies that calls get when they are served one by one: their own outcomes up to the first that
-- stops the loop, and not_avail from then on.
unfoldable pub answers : Bool → List Handle → List (Result ℕ)
answers stopped [] = []
answers true (h ∷ hs) = err not_avail ∷ answers true hs
answers false (h ∷ hs) = h.outcome ∷ answers h.stops hs

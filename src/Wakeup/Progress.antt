-- ===== src/Wakeup/Progress.antt =====
-- Everything that is sent is taken: the steps that finish calls and run the consumer come to an end, and
-- only with an empty queue.
use salticidae.Base.{
  ℕ, zero, suc, ◌+◌, ◌*◌, ◌<◌, ◌≤◌, ◌≡◌, ◌⊎◌, inl, inr, refl, ◌∙◌, Bool, true, false, List, [], ◌∷◌,
  length, arith, ◌==◌, if◌then◌else◌, Bool-cases,
}
use salticidae.Wakeup.{
  Loop, Consumer, asleep, woken, cleared, draining, renotifying, exchange, notify, dequeue, Step,
  enters, exchanges, notifies, wakes, resets, restores, takes, finds_none, renotifies, Reach, later,
}
use salticidae.Wakeup.Invariant.{quiet_drained}

abbrev work_of : Consumer → Bool → ℕ
work_of asleep sig = if sig then 5 else 0
work_of woken sig = 4
work_of cleared sig = 2 + (if sig then 5 else 0)
work_of (draining cnt) sig = 1 + (if sig then 5 else 0)
work_of renotifying sig = 6 + (if sig then 5 else 0)

-- A signal adds at most five steps.
signal_cost : (c : Consumer) (sig : Bool) → work_of c true ≤ work_of c sig + 5
signal_cost asleep sig = ground arith
signal_cost woken sig = omega arith
signal_cost cleared sig = ground arith
signal_cost (draining cnt) sig = ground arith
signal_cost renotifying sig = ground arith

module _ {A : Type 0} where
  -- A bound on the steps that are left if nothing more is sent.
  abbrev pub work : Loop A → ℕ
  work s = 8 * length s.items + work_of s.consumer s.signalled + (6 * s.notifying + 7 * s.entered)

  -- The steps but the start of a new call.
  abbrev pub IsInternal : {burst : ℕ} {s t : Loop A} → Step burst s t → Type 0
  IsInternal (enters x) = ⊥
  IsInternal (exchanges k e) = Unit {0}
  IsInternal (notifies k e) = Unit {0}
  IsInternal (wakes e f) = Unit {0}
  IsInternal (resets e) = Unit {0}
  IsInternal (restores e) = Unit {0}
  IsInternal (takes cnt x rest e f) = Unit {0}
  IsInternal (finds_none cnt e f) = Unit {0}
  IsInternal (renotifies e) = Unit {0}

  -- `n` internal steps.
  pub data Run (burst : ℕ) : ℕ → Loop A → Loop A → Type 0 where
    none_left : {s : Loop A} → Run burst zero s s
    and_then :
        {n : ℕ} {s t u : Loop A}
        → Run burst n s t
        → (st : Step burst t u) → IsInternal st
        → Run burst (suc n) s u

  works : (burst : ℕ) (s t : Loop A) (st : Step burst s t) → IsInternal st → work t < work s
  unfolding exchange notify dequeue
  works burst s _ (enters x) h = absurd h
  works burst s _ (exchanges k e) h = ground arith
  works burst s _ (notifies k e) h = omega (arith, signal_cost s.consumer s.signalled)
  works burst s _ (wakes e f) h = rw (e, f) (omega arith)
  works burst s _ (resets e) h = rw e (omega arith)
  works burst s _ (restores e) h = rw e (omega arith)
  works burst s _ (takes cnt x rest e f) h = elim (Bool-cases (cnt + 1 == burst)) [
    | inl y ↦ rw (y, e, f) (omega arith)
    | inr n ↦ rw (n, e, f) (omega arith)
  ]
  works burst s _ (finds_none cnt e f) h = rw (e, f) (omega arith)
  works burst s _ (renotifies e) h = rw e (omega arith)

  -- Calls and rounds that go on are bounded by the work that there is.
  Run-bounded : (burst n : ℕ) (s t : Loop A) → Run burst n s t → n + work t ≤ work s
  Run-bounded burst zero s _ none_left = omega arith
  Run-bounded burst (suc n) s u (and_then {t = t} r st i) =
      omega (arith, Run-bounded burst n s t r, works burst t u st i)

  abbrev pub Next : ℕ → Loop A → Type 0
  Next burst s = (t : Loop A) × (st : Step burst s t) × IsInternal st

  -- Each state has a next internal step, or is quiet.
  Next-or_quiet :
      (burst : ℕ) (s : Loop A)
      → Next burst s
        ⊎ ((s.entered ≡ 0) × (s.notifying ≡ 0) × (s.consumer ≡ asleep) × (s.signalled ≡ false))
  Next-or_quiet burst s = by_parts s.entered s.notifying s.consumer s.signalled refl refl refl refl
    where
      by_items : (cnt : ℕ) (xs : List A) → s.consumer ≡ draining cnt → s.items ≡ xs → Next burst s
      by_items cnt [] e f = (_, finds_none cnt e f, tt)
      by_items cnt (x ∷ rest) e f = (_, takes cnt x rest e f, tt)

      by_parts :
          (e n : ℕ) (c : Consumer) (g : Bool)
          → s.entered ≡ e
          → s.notifying ≡ n
          → s.consumer ≡ c
          → s.signalled ≡ g
          → Next burst s
            ⊎ ((s.entered ≡ 0) × (s.notifying ≡ 0) × (s.consumer ≡ asleep) × (s.signalled ≡ false))
      by_parts (suc k) n c g he hn hc hg = inl (_, exchanges k (omega arith), tt)
      by_parts zero (suc k) c g he hn hc hg = inl (_, notifies k (omega arith), tt)
      by_parts zero zero asleep true he hn hc hg = inl (_, wakes hc hg, tt)
      by_parts zero zero asleep false he hn hc hg = inr (he, hn, hc, hg)
      by_parts zero zero woken g he hn hc hg = inl (_, resets hc, tt)
      by_parts zero zero cleared g he hn hc hg = inl (_, restores hc, tt)
      by_parts zero zero (draining cnt) g he hn hc hg = inl (by_items cnt s.items hc refl)
      by_parts zero zero renotifying g he hn hc hg = inl (_, renotifies hc, tt)

  Run-Reach : (burst n : ℕ) (s t : Loop A) → Reach burst s → Run burst n s t → Reach burst t
  Run-Reach burst zero s _ p none_left = p
  Run-Reach burst (suc n) s u p (and_then {t = t} r st i) = later (Run-Reach burst n s t p r) st

  Run-sent : (burst n : ℕ) (s t : Loop A) → Run burst n s t → t.sent ≡ s.sent
  unfolding exchange notify dequeue
  Run-sent burst zero s _ none_left = refl
  Run-sent burst (suc n) s u (and_then {t = t} r st i) = kept t u st i ∙ Run-sent burst n s t r
    where
      kept : (t u : Loop A) (st : Step burst t u) → IsInternal st → u.sent ≡ t.sent
      kept t _ (enters x) i = absurd i
      kept t _ (exchanges k e) i = ground arith
      kept t _ (notifies k e) i = refl
      kept t _ (wakes e f) i = refl
      kept t _ (resets e) i = refl
      kept t _ (restores e) i = refl
      kept t _ (takes cnt x rest e f) i = refl
      kept t _ (finds_none cnt e f) i = refl
      kept t _ (renotifies e) i = refl

  -- However the steps are ordered, the calls and callbacks that are under way come to an end if
  -- nothing more is sent: a run has at most `work s` steps, and one that cannot go on has taken all
  -- that was sent, in order.
  pub Run-delivers :
      (burst n : ℕ) (s t : Loop A)
      → Reach burst s
      → Run burst n s t
      → (n ≤ work s) × (Next burst t ⊎ ((t.items ≡ []) × (t.taken ≡ s.sent)))
  Run-delivers burst n s t p r = (
    omega (arith, Run-bounded burst n s t r),
    elim (Next-or_quiet burst t) [
      | inl step ↦ inl step
      | inr (e, k, c, g) ↦
          let (drained, all) = quiet_drained burst t (Run-Reach burst n s t p r) e k c g in
          inr (drained, all ∙ Run-sent burst n s t r)
    ],
  )

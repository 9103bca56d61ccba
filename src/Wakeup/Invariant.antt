-- ===== src/Wakeup/Invariant.antt =====
-- No wake-up is lost: an element in the queue is seen by a consumer that is awake, or by one that will
-- be woken.
use salticidae.Base.{
  ℕ, ◌+◌, ◌<◌, ◌≡◌, refl, sym, ap, ◌∙◌, Bool, true, false, List, [], ◌∷◌, ◌++◌, append_assoc,
  append-nil, arith,
}
use salticidae.Wakeup.{
  Loop, Consumer, asleep, woken, cleared, draining, renotifying, start, enter, exchange, notify,
  dequeue, Step, enters, exchanges, notifies, wakes, resets, restores, takes, finds_none,
  renotifies, Reach, initial, later,
}

-- The consumer is in its callback, and has not yet set `wait_sig` again.
abbrev pub before_restore : Consumer → Bool
before_restore woken = true
before_restore cleared = true
before_restore asleep = false
before_restore (draining cnt) = false
before_restore renotifying = false

abbrev pub is_asleep : Consumer → Bool
is_asleep asleep = true
is_asleep woken = false
is_asleep cleared = false
is_asleep (draining cnt) = false
is_asleep renotifying = false

module _ {A : Type 0} where
  abbrev pub is_empty : List A → Bool
  is_empty [] = true
  is_empty (x ∷ xs) = false

  pub record Inv (s : Loop A) : Type 0 where
    pub signal_due :
        s.wait_sig ≡ false
        → s.signalled ≡ false
        → before_restore s.consumer ≡ false
        → 0 < s.notifying
    pub wake_due :
        is_empty s.items ≡ false
        → is_asleep s.consumer ≡ true
        → s.signalled ≡ false
        → 0 < s.notifying + s.entered
    pub in_order : s.taken ++ s.items ≡ s.sent

  start-Inv : Inv start
  start-Inv = record { signal_due = λ a b c. cc; wake_due = λ a b c. cc; in_order = refl }

  Step-Inv : (burst : ℕ) (s t : Loop A) → Step burst s t → Inv s → Inv t
  unfolding enter exchange notify dequeue
  Step-Inv burst s _ (enters x) i = record {
    signal_due = λ a b c. ground arith;
    wake_due = λ a b c. ground arith;
    in_order = sym (append_assoc s.taken s.items (x ∷ [])) ∙ ap (λ l. l ++ (x ∷ [])) i.in_order;
  }
  Step-Inv burst s _ (exchanges k e) i = record {
    signal_due = λ a b c. ground arith;
    wake_due = λ a b c. ground arith;
    in_order = ground arith;
  }
  Step-Inv burst s _ (notifies k e) i = record {
    signal_due = λ a b c. ground arith;
    wake_due = λ a b c. ground arith;
    in_order = i.in_order;
  }
  Step-Inv burst s _ (wakes e f) i = record {
    signal_due = λ a b c. ground arith;
    wake_due = λ a b c. ground arith;
    in_order = i.in_order;
  }
  Step-Inv burst s _ (resets e) i = record {
    signal_due = λ a b c. ground arith;
    wake_due = λ a b c. ground arith;
    in_order = i.in_order;
  }
  Step-Inv burst s _ (restores e) i = record {
    signal_due = λ a b c. ground arith;
    wake_due = λ a b c. ground arith;
    in_order = i.in_order;
  }
  Step-Inv burst s _ (takes cnt x rest e f) i = record {
    signal_due = λ a b c. ground arith;
    wake_due = λ a b c. ground arith;
    in_order = append_assoc s.taken (x ∷ []) rest ∙ rw (sym f) i.in_order;
  }
  Step-Inv burst s _ (finds_none cnt e f) i = record {
    signal_due = λ a b c. ground arith;
    wake_due = λ a b c. ground arith;
    in_order = i.in_order;
  }
  Step-Inv burst s _ (renotifies e) i = record {
    signal_due = λ a b c. ground arith;
    wake_due = λ a b c. ground arith;
    in_order = i.in_order;
  }

  pub Reach-Inv : (burst : ℕ) (s : Loop A) → Reach burst s → Inv s
  Reach-Inv burst s initial = start-Inv
  Reach-Inv burst s (later {s = r} p st) = Step-Inv burst r s st (Reach-Inv burst r p)

  -- When no producer is inside a call and the consumer sleeps with no signal, the queue is empty, and
  -- everything that was sent has been taken, in order and once each.
  pub quiet_drained :
      (burst : ℕ) (s : Loop A)
      → Reach burst s
      → s.entered ≡ 0
      → s.notifying ≡ 0
      → s.consumer ≡ asleep
      → s.signalled ≡ false
      → (s.items ≡ []) × (s.taken ≡ s.sent)
  quiet_drained burst s r e n c g = by_items s.items refl
    where
      open (Reach-Inv burst s r) use {wake_due, in_order}

      by_items : (xs : List A) → s.items ≡ xs → (s.items ≡ []) × (s.taken ≡ s.sent)
      by_items [] h = (h, sym (append-nil s.taken) ∙ rw (sym h) in_order)
      by_items (x ∷ xs) h = absurd (omega (arith, wake_due (ap is_empty h) (ap is_asleep c) g))

-- ===== src/Tests/Loops.antt =====
-- One call that is sent through the queue to a sleeping loop, and a queue of three calls.
use salticidae.Base.{
  ℕ, ◌≤◌, ◌≡◌, ◌⊎◌, refl, true, false, List, [], ◌∷◌, ok, err, insufficient_buffer,
}
use salticidae.Wakeup.{
  asleep, Loop, start, Reach, initial, later, enters, exchanges, notifies, wakes, resets, restores,
  takes, finds_none, enter, exchange, notify, dequeue,
}
use salticidae.Wakeup.Progress.{none_left, and_then, Next, work, Run-delivers}
use salticidae.ThreadCall.{Handle}

abbrev sent_one : Loop ℕ
sent_one = enter 7 start

one_notified : Reach 2 (notify 0 (exchange 0 sent_one))
unfolding enter exchange
one_notified = later (later (later initial (enters 7)) (exchanges 0 refl)) (notifies 0 refl)

abbrev notified : Loop ℕ
notified = notify 0 (exchange 0 sent_one)

-- The steps of the consumer until it sleeps again.
one_taken :
    Reach 2 (record (dequeue 2 0 7 [] (record notified { signalled = false; wait_sig = true })) {
      consumer = asleep;
    })
unfolding enter exchange notify dequeue
one_taken =
    later
      (later (later (later (later one_notified (wakes refl refl)) (resets refl)) (restores refl))
        (takes 0 7 [] refl refl))
      (finds_none 1 refl refl)

abbrev taken_one : Loop ℕ
taken_one = record (dequeue 2 0 7 [] (record notified { signalled = false; wait_sig = true })) {
  consumer = asleep;
}

Run-delivers_example :
    (1 ≤ work sent_one)
    × (Next 2 (exchange 0 sent_one)
        ⊎ (((exchange 0 sent_one).items ≡ []) × ((exchange 0 sent_one).taken ≡ sent_one.sent)))
unfolding enter
Run-delivers_example =
    Run-delivers 2 1 sent_one (exchange 0 sent_one) (later initial (enters 7))
      (and_then none_left (exchanges 0 refl) tt)

-- The second call stops the loop, after which the third is refused.
abbrev three_calls : List Handle
three_calls =
    record { outcome = ok 1; stops = false }
    ∷ record { outcome = err insufficient_buffer; stops = true }
    ∷ record { outcome = ok 3; stops = false }
    ∷ []

-- ===== src/Tests/Dispatch.antt =====
-- Two messages in a burst of one, where a handler is set.
use salticidae.Base.{ℕ, ◌+◌, ◌≡◌, refl, List, [], ◌∷◌, Result, ok}
use salticidae.Stream.{DataStream, size}
use salticidae.Msg.{Msg, get_payload}
use salticidae.Network.Dispatch.{
  Handler, payload_of, run_handler, set_handler, reg_handler, registered,
}
use salticidae.Tests.Messages.{hello}

abbrev sizes : DataStream → Result ℕ
sizes s = ok (size s)

abbrev added : ℕ → ℕ → ℕ → Result ℕ
added n conn w = ok (w + n)

-- A handler for another opcode, set after the one for `hello`. A connection that is terminated counts 100.
abbrev handlers : List (ℕ × Handler ℕ)
handlers =
    (6, λ msg conn w. 0)
    ∷ (
      hello.opcode,
      λ msg conn w.
          run_handler (λ conn w. w + 100) added conn w (payload_of sizes (get_payload msg)),
    )
    ∷ []

-- It is what `reg_handler` makes.
made :
    registered handlers
    ≡ set_handler 6 (λ msg conn w. 0) (reg_handler sizes added (λ conn w. w + 100) hello.opcode [])
unfolding reg_handler
made = refl

abbrev two_messages : List (Msg × ℕ)
two_messages = (hello, 1) ∷ (hello, 2) ∷ []

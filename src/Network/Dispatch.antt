-- ===== src/Network/Dispatch.antt =====
-- How MsgNetwork of include/salticidae/network.h hands the messages to the handlers of the user: the callback
-- of `incoming_msgs` and `reg_handler`.
use salticidae.Base.{
  ℕ, ◌+◌, ◌≡◌, ◌⊎◌, Bool, true, false, List, [], ◌∷◌, Option, none, some, Result, ok, err, ◌==◌,
  if◌then◌else◌, ◌≢◌, ◌++◌, length,
}
use salticidae.Bytes.{All}
use salticidae.Stream.{DataStream}
use salticidae.Msg.{Msg, get_payload}

-- `W` is what handlers change. A connection is a number.
abbrev pub Handler : Type 0 → Type 0
Handler W = Msg → ℕ → W → W

-- `handler_map`, the handler that was set last first.
abbrev pub HandlerMap : Type 0 → Type 0
HandlerMap W = List (ℕ × Handler W)

unfoldable pub payload_of :
    {A : Type 0} → (DataStream → Result A) → Result (DataStream × Msg) → Result A
payload_of parse (err e) = err e
payload_of parse (ok (s, m)) = parse s

-- What the callback leaves: the state, the messages still in the queue, and its result.
pub record Dispatched (W : Type 0) : Type 0 where
  pub world : W
  pub queue : List (Msg × ℕ)
  pub again : Bool

module _ {W : Type 0} where
  pub set_handler : ℕ → Handler W → HandlerMap W → HandlerMap W
  set_handler opcode h m = (opcode, h) ∷ m

  pub find : ℕ → HandlerMap W → Option (Handler W)
  find opcode [] = none
  find opcode ((o, h) ∷ m) = let rest = find opcode m in if o == opcode then some h else rest

  -- The handler that `reg_handler` sets, for a message type with the constructor `parse`; `handler` may
  -- throw, and `terminate` is worker_terminate.
  unfoldable pub run_handler :
      {A : Type 0} → (ℕ → W → W) → (A → ℕ → W → Result W) → ℕ → W → Result A → W
  run_handler terminate handler conn w (err e) = terminate conn w
  run_handler terminate handler conn w (ok a) = by_result (handler a conn w)
    where
      by_result : Result W → W
      by_result (err e) = terminate conn w
      by_result (ok v) = v

  unfoldable pub reg_handler :
      {A : Type 0}
      → (DataStream → Result A)
      → (A → ℕ → W → Result W)
      → (ℕ → W → W)
      → ℕ
      → HandlerMap W
      → HandlerMap W
  unfolding set_handler run_handler payload_of
  reg_handler parse handler terminate opcode m =
      set_handler opcode
        (λ msg conn w. run_handler terminate handler conn w (payload_of parse (get_payload msg))) m

  handle : Option (Handler W) → Msg → ℕ → W → W
  handle none msg conn w = w
  handle (some h) msg conn w = h msg conn w

  -- The callback after `cnt` messages. `system_state` is 1.
  pub dispatch : HandlerMap W → ℕ → ℕ → List (Msg × ℕ) → W → Dispatched W
  unfolding find handle
  dispatch m burst cnt [] w = record { world = w; queue = []; again = false }
  dispatch m burst cnt ((msg, conn) ∷ items) w =
      let v = handle (find msg.opcode m) msg conn w in
      let rest = dispatch m burst (cnt + 1) items v in
      if cnt + 1 == burst then record { world = v; queue = items; again = true } else rest

  -- The map after handlers have been set, the last first.
  abbrev pub registered : List (ℕ × Handler W) → HandlerMap W
  registered [] = []
  registered ((opcode, h) ∷ rs) = set_handler opcode h (registered rs)

  abbrev pub IsOther : ℕ → ℕ × Handler W → Type 0
  IsOther opcode r = r.0 ≢ opcode

  -- Of the handlers that were set, `h` is the last for the opcode: those set later are for others.
  pub record IsLast (rs : List (ℕ × Handler W)) (opcode : ℕ) (h : Handler W) : Type 0 where
    pub later : List (ℕ × Handler W)
    pub earlier : List (ℕ × Handler W)
    pub whole : rs ≡ later ++ ((opcode, h) ∷ earlier)
    pub others : All (IsOther opcode) later

  -- What the messages of a list do, one by one, from the first state to the second: each reaches the last handler
  -- for its opcode, or is skipped if there is none.
  pub data Reach (rs : List (ℕ × Handler W)) : List (Msg × ℕ) → W → W → Type 0 where
    ends : (w : W) → Reach rs [] w w
    reaches :
        (msg : Msg) (conn : ℕ) (items : List (Msg × ℕ)) (h : Handler W) (w v : W)
        → IsLast rs msg.opcode h
        → Reach rs items (h msg conn w) v
        → Reach rs ((msg, conn) ∷ items) w v
    skips :
        (msg : Msg) (conn : ℕ) (items : List (Msg × ℕ)) (w v : W)
        → All (IsOther msg.opcode) rs
        → Reach rs items w v
        → Reach rs ((msg, conn) ∷ items) w v

  -- What the callback has done after `cnt` messages of its burst, on a queue of `items`.
  pub record Serves (rs : List (ℕ × Handler W)) (burst cnt : ℕ) (items : List (Msg × ℕ)) (w : W)
      (d : Dispatched W) : Type 0 where
    pub served : List (Msg × ℕ)
    pub in_order : items ≡ served ++ d.queue
    pub reached : Reach rs served w d.world
    pub ending :
        ((d.again ≡ true) × (cnt + length served ≡ burst) × (served ≢ []))
        ⊎ ((d.again ≡ false) × (d.queue ≡ []) × ((served ≡ []) ⊎ (cnt + length served ≢ burst)))

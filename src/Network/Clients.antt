-- ===== src/Network/Clients.antt =====
-- ClientNetwork of include/salticidae/network.h: the connections by address, and the sending to an address.
-- The handlers run on the dispatcher, one at a time.
use salticidae.Base.{
  ℕ, ◌≡◌, ◌⊎◌, inl, inr, refl, sym, ap, ◌∙◌, Bool, true, false, ◌&&◌, List, [], ◌∷◌, Option, none,
  some, Result, ok, err, client_not_exist, if◌then◌else◌, Bool-cases, if-cases, arith, Option-cases,
}
use salticidae.NetAddr.{NetAddr, is_eq}
use salticidae.Msg.{Msg}

-- `addr2conn`; connections are named by numbers.
abbrev pub AddrMap : Type 0
AddrMap = List (NetAddr × ℕ)

erase : NetAddr → AddrMap → AddrMap
erase a [] = []
erase a ((b, c) ∷ m) = let rest = erase a m in if is_eq b a then rest else (b, c) ∷ rest

pub find : NetAddr → AddrMap → Option ℕ
find a [] = none
find a ((b, c) ∷ m) = let rest = find a m in if is_eq b a then some c else rest

-- `std::unordered_map::insert` keeps an entry that is there.
insert_at : Option ℕ → NetAddr → ℕ → AddrMap → AddrMap
insert_at none a c m = (a, c) ∷ m
insert_at (some d) a c m = m

insert : NetAddr → ℕ → AddrMap → AddrMap
unfolding insert_at
insert a c m = insert_at (find a m) a c m

-- A connection is set up or torn down at its address. The Bool tells whether its mode is PASSIVE.
pub data Event : Type 0 where
  sets_up : Bool → NetAddr → ℕ → Event
  tears_down : NetAddr → ℕ → Event

-- `none` stands for an assert that fails.
pub on_dispatcher_setup : Bool → NetAddr → ℕ → AddrMap → Option AddrMap
unfolding erase insert
on_dispatcher_setup passive a c m = if passive then some (insert a c (erase a m)) else none

pub on_dispatcher_teardown : NetAddr → ℕ → AddrMap → AddrMap
unfolding erase
on_dispatcher_teardown a c m = erase a m

handle : Event → Option AddrMap → Option AddrMap
unfolding on_dispatcher_setup on_dispatcher_teardown
handle e none = none
handle (sets_up passive a c) (some m) = on_dispatcher_setup passive a c m
handle (tears_down a c) (some m) = some (on_dispatcher_teardown a c m)

-- The map after events, the last one first.
unfoldable pub after : List Event → Option AddrMap
unfolding handle
after [] = some []
after (e ∷ es) = handle e (after es)

-- `_send_msg`, where `send` is that of MsgNetwork on a connection.
module _ {W : Type 0} (send : Msg → ℕ → W → Bool × W) where
  sent_to : Option ℕ → Msg → W → Result (Bool × W)
  sent_to none msg w = err client_not_exist
  sent_to (some c) msg w = ok (send msg c w)

  pub send_msg : Msg → NetAddr → AddrMap → W → Result (Bool × W)
  unfolding sent_to
  send_msg msg a m w = sent_to (find a m) msg w

-- What the last event at an address says.
abbrev pub last_at : NetAddr → List Event → Option ℕ
last_at a [] = none
last_at a (sets_up passive b c ∷ es) = let rest = last_at a es in if is_eq b a then some c else rest
last_at a (tears_down b c ∷ es) = let rest = last_at a es in if is_eq b a then none else rest

abbrev pub all_passive : List Event → Bool
all_passive [] = true
all_passive (sets_up passive a c ∷ es) = passive && all_passive es
all_passive (tears_down a c ∷ es) = all_passive es

is_eq_refl : (a : NetAddr) → is_eq a a ≡ true
is_eq_refl a = ground arith

is_eq_left : (a b c : NetAddr) → is_eq a b ≡ true → is_eq b c ≡ is_eq a c
is_eq_left a b c h = ground arith

is_eq_right : (a b c : NetAddr) → is_eq b c ≡ true → is_eq a b ≡ is_eq a c
is_eq_right a b c h = ground arith

find-erase_same : (a b : NetAddr) (m : AddrMap) → is_eq b a ≡ true → find a (erase b m) ≡ none
unfolding find erase
find-erase_same a b [] h = refl
find-erase_same a b ((x, c) ∷ m) h =
    if-cases (λ l. find a l ≡ none) (is_eq x b) (erase b m) ((x, c) ∷ erase b m)
      (λ y. find-erase_same a b m h)
      (λ n. rw (sym (is_eq_right x b a h) ∙ n) (find-erase_same a b m h))

find-erase_other : (a b : NetAddr) (m : AddrMap) → is_eq b a ≡ false → find a (erase b m) ≡ find a m
unfolding find erase
find-erase_other a b [] h = refl
find-erase_other a b ((x, c) ∷ m) h =
    if-cases (λ l. find a l ≡ find a ((x, c) ∷ m)) (is_eq x b) (erase b m) ((x, c) ∷ erase b m)
      (λ y. rw (sym (is_eq_left x b a y) ∙ h) (find-erase_other a b m h))
      (λ n. ap (λ o. if is_eq x a then some c else o) (find-erase_other a b m h))

insert-erase : (a : NetAddr) (c : ℕ) (m : AddrMap) → insert a c (erase a m) ≡ (a, c) ∷ erase a m
unfolding insert insert_at
insert-erase a c m = rw (find-erase_same a a m (is_eq_refl a)) refl

find-set_up :
    (a b : NetAddr) (c : ℕ) (m : AddrMap)
    → find a (insert b c (erase b m)) ≡ (if is_eq b a then some c else find a m)
unfolding find
find-set_up a b c m =
    rw (insert-erase b c m) (elim (Bool-cases (is_eq b a)) [
      | inl y ↦ rw y refl
      | inr n ↦ rw n (find-erase_other a b m n)
    ])

find-torn_down :
    (a b : NetAddr) (m : AddrMap) → find a (erase b m) ≡ (if is_eq b a then none else find a m)
find-torn_down a b m = elim (Bool-cases (is_eq b a)) [
  | inl y ↦ rw y (find-erase_same a b m y)
  | inr n ↦ rw n (find-erase_other a b m n)
]

-- What is known of the map after events: no assert has failed, or one has.
abbrev Agrees : List Event → Option AddrMap → Type 0
Agrees es o =
    ((all_passive es ≡ false) × (o ≡ none))
    ⊎ ((all_passive es ≡ true)
        × (m : AddrMap) × (o ≡ some m)
        × ((a : NetAddr) → find a m ≡ last_at a es))

after_lem : (es : List Event) → Agrees es (after es)
unfolding after find handle on_dispatcher_setup on_dispatcher_teardown
after_lem [] = inr (refl, [], refl, λ a. refl)
after_lem (sets_up true b c ∷ es) = elim (after_lem es) [
  | inl (y, e) ↦ inl (y, ap (handle (sets_up true b c)) e)
  | inr (y, m, e, k) ↦ inr (
    y,
    insert b c (erase b m),
    ap (handle (sets_up true b c)) e,
    λ a. find-set_up a b c m ∙ ap (λ o. if is_eq b a then some c else o) (k a),
  )
]
after_lem (sets_up false b c ∷ es) = elim (after_lem es) [
  | inl (y, e) ↦ inl (refl, ap (handle (sets_up false b c)) e)
  | inr (y, m, e, k) ↦ inl (refl, ap (handle (sets_up false b c)) e)
]
after_lem (tears_down b c ∷ es) = elim (after_lem es) [
  | inl (y, e) ↦ inl (y, ap (handle (tears_down b c)) e)
  | inr (y, m, e, k) ↦ inr (
    y,
    erase b m,
    ap (handle (tears_down b c)) e,
    λ a. find-torn_down a b m ∙ ap (λ o. if is_eq b a then none else o) (k a),
  )
]

-- The map has been kept by events from an empty one. A message to an address goes to the connection that was set
-- up there last, if no connection has been torn down there since, whichever it was; else the call throws
-- CLIENT_NOT_EXIST and sends nothing. The map is lost only if an assert has failed, which happens if and only if a
-- connection that was set up is not passive.
pub send_msg_lem :
    {W : Type 0} (send : Msg → ℕ → W → Bool × W) (msg : Msg) (a : NetAddr) (es : List Event) (w : W)
    → ((all_passive es ≡ false) × (after es ≡ none))
      ⊎ ((all_passive es ≡ true)
          × (m : AddrMap) × (after es ≡ some m)
          × (((last_at a es ≡ none) × (send_msg send msg a m w ≡ err client_not_exist))
              ⊎ ((c : ℕ) × (last_at a es ≡ some c)
                  × (send_msg send msg a m w ≡ ok (send msg c w)))))
unfolding send_msg sent_to
send_msg_lem send msg a es w = elim (after_lem es) [
  | inl k ↦ inl k
  | inr (y, m, e, k) ↦ inr (
    y,
    m,
    e,
    elim (Option-cases (last_at a es)) [
      | inl l ↦ inl (l, ap (λ o. sent_to send o msg w) (k a ∙ l))
      | inr (c, l) ↦ inr (c, l, ap (λ o. sent_to send o msg w) (k a ∙ l))
    ],
  )
]

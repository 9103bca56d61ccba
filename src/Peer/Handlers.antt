-- ===== src/Peer/Handlers.antt =====
-- The handlers of PeerNetwork that the dispatcher runs: a connection is set up or torn down, a ping or
-- a pong arrives. `send_msg` and `disp_terminate` are recorded in the log.
pub mod Agreement
pub mod Teardown
use salticidae.Base.{
  ℕ, Bool, true, false, ◌&&◌, ◌||◌, not, List, [], ◌∷◌, Option, none, some, Exception,
  peer_not_match, ◌==◌, if◌then◌else◌, ltb, dec_pos, is_nonzero,
}
use salticidae.NetAddr.{NetAddr, null_addr, is_null, is_eq}
use salticidae.Peer.{
  passive_nonce, Conn, ConnMode, active, passive, Peer, PeerState, disconnected, connected, reset,
  Delay, Ping, ping, pong, Config, State, Outcome, sends, terminates, resets_timeout, tells,
  tells_unknown, replays, fails,
}
use salticidae.Peer.Store.{
  Action, ◌>>=◌, ◌>>◌, pure, throw, assert, when, given, emit, conn_at, peer_at, put_peer,
  change_peer, known, erase_pending, caught,
}
use salticidae.Peer.Session.{
  get_nonce, get_peer_id, is_disconnected, is_connected, add_retry, reset_ping_timer, send_ping,
  finish_handshake, replace_pending_conn,
}

abbrev is_active : ConnMode → Bool
is_active active = true
is_active passive = false

own_addr : Action NetAddr
own_addr s = Outcome.done s.listen_addr s

greet : Config → ℕ → Conn → Option ℕ → Action Unit
unfolding own_addr
greet config c k none =
    if k.manual
    then (do a ← own_addr; emit (sends c (ping (some (record { claimed_addr = a; nonce = 0 })))))
    else throw peer_not_match
greet config c k (some q) = do
  a ← own_addr
  nonce ← get_nonce config q
  emit (sends c (ping (some (record { claimed_addr = a; nonce = nonce }))))

pub on_dispatcher_setup : Config → ℕ → Action Unit
unfolding greet
on_dispatcher_setup config c = do
  k ← conn_at c
  emit (resets_timeout c)
  found ← known (get_peer_id config k.cert k.addr)
  if is_active k.mode then greet config c k found else replace_pending_conn c

abbrev retry_delay : PeerState → Delay
retry_delay reset = Delay.immediate
retry_delay disconnected = Delay.random
retry_delay connected = Delay.random

-- The two ends of the teardown of a peer's connection: with a deferred ping, and without.
lost : ℕ → ℕ → Option Ping → Action Unit
lost c q (some m) = do
  p ← peer_at q
  emit (replays c m p.inbound_conn)
  put_peer q (record p { inbound_conn = none; inbound_preempt_ping = none })
lost c q none = do
  emit (tells c false)
  change_peer q (λ p. record p { inbound_conn = none; cur_ntry = dec_pos p.cur_ntry })
  p ← peer_at q
  if is_nonzero p.cur_ntry
      then (do put_peer q (record p { nonce = 0 }); add_retry q (retry_delay p.state))
      else put_peer q (record p { nonce = passive_nonce })

ended : ℕ → ℕ → Peer → Action Unit
ended c q p = do
  assert (p.conn == c)
  put_peer q (record p { state = disconnected; outbound_conn = none; ping_timer_armed = false })

teardown : ℕ → Conn → Option ℕ → Action Unit
unfolding ended lost
teardown c k none s = Outcome.done tt s
teardown c k (some q) s =
    when (not (is_active k.mode && k.manual))
      (do
        p ← peer_at q
        when (not (is_disconnected p.state)) (ended c q p)
        lost c q p.inbound_preempt_ping)
      s

pub on_dispatcher_teardown : ℕ → Action Unit
unfolding teardown
on_dispatcher_teardown c = do k ← conn_at c; erase_pending k.addr; teardown c k k.peer

abbrev is_free : Option ℕ → Bool
is_free none = true
is_free (some q) = false

-- A stale handshake connection, other than the new one, is terminated.
drop_stale : Option ℕ → ℕ → Action Unit
drop_stale old c =
    given old
      (λ o. when (not (o == c)) (do k ← conn_at o; assert (is_free k.peer); emit (terminates o)))

answer : Config → Ping → ℕ → ℕ → Peer → PeerState → Action Unit
unfolding own_addr drop_stale
answer config m c q p connected = do
  put_peer q
      (record p { inbound_preempt_ping = some m; inbound_conn = some c; nonce = passive_nonce })
  emit (terminates p.conn)
answer config m c q p reset = pure tt
answer config m c q p disconnected = do
  a ← own_addr
  nonce ← get_nonce config q
  emit (sends c (pong (some (record { claimed_addr = a; nonce = nonce }))))
  drop_stale p.inbound_conn c
  change_peer q (λ r. record r { inbound_conn = some c })
  if ltb m.nonce nonce || is_null p.addr
      then (do change_peer q (λ r. record r { chosen_conn = some c }); finish_handshake q)
      else emit (terminates c)

inbound : Config → Ping → ℕ → Conn → Option ℕ → Action Unit
unfolding answer
inbound config m c k none = do emit (tells_unknown m.claimed_addr k.cert); emit (terminates c)
inbound config m c k (some q) =
    when (not (m.nonce == 0)) (do p ← peer_at q; answer config m c q p p.state)

greeted : Config → Ping → ℕ → Conn → Action Unit
unfolding inbound
greeted config m c k =
    if is_null m.claimed_addr
    then emit (sends c (pong none))
    else when (not (is_active k.mode))
        (do found ← known (get_peer_id config k.cert m.claimed_addr); inbound config m c k found)

-- The body of `ping_handler`. Without a flag the claimed address is null.
pub ping_handler : Config → Option Ping → ℕ → Action Unit
unfolding greeted
ping_handler config m c s =
    caught fails ((do k ← conn_at c; when (not k.terminated) (on_message m k)) s)
  where
    on_message : Option Ping → Conn → Action Unit
    on_message none k = emit (sends c (pong none))
    on_message (some m) k = greeted config m c k

-- A pong on a connection that `pong_handler` has looked up.
accept : Config → Ping → ℕ → ℕ → Peer → Action Unit
unfolding drop_stale
accept config m c q p = when (is_disconnected p.state && is_eq p.addr m.claimed_addr) (do
  drop_stale p.outbound_conn c
  change_peer q (λ r. record r { outbound_conn = some c })
  nonce ← get_nonce config q
  if ltb nonce m.nonce
      then (do
        change_peer q (λ r. record r { chosen_conn = some c })
        reset_ping_timer q
        finish_handshake q)
      else emit (terminates c))

outbound : Config → Ping → ℕ → Conn → Option ℕ → Action Unit
unfolding accept
outbound config m c k none = emit (terminates c)
outbound config m c k (some q) = do
  p ← peer_at q
  assert (not (is_null p.addr) && is_eq p.addr k.addr)
  accept config m c q p

-- A heartbeat's pong.
beat : Option ℕ → Action Unit
beat none = pure tt
beat (some q) = do
  change_peer q (λ p. record p { pong_msg_ok = true })
  p ← peer_at q
  when p.ping_timer_ok (do reset_ping_timer q; send_ping q)

answered : Config → Ping → ℕ → Conn → Action Unit
unfolding outbound beat
answered config m c k =
    if is_null m.claimed_addr
    then beat k.peer
    else when (is_active k.mode)
        (do found ← known (get_peer_id config k.cert k.addr); outbound config m c k found)

-- The body of `pong_handler`.
pub pong_handler : Config → Option Ping → ℕ → Action Unit
unfolding answered beat
pong_handler config m c s =
    caught fails ((do k ← conn_at c; when (not k.terminated) (on_message m k)) s)
  where
    on_message : Option Ping → Conn → Action Unit
    on_message none k = beat k.peer
    on_message (some m) k = answered config m c k

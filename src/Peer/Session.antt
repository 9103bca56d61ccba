-- ===== src/Peer/Session.antt =====
-- What the handlers of PeerNetwork share: nonces, the ping timer, and the functions that establish a
-- connection. Timers are those that `add` and `del` leave; the length of a delay is left out.
pub mod Establishment
pub mod Nonces
use salticidae.Base.{
  ℕ, ◌+◌, Bool, true, false, List, [], ◌∷◌, Option, none, some, Result, ok, err, Exception,
  rand_source, ◌==◌, if◌then◌else◌, not,
}
use salticidae.NetAddr.{NetAddr, is_null}
use salticidae.Peer.{
  Conn, active, passive, Peer, PeerState, disconnected, connected, reset, RetryTimer, unset,
  stopped, armed, Delay, Ping, ping, pong, Config, State, Outcome, done, sends, writes, terminates,
  resets_timeout, tells, fails,
}
use salticidae.Peer.Store.{
  Action, ◌>>=◌, ◌>>◌, pure, throw, assert, when, given, emit, conn_at, change_conn, peer_at,
  put_peer, change_peer, erase_pending, pending_at, insert_pending, update, caught,
}

-- `Peer::get_nonce` on a Peer: the nonce is drawn when it is 0.
drawn : Option ℕ → Action ℕ
drawn none = throw rand_source
drawn (some n) = pure (n + 1)

unfoldable pub get_nonce : Config → ℕ → Action ℕ
unfolding drawn
get_nonce config q = do
  p ← peer_at q
  nonce ← if p.nonce == 0 then drawn config.rand_bytes else pure p.nonce
  put_peer q (record p { nonce = nonce })
  pure nonce

-- `get_peer_id`, from the certificate of the connection.
unfoldable pub get_peer_id : Config → ℕ → NetAddr → ℕ
get_peer_id config cert a =
    if not config.enable_tls
    then config.id_of_addr a
    else if config.addr_based
    then config.id_of_addr a
    else config.id_of_cert cert

abbrev pub is_disconnected : PeerState → Bool
is_disconnected disconnected = true
is_disconnected connected = false
is_disconnected reset = false

abbrev pub is_connected : PeerState → Bool
is_connected connected = true
is_connected disconnected = false
is_connected reset = false

abbrev pub is_set : RetryTimer → Bool
is_set unset = false
is_set stopped = true
is_set (armed d) = true

-- `ev_retry_timer.add`, which asserts that the timer has been set up, and `ev_retry_timer.del`.
unfoldable pub add_retry : ℕ → Delay → Action Unit
add_retry q d = do
  p ← peer_at q
  assert (is_set p.retry_timer)
  put_peer q (record p { retry_timer = armed d })

abbrev pub deleted : RetryTimer → RetryTimer
deleted unset = unset
deleted stopped = stopped
deleted (armed d) = stopped

unfoldable pub reset_ping_timer : ℕ → Action Unit
reset_ping_timer q = change_peer q (λ p. record p { ping_timer_armed = true })

-- `send_ping` through the chosen connection, which is not null where it is called.
heartbeat : Option ℕ → Action Unit
heartbeat none s = Outcome.aborts
heartbeat (some c) s = (do emit (resets_timeout c); emit (sends c (ping none))) s

unfoldable pub send_ping : ℕ → Action Unit
unfolding heartbeat
send_ping q = do
  change_peer q (λ p. record p { ping_timer_ok = false; pong_msg_ok = false })
  p ← peer_at q
  heartbeat p.chosen_conn

-- The callback of the ping timer, which has fired.
unfoldable pub ping_timer : ℕ → Action Unit
unfolding reset_ping_timer send_ping
ping_timer q = do
  change_peer q (λ p. record p { ping_timer_armed = false; ping_timer_ok = true })
  p ← peer_at q
  when p.pong_msg_ok (do reset_ping_timer q; send_ping q)

-- The loop of `finish_handshake`, which hands the segments of the old connection to the new one.
unfoldable pub move_segments : ℕ → List (List ℕ) → Action (List (List ℕ))
move_segments new [] = pure []
move_segments new ([] ∷ segs) = pure segs
move_segments new ((b ∷ bs) ∷ segs) = do emit (writes new (b ∷ bs)); move_segments new segs

adopt : ℕ → ℕ → Option ℕ → Action Unit
unfolding move_segments
adopt q old none s = Outcome.aborts
adopt q old (some new) s =
    (do
      o ← conn_at old
      assert o.terminated
      left ← move_segments new o.send_buffer
      change_conn old (λ c. record c { send_buffer = left; peer = none })
      change_peer q (λ p. record p { conn = new })
      change_conn new (λ c. record c { peer = some q })
      emit (tells new true)
      c ← conn_at new
      erase_pending c.addr)
      s

unfoldable pub finish_handshake : ℕ → Action Unit
unfolding reset_ping_timer send_ping adopt
finish_handshake q = do
  p ← peer_at q
  assert (is_disconnected p.state)
  given p.outbound_conn (λ c. change_conn c (λ k. record k { peer = none }))
  put_peer q (record p {
    ping_timer_armed = false;
    inbound_conn = none;
    outbound_conn = none;
    state = connected;
  })
  reset_ping_timer q
  send_ping q
  change_peer q (λ p. record p { retry_timer = deleted p.retry_timer; cur_ntry = p.ntry })
  r ← peer_at q
  adopt q r.conn r.chosen_conn

-- The connection that is replaced is erased, so that the insertion takes effect.
unfoldable pub replace_pending_conn : ℕ → Action Unit
replace_pending_conn c = do
  k ← conn_at c
  old ← pending_at k.addr
  given old (λ o. when (not (o == c)) (do emit (terminates o); erase_pending k.addr))
  insert_pending k.addr c

-- `start_active_conn`. `opened` is how the socket calls of `ConnPool::_connect` end; `cert` is read
-- only after the worker has set the connection up.
made : NetAddr → Result (Unit {0}) → ℕ → Action ℕ
made a (err e) q s = throw e s
made a (ok u) q s = done s.next_conn (record s {
  conns =
      update s.next_conn
        (record {
          mode = active;
          addr = a;
          cert = 0;
          terminated = false;
          peer = some q;
          manual = false;
          send_buffer = [];
        })
        s.conns;
  next_conn = s.next_conn + 1;
})

absent : Option ℕ → Bool
absent none = true
absent (some c) = false

unfoldable pub start_active_conn : Result (Unit {0}) → ℕ → Action Unit
unfolding made absent
start_active_conn opened q = do
  p ← peer_at q
  assert (not (is_null p.addr))
  c ← made p.addr opened q
  given p.outbound_conn (λ o. emit (terminates o))
  put_peer q (record p { outbound_conn = some c })
  old ← pending_at p.addr
  assert (absent old)

-- The callback of the retry timer, which has fired.
unfoldable pub retry : Result (Unit {0}) → ℕ → Action Unit
unfolding start_active_conn add_retry
retry opened q s = caught fails (
    (do
      change_peer q (λ p. record p { retry_timer = deleted p.retry_timer })
      start_active_conn opened q
      add_retry q Delay.random)
      s)

-- ===== src/Tests/Peers.antt =====
-- A handshake between two peers.
use salticidae.Base.{
  ℕ, ◌≤◌, ◌<◌, ◌≡◌, refl, ◌⊎◌, Bool, true, false, [], Option, none, some, ok, arith, pos, ◌==◌,
  if◌then◌else◌,
}
use salticidae.NetAddr.{NetAddr}
use salticidae.Peer.{
  Ping, Conn, ConnMode, active, passive, Peer, disconnected, stopped, Config, State,
}
use salticidae.Peer.Messages.{of_ping, to_ping, to_ping-of_ping}
use salticidae.Peer.Session.{get_peer_id}
use salticidae.Peer.Session.Establishment.{Establishes}
use salticidae.Peer.Handlers.{ping_handler, pong_handler}
use salticidae.Peer.Handlers.Agreement.{IsGreeted, IsAnswered, Declines, handshake_agrees}
use salticidae.Tests.Platforms.{little}

-- 127.0.0.1, as a little-endian host holds it.
abbrev local : NetAddr
local = record { ip = 0x0100007f; port = 0x1027 }

abbrev greeting : Ping
greeting = record { claimed_addr = local; nonce = 258 }

to_ping-of_ping_example : to_ping little (of_ping little (some greeting)) ≡ ok (some greeting)
to_ping-of_ping_example =
    to_ping-of_ping little (some greeting) (omega arith, omega arith, omega arith)

-- Two networks that take the port for the id: one listens at port 1, the other at port 2.
abbrev at_port : ℕ → NetAddr
at_port n = record { ip = 5; port = n }

abbrev ports : Config
ports = record {
  enable_tls = false;
  addr_based = true;
  id_of_addr = NetAddr.port;
  id_of_cert = λ c. c;
  rand_bytes = some 8;
}

-- The other end at port `n`, disconnected, whose last connection is the number 0.
abbrev pub other_end : ℕ → ℕ → Option ℕ → Peer
other_end n nonce out = record {
  addr = at_port n;
  nonce = nonce;
  conn = 0;
  ntry = pos 3;
  cur_ntry = pos 2;
  retry_timer = stopped;
  chosen_conn = none;
  inbound_conn = none;
  outbound_conn = out;
  ping_timer_armed = false;
  ping_timer_ok = false;
  pong_msg_ok = false;
  inbound_preempt_ping = none;
  state = disconnected;
}

abbrev pub conn_to : ConnMode → ℕ → Bool → Conn
conn_to mode n ended = record {
  mode = mode;
  addr = at_port n;
  cert = 0;
  terminated = ended;
  peer = none;
  manual = false;
  send_buffer = [];
}

-- A network that listens at port `here` and has the connection 1 to a known peer at `there`.
abbrev pub network : ℕ → ConnMode → ℕ → Peer → State
network here mode there p = record {
  conns = λ c. if c == 1 then conn_to mode there false else conn_to passive there true;
  peers = λ q. if q == 0 then some p else none;
  known_peers = λ i. if i == there then some 0 else none;
  pending_peers = λ a. none;
  listen_addr = at_port here;
  next_conn = 2;
  next_peer = 1;
  log = [];
}

-- The nonce of the second end is drawn when the ping arrives.
abbrev caller : State
caller = network 1 active 2 (other_end 2 4 (some 1))

abbrev called : State
called = network 2 passive 1 (other_end 1 0 none)

called-IsGreeted :
    IsGreeted ports
      (record { claimed_addr = at_port 1; nonce = 4 })
      0
      1
      9
      (other_end 1 0 none)
      called
unfolding get_peer_id
called-IsGreeted = record {
  alive = refl;
  is_passive = refl;
  is_handshake = refl;
  has_nonce = refl;
  known = refl;
  stored = refl;
  is_disconnected = refl;
  nonce = refl;
  has_addr = refl;
  no_inbound = refl;
  over = refl;
}

caller-IsAnswered :
    IsAnswered ports
      (record { claimed_addr = at_port 2; nonce = 9 })
      0
      1
      4
      (other_end 2 4 (some 1))
      caller
unfolding get_peer_id
caller-IsAnswered = record {
  alive = refl;
  is_active = refl;
  is_handshake = refl;
  known = refl;
  stored = refl;
  is_disconnected = refl;
  nonce = refl;
  has_addr = refl;
  connects_to = refl;
  claims = refl;
  started = refl;
  over = refl;
}

handshake_agrees_example :
    ((4 < 9)
      × Establishes 0 1
          (ping_handler ports (some (record { claimed_addr = at_port 1; nonce = 4 })) 1 called)
      × Establishes 0 1
          (pong_handler ports (some (record { claimed_addr = at_port 2; nonce = 9 })) 1 caller))
    ⊎ ((9 ≤ 4)
        × Declines 0 1
            (ping_handler ports (some (record { claimed_addr = at_port 1; nonce = 4 })) 1 called)
        × Declines 0 1
            (pong_handler ports (some (record { claimed_addr = at_port 2; nonce = 9 })) 1 caller))
handshake_agrees_example =
    handshake_agrees ports ports (record { claimed_addr = at_port 1; nonce = 4 })
      (record { claimed_addr = at_port 2; nonce = 9 }) 0 1 0 1 (other_end 2 4 (some 1))
      (other_end 1 0 none) caller called called-IsGreeted caller-IsAnswered

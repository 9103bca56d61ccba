-- ===== src/Tests/Io.antt =====
-- A connection on a channel with little room.
use salticidae.Base.{
  ℕ, zero, suc, ◌-◌, ◌≤◌, min, ◌≡◌, refl, ap, true, false, List, [], ◌∷◌, length, replicate, ◌==◌,
  arith, length-replicate,
}
use salticidae.Buffer.{empty}
use salticidae.ConnPool.{Sent, accepted, send_fails, Received, bytes, recv_fails, Channel, Conn}
use salticidae.ConnPool.Sending.{Output, send_data}
use salticidae.ConnPool.Sending.Delivery.{Ends, send_data-Ends}
use salticidae.ConnPool.Receiving.{Input}

-- The number of bytes that the socket still takes, and of those that wait in it.
abbrev put : ℕ → List ℕ → Sent × ℕ
put zero bs = (send_fails 11, 0)
put (suc room) bs = (accepted (min (suc room) (length bs)), suc room - length bs)

abbrev fetch : ℕ → ℕ → Received × ℕ
fetch zero n = (recv_fails 11, 0)
fetch (suc ready) n = (bytes (replicate (min (suc ready) n) 7), suc ready - n)

abbrev number : Sent → ℕ
number (accepted n) = n
number (send_fails code) = 0

abbrev fetched : Received → List ℕ
fetched (bytes bs) = bs
fetched (recv_fails code) = []

put-le : (w : ℕ) (bs : List ℕ) (n : ℕ) → (put w bs).0 ≡ accepted n → n ≤ length bs
put-le zero bs n h = omega (arith, ap number h)
put-le (suc room) bs n h = omega (arith, ap number h)

fetch-le : (w : ℕ) (n : ℕ) (bs : List ℕ) → (fetch w n).0 ≡ bytes bs → length bs ≤ n
fetch-le zero n bs h = omega (arith, ap (λ r. length (fetched r)) h)
fetch-le (suc ready) n bs h =
    omega (arith, ap (λ r. length (fetched r)) h, length-replicate {A = ℕ} (min (suc ready) n) 7)

abbrev narrow : Channel
narrow = record {
  World = ℕ;
  send = put;
  recv = fetch;
  send_again = λ code. code == 11;
  recv_again = λ code. code == 11;
  accepted-le = put-le;
  bytes-le = fetch-le;
}

-- Two segments wait to be sent.
abbrev busy : Conn
busy = record {
  recv_chunk_size = 2;
  max_recv_buff_size = 2;
  send_buffer = (1 ∷ 2 ∷ []) ∷ (3 ∷ 4 ∷ []) ∷ [];
  recv_buffer = empty;
  events = record { read = true; write = true };
  ready_send = false;
  ready_recv = false;
  terminations = 0;
  reads = 0;
}

abbrev three_fit : Output narrow
three_fit = record { conn = busy; world = 3; wire = [] }

abbrev five_wait : Input narrow
five_wait = record { conn = busy; world = 5; wire = []; starved = false }

send_data-Ends_example : Ends narrow 0 (send_data narrow false three_fit).conn
send_data-Ends_example = send_data-Ends narrow three_fit (omega arith, (omega arith, tt)) refl refl

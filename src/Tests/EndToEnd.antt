-- ===== src/Tests/EndToEnd.antt =====
-- Two messages from end to end.
use salticidae.Base.{
  ℕ, ◌≤◌, min, ◌≡◌, refl, sym, ap, true, false, List, [], ◌∷◌, ◌++◌, map, length, take, drop, ◌==◌,
  arith, take-append-drop, length-take,
}
use salticidae.Bytes.{le_bytes, from_le}
use salticidae.Stream
use salticidae.Stream.{move_bytes, put_data, put_int, of_bytes, get_int}
use salticidae.Buffer
use salticidae.Buffer.{empty}
use salticidae.Msg.{Msg, serialize, of_stream, verify_checksum, set_payload, get_length}
use salticidae.ConnPool.{
  Sent, accepted, send_fails, Received, bytes, recv_fails, Channel, Pipe, Conn,
}
use salticidae.ConnPool.Sending.{on_written, send_data, send_loop, drained, unsent, is_whole}
use salticidae.ConnPool.Receiving.{recv_data, recv_loop, answered, full, finished, pushed}
use salticidae.Network.Reader.{on_read, read_loop, round, read_header, read_payload}
use salticidae.Network.Reader.Rounds.{tag, sleeping}
use salticidae.System.{
  System, after_send, after_recv, Event, sends, refuses, writes, resumes, retries, takes_one,
  writable, arrives, run,
}
use salticidae.System.Delivery.{IsIdle, run-delivers, run-settles}
use salticidae.Network.Reader.Delivery.{readable}
use salticidae.Network.Reader.Delivery.History.{step}
use salticidae.Tests.Platforms.{little}
use salticidae.Tests.Messages.{hello, link, link-IsFresh, one_place, two_fit}

-- A call of `send` takes at most twelve bytes of a segment.
abbrev number : Sent → ℕ
number (accepted n) = n
number (send_fails code) = 0

abbrev fetched : Received → List ℕ
fetched (bytes bs) = bs
fetched (recv_fails code) = []

twelve-le : (bs : List ℕ) (n : ℕ) → accepted (min 12 (length bs)) ≡ accepted n → n ≤ length bs
twelve-le bs n h = omega (arith, ap number h)

take-le : (w : List ℕ) (n : ℕ) (bs : List ℕ) → bytes (take n w) ≡ bytes bs → length bs ≤ n
take-le w n bs h = omega (arith, ap (λ r. length (fetched r)) h, length-take n w)

abbrev socket : Channel
socket = record {
  World = List ℕ;
  send = λ w bs. (accepted (min 12 (length bs)), w ++ take (min 12 (length bs)) bs);
  recv = λ w n. (bytes (take n w), drop n w);
  send_again = λ code. code == 11;
  recv_again = λ code. code == 11;
  accepted-le = λ w bs n h. twelve-le bs n h;
  bytes-le = take-le;
}

abbrev slow_pipe : Pipe
slow_pipe = record {
  channel = socket;
  in_flight = λ w. w;
  adds = λ w bs. refl;
  gives = λ w n. sym (take-append-drop n w);
}

abbrev conn : Conn
conn = record {
  recv_chunk_size = 8;
  max_recv_buff_size = 100;
  send_buffer = [];
  recv_buffer = empty;
  events = record { read = true; write = false };
  ready_send = true;
  ready_recv = false;
  terminations = 0;
  reads = 0;
}

abbrev idle : System little one_place 100 slow_pipe
idle = record { sender = conn; receiver = conn; world = []; link = link }

idle-IsIdle : IsIdle little one_place 100 slow_pipe idle
idle-IsIdle = record { none_queued = refl; none_flying = refl; link_fresh = link-IsFresh }

abbrev events : List Event
events =
    sends hello
    ∷ refuses hello
    ∷ writes
    ∷ arrives false
    ∷ sends hello
    ∷ writable false
    ∷ arrives false
    ∷ takes_one
    ∷ []

run-delivers_example :
    let t = (run little one_place 100 slow_pipe idle events).link in
    (rest : List Msg) × (t.taken
        ++ (t.queue
            ++ (sleeping little one_place 100 t.conn ++ map (tag little one_place 100 9) rest))
      ≡ (hello, 9) ∷ (hello, 9) ∷ [])
unfolding serialize le_bytes move_bytes put_data put_int Stream.empty
run-delivers_example =
    run-delivers little one_place 100 slow_pipe events idle idle-IsIdle two_fit (omega arith)

abbrev all_events : List Event
all_events = sends hello ∷ writes ∷ arrives false ∷ writable false ∷ arrives false ∷ []

run-settles_example :
    let t = run little one_place 100 slow_pipe idle all_events in
    let u = step little one_place 100 t.link readable in u.taken ++ u.queue ≡ (hello, 9) ∷ []
unfolding run salticidae.System.step after_send after_recv on_written send_data send_loop drained
    unsent is_whole recv_data recv_loop answered full finished pushed serialize le_bytes move_bytes
    put_data put_int Stream.empty step on_read read_loop round read_header read_payload Buffer.pop
    Buffer.push Buffer.size Buffer.empty Buffer.len of_stream of_bytes get_int from_le
    verify_checksum set_payload get_length
run-settles_example =
    run-settles little one_place 100 slow_pipe all_events idle idle-IsIdle two_fit.1 (omega arith)
      refl refl

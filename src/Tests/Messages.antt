-- ===== src/Tests/Messages.antt =====
-- Messages and the connection that reads them.
use salticidae.Base.{
  ℕ, ◌≡◌, ◌≢◌, refl, true, false, List, [], ◌∷◌, ◌++◌, map, Option, none, some, ok, length, take,
  drop, arith,
}
use salticidae.Bytes.{le_bytes, from_le, All}
use salticidae.Stream.{of_bytes, empty, put_data, put_int, move_bytes}
use salticidae.Buffer
use salticidae.Buffer.Contents
use salticidae.Msg.{Msg, header_size, of_stream, serialize, set_payload, verify_checksum}
use salticidae.Msg.RoundTrip.{IsSendable, header_bytes, receive-serialize}
use salticidae.Network.Reader.{Inbox, Conn, header, starved, on_read}
use salticidae.Network.Reader.Framing.{on_read-ne-starved}
use salticidae.Network.Reader.Rounds.{Fits, tag, sleeping}
use salticidae.Network.Reader.Delivery.{Event, segment, readable, takes}
use salticidae.Network.Reader.Delivery.History.{Link, IsFresh, run, run-prefix}
use salticidae.Tests.Platforms.{little}

abbrev pub hello : Msg
hello = record {
  magic = 7;
  opcode = 5;
  length_field = 2;
  checksum = 3;
  payload = 1 ∷ 2 ∷ [];
  no_payload = false;
}

pub hello-IsSendable : IsSendable little hello
unfolding verify_checksum from_le
hello-IsSendable = record {
  in_range = record {
    magic_fits = omega arith;
    opcode_fits = omega arith;
    length_fits = omega arith;
    checksum_fits = omega arith;
  };
  measured = refl;
  filled = refl;
  verified = refl;
}

receive-serialize_example :
    (h : Msg) × (of_stream little (of_bytes (take header_size (serialize little hello))) ≡ ok h)
    × (h.length_field ≡ length (drop header_size (serialize little hello)))
    × (set_payload (drop header_size (serialize little hello)) h ≡ hello)
receive-serialize_example = receive-serialize little hello hello-IsSendable

-- A queue of one message.
abbrev pub put_one : Msg × ℕ → List (Msg × ℕ) → Option (List (Msg × ℕ))
put_one x [] = some (x ∷ [])
put_one x (y ∷ ys) = none

abbrev pub take_one : List (Msg × ℕ) → Option ((Msg × ℕ) × List (Msg × ℕ))
take_one [] = none
take_one (x ∷ xs) = some (x, xs)

pub contents-put_one :
    (x : Msg × ℕ) (q r : List (Msg × ℕ)) → put_one x q ≡ some r → r ≡ q ++ (x ∷ [])
contents-put_one x [] r e = ground arith
contents-put_one x (y ∷ ys) r e = cc

pub contents-take_one : (x : Msg × ℕ) (q r : List (Msg × ℕ)) → take_one q ≡ some (x, r) → q ≡ x ∷ r
contents-take_one x [] r e = cc
contents-take_one x (y ∷ ys) r e = ground arith

abbrev pub one_place : Inbox
one_place = record {
  Queue = List (Msg × ℕ);
  enqueue = put_one;
  contents = λ q. q;
  contents-enqueue = contents-put_one;
  dequeue = take_one;
  contents-dequeue = contents-take_one;
}

abbrev pub blank_conn : Conn
blank_conn = record {
  id = 9;
  msg = record hello { payload = []; no_payload = true };
  msg_state = header;
  msg_sleep = false;
  poll_armed = false;
  recv_buffer = Buffer.empty;
  ready_recv = false;
  max_recv_buff_size = 4096;
}

abbrev pub link : Link little one_place 100
link = record { conn = blank_conn; queue = []; taken = [] }

pub link-IsFresh : IsFresh little one_place 100 link
link-IsFresh = record {
  no_bytes = refl;
  at_header = refl;
  awake = refl;
  unarmed = refl;
  no_messages = refl;
  none_taken = refl;
}

-- Two messages in three segments that cut the first header and the second payload.
abbrev bytes : List ℕ
bytes = header_bytes hello ++ (1 ∷ 2 ∷ header_bytes hello ++ (1 ∷ 2 ∷ []))

abbrev history : List Event
history =
    segment (take 5 bytes)
    ∷ readable
    ∷ segment (take 24 (drop 5 bytes))
    ∷ readable
    ∷ takes
    ∷ segment (drop 29 bytes)
    ∷ readable
    ∷ []

pub two_fit : All (Fits little one_place 100) (hello ∷ hello ∷ [])
two_fit = ((hello-IsSendable, omega arith), ((hello-IsSendable, omega arith), tt))

run-prefix_example :
    (rest : List Msg) × ((run little one_place 100 link history).taken
        ++ ((run little one_place 100 link history).queue
            ++ (sleeping little one_place 100 (run little one_place 100 link history).conn
                ++ map (tag little one_place 100 9) rest))
      ≡ (hello, 9) ∷ (hello, 9) ∷ [])
unfolding serialize le_bytes move_bytes put_data put_int empty
run-prefix_example =
    run-prefix little one_place 100 history link (hello ∷ hello ∷ []) [] link-IsFresh two_fit
      (omega arith) refl

on_read-ne-starved_example : (on_read little one_place 100 blank_conn []).end ≢ starved
on_read-ne-starved_example =
    on_read-ne-starved little one_place 100 blank_conn [] Buffer.Contents.empty-IsValid

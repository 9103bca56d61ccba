-- ===== src/System.antt =====
-- A connection from end to end: the messages that one process sends with `_send_msg` of
-- include/salticidae/network.h, the bytes that its worker sends with `_send_data` of src/conn.cpp, those that
-- the worker of the other process receives with `_recv_data`, and `on_read`. The parts are those of
-- ConnPool/Sending, ConnPool/Receiving and Network/Reader; between them is a reliable stream.
pub mod Invariant
pub mod Delivery
use salticidae.Base.{ℕ, Bool, true, false, List, [], ◌∷◌, ◌++◌, ◌==◌, if◌then◌else◌}
use salticidae.Platform.{Platform}
use salticidae.Msg.{Msg, serialize}
use salticidae.ConnPool.{Pipe, Conn}
use salticidae.ConnPool.Sending.{Output, send_data, on_written}
use salticidae.ConnPool.Receiving.{Input, recv_data, resume}
use salticidae.Network.Reader.{Inbox}
use salticidae.Network.Reader.Delivery.{readable, polls, takes}
use salticidae.Network.Reader.Delivery.History
use salticidae.Network.Reader.Delivery.History.{Link}

-- A message is sent and the write buffer takes it, or refuses it; the handler of the write buffer runs; the sender's socket is ready, or failed; the
-- receiver's is; the end of `on_read` goes on to receive; the receiver's poll timer fires; the user takes
-- a message.
pub data Event : Type 0 where
  sends refuses : Msg → Event
  writes resumes retries takes_one : Event
  writable arrives : Bool → Event

module _ (p : Platform) (inbox : Inbox) (max_msg_size : ℕ) (pipe : Pipe) where
  -- The two connections, the stream between them, and the messages of the receiver. The buffer that the
  -- receiver's worker fills is the one that `on_read` empties, that of `link`.
  pub record System : Type 0 where
    pub sender : Conn
    pub receiver : Conn
    pub world : pipe.channel.World
    pub link : Link p inbox max_msg_size

  abbrev pub output : System → Output pipe.channel
  output s = record { conn = s.sender; world = s.world; wire = [] }

  abbrev pub input : System → Input pipe.channel
  input s = record {
    conn = record s.receiver { recv_buffer = s.link.conn.recv_buffer };
    world = s.world;
    wire = [];
    starved = false;
  }

  unfoldable pub after_send : System → Output pipe.channel → System
  after_send s o = record s { sender = o.conn; world = o.world }

  abbrev pub filled : System → Input pipe.channel → Link p inbox max_msg_size
  filled s i = record s.link { conn = record s.link.conn { recv_buffer = i.conn.recv_buffer } }

  -- `_recv_data` ends with `on_read` if it counts one.
  unfoldable pub after_recv : System → Input pipe.channel → System
  after_recv s i = record s {
    receiver = i.conn;
    world = i.world;
    link =
        if i.conn.reads == s.receiver.reads
        then filled s i
        else History.step p inbox max_msg_size (filled s i) readable;
  }

  -- A message that the write buffer takes is a segment at its end; one that it refuses changes nothing. Which of
  -- the two happens is a matter of the buffer's limit, see Network/Outgoing.
  unfoldable pub step : System → Event → System
  unfolding after_send after_recv
  step s (sends m) = record s {
    sender = record s.sender { send_buffer = s.sender.send_buffer ++ (serialize p m ∷ []) };
  }
  step s (refuses m) = s
  step s writes = after_send s (on_written pipe.channel (output s))
  step s (writable failed) = after_send s (send_data pipe.channel failed (output s))
  step s (arrives failed) = after_recv s (recv_data pipe.channel failed (input s))
  step s resumes = after_recv s (resume pipe.channel (input s))
  step s retries = record s { link = History.step p inbox max_msg_size s.link polls }
  step s takes_one = record s { link = History.step p inbox max_msg_size s.link takes }

  unfoldable pub run : System → List Event → System
  unfolding step
  run s [] = s
  run s (e ∷ es) = run (step s e) es

-- The messages that the write buffer has taken.
abbrev pub sent : List Event → List Msg
sent [] = []
sent (sends m ∷ es) = m ∷ sent es
sent (refuses m ∷ es) = sent es
sent (writes ∷ es) = sent es
sent (resumes ∷ es) = sent es
sent (retries ∷ es) = sent es
sent (takes_one ∷ es) = sent es
sent (writable failed ∷ es) = sent es
sent (arrives failed ∷ es) = sent es

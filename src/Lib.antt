-- ===== src/Lib.antt =====
-- A model of salticidae, a C++ library for asynchronous network programs that exchange messages, with
-- proofs that its parts do what they promise.
--
-- A program makes a MsgNetwork or a PeerNetwork. A ConnPool under it owns the sockets and the worker
-- threads. A worker appends the bytes that it receives to the connection's `recv_buffer` and calls
-- `MsgNetwork::on_read`, which cuts them into messages and puts these in the bounded queue
-- `incoming_msgs`; the user's loop takes them out and runs the handlers. A message is a header of 13
-- bytes (magic, opcode, length and SHA-1 checksum) and a payload, both written through DataStream.
-- PeerNetwork adds an exchange of pings that keeps one connection for each pair of peers.
--
-- The files, each with the source that it follows:
--   Base        no source: lists and integers on the native numbers, results, Boolean tests.
--   Bytes       include/salticidae/endian.h and type.h, as the little-endian bytes of an integer.
--   Platform    the parameters: byte order of the host, htole and letoh, SHA-1 of OpenSSL. Their
--               laws are hypotheses, and Tests/Platforms has a platform on which they hold.
--   Stream      include/salticidae/stream.h, class DataStream: `put_data`, `get_data_inplace`, the
--               operators << and >> as `put_int` and `get_int`.
--   Blob        include/salticidae/stream.h, class Blob.
--   Bits        include/salticidae/stream.h, class _Bits.
--   Buffer      include/salticidae/buffer.h, class SegBuffer.
--   Msg         include/salticidae/msg.h, class MsgBase.
--   Queue       include/salticidae/queue.h, class MPSCQueue, its calls one after another.
--   FreeList    include/salticidae/queue.h, class FreeList, whose threads take turns after each atomic access,
--               on a memory without reordering.
--   Network     include/salticidae/network.h, class MsgNetwork: `on_read` and the timer callback of
--               `on_worker_setup` in Network/Reader; Network/Incoming fills its interface Inbox with
--               the queue. Network/Dispatch hands the messages to the handlers, Network/Outgoing
--               sends messages, and Network/Clients is the class ClientNetwork.
--   WriteBuffer include/salticidae/buffer.h, struct MPSCWriteBuffer, on the queue.
--   Wakeup      include/salticidae/event.h, class MPSCQueueEventDriven, whose producers and consumer are
--               steps on a shared state.
--   ThreadCall  include/salticidae/event.h, class ThreadCall: the handler that answers the calls.
--   ConnPool    include/salticidae/conn.h and src/conn.cpp: what a worker sends in ConnPool/Sending, and
--               what it receives in ConnPool/Receiving, on a Channel that stands for the socket;
--               how a connection is made, set up and terminated in ConnPool/Lifecycle, by the calls that the
--               dispatcher, the worker and the user's loop run in any order; the choice of a worker in
--               ConnPool/Workers.
--   System      two processes and the stream between their sockets: what a
--               message leaves in a write buffer that takes it or refuses it, the workers of ConnPool and
--               the reading of Network/Reader, put together.
--   NetAddr     include/salticidae/netaddr.h, struct NetAddr.
--   Peer        include/salticidae/network.h, class PeerNetwork: the pings in Peer/Messages, the state and
--               the actions on it in Peer and Peer/Store, what the handlers share in Peer/Session, the
--               handlers of the dispatcher in Peer/Handlers, the calls of the user in Peer/Calls, and the
--               sending of messages to one peer or several in Peer/Sending.
--   Ref         include/salticidae/ref.h: the counts of _RCCtl and the handles RcObj and WeakObj, and in
--               Ref/Atomic those of _ARCCtl, which threads share, one atomic access after another.
--   Text        src/util.cpp, the function `split`.
--   Tests       concrete inputs.
--
-- Objects that are changed in place are records that a function takes and returns. Integers are
-- natural numbers, and a sum that may wrap in the source is reduced modulo a power of 2. Exceptions
-- are values of Base/Results. Three loops have fuel. That of `on_read` is two more than the bytes in the
-- buffer: a round that goes on takes a header off the buffer, or ends the state PAYLOAD. That of
-- `_recv_data` is one more than the segments that the buffer still takes: a round that goes on adds one.
-- That of `split` is one more than the characters: a round that goes on passes a delimiter.
--
-- Not modelled: the set-up and the listening of sockets, the rounds of the TLS handshake and the wrappers
-- of libuv (conn.cpp, event.h, event.cpp, crypto.h, crypto.cpp), which are calls of other libraries;
-- `stop_workers`; the races of several producers inside the queue; the command line of util.h;
-- the bindings for C and the log.
pub mod Base
pub mod Bits
pub mod Blob
pub mod Buffer
pub mod Bytes
pub mod ConnPool
pub mod FreeList
pub mod Msg
pub mod NetAddr
pub mod Network
pub mod Peer
pub mod Platform
pub mod Queue
pub mod Ref
pub mod Stream
pub mod System
pub mod Text
pub mod ThreadCall
pub mod Wakeup
pub mod WriteBuffer
mod Tests

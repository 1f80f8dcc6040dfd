-- ===== src/Lib.antt =====
-- A model of the core of et.rs, a reconnecting remote shell, and of what its connections guarantee.
--
-- A client and a server exchange packets over a TCP connection that may break at any time. Each end
-- has a writer, which numbers, seals and keeps what it sends, and a reader, which opens and counts
-- what it receives. After a reconnection the reader tells how far it has read, and the writer at the
-- other end replays the rest from its backup. Keep-alives carry acknowledgements, which let the
-- writer drop history and bound the terminal output in flight. The parts and their files:
--
--   Framing        crates/et-core/src/framing.rs: the two length prefixes.
--   Crypto         crates/et-core/src/crypto.rs and the wrappers of crates/et-sodium/src/lib.rs: the
--                  handler of one direction (`CryptoHandler`), its counter (Crypto/Nonce), sealing
--                  and opening (Crypto/Channel), and the proofs of a connection (Crypto/Proof).
--   Packet         crates/et-core/src/packet.rs: packets, and the codec of terminal buffers that
--                  works in place.
--   Backup, Writer crates/et-core/src/backed_writer.rs: the history with its trimming loops, and
--                  `BackedWriter`. A refused write is `ok skipped`; a broken recovery is an error.
--   ReadBuffer, Reader
--                  crates/et-core/src/backed_reader.rs: the read buffer, and popping, resetting and
--                  reviving a `BackedReader`.
--   Delivery       writer and reader together: a live stream, and a reconnection.
--   KeepAlive      crates/et-core/src/keepalive.rs: the payload, and when it is attached.
--   OutputWindow   crates/et-core/src/output_window.rs: the bound on unacknowledged terminal output;
--                  OutputWindow/Release is the function `blocked`.
--   FlowControl    crates/et-core/src/flow_control.rs: the two lanes of a session's output queue.
--                  FlowControl/Admission is `push`, FlowControl/Drain is `take` (here `take_packet`),
--                  `complete`, `restore_front` and `pop`, FlowControl/Rewrite is the filter on an
--                  interrupt and the promotion of control lines.
--   Keys           crates/et-core/src/keys.rs: the credentials that are accepted.
--   OutputInterrupt
--                  crates/et-core/src/output_interrupt.rs: the terminal stream, the filter on an
--                  interrupt (OutputInterrupt/Partition), and interrupts in client input
--                  (OutputInterrupt/Input and Command).
--   Recovery       crates/et-net/src/connection_recovery.rs: the dialogue of two ends that recover
--                  (Recovery/Handshake, over the calls of Recovery/Calls, which are those of
--                  crates/et-net/src/framing_io.rs), the check of a catchup (Recovery/Catchup), and
--                  the two dialogues on one socket (Recovery/Wire).
--   PendingWrite   crates/et-net/src/connection_pending.rs: a frame that waits for room in the socket.
--   LiveConnection crates/et-net/src/connection.rs and connection_nonblocking.rs: a connection with its
--                  socket. LiveConnection/Blocking has the calls that wait, LiveConnection/Reading
--                  and Awaiting the reads, LiveConnection/Accounts acknowledgements and the
--                  output window, LiveConnection/Detached frames sent beside the connection, and
--                  LiveConnection/Reached all that can happen to a connection.
--   SessionWriting crates/et-server/src/session_flow_write.rs: a session's writes in sections, with the
--                  connection unlocked in between (over LiveConnection/Detached), and readers.
--   Connect        crates/et-net/src/handshake.rs: the client's handshake.
--   Socks          crates/et-net/src/socks.rs: the requests of SOCKS clients.
--   SessionTable   crates/et-server/src/session_table.rs and session_slot.rs: which connection owns the
--                  start of a session.
--   DeliveryGate   crates/et-bin/src/delivery_gate.rs: the pause of a client's input.
--   KeepaliveClock crates/et-bin/src/keepalive_clock.rs: probes, and when a link is dead.
--   Layout         crates/et-htm/src/layout.rs: the split trees of the multiplexer.
--   ControlLines   crates/et-htm/src/framing.rs: the lines of its clients, and its escapes.
--   Examples       the theorems at concrete values.
--
-- A function that changes `self` returns the changed record, with its result if it has one. A byte
-- is a number below 256, a slice is a list, a duration and a point in time are nanoseconds. Sums of
-- machine integers keep their saturation, checks and wrap-around. Sequence numbers are natural
-- numbers, because they start at 0 and are only ever incremented; a sequence that a peer announces
-- is an integer. The order of a deque is that of its list, the newest frame of the backup first.
--
-- Loops are structural recursion, and some are on fuel: the trimming loop may make as many rounds
-- as there are frames and each round drops one, a decimal number of 64 bits has at most twenty
-- digits, a varint of a `usize` at most ten bytes, and the binary search that truncates a terminal
-- packet may make as many rounds as there are bytes and each makes the interval smaller. The
-- check of a catchup takes at least two bytes in a round, and a claim of the session table ends in its
-- second round.
--
-- libsodium's secretbox and the BLAKE2b crate are the fields of `Sodium`, and `IsSodium` is what they
-- are documented to do: opening what was sealed under the same key and nonce gives it back, sealing
-- adds a tag of sixteen bytes, and hashing accepts a key of at most 64 bytes and gives 32 bytes.
-- prost's codec of a terminal buffer is the argument `codec` of FlowControl; its codec of the
-- recovery's messages is `Codec` of Recovery, which by `IsCodec` reads back what it writes, encodes
-- a catchup the way protobuf documents it and a header in at most 16 bytes; and that of the
-- handshake's messages is `ConnectCodec`. The filter that the queue calls is its interface `Stream`,
-- which OutputInterrupt/Partition fills. The arithmetic of `f32` is `Floats` of Layout, and
-- the printing of addresses and of bytes that are not UTF-8 is `Texts` of Socks; no law of either is
-- used.
--
-- A function that talks over a socket is a dialogue: what it asks next, and how it goes on with the
-- answer, an error included. A frame is one message of a dialogue. Two dialogues on one socket make
-- steps in any order; a write ends when the socket has room, or when the peer is reading.
--
-- A live connection instead gets what the system answers with each call: send(2) is a function of the
-- bytes that it is offered, and by `IsSend` takes no more than these; recv(2) is one of the size of
-- the buffer, and by `IsRecv` fills no more. The bytes that a socket has taken are kept beside the
-- connection. A call that blocks has a list of rounds, and says so when they do not suffice.
--
-- Not modelled: the texts of errors, random bytes and credentials, the capacity of a deque
-- (`release_slack_capacity`), and `from_serialized_vec`, which moves where `from_serialized` copies.
-- Of crates/et-net, the loops that move the bytes of a frame with their deadlines, a reset on a socket
-- in use (`establish_reset`) and the wait for a first packet (`authenticate_peer`), and
-- forwarding are not modelled; of crates/et-htm, the geometry of windows, resizing and the parsing
-- of commands; nor are the generated messages, et-cli, the rest of et-server, and the rest of
-- et-bin, which is I/O around these parts.
mod Prelude
pub mod PendingWrite
pub mod LiveConnection
pub mod SessionWriting
pub mod Framing
pub mod Crypto
pub mod Packet
pub mod Backup
pub mod Writer
pub mod ReadBuffer
pub mod Reader
pub mod Delivery
pub mod KeepAlive
pub mod OutputWindow
pub mod Recovery
pub mod SessionTable
pub mod Socks
pub mod Layout
pub mod ControlLines
pub mod Connect
pub mod OutputInterrupt
pub mod FlowControl
pub mod DeliveryGate
pub mod KeepaliveClock
pub mod Keys
pub mod Examples

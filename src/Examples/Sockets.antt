-- ===== src/Examples/Sockets.antt =====
-- A live connection on a socket that takes a frame in two pieces, and its peer.
use et_rs.Prelude.{
  ltb, ◌==◌, if◌then◌else◌, length, take, drop, All, take-append-drop, Result, err, pos, le_bytes,
  from_le, be_bytes, from_be, ℕ, ◌+◌, ◌≤◌, min, ◌≡◌, refl, sym, ap, subst, ◌∙◌, ◌⊎◌, true, false,
  ◌||◌, Option, none, some, List, [], ◌∷◌, ◌++◌, map, reverse, append-nil, arith,
}
use et_rs.Crypto.{initial_nonce, bump}
use et_rs.Crypto.Nonce.{bumps}
use et_rs.Writer.{ReservedWrite, reservation, encrypt_reserved, write_packet}
use et_rs.Writer.History.{Sent, Follows}
use et_rs.ReadBuffer.{pending, write_slice, prepare_socket_read, commit_socket_read}
use et_rs.Framing.{parse_be_u32_len}
use et_rs.Reader.{decode_packet, deliver, decode_frame, pop_live, pop}
use et_rs.Delivery.Stream.{wire_stream, Fits, feed_all, pops, popped}
use et_rs.Recovery.Calls.{timed_out}
use et_rs.PendingWrite.{PendingWrite, SendAnswer, took, again, advance, IsSend}
use et_rs.PendingWrite.Deadline.{checks, advance-checks}
use et_rs.LiveConnection.{
  Live, WritePacketError, would_block, Env, advance_write, start_write_packet_owned,
}
use et_rs.LiveConnection.Reading.{
  RecvAnswer, received, no_bytes, RecvCall, IsRecv, ReadStep, try_read,
}
use et_rs.LiveConnection.Runs.{owned, InOrder}
use et_rs.LiveConnection.Reached.{starts, advances, Reached, here, then_call}
use et_rs.LiveConnection.Receiving.{CanFail, Attends, IsNext, try_read-IsNext}
use et_rs.LiveConnection.Ending.{due, finish_pending_write_ends}
use et_rs.LiveConnection.Blocking.{finish_pending_write}
use et_rs.LiveConnection.Order.{flowing}
use et_rs.LiveConnection.Flushed.{Reached-pops}
use et_rs.LiveConnection.Accounts.{default_live_write_timeout, new_client, acknowledge_delivery}
use et_rs.SessionWriting.{reserved, sending, Section, reserve_section, commit_section, send_section}
use et_rs.SessionWriting.Phases.{Aside}
use et_rs.SessionWriting.Nonblocking.{
  NonblockingWrite, write_nonblocking, owned_by_result, SaysStarted, write_nonblocking-InOrder,
}
use et_rs.SessionWriting.Interleaved.{
  aside, reserves, commits, sends_on, Turns, start, turn, IsFront, Turns-IsFront,
}
use et_rs.LiveConnection
use et_rs.Examples.{toy_sodium, toy_laws, toy_key, hello}
use et_rs.Examples.Connections.{reader, reader-InStep, reader-IsBuffer}
use et_rs.Writer
use et_rs.Crypto
use et_rs.ReadBuffer

-- A socket with room for `n` bytes.
abbrev room : ℕ → List ℕ → SendAnswer
room n bytes = took (min n (length bytes))

room-IsSend : (n : ℕ) → IsSend (room n)
room-IsSend n bytes count e = ground arith

abbrev moment : ℕ → ℕ → Env
moment now n = record {
  probe = would_block;
  noted_at = now;
  pended_at = now;
  looked_at = now;
  unread_bytes = 0;
  sent_at = now;
  kernel = room n;
}

abbrev fresh_live : Live
fresh_live = new_client toy_key

abbrev started : Live × Result (Unit {0}) WritePacketError
started = start_write_packet_owned toy_sodium fresh_live (moment 1 5) 1 (104 ∷ 105 ∷ [])

abbrev sent_all : Live
sent_all = (advance_write started.0 (moment 2 100)).0

abbrev said : List Sent
said = owned started.1 hello []

said-sent_all : Reached toy_sodium [] fresh_live said sent_all
said-sent_all =
    then_call (then_call here (starts hello (moment 1 5) (room-IsSend 5)))
      (advances (moment 2 100) (room-IsSend 100))

fresh_live-Follows : Follows toy_sodium toy_key (initial_nonce 0) [] fresh_live.connection.writer
unfolding new_client bumps
fresh_live-Follows = record { counter = refl; nonce = refl; base_key = refl; newest = refl }

live_fresh : fresh_live.connection.writer.connected ≡ true
unfolding new_client
live_fresh = refl

idle_fresh : fresh_live.connection.pending_live ≡ none
unfolding new_client
idle_fresh = refl

empty_fresh : fresh_live.transport.taken ≡ []
unfolding new_client
empty_fresh = refl

live_after : sent_all.connection.writer.connected ≡ true
unfolding new_client start_write_packet_owned advance_write write_packet advance
    Writer.reserve_write Writer.refuses Writer.commit_write Writer.encrypt_reserved
    Writer.reservation be_bytes le_bytes Crypto.bump_nonce Writer.commit_connected
live_after = refl

idle_after : sent_all.connection.pending_live ≡ none
unfolding new_client start_write_packet_owned advance_write write_packet advance
    Writer.reserve_write Writer.refuses Writer.commit_write Writer.encrypt_reserved
    Writer.reservation be_bytes le_bytes Crypto.bump_nonce Writer.commit_connected
idle_after = refl

said_lem : said ≡ hello ∷ []
unfolding new_client start_write_packet_owned advance_write write_packet advance
    Writer.reserve_write Writer.refuses Writer.commit_write Writer.encrypt_reserved
    Writer.reservation be_bytes le_bytes Crypto.bump_nonce Writer.commit_connected
said_lem = refl

said-Fits : All Fits said
said-Fits = subst (All Fits) (sym said_lem) (omega arith, tt)

abbrev taken : List ℕ
taken = sent_all.transport.taken

Reached-pops_example :
    (ps : List Sent) × (said ≡ reverse ps ++ [])
    × ((pops toy_sodium (length ps) (feed_all (reader 0) (take 7 taken ∷ drop 7 taken ∷ []))).1
        ≡ map popped ps)
    × (pending
          (pops toy_sodium (length ps) (feed_all (reader 0) (take 7 taken ∷ drop 7 taken ∷ []))).0
        ≡ [])
unfolding pending
Reached-pops_example =
    Reached-pops toy_sodium toy_laws toy_key (initial_nonce 0) [] said fresh_live sent_all
      (reader 0) (take 7 taken ∷ drop 7 taken ∷ []) fresh_live-Follows live_fresh idle_fresh
      empty_fresh said-sent_all live_after idle_after said-Fits (reader-IsBuffer 0) refl
      (reader-InStep 0) refl
      (ap (λ b. take 7 taken ++ b) (append-nil (drop 7 taken)) ∙ take-append-drop 7 taken)

-- A frame that nothing is taken of, looked at after 5 and 7 seconds.
abbrev stuck : PendingWrite
stuck = record { frame = 1 ∷ 2 ∷ []; offset = 0; deadline = 5; heard = none }

advance-checks_example :
    (advance (checks stuck (3, 0) 10 5 (5 ∷ 7 ∷ [])) 11 (room 100)).1 ≡ err timed_out
advance-checks_example =
    advance-checks stuck (3, 0) 10 5 (5 ∷ 7 ∷ []) 11 (room 100) refl (omega arith) (omega arith)
      (omega arith)

-- A socket that hands over the bytes, if the buffer has room for them.
abbrev piece : List ℕ → ℕ → RecvAnswer
piece bytes size =
    if ltb size (length bytes) || (length bytes == 0) then no_bytes else received bytes

piece-IsRecv : (bytes : List ℕ) → IsRecv (piece bytes)
piece-IsRecv bytes size got e = ground arith

abbrev recv : List ℕ → RecvCall
recv bytes = record { capacity = 0; kernel = piece bytes }

abbrev hello_bytes : List ℕ
hello_bytes = wire_stream toy_sodium toy_key (initial_nonce 0) 0 (hello ∷ [])

abbrev read_pieces : ReadStep
read_pieces =
    try_read toy_sodium (recv (take 10 hello_bytes)) (recv (drop 10 hello_bytes)) (recv [])
      (recv []) (reader 0)

read_bytes : pending (reader 0) ++ (read_pieces.2 ++ []) ≡ hello_bytes
unfolding try_read pop pop_live prepare_socket_read commit_socket_read write_slice pending be_bytes
    ReadBuffer.prepare_read_slice le_bytes bumps Crypto.bump_nonce parse_be_u32_len from_be from_le
    decode_frame deliver decode_packet Crypto.decrypt Crypto.constant_time_eq
read_bytes = refl

read_pieces-Attends :
    Attends toy_sodium toy_key (initial_nonce 0) 0 (hello ∷ []) (read_pieces.2 ++ []) (reader 0)
read_pieces-Attends = record {
  buffer = reader-IsBuffer 0;
  on = refl;
  no_replay = refl;
  in_step = reader-InStep 0;
  waits = read_bytes;
  fits = (omega arith, tt);
}

try_read-IsNext_example :
    IsNext toy_sodium toy_key
      (initial_nonce 0)
      (λ x.
        CanFail (recv (take 10 hello_bytes)) x
        ⊎ CanFail (recv (drop 10 hello_bytes)) x
        ⊎ CanFail (recv []) x
        ⊎ CanFail (recv []) x)
      0
      (hello ∷ [])
      []
      read_pieces.0
      read_pieces.1
try_read-IsNext_example =
    try_read-IsNext toy_sodium toy_key (initial_nonce 0) 0 (hello ∷ []) []
      (recv (take 10 hello_bytes)) (recv (drop 10 hello_bytes)) (recv []) (recv []) (reader 0)
      toy_laws
      (
        piece-IsRecv (take 10 hello_bytes),
        (piece-IsRecv (drop 10 hello_bytes), (piece-IsRecv [], (piece-IsRecv [], tt))),
      )
      read_pieces-Attends

-- A write in sections: a reader acknowledges while the frame is sealed, and the connection breaks
-- when the socket has taken five bytes of it.
abbrev session_reserved : Section
session_reserved = reserve_section false fresh_live hello

abbrev hello_reserved : ReservedWrite
hello_reserved =
    reservation 1 2 (bump fresh_live.connection.writer.crypto).nonce
      (bump fresh_live.connection.writer.crypto).base_key

abbrev acknowledged : Live
acknowledged = acknowledge_delivery session_reserved.0 (pos 0) 3

abbrev session_committed : Section
session_committed = commit_section toy_sodium acknowledged hello_reserved hello 4 4

abbrev hello_pending : PendingWrite
hello_pending = record {
  frame = encrypt_reserved toy_sodium hello_reserved hello.payload;
  offset = 0;
  deadline = 4 + default_live_write_timeout;
  heard = none;
}

abbrev piece_sent : Section
piece_sent =
    send_section session_committed.0 hello_pending
      (record { now = 5; kernel = room 5; waited = none })

reserved-Turns :
    Turns toy_sodium [] fresh_live [] session_reserved.0 (reserved hello_reserved hello)
unfolding reserve_section new_client Writer.reserve_write Writer.refuses
reserved-Turns = turn start (reserves [] fresh_live false hello)

committed-Turns :
    Turns toy_sodium [] fresh_live (hello ∷ []) session_committed.0 (sending hello_pending)
unfolding commit_section Writer.commit_write acknowledge_delivery Writer.acknowledge reserve_section
    new_client Writer.reserve_write Writer.refuses
committed-Turns =
    turn
      (turn reserved-Turns (
        aside [] session_reserved.0 acknowledged (reserved hello_reserved hello)
          (Aside.acknowledges (pos 0) 3)))
      (commits [] acknowledged hello_reserved hello 4 4)

broken-Turns :
    Turns toy_sodium [] fresh_live
      (hello ∷ [])
      (LiveConnection.disconnect piece_sent.0)
      piece_sent.1
broken-Turns =
    turn
      (turn committed-Turns (
        sends_on (hello ∷ []) session_committed.0 hello_pending
          (record { now = 5; kernel = room 5; waited = none }) (room-IsSend 5)))
      (aside (hello ∷ []) piece_sent.0 (LiveConnection.disconnect piece_sent.0) piece_sent.1
        Aside.disconnects)

Turns-IsFront_example :
    IsFront toy_sodium toy_key
      (initial_nonce 0)
      []
      (hello ∷ [])
      (LiveConnection.disconnect piece_sent.0)
      piece_sent.1
Turns-IsFront_example =
    Turns-IsFront toy_sodium toy_key (initial_nonce 0) [] (hello ∷ []) fresh_live
      (LiveConnection.disconnect piece_sent.0) piece_sent.1 fresh_live-Follows live_fresh idle_fresh
      empty_fresh broken-Turns

started_due : due started.0.connection.pending_live ≤ 3000000000
unfolding new_client start_write_packet_owned write_packet advance Writer.reserve_write
    Writer.refuses Writer.commit_write Writer.encrypt_reserved Writer.reservation be_bytes le_bytes
    Crypto.bump_nonce Writer.commit_connected
started_due = omega arith

-- The socket takes five bytes and then nothing for longer than the frame may wait.
finish_pending_write_ends_example :
    (r : Result (Unit {0}) WritePacketError) × ((finish_pending_write started.0 (
        (record { now = 3; kernel = λ bytes. again; waited = some timed_out } ∷ [])
        ++ (record { now = 3000000000; kernel = λ bytes. again; waited = none } ∷ []))).1
      ≡ some r)
finish_pending_write_ends_example =
    finish_pending_write_ends started.0
      (record { now = 3; kernel = λ bytes. again; waited = some timed_out } ∷ []) []
      (record { now = 3000000000; kernel = λ bytes. again; waited = none }) started_due

fresh_live-InOrder : InOrder toy_sodium toy_key (initial_nonce 0) [] [] fresh_live
unfolding new_client
fresh_live-InOrder = flowing [] live_fresh refl fresh_live-Follows tt refl

abbrev tried : Live × Option ℕ × NonblockingWrite
tried = write_nonblocking toy_sodium fresh_live (moment 1 5) hello false false true 1 none

write_nonblocking-InOrder_example :
    InOrder toy_sodium toy_key
      (initial_nonce 0)
      []
      (if false then [] else owned_by_result tried.2 hello [])
      tried.0
    × SaysStarted false false tried.2
write_nonblocking-InOrder_example =
    write_nonblocking-InOrder toy_sodium toy_key (initial_nonce 0) [] [] fresh_live (moment 1 5)
      hello false false true 1 none (room-IsSend 5) fresh_live-InOrder

-- ===== src/Recovery.antt =====
-- crates/et-net/src/connection_recovery.rs: a broken connection gets a new socket, and each end the
-- packets that it has missed.
pub mod Calls
pub mod Catchup
pub mod Handshake
pub mod Wire
pub mod Exchange
pub mod Replay
pub mod Deadlock
use et_rs.Prelude.{length, Result, ok, err, ℕ, Option, none, some, List, []}
use et_rs.PendingWrite.{PendingWrite}
use et_rs.Crypto.{Sodium}
use et_rs.Writer.{BackedWriter}
use et_rs.Reader.{ReadError}
use et_rs.ReadBuffer.{BackedReader}
use et_rs.KeepAlive.{AckSchedule}
use et_rs.OutputWindow.{OutputWindow, for_new_transport, window}
use et_rs.Recovery.Calls.{invalid_data, ConnError, io, read_error, Dialog, finish, try_call}
use et_rs.Recovery.Handshake.{Codec, RecoveryExchange, exchange_recovery}
use et_rs.Writer
use et_rs.Reader
use et_rs.OutputWindow

-- A connection. The socket itself is in LiveConnection, with what it has taken.
pub record Connection : Type 0 where
  pub writer : BackedWriter
  pub reader : BackedReader
  pub live_write_timeout : ℕ
  pub peer_silence : Option ℕ
  pub pending_live : Option PendingWrite
  pub acks : AckSchedule
  pub output_window : Option OutputWindow

unfoldable pub disconnect : Connection → Connection
disconnect c = record c {
  pending_live = none;
  writer = Writer.invalidate c.writer;
  reader = Reader.invalidate c.reader;
}

abbrev pub new_transport : Option OutputWindow → Option OutputWindow
new_transport none = none
new_transport (some window) = some (for_new_transport window)

unfoldable pub prepare_recovery_candidate : Connection → Connection
unfolding disconnect
prepare_recovery_candidate c = disconnect (record c {
  pending_live = none;
  acks = record { attached = none };
  output_window = new_transport c.output_window;
})

abbrev pub restart_output_window : Option OutputWindow → Option OutputWindow
restart_output_window none = none
restart_output_window (some window) = some OutputWindow.initial

-- `reset` of both halves with the salt, before anything is revived.
unfoldable pub reset_connection : Sodium → Connection → List ℕ → Result Connection ConnError
reset_connection s c salt = elim (Reader.reset s c.reader salt) [
  | err e ↦ err (io invalid_data)
  | ok r ↦ elim (Writer.reset s c.writer salt) [
    | err e ↦ err (io invalid_data)
    | ok w ↦
        ok (record c {
          reader = r;
          writer = w;
          output_window = restart_output_window c.output_window;
        })
  ]
]

-- The reader and the writer start again, and the socket gets its timeouts back.
unfoldable pub revived_connection :
    Connection → ℕ → Result BackedReader ReadError → Dialog (Connection × ℕ)
revived_connection c count (err e) = finish (err (read_error e))
revived_connection c count (ok r) =
    try_call (finish (ok (record c { reader = r; writer = Writer.revive c.writer }, count)))

unfoldable pub revive_connection : Sodium → Connection → List (List ℕ) → Dialog (Connection × ℕ)
unfolding revived_connection
revive_connection s c catchup =
    revived_connection c (length catchup) (Reader.revive s c.reader catchup)

unfoldable pub finish_recovery :
    Sodium → Connection → Option (List ℕ) → List (List ℕ) → Dialog (Connection × ℕ)
unfolding reset_connection revive_connection
finish_recovery s c none catchup = revive_connection s c catchup
finish_recovery s c (some salt) catchup = elim (reset_connection s c salt) [
  | err e ↦ finish (err e)
  | ok c' ↦ revive_connection s c' []
]

unfoldable pub run_recovery_handshake_with :
    Sodium → Codec → Connection → RecoveryExchange → Dialog (Connection × ℕ)
unfolding exchange_recovery finish_recovery
run_recovery_handshake_with s codec c x =
    exchange_recovery codec c.writer c.reader x (finish_recovery s c x.reset_salt)

-- The connection is replaced only by a candidate that has recovered.
abbrev pub replace_with : Connection → Result (Connection × ℕ) ConnError → Connection
replace_with c (err e) = c
replace_with c (ok (candidate, revived)) = candidate

unfoldable pub recover_with_exchange :
    Sodium → Codec → Connection → RecoveryExchange → Dialog (Connection × ℕ)
unfolding prepare_recovery_candidate run_recovery_handshake_with
recover_with_exchange s codec c x =
    run_recovery_handshake_with s codec (prepare_recovery_candidate c) x

-- ===== src/Recovery/Calls.antt =====
-- A dialogue over a socket: what an end asks of the socket next, and how it goes on with the answer.
-- A frame of crates/et-net/src/framing_io.rs is one message; every call can fail, and a deadline that
-- has passed is such a failure.
use et_rs.Prelude.{
  leb, if◌then◌else◌, length, Result, ok, err, ℤ, ℕ, ◌-◌, ◌*◌, ◌^◌, Option, none, some, List,
}
use et_rs.Crypto.{EncryptError}
use et_rs.Writer.{RecoverError}
use et_rs.Reader.{ReadError}

pub data IoError : Type 0 where
  invalid_input invalid_data timed_out write_zero not_connected unexpected_eof : IoError
  socket_error : ℕ → IoError

pub data ConnError : Type 0 where
  io : IoError → ConnError
  read_error : ReadError → ConnError
  recover_error : RecoverError → ConnError
  encrypt_error : EncryptError → ConnError
  backpressure packet_too_large : ConnError
  sequence_out_of_range : ℕ → ConnError
  invalid_recovery_sequence : Option ℤ → ConnError

pub data Dialog (A : Type 0) : Type 0 where
  finish : Result A ConnError → Dialog A
  call : (Option IoError → Dialog A) → Dialog A
  write : List ℕ → (Option IoError → Dialog A) → Dialog A
  read : (Result (List ℕ) IoError → Dialog A) → Dialog A

abbrev pub max_handshake_proto_len : ℕ
max_handshake_proto_len = 4 * 1024

abbrev pub max_recovery_proto_len : ℕ
max_recovery_proto_len = 144 * 1024 * 1024

abbrev pub i32_max : ℕ
i32_max = 2 ^ 31 - 1

module _ {A : Type 0} where
  -- `?` after a call that gives nothing.
  abbrev pub on_success : Option IoError → Dialog A → Dialog A
  on_success none next = next
  on_success (some e) next = finish (err (io e))

  abbrev pub try_call : Dialog A → Dialog A
  try_call next = call (λ e. on_success e next)

  -- `write_proto_limited_deadline`, on the encoded message.
  unfoldable pub write_limited : List ℕ → ℕ → Dialog A → Dialog A
  write_limited bytes limit next =
      if leb (length bytes) limit
      then write bytes (λ e. on_success e next)
      else finish (err (io invalid_input))

  unfoldable pub received : ℕ → (List ℕ → Dialog A) → Result (List ℕ) IoError → Dialog A
  received limit next (err e) = finish (err (io e))
  received limit next (ok frame) =
      if leb (length frame) limit then next frame else finish (err (io invalid_data))

  -- `read_frame_limited_deadline`.
  abbrev pub read_limited : ℕ → (List ℕ → Dialog A) → Dialog A
  read_limited limit next = read (received limit next)

-- ===== src/Examples/Connections.antt =====
-- Writers, readers and handlers at work on concrete packets.
use et_rs.Prelude.{
  length, take, drop, replicate, ok, err, pos, le_bytes, be_bytes, ℕ, ◌+◌, ◌-◌, ◌≤◌, ◌≡◌, refl,
  true, false, none, some, List, [], ◌∷◌, ◌++◌, map, reverse, arith,
}
use et_rs.Crypto.{
  DecryptError, initial_nonce, bump_nonce, next_nonce_and_key, encrypt_detached, encrypt,
  encrypt_with_prefix, encrypt_into, decrypt, decrypt_into, decrypt_in_place,
}
use et_rs.Crypto.Nonce.{bumps, bumps_injective}
use et_rs.Crypto.Channel.{decrypt-encrypt, decrypt_err}
use et_rs.Packet.{Packet, raw}
use et_rs.Backup.{ack_retain_slack_packets}
use et_rs.Writer.History.{wire_body, frames, Follows}
use et_rs.Writer.Invariant.{IsValid}
use et_rs.Writer.Bounds.{IsBounded}
use et_rs.Writer.Retention.{acknowledge_retains, commit_connected_retains}
use et_rs.Writer.Runs.{writes, acknowledges, revives, run, run-new-IsBounded}
use et_rs.ReadBuffer.{BackedReader, pending}
use et_rs.ReadBuffer.Pending.{IsBuffer}
use et_rs.Writer.{ReservedWrite, BackedWriter, new, commit_connected, recover, acknowledge}
use et_rs.Reader.{revive}
use et_rs.Delivery.{plain, InStep}
use et_rs.Delivery.Stream.{wire_stream, feed_all, pops, popped, pops-feed_all}
use et_rs.Delivery.Recovery.{revive-recover}
use et_rs.Examples.{toy_tag, toy_sodium, toy_laws, toy_key, handler, hello, alive}

-- A connected writer that keeps the frames of two packets, with nothing acknowledged.
abbrev pub writer : BackedWriter
writer = record {
  crypto = handler 2;
  backup = frames toy_sodium toy_key (initial_nonce 0) (hello ∷ alive ∷ []);
  backup_size = 38;
  disconnected_bytes = 0;
  disconnected_packets = 0;
  sequence = 2;
  connected = true;
  acknowledged = none;
  unacknowledged_bytes = 38;
}

abbrev acked_writer : BackedWriter
acked_writer = record writer { acknowledged = some 1; unacknowledged_bytes = 20 }

-- A connected reader that has read `n` packets and has nothing pending.
abbrev pub reader : ℕ → BackedReader
reader n = record {
  crypto = handler n;
  partial = [];
  offset = 0;
  filled = 0;
  replay = [];
  sequence = n;
  data_sequence = 0;
  connected = true;
  read_hint = 4096;
  read_requested = 0;
  last_frame_len = 0;
  read_cap = 65536;
}

abbrev body : List ℕ
body = wire_body toy_sodium toy_key (bumps 1 (initial_nonce 0)) hello

abbrev reserved : ReservedWrite
reserved = record {
  prefix = 1 ∷ 1 ∷ [];
  nonce = bumps 3 (initial_nonce 0);
  key = toy_key;
  packet_wire_len = 20;
}

abbrev sealed : Packet
sealed = raw true 1 (toy_tag (bumps 1 (initial_nonce 0)) ++ (104 ∷ 105 ∷ []))

abbrev numbers : List ℕ
numbers = 1 ∷ 2 ∷ []

abbrev client_direction : ℕ
client_direction = 0

abbrev second_message : ℕ
second_message = 2

pub writer-Follows : Follows toy_sodium toy_key (initial_nonce 0) (hello ∷ alive ∷ []) writer
writer-Follows = record { counter = refl; nonce = refl; base_key = refl; newest = refl }

writer-IsValid : IsValid writer
unfolding be_bytes le_bytes bumps bump_nonce
writer-IsValid = record { in_step = refl; counted = omega arith; acked = omega arith }

acked_writer-IsValid : IsValid acked_writer
unfolding be_bytes le_bytes bumps bump_nonce
acked_writer-IsValid = record {
  in_step = refl;
  counted = omega arith;
  acked = (omega arith, omega arith);
}

writer-IsBounded : IsBounded writer
writer-IsBounded = record {
  valid = writer-IsValid;
  recovery = omega arith;
  live = λ on. omega arith;
  held = omega arith;
  held_packets = omega arith;
}

pub reader-InStep : (n : ℕ) → InStep toy_key (initial_nonce 0) n (handler n)
reader-InStep n = record { base_key = refl; nonce = refl }

pub reader-IsBuffer : (n : ℕ) → IsBuffer (reader n)
reader-IsBuffer n = record { ordered = omega arith; room = omega arith }

revive-recover_example :
    (catchup : List (List ℕ)) × (r' : BackedReader) × (recover writer (pos (reader 1).sequence)
      ≡ ok catchup)
    × (revive toy_sodium (reader 1) catchup ≡ ok r')
    × (r'.replay ≡ (reader 1).replay ++ map plain (reverse (hello ∷ [])))
    × (r'.sequence ≡ writer.sequence)
    × InStep toy_key (initial_nonce 0) writer.sequence r'.crypto
    × (r'.connected ≡ true)
revive-recover_example =
    revive-recover toy_sodium toy_laws toy_key (initial_nonce 0) (hello ∷ []) (alive ∷ []) writer
      (reader 1) (writer-Follows) (omega arith) (reader-InStep 1) refl

pops-feed_all_example :
    ((pops toy_sodium (length (hello ∷ [])) (
        feed_all (reader 0) (
          take 3 (wire_stream toy_sodium toy_key (initial_nonce 0) 0 (hello ∷ []))
          ∷ drop 3 (wire_stream toy_sodium toy_key (initial_nonce 0) 0 (hello ∷ []))
          ∷ []))).1
      ≡ map popped (hello ∷ []))
    × (pending
          (pops toy_sodium (length (hello ∷ [])) (
            feed_all (reader 0) (
              take 3 (wire_stream toy_sodium toy_key (initial_nonce 0) 0 (hello ∷ []))
              ∷ drop 3 (wire_stream toy_sodium toy_key (initial_nonce 0) 0 (hello ∷ []))
              ∷ []))).0
        ≡ [])
    × ((pops toy_sodium (length (hello ∷ [])) (
          feed_all (reader 0) (
            take 3 (wire_stream toy_sodium toy_key (initial_nonce 0) 0 (hello ∷ []))
            ∷ drop 3 (wire_stream toy_sodium toy_key (initial_nonce 0) 0 (hello ∷ []))
            ∷ []))).0.sequence
        ≡ (reader 0).sequence + length (hello ∷ []))
unfolding pending be_bytes le_bytes bumps bump_nonce
pops-feed_all_example =
    pops-feed_all toy_sodium toy_laws toy_key (initial_nonce 0) 0 (hello ∷ []) (reader 0)
      (take 3 (wire_stream toy_sodium toy_key (initial_nonce 0) 0 (hello ∷ []))
        ∷ drop 3 (wire_stream toy_sodium toy_key (initial_nonce 0) 0 (hello ∷ []))
        ∷ [])
      ((omega arith, tt)) (reader-IsBuffer 0) refl (reader-InStep 0) refl refl

acknowledge_retains_example :
    ((acknowledge writer (pos 1)).backup
      ≡ take (length (acknowledge writer (pos 1)).backup) writer.backup)
    × (writer.sequence ≤ 1 + length (acknowledge writer (pos 1)).backup)
    × (length (acknowledge writer (pos 1)).backup ≤ writer.sequence - 1 + ack_retain_slack_packets)
acknowledge_retains_example =
    acknowledge_retains writer 1 1 refl (omega arith) (omega arith) (omega arith)

commit_connected_retains_example :
    ((commit_connected acked_writer reserved (replicate 24 0)).backup
      ≡ take
          (length (commit_connected acked_writer reserved (replicate 24 0)).backup)
          (replicate 24 0 ∷ acked_writer.backup))
    × (acked_writer.sequence + 1
        ≤ 1 + length (commit_connected acked_writer reserved (replicate 24 0)).backup)
commit_connected_retains_example =
    commit_connected_retains acked_writer reserved (replicate 24 0) 1 1 (acked_writer-IsValid) refl
      refl (omega arith) (omega arith) (omega arith) (omega arith)

run-new-IsBounded_example : IsBounded (
    run toy_sodium
      (new (handler 0) false)
      (writes 1 (104 ∷ []) ∷ revives ∷ acknowledges (pos 1) ∷ []))
run-new-IsBounded_example =
    run-new-IsBounded toy_sodium toy_laws (handler 0) false
      (writes 1 (104 ∷ []) ∷ revives ∷ acknowledges (pos 1) ∷ [])

bumps_injective_example : (second_message ≡ second_message) × (client_direction ≡ client_direction)
bumps_injective_example =
    bumps_injective client_direction client_direction second_message second_message (omega arith)
      (omega arith) (omega arith) (omega arith) refl

abbrev sealed_numbers : List ℕ
sealed_numbers = toy_tag (bumps 1 (initial_nonce 0)) ++ numbers

decrypt-encrypt_example :
    (decrypt toy_sodium (handler 0) sealed_numbers
      ≡ (record (handler 0) { nonce = (handler 1).nonce }, ok numbers))
    × (decrypt_in_place toy_sodium (handler 0) sealed_numbers
        ≡ (record (handler 0) { nonce = (handler 1).nonce }, some numbers))
    × (decrypt_into toy_sodium (handler 0) (length numbers) sealed_numbers
        ≡ (record (handler 0) { nonce = (handler 1).nonce }, some numbers))
    × (encrypt_into toy_sodium (handler 0) 99 numbers ≡ (handler 1, ok sealed_numbers))
    × (encrypt_with_prefix toy_sodium (handler 0) (7 ∷ []) numbers
        ≡ (handler 1, ok ((7 ∷ []) ++ sealed_numbers)))
    × (let (after, taken, used) = next_nonce_and_key (handler 0) in
        (after ≡ handler 1)
        × (encrypt_detached toy_sodium (7 ∷ []) numbers taken used ≡ (7 ∷ []) ++ sealed_numbers))
unfolding encrypt bumps bump_nonce
decrypt-encrypt_example =
    decrypt-encrypt toy_sodium toy_laws (handler 0) (handler 0) (handler 1) numbers sealed_numbers
      (7 ∷ []) 99 refl refl (omega arith) refl

decrypt_err_example :
    (decrypt toy_sodium (handler 0) (1 ∷ 2 ∷ []) ≡ ((handler 0), err (DecryptError.short))
      → (handler 0) ≡ (handler 0))
    × (decrypt_in_place toy_sodium (handler 0) (1 ∷ 2 ∷ []) ≡ ((handler 0), none)
        → (handler 0) ≡ (handler 0))
    × (decrypt_into toy_sodium (handler 0) 4 (1 ∷ 2 ∷ []) ≡ ((handler 0), none)
        → (handler 0) ≡ (handler 0))
decrypt_err_example =
    decrypt_err toy_sodium (handler 0) (handler 0) (1 ∷ 2 ∷ []) (DecryptError.short) 4

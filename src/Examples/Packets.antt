-- ===== src/Examples/Packets.antt =====
-- The codecs of frames, packets, terminal buffers, proofs and acknowledgements on concrete bytes.
use et_rs.Prelude.{
  leb, if◌then◌else◌, bool_eq, length, replicate, ok, pos, ℕ, ◌+◌, ◌≡◌, ◌↔◌, true, false, ◌&&◌,
  some, List, [], ◌∷◌, ◌++◌, arith,
}
use et_rs.Crypto.Proof.{
  connection_proof, verify_connection_proof, reset_decision_proof, verify_reset_decision_proof,
  verify_connection_proof_iff, verify_reset_decision_proof_iff,
}
use et_rs.Packet.{new, encode_terminal_buffer, append_terminal_buffer}
use et_rs.Packet.Terminal.{append_terminal_buffer-encode_terminal_buffer}
use et_rs.Keys.{parse_id_passkey}
use et_rs.Keys.Parse.{IsCredentials, parse_id_passkey_iff}
use et_rs.Examples.{toy_sodium, toy_laws, toy_key}

abbrev text : List ℕ
text = 104 ∷ 105 ∷ []

abbrev mark : List ℕ
mark = 33 ∷ []

abbrev session_id : List ℕ
session_id = replicate 16 65

abbrev session_passkey : List ℕ
session_passkey = replicate 32 122

abbrev challenge : List ℕ
challenge = replicate 32 9

verify_connection_proof_iff_example :
    (verify_connection_proof toy_sodium toy_key text (pos 6) challenge (replicate 32 0) true ≡ true)
    ↔ (connection_proof toy_sodium toy_key text (pos 6) challenge true ≡ ok (replicate 32 0))
verify_connection_proof_iff_example =
    verify_connection_proof_iff toy_sodium toy_laws toy_key text (pos 6) challenge (replicate 32 0)
      true (omega arith)

verify_reset_decision_proof_iff_example :
    (verify_reset_decision_proof toy_sodium toy_key text
        (pos 6)
        challenge
        (replicate 32 0)
        (pos 1)
        false
        []
      ≡ true)
    ↔ (reset_decision_proof toy_sodium toy_key text (pos 6) challenge (pos 1) false []
        ≡ ok (replicate 32 0))
verify_reset_decision_proof_iff_example =
    verify_reset_decision_proof_iff toy_sodium toy_laws toy_key text (pos 6) challenge
      (replicate 32 0) (pos 1) false [] (omega arith)

append_terminal_buffer-encode_terminal_buffer_example :
    append_terminal_buffer (new 1 (encode_terminal_buffer text false)) mark false 16384 ≡ (
      if bool_eq false false && leb (length text + length mark) 16384
      then (new 1 (encode_terminal_buffer (text ++ mark) false), true)
      else (new 1 (encode_terminal_buffer text false), false))
append_terminal_buffer-encode_terminal_buffer_example =
    append_terminal_buffer-encode_terminal_buffer 1 text mark false false 16384 (omega arith)

parse_id_passkey_iff_example :
    (parse_id_passkey (session_id ++ (47 ∷ session_passkey)) ≡ some (session_id, session_passkey))
    ↔ (((session_id ++ (47 ∷ session_passkey)) ≡ session_id ++ (47 ∷ session_passkey))
        × IsCredentials (session_id, session_passkey))
parse_id_passkey_iff_example =
    parse_id_passkey_iff (session_id ++ (47 ∷ session_passkey)) session_id session_passkey

-- ===== src/Examples/Clients.antt =====
-- The parts around a connection at concrete values: the handshake, the clocks, the filter of the
-- terminal output.
use et_rs.Prelude.{
  ◌==◌, if◌then◌else◌, length, replicate, ok, pos, ℕ, ◌≡◌, refl, true, false, Option, none, some,
  List, [], ◌∷◌, ◌++◌, arith,
}
use et_rs.Crypto.{auth_challenge_bytes, generichash}
use et_rs.Crypto.Proof.{codes, reset_decision_message, reset_decision_proof}
use et_rs.Connect.{ConnectResponse, ConnectCodec, protocol_version, client_handshake}
use et_rs.Connect.Trust.{Always, Trusted, client_handshake-Trusted}
use et_rs.Connect.Accept.{play, IsHonest, IsShort, client_handshake-IsHonest}
use et_rs.OutputInterrupt.{
  newline, is_tmux_control_token, until_whitespace, line_first_token, TerminalStream, fresh,
  observe_newline, observe_token, observe_whitespace, observe_byte, observe_loop, observe,
}
use et_rs.OutputInterrupt.Partition.{
  split_inclusive, keeps_line, partition_lines, partition, complete_offset, promote_parts,
  promote_control,
}
use et_rs.OutputInterrupt.Command.{command_requests_interrupt}
use et_rs.OutputInterrupt.Input.{InterruptInput, feed, feed-command_requests_interrupt}
use et_rs.Examples.{toy_sodium, toy_laws, toy_key}

-- A server that asks for a proof, and then takes the client back.
abbrev challenge : List ℕ
challenge = replicate auth_challenge_bytes 9

abbrev client_id : List ℕ
client_id = codes "XXX0123456789abc"

abbrev asking : ConnectResponse
asking = record {
  status = none;
  error = none;
  auth_challenge = some challenge;
  reset_required = none;
  reset_proof = none;
  reset_salt = none;
}

abbrev decision : List ℕ
decision =
    replicate 32
      (length (reset_decision_message client_id protocol_version challenge (pos 2) false []))

abbrev welcome : ConnectResponse
welcome = record asking {
  status = some (pos 2);
  auth_challenge = none;
  reset_proof = some decision;
}

abbrev toy_response_of : List ℕ → Option ConnectResponse
toy_response_of [] = none
toy_response_of (b ∷ bs) = if b == 0 then some asking else some welcome

abbrev toy_connect : ConnectCodec
toy_connect = record {
  request_bytes = λ request. 5 ∷ [];
  auth_bytes = λ proof. proof;
  response_of = toy_response_of;
}

welcome-IsHonest : IsHonest toy_sodium client_id toy_key challenge welcome
unfolding reset_decision_proof generichash
welcome-IsHonest = record { proof = decision; is_given = refl; is_proof = refl }

toy_connect-IsShort : IsShort toy_connect client_id true
toy_connect-IsShort = record { request = omega arith; auth = λ proof size. omega (arith, size) }

client_handshake-Trusted_example :
    Always
      (Trusted toy_sodium client_id toy_key true)
      (client_handshake toy_sodium client_id toy_key toy_connect true)
client_handshake-Trusted_example =
    client_handshake-Trusted toy_sodium toy_laws client_id toy_key toy_connect true (omega arith)

client_handshake-IsHonest_example :
    play (client_handshake toy_sodium client_id toy_key toy_connect true) ((0 ∷ []) ∷ (1 ∷ []) ∷ [])
    ≡ some (ok welcome)
client_handshake-IsHonest_example =
    client_handshake-IsHonest toy_sodium toy_laws client_id toy_key challenge (0 ∷ []) (1 ∷ [])
      toy_connect true asking welcome (omega arith) refl (toy_connect-IsShort) (omega arith)
      (omega arith) refl refl refl (welcome-IsHonest)

abbrev stream : TerminalStream
stream = record fresh { control = true }

-- Two notifications around output that may be dropped.
abbrev output : List ℕ
output = codes "%begin 1" ++ (10 ∷ codes "%output %1 abc") ++ (10 ∷ codes "%end 1") ++ (10 ∷ [])

abbrev flood : List ℕ
flood = codes "%output %1 a" ++ (10 ∷ codes "%exit") ++ (10 ∷ [])

abbrev promoted : List ℕ
promoted = codes "%exit" ++ (10 ∷ codes "%output %1 a") ++ (10 ∷ [])

flood-promoted : promote_control stream flood ≡ some promoted
unfolding promote_control promote_parts partition partition_lines complete_offset observe keeps_line
    fresh split_inclusive observe_loop observe_byte observe_token observe_whitespace observe_newline
    is_tmux_control_token line_first_token until_whitespace
flood-promoted = refl

abbrev input : InterruptInput
input = record { carry = codes "send -H"; overlong = false }

abbrev interrupting : List ℕ
interrupting = codes "send C-c"

interrupting_lem : command_requests_interrupt interrupting ≡ true
unfolding command_requests_interrupt
interrupting_lem = refl

hex_keys : command_requests_interrupt (codes "send-keys -t %1 -H +3") ≡ true
unfolding command_requests_interrupt
hex_keys = refl

literal_keys : command_requests_interrupt (codes "send -l -N 5 c-C") ≡ false
unfolding command_requests_interrupt
literal_keys = refl

feed-command_requests_interrupt_example :
    (feed input ((7 ∷ []) ++ (newline ∷ interrupting))).1 ≡ true
feed-command_requests_interrupt_example =
    feed-command_requests_interrupt input (7 ∷ []) interrupting
      (refl, (refl, (refl, (refl, (refl, (refl, (refl, (refl, tt)))))))) (omega arith)
      interrupting_lem

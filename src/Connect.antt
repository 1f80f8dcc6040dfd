-- ===== src/Connect.antt =====
-- crates/et-net/src/handshake.rs: the first, unencrypted exchange of a connection, from the client's
-- side. It is a dialogue over the socket, whose errors are all I/O errors.
pub mod Trust
pub mod Accept
use et_rs.Prelude.{
  ◌==◌, if◌then◌else◌, length, Result, ok, err, ℤ, pos, negsuc, ℕ, Bool, true, false, ◌&&◌, ◌||◌,
  not, Option, none, some, List, [],
}
use et_rs.Crypto.{auth_challenge_bytes, epoch_salt_bytes, Sodium, ProofError}
use et_rs.Crypto.Proof.{connection_proof, verify_reset_decision_proof}
use et_rs.Recovery.Calls.{
  invalid_data, io, Dialog, finish, max_handshake_proto_len, write_limited, received, read_limited,
}

pub record ConnectRequest : Type 0 where
  pub client_id : Option (List ℕ)
  pub version : Option ℤ
  pub reset_intent : Option Bool
  pub supports_challenge : Option Bool

pub record ConnectResponse : Type 0 where
  pub status : Option ℤ
  pub error : Option (List ℕ)
  pub auth_challenge : Option (List ℕ)
  pub reset_required : Option Bool
  pub reset_proof : Option (List ℕ)
  pub reset_salt : Option (List ℕ)

-- What prost generates for the messages of the handshake.
pub record ConnectCodec : Type 0 where
  pub request_bytes : ConnectRequest → List ℕ
  pub auth_bytes : List ℕ → List ℕ
  pub response_of : List ℕ → Option ConnectResponse

abbrev pub protocol_version : ℤ
protocol_version = pos 6

-- `ConnectStatus::NewClient` and `ConnectStatus::ReturningClient`.
abbrev pub is_success : ℤ → Bool
is_success (pos status) = status == 1 || status == 2
is_success (negsuc n) = false

-- `then_some(true)`, `unwrap_or(false)` and `unwrap_or_default`.
abbrev pub then_true : Bool → Option Bool
then_true b = if b then some true else none

abbrev pub or_no : Option Bool → Bool
or_no none = false
or_no (some b) = b

abbrev pub or_zero : Option ℤ → ℤ
or_zero none = pos 0
or_zero (some z) = z

abbrev pub or_empty : Option (List ℕ) → List ℕ
or_empty none = []
or_empty (some bytes) = bytes

unfoldable pub client_request : List ℕ → ConnectRequest
client_request client_id = record {
  client_id = some client_id;
  version = some protocol_version;
  reset_intent = none;
  supports_challenge = none;
}

unfoldable pub client_request_challenge : List ℕ → Bool → ConnectRequest
client_request_challenge client_id reset_intent = record {
  client_id = some client_id;
  version = some protocol_version;
  reset_intent = then_true reset_intent;
  supports_challenge = some true;
}

unfoldable pub supports_challenge : ConnectRequest → Bool
supports_challenge request = or_no request.supports_challenge

unfoldable pub reset_intent : ConnectRequest → Bool
unfolding supports_challenge
reset_intent request = supports_challenge request && or_no request.reset_intent

abbrev is_version : Option ℤ → Bool
is_version none = false
is_version (some (negsuc n)) = false
is_version (some (pos n)) = n == 6

unfoldable pub protocol_matches : ConnectRequest → Bool
protocol_matches request = is_version request.version

unfoldable pub response_status : ℤ → ConnectResponse
response_status status = record {
  status = some status;
  error = none;
  auth_challenge = none;
  reset_required = none;
  reset_proof = none;
  reset_salt = none;
}

unfoldable pub parsed_response :
    (ConnectResponse → Dialog ConnectResponse) → Option ConnectResponse → Dialog ConnectResponse
parsed_response next none = finish (err (io invalid_data))
parsed_response next (some response) = next response

unfoldable pub read_response :
    ConnectCodec → (ConnectResponse → Dialog ConnectResponse) → Dialog ConnectResponse
unfolding received parsed_response
read_response codec next =
    read_limited max_handshake_proto_len (λ frame. parsed_response next (codec.response_of frame))

module _ (s : Sodium) (client_id key : List ℕ) where
  unfoldable pub proof_ok : List ℕ → ConnectResponse → Option (List ℕ) → Bool
  proof_ok challenge response none = false
  proof_ok challenge response (some proof) =
      verify_reset_decision_proof s key client_id protocol_version challenge proof
        (or_zero response.status) (or_no response.reset_required) (or_empty response.reset_salt)

  -- A success needs the proof of the decision on the reset, and a salt where one is required.
  unfoldable pub final_response : List ℕ → ConnectResponse → Dialog ConnectResponse
  unfolding proof_ok
  final_response challenge response =
      if is_success (or_zero response.status)
      then (if or_no response.reset_required
            && not (length (or_empty response.reset_salt) == epoch_salt_bytes)
          then finish (err (io invalid_data))
          else (if proof_ok challenge response response.reset_proof
              then finish (ok response)
              else finish (err (io invalid_data))))
      else finish (ok response)

  -- A server without the challenge; a client that resumes a session refuses its success.
  unfoldable pub legacy_response : Bool → ConnectResponse → Dialog ConnectResponse
  legacy_response reset_intent first =
      if reset_intent && is_success (or_zero first.status)
      then finish (err (io invalid_data))
      else finish
          (ok (record first { reset_required = none; reset_salt = none; reset_proof = none }))

  unfoldable pub send_proof :
      ConnectCodec → List ℕ → Result (List ℕ) ProofError → Dialog ConnectResponse
  unfolding write_limited read_response final_response
  send_proof codec challenge (err e) = finish (err (io invalid_data))
  send_proof codec challenge (ok proof) =
      write_limited (codec.auth_bytes proof) max_handshake_proto_len
        (read_response codec (final_response challenge))

  unfoldable pub answer_challenge :
      ConnectCodec → Bool → ConnectResponse → Option (List ℕ) → Dialog ConnectResponse
  unfolding legacy_response send_proof
  answer_challenge codec reset_intent first none = legacy_response reset_intent first
  answer_challenge codec reset_intent first (some challenge) =
      if length challenge == auth_challenge_bytes
      then send_proof codec challenge
          (connection_proof s key client_id protocol_version challenge reset_intent)
      else finish (err (io invalid_data))

  unfoldable pub client_handshake : ConnectCodec → Bool → Dialog ConnectResponse
  unfolding write_limited client_request_challenge read_response answer_challenge
  client_handshake codec reset_intent =
      write_limited (codec.request_bytes (client_request_challenge client_id reset_intent))
        max_handshake_proto_len
        (read_response codec
          (λ first. answer_challenge codec reset_intent first first.auth_challenge))

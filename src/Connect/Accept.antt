-- ===== src/Connect/Accept.antt =====
-- The client of crates/et-net/src/handshake.rs and an honest server.
use et_rs.Prelude.{
  leb, ◌==◌, Bool-cases, length, Result, ok, ℤ, ℕ, ◌≤◌, ◌≡◌, refl, ap, ◌∙◌, inl, inr, Bool, true,
  false, ◌&&◌, not, Option, none, some, List, [], ◌∷◌, arith,
}
use et_rs.Crypto.{
  auth_challenge_bytes, epoch_salt_bytes, proof_bytes, Sodium, IsSodium, generichash,
}
use et_rs.Crypto.Proof.{
  connection_proof_message, connection_proof, reset_decision_proof, verify_reset_decision_proof_iff,
}
use et_rs.Recovery.Calls.{
  ConnError, Dialog, finish, call, write, read, max_handshake_proto_len, write_limited, received,
  read_limited,
}
use et_rs.Connect.{
  ConnectResponse, ConnectCodec, protocol_version, is_success, or_no, or_zero, or_empty,
  client_request_challenge, reset_intent, parsed_response, read_response, proof_ok, final_response,
  send_proof, answer_challenge, client_handshake,
}

-- A dialogue on a socket where nothing fails and the frames arrive in this order.
abbrev pub play : {A : Type 0} → Dialog A → List (List ℕ) → Option (Result A ConnError)
play (finish r) frames = some r
play (call k) frames = play (k none) frames
play (write frame k) frames = play (k none) frames
play (read k) [] = none
play (read k) (frame ∷ frames) = play (k (ok frame)) frames

module _ {A : Type 0} where
  pub play-write_limited :
      (bytes : List ℕ) (limit : ℕ) (d : Dialog A) (frames : List (List ℕ))
      → length bytes ≤ limit
      → play (write_limited bytes limit d) frames ≡ play d frames
  unfolding write_limited
  play-write_limited bytes limit d frames h =
      let fits : leb (length bytes) limit ≡ true = ground arith in rw fits refl

  pub play-read_limited :
      (limit : ℕ) (k : List ℕ → Dialog A) (frame : List ℕ) (frames : List (List ℕ))
      → length frame ≤ limit
      → play (read_limited limit k) (frame ∷ frames) ≡ play (k frame) frames
  unfolding received
  play-read_limited limit k frame frames h =
      let fits : leb (length frame) limit ≡ true = ground arith in
      let same : received limit k (ok frame) ≡ k frame = rw fits refl in
      ap (λ d. play d frames) same

play-read_response :
    (codec : ConnectCodec) (k : ConnectResponse → Dialog ConnectResponse) (frame : List ℕ)
    (frames : List (List ℕ)) (response : ConnectResponse)
    → length frame ≤ max_handshake_proto_len
    → codec.response_of frame ≡ some response
    → play (read_response codec k) (frame ∷ frames) ≡ play (k response) frames
unfolding read_response parsed_response
play-read_response codec k frame frames response fits e =
    play-read_limited max_handshake_proto_len (λ f. parsed_response k (codec.response_of f)) frame
      frames fits
    ∙ ap (λ o. play (parsed_response k o) frames) e

-- A response as an honest server makes it for the challenge.
pub record IsHonest (s : Sodium) (client_id key challenge : List ℕ) (response : ConnectResponse)
    : Type 0 where
  pub proof : List ℕ
  pub is_given : response.reset_proof ≡ some proof
  pub is_proof :
      reset_decision_proof s key client_id protocol_version challenge
        (or_zero response.status)
        (or_no response.reset_required)
        (or_empty response.reset_salt)
      ≡ ok proof

-- The messages of the handshake are short.
pub record IsShort (codec : ConnectCodec) (client_id : List ℕ) (reset_intent : Bool) : Type 0 where
  pub request :
      length (codec.request_bytes (client_request_challenge client_id reset_intent))
      ≤ max_handshake_proto_len
  pub auth :
      (proof : List ℕ)
      → length proof ≡ proof_bytes
      → length (codec.auth_bytes proof) ≤ max_handshake_proto_len

salted_lem :
    (s : Sodium) (client_id key challenge : List ℕ) (status : ℤ) (required : Bool)
    (salt proof : List ℕ)
    → reset_decision_proof s key client_id protocol_version challenge status required salt
      ≡ ok proof
    → (required && not (length salt == epoch_salt_bytes)) ≡ false
unfolding reset_decision_proof
salted_lem s client_id key challenge status required salt proof e = ground arith

connection_proof_given :
    (s : Sodium)
    → IsSodium s
    → (client_id key challenge : List ℕ) (reset_intent : Bool) → length key ≤ 64
    → length challenge ≡ auth_challenge_bytes
    → (proof : List ℕ) × (connection_proof s key client_id protocol_version challenge reset_intent
        ≡ ok proof)
      × (length proof ≡ proof_bytes)
unfolding connection_proof generichash
connection_proof_given s laws client_id key challenge reset_intent fits size =
    let message = connection_proof_message client_id protocol_version challenge reset_intent in
    let digest = laws.blake2b_accepts key message fits in
    (digest.0, ground (arith, digest.1), digest.2)

final_response_lem :
    (s : Sodium)
    → IsSodium s
    → (client_id key challenge : List ℕ) (response : ConnectResponse) → length key ≤ 64
    → IsHonest s client_id key challenge response
    → final_response s client_id key challenge response ≡ finish (ok response)
unfolding final_response proof_ok
final_response_lem s laws client_id key challenge response fits h =
    let salted =
      salted_lem s client_id key challenge (or_zero response.status) (or_no response.reset_required)
        (or_empty response.reset_salt) h.proof h.is_proof in
    let proved =
      (verify_reset_decision_proof_iff s laws key client_id protocol_version challenge h.proof
          (or_zero response.status) (or_no response.reset_required) (or_empty response.reset_salt)
          fits).1
        h.is_proof in
    let given : proof_ok s client_id key challenge response response.reset_proof ≡ true =
      ap (proof_ok s client_id key challenge response) h.is_given ∙ proved in
    elim (Bool-cases (is_success (or_zero response.status))) [
      | inl success ↦ rw (success, salted, given) refl
      | inr failed ↦ rw failed refl
    ]

answer_challenge_lem :
    (s : Sodium)
    → IsSodium s
    → (client_id key challenge frame : List ℕ) (codec : ConnectCodec) (reset_intent : Bool)
      (first response : ConnectResponse)
    → length key ≤ 64
    → length challenge ≡ auth_challenge_bytes
    → IsShort codec client_id reset_intent
    → length frame ≤ max_handshake_proto_len
    → codec.response_of frame ≡ some response
    → IsHonest s client_id key challenge response
    → play (answer_challenge s client_id key codec reset_intent first (some challenge)) (frame ∷ [])
      ≡ some (ok response)
unfolding answer_challenge send_proof
answer_challenge_lem s laws client_id key challenge frame codec reset_intent first response fits
      size brief small parsed h =
    let given = connection_proof_given s laws client_id key challenge reset_intent fits size in
    let whole : (length challenge == auth_challenge_bytes) ≡ true = ground (arith, size) in
    let after = final_response s client_id key challenge in
    let opened : answer_challenge s client_id key codec reset_intent first (some challenge)
        ≡ send_proof s client_id key codec challenge (ok given.0) =
      rw (whole, given.1) refl in
    ap (λ d. play d (frame ∷ [])) opened
    ∙ play-write_limited (codec.auth_bytes given.0) max_handshake_proto_len
        (read_response codec after) (frame ∷ []) (brief.auth given.0 given.2)
    ∙ play-read_response codec after frame [] response small parsed
    ∙ ap (λ d. play d []) (final_response_lem s laws client_id key challenge response fits h)

-- A server that holds the key and answers with a challenge, and then with a response whose reset
-- decision it proves for that challenge, is accepted: where nothing fails on the socket and the
-- messages have at most 4096 bytes, the handshake ends with that response.
pub client_handshake-IsHonest :
    (s : Sodium)
    → IsSodium s
    → (client_id key challenge frame frame' : List ℕ) (codec : ConnectCodec) (reset_intent : Bool)
      (first response : ConnectResponse)
    → length key ≤ 64
    → length challenge ≡ auth_challenge_bytes
    → IsShort codec client_id reset_intent
    → length frame ≤ max_handshake_proto_len
    → length frame' ≤ max_handshake_proto_len
    → codec.response_of frame ≡ some first
    → first.auth_challenge ≡ some challenge
    → codec.response_of frame' ≡ some response
    → IsHonest s client_id key challenge response
    → play (client_handshake s client_id key codec reset_intent) (frame ∷ frame' ∷ [])
      ≡ some (ok response)
unfolding client_handshake
client_handshake-IsHonest s laws client_id key challenge frame frame' codec reset_intent first
      response fits size brief small small' parsed asked parsed' h =
    let answer = λ (r : ConnectResponse).
      answer_challenge s client_id key codec reset_intent r r.auth_challenge in
    play-write_limited (codec.request_bytes (client_request_challenge client_id reset_intent))
      max_handshake_proto_len (read_response codec answer) (frame ∷ frame' ∷ []) brief.request
    ∙ play-read_response codec answer frame (frame' ∷ []) first small parsed
    ∙ ap (λ o. play (answer_challenge s client_id key codec reset_intent first o) (frame' ∷ []))
        asked
    ∙ answer_challenge_lem s laws client_id key challenge frame' codec reset_intent first response
        fits size brief small' parsed' h

-- ===== src/Connect/Trust.antt =====
-- What the client of crates/et-net/src/handshake.rs checks of a server that may send anything.
use et_rs.Prelude.{
  leb, ◌==◌, Bool-cases, length, Result, ok, err, ℕ, ◌≤◌, ◌≡◌, refl, ◌⊎◌, inl, inr, Bool, true,
  false, ◌&&◌, not, Option, none, some, List, arith,
}
use et_rs.Crypto.{auth_challenge_bytes, epoch_salt_bytes, Sodium, IsSodium, ProofError}
use et_rs.Crypto.Proof.{connection_proof, reset_decision_proof, verify_reset_decision_proof_iff}
use et_rs.Recovery.Calls.{
  IoError, ConnError, Dialog, finish, call, write, read, max_handshake_proto_len, on_success,
  write_limited, received,
}
use et_rs.Connect.{
  ConnectResponse, ConnectCodec, protocol_version, is_success, or_no, or_zero, or_empty,
  client_request_challenge, reset_intent, parsed_response, read_response, proof_ok, final_response,
  legacy_response, send_proof, answer_challenge, client_handshake,
}

-- Whatever the socket answers, a result of the dialogue has the property.
abbrev pub OnOk : {A : Type 0} → (A → Type 0) → Result A ConnError → Type 0
OnOk P (err e) = Unit
OnOk P (ok a) = P a

abbrev pub Always : {A : Type 0} → (A → Type 0) → Dialog A → Type 0
Always P (finish r) = OnOk P r
Always P (call k) = (e : Option IoError) → Always P (k e)
Always P (write frame k) = (e : Option IoError) → Always P (k e)
Always P (read k) = (x : Result (List ℕ) IoError) → Always P (k x)

module _ {A : Type 0} (P : A → Type 0) where
  Always-on_success : (o : Option IoError) (d : Dialog A) → Always P d → Always P (on_success o d)
  Always-on_success none d h = h
  Always-on_success (some e) d h = tt

  Always-write_limited :
      (bytes : List ℕ) (limit : ℕ) (d : Dialog A)
      → Always P d
      → Always P (write_limited bytes limit d)
  unfolding write_limited
  Always-write_limited bytes limit d h = elim (Bool-cases (leb (length bytes) limit)) [
    | inl fits ↦ rw fits (λ e. Always-on_success e d h)
    | inr long ↦ rw long tt
  ]

  Always-received :
      (limit : ℕ) (k : List ℕ → Dialog A) (x : Result (List ℕ) IoError)
      → ((frame : List ℕ) → Always P (k frame))
      → Always P (received limit k x)
  unfolding received
  Always-received limit k (err e) h = tt
  Always-received limit k (ok frame) h = elim (Bool-cases (leb (length frame) limit)) [
    | inl fits ↦ rw fits (h frame)
    | inr long ↦ rw long tt
  ]

-- A response whose reset decision the server has proved, for a challenge, with the session's key.
pub record IsProved (s : Sodium) (client_id key : List ℕ) (response : ConnectResponse)
    : Type 0 where
  pub challenge : List ℕ
  pub proof : List ℕ
  pub is_given : response.reset_proof ≡ some proof
  pub is_proof :
      reset_decision_proof s key client_id protocol_version challenge
        (or_zero response.status)
        (or_no response.reset_required)
        (or_empty response.reset_salt)
      ≡ ok proof

-- What a client may rely on: a success is proved, or it asks for no reset and the client did not
-- mean to resume a session.
abbrev pub Trusted : Sodium → List ℕ → List ℕ → Bool → ConnectResponse → Type 0
Trusted s client_id key reset_intent response =
    (is_success (or_zero response.status) ≡ false)
    ⊎ (IsProved s client_id key response
        ⊎ ((reset_intent ≡ false)
            × (response.reset_required ≡ none)
            × (response.reset_salt ≡ none)))

Always-parsed_response :
    (P : ConnectResponse → Type 0) (k : ConnectResponse → Dialog ConnectResponse)
    → ((response : ConnectResponse) → Always P (k response))
    → (o : Option ConnectResponse) → Always P (parsed_response k o)
unfolding parsed_response
Always-parsed_response P k h none = tt
Always-parsed_response P k h (some response) = h response

Always-read_response :
    (P : ConnectResponse → Type 0) (codec : ConnectCodec)
    (k : ConnectResponse → Dialog ConnectResponse)
    → ((response : ConnectResponse) → Always P (k response))
    → Always P (read_response codec k)
unfolding read_response
Always-read_response P codec k h = λ x.
    Always-received P max_handshake_proto_len (λ frame. parsed_response k (codec.response_of frame))
      x (λ frame. Always-parsed_response P k h (codec.response_of frame))

module _ (s : Sodium) (laws : IsSodium s) (client_id key : List ℕ) (fits : length key ≤ 64) where
  proof_ok-IsProved :
      (challenge : List ℕ) (response : ConnectResponse) (o : Option (List ℕ))
      → response.reset_proof ≡ o
      → proof_ok s client_id key challenge response o ≡ true
      → IsProved s client_id key response
  unfolding proof_ok
  proof_ok-IsProved challenge response none given h = absurd (ground arith)
  proof_ok-IsProved challenge response (some proof) given h = record {
    challenge = challenge;
    proof = proof;
    is_given = given;
    is_proof =
        (verify_reset_decision_proof_iff s laws key client_id protocol_version challenge proof
            (or_zero response.status) (or_no response.reset_required) (or_empty response.reset_salt)
            fits).0
          h;
  }

  final_response-Trusted :
      (reset_intent : Bool) (challenge : List ℕ) (response : ConnectResponse)
      → Always
          (Trusted s client_id key reset_intent)
          (final_response s client_id key challenge response)
  unfolding final_response
  final_response-Trusted reset_intent challenge response =
      elim (Bool-cases (is_success (or_zero response.status))) [
        | inr failed ↦ rw failed (inl failed)
        | inl success ↦
            elim (Bool-cases (
              or_no response.reset_required
              && not (length (or_empty response.reset_salt) == epoch_salt_bytes))) [
                | inl no_salt ↦ rw (success, no_salt) tt
                | inr salted ↦
                    elim (Bool-cases
                      (proof_ok s client_id key challenge response response.reset_proof)) [
                        | inr unproved ↦ rw (success, salted, unproved) tt
                        | inl proved ↦
                            rw (success, salted, proved)
                              (inr (
                                inl (
                                  proof_ok-IsProved challenge response response.reset_proof refl
                                    proved)))
                      ]
              ]
      ]

  legacy_response-Trusted :
      (reset_intent : Bool) (first : ConnectResponse)
      → Always
          (Trusted s client_id key reset_intent)
          (legacy_response s client_id key reset_intent first)
  unfolding legacy_response
  legacy_response-Trusted true first = elim (Bool-cases (is_success (or_zero first.status))) [
    | inl success ↦ rw success tt
    | inr failed ↦ rw failed (inl failed)
  ]
  legacy_response-Trusted false first = inr (inr (refl, refl, refl))

  send_proof-Trusted :
      (codec : ConnectCodec) (reset_intent : Bool) (challenge : List ℕ)
      (proof : Result (List ℕ) ProofError)
      → Always
          (Trusted s client_id key reset_intent)
          (send_proof s client_id key codec challenge proof)
  unfolding send_proof
  send_proof-Trusted codec reset_intent challenge (err e) = tt
  send_proof-Trusted codec reset_intent challenge (ok proof) =
      let P = Trusted s client_id key reset_intent in
      let after = final_response s client_id key challenge in
      Always-write_limited P (codec.auth_bytes proof) max_handshake_proto_len
        (read_response codec after)
        (Always-read_response P codec after (final_response-Trusted reset_intent challenge))

  answer_challenge-Trusted :
      (codec : ConnectCodec) (reset_intent : Bool) (first : ConnectResponse) (o : Option (List ℕ))
      → Always
          (Trusted s client_id key reset_intent)
          (answer_challenge s client_id key codec reset_intent first o)
  unfolding answer_challenge
  answer_challenge-Trusted codec reset_intent first none =
      legacy_response-Trusted reset_intent first
  answer_challenge-Trusted codec reset_intent first (some challenge) =
      elim (Bool-cases (length challenge == auth_challenge_bytes)) [
        | inl whole ↦ rw whole (
            send_proof-Trusted codec reset_intent challenge
              (connection_proof s key client_id protocol_version challenge reset_intent))
        | inr other ↦ rw other tt
      ]

-- Whatever a server sends, and whatever fails: when the handshake gives the client a success, the
-- response carries the keyed proof of its reset decision, for that status and salt and a challenge;
-- only a client that does not resume a session also takes a success without one, and then there is
-- no reset. (A key of at most 64 bytes.)
pub client_handshake-Trusted :
    (s : Sodium)
    → IsSodium s
    → (client_id key : List ℕ) (codec : ConnectCodec) (reset_intent : Bool) → length key ≤ 64
    → Always
        (Trusted s client_id key reset_intent)
        (client_handshake s client_id key codec reset_intent)
unfolding client_handshake
client_handshake-Trusted s laws client_id key codec reset_intent fits =
    let P = Trusted s client_id key reset_intent in
    let answer = λ (first : ConnectResponse).
      answer_challenge s client_id key codec reset_intent first first.auth_challenge in
    Always-write_limited P (codec.request_bytes (client_request_challenge client_id reset_intent))
      max_handshake_proto_len (read_response codec answer)
      (Always-read_response P codec answer (λ first.
        answer_challenge-Trusted s laws client_id key fits codec reset_intent first
          first.auth_challenge))

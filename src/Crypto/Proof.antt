-- ===== src/Crypto/Proof.antt =====
-- The connection and reset proofs of crates/et-core/src/crypto.rs: keyed hashes over a message
-- that names the client, the protocol version, the challenge and the decision.
use Prim.Native.Char.{code}
use Prim.Native.String.{String}
use et_rs.Prelude.{
  ◌==◌, if◌then◌else◌, length, Result, ok, err, Result-cases, ℤ, pos, negsuc, bit_or_eq_zero,
  bit_xor_eq_zero, ℕ, zero, suc, ◌+◌, ◌/◌, ◌%◌, ◌≤◌, bit_or, bit_xor, ◌≡◌, refl, ap, ap₂, ◌↔◌, inl,
  inr, Bool, true, false, ◌&&◌, not, List, [], ◌∷◌, ◌++◌, arith, ℕ_discrete,
}
use et_rs.Crypto.{
  auth_challenge_bytes, epoch_salt_bytes, proof_bytes, Sodium, IsSodium, ProofError, invalid,
  generichash, fold_diff, constant_time_eq,
}

-- The bytes of an ASCII text.
abbrev pub codes : String → List ℕ
codes String.[] = []
codes (String.◌∷◌ c s) = code c ∷ codes s

-- `to_string` of an integer. Twenty digits hold any 64-bit number.
unfoldable pub decimal_digits : ℕ → ℕ → List ℕ → List ℕ
decimal_digits zero n acc = acc
decimal_digits (suc fuel) n acc =
    let acc' = (b'0' + n % 10) ∷ acc in
    let rest = decimal_digits fuel (n / 10) acc' in if n / 10 == 0 then acc' else rest

unfoldable pub decimal : ℕ → List ℕ
unfolding decimal_digits
decimal n = decimal_digits 20 n []

unfoldable pub signed_decimal : ℤ → List ℕ
unfolding decimal
signed_decimal (pos n) = decimal n
signed_decimal (negsuc n) = b'-' ∷ decimal (n + 1)

unfoldable pub flag_byte : Bool → ℕ
flag_byte b = if b then b'1' else b'0'

-- A part of a message, the zero byte behind it, and what follows.
unfoldable pub push_part : List ℕ → List ℕ → List ℕ
push_part part rest = part ++ (0 ∷ rest)

unfoldable pub connection_proof_message : List ℕ → ℤ → List ℕ → Bool → List ℕ
unfolding decimal signed_decimal flag_byte push_part
connection_proof_message client_id protocol_version challenge reset_intent =
    push_part (codes "EternalTerminal connect auth v2") (
      push_part (signed_decimal protocol_version) (
        push_part (decimal (length client_id)) (
          push_part client_id (
            push_part (decimal (length challenge))
              (push_part challenge (flag_byte reset_intent ∷ []))))))

unfoldable pub reset_decision_message : List ℕ → ℤ → List ℕ → ℤ → Bool → List ℕ → List ℕ
unfolding decimal signed_decimal flag_byte push_part
reset_decision_message client_id protocol_version challenge status reset_required reset_salt =
    push_part (codes "EternalTerminal reset decision v3") (
      push_part (signed_decimal protocol_version) (
        push_part client_id (
          push_part (decimal (length challenge)) (
            push_part challenge (
              push_part (signed_decimal status) (
                push_part (flag_byte reset_required ∷ [])
                  (push_part (decimal (length reset_salt)) reset_salt)))))))

module _ (s : Sodium) (key client_id : List ℕ) (protocol_version : ℤ) (challenge : List ℕ) where
  unfoldable pub connection_proof : Bool → Result (List ℕ) ProofError
  unfolding generichash
  connection_proof reset_intent =
      if length challenge == auth_challenge_bytes
      then generichash s key
          (connection_proof_message client_id protocol_version challenge reset_intent)
      else err invalid

  unfoldable pub verify_connection_proof : List ℕ → Bool → Bool
  unfolding connection_proof constant_time_eq
  verify_connection_proof proof reset_intent =
      if length proof == proof_bytes && length challenge == auth_challenge_bytes
      then elim (connection_proof reset_intent) [
        | err e ↦ false
        | ok expected ↦ constant_time_eq proof expected
      ]
      else false

  unfoldable pub reset_decision_proof : ℤ → Bool → List ℕ → Result (List ℕ) ProofError
  unfolding generichash
  reset_decision_proof status reset_required reset_salt =
      if not (length challenge == auth_challenge_bytes)
      then err invalid
      else if reset_required && not (length reset_salt == epoch_salt_bytes)
      then err invalid
      else if not reset_required && not (length reset_salt == 0)
      then err invalid
      else generichash s key (
          reset_decision_message client_id protocol_version challenge status reset_required
            reset_salt)

  unfoldable pub verify_reset_decision_proof : List ℕ → ℤ → Bool → List ℕ → Bool
  unfolding reset_decision_proof constant_time_eq
  verify_reset_decision_proof proof status reset_required reset_salt =
      if length proof == proof_bytes && length challenge == auth_challenge_bytes
      then elim (reset_decision_proof status reset_required reset_salt) [
        | err e ↦ false
        | ok expected ↦ constant_time_eq proof expected
      ]
      else false

fold_diff_eq_zero :
    (diff : ℕ) (left right : List ℕ)
    → length left ≡ length right
    → (fold_diff diff left right ≡ 0) ↔ ((diff ≡ 0) × (left ≡ right))
unfolding fold_diff
fold_diff_eq_zero diff [] [] same = (λ h. (h, refl), λ h. h.0)
fold_diff_eq_zero diff [] (b ∷ right) same = absurd (omega arith)
fold_diff_eq_zero diff (a ∷ left) [] same = absurd (omega arith)
fold_diff_eq_zero diff (a ∷ left) (b ∷ right) same =
    let ih = fold_diff_eq_zero (bit_or diff (bit_xor a b)) left right (omega arith) in
    let or = bit_or_eq_zero diff (bit_xor a b) in
    let xor = bit_xor_eq_zero a b in
    (
      λ h. ((or.0 (ih.0 h).0).0, ap₂ ◌∷◌ (xor.0 (or.0 (ih.0 h).0).1) (ih.0 h).1),
      λ h. ih.1 (or.1 (h.0, xor.1 (ground arith)), ground arith),
    )

-- The comparison without early exit is equality of the byte strings.
pub constant_time_eq_iff :
    (left right : List ℕ) → (constant_time_eq left right ≡ true) ↔ (left ≡ right)
unfolding constant_time_eq
constant_time_eq_iff left right = elim (ℕ_discrete (length left) (length right)) [
  | yes same ↦
      let fold = fold_diff_eq_zero 0 left right same in
      (λ h. (fold.0 (ground arith)).1, λ h. ground (arith, fold.1 (refl, h)))
  | no differ ↦ (λ h. absurd (ground arith), λ h. absurd (differ (ap length h)))
]

-- A digest is 32 bytes long.
length-generichash :
    (s : Sodium)
    → IsSodium s
    → (key message digest : List ℕ) → length key ≤ 64
    → generichash s key message ≡ ok digest
    → length digest ≡ proof_bytes
unfolding generichash
length-generichash s laws key message digest fits h =
    let found = laws.blake2b_accepts key message fits in ground (arith, found.1, found.2)

-- The server accepts exactly the proof that the client computes from the same key, client id,
-- protocol version, challenge and reset intent.
pub verify_connection_proof_iff :
    (s : Sodium)
    → IsSodium s
    → (key client_id : List ℕ) (version : ℤ) (challenge proof : List ℕ) (reset_intent : Bool)
    → length key ≤ 64
    → (verify_connection_proof s key client_id version challenge proof reset_intent ≡ true)
      ↔ (connection_proof s key client_id version challenge reset_intent ≡ ok proof)
unfolding verify_connection_proof
verify_connection_proof_iff s laws key client_id version challenge proof reset_intent fits =
    elim (Result-cases (connection_proof s key client_id version challenge reset_intent)) [
      | inl (expected, e) ↦
          let size : connection_proof s key client_id version challenge reset_intent ≡ ok proof
              → length proof ≡ proof_bytes =
            λ h.
              length-generichash s laws key
                (connection_proof_message client_id version challenge reset_intent) proof fits
                (ground arith) in
          let eq = constant_time_eq_iff proof expected in
          (λ h. ground (arith, eq), λ h. ground (arith, eq, size h))
      | inr (e, p) ↦ (λ h. ground arith, λ h. ground arith)
    ]

-- The client accepts exactly the reset decision that the server signs with the same key, client
-- id, protocol version, challenge, status, decision and salt.
pub verify_reset_decision_proof_iff :
    (s : Sodium)
    → IsSodium s
    → (key client_id : List ℕ) (version : ℤ) (challenge proof : List ℕ) (status : ℤ)
      (reset_required : Bool) (reset_salt : List ℕ)
    → length key ≤ 64
    → (verify_reset_decision_proof s key client_id version challenge proof status reset_required
          reset_salt
        ≡ true)
      ↔ (reset_decision_proof s key client_id version challenge status reset_required reset_salt
          ≡ ok proof)
unfolding verify_reset_decision_proof
verify_reset_decision_proof_iff s laws key client_id version challenge proof status reset_required
      reset_salt fits =
    elim (Result-cases
      (reset_decision_proof s key client_id version challenge status reset_required reset_salt)) [
        | inl (expected, e) ↦
            let size : reset_decision_proof s key client_id version challenge status reset_required
                    reset_salt
                  ≡ ok proof
                → length proof ≡ proof_bytes =
              λ h.
                length-generichash s laws key
                  (reset_decision_message client_id version challenge status reset_required
                    reset_salt)
                  proof fits (ground arith) in
            let eq = constant_time_eq_iff proof expected in
            (λ h. ground (arith, eq), λ h. ground (arith, eq, size h))
        | inr (e, p) ↦ (λ h. ground arith, λ h. ground arith)
      ]

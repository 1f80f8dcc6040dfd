-- ===== src/Crypto.antt =====
-- crates/et-core/src/crypto.rs and the libsodium wrapper of crates/et-sodium/src/lib.rs.
-- libsodium's secretbox and the BLAKE2b crate are not in the repository: they are the fields of
-- `Sodium`, an argument of every operation, and `IsSodium` is what they are documented to do.
pub mod Nonce
pub mod Channel
pub mod Proof
use mathlib.Core.Option
use et_rs.Prelude.{
  ltb, ◌==◌, if◌then◌else◌, length, replicate, Result, ok, err, ℕ, ◌+◌, ◌-◌, ◌%◌, ◌≤◌, bit_or,
  bit_xor, ◌≡◌, Bool, false, ◌||◌, Option, none, some, List, [], ◌∷◌, ◌++◌,
}

abbrev pub key_len : ℕ
key_len = 32

abbrev pub nonce_len : ℕ
nonce_len = 24

abbrev pub mac_len : ℕ
mac_len = 16

abbrev pub auth_challenge_bytes : ℕ
auth_challenge_bytes = 32

abbrev pub epoch_salt_bytes : ℕ
epoch_salt_bytes = 32

abbrev pub proof_bytes : ℕ
proof_bytes = 32

-- `seal key nonce plaintext` is `crypto_secretbox_easy`, the tag first; `open_box` is
-- `crypto_secretbox_open_easy`, `none` where it reports a forgery; `blake2b key message` is keyed
-- BLAKE2b-256, `none` where the crate refuses the key's length.
pub record Sodium : Type 0 where
  pub seal : List ℕ → List ℕ → List ℕ → List ℕ
  pub open_box : List ℕ → List ℕ → List ℕ → Option (List ℕ)
  pub blake2b : List ℕ → List ℕ → Option (List ℕ)

pub record IsSodium (s : Sodium) : Type 0 where
  pub open_box-seal :
      (key nonce plain : List ℕ) → s.open_box key nonce (s.seal key nonce plain) ≡ some plain
  pub length-seal :
      (key nonce plain : List ℕ) → length (s.seal key nonce plain) ≡ length plain + mac_len
  pub blake2b_accepts :
      (key message : List ℕ)
      → length key ≤ 64
      → (digest : List ℕ) × (s.blake2b key message ≡ some digest) × (length digest ≡ proof_bytes)

pub data DecryptError : Type 0 where
  short bad_mac : DecryptError

pub data EncryptError : Type 0 where
  too_long : EncryptError

pub data ProofError : Type 0 where
  invalid : ProofError

-- A slice: its first `length out` elements; the copy of the digest into `out` keeps it whole.
unfoldable pub generichash : Sodium → List ℕ → List ℕ → Result (List ℕ) ProofError
generichash s key message = elim (s.blake2b key message) [
  | none ↦ err invalid
  | some digest ↦ ok digest
]

-- `diff |= a ^ b` over the pairs of bytes.
unfoldable pub fold_diff : ℕ → List ℕ → List ℕ → ℕ
fold_diff diff (a ∷ left) (b ∷ right) = fold_diff (bit_or diff (bit_xor a b)) left right
fold_diff diff _ _ = diff

unfoldable pub constant_time_eq : List ℕ → List ℕ → Bool
unfolding fold_diff
constant_time_eq left right =
    if length left == length right then fold_diff 0 left right == 0 else false

pub record CryptoHandler : Type 0 where
  pub original_key : List ℕ
  pub base_key : List ℕ
  pub nonce : List ℕ
  pub direction : ℕ

abbrev pub initial_nonce : ℕ → List ℕ
initial_nonce direction = replicate (nonce_len - 1) 0 ++ (direction ∷ [])

unfoldable pub new : List ℕ → ℕ → CryptoHandler
new key direction = record {
  original_key = key;
  base_key = key;
  nonce = initial_nonce direction;
  direction = direction;
}

-- The bytes of the counter, the lowest first, with the carry of `wrapping_add`.
unfoldable pub bump_nonce : List ℕ → List ℕ
bump_nonce [] = []
bump_nonce (b ∷ bs) =
    let b' = (b + 1) % 256 in
    let carried = b' ∷ bump_nonce bs in if b' == 0 then carried else b' ∷ bs

unfoldable pub bump : CryptoHandler → CryptoHandler
bump h = record h { nonce = bump_nonce h.nonce }

unfoldable pub next_nonce_and_key : CryptoHandler → CryptoHandler × List ℕ × List ℕ
unfolding bump
next_nonce_and_key h = let h' = bump h in (h', h'.nonce, h'.base_key)

module _ (s : Sodium) where
  unfoldable pub secretbox : List ℕ → List ℕ → List ℕ → List ℕ
  secretbox plaintext nonce key = s.seal key nonce plaintext

  unfoldable pub secretbox_with_prefix : List ℕ → List ℕ → List ℕ → List ℕ → List ℕ
  secretbox_with_prefix prefix plaintext nonce key = prefix ++ s.seal key nonce plaintext

  unfoldable pub secretbox_open : List ℕ → List ℕ → List ℕ → Option (List ℕ)
  secretbox_open ciphertext nonce key =
      if ltb (length ciphertext) mac_len then none else s.open_box key nonce ciphertext

  unfoldable pub encrypt_detached : List ℕ → List ℕ → List ℕ → List ℕ → List ℕ
  unfolding secretbox_with_prefix
  encrypt_detached prefix plaintext nonce key = secretbox_with_prefix prefix plaintext nonce key

  unfoldable pub rekey : CryptoHandler → List ℕ → Result CryptoHandler ProofError
  unfolding generichash
  rekey h salt =
      if length salt == epoch_salt_bytes
      then elim (generichash s h.original_key salt) [
        | err e ↦ err e
        | ok derived ↦ ok (record h { base_key = derived; nonce = initial_nonce h.direction })
      ]
      else err invalid

  unfoldable pub encrypt : CryptoHandler → List ℕ → CryptoHandler × Result (List ℕ) EncryptError
  unfolding bump secretbox
  encrypt h plaintext = let h' = bump h in (h', ok (secretbox plaintext h'.nonce h'.base_key))

  unfoldable pub encrypt_with_prefix :
      CryptoHandler → List ℕ → List ℕ → CryptoHandler × Result (List ℕ) EncryptError
  unfolding bump secretbox_with_prefix
  encrypt_with_prefix h prefix plaintext =
      let h' = bump h in (h', ok (secretbox_with_prefix prefix plaintext h'.nonce h'.base_key))

  -- `out_len` is `out.len()`; the result is what is written to the front of `out`.
  unfoldable pub encrypt_into :
      CryptoHandler → ℕ → List ℕ → CryptoHandler × Result (List ℕ) EncryptError
  unfolding bump secretbox
  encrypt_into h out_len plaintext =
      if ltb out_len (length plaintext + mac_len)
      then (h, err too_long)
      else let h' = bump h in (h', ok (secretbox plaintext h'.nonce h'.base_key))

  unfoldable pub decrypt : CryptoHandler → List ℕ → CryptoHandler × Result (List ℕ) DecryptError
  unfolding bump secretbox_open
  decrypt h ciphertext =
      if ltb (length ciphertext) mac_len
      then (h, err short)
      else let h' = bump h in
        elim (secretbox_open ciphertext h'.nonce h'.base_key) [
          | some out ↦ (h', ok out)
          | none ↦ (record h' { nonce = h.nonce }, err bad_mac)
        ]

  unfoldable pub decrypt_into : CryptoHandler → ℕ → List ℕ → CryptoHandler × Option (List ℕ)
  unfolding bump secretbox_open
  decrypt_into h out_len ciphertext =
      if ltb (length ciphertext) mac_len || ltb out_len (length ciphertext - mac_len)
      then (h, none)
      else let h' = bump h in
        elim (secretbox_open ciphertext h'.nonce h'.base_key) [
          | some out ↦ (h', some out)
          | none ↦ (record h' { nonce = h.nonce }, none)
        ]

  unfoldable pub decrypt_in_place : CryptoHandler → List ℕ → CryptoHandler × Option (List ℕ)
  unfolding bump secretbox_open
  decrypt_in_place h buffer =
      if ltb (length buffer) mac_len
      then (h, none)
      else let h' = bump h in
        elim (secretbox_open buffer h'.nonce h'.base_key) [
          | some out ↦ (h', some out)
          | none ↦ (record h' { nonce = h.nonce }, none)
        ]

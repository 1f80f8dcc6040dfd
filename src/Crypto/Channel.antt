-- ===== src/Crypto/Channel.antt =====
-- The two ends of a stream of crates/et-core/src/crypto.rs: sealing, opening, and refusing.
use et_rs.Prelude.{length, ok, err, ℕ, ◌+◌, ◌≤◌, ◌≡◌, none, some, List, ◌++◌, arith}
use et_rs.Crypto.{
  mac_len, Sodium, IsSodium, DecryptError, CryptoHandler, bump_nonce, bump, next_nonce_and_key,
  secretbox, secretbox_with_prefix, encrypt_detached, rekey, encrypt, encrypt_with_prefix,
  encrypt_into, decrypt, decrypt_into, decrypt_in_place,
}

-- With equal keys and counters, the receiver opens what the sender sealed, in each of the three ways
-- to open it, and its counter follows the sender's. The other ways to seal give the same bytes and
-- the same counter: into a buffer with room for the tag, behind a prefix, and with a nonce and a key
-- that were taken before.
pub decrypt-encrypt :
    (s : Sodium)
    → IsSodium s
    → (a b a' : CryptoHandler) (plain sealed prefix : List ℕ) (room : ℕ) → a.base_key ≡ b.base_key
    → a.nonce ≡ b.nonce
    → length plain + mac_len ≤ room
    → encrypt s a plain ≡ (a', ok sealed)
    → (decrypt s b sealed ≡ (record b { nonce = a'.nonce }, ok plain))
      × (decrypt_in_place s b sealed ≡ (record b { nonce = a'.nonce }, some plain))
      × (decrypt_into s b (length plain) sealed ≡ (record b { nonce = a'.nonce }, some plain))
      × (encrypt_into s a room plain ≡ (a', ok sealed))
      × (encrypt_with_prefix s a prefix plain ≡ (a', ok (prefix ++ sealed)))
      × (let (after, taken, used) = next_nonce_and_key a in
          (after ≡ a') × (encrypt_detached s prefix plain taken used ≡ prefix ++ sealed))
unfolding encrypt encrypt_into encrypt_with_prefix encrypt_detached next_nonce_and_key
    secretbox_with_prefix secretbox bump decrypt decrypt_in_place decrypt_into
decrypt-encrypt s laws a b a' plain sealed prefix room key nonce fits h =
    let same : sealed ≡ s.seal b.base_key (bump_nonce b.nonce) plain = ground arith in
    let size : length sealed ≡ length plain + mac_len =
      rw same (laws.length-seal b.base_key (bump_nonce b.nonce) plain) in
    let back : s.open_box b.base_key (bump_nonce b.nonce) sealed ≡ some plain =
      rw same (laws.open_box-seal b.base_key (bump_nonce b.nonce) plain) in
    (
      ground arith,
      ground arith,
      ground arith,
      ground arith,
      ground arith,
      (ground arith, ground arith),
    )

-- A ciphertext that is refused, too short or forged, leaves the handler exactly as it was, in
-- each of the three ways to open it.
pub decrypt_err :
    (s : Sodium) (h h' : CryptoHandler) (ciphertext : List ℕ) (e : DecryptError) (out_len : ℕ)
    → (decrypt s h ciphertext ≡ (h', err e) → h' ≡ h)
      × (decrypt_in_place s h ciphertext ≡ (h', none) → h' ≡ h)
      × (decrypt_into s h out_len ciphertext ≡ (h', none) → h' ≡ h)
unfolding decrypt decrypt_in_place decrypt_into
decrypt_err s h h' ciphertext e out_len = (λ p. ground arith, λ p. ground arith, λ p. ground arith)

-- A reset always derives from the original key: after any earlier reset it gives the handler
-- that it would have given without it.
pub rekey-rekey :
    (s : Sodium) (h h' : CryptoHandler) (salt salt' : List ℕ)
    → rekey s h salt ≡ ok h'
    → rekey s h' salt' ≡ rekey s h salt'
unfolding rekey
rekey-rekey s h h' salt salt' p = ground arith

-- ===== src/Packet/RoundTrip.antt =====
-- Packets of crates/et-core/src/packet.rs, written and read.
use et_rs.Prelude.{length, drop, ok, ℕ, ◌+◌, ◌≡◌, false, List, [], ◌∷◌, arith}
use et_rs.Crypto.{mac_len, Sodium, IsSodium, CryptoHandler, encrypt, decrypt}
use et_rs.Crypto.Channel.{decrypt-encrypt}
use et_rs.Packet.{Packet, from_serialized, wire_len, serialize, encrypt_packet, decrypt_packet}

-- Serialized bytes parse back to the packet, have the announced length, and any bytes that parse
-- differ from the packet's own serialization in the flag byte at most.
pub from_serialized-serialize :
    (p : Packet)
    → (from_serialized (serialize p) ≡ ok p)
      × (length (serialize p) ≡ wire_len p)
      × ((bytes : List ℕ) → from_serialized bytes ≡ ok p → drop 1 (serialize p) ≡ drop 1 bytes)
unfolding from_serialized serialize wire_len
from_serialized-serialize p = (ground arith, ground arith, flag_only)
  where
    flag_only :
        (bytes : List ℕ) → from_serialized bytes ≡ ok p → drop 1 (serialize p) ≡ drop 1 bytes
    flag_only [] h = ground arith
    flag_only (flag ∷ []) h = ground arith
    flag_only (flag ∷ header ∷ payload) h = ground arith

-- A packet that is sealed, serialized, parsed and opened by a receiver in step is the packet that
-- was sent, and the receiver stays in step.
pub decrypt_packet-encrypt_packet :
    (s : Sodium)
    → IsSodium s
    → (p q : Packet) (a b a' : CryptoHandler) → p.encrypted ≡ false
    → a.base_key ≡ b.base_key
    → a.nonce ≡ b.nonce
    → encrypt_packet s p a ≡ (a', ok q)
    → (from_serialized (serialize q) ≡ ok q)
      × (decrypt_packet s q b ≡ (record b { nonce = a'.nonce }, ok p))
unfolding encrypt_packet decrypt_packet encrypt
decrypt_packet-encrypt_packet s laws p q a b a' plain key nonce h =
    let opens : decrypt s b q.payload ≡ (record b { nonce = a'.nonce }, ok p.payload) =
      (decrypt-encrypt s laws a b a' p.payload q.payload [] (length p.payload + mac_len) key nonce
        (omega arith) (ground arith)).0 in
    ((from_serialized-serialize q).0, ground arith)

-- ===== src/Delivery.antt =====
-- The two halves of a connection together: crates/et-core/src/backed_writer.rs and
-- backed_reader.rs.
pub mod Stream
pub mod Recovery
use et_rs.Prelude.{
  length, ok, be_bytes, ℕ, suc, ◌+◌, ◌%◌, ◌^◌, ◌≡◌, sym, ap, false, some, List, ◌++◌, arith,
}
use et_rs.Framing.{frame_be_u32}
use et_rs.Crypto.{mac_len, Sodium, IsSodium, CryptoHandler, bump_nonce, decrypt}
use et_rs.Crypto.Nonce.{bumps}
use et_rs.Packet.{Packet, raw}
use et_rs.Writer.History.{Sent, wire_body, wire_frame}
use et_rs.Reader.{decode_packet}

-- The packet that a reader gets for a written one.
abbrev pub plain : Sent → Packet
plain p = raw false p.header p.payload

-- A handler that is ready for packet number `n + 1` of the stream.
pub record InStep (key first : List ℕ) (n : ℕ) (crypto : CryptoHandler) : Type 0 where
  pub base_key : crypto.base_key ≡ key
  pub nonce : crypto.nonce ≡ bumps n first

abbrev pub stepped : CryptoHandler → CryptoHandler
stepped c = record c { nonce = bump_nonce c.nonce }

pub stepped-InStep :
    (key first : List ℕ) (n : ℕ) (c : CryptoHandler)
    → InStep key first n c
    → InStep key first (suc n) (stepped c)
unfolding bumps
stepped-InStep key first n c i = record { base_key = i.base_key; nonce = ap bump_nonce i.nonce }

pub length-wire_body :
    (s : Sodium)
    → IsSodium s
    → (key nonce : List ℕ) (p : Sent)
    → length (wire_body s key nonce p) ≡ 2 + length p.payload + mac_len
length-wire_body s laws key nonce p = omega (arith, laws.length-seal key nonce p.payload)

pub wire_frame-frame_be_u32 :
    (s : Sodium)
    → IsSodium s
    → (key nonce : List ℕ) (p : Sent)
    → wire_frame s key nonce p ≡ frame_be_u32 (wire_body s key nonce p)
unfolding frame_be_u32
wire_frame-frame_be_u32 s laws key nonce p =
    ap (λ n. be_bytes 4 (n % 2 ^ 32) ++ wire_body s key nonce p)
      (sym (length-wire_body s laws key nonce p))

-- A reader in step decodes the next body to the packet that was written, and is in step again.
pub decode_packet-wire_body :
    (s : Sodium)
    → IsSodium s
    → (key first : List ℕ) (n : ℕ) (c : CryptoHandler) (p : Sent) → InStep key first n c
    → decode_packet s c (wire_body s key (bumps (suc n) first) p) ≡ (stepped c, ok (plain p))
unfolding decode_packet decrypt bumps
decode_packet-wire_body s laws key first n c p i =
    let nonce : bump_nonce (bumps n first) ≡ bump_nonce c.nonce = ap bump_nonce (sym i.nonce) in
    let sealed : List ℕ = s.seal key (bump_nonce (bumps n first)) p.payload in
    let size : length sealed ≡ length p.payload + mac_len =
      laws.length-seal key (bump_nonce (bumps n first)) p.payload in
    let opened : s.open_box c.base_key (bump_nonce c.nonce) sealed ≡ some p.payload =
      rw (i.base_key, ← nonce) (laws.open_box-seal key (bump_nonce (bumps n first)) p.payload) in
    ground (arith, size, opened)

-- ===== src/Examples.antt =====
-- A cipher and packets to try the theorems on. The cipher is none: its tag is the first byte of the
-- nonce, sixteen times.
pub mod Connections
pub mod Packets
pub mod Windows
pub mod Queues
pub mod Recoveries
pub mod Clients
pub mod Multiplexer
pub mod Clocks
pub mod Proxies
pub mod Tables
pub mod Sockets
use et_rs.Prelude.{
  if◌then◌else◌, length, take, drop, replicate, ℕ, ◌+◌, ◌≡◌, refl, ap, true, none, some, List, [],
  ◌∷◌, ◌++◌, arith,
}
use et_rs.Crypto.{Sodium, IsSodium, constant_time_eq, CryptoHandler, initial_nonce}
use et_rs.Crypto.Nonce.{bumps}
use et_rs.Crypto.Proof.{constant_time_eq_iff}
use et_rs.Writer.History.{Sent}

abbrev pub toy_tag : List ℕ → List ℕ
toy_tag [] = replicate 16 0
toy_tag (b ∷ bs) = replicate 16 b

abbrev pub toy_sodium : Sodium
toy_sodium = record {
  seal = λ key nonce plain. toy_tag nonce ++ plain;
  open_box = λ key nonce sealed.
      if constant_time_eq (take 16 sealed) (toy_tag nonce) then some (drop 16 sealed) else none;
  blake2b = λ key message. some (replicate 32 (length message));
}

take-toy_tag : (nonce plain : List ℕ) → take 16 (toy_tag nonce ++ plain) ≡ toy_tag nonce
take-toy_tag [] plain = refl
take-toy_tag (b ∷ bs) plain = refl

drop-toy_tag : (nonce plain : List ℕ) → drop 16 (toy_tag nonce ++ plain) ≡ plain
drop-toy_tag [] plain = refl
drop-toy_tag (b ∷ bs) plain = refl

length-toy_tag : (nonce plain : List ℕ) → length (toy_tag nonce ++ plain) ≡ length plain + 16
length-toy_tag [] plain = omega arith
length-toy_tag (b ∷ bs) plain = omega arith

pub toy_laws : IsSodium toy_sodium
toy_laws = record {
  open_box-seal = λ key nonce plain.
      let same : constant_time_eq (take 16 (toy_tag nonce ++ plain)) (toy_tag nonce) ≡ true =
        (constant_time_eq_iff (take 16 (toy_tag nonce ++ plain)) (toy_tag nonce)).1
          (take-toy_tag nonce plain) in
      rw same (ap some (drop-toy_tag nonce plain));
  length-seal = λ key nonce plain. length-toy_tag nonce plain;
  blake2b_accepts = λ key message size. (replicate 32 (length message), refl, refl);
}

abbrev pub toy_key : List ℕ
toy_key = replicate 32 7

-- The handler of either end, from the client, after `n` packets.
abbrev pub handler : ℕ → CryptoHandler
handler n = record {
  original_key = toy_key;
  base_key = toy_key;
  nonce = bumps n (initial_nonce 0);
  direction = 0;
}

abbrev pub hello : Sent
hello = record { header = 1; payload = 104 ∷ 105 ∷ [] }

abbrev pub alive : Sent
alive = record { header = 0; payload = [] }

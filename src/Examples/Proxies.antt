-- ===== src/Examples/Proxies.antt =====
-- A SOCKS client at concrete values.
use et_rs.Prelude.{ℕ, ◌≡◌, refl, true, false, none, some, List, [], ◌∷◌, ◌++◌, arith}
use et_rs.Crypto.Proof.{codes}
use et_rs.Socks.{Texts, unsupported_command, complete, error, SocksHandshake, feed_socks_handshake}
use et_rs.Socks.Request.{greeting, request, connected, feed_socks_handshake-connected}

abbrev plain_texts : Texts
plain_texts = record { lossy = λ bytes. bytes; ipv6 = λ bytes. bytes }

abbrev handshake : List ℕ → SocksHandshake
handshake input = record {
  input = input;
  reply = [];
  destination = record { name = none; port = none };
  failure = none;
  socks5_auth_done = false;
  is_complete = false;
  version = 0;
  early_data = [];
}

abbrev browser : SocksHandshake
browser = handshake (greeting (2 ∷ 0 ∷ []) ++ (request (codes "example.org") 1 187 ++ (9 ∷ 9 ∷ [])))

-- The first four bytes of a greeting with three methods are taken for a request.
cut_greeting :
    feed_socks_handshake plain_texts (handshake (5 ∷ 3 ∷ 0 ∷ 1 ∷ []))
    ≡ (record (handshake (5 ∷ 3 ∷ 0 ∷ 1 ∷ [])) { failure = some unsupported_command }, error)
unfolding feed_socks_handshake
cut_greeting = refl

socks4a :
    (feed_socks_handshake plain_texts
      (handshake (4 ∷ 1 ∷ 0 ∷ 80 ∷ 0 ∷ 0 ∷ 0 ∷ 7 ∷ 0 ∷ 97 ∷ 0 ∷ 1 ∷ []))).0.destination
    ≡ record { name = some (97 ∷ []); port = some 80 }
unfolding feed_socks_handshake
socks4a = refl

feed_socks_handshake-connected_example : feed_socks_handshake plain_texts browser ≡ (
  record (connected plain_texts browser (codes "example.org") 1 187 (9 ∷ 9 ∷ [])) {
    reply = 5 ∷ 0 ∷ [];
    socks5_auth_done = true;
  },
  complete,
)
feed_socks_handshake-connected_example =
    feed_socks_handshake-connected plain_texts browser (2 ∷ 0 ∷ []) (codes "example.org")
      (9 ∷ 9 ∷ []) 1 187 refl refl refl (omega arith) refl

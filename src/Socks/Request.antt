-- ===== src/Socks/Request.antt =====
-- A SOCKS5 client of crates/et-net/src/socks.rs that asks for a connection to a domain.
use et_rs.Prelude.{
  ltb, ◌==◌, if◌then◌else◌, length, drop, length-append, take-append_exact, drop-append_exact, ℕ,
  ◌+◌, ◌*◌, ◌^◌, ◌≤◌, ◌≡◌, refl, ap, ◌∙◌, true, false, none, some, List, [], ◌∷◌, ◌++◌,
  append_assoc, arith,
}
use et_rs.Socks.{
  Texts, max_handshake, SocksParseStatus, need_more, complete, SocksHandshake, done, is_path,
  has_byte, finish_destination, conclude, greeting_parsed, parse_socks5_auth, domain_request,
  socks5_request, parse_socks5_request, after_auth, feed_input, feed_socks_handshake,
}

-- The greeting with its methods, and the request for a port, whose number has two bytes.
abbrev pub greeting : List ℕ → List ℕ
greeting methods = 5 ∷ length methods ∷ methods

abbrev pub request : List ℕ → ℕ → ℕ → List ℕ
request host p q = 5 ∷ 1 ∷ 0 ∷ 3 ∷ length host ∷ (host ++ (p ∷ q ∷ []))

-- The destination of the request, with the bytes behind it.
abbrev pub connected : Texts → SocksHandshake → List ℕ → ℕ → ℕ → List ℕ → SocksHandshake
connected t s host p q early = record s {
  destination = record {
    name = some (t.lossy host);
    port = if is_path (t.lossy host) then none else some (p * 2 ^ 8 + q);
  };
  version = 5;
  early_data = early;
  input = [];
  is_complete = true;
}

socks5_request_lem :
    (t : Texts) (host early : List ℕ) (p q : ℕ)
    → socks5_request t (request host p q ++ early)
      ≡ done (t.lossy host) (p * 2 ^ 8 + q) (5 + length host + 2)
unfolding socks5_request domain_request
socks5_request_lem t host early p q =
    let tail = append_assoc host (p ∷ q ∷ []) early in
    let enough : ltb (length (host ++ (p ∷ q ∷ early))) (length host + 2) ≡ false =
      ground (arith, length-append host (p ∷ q ∷ early)) in
    let front = take-append_exact (length host) host (p ∷ q ∷ early) refl in
    let back = drop-append_exact (length host) host (p ∷ q ∷ early) refl in
    rw (tail, enough, front, back) refl

parse_socks5_request_lem :
    (t : Texts) (s : SocksHandshake) (host early : List ℕ) (p q : ℕ)
    → s.input ≡ request host p q ++ early
    → parse_socks5_request t s ≡ (connected t s host p q early, complete)
unfolding parse_socks5_request conclude finish_destination
parse_socks5_request_lem t s host early p q e =
    let parsed : socks5_request t s.input
        ≡ done (t.lossy host) (p * 2 ^ 8 + q) (5 + length host + 2) =
      ap (socks5_request t) e ∙ socks5_request_lem t host early p q in
    let size : length (request host p q) ≡ 5 + length host + 2 =
      omega (arith, length-append host (p ∷ q ∷ [])) in
    let behind : drop (5 + length host + 2) s.input ≡ early =
      ap (drop (5 + length host + 2)) e
      ∙ drop-append_exact (5 + length host + 2) (request host p q) early size in
    ap (conclude s 5) parsed
    ∙ ap (λ d. (record (connected t s host p q d) { early_data = d }, complete)) behind

-- What the greeting leaves.
abbrev greeted : SocksHandshake → List ℕ → SocksHandshake
greeted s rest = record s { reply = 5 ∷ 0 ∷ []; input = rest; socks5_auth_done = true }

parse_socks5_auth_lem :
    (s : SocksHandshake) (methods rest : List ℕ)
    → s.input ≡ greeting methods ++ rest
    → has_byte 0 methods ≡ true
    → parse_socks5_auth s ≡ (greeted s rest, need_more)
unfolding parse_socks5_auth
parse_socks5_auth_lem s methods rest e offered = ap (greeting_parsed s) e ∙ parsed
  where
    parsed : greeting_parsed s (greeting methods ++ rest) ≡ (greeted s rest, need_more)
    parsed =
        let enough : ltb (length (methods ++ rest)) (length methods) ≡ false =
          ground (arith, length-append methods rest) in
        let front = take-append_exact (length methods) methods rest refl in
        let back = drop-append_exact (length methods) methods rest refl in
        unfold greeting_parsed in rw (enough, front, offered, back) refl

abbrev answered : List ℕ → SocksHandshake × SocksParseStatus → SocksHandshake × SocksParseStatus
answered reply (s, status) = (record s { reply = reply ++ s.reply }, status)

after_auth_lem :
    (t : Texts) (s : SocksHandshake) (host early : List ℕ) (p q : ℕ)
    → s.input ≡ request host p q ++ early
    → after_auth t (s, need_more)
      ≡ answered s.reply (connected t (record s { reply = [] }) host p q early, complete)
unfolding after_auth
after_auth_lem t s host early p q e =
    let count : length s.input ≡ length (request host p q ++ early) = ap length e in
    let some_input : (length s.input == 0) ≡ false = ground arith in
    let asked : after_auth t (s, need_more)
        ≡ answered s.reply (parse_socks5_request t (record s { reply = [] })) =
      rw some_input refl in
    asked
    ∙ ap (answered s.reply) (parse_socks5_request_lem t (record s { reply = [] }) host early p q e)

feed_input_lem :
    (t : Texts) (s : SocksHandshake) (rest : List ℕ)
    → s.socks5_auth_done ≡ false
    → feed_input t s (5 ∷ rest) ≡ after_auth t (parse_socks5_auth s)
unfolding feed_input
feed_input_lem t s rest unauthenticated = rw unauthenticated refl

-- A client that offers to go without authentication and asks for a connection to a domain, in one
-- piece of at most 4096 bytes, gets the reply to its greeting, and the handshake is complete: with
-- the domain and the port that it asked for, and with the bytes behind the request to forward.
pub feed_socks_handshake-connected :
    (t : Texts) (s : SocksHandshake) (methods host early : List ℕ) (p q : ℕ)
    → s.is_complete ≡ false
    → s.socks5_auth_done ≡ false
    → s.input ≡ greeting methods ++ (request host p q ++ early)
    → length s.input ≤ max_handshake
    → has_byte 0 methods ≡ true
    → feed_socks_handshake t s ≡ (
      record (connected t s host p q early) { reply = 5 ∷ 0 ∷ []; socks5_auth_done = true },
      complete,
    )
unfolding feed_socks_handshake
feed_socks_handshake-connected t s methods host early p q open_ unauthenticated e size offered =
    let small : ltb max_handshake (length s.input) ≡ false = ground arith in
    let opened : feed_socks_handshake t s ≡ feed_input t s s.input = rw (open_, small) refl in
    let rest = request host p q ++ early in
    opened
    ∙ ap (feed_input t s) e
    ∙ feed_input_lem t s (length methods ∷ (methods ++ rest)) unauthenticated
    ∙ ap (after_auth t) (parse_socks5_auth_lem s methods rest e offered)
    ∙ after_auth_lem t (greeted s rest) host early p q refl

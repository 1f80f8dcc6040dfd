-- ===== src/Socks.antt =====
-- crates/et-net/src/socks.rs: the CONNECT requests of SOCKS4, SOCKS4a and SOCKS5. What makes a text of
-- bytes that need not be UTF-8, and prints an IPv6 address, is a parameter.
pub mod Request
use et_rs.Prelude.{
  ltb, leb, ◌==◌, if◌then◌else◌, length, take, drop, replicate, ℕ, ◌+◌, ◌*◌, ◌^◌, Bool, true, false,
  ◌&&◌, ◌||◌, not, Option, none, some, List, [], ◌∷◌, ◌++◌,
}
use et_rs.Crypto.Proof.{decimal}

pub record Texts : Type 0 where
  pub lossy : List ℕ → List ℕ
  pub ipv6 : List ℕ → List ℕ

abbrev pub max_handshake : ℕ
max_handshake = 4096

abbrev pub max_ident : ℕ
max_ident = 255

pub data SocksError : Type 0 where
  too_large bad_version unsupported_command unsupported_address : SocksError
  userid_too_long domain_too_long no_auth_not_offered : SocksError

pub data SocksParseStatus : Type 0 where
  need_more complete error : SocksParseStatus

pub record SocketEndpoint : Type 0 where
  pub name : Option (List ℕ)
  pub port : Option ℕ

pub record SocksHandshake : Type 0 where
  pub input : List ℕ
  pub reply : List ℕ
  pub destination : SocketEndpoint
  pub failure : Option SocksError
  pub socks5_auth_done : Bool
  pub is_complete : Bool
  pub version : ℕ
  pub early_data : List ℕ

unfoldable pub push : SocksHandshake → List ℕ → SocksHandshake
push s bytes = record s { input = s.input ++ bytes }

unfoldable pub socks_connect_reply : ℕ → Bool → List ℕ
socks_connect_reply version success =
    if version == 4
    then 0 ∷ (if success then 0x5a else 0x5b) ∷ replicate 6 0
    else 5 ∷ (if success then 0 else 5) ∷ 0 ∷ 1 ∷ replicate 6 0

-- What a parser makes of the input: with a destination, how many bytes it takes.
pub data Parsed : Type 0 where
  more : Parsed
  fails : SocksError → Parsed
  done : List ℕ → ℕ → ℕ → Parsed

-- Bytes up to a zero byte: too few bytes, too many, or the bytes and what is behind the zero.
pub data Scan : Type 0 where
  missing long : Scan
  found : List ℕ → List ℕ → Scan

abbrev pub scanned : ℕ → Scan → Scan
scanned b missing = missing
scanned b long = long
scanned b (found text rest) = found (b ∷ text) rest

unfoldable pub scan : List ℕ → ℕ → Scan
scan [] n = if ltb max_ident n then long else missing
scan (b ∷ bs) n =
    let rest = scanned b (scan bs (n + 1)) in
    if b == 0 then found [] bs else if leb max_ident n then long else rest

unfoldable pub dotted : ℕ → ℕ → ℕ → ℕ → List ℕ
unfolding decimal
dotted a b c d = decimal a ++ (b'.' ∷ (decimal b ++ (b'.' ∷ (decimal c ++ (b'.' ∷ decimal d)))))

abbrev pub port_of : List ℕ → ℕ
port_of (p ∷ q ∷ rest) = p * 2 ^ 8 + q
port_of _ = 0

abbrev pub is_path : List ℕ → Bool
is_path [] = false
is_path (b ∷ bs) = b == b'/'

abbrev pub has_byte : ℕ → List ℕ → Bool
has_byte b [] = false
has_byte b (x ∷ xs) = x == b || has_byte b xs

unfoldable pub finish_destination :
    SocksHandshake → List ℕ → ℕ → ℕ → ℕ → SocksHandshake × SocksParseStatus
finish_destination s host port version consumed = (
  record s {
    destination = record { name = some host; port = if is_path host then none else some port };
    version = version;
    early_data = drop consumed s.input;
    input = [];
    is_complete = true;
  },
  complete,
)

unfoldable pub conclude : SocksHandshake → ℕ → Parsed → SocksHandshake × SocksParseStatus
unfolding finish_destination
conclude s version more = (s, need_more)
conclude s version (fails e) = (record s { failure = some e }, error)
conclude s version (done host port consumed) = finish_destination s host port version consumed

-- The greeting, which lists the methods of authentication.
unfoldable pub greeting_parsed : SocksHandshake → List ℕ → SocksHandshake × SocksParseStatus
greeting_parsed s (v ∷ methods ∷ rest) =
    if ltb (length rest) methods
    then (s, need_more)
    else if has_byte 0 (take methods rest)
    then (
      record s { reply = 5 ∷ 0 ∷ []; input = drop methods rest; socks5_auth_done = true },
      need_more,
    )
    else (record s { reply = 5 ∷ 0xff ∷ []; failure = some no_auth_not_offered }, error)
greeting_parsed s _ = (s, need_more)

unfoldable pub parse_socks5_auth : SocksHandshake → SocksHandshake × SocksParseStatus
unfolding greeting_parsed
parse_socks5_auth s = greeting_parsed s s.input

module _ (t : Texts) where
  -- The domain of SOCKS4a, which starts at `start`.
  unfoldable pub socks4_domain : ℕ → ℕ → Scan → Parsed
  socks4_domain port start missing = more
  socks4_domain port start long = fails domain_too_long
  socks4_domain port start (found text rest) = done (t.lossy text) port (start + length text + 1)

  unfoldable pub socks4_address : Bool → List ℕ → ℕ → Scan → Parsed
  unfolding socks4_domain scan
  socks4_address domain ip port missing = more
  socks4_address domain ip port long = fails userid_too_long
  socks4_address domain ip port (found userid rest) =
      if domain
      then socks4_domain port (8 + length userid + 1) (scan rest 0)
      else done ip port (8 + length userid + 1)

  unfoldable pub socks4_request : List ℕ → Parsed
  unfolding socks4_address scan dotted
  socks4_request (v ∷ command ∷ p ∷ q ∷ a ∷ b ∷ c ∷ d ∷ rest) =
      if command == 1
      then socks4_address ((a == 0 && (b == 0 && c == 0)) && not (d == 0)) (dotted a b c d)
          (p * 2 ^ 8 + q) (scan rest 0)
      else fails unsupported_command
  socks4_request _ = more

  unfoldable pub ipv4_request : List ℕ → Parsed
  unfolding dotted
  ipv4_request (a ∷ b ∷ c ∷ d ∷ p ∷ q ∷ rest) = done (dotted a b c d) (p * 2 ^ 8 + q) 10
  ipv4_request _ = more

  unfoldable pub domain_request : List ℕ → Parsed
  domain_request [] = more
  domain_request (len ∷ rest) =
      if ltb (length rest) (len + 2)
      then more
      else done (t.lossy (take len rest)) (port_of (drop len rest)) (5 + len + 2)

  unfoldable pub ipv6_request : List ℕ → Parsed
  ipv6_request rest =
      if ltb (length rest) 18
      then more
      else done (t.ipv6 (take 16 rest)) (port_of (drop 16 rest)) 22

  unfoldable pub socks5_request : List ℕ → Parsed
  unfolding ipv4_request domain_request ipv6_request
  socks5_request (v ∷ command ∷ reserved ∷ kind ∷ rest) =
      if not (v == 5)
      then fails bad_version
      else if not (command == 1)
      then fails unsupported_command
      else if kind == 1
      then ipv4_request rest
      else if kind == 3
      then domain_request rest
      else if kind == 4
      then ipv6_request rest
      else fails unsupported_address
  socks5_request _ = more

  unfoldable pub parse_socks4 : SocksHandshake → SocksHandshake × SocksParseStatus
  unfolding conclude socks4_request
  parse_socks4 s = conclude s 4 (socks4_request s.input)

  unfoldable pub parse_socks5_request : SocksHandshake → SocksHandshake × SocksParseStatus
  unfolding conclude socks5_request
  parse_socks5_request s = conclude s 5 (socks5_request s.input)

  -- The request behind the greeting; its reply comes behind that of the greeting.
  unfoldable pub after_auth : SocksHandshake × SocksParseStatus → SocksHandshake × SocksParseStatus
  unfolding parse_socks5_request
  after_auth (s, error) = (s, error)
  after_auth (s, status) =
      if length s.input == 0
      then (s, need_more)
      else (let (s', status') = parse_socks5_request (record s { reply = [] }) in
          (record s' { reply = s.reply ++ s'.reply }, status'))

  unfoldable pub feed_input : SocksHandshake → List ℕ → SocksHandshake × SocksParseStatus
  unfolding parse_socks4 parse_socks5_auth parse_socks5_request after_auth
  feed_input s [] = (s, need_more)
  feed_input s (version ∷ rest) =
      if version == 4
      then parse_socks4 s
      else if version == 5
      then (if s.socks5_auth_done then parse_socks5_request s else after_auth (parse_socks5_auth s))
      else (record s { failure = some bad_version }, error)

  unfoldable pub feed_socks_handshake : SocksHandshake → SocksHandshake × SocksParseStatus
  unfolding feed_input
  feed_socks_handshake s =
      if s.is_complete
      then (record s { early_data = s.early_data ++ s.input; input = [] }, complete)
      else if ltb max_handshake (length s.input)
      then (record s { failure = some too_large }, error)
      else feed_input s s.input

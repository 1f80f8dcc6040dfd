-- ===== src/ReadBuffer.antt =====
-- The receiving half of a connection, crates/et-core/src/backed_reader.rs: its state, and the
-- buffer that bytes from the socket arrive in.
pub mod Pending
pub mod Slices
pub mod Socket
use et_rs.Prelude.{
  ltb, leb, ◌==◌, if◌then◌else◌, length, take, drop, replicate, ok, err, ℕ, ◌+◌, ◌-◌, ◌*◌, ◌/◌, min,
  max, Bool, true, false, ◌&&◌, ◌||◌, not, List, [], ◌++◌,
}
use et_rs.Framing.{parse_be_u32_len}
use et_rs.Crypto.{CryptoHandler}
use et_rs.Packet.{header_len, Packet}

abbrev pub min_socket_read : ℕ
min_socket_read = 16 * 1024

abbrev pub max_socket_read : ℕ
max_socket_read = 256 * 1024

pub record BackedReader : Type 0 where
  pub crypto : CryptoHandler
  pub partial : List ℕ
  pub offset : ℕ
  pub filled : ℕ
  pub replay : List Packet
  pub sequence : ℕ
  pub data_sequence : ℕ
  pub connected : Bool
  pub read_hint : ℕ
  pub read_requested : ℕ
  pub last_frame_len : ℕ
  pub read_cap : ℕ

unfoldable pub new : CryptoHandler → Bool → BackedReader
new crypto connected = record {
  crypto = crypto;
  partial = [];
  offset = 0;
  filled = 0;
  replay = [];
  sequence = 0;
  data_sequence = 0;
  connected = connected;
  read_hint = min_socket_read;
  read_requested = 0;
  last_frame_len = 0;
  read_cap = max_socket_read;
}

unfoldable pub with_max_socket_read : BackedReader → ℕ → BackedReader
with_max_socket_read r bytes = record r { read_cap = max bytes min_socket_read }

-- `&self.partial[self.offset..self.filled]`.
unfoldable pub pending : BackedReader → List ℕ
pending r = take (r.filled - r.offset) (drop r.offset r.partial)

-- `copy_within(offset..filled, 0)`.
unfoldable pub compact : BackedReader → BackedReader
unfolding pending
compact r =
    let remaining = r.filled - r.offset in
    record r { partial = pending r ++ drop remaining r.partial; offset = 0; filled = remaining }

unfoldable pub rewind : BackedReader → ℕ → BackedReader
unfolding compact
rewind r min_space =
    if r.offset == r.filled
    then record r { offset = 0; filled = 0 }
    else if ltb 0 r.offset
        && (ltb (length r.partial - r.filled) min_space
            || (leb (64 * 1024) r.offset || leb (r.filled - r.offset) (16 * 1024)))
    then compact r
    else r

unfoldable pub grow : BackedReader → ℕ → BackedReader
grow r min_space =
    let required = r.filled + min_space in
    if ltb (length r.partial) required
    then record r { partial = r.partial ++ replicate (required - length r.partial) 0 }
    else r

-- The slice that is handed out starts at `filled`.
unfoldable pub prepare_read_slice : BackedReader → ℕ → BackedReader
unfolding rewind grow
prepare_read_slice r min_space = grow (rewind r min_space) min_space

-- Writing into the front of the slice.
unfoldable pub write_slice : BackedReader → List ℕ → BackedReader
write_slice r bytes = record r {
  partial = take r.filled r.partial ++ (bytes ++ drop (r.filled + length bytes) r.partial);
}

unfoldable pub commit_read : BackedReader → ℕ → BackedReader
commit_read r count = record r { filled = r.filled + count }

unfoldable pub feed : BackedReader → List ℕ → BackedReader
feed r bytes =
    if length bytes == 0
    then r
    else commit_read (write_slice (prepare_read_slice r (length bytes)) bytes) (length bytes)

-- The rest of a pending frame and as many whole frames as fit.
unfoldable pub align : ℕ → ℕ → ℕ → ℕ
align limit frame rest =
    if leb limit rest
    then rest
    else let whole = (limit - rest) / frame in
      if rest == 0 && whole == 0 then limit else rest + whole * frame

unfoldable pub aligned_read_len : BackedReader → ℕ → ℕ
unfolding align pending
aligned_read_len r limit =
    if ltb r.last_frame_len (min_socket_read / 4)
    then limit
    else if length (pending r) == 0
    then align limit r.last_frame_len 0
    else if ltb (length (pending r)) 4
    then limit
    else elim (parse_be_u32_len (pending r)) [
      | err e ↦ limit
      | ok len ↦ align limit r.last_frame_len (4 + len - length (pending r))
    ]

-- `capacity` is what the allocator has given `partial`. The slice has `read_requested` bytes.
unfoldable pub prepare_socket_read : BackedReader → ℕ → BackedReader
unfolding aligned_read_len
prepare_socket_read r capacity =
    let r' =
      if (r.offset == r.filled && r.read_hint == min_socket_read)
        && ltb (4 * min_socket_read) capacity
      then record r { partial = []; offset = 0; filled = 0 }
      else r in
    let size = aligned_read_len r' r'.read_hint in
    prepare_read_slice (record r' { read_requested = size }) size

unfoldable pub commit_socket_read : BackedReader → ℕ → BackedReader
unfolding commit_read
commit_socket_read r count =
    let hint =
      if leb r.read_requested count
      then min (r.read_hint * 4) r.read_cap
      else if ltb count (r.read_hint / 4)
      then max (r.read_hint / 2) min_socket_read
      else r.read_hint in
    record (commit_read r count) { read_hint = hint }

unfoldable pub has_buffered_data : BackedReader → Bool
unfolding pending
has_buffered_data r =
    if not r.connected
    then false
    else if ltb 0 (length r.replay)
    then true
    else if ltb (length (pending r)) 4
    then false
    else elim (parse_be_u32_len (pending r)) [
      | ok len ↦ ltb len header_len || leb (4 + len) (length (pending r))
      | err e ↦ true
    ]

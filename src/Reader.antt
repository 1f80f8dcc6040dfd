-- ===== src/Reader.antt =====
-- crates/et-core/src/backed_reader.rs: packets leave the buffer of the receiving half of a
-- connection; what a reconnect replays leaves first.
-- `TerminalPacketType` is generated from crates/et-core/proto/ETerminal.proto, where `KEEP_ALIVE`
-- is 0.
pub mod Pop
pub mod Pieces
use et_rs.Prelude.{
  ltb, ◌==◌, if◌then◌else◌, length, take, drop, Result, ok, err, ◌>>=◌, map_err, ℕ, ◌+◌, Bool, true,
  false, ◌||◌, not, Option, none, some, List, [], ◌∷◌, ◌++◌,
}
use et_rs.Framing.{FrameError, too_small, parse_be_u32_len}
use et_rs.Crypto.{Sodium, DecryptError, ProofError, CryptoHandler, rekey, decrypt}
use et_rs.Packet.{header_len, Packet, PacketError, raw}
use et_rs.ReadBuffer.{BackedReader, pending}

abbrev pub keep_alive : ℕ
keep_alive = 0

pub data ReadItem : Type 0 where
  packet : Packet → ReadItem
  need_more : ReadItem

pub data ReadError : Type 0 where
  frame_error : FrameError → ReadError
  packet_error : PacketError → ReadError
  crypto_error : DecryptError → ReadError
  unencrypted : ReadError

-- `Packet::raw(false, serialized[1], plaintext)`, or why not.
unfoldable pub decode_packet :
    Sodium → CryptoHandler → List ℕ → CryptoHandler × Result Packet ReadError
decode_packet s crypto [] = (crypto, err (packet_error PacketError.short))
decode_packet s crypto (flag ∷ []) = (crypto, err (packet_error PacketError.short))
decode_packet s crypto (flag ∷ header ∷ ciphertext) =
    if flag == 0
    then (crypto, err unencrypted)
    else (let (crypto', plain) = decrypt s crypto ciphertext in
        (crypto', map_err crypto_error plain >>= λ plaintext. ok (raw false header plaintext)))

unfoldable pub note_data : BackedReader → Packet → BackedReader
note_data r p = if p.header == keep_alive then r else record r { data_sequence = r.sequence }

-- The frame is taken off the buffer, whether or not its body decodes.
unfoldable pub take_frame : BackedReader → ℕ → CryptoHandler → BackedReader
take_frame r len crypto =
    let end = r.offset + 4 + len in
    let drained = end == r.filled in
    record r {
      crypto = crypto;
      offset = if drained then 0 else end;
      filled = if drained then 0 else r.filled;
      last_frame_len = 4 + len;
    }

-- `packet = result?`, then the sequence moves on.
unfoldable pub deliver :
    BackedReader
    → ℕ
    → CryptoHandler × Result Packet ReadError
    → BackedReader × Result ReadItem ReadError
deliver r len (crypto, err e) = (take_frame r len crypto, err e)
deliver r len (crypto, ok p) =
    let r' = take_frame r len crypto in
    (note_data (record r' { sequence = r'.sequence + 1 }) p, ok (packet p))

-- The `len` bytes behind the prefix at `offset`.
unfoldable pub decode_frame : Sodium → BackedReader → ℕ → BackedReader × Result ReadItem ReadError
decode_frame s r len =
    deliver r len (decode_packet s r.crypto (take len (drop (r.offset + 4) r.partial)))

unfoldable pub pop_live : Sodium → BackedReader → BackedReader × Result ReadItem ReadError
pop_live s r =
    if not r.connected || ltb (length (pending r)) 4
    then (r, ok need_more)
    else elim (parse_be_u32_len (pending r)) [
      | err e ↦ (r, err (frame_error e))
      | ok len ↦
          if ltb len header_len
          then (r, err (frame_error too_small))
          else if ltb (length (pending r)) (4 + len)
          then (r, ok need_more)
          else decode_frame s r len
    ]

unfoldable pub pop_replay : List Packet → BackedReader → Option (BackedReader × Packet)
pop_replay [] r = none
pop_replay (p ∷ rest) r = some (record r { replay = rest }, p)

unfoldable pub pop : Sodium → BackedReader → BackedReader × Result ReadItem ReadError
unfolding pop_replay
pop s r =
    if not r.connected
    then (r, ok need_more)
    else elim (pop_replay r.replay r) [ some (r', p) ↦ (r', ok (packet p)) | none ↦ pop_live s r ]

-- `self.partial.clear(); self.offset = 0; self.filled = 0;`
abbrev pub cleared : BackedReader → BackedReader
cleared r = record r { partial = []; offset = 0; filled = 0 }

unfoldable pub reset : Sodium → BackedReader → List ℕ → Result BackedReader ProofError
reset s r salt = rekey s r.crypto salt >>= λ crypto. ok (record (cleared r) {
  crypto = crypto;
  replay = [];
  sequence = 0;
  data_sequence = 0;
  connected = false;
})

-- The loop over the catchup, on a copy of the handler: the first error ends it.
unfoldable pub decode_all :
    Sodium → CryptoHandler → List (List ℕ) → Result (CryptoHandler × List Packet) ReadError
decode_all s crypto [] = ok (crypto, [])
decode_all s crypto (serialized ∷ rest) =
    let (crypto', decoded) = decode_packet s crypto serialized in
    decoded >>= λ p. decode_all s crypto' rest >>= λ done. ok (done.0, p ∷ done.1)

unfoldable pub carries_data : List Packet → Bool
carries_data [] = false
carries_data (p ∷ ps) = not (p.header == keep_alive) || carries_data ps

unfoldable pub revive : Sodium → BackedReader → List (List ℕ) → Result BackedReader ReadError
unfolding carries_data
revive s r catchup = decode_all s r.crypto catchup >>= λ done.
    let sequence' = r.sequence + length catchup in
    ok (record (cleared r) {
      crypto = done.0;
      replay = r.replay ++ done.1;
      sequence = sequence';
      data_sequence = if carries_data done.1 then sequence' else r.data_sequence;
      connected = true;
    })

unfoldable pub unread : BackedReader → Packet → BackedReader
unread r p = record r { replay = r.replay ++ (p ∷ []) }

unfoldable pub invalidate : BackedReader → BackedReader
invalidate r = record (cleared r) { connected = false }

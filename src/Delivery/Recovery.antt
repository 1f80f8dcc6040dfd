-- ===== src/Delivery/Recovery.antt =====
-- Reconnecting: `BackedWriter::recover` and `BackedReader::revive` of crates/et-core/src.
use mathlib.Core.List.{reverse-cons}
use et_rs.Prelude.{
  if◌then◌else◌, length, take, drop, length-append, length-reverse, drop-append_exact, take-take,
  nil_of_length, ok, pos, be_bytes, length-be_bytes, ℕ, suc, ◌+◌, ◌-◌, ◌%◌, ◌^◌, ◌≤◌, ◌≡◌, refl,
  sym, ap, ap₂, ◌∙◌, true, List, [], ◌∷◌, ◌++◌, map, reverse, arith,
}
use et_rs.Crypto.{mac_len, Sodium, IsSodium, CryptoHandler}
use et_rs.Crypto.Nonce.{bumps}
use et_rs.Backup.{Frame}
use et_rs.Writer.{BackedWriter, recover}
use et_rs.Writer.History.{Sent, wire_body, wire_frame, frames, Follows}
use et_rs.ReadBuffer.{BackedReader}
use et_rs.Reader.{cleared, decode_all, carries_data, revive}
use et_rs.Delivery.{plain, InStep, stepped, stepped-InStep, decode_packet-wire_body}

-- The bodies of the packets after number `n`, the oldest first.
abbrev pub body_stream : Sodium → List ℕ → List ℕ → ℕ → List Sent → List (List ℕ)
body_stream s key first n [] = []
body_stream s key first n (p ∷ ps) =
    wire_body s key (bumps (suc n) first) p ∷ body_stream s key first (suc n) ps

body_stream-append :
    (s : Sodium) (key first : List ℕ) (n : ℕ) (ps : List Sent) (p : Sent)
    → body_stream s key first n (ps ++ (p ∷ []))
      ≡ body_stream s key first n ps ++ (wire_body s key (bumps (suc (length ps + n)) first) p ∷ [])
body_stream-append s key first n [] p = let e : 0 + n ≡ n = omega arith in rw e
body_stream-append s key first n (q ∷ ps) p =
    let e : length ps + suc n ≡ suc (length ps) + n = omega arith in
    ap (◌∷◌ (wire_body s key (bumps (suc n) first) q))
      (rw e at (body_stream-append s key first (suc n) ps p))

pub length-body_stream :
    (s : Sodium) (key first : List ℕ) (n : ℕ) (ps : List Sent)
    → length (body_stream s key first n ps) ≡ length ps
length-body_stream s key first n [] = refl
length-body_stream s key first n (p ∷ ps) = ap suc (length-body_stream s key first (suc n) ps)

-- The newest frames of a history, turned round and without their prefixes.
reverse-take-frames :
    (s : Sodium) (key first : List ℕ) (newer older : List Sent)
    → reverse (map (drop 4) (take (length newer) (frames s key first (newer ++ older))))
      ≡ body_stream s key first (length older) (reverse newer)
reverse-take-frames s key first [] older = refl
reverse-take-frames s key first (p ∷ newer) older =
    let n : ℕ = length (newer ++ older) in
    let frame : Frame = wire_frame s key (bumps (suc n) first) p in
    let body : List ℕ = wire_body s key (bumps (suc n) first) p in
    let bare : drop 4 frame ≡ body =
      drop-append_exact 4 (be_bytes 4 ((2 + length p.payload + mac_len) % 2 ^ 32)) body
        (length-be_bytes 4 ((2 + length p.payload + mac_len) % 2 ^ 32)) in
    let number : n ≡ length (reverse newer) + length older =
      omega (arith, length-append newer older, length-reverse newer) in
    let ih = reverse-take-frames s key first newer older in
    reverse-cons (drop 4 frame)
      (map (drop 4) (take (length newer) (frames s key first (newer ++ older))))
    ∙ ap₂ (λ xs b. xs ++ (b ∷ [])) ih
        (bare ∙ ap (λ k. wire_body s key (bumps (suc k) first) p) number)
    ∙ sym (body_stream-append s key first (length older) (reverse newer) p)
    ∙ ap (body_stream s key first (length older)) (sym (reverse-cons p newer))

-- While the backup still holds them, `recover` gives the packets that the peer has missed.
pub recover_lem :
    (s : Sodium) (key first : List ℕ) (newer older : List Sent) (w : BackedWriter)
    → Follows s key first (newer ++ older) w
    → length newer ≤ length w.backup
    → recover w (pos (length older)) ≡ ok (body_stream s key first (length older) (reverse newer))
unfolding recover
recover_lem s key first newer older w f held =
    let seq : w.sequence ≡ length newer + length older = f.counter ∙ length-append newer older in
    let count : w.sequence - length older ≡ length newer = omega arith in
    let taken : take (length newer) w.backup
        ≡ take (length newer) (frames s key first (newer ++ older)) =
      ap (take (length newer)) f.newest
      ∙ take-take (length newer) (length w.backup) (frames s key first (newer ++ older)) held in
    let all : reverse (map (drop 4) (take (length newer) w.backup))
        ≡ body_stream s key first (length older) (reverse newer) =
      ap (λ (fs : List Frame). reverse (map (drop 4) fs)) taken
      ∙ reverse-take-frames s key first newer older in
    let nothing : length newer ≡ 0 → body_stream s key first (length older) (reverse newer) ≡ [] =
      λ h. ap (λ xs. body_stream s key first (length older) (reverse xs)) (nil_of_length newer h) in
    rw count (ground (arith, all, nothing))

decode_all-body_stream :
    (s : Sodium)
    → IsSodium s
    → (key first : List ℕ) (n : ℕ) (ps : List Sent) (c : CryptoHandler) → InStep key first n c
    → (c' : CryptoHandler) × (decode_all s c (body_stream s key first n ps) ≡ ok (c', map plain ps))
      × InStep key first (length ps + n) c'
unfolding decode_all
decode_all-body_stream s laws key first n [] c i =
    let e : 0 + n ≡ n = omega arith in (c, refl, rw e i)
decode_all-body_stream s laws key first n (p ∷ ps) c i =
    let head = decode_packet-wire_body s laws key first n c p i in
    let rest =
      decode_all-body_stream s laws key first (suc n) ps (stepped c)
        (stepped-InStep key first n c i) in
    let e : length ps + suc n ≡ suc (length ps) + n = omega arith in
    (rest.0, ground (arith, head, rest.1), rw e at rest.2)

-- A writer that follows the history of `older` and `newer` packets and still holds the newer ones
-- makes up for exactly what a reader has missed that has read the older ones: the catchup that it
-- recovers for the reader's sequence revives the reader with the newer packets queued for replay,
-- in the order in which they were written, each once; afterwards both are in step at the end of
-- the history.
pub revive-recover :
    (s : Sodium)
    → IsSodium s
    → (key first : List ℕ) (newer older : List Sent) (w : BackedWriter) (r : BackedReader)
    → Follows s key first (newer ++ older) w
    → length newer ≤ length w.backup
    → InStep key first (length older) r.crypto
    → r.sequence ≡ length older
    → (catchup : List (List ℕ)) × (r' : BackedReader) × (recover w (pos r.sequence) ≡ ok catchup)
      × (revive s r catchup ≡ ok r')
      × (r'.replay ≡ r.replay ++ map plain (reverse newer))
      × (r'.sequence ≡ w.sequence)
      × InStep key first w.sequence r'.crypto
      × (r'.connected ≡ true)
unfolding revive
revive-recover s laws key first newer older w r f held i at_older =
    let catchup : List (List ℕ) = body_stream s key first (length older) (reverse newer) in
    let decoded =
      decode_all-body_stream s laws key first (length older) (reverse newer) r.crypto i in
    let total : length (reverse newer) + length older ≡ w.sequence =
      omega (arith, f.counter, length-append newer older, length-reverse newer) in
    let count : length catchup ≡ length (reverse newer) =
      length-body_stream s key first (length older) (reverse newer) in
    (
      catchup,
      record (cleared r) {
        crypto = decoded.0;
        replay = r.replay ++ map plain (reverse newer);
        sequence = r.sequence + length catchup;
        data_sequence =
            if carries_data (map plain (reverse newer))
            then r.sequence + length catchup
            else r.data_sequence;
        connected = true;
      },
      rw at_older (recover_lem s key first newer older w f held),
      ground (arith, decoded.1),
      refl,
      omega (arith, count),
      rw total at decoded.2,
      refl,
    )

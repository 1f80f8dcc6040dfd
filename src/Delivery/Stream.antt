-- ===== src/Delivery/Stream.antt =====
-- A live stream between the two halves of a connection: frames cut into any chunks.
use et_rs.Prelude.{
  length, All, Result, ok, ℕ, zero, suc, ◌+◌, ◌≤◌, ◌≡◌, refl, sym, ap, ◌∙◌, true, List, [], ◌∷◌,
  ◌++◌, map, append-nil, append_assoc, arith,
}
use et_rs.Framing.{max_proto_len, frame_be_u32}
use et_rs.Crypto.{mac_len, Sodium, IsSodium}
use et_rs.Crypto.Nonce.{bumps}
use et_rs.Writer.History.{Sent, wire_body, wire_frame}
use et_rs.ReadBuffer.{BackedReader, pending, prepare_read_slice, write_slice, commit_read, feed}
use et_rs.ReadBuffer.Pending.{IsBuffer, pending-feed}
use et_rs.Reader.{ReadItem, packet, ReadError, pop_live}
use et_rs.Reader.Pop.{pop_live-frame}
use et_rs.Delivery.{
  plain, InStep, stepped, stepped-InStep, length-wire_body, wire_frame-frame_be_u32,
  decode_packet-wire_body,
}

-- The bytes of the packets after number `n`, the oldest first.
abbrev pub wire_stream : Sodium → List ℕ → List ℕ → ℕ → List Sent → List ℕ
wire_stream s key first n [] = []
wire_stream s key first n (p ∷ ps) =
    wire_frame s key (bumps (suc n) first) p ++ wire_stream s key first (suc n) ps

abbrev pub concat : List (List ℕ) → List ℕ
concat [] = []
concat (xs ∷ xss) = xs ++ concat xss

-- What fits a frame of the protocol.
abbrev pub Fits : Sent → Type 0
Fits p = 2 + length p.payload + mac_len ≤ max_proto_len

-- Bytes as the socket hands them over, and `n` calls of `pop_live`.
unfoldable pub feed_all : BackedReader → List (List ℕ) → BackedReader
feed_all r [] = r
feed_all r (chunk ∷ chunks) = feed_all (feed r chunk) chunks

unfoldable pub pops : Sodium → ℕ → BackedReader → BackedReader × List (Result ReadItem ReadError)
pops s zero r = (r, [])
pops s (suc n) r =
    let (r', item) = pop_live s r in let (r'', items) = pops s n r' in (r'', item ∷ items)

abbrev pub popped : Sent → Result ReadItem ReadError
popped p = ok (packet (plain p))

pub feed_keeps :
    (r : BackedReader) (bytes : List ℕ)
    → ((feed r bytes).crypto ≡ r.crypto)
      × ((feed r bytes).connected ≡ r.connected)
      × ((feed r bytes).sequence ≡ r.sequence)
unfolding feed commit_read write_slice prepare_read_slice
feed_keeps r bytes = ground arith

pops-suc :
    (s : Sodium) (n : ℕ) (r r' : BackedReader) (item : Result ReadItem ReadError)
    → pop_live s r ≡ (r', item)
    → pops s (suc n) r ≡ ((pops s n r').0, item ∷ (pops s n r').1)
unfolding pops
pops-suc s n r r' item h =
    ap
      (λ (x : BackedReader × Result ReadItem ReadError). ((pops s n x.0).0, x.1 ∷ (pops s n x.0).1))
      h

pops-wire_stream :
    (s : Sodium)
    → IsSodium s
    → (key first : List ℕ) (n : ℕ) (ps : List Sent) (r : BackedReader) (rest : List ℕ) → All Fits ps
    → IsBuffer r
    → r.connected ≡ true
    → InStep key first n r.crypto
    → pending r ≡ wire_stream s key first n ps ++ rest
    → ((pops s (length ps) r).1 ≡ map popped ps)
      × (pending (pops s (length ps) r).0 ≡ rest)
      × ((pops s (length ps) r).0.sequence ≡ r.sequence + length ps)
pops-wire_stream s laws key first n [] r rest fits b on i e = unfold pops in (refl, e, omega arith)
pops-wire_stream s laws key first n (p ∷ ps) r rest fits b on i e =
    let body : List ℕ = wire_body s key (bumps (suc n) first) p in
    let tail : List ℕ = wire_stream s key first (suc n) ps in
    let front : pending r ≡ frame_be_u32 body ++ (tail ++ rest) =
      e
      ∙ append_assoc (wire_frame s key (bumps (suc n) first) p) tail rest
      ∙ ap (λ f. f ++ (tail ++ rest))
          (wire_frame-frame_be_u32 s laws key (bumps (suc n) first) p) in
    let size : length body ≤ max_proto_len =
      omega (arith, length-wire_body s laws key (bumps (suc n) first) p, fits.0) in
    let one =
      pop_live-frame s r body (tail ++ rest) (stepped r.crypto) (plain p) b on front size
        (decode_packet-wire_body s laws key first n r.crypto p i) in
    let step : InStep key first (suc n) one.0.crypto =
      rw one.4 (stepped-InStep key first n r.crypto i) in
    let more =
      pops-wire_stream s laws key first (suc n) ps one.0 rest fits.1 one.2 one.6 step one.3 in
    let runs = pops-suc s (length ps) r one.0 (popped p) one.1 in
    rw runs (ap (◌∷◌ (popped p)) more.0, more.1, omega (arith, more.2, one.5))

feed_all-pending :
    (r : BackedReader) (chunks : List (List ℕ))
    → IsBuffer r
    → IsBuffer (feed_all r chunks)
      × (pending (feed_all r chunks) ≡ pending r ++ concat chunks)
      × ((feed_all r chunks).crypto ≡ r.crypto)
      × ((feed_all r chunks).connected ≡ r.connected)
      × ((feed_all r chunks).sequence ≡ r.sequence)
unfolding feed_all
feed_all-pending r [] b = (b, sym (append-nil (pending r)), refl, refl, refl)
feed_all-pending r (chunk ∷ chunks) b =
    let one = pending-feed r chunk b in
    let kept = feed_keeps r chunk in
    let more = feed_all-pending (feed r chunk) chunks one.0 in
    (
      more.0,
      more.1 ∙ ap (λ p. p ++ concat chunks) one.1 ∙ append_assoc (pending r) chunk (concat chunks),
      more.2 ∙ kept.0,
      more.3 ∙ kept.1,
      more.4 ∙ kept.2,
    )

-- The frames of any written packets, cut into chunks in any way and fed to a connected reader in
-- step with nothing pending, are popped as exactly those packets, in order, and every byte is used.
pub pops-feed_all :
    (s : Sodium)
    → IsSodium s
    → (key first : List ℕ) (n : ℕ) (ps : List Sent) (r : BackedReader) (chunks : List (List ℕ))
    → All Fits ps
    → IsBuffer r
    → r.connected ≡ true
    → InStep key first n r.crypto
    → pending r ≡ []
    → concat chunks ≡ wire_stream s key first n ps
    → ((pops s (length ps) (feed_all r chunks)).1 ≡ map popped ps)
      × (pending (pops s (length ps) (feed_all r chunks)).0 ≡ [])
      × ((pops s (length ps) (feed_all r chunks)).0.sequence ≡ r.sequence + length ps)
pops-feed_all s laws key first n ps r chunks fits b on i none_pending cut =
    let fed = feed_all-pending r chunks b in
    let bytes : pending (feed_all r chunks) ≡ wire_stream s key first n ps ++ [] =
      fed.1
      ∙ ap (λ p. p ++ concat chunks) none_pending
      ∙ cut
      ∙ sym (append-nil (wire_stream s key first n ps)) in
    let drained =
      pops-wire_stream s laws key first n ps (feed_all r chunks) [] fits fed.0 (fed.3 ∙ on)
        (rw fed.2 i) bytes in
    (drained.0, drained.1, drained.2 ∙ ap (λ k. k + length ps) fed.4)

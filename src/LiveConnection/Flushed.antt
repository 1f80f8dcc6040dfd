-- ===== src/LiveConnection/Flushed.antt =====
-- A connection of crates/et-net/src/connection.rs whose frames are all sent, and its peer.
use et_rs.Prelude.{
  length, All, front-All, last-All, ℕ, ◌≡◌, sym, ap, subst, ◌∙◌, true, Option, none, List, [], ◌∷◌,
  ◌++◌, map, reverse, append-nil, reverse-append,
}
use et_rs.Crypto.{Sodium, IsSodium}
use et_rs.Writer.History.{Sent, Follows}
use et_rs.ReadBuffer.{BackedReader, pending}
use et_rs.ReadBuffer.Pending.{IsBuffer}
use et_rs.Delivery.{InStep}
use et_rs.Delivery.Stream.{wire_stream, concat, Fits, feed_all, pops, popped, pops-feed_all}
use et_rs.PendingWrite.{PendingWrite}
use et_rs.LiveConnection.{Live}
use et_rs.LiveConnection.Order.{remaining, true_ne_false, Orderly, flowing, broken}
use et_rs.LiveConnection.Reached.{Reached, Reached-Orderly}

reversed-All : (ps : List Sent) → All Fits (reverse ps) → All Fits ps
reversed-All [] h = tt
reversed-All (p ∷ ps) h =
    let h' : All Fits (reverse ps ++ (p ∷ [])) = subst (All Fits) (reverse-append (p ∷ []) ps) h in
    (last-All Fits (reverse ps) p h', reversed-All ps (front-All Fits (reverse ps) (p ∷ []) h'))

-- In whatever way a living connection was used since its socket was new: once no frame waits, a
-- peer in step that is handed what the socket has taken, in any pieces, pops exactly the packets
-- that replay owns since then, in order, and every byte is used.
pub Reached-pops :
    (s : Sodium)
    → IsSodium s
    → (key first : List ℕ) (base history : List Sent) (l l' : Live) (r : BackedReader)
      (chunks : List (List ℕ))
    → Follows s key first base l.connection.writer
    → l.connection.writer.connected ≡ true
    → l.connection.pending_live ≡ none
    → l.transport.taken ≡ []
    → Reached s base l history l'
    → l'.connection.writer.connected ≡ true
    → l'.connection.pending_live ≡ none
    → All Fits history
    → IsBuffer r
    → r.connected ≡ true
    → InStep key first (length base) r.crypto
    → pending r ≡ []
    → concat chunks ≡ l'.transport.taken
    → (ps : List Sent) × (history ≡ reverse ps ++ base)
      × ((pops s (length ps) (feed_all r chunks)).1 ≡ map popped ps)
      × (pending (pops s (length ps) (feed_all r chunks)).0 ≡ [])
Reached-pops s laws key first base history l l' r chunks follows on empty fresh reached on' empty'
      fit b ready i nothing cut =
    arrived (Reached-Orderly s key first base history l l' follows on empty fresh reached)
  where
    arrived :
        Orderly s key first base history l'.connection.writer l'.connection.pending_live
          l'.transport
        → (ps : List Sent) × (history ≡ reverse ps ++ base)
          × ((pops s (length ps) (feed_all r chunks)).1 ≡ map popped ps)
          × (pending (pops s (length ps) (feed_all r chunks)).0 ≡ [])
    arrived (broken ps later rest off empty_now e f taken whole) =
        absurd (true_ne_false (sym on' ∙ off))
    arrived (flowing ps live e f fits taken) =
        let all : All Fits (reverse ps ++ base) = subst (All Fits) e fit in
        let bytes : concat chunks ≡ wire_stream s key first (length base) ps =
          cut
          ∙ sym (append-nil l'.transport.taken)
          ∙ sym (ap (λ (q : Option PendingWrite). l'.transport.taken ++ remaining q) empty')
          ∙ taken in
        let out =
          pops-feed_all s laws key first (length base) ps r chunks
            (reversed-All ps (front-All Fits (reverse ps) base all)) b ready i nothing bytes in
        (ps, e, out.0, out.1)

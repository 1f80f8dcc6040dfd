-- ===== src/LiveConnection/Order.antt =====
-- crates/et-net/src/connection.rs and connection_pending.rs: which bytes a socket has taken.
use et_rs.Prelude.{
  ◌==◌, Bool-cases, length, drop, length-append, length-reverse, Result, ok, err, ℕ, suc, ◌+◌, ◌≤◌,
  ◌≡◌, refl, sym, ap, subst, ◌∙◌, ◌≢◌, ◌⊎◌, inl, inr, Bool, true, false, Option, none, some, List,
  [], ◌∷◌, ◌++◌, reverse, append-nil, append_assoc, reverse-append, arith,
}
use et_rs.Crypto.Nonce.{bumps}
use et_rs.Recovery.Calls.{IoError}
use et_rs.Crypto.{Sodium}
use et_rs.Writer.{WriterOutcome, BackedWriter}
use et_rs.Writer.History.{Sent, wire_frame, Follows}
use et_rs.Writer.Sending.{Written, left_out, held, sent_out}
use et_rs.Delivery.Stream.{wire_stream}
use et_rs.PendingWrite.{PendingWrite}
use et_rs.PendingWrite.Steps.{drop_all, Advanced}
use et_rs.LiveConnection.{
  Transport, WritePacketError, before_replay, replay_owned, drop_pending, PreparedWrite, prepared,
  into_pending,
}
use et_rs.Writer

abbrev pub remaining : Option PendingWrite → List ℕ
remaining none = []
remaining (some p) = drop p.offset p.frame

abbrev pub InRange : Option PendingWrite → Type 0
InRange none = Unit {0}
InRange (some p) = p.offset ≤ length p.frame

pub true_ne_false : true ≢ false
true_ne_false e = cc

pub some_ne_none : (p : PendingWrite) → some p ≢ none
some_ne_none p e = cc

module _ (s : Sodium) (key first : List ℕ) (base : List Sent) where
  abbrev pub stream : List Sent → List ℕ
  stream ps = wire_stream s key first (length base) ps

  -- `base` was written before the socket was new, `ps` over it, the oldest first, and `later` after
  -- the connection had broken.
  pub data Orderly (history : List Sent) (w : BackedWriter) (pending : Option PendingWrite)
      (t : Transport) : Type 0 where
    flowing :
        (ps : List Sent)
        → w.connected ≡ true
        → history ≡ reverse ps ++ base
        → Follows s key first history w
        → InRange pending
        → t.taken ++ remaining pending ≡ stream ps
        → Orderly history w pending t
    broken :
        (ps later : List Sent) (rest : List ℕ)
        → w.connected ≡ false
        → pending ≡ none
        → history ≡ later ++ (reverse ps ++ base)
        → Follows s key first history w
        → t.taken ++ rest ≡ stream ps
        → (rest ≡ []) ⊎ (t.shut ≡ true)
        → Orderly history w pending t

  pub invalidate-Follows :
      (history : List Sent) (w : BackedWriter)
      → Follows s key first history w
      → Follows s key first history (Writer.invalidate w)
  unfolding Writer.invalidate
  invalidate-Follows history w f = record {
    counter = f.counter;
    nonce = f.nonce;
    base_key = f.base_key;
    newest = f.newest;
  }

  pub drop_pending_taken :
      (pending : Option PendingWrite) (t : Transport) → (drop_pending pending t).taken ≡ t.taken
  unfolding drop_pending
  drop_pending_taken none t = refl
  drop_pending_taken (some p) t = ground arith

  pub drop_pending_shut :
      (pending : Option PendingWrite) (t : Transport)
      → InRange pending
      → (remaining pending ≡ []) ⊎ ((drop_pending pending t).shut ≡ true)
  unfolding drop_pending
  drop_pending_shut none t fits = inl refl
  drop_pending_shut (some p) t fits = elim (Bool-cases (p.offset == length p.frame)) [
    | inl done ↦ inl (drop_all p.offset p.frame (ground arith))
    | inr partial ↦ inr (rw partial refl)
  ]

  pub drop_none :
      (pending : Option PendingWrite) (t : Transport) → pending ≡ none → drop_pending pending t ≡ t
  unfolding drop_pending
  drop_none pending t empty = ap (λ q. drop_pending q t) empty

  pub disconnect-Orderly :
      (history : List Sent) (w : BackedWriter) (pending : Option PendingWrite) (t : Transport)
      → Orderly history w pending t
      → Orderly history (Writer.invalidate w) none (drop_pending pending t)
  unfolding Writer.invalidate
  disconnect-Orderly history w pending t (flowing ps on e f fits taken) =
      broken ps [] (remaining pending) refl refl e (invalidate-Follows history w f)
        (ap (λ b. b ++ remaining pending) (drop_pending_taken pending t) ∙ taken)
        (drop_pending_shut pending t fits)
  disconnect-Orderly history w pending t (broken ps later rest off empty e f taken whole) =
      rw (drop_none pending t empty)
        (broken ps later rest refl refl e (invalidate-Follows history w f) taken whole)

  -- A step of the frame that waits, before it is judged.
  pub advance-Orderly :
      (history : List Sent) (w : BackedWriter) (p p' : PendingWrite) (t : Transport)
      (result : Result Bool IoError) (bytes : List ℕ)
      → Orderly history w (some p) t
      → Advanced p p' result bytes
      → Orderly history w (some p') (record t { taken = t.taken ++ bytes })
  advance-Orderly history w p p' t result bytes (flowing ps on e f fits taken) step =
      flowing ps on e f step.in_range (
        append_assoc t.taken bytes (drop p'.offset p'.frame)
        ∙ ap (λ b. t.taken ++ b) step.split
        ∙ taken)
  advance-Orderly history w p p' t result bytes (broken ps later rest off empty e f taken whole)
        step =
      absurd (some_ne_none p empty)

  -- A whole frame is dropped, and its transport stays.
  pub whole-Orderly :
      (history : List Sent) (w : BackedWriter) (p : PendingWrite) (t : Transport)
      → p.offset ≡ length p.frame
      → Orderly history w (some p) t
      → Orderly history w none (drop_pending (some p) t)
  whole-Orderly history w p t done (flowing ps on e f fits taken) = flowing ps on e f tt (
      ap (λ b. b ++ []) (drop_pending_taken (some p) t)
      ∙ ap (λ b. t.taken ++ b) (sym (drop_all p.offset p.frame done))
      ∙ taken)
  whole-Orderly history w p t done (broken ps later rest off empty e f taken whole) =
      absurd (some_ne_none p empty)

  -- Its deadline is no part of what a frame has still to send.
  pub retimed-Orderly :
      (history : List Sent) (w : BackedWriter) (p p' : PendingWrite) (t : Transport)
      → p'.frame ≡ p.frame
      → p'.offset ≡ p.offset
      → Orderly history w (some p) t
      → Orderly history w (some p') t
  retimed-Orderly history w p p' t same at (flowing ps on e f fits taken) =
      flowing ps on e f (rw (same, at) fits) (rw (same, at) taken)
  retimed-Orderly history w p p' t same at (broken ps later rest off empty e f taken whole) =
      absurd (some_ne_none p empty)

  reverse-snoc : (ps : List Sent) (p : Sent) → reverse (ps ++ (p ∷ [])) ≡ p ∷ reverse ps
  reverse-snoc ps p = reverse-append ps (p ∷ [])

  stream-snoc :
      (n : ℕ) (ps : List Sent) (p : Sent)
      → wire_stream s key first n (ps ++ (p ∷ []))
        ≡ wire_stream s key first n ps ++ wire_frame s key (bumps (suc (length ps + n)) first) p
  stream-snoc n [] p =
      let number : n ≡ length {A = Sent} [] + n = omega arith in
      append-nil (wire_frame s key (bumps (suc n) first) p)
      ∙ ap (λ k. wire_frame s key (bumps (suc k) first) p) number
  stream-snoc n (q ∷ ps) p =
      let head : List ℕ = wire_frame s key (bumps (suc n) first) q in
      let number : length ps + suc n ≡ suc (length ps) + n = omega arith in
      ap (λ b. head ++ b) (stream-snoc (suc n) ps p)
      ∙ sym (
          append_assoc head (wire_stream s key first (suc n) ps)
            (wire_frame s key (bumps (suc (length ps + suc n)) first) p))
      ∙ ap
          (λ k.
            (head ++ wire_stream s key first (suc n) ps)
            ++ wire_frame s key (bumps (suc k) first) p)
          number

  -- What a preparation leaves, once its frame waits.
  abbrev pub Prepares :
      List Sent
      → Sent
      → BackedWriter
      → Transport
      → ℕ
      → Result PreparedWrite WritePacketError
      → Type 0
  Prepares history p w' t now (ok frame) = Orderly (p ∷ history) w' (into_pending frame now) t
  Prepares history p w' t now (err (before_replay e)) = Orderly history w' none t
  Prepares history p w' t now (err (replay_owned e)) = ⊥

  flowing_next :
      (history : List Sent) (p : Sent) (w' : BackedWriter) (t : Transport) (frame : List ℕ)
      (ps : List Sent) (deadline : ℕ)
      → w'.connected ≡ true
      → frame ≡ wire_frame s key (bumps (suc (length history)) first) p
      → Follows s key first (p ∷ history) w'
      → history ≡ reverse ps ++ base
      → t.taken ++ [] ≡ stream ps
      → Orderly
          (p ∷ history)
          w'
          (some (record { frame = frame; offset = 0; deadline = deadline; heard = none }))
          t
  flowing_next history p w' t frame ps deadline on made f e taken =
      let number : length history ≡ length ps + length base =
        ap length e ∙ omega (arith, length-append (reverse ps) base, length-reverse ps) in
      flowing (ps ++ (p ∷ [])) on (ap (◌∷◌ p) e ∙ ap (λ r. r ++ base) (sym (reverse-snoc ps p))) f
        (omega arith)
        (ap (λ b. b ++ frame) (sym (append-nil t.taken) ∙ taken)
          ∙ ap (λ b. stream ps ++ b) made
          ∙ ap (λ k. stream ps ++ wire_frame s key (bumps (suc k) first) p) number
          ∙ sym (stream-snoc (length base) ps p))

  -- What the writer makes of a packet while no frame waits.
  pub prepared-Orderly :
      (history : List Sent) (p : Sent) (w w' : BackedWriter) (outcome : WriterOutcome)
      (t : Transport) (timeout now : ℕ)
      → Orderly history w none t
      → Written s key first history p w w' outcome
      → Prepares history p w' t now (prepared w.connected timeout outcome)
  unfolding prepared
  prepared-Orderly history p w w' outcome t timeout now o (left_out _ off same) =
      subst (λ v. Orderly history v none t) (sym same) o
  prepared-Orderly history p w w' outcome t timeout now (flowing ps on e f fits taken)
        (held _ off off' f') =
      absurd (true_ne_false (sym on ∙ off))
  prepared-Orderly history p w w' outcome t timeout now
        (broken ps later rest off empty e f taken whole) (held _ _ off' f') =
      broken ps (p ∷ later) rest off' refl (ap (◌∷◌ p) e) f' taken whole
  prepared-Orderly history p w w' outcome t timeout now (flowing ps on e f fits taken)
        (sent_out _ frame _ on' made f') =
      rw on (flowing_next history p w' t frame ps (now + timeout) on' made f' e taken)
  prepared-Orderly history p w w' outcome t timeout now
        (broken ps later rest off empty e f taken whole) (sent_out _ frame on on' made f') =
      absurd (true_ne_false (sym on ∙ off))

-- ===== src/SessionWriting/Interleaved.antt =====
-- crates/et-server/src/session_flow_write.rs: writes in sections, with readers in between.
use et_rs.Prelude.{
  length, drop, ℕ, ◌≡◌, refl, sym, ap, ap₂, subst, ◌∙◌, ◌⊎◌, inl, inr, Bool, true, Option, none,
  List, [], ◌∷◌, ◌++◌, reverse,
}
use et_rs.Crypto.{Sodium}
use et_rs.Writer.{ReservedWrite, BackedWriter}
use et_rs.Writer.History.{Sent, Follows}
use et_rs.Recovery.Calls.{IoError}
use et_rs.PendingWrite.{PendingWrite, IsSend, Round}
use et_rs.LiveConnection.{Transport, Live}
use et_rs.LiveConnection.Order.{remaining, InRange, Orderly, flowing, broken}
use et_rs.LiveConnection.Reached.{Step, Step-InOrder}
use et_rs.SessionWriting.{
  Phase, idle, reserved, sending, failed, reserve_section, commit_section, send_section,
  fail_section, detach_section,
}
use et_rs.SessionWriting.Phases.{
  Aside, Aside-keeps, Orderly-IsRobust, Reserves-IsRobust, Sends-IsRobust, Fails-IsRobust,
}
use et_rs.Delivery.Stream.{wire_stream}
use et_rs.SessionWriting.Sections.{
  InPhase, commit_section-InPhase, send_section-InPhase, fail_section-InPhase,
  detach_section-InPhase, reserve_section-InPhase,
}

-- One turn: a reader's call at any time, a whole call of a writer that keeps the connection locked,
-- or the next section of a write. The packets that replay owns, the connection and the phase change.
pub data Turn (s : Sodium) : List Sent → Live → Phase → List Sent → Live → Phase → Type 0 where
  aside :
      (history : List Sent) (l l' : Live) (phase : Phase)
      → Aside s l l'
      → Turn s history l phase history l' phase
  whole_call :
      (history : List Sent) (l : Live) (history' : List Sent) (l' : Live)
      → Step s history l history' l'
      → Turn s history l idle history' l' idle
  reserves :
      (history : List Sent) (l : Live) (hard_stopped : Bool) (p : Sent)
      → Turn s history l idle history
          (reserve_section hard_stopped l p).0
          (reserve_section hard_stopped l p).1
  commits :
      (history : List Sent) (l : Live) (r : ReservedWrite) (p : Sent) (noted_at pended_at : ℕ)
      → Turn s history l
          (reserved r p)
          (p ∷ history)
          (commit_section s l r p noted_at pended_at).0
          (commit_section s l r p noted_at pended_at).1
  detaches :
      (history : List Sent) (l : Live) (hard_stopped : Bool)
      → Turn s history l idle history
          (detach_section hard_stopped l).0
          (detach_section hard_stopped l).1
  sends_on :
      (history : List Sent) (l : Live) (q : PendingWrite) (round : Round)
      → IsSend round.kernel
      → Turn s history l (sending q) history (send_section l q round).0 (send_section l q round).1
  fails :
      (history : List Sent) (l : Live) (e : IoError)
      → Turn s history l (failed e) history (fail_section l e).0 (fail_section l e).1

pub data Turns (s : Sodium) (history : List Sent) (l : Live)
    : List Sent → Live → Phase → Type 0 where
  start : Turns s history l history l idle
  turn :
      {history' : List Sent} {l' : Live} {phase' : Phase} {history'' : List Sent} {l'' : Live}
      {phase'' : Phase}
      → Turns s history l history' l' phase'
      → Turn s history' l' phase' history'' l'' phase''
      → Turns s history l history'' l'' phase''

-- What is on its way to the socket: in the connection, or in the hands of the writer.
abbrev pub on_its_way : Live → Phase → List ℕ
on_its_way l idle = remaining l.connection.pending_live
on_its_way l (reserved r p) = []
on_its_way l (sending q) = drop q.offset q.frame
on_its_way l (failed e) = []

module _ (s : Sodium) (key first : List ℕ) (base : List Sent) where
  Aside-InPhase :
      (history : List Sent) (l l' : Live) (phase : Phase)
      → Aside s l l'
      → InPhase s key first base history l phase
      → InPhase s key first base history l' phase
  Aside-InPhase history l l' idle step h =
      Aside-keeps s _ (Orderly-IsRobust s key first base history) step h
  Aside-InPhase history l l' (reserved r p) step h =
      Aside-keeps s _ (Reserves-IsRobust s key first base history p r) step h
  Aside-InPhase history l l' (sending q) step h =
      Aside-keeps s _ (Sends-IsRobust s key first base history q) step h
  Aside-InPhase history l l' (failed e) step h =
      Aside-keeps s _ (Fails-IsRobust s key first base history) step h

  Turn-InPhase :
      {history : List Sent} {l : Live} {phase : Phase} {history' : List Sent} {l' : Live}
      {phase' : Phase}
      → Turn s history l phase history' l' phase'
      → InPhase s key first base history l phase
      → InPhase s key first base history' l' phase'
  Turn-InPhase (aside history l l' phase step) h = Aside-InPhase history l l' phase step h
  Turn-InPhase (whole_call history l history' l' step) h = Step-InOrder s key first base step h
  Turn-InPhase (reserves history l hard_stopped p) h =
      reserve_section-InPhase s key first base history hard_stopped l p h
  Turn-InPhase (commits history l r p noted_at pended_at) h =
      commit_section-InPhase s key first base history l r p noted_at pended_at h
  Turn-InPhase (detaches history l hard_stopped) h =
      detach_section-InPhase s key first base history hard_stopped l h
  Turn-InPhase (sends_on history l q round law) h =
      send_section-InPhase s key first base history l q round law h
  Turn-InPhase (fails history l e) h = fail_section-InPhase s key first base history l e h

  Turns-InPhase :
      {history : List Sent} {l : Live} {history' : List Sent} {l' : Live} {phase' : Phase}
      → Turns s history l history' l' phase'
      → InPhase s key first base history l idle
      → InPhase s key first base history' l' phase'
  Turns-InPhase start h = h
  Turns-InPhase (turn before next) h = Turn-InPhase next (Turns-InPhase before h)

  -- What the socket has taken is the front of the stream of `ps`, and what it lacks of that is on
  -- its way, unless the socket is shut.
  abbrev pub IsFront : List Sent → Live → Phase → Type 0
  IsFront history l phase =
      (ps : List Sent) × (later : List Sent) × (rest : List ℕ) × (history
        ≡ later ++ (reverse ps ++ base))
      × (l.transport.taken ++ rest ≡ wire_stream s key first (length base) ps)
      × ((rest ≡ on_its_way l phase) ⊎ (l.transport.shut ≡ true))

  front_of_order :
      (history : List Sent) (w : BackedWriter) (pending : Option PendingWrite) (t : Transport)
      → Orderly s key first base history w pending t
      → (ps : List Sent) × (later : List Sent) × (rest : List ℕ) × (history
          ≡ later ++ (reverse ps ++ base))
        × (t.taken ++ rest ≡ wire_stream s key first (length base) ps)
        × ((rest ≡ remaining pending) ⊎ (t.shut ≡ true))
  front_of_order history w pending t (flowing ps on e f fits taken) =
      (ps, [], remaining pending, e, taken, inl refl)
  front_of_order history w pending t (broken ps later rest off empty e f taken (inl done)) =
      (ps, later, rest, e, taken, inl (done ∙ sym (ap remaining empty)))
  front_of_order history w pending t (broken ps later rest off empty e f taken (inr shut)) =
      (ps, later, rest, e, taken, inr shut)

  phase-IsFront :
      (history : List Sent) (l : Live) (phase : Phase)
      → InPhase s key first base history l phase
      → IsFront history l phase
  phase-IsFront history l idle h = front_of_order history _ _ _ h
  phase-IsFront history l (reserved r p) h = front_of_order history _ none l.transport h.order
  phase-IsFront history l (sending q) h =
      (h.sent, [], drop q.offset q.frame, h.told, h.stream_left, inl refl)
  phase-IsFront history l (failed e) h = (h.sent, [], h.left, h.told, h.stream_left, h.whole)

-- A session's writes may be interleaved in any way with reads, acknowledgements, keep-alives and
-- disconnects, between reserving a frame and committing it and between any two pieces of a frame
-- that is sent, and may fail anywhere: from the time the socket is new, the bytes that it has taken
-- are the front of the stream of the packets that replay owned, in that order, and what they lack
-- of it is on its way, unless the socket is shut. The later packets wait for replay only.
pub Turns-IsFront :
    (s : Sodium) (key first : List ℕ) (base history : List Sent) (l l' : Live) (phase : Phase)
    → Follows s key first base l.connection.writer
    → l.connection.writer.connected ≡ true
    → l.connection.pending_live ≡ none
    → l.transport.taken ≡ []
    → Turns s base l history l' phase
    → IsFront s key first base history l' phase
Turns-IsFront s key first base history l l' phase follows on empty fresh turns =
    phase-IsFront s key first base history l' phase (
      Turns-InPhase s key first base turns (
        flowing [] on refl follows (subst InRange (sym empty) tt)
          (ap₂ (λ a (b : Option PendingWrite). a ++ remaining b) fresh empty)))

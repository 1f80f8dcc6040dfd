-- ===== src/SessionWriting/Phases.antt =====
-- crates/et-server/src/session_flow_write.rs: what holds of a connection while a write is under
-- way, and the calls of readers, which need only the connection's lock.
use et_rs.Prelude.{
  ltb, if◌then◌else◌, Bool-cases, length, drop, ok, err, ℤ, pos, negsuc, ℕ, ◌≤◌, ◌≡◌, refl, sym, ap,
  subst, ◌∙◌, ◌⊎◌, inl, inr, Bool, true, ◌||◌, not, Option, none, List, [], ◌++◌, reverse,
}
use et_rs.Crypto.{Sodium, CryptoHandler, bump}
use et_rs.Writer.{ReservedWrite, BackedWriter, reservation, trim, acknowledge}
use et_rs.Writer.History.{Sent, Follows}
use et_rs.Writer.Sending.{marked, acknowledge-Follows}
use et_rs.KeepAlive.{AckSide}
use et_rs.Recovery.Calls.{IoError}
use et_rs.PendingWrite.{PendingWrite}
use et_rs.LiveConnection.{Transport, Live, drop_pending, disconnect}
use et_rs.LiveConnection.Blocking.{shutdown}
use et_rs.LiveConnection.Reading.{RecvCall, ReadStep, try_read, end_read, try_read_packet}
use et_rs.LiveConnection.Accounts.{acknowledge_delivery, output_window_blocked, next_keepalive_ack}
use et_rs.LiveConnection.Order.{
  stream, Orderly, invalidate-Follows, drop_pending_taken, drop_none, disconnect-Orderly,
}
use et_rs.LiveConnection.Starting.{Orderly-Follows}
use et_rs.LiveConnection.Reached.{acknowledged-Orderly, shut-Orderly}
use et_rs.Writer
use et_rs.Recovery

-- What readers of the session do meanwhile.
pub data Aside (s : Sodium) (l : Live) : Live → Type 0 where
  reads : (one two three four : RecvCall) → Aside s l (try_read_packet s l one two three four).0
  acknowledges : (sequence : ℤ) (now : ℕ) → Aside s l (acknowledge_delivery l sequence now)
  looks : (now : ℕ) → Aside s l (output_window_blocked l now).0
  keeps_alive : (side : AckSide) (volume : Bool) → Aside s l (next_keepalive_ack l side volume).0
  disconnects : Aside s l (disconnect l)
  shuts_down : (answer : Option IoError) → Aside s l (shutdown l answer).0

-- A property of the writer, the frame that waits and the socket that they all leave alone.
pub record IsRobust (P : BackedWriter → Option PendingWrite → Transport → Type 0) : Type 0 where
  pub disconnecting :
      (w : BackedWriter) (pending : Option PendingWrite) (t : Transport)
      → P w pending t
      → P (Writer.invalidate w) none (drop_pending pending t)
  pub acknowledging :
      (w : BackedWriter) (pending : Option PendingWrite) (t : Transport) (sequence : ℤ)
      → P w pending t
      → P (acknowledge w sequence) pending t
  pub shutting :
      (w : BackedWriter) (pending : Option PendingWrite) (t : Transport)
      → P w pending t
      → P w pending (record t { shut = true })

abbrev pub Of : (BackedWriter → Option PendingWrite → Transport → Type 0) → Live → Type 0
Of P l = P l.connection.writer l.connection.pending_live l.transport

end_read_keeps :
    (P : BackedWriter → Option PendingWrite → Transport → Type 0) (l : Live) (x : ReadStep)
    → IsRobust P
    → Of P l
    → Of P (end_read l x).0
unfolding end_read disconnect Recovery.disconnect
end_read_keeps P l (r, ok item, bytes) robust h = h
end_read_keeps P l (r, err e, bytes) robust h = robust.disconnecting _ _ _ h

pub Aside-keeps :
    (s : Sodium) (P : BackedWriter → Option PendingWrite → Transport → Type 0) {l l' : Live}
    → IsRobust P
    → Aside s l l'
    → Of P l
    → Of P l'
unfolding try_read_packet acknowledge_delivery output_window_blocked next_keepalive_ack disconnect
    Recovery.disconnect shutdown
Aside-keeps s P {l = l} robust (reads one two three four) h =
    end_read_keeps P l (try_read s one two three four l.connection.reader) robust h
Aside-keeps s P robust (acknowledges sequence now) h = robust.acknowledging _ _ _ sequence h
Aside-keeps s P robust (looks now) h = h
Aside-keeps s P robust (keeps_alive side volume) h = h
Aside-keeps s P robust disconnects h = robust.disconnecting _ _ _ h
Aside-keeps s P robust (shuts_down answer) h = robust.shutting _ _ _ (robust.disconnecting _ _ _ h)

acknowledge-crypto :
    (w : BackedWriter) (c : CryptoHandler) (sequence : ℤ)
    → (record (acknowledge w sequence) { crypto = c }
        ≡ acknowledge (record w { crypto = c }) sequence)
      × ((acknowledge w sequence).crypto ≡ w.crypto)
unfolding acknowledge trim
acknowledge-crypto w c (negsuc n) = (refl, refl)
acknowledge-crypto w c (pos n) = elim (Bool-cases (not w.connected || ltb w.sequence n)) [
  | inl ignored ↦
      subst
        (λ b.
          (record (if b then w else marked w n) { crypto = c }
            ≡ (if b then record w { crypto = c } else marked (record w { crypto = c }) n))
          × ((if b then w else marked w n).crypto ≡ w.crypto))
        (sym ignored) (refl, refl)
  | inr taken ↦
      subst
        (λ b.
          (record (if b then w else marked w n) { crypto = c }
            ≡ (if b then record w { crypto = c } else marked (record w { crypto = c }) n))
          × ((if b then w else marked w n).crypto ≡ w.crypto))
        (sym taken) (refl, refl)
]

module _ (s : Sodium) (key first : List ℕ) (base history : List Sent) where
  pub Orderly-IsRobust : IsRobust (Orderly s key first base history)
  Orderly-IsRobust = record {
    disconnecting = λ w pending t o. disconnect-Orderly s key first base history w pending t o;
    acknowledging = λ w pending t sequence o.
        acknowledged-Orderly s key first base history w (acknowledge w sequence) pending t
          (acknowledge-Follows s key first history w sequence
            (Orderly-Follows s key first base history w pending t o)).1
          (λ f. (acknowledge-Follows s key first history w sequence f).0) o;
    shutting = λ w pending t o. shut-Orderly s key first base history w pending t o;
  }

  -- A frame is reserved for `p`: but for its counter the writer is as before.
  pub record Reserves (p : Sent) (r : ReservedWrite) (w : BackedWriter)
      (pending : Option PendingWrite) (t : Transport) : Type 0 where
    pub before : CryptoHandler
    pub nothing : pending ≡ none
    pub moved : w.crypto ≡ bump before
    pub made :
        r ≡ reservation p.header (length p.payload) (bump before).nonce (bump before).base_key
    pub order : Orderly s key first base history (record w { crypto = before }) none t

  -- A frame is on its way: with what the socket has taken, its rest makes the stream. The connection
  -- may have broken meanwhile.
  pub record Sends (q : PendingWrite) (w : BackedWriter) (pending : Option PendingWrite)
      (t : Transport) : Type 0 where
    pub sent : List Sent
    pub nothing : pending ≡ none
    pub told : history ≡ reverse sent ++ base
    pub follows : Follows s key first history w
    pub fits : q.offset ≤ length q.frame
    pub stream_left : t.taken ++ drop q.offset q.frame ≡ stream s key first base sent

  -- The frame was given up, and the connection is still to be told.
  pub record Fails (w : BackedWriter) (pending : Option PendingWrite) (t : Transport) : Type 0 where
    pub sent : List Sent
    pub left : List ℕ
    pub nothing : pending ≡ none
    pub told : history ≡ reverse sent ++ base
    pub follows : Follows s key first history w
    pub stream_left : t.taken ++ left ≡ stream s key first base sent
    pub whole : (left ≡ []) ⊎ (t.shut ≡ true)

  pub Reserves-IsRobust : (p : Sent) (r : ReservedWrite) → IsRobust (Reserves p r)
  unfolding Writer.invalidate drop_pending
  Reserves-IsRobust p r = record {
    disconnecting = λ w pending t h. record {
      before = h.before;
      nothing = refl;
      moved = h.moved;
      made = h.made;
      order =
          subst
            (λ (u : Transport).
              Orderly s key first base history (record (Writer.invalidate w) { crypto = h.before })
                none u)
            (sym (drop_none s key first base pending t h.nothing))
            (disconnect-Orderly s key first base history (record w { crypto = h.before }) none t
              h.order);
    };
    acknowledging = λ w pending t sequence h.
        let same = acknowledge-crypto w h.before sequence in
        record {
          before = h.before;
          nothing = h.nothing;
          moved = same.1 ∙ h.moved;
          made = h.made;
          order =
              subst (λ (v : BackedWriter). Orderly s key first base history v none t) (sym same.0)
                (Orderly-IsRobust.acknowledging (record w { crypto = h.before }) none t sequence
                  h.order);
        };
    shutting = λ w pending t h. record {
      before = h.before;
      nothing = h.nothing;
      moved = h.moved;
      made = h.made;
      order = Orderly-IsRobust.shutting (record w { crypto = h.before }) none t h.order;
    };
  }

  pub Sends-IsRobust : (q : PendingWrite) → IsRobust (Sends q)
  Sends-IsRobust q = record {
    disconnecting = λ w pending t h. record {
      sent = h.sent;
      nothing = refl;
      told = h.told;
      follows = invalidate-Follows s key first base history w h.follows;
      fits = h.fits;
      stream_left =
          ap (λ b. b ++ drop q.offset q.frame) (drop_pending_taken s key first base pending t)
          ∙ h.stream_left;
    };
    acknowledging = λ w pending t sequence h. record {
      sent = h.sent;
      nothing = h.nothing;
      told = h.told;
      follows = (acknowledge-Follows s key first history w sequence h.follows).0;
      fits = h.fits;
      stream_left = h.stream_left;
    };
    shutting = λ w pending t h. record {
      sent = h.sent;
      nothing = h.nothing;
      told = h.told;
      follows = h.follows;
      fits = h.fits;
      stream_left = h.stream_left;
    };
  }

  pub Fails-IsRobust : IsRobust Fails
  Fails-IsRobust = record {
    disconnecting = λ w pending t h.
        subst (λ (u : Transport). Fails (Writer.invalidate w) none u)
          (sym (drop_none s key first base pending t h.nothing))
          (record {
            sent = h.sent;
            left = h.left;
            nothing = refl;
            told = h.told;
            follows = invalidate-Follows s key first base history w h.follows;
            stream_left = h.stream_left;
            whole = h.whole;
          });
    acknowledging = λ w pending t sequence h. record {
      sent = h.sent;
      left = h.left;
      nothing = h.nothing;
      told = h.told;
      follows = (acknowledge-Follows s key first history w sequence h.follows).0;
      stream_left = h.stream_left;
      whole = h.whole;
    };
    shutting = λ w pending t h. record {
      sent = h.sent;
      left = h.left;
      nothing = h.nothing;
      told = h.told;
      follows = h.follows;
      stream_left = h.stream_left;
      whole = inr refl;
    };
  }

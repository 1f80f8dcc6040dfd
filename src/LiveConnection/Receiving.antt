-- ===== src/LiveConnection/Receiving.antt =====
-- `try_read` of crates/et-net/src/connection_nonblocking.rs on a peer's stream that the socket
-- hands over in pieces.
use et_rs.Prelude.{
  ltb, ltb→lt, Bool-cases, length, drop, All, length-append, Result, ok, err, ℕ, suc, ◌+◌, ◌≤◌, ◌<◌,
  ◌≡◌, refl, sym, ap, subst, ◌∙◌, ◌⊎◌, inl, inr, true, false, Option, none, some, List, [], ◌∷◌,
  ◌++◌, append_assoc, arith,
}
use et_rs.Framing.{max_proto_len, frame_be_u32}
use et_rs.Crypto.{mac_len, Sodium, IsSodium}
use et_rs.Crypto.Nonce.{bumps}
use et_rs.Packet.{Packet}
use et_rs.ReadBuffer.{BackedReader, pending, write_slice, prepare_socket_read, commit_socket_read}
use et_rs.ReadBuffer.Slices.{prepare_socket_read-IsReady, commit_socket_read_lem}
use et_rs.ReadBuffer.Pending.{IsBuffer}
use et_rs.Writer.History.{Sent, wire_body}
use et_rs.Reader.{ReadItem, packet, need_more, ReadError, pop_live, pop}
use et_rs.Reader.Pop.{length-frame, pop_live-frame}
use et_rs.Reader.Pieces.{longer_cut, pop_live-part, pop-pop_live}
use et_rs.Delivery.{
  plain, InStep, stepped, stepped-InStep, length-wire_body, wire_frame-frame_be_u32,
  decode_packet-wire_body,
}
use et_rs.Delivery.Stream.{wire_stream, Fits}
use et_rs.Recovery.Calls.{IoError, unexpected_eof, ConnError, io}
use et_rs.LiveConnection.Reading.{
  RecvAnswer, received, no_bytes, closed, recv_error, RecvCall, IsRecv, ReadStep, or_popped,
  after_recv, try_read_loop, try_read,
}

not_ltb : (a b : ℕ) → ltb a b ≡ false → b ≤ a
not_ltb a b h = ground arith

-- The errors that an answer of the socket stands for.
abbrev pub GivesError : RecvAnswer → IoError → Type 0
GivesError (received bytes) x = ⊥
GivesError no_bytes x = ⊥
GivesError closed x = x ≡ unexpected_eof
GivesError (recv_error e) x = x ≡ e

-- The same for a call of recv(2).
abbrev pub CanFail : RecvCall → IoError → Type 0
CanFail c x = (size : ℕ) × GivesError (c.kernel size) x

module _ (s : Sodium) (key first : List ℕ) where
  -- A reader that has had the packets up to number `n`, and of the others `ps` all but `future`.
  pub record Attends (n : ℕ) (ps : List Sent) (future : List ℕ) (r : BackedReader) : Type 0 where
    pub buffer : IsBuffer r
    pub on : r.connected ≡ true
    pub no_replay : r.replay ≡ []
    pub in_step : InStep key first n r.crypto
    pub waits : pending r ++ future ≡ wire_stream s key first n ps
    pub fits : All Fits ps

  -- No whole frame of the stream waits in the buffer.
  abbrev pub IsStarved : ℕ → List Sent → BackedReader → Type 0
  IsStarved n [] r = length (pending r) ≡ 0
  IsStarved n (p ∷ ps) r = length (pending r) < 4 + length (wire_body s key (bumps (suc n) first) p)

  -- What a read may come to: nothing, where no whole frame has arrived, the next packet, or one of
  -- the given errors.
  abbrev pub IsNext :
      (IoError → Type 0)
      → ℕ
      → List Sent
      → List ℕ
      → BackedReader
      → Result (Option Packet) ConnError
      → Type 0
  IsNext fails n ps future r (ok none) = Attends n ps future r × IsStarved n ps r
  IsNext fails n ps future r (ok (some q)) =
      (p : Sent) × (ps' : List Sent) × (ps ≡ p ∷ ps') × (q ≡ plain p) × Attends (suc n) ps' future r
  IsNext fails n ps future r (err e) = (x : IoError) × (e ≡ io x) × fails x

  -- The same for one `pop`.
  abbrev pub IsPopped :
      (IoError → Type 0)
      → ℕ
      → List Sent
      → List ℕ
      → BackedReader
      → BackedReader × Result ReadItem ReadError
      → Type 0
  IsPopped fails n ps future r (r', ok need_more) = (r' ≡ r) × IsStarved n ps r
  IsPopped fails n ps future r (r', ok (packet q)) = IsNext fails n ps future r' (ok (some q))
  IsPopped fails n ps future r (r', err e) = ⊥

  starved :
      (n : ℕ) (future : List ℕ) (r : BackedReader) → Attends n [] future r → length (pending r) ≡ 0
  starved n future r a =
      let size : length (pending r) + length future ≡ 0 =
        sym (length-append (pending r) future) ∙ ap length (a.waits) in
      omega arith

  pop_live-nil :
      (n : ℕ) (future : List ℕ) (r : BackedReader)
      → Attends n [] future r
      → pop_live s r ≡ (r, ok need_more)
  unfolding pop_live
  pop_live-nil n future r a = let none_left = starved n future r a in ground (arith, a.on)

  pop_live-IsPopped :
      (fails : IoError → Type 0) (n : ℕ) (ps : List Sent) (future : List ℕ) (r : BackedReader)
      → IsSodium s
      → Attends n ps future r
      → IsPopped fails n ps future r (pop_live s r)
  pop_live-IsPopped fails n [] future r laws a =
      subst (IsPopped fails n [] future r) (sym (pop_live-nil n future r a))
        (refl, starved n future r a)
  pop_live-IsPopped fails n (p ∷ ps) future r laws a =
      let body : List ℕ = wire_body s key (bumps (suc n) first) p in
      let tail : List ℕ = wire_stream s key first (suc n) ps in
      let front : pending r ++ future ≡ frame_be_u32 body ++ tail =
        a.waits
        ∙ ap (λ f. f ++ tail) (wire_frame-frame_be_u32 s laws key (bumps (suc n) first) p) in
      let size : length body ≡ 2 + length p.payload + mac_len =
        length-wire_body s laws key (bumps (suc n) first) p in
      let small : length body ≤ max_proto_len = omega (arith, size, a.fits.0) in
      elim (Bool-cases (ltb (length (pending r)) (4 + length body))) [
        | inl part ↦
            subst (IsPopped fails n (p ∷ ps) future r)
              (sym (
                pop_live-part s r body tail future a.on front small (omega (arith, size))
                  (ltb→lt _ _ part)))
              (refl, ltb→lt _ _ part)
        | inr whole ↦
            let long : length (frame_be_u32 body) ≤ length (pending r) = omega (
              arith,
              length-frame body [],
              length-append (frame_be_u32 body) [],
              not_ltb _ _ whole,
            ) in
            let cut = longer_cut (pending r) future (frame_be_u32 body) tail front long in
            let one =
              pop_live-frame s r body (drop (length (frame_be_u32 body)) (pending r))
                (stepped r.crypto) (plain p) a.buffer a.on cut.0 small
                (decode_packet-wire_body s laws key first n r.crypto p a.in_step) in
            subst (IsPopped fails n (p ∷ ps) future r) (sym one.1) (
              p,
              ps,
              refl,
              refl,
              record {
                buffer = one.2;
                on = one.6;
                no_replay = one.7 ∙ a.no_replay;
                in_step = rw one.4 (stepped-InStep key first n r.crypto a.in_step);
                waits = ap (λ b. b ++ future) one.3 ∙ cut.1;
                fits = a.fits.1;
              },
            )
      ]

  -- Bytes that the socket hands over go behind the pending ones.
  received-Attends :
      (n : ℕ) (ps : List Sent) (bytes future : List ℕ) (r : BackedReader) (capacity : ℕ)
      → length bytes ≤ (prepare_socket_read r capacity).read_requested
      → Attends n ps (bytes ++ future) r
      → Attends n ps future
          (commit_socket_read (write_slice (prepare_socket_read r capacity) bytes) (length bytes))
  received-Attends n ps bytes future r capacity room a =
      let ready = prepare_socket_read-IsReady r capacity a.buffer in
      let stored =
        commit_socket_read_lem (prepare_socket_read r capacity) bytes ready.buffer
          (omega (arith, ready.room, room)) in
      record {
        buffer = stored.0;
        on = stored.2.connected ∙ ready.same.connected ∙ a.on;
        no_replay = stored.2.replay ∙ ready.same.replay ∙ a.no_replay;
        in_step = subst (InStep key first n) (sym (stored.2.crypto ∙ ready.same.crypto)) a.in_step;
        waits =
            ap (λ b. b ++ future) (stored.1 ∙ ap (λ b. b ++ bytes) ready.same_bytes)
            ∙ append_assoc (pending r) bytes future
            ∙ a.waits;
        fits = a.fits;
      }

  prepared-Attends :
      (n : ℕ) (ps : List Sent) (future : List ℕ) (r : BackedReader) (capacity : ℕ)
      → Attends n ps future r
      → Attends n ps future (prepare_socket_read r capacity)
  prepared-Attends n ps future r capacity a =
      let ready = prepare_socket_read-IsReady r capacity a.buffer in
      record {
        buffer = ready.buffer;
        on = ready.same.connected ∙ a.on;
        no_replay = ready.same.replay ∙ a.no_replay;
        in_step = subst (InStep key first n) (sym ready.same.crypto) a.in_step;
        waits = ap (λ b. b ++ future) ready.same_bytes ∙ a.waits;
        fits = a.fits;
      }

  pub or_popped-IsNext :
      (fails : IoError → Type 0) (n : ℕ) (ps : List Sent) (future : List ℕ) (r : BackedReader)
      (x : BackedReader × Result ReadItem ReadError) (next : BackedReader → ReadStep)
      → IsPopped fails n ps ((or_popped x next).2 ++ future) r x
      → Attends n ps ((or_popped x next).2 ++ future) r
      → (Attends n ps ((next r).2 ++ future) r
          → IsStarved n ps r
          → IsNext fails n ps future (next r).0 (next r).1)
      → IsNext fails n ps future (or_popped x next).0 (or_popped x next).1
  or_popped-IsNext fails n ps future r (r', err e) next i a k = absurd i
  or_popped-IsNext fails n ps future r (r', ok (packet q)) next i a k = i
  or_popped-IsNext fails n ps future r (r', ok need_more) next (same, none_whole) a k =
      subst (λ x. IsNext fails n ps future (next x).0 (next x).1) (sym same)
        (k (subst (λ x. Attends n ps ((next x).2 ++ future) r) same a) none_whole)

  prepared-IsStarved :
      (n : ℕ) (ps : List Sent) (r : BackedReader) (capacity : ℕ)
      → IsBuffer r
      → IsStarved n ps r
      → IsStarved n ps (prepare_socket_read r capacity)
  prepared-IsStarved n [] r capacity b h =
      ap length (prepare_socket_read-IsReady r capacity b).same_bytes ∙ h
  prepared-IsStarved n (p ∷ ps) r capacity b h =
      omega (arith, ap length (prepare_socket_read-IsReady r capacity b).same_bytes, h)

  after_recv-IsNext :
      (fails : IoError → Type 0) (n : ℕ) (ps : List Sent) (future : List ℕ) (r : BackedReader)
      (capacity : ℕ) (answer : RecvAnswer) (next : BackedReader → ReadStep)
      → ((bytes : List ℕ)
          → answer ≡ received bytes
          → length bytes ≤ (prepare_socket_read r capacity).read_requested)
      → ((x : IoError) → GivesError answer x → fails x)
      → IsStarved n ps r
      → Attends n ps ((after_recv (prepare_socket_read r capacity) answer next).2 ++ future) r
      → ((r' : BackedReader)
          → Attends n ps ((next r').2 ++ future) r'
          → IsNext fails n ps future (next r').0 (next r').1)
      → IsNext fails n ps future
          (after_recv (prepare_socket_read r capacity) answer next).0
          (after_recv (prepare_socket_read r capacity) answer next).1
  after_recv-IsNext fails n ps future r capacity (received bytes) next room gave none_whole a k =
      let r' : BackedReader =
        commit_socket_read (write_slice (prepare_socket_read r capacity) bytes) (length bytes) in
      k r' (
        received-Attends n ps bytes ((next r').2 ++ future) r capacity (room bytes refl)
          (subst (λ b. Attends n ps b r) (append_assoc bytes (next r').2 future) a))
  after_recv-IsNext fails n ps future r capacity no_bytes next room gave none_whole a k = (
    prepared-Attends n ps future r capacity a,
    prepared-IsStarved n ps r capacity a.buffer none_whole,
  )
  after_recv-IsNext fails n ps future r capacity closed next room gave none_whole a k =
      (unexpected_eof, refl, gave unexpected_eof refl)
  after_recv-IsNext fails n ps future r capacity (recv_error e) next room gave none_whole a k =
      (e, refl, gave e refl)

  pub pop-IsPopped :
      (fails : IoError → Type 0) (n : ℕ) (ps : List Sent) (future : List ℕ) (r : BackedReader)
      → IsSodium s
      → Attends n ps future r
      → IsPopped fails n ps future r (pop s r)
  pop-IsPopped fails n ps future r laws a =
      subst (IsPopped fails n ps future r) (sym (pop-pop_live s r a.on a.no_replay))
        (pop_live-IsPopped fails n ps future r laws a)

  try_read_loop-IsNext :
      (fails : IoError → Type 0) (n : ℕ) (ps : List Sent) (future : List ℕ) (calls : List RecvCall)
      (r : BackedReader)
      → IsSodium s
      → All (λ c. IsRecv c.kernel) calls
      → All (λ c. (x : IoError) → CanFail c x → fails x) calls
      → Attends n ps ((try_read_loop s calls r).2 ++ future) r
      → IsNext fails n ps future (try_read_loop s calls r).0 (try_read_loop s calls r).1
  unfolding try_read_loop
  try_read_loop-IsNext fails n ps future [] r laws honest gave a =
      or_popped-IsNext fails n ps future r (pop s r) (λ r'. (r', ok none, []))
        (pop-IsPopped fails n ps ((try_read_loop s [] r).2 ++ future) r laws a) a (λ b w. (b, w))
  try_read_loop-IsNext fails n ps future (c ∷ calls) r laws honest gave a =
      let next : BackedReader → ReadStep = λ r1.
        let r2 = prepare_socket_read r1 c.capacity in
        after_recv r2 (c.kernel r2.read_requested) (λ r3. try_read_loop s calls r3) in
      or_popped-IsNext fails n ps future r (pop s r) next
        (pop-IsPopped fails n ps ((try_read_loop s (c ∷ calls) r).2 ++ future) r laws a) a
        (λ b w.
          after_recv-IsNext fails n ps future r c.capacity
            (c.kernel (prepare_socket_read r c.capacity).read_requested)
            (λ r3. try_read_loop s calls r3)
            (λ bytes e. (honest.0 (prepare_socket_read r c.capacity).read_requested bytes e).0)
            (λ x e. gave.0 x ((prepare_socket_read r c.capacity).read_requested, e)) w b
            (λ r3 d. try_read_loop-IsNext fails n ps future calls r3 laws honest.1 gave.1 d))

  -- Where the peer's stream is what waits in the buffer, what the socket hands over during the call,
  -- and what it will hand over, a read gives the next packet of the stream, or nothing where no whole
  -- frame has arrived yet, and the rest of the stream still stands before the reader. It fails only
  -- with an error that one of the calls of the socket gives, the end of the stream included.
  pub try_read-IsNext :
      (n : ℕ) (ps : List Sent) (future : List ℕ) (one two three four : RecvCall) (r : BackedReader)
      → IsSodium s
      → All (λ c. IsRecv c.kernel) (one ∷ two ∷ three ∷ four ∷ [])
      → Attends n ps ((try_read s one two three four r).2 ++ future) r
      → IsNext
          (λ x. CanFail one x ⊎ CanFail two x ⊎ CanFail three x ⊎ CanFail four x)
          n
          ps
          future
          (try_read s one two three four r).0
          (try_read s one two three four r).1
  unfolding try_read
  try_read-IsNext n ps future one two three four r laws honest a =
      try_read_loop-IsNext _ n ps future (one ∷ two ∷ three ∷ four ∷ []) r laws honest
        (
          λ x e. inl e,
          (λ x e. inr (inl e), (λ x e. inr (inr (inl e)), (λ x e. inr (inr (inr e)), tt))),
        )
        a

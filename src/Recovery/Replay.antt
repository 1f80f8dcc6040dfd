-- ===== src/Recovery/Replay.antt =====
-- A recovery of crates/et-net/src/connection_recovery.rs from both ends, and what each reader
-- replays.
use et_rs.Prelude.{
  length, All, length-reverse, Result, ok, pos, ℕ, suc, ◌≤◌, ◌<◌, ◌≡◌, refl, sym, ap, ◌∙◌, true,
  none, List, [], ◌∷◌, ◌++◌, map, reverse, arith,
}
use et_rs.Crypto.{Sodium, IsSodium}
use et_rs.Writer.{RecoverError, BackedWriter}
use et_rs.Writer.History.{Sent, Follows}
use et_rs.ReadBuffer.{BackedReader}
use et_rs.Delivery.{plain, InStep}
use et_rs.Delivery.Recovery.{body_stream, length-body_stream, recover_lem, revive-recover}
use et_rs.Recovery.Calls.{finish, max_recovery_proto_len, i32_max, on_success, try_call}
use et_rs.Recovery.Handshake.{Codec, client_exchange, default_exchange}
use et_rs.Recovery.{
  Connection, disconnect, prepare_recovery_candidate, revived_connection, revive_connection,
  finish_recovery, run_recovery_handshake_with, recover_with_exchange,
}
use et_rs.Recovery.Catchup.{max_entries}
use et_rs.Recovery.Catchup.Encoding.{entries_bytes}
use et_rs.Recovery.Wire.{net, client_calls, server_calls, here, next, Reaches, Reach-trans}
use et_rs.Recovery.Exchange.{IsCodec, Passes, catchup-Passes, exchange_recovery-meets}
use et_rs.Writer
use et_rs.Reader

-- A writer of one end and the reader of the other: the reader has read the `older` packets, and
-- the writer still holds the `newer` ones.
pub record Lags (s : Sodium) (key first : List ℕ) (newer older : List Sent) (w : BackedWriter)
    (r : BackedReader) : Type 0 where
  pub follows : Follows s key first (newer ++ older) w
  pub held : length newer ≤ length w.backup
  pub in_step : InStep key first (length older) r.crypto
  pub at_older : r.sequence ≡ length older
  pub counted : r.sequence ≤ i32_max
  pub few : length newer ≤ max_entries
  pub fits :
      length (entries_bytes (body_stream s key first (length older) (reverse newer)))
      ≤ max_recovery_proto_len

-- The reader has made up for the `newer` packets: it replays them, in the order in which they were
-- written, and is in step with the writer.
pub record CaughtUp (key first : List ℕ) (newer : List Sent) (w : BackedWriter)
    (r r' : BackedReader) : Type 0 where
  pub replay : r'.replay ≡ r.replay ++ map plain (reverse newer)
  pub sequence : r'.sequence ≡ w.sequence
  pub in_step : InStep key first w.sequence r'.crypto
  pub connected : r'.connected ≡ true

-- An end after a recovery.
pub record Recovered (c c' : Connection) : Type 0 where
  pub sequence : c'.writer.sequence ≡ c.writer.sequence
  pub connected : c'.writer.connected ≡ true
  pub nothing_waits : c'.pending_live ≡ none

Writer-revive_lem :
    (w : BackedWriter)
    → ((Writer.revive w).sequence ≡ w.sequence) × ((Writer.revive w).connected ≡ true)
unfolding Writer.revive Writer.trim
Writer-revive_lem w = (refl, refl)

-- The writer and the reader of a candidate lag as those of the connection did.
candidate-Lags :
    (s : Sodium) (key first : List ℕ) (newer older : List Sent) (c d : Connection)
    → Lags s key first newer older c.writer d.reader
    → Lags s key first newer older
        (prepare_recovery_candidate c).writer
        (prepare_recovery_candidate d).reader
unfolding prepare_recovery_candidate disconnect Writer.invalidate Reader.invalidate
candidate-Lags s key first newer older c d l = record {
  follows = record {
    counter = l.follows.counter;
    nonce = l.follows.nonce;
    base_key = l.follows.base_key;
    newest = l.follows.newest;
  };
  held = l.held;
  in_step = l.in_step;
  at_older = l.at_older;
  counted = l.counted;
  few = l.few;
  fits = l.fits;
}

candidate-CaughtUp :
    (key first : List ℕ) (newer : List Sent) (c d : Connection) (r' : BackedReader)
    → CaughtUp key first newer
        (prepare_recovery_candidate c).writer
        (prepare_recovery_candidate d).reader
        r'
    → CaughtUp key first newer c.writer d.reader r'
unfolding prepare_recovery_candidate disconnect Writer.invalidate Reader.invalidate
candidate-CaughtUp key first newer c d r' h = record {
  replay = h.replay;
  sequence = h.sequence;
  in_step = h.in_step;
  connected = h.connected;
}

count_missed :
    (s : Sodium) (key first : List ℕ) (newer older : List Sent)
    → length (body_stream s key first (length older) (reverse newer)) ≡ length newer
count_missed s key first newer older =
    length-body_stream s key first (length older) (reverse newer) ∙ length-reverse newer

body_stream-some_bytes :
    (s : Sodium) (key first : List ℕ) (n : ℕ) (ps : List Sent)
    → All (λ entry. 0 < length entry) (body_stream s key first n ps)
body_stream-some_bytes s key first n [] = tt
body_stream-some_bytes s key first n (p ∷ ps) =
    (omega arith, body_stream-some_bytes s key first (suc n) ps)

module _ (s : Sodium) (laws : IsSodium s) (key first : List ℕ) (newer older : List Sent) where
  abbrev missed : List (List ℕ)
  missed = body_stream s key first (length older) (reverse newer)

  missed-recover :
      (w : BackedWriter) (r : BackedReader)
      → Lags s key first newer older w r
      → Writer.recover w (pos r.sequence) ≡ ok missed
  missed-recover w r l = rw l.at_older (recover_lem s key first newer older w l.follows l.held)

  missed-Passes :
      (codec : Codec)
      → IsCodec codec
      → (w : BackedWriter) (r : BackedReader) → Lags s key first newer older w r
      → Passes codec missed
  missed-Passes codec codec_laws w r l =
      catchup-Passes codec missed codec_laws
        (body_stream-some_bytes s key first (length older) (reverse newer))
        (omega (arith, l.few, count_missed s key first newer older)) l.fits

  missed-revive :
      (w : BackedWriter) (r : BackedReader)
      → Lags s key first newer older w r
      → (r' : BackedReader) × (Reader.revive s r missed ≡ ok r') × CaughtUp key first newer w r r'
  missed-revive w r l =
      let done =
        revive-recover s laws key first newer older w r l.follows l.held l.in_step l.at_older in
      let same : ◌≡◌ {A = Result (List (List ℕ)) RecoverError} (ok missed) (ok done.0) =
        sym (missed-recover w r l) ∙ done.2 in
      let equal : missed ≡ done.0 = cc in
      (
        done.1,
        rw equal done.3,
        record { replay = done.4; sequence = done.5; in_step = done.6; connected = done.7 },
      )

-- What an end is at the end.
abbrev recovered : Connection → BackedReader → Connection
recovered c r =
    let c' = prepare_recovery_candidate c in
    record c' { reader = r; writer = Writer.revive c'.writer }

recovered-Recovered : (c : Connection) (r : BackedReader) → Recovered c (recovered c r)
unfolding prepare_recovery_candidate disconnect Writer.invalidate
recovered-Recovered c r =
    let revived = Writer-revive_lem (prepare_recovery_candidate c).writer in
    record { sequence = revived.0; connected = revived.1; nothing_waits = refl }

finish_recovery_lem :
    (s : Sodium) (c : Connection) (r : BackedReader) (catchup : List (List ℕ))
    → Reader.revive s (prepare_recovery_candidate c).reader catchup ≡ ok r
    → finish_recovery s (prepare_recovery_candidate c) none catchup
      ≡ try_call (finish (ok (recovered c r, length catchup)))
unfolding finish_recovery revive_connection revived_connection
finish_recovery_lem s c r catchup e =
    ap (revived_connection (prepare_recovery_candidate c) (length catchup)) e

finish_both :
    (capacity : ℕ) (x y : Connection × ℕ)
    → Reaches capacity
        (net (try_call (finish (ok x))) (try_call (finish (ok y))) [] [])
        (net (finish (ok x)) (finish (ok y)) [] [])
finish_both capacity x y =
    next (client_calls (λ e. on_success e (finish (ok x))) (try_call (finish (ok y))) [] [])
      (next (server_calls (λ e. on_success e (finish (ok y))) (finish (ok x)) [] []) here)

-- Two ends of a broken connection, where each reader has read the older packets of the other end's
-- writer and that writer still holds the newer ones, at most 524288 in 144 MiB, and the readers'
-- sequences are 32-bit integers: over any new socket with room for a header, even where the catchups
-- are larger than what it holds, the client and the server can both finish the recovery, and then
-- each reader replays exactly the packets that it had missed, in order, and is in step with the
-- writer.
pub recover_with_exchange-CaughtUp :
    (s : Sodium) (codec : Codec) (capacity : ℕ) (key first key' first' : List ℕ)
    (newer older newer' older' : List Sent) (client server : Connection)
    → IsSodium s
    → IsCodec codec
    → 16 ≤ capacity
    → Lags s key first newer older client.writer server.reader
    → Lags s key' first' newer' older' server.writer client.reader
    → (client' : Connection) × (server' : Connection) × Reaches capacity
        (net
          (recover_with_exchange s codec client (client_exchange none))
          (recover_with_exchange s codec server default_exchange)
          []
          [])
        (net (finish (ok (client', length newer'))) (finish (ok (server', length newer))) [] [])
      × Recovered client client'
      × Recovered server server'
      × CaughtUp key first newer client.writer server.reader server'.reader
      × CaughtUp key' first' newer' server.writer client.reader client'.reader
unfolding recover_with_exchange run_recovery_handshake_with
recover_with_exchange-CaughtUp s codec capacity key first key' first' newer older newer' older'
      client server laws codec_laws room up down =
    let c = prepare_recovery_candidate client in
    let d = prepare_recovery_candidate server in
    let up' = candidate-Lags s key first newer older client server up in
    let down' = candidate-Lags s key' first' newer' older' server client down in
    let heard_of = missed-revive s laws key first newer older c.writer d.reader up' in
    let told = missed-revive s laws key' first' newer' older' d.writer c.reader down' in
    let catchup = body_stream s key first (length older) (reverse newer) in
    let catchup' = body_stream s key' first' (length older') (reverse newer') in
    let met =
      exchange_recovery-meets codec capacity c.writer d.writer c.reader d.reader
        (finish_recovery s c none) (finish_recovery s d none) catchup catchup' codec_laws room
        down'.counted up'.counted
        (missed-recover s laws key first newer older c.writer d.reader up')
        (missed-recover s laws key' first' newer' older' d.writer c.reader down')
        (missed-Passes s laws key first newer older codec codec_laws c.writer d.reader up')
        (missed-Passes s laws key' first' newer' older' codec codec_laws d.writer c.reader down') in
    (
      recovered client told.0,
      recovered server heard_of.0,
      Reach-trans capacity met (
          rw
            (
              finish_recovery_lem s client told.0 catchup' told.1,
              finish_recovery_lem s server heard_of.0 catchup heard_of.1,
              count_missed s key first newer older,
              count_missed s key' first' newer' older',
            )
            (finish_both capacity (recovered client told.0, length newer')
              (recovered server heard_of.0, length newer))),
      recovered-Recovered client told.0,
      recovered-Recovered server heard_of.0,
      candidate-CaughtUp key first newer client server heard_of.0 heard_of.2,
      candidate-CaughtUp key' first' newer' server client told.0 told.2,
    )

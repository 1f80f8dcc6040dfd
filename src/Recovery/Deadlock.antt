-- ===== src/Recovery/Deadlock.antt =====
-- Two ends of crates/et-net/src/connection_recovery.rs that both write first.
use et_rs.Prelude.{length, ok, pos, ℕ, ◌≤◌, ◌<◌, ◌≡◌, false, Option, none, List, [], arith}
use et_rs.Writer.{BackedWriter}
use et_rs.ReadBuffer.{BackedReader}
use et_rs.Recovery.Calls.{
  IoError, Dialog, write, read, max_recovery_proto_len, i32_max, on_success, received,
}
use et_rs.Recovery.Handshake.{
  Codec, default_exchange, decode_catchup, swap_catchups, read_header, local_header,
  exchange_recovery,
}
use et_rs.Recovery.Wire.{Net, net, Step, client_writes, server_writes, Reaches}
use et_rs.Recovery.Exchange.{
  IsCodec, Passes, write_limited_lem, exchange_lem, headers_meet, heard, header_received,
}
use et_rs.Writer

-- Both ends write, and neither frame has room.
writes_stuck :
    {A : Type 0} (capacity : ℕ) (b b' : List ℕ) (k k' : Option IoError → Dialog A) (t : Net A)
    → capacity < length b
    → capacity < length b'
    → Step capacity (net (write b k) (write b' k') [] []) t
    → ⊥
writes_stuck capacity b b' k k' t big big' (client_writes frame k1 server up down room) =
    omega arith
writes_stuck capacity b b' k k' t big big' (server_writes frame k1 client up down room) =
    omega arith

-- Where both ends write their catchup first, and each catchup is larger than what the socket holds
-- on its way, the two can come to a point at which neither can go on.
pub exchange_recovery-deadlocks :
    {A : Type 0} (codec : Codec) (capacity : ℕ) (w w' : BackedWriter) (r r' : BackedReader)
    (d d' : List (List ℕ) → Dialog A) (catchup catchup' : List (List ℕ))
    → IsCodec codec
    → 16 ≤ capacity
    → r.sequence ≤ i32_max
    → r'.sequence ≤ i32_max
    → Writer.recover w (pos r'.sequence) ≡ ok catchup
    → Writer.recover w' (pos r.sequence) ≡ ok catchup'
    → Passes codec catchup
    → Passes codec catchup'
    → capacity < length (codec.catchup_bytes catchup)
    → capacity < length (codec.catchup_bytes catchup')
    → (t : Net A) × Reaches capacity
        (net
          (exchange_recovery codec w r default_exchange d)
          (exchange_recovery codec w' r' default_exchange d')
          []
          [])
        t
      × ((t' : Net A) → ¬ Step capacity t t')
unfolding read_header swap_catchups
exchange_recovery-deadlocks codec capacity w w' r r' d d' catchup catchup' laws room small small' e
      e' p p' big big' =
    let ours = codec.catchup_bytes catchup in
    let theirs = codec.catchup_bytes catchup' in
    let listen = read (received max_recovery_proto_len (decode_catchup codec d)) in
    let listen' = read (received max_recovery_proto_len (decode_catchup codec d')) in
    (
      net (write ours (λ x. on_success x listen)) (write theirs (λ x. on_success x listen')) [] [],
      rw
          (
            exchange_lem codec w r false d laws small,
            exchange_lem codec w' r' false d' laws small',
            ← write_limited_lem ours max_recovery_proto_len listen p.fits,
            ← write_limited_lem theirs max_recovery_proto_len listen' p'.fits,
            ← header_received codec w false d r'.sequence catchup laws small' e,
            ← header_received codec w' false d' r.sequence catchup' laws small e',
          )
          (headers_meet capacity (codec.header_bytes (local_header r.sequence none))
            (codec.header_bytes (local_header r'.sequence none)) (heard codec w false d)
            (heard codec w' false d') (omega (arith, laws.length-header_bytes r.sequence small))
            (omega (arith, laws.length-header_bytes r'.sequence small'))),
      λ t' step.
          writes_stuck capacity ours theirs (λ x. on_success x listen) (λ x. on_success x listen')
            t' big big' step,
    )

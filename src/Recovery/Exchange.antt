-- ===== src/Recovery/Exchange.antt =====
-- The client of crates/et-net/src/connection_recovery.rs, which reads first, and the server, which
-- writes first, on a socket that holds the headers.
use et_rs.Prelude.{
  leb, length, All, length-append, Result, ok, pos, ℕ, ◌^◌, ◌≤◌, ◌<◌, ◌≡◌, ap, ◌∙◌, Bool, true,
  false, none, some, List, [], ◌∷◌, ◌++◌, arith,
}
use et_rs.Writer.{BackedWriter}
use et_rs.ReadBuffer.{BackedReader}
use et_rs.Recovery.Calls.{
  IoError, Dialog, write, read, max_handshake_proto_len, max_recovery_proto_len, i32_max,
  on_success, try_call, write_limited, received,
}
use et_rs.Recovery.Handshake.{
  SequenceHeader, Codec, client_exchange, default_exchange, decoded, decode_catchup, swap_catchups,
  send_recovered, serve_catchup, exchange_catchups, with_header, read_header, local_header,
  exchange_recovery,
}
use et_rs.Recovery.Catchup.{max_entries, accepts}
use et_rs.Recovery.Catchup.Encoding.{entries_bytes, IsEntry, accepts-entries_bytes}
use et_rs.Packet.{encode_varint}
use et_rs.Recovery.Wire.{
  net, client_calls, server_calls, client_writes, server_writes, client_reads, server_reads,
  client_hands, server_hands, here, next, Reaches, Reach-trans,
}
use et_rs.Writer

-- What the recovery relies on in the code that prost generates.
pub record IsCodec (codec : Codec) : Type 0 where
  pub header_of-header_bytes :
      (h : SequenceHeader) → codec.header_of (codec.header_bytes h) ≡ some h
  pub catchup_bytes-entries_bytes :
      (catchup : List (List ℕ)) → codec.catchup_bytes catchup ≡ entries_bytes catchup
  pub catchup_of-catchup_bytes :
      (catchup : List (List ℕ))
      → All IsEntry catchup
      → codec.catchup_of (codec.catchup_bytes catchup) ≡ some catchup
  pub length-header_bytes :
      (n : ℕ) → n ≤ i32_max → length (codec.header_bytes (local_header n none)) ≤ 16

-- A catchup that passes the check of its encoding and the limit on its length.
pub record Passes (codec : Codec) (catchup : List (List ℕ)) : Type 0 where
  pub fits : length (codec.catchup_bytes catchup) ≤ max_recovery_proto_len
  pub accepted : accepts (codec.catchup_bytes catchup) ≡ true
  pub entries : All IsEntry catchup

entries-IsEntry :
    (entries : List (List ℕ))
    → All (λ entry. 0 < length entry) entries
    → length (entries_bytes entries) < 2 ^ 35
    → All IsEntry entries
entries-IsEntry [] some_bytes fits = tt
entries-IsEntry (entry ∷ entries) some_bytes fits =
    let size = length-append (encode_varint (length entry)) entry in
    let all = length-append (encode_varint (length entry) ++ entry) (entries_bytes entries) in
    (
      (some_bytes.0, omega (arith, size, all)),
      entries-IsEntry entries some_bytes.1 (omega (arith, size, all)),
    )

within : (count : ℕ) → count ≤ max_entries → leb count max_entries ≡ true
within count few = ground arith

-- A catchup passes by its length and the number of its entries.
pub catchup-Passes :
    (codec : Codec) (catchup : List (List ℕ))
    → IsCodec codec
    → All (λ entry. 0 < length entry) catchup
    → length catchup ≤ max_entries
    → length (entries_bytes catchup) ≤ max_recovery_proto_len
    → Passes codec catchup
catchup-Passes codec catchup laws some_bytes few fits =
    let encoded = laws.catchup_bytes-entries_bytes catchup in
    let entries = entries-IsEntry catchup some_bytes (omega arith) in
    record {
      fits = rw encoded fits;
      accepted = rw encoded (accepts-entries_bytes catchup entries ∙ within (length catchup) few);
      entries = entries;
    }

module _ {A : Type 0} where
  pub write_limited_lem :
      (bytes : List ℕ) (limit : ℕ) (d : Dialog A)
      → length bytes ≤ limit
      → write_limited bytes limit d ≡ write bytes (λ e. on_success e d)
  unfolding write_limited
  write_limited_lem bytes limit d h =
      let fits : leb (length bytes) limit ≡ true = ground arith in rw fits

  received_lem :
      (bytes : List ℕ) (limit : ℕ) (d : List ℕ → Dialog A)
      → length bytes ≤ limit
      → received limit d (ok bytes) ≡ d bytes
  unfolding received
  received_lem bytes limit d h =
      let fits : leb (length bytes) limit ≡ true = ground arith in rw fits

  decode_catchup_lem :
      (codec : Codec) (d : List (List ℕ) → Dialog A) (catchup : List (List ℕ))
      → IsCodec codec
      → Passes codec catchup
      → decode_catchup codec d (codec.catchup_bytes catchup) ≡ d catchup
  unfolding decode_catchup decoded
  decode_catchup_lem codec d catchup laws p =
      rw (p.accepted, laws.catchup_of-catchup_bytes catchup p.entries)

  header_lem :
      (codec : Codec) (w : BackedWriter) (first : Bool) (d : List (List ℕ) → Dialog A) (n : ℕ)
      (catchup : List (List ℕ))
      → Writer.recover w (pos n) ≡ ok catchup
      → exchange_catchups codec w first none d (local_header n none)
        ≡ swap_catchups first (codec.catchup_bytes catchup) (decode_catchup codec d)
  unfolding exchange_catchups serve_catchup send_recovered local_header
  header_lem codec w first d n catchup e = ap (send_recovered codec first d) e

  -- An end before it has said anything, and once the peer's header is there.
  abbrev pub opening : List ℕ → Dialog A → Dialog A
  opening header d = try_call (write header (λ e. on_success e d))

  pub exchange_lem :
      (codec : Codec) (w : BackedWriter) (r : BackedReader) (first : Bool)
      (d : List (List ℕ) → Dialog A)
      → IsCodec codec
      → r.sequence ≤ i32_max
      → exchange_recovery codec w r
          (record { read_peer_catchup_first = first; reset_salt = none })
          d
        ≡ opening
            (codec.header_bytes (local_header r.sequence none))
            (read_header codec (exchange_catchups codec w first none d))
  unfolding exchange_recovery
  exchange_lem codec w r first d laws small =
      let fits : leb r.sequence i32_max ≡ true = ground arith in
      let brief : length (codec.header_bytes (local_header r.sequence none)) ≤ 16 =
        laws.length-header_bytes r.sequence small in
      rw (
        fits,
        write_limited_lem (codec.header_bytes (local_header r.sequence none))
            max_handshake_proto_len (read_header codec (exchange_catchups codec w first none d))
            (omega arith),
      )

  -- Both headers wait in the socket until they are read.
  pub headers_meet :
      (capacity : ℕ) (h h' : List ℕ) (kc ks : Result (List ℕ) IoError → Dialog A)
      → length h ≤ capacity
      → length h' ≤ capacity
      → Reaches capacity
          (net (opening h (read kc)) (opening h' (read ks)) [] [])
          (net (kc (ok h')) (ks (ok h)) [] [])
  headers_meet capacity h h' kc ks room room' =
      next
        (client_calls (λ e. on_success e (write h (λ e'. on_success e' (read kc))))
          (opening h' (read ks)) [] [])
        (next
          (server_calls (λ e. on_success e (write h' (λ e'. on_success e' (read ks))))
            (write h (λ e. on_success e (read kc))) [] [])
          (next
            (client_writes h (λ e. on_success e (read kc)) (write h' (λ e. on_success e (read ks)))
              [] [] (omega arith))
            (next
              (server_writes h' (λ e. on_success e (read ks)) (read kc) (h ∷ []) [] (omega arith))
              (next (client_reads h' kc (read ks) (h ∷ []) [])
                (next (server_reads h ks (kc (ok h')) [] []) here)))))

  -- Then each catchup goes to a peer that is reading.
  frames_meet :
      (capacity : ℕ) (h h' b b' : List ℕ) (kc kc' ks ks' : Result (List ℕ) IoError → Dialog A)
      (done done' : Dialog A)
      → length h ≤ capacity
      → length h' ≤ capacity
      → kc (ok h') ≡ read kc'
      → kc' (ok b') ≡ write b (λ e. on_success e done)
      → ks (ok h) ≡ write b' (λ e. on_success e (read ks'))
      → ks' (ok b) ≡ done'
      → Reaches capacity
          (net (opening h (read kc)) (opening h' (read ks)) [] [])
          (net done done' [] [])
  frames_meet capacity h h' b b' kc kc' ks ks' done done' room room' e1 e2 e3 e4 =
      let last : Reaches capacity (net (kc' (ok b')) (read ks') [] []) (net done done' [] []) =
        rw e2 (next (client_hands b (λ e. on_success e done) ks' []) (rw e4 here)) in
      let headers_read : Reaches capacity (net (kc (ok h')) (ks (ok h)) [] [])
          (net done done' [] []) =
        rw (e1, e3) (next (server_hands b' (λ e. on_success e (read ks')) kc' []) last) in
      Reach-trans capacity (headers_meet capacity h h' kc ks room room') headers_read

  -- What an end does with the peer's header.
  abbrev pub heard :
      Codec → BackedWriter → Bool → (List (List ℕ) → Dialog A) → Result (List ℕ) IoError → Dialog A
  heard codec w first d =
      received max_handshake_proto_len
        (λ frame. with_header (exchange_catchups codec w first none d) (codec.header_of frame))

  pub header_received :
      (codec : Codec) (w : BackedWriter) (first : Bool) (d : List (List ℕ) → Dialog A) (n : ℕ)
      (catchup : List (List ℕ))
      → IsCodec codec
      → n ≤ i32_max
      → Writer.recover w (pos n) ≡ ok catchup
      → heard codec w first d (ok (codec.header_bytes (local_header n none)))
        ≡ swap_catchups first (codec.catchup_bytes catchup) (decode_catchup codec d)
  unfolding with_header
  header_received codec w first d n catchup laws small e =
      let header = local_header n none in
      received_lem (codec.header_bytes header) max_handshake_proto_len
        (λ frame. with_header (exchange_catchups codec w first none d) (codec.header_of frame))
        (omega (arith, laws.length-header_bytes n small))
      ∙ ap (with_header (exchange_catchups codec w first none d))
          (laws.header_of-header_bytes header)
      ∙ header_lem codec w first d n catchup e

  -- A catchup that arrives is passed on.
  catchup_received :
      (codec : Codec) (d : List (List ℕ) → Dialog A) (catchup : List (List ℕ))
      → IsCodec codec
      → Passes codec catchup
      → received max_recovery_proto_len (decode_catchup codec d) (ok (codec.catchup_bytes catchup))
        ≡ d catchup
  catchup_received codec d catchup laws p =
      received_lem (codec.catchup_bytes catchup) max_recovery_proto_len (decode_catchup codec d)
        p.fits
      ∙ decode_catchup_lem codec d catchup laws p

  -- Each end goes on with the catchup of the other.
  pub exchange_recovery-meets :
      (codec : Codec) (capacity : ℕ) (w w' : BackedWriter) (r r' : BackedReader)
      (d d' : List (List ℕ) → Dialog A) (catchup catchup' : List (List ℕ))
      → IsCodec codec
      → 16 ≤ capacity
      → r.sequence ≤ i32_max
      → r'.sequence ≤ i32_max
      → Writer.recover w (pos r'.sequence) ≡ ok catchup
      → Writer.recover w' (pos r.sequence) ≡ ok catchup'
      → Passes codec catchup
      → Passes codec catchup'
      → Reaches capacity
          (net
            (exchange_recovery codec w r (client_exchange none) d)
            (exchange_recovery codec w' r' default_exchange d')
            []
            [])
          (net (d catchup') (d' catchup) [] [])
  unfolding read_header swap_catchups
  exchange_recovery-meets codec capacity w w' r r' d d' catchup catchup' laws room small small' e e'
        p p' =
      let ours = codec.catchup_bytes catchup in
      let theirs = codec.catchup_bytes catchup' in
      let after : List ℕ → Dialog A =
        λ frame. write_limited ours max_recovery_proto_len (decode_catchup codec d frame) in
      let after' : Result (List ℕ) IoError → Dialog A =
        received max_recovery_proto_len (decode_catchup codec d') in
      rw (exchange_lem codec w r true d laws small, exchange_lem codec w' r' false d' laws small')
        (frames_meet capacity (codec.header_bytes (local_header r.sequence none))
          (codec.header_bytes (local_header r'.sequence none)) ours theirs (heard codec w true d)
          (received max_recovery_proto_len after) (heard codec w' false d') after' (d catchup')
          (d' catchup) (omega (arith, laws.length-header_bytes r.sequence small))
          (omega (arith, laws.length-header_bytes r'.sequence small'))
          (header_received codec w true d r'.sequence catchup laws small' e)
          (received_lem theirs max_recovery_proto_len after p'.fits
            ∙ write_limited_lem ours max_recovery_proto_len (decode_catchup codec d theirs) p.fits
            ∙ ap (λ out. write ours (λ e. on_success e out))
                (decode_catchup_lem codec d catchup' laws p'))
          (header_received codec w' false d' r.sequence catchup' laws small e'
            ∙ write_limited_lem theirs max_recovery_proto_len (read after') p'.fits)
          (catchup_received codec d' catchup laws p))

-- ===== src/Examples/Recoveries.antt =====
-- Two ends that recover, and a client that connects, at concrete values.
use et_rs.Prelude.{
  leb, ◌==◌, if◌then◌else◌, length, take, drop, replicate, All, length-append, take-append_exact,
  drop-append_exact, ok, ℤ, pos, negsuc, le_bytes, be_bytes, ℕ, zero, suc, ◌≤◌, ◌<◌, ◌≡◌, refl, ap,
  ap₂, ◌∙◌, Bool, true, false, Option, none, some, List, [], ◌∷◌, ◌++◌, append_assoc, arith,
}
use et_rs.Crypto.{initial_nonce, bump_nonce}
use et_rs.Crypto.Nonce.{bumps}
use et_rs.Packet.{encode_varint}
use et_rs.Delivery.Recovery.{body_stream}
use et_rs.Recovery.Catchup.{decode_varint, max_entries, accepts}
use et_rs.Recovery.Catchup.Encoding.{
  entries_bytes, decode_varint-encode_varint, IsEntry, accepts-entries_bytes,
}
use et_rs.Recovery.Calls.{Dialog, finish}
use et_rs.Recovery.Handshake.{
  SequenceHeader, Codec, client_exchange, default_exchange, local_header, exchange_recovery,
}
use et_rs.Recovery.{Connection, recover_with_exchange}
use et_rs.Recovery.Wire.{Net, net, Step, Reaches}
use et_rs.Recovery.Exchange.{IsCodec, Passes}
use et_rs.Recovery.Replay.{Lags, CaughtUp, Recovered, recover_with_exchange-CaughtUp}
use et_rs.Recovery.Deadlock.{exchange_recovery-deadlocks}
use et_rs.Examples.{toy_sodium, toy_laws, toy_key, hello, alive}
use et_rs.Examples.Connections.{writer, reader, writer-Follows}
use et_rs.Writer

-- A header as a few numbers.
abbrev sequence_part : Option ℤ → List ℕ
sequence_part none = 0 ∷ 0 ∷ []
sequence_part (some (pos n)) = 1 ∷ n ∷ []
sequence_part (some (negsuc n)) = 2 ∷ n ∷ []

abbrev reset_part : Option Bool → ℕ
reset_part none = 0
reset_part (some b) = if b then 2 else 1

abbrev salt_part : Option (List ℕ) → List ℕ
salt_part none = 0 ∷ []
salt_part (some salt) = 1 ∷ salt

abbrev sequence_of : ℕ → ℕ → Option ℤ
sequence_of tag n = if tag == 0 then none else if tag == 1 then some (pos n) else some (negsuc n)

abbrev reset_of : ℕ → Option Bool
reset_of tag = if tag == 0 then none else some (tag == 2)

abbrev salt_of : ℕ → List ℕ → Option (List ℕ)
salt_of tag salt = if tag == 0 then none else some salt

abbrev toy_header_of : List ℕ → Option SequenceHeader
toy_header_of (a ∷ n ∷ r ∷ t ∷ salt) =
    some (record {
      sequence_number = sequence_of a n;
      reset = reset_of r;
      reset_salt = salt_of t salt;
    })
toy_header_of _ = none

abbrev toy_header_bytes : SequenceHeader → List ℕ
toy_header_bytes h =
    sequence_part h.sequence_number ++ (reset_part h.reset ∷ salt_part h.reset_salt)

header_parts :
    (n : Option ℤ) (r : Option Bool) (salt : Option (List ℕ))
    → toy_header_of (sequence_part n ++ (reset_part r ∷ salt_part salt))
      ≡ some (record { sequence_number = n; reset = r; reset_salt = salt })
header_parts none none none = refl
header_parts none none (some salt) = refl
header_parts none (some true) none = refl
header_parts none (some true) (some salt) = refl
header_parts none (some false) none = refl
header_parts none (some false) (some salt) = refl
header_parts (some (pos n)) none none = refl
header_parts (some (pos n)) none (some salt) = refl
header_parts (some (pos n)) (some true) none = refl
header_parts (some (pos n)) (some true) (some salt) = refl
header_parts (some (pos n)) (some false) none = refl
header_parts (some (pos n)) (some false) (some salt) = refl
header_parts (some (negsuc n)) none none = refl
header_parts (some (negsuc n)) none (some salt) = refl
header_parts (some (negsuc n)) (some true) none = refl
header_parts (some (negsuc n)) (some true) (some salt) = refl
header_parts (some (negsuc n)) (some false) none = refl
header_parts (some (negsuc n)) (some false) (some salt) = refl

-- A decoder of catchups. A round takes an entry.
abbrev and_entry : List ℕ → Option (List (List ℕ)) → Option (List (List ℕ))
and_entry entry none = none
and_entry entry (some entries) = some (entry ∷ entries)

unfoldable pub entries_of : ℕ → List ℕ → Option (List (List ℕ))
entries_of rounds [] = some []
entries_of zero (tag ∷ bytes) = none
entries_of (suc rounds) (tag ∷ bytes) = elim (decode_varint bytes) [
  | none ↦ none
  | some (len, consumed) ↦
      and_entry (take len (drop consumed bytes))
        (entries_of rounds (drop len (drop consumed bytes)))
]

entries_of_round :
    (rounds len consumed : ℕ) (bytes body : List ℕ)
    → decode_varint bytes ≡ some (len, consumed)
    → drop consumed bytes ≡ body
    → entries_of (suc rounds) (0x0a ∷ bytes)
      ≡ and_entry (take len body) (entries_of rounds (drop len body))
unfolding entries_of
entries_of_round rounds len consumed bytes body at_front at_body =
    rw (at_front, entries_of, at_body) refl

entries_of_lem :
    (rounds : ℕ) (entries : List (List ℕ))
    → length (entries_bytes entries) ≤ rounds
    → All IsEntry entries
    → entries_of rounds (entries_bytes entries) ≡ some entries
entries_of_lem zero [] enough fit = unfold entries_of in refl
entries_of_lem (suc rounds) [] enough fit = unfold entries_of in refl
entries_of_lem zero (entry ∷ entries) enough fit = absurd (ground arith)
entries_of_lem (suc rounds) (entry ∷ entries) enough fit =
    let size = encode_varint (length entry) in
    let rest = entries_bytes entries in
    let front = length-append (size ++ entry) rest in
    ap (λ bytes. entries_of (suc rounds) (0x0a ∷ bytes)) (append_assoc size entry rest)
    ∙ entries_of_round rounds (length entry) (length size) (size ++ (entry ++ rest)) (entry ++ rest)
        (decode_varint-encode_varint (length entry) (entry ++ rest) fit.0.1)
        (drop-append_exact (length size) size (entry ++ rest) refl)
    ∙ ap₂ (λ taken left. and_entry taken (entries_of rounds left))
        (take-append_exact (length entry) entry rest refl)
        (drop-append_exact (length entry) entry rest refl)
    ∙ ap (and_entry entry) (entries_of_lem rounds entries (omega (arith, front)) fit.1)

abbrev pub toy_codec : Codec
toy_codec = record {
  header_bytes = toy_header_bytes;
  header_of = toy_header_of;
  catchup_bytes = entries_bytes;
  catchup_of = λ bytes. entries_of (length bytes) bytes;
}

toy_codec-IsCodec : IsCodec toy_codec
unfolding local_header
toy_codec-IsCodec = record {
  header_of-header_bytes = λ h. header_parts h.sequence_number h.reset h.reset_salt;
  catchup_bytes-entries_bytes = λ catchup. refl;
  catchup_of-catchup_bytes =
      λ catchup fit. entries_of_lem (length (entries_bytes catchup)) catchup (omega arith) fit;
  length-header_bytes = λ n small. omega arith;
}

-- An end of a connection: it has written two packets, and has read the first of its peer's.
abbrev end_point : Connection
end_point = record {
  writer = writer;
  reader = reader 1;
  live_write_timeout = 5;
  peer_silence = none;
  pending_live = none;
  acks = record { attached = none };
  output_window = none;
}

end_point-Lags :
    Lags toy_sodium toy_key (initial_nonce 0) (hello ∷ []) (alive ∷ []) writer (reader 1)
unfolding bumps bump_nonce encode_varint
end_point-Lags = record {
  follows = writer-Follows;
  held = omega arith;
  in_step = record { base_key = refl; nonce = refl };
  at_older = refl;
  counted = omega arith;
  few = omega arith;
  fits = omega arith;
}

abbrev missing : List (List ℕ)
missing = body_stream toy_sodium toy_key (initial_nonce 0) 1 (hello ∷ [])

missing-recover : Writer.recover writer (pos 1) ≡ ok missing
unfolding Writer.recover be_bytes le_bytes bumps bump_nonce
missing-recover = refl

missing-Passes : Passes toy_codec missing
unfolding accepts encode_varint bumps bump_nonce
missing-Passes = record {
  fits = omega arith;
  accepted = refl;
  entries = ((omega arith, omega arith), tt);
}

large : 16 < length (toy_codec.catchup_bytes missing)
unfolding encode_varint bumps bump_nonce
large = omega arith

recover_with_exchange-CaughtUp_example :
    (client' : Connection) × (server' : Connection) × Reaches 16
      (net
        (recover_with_exchange toy_sodium toy_codec end_point (client_exchange none))
        (recover_with_exchange toy_sodium toy_codec end_point default_exchange)
        []
        [])
      (net
        (finish (ok (client', length (hello ∷ []))))
        (finish (ok (server', length (hello ∷ []))))
        []
        [])
    × Recovered end_point client'
    × Recovered end_point server'
    × CaughtUp toy_key
        (initial_nonce 0)
        (hello ∷ [])
        end_point.writer
        end_point.reader
        server'.reader
    × CaughtUp toy_key
        (initial_nonce 0)
        (hello ∷ [])
        end_point.writer
        end_point.reader
        client'.reader
recover_with_exchange-CaughtUp_example =
    recover_with_exchange-CaughtUp toy_sodium toy_codec 16 toy_key (initial_nonce 0) toy_key
      (initial_nonce 0) (hello ∷ []) (alive ∷ []) (hello ∷ []) (alive ∷ []) end_point end_point
      toy_laws (toy_codec-IsCodec) (omega arith) (end_point-Lags) (end_point-Lags)

abbrev two_entries : List (List ℕ)
two_entries = (7 ∷ []) ∷ replicate 200 5 ∷ []

accepts-entries_bytes_example :
    accepts (entries_bytes two_entries) ≡ leb (length two_entries) max_entries
accepts-entries_bytes_example =
    accepts-entries_bytes two_entries ((omega arith, omega arith), ((omega arith, omega arith), tt))

abbrev ended : List (List ℕ) → Dialog (List (List ℕ))
ended catchup = finish (ok catchup)

exchange_recovery-deadlocks_example :
    (t : Net (List (List ℕ))) × Reaches 16
      (net
        (exchange_recovery toy_codec writer (reader 1) default_exchange ended)
        (exchange_recovery toy_codec writer (reader 1) default_exchange ended)
        []
        [])
      t
    × ((t' : Net (List (List ℕ))) → ¬ Step 16 t t')
exchange_recovery-deadlocks_example =
    exchange_recovery-deadlocks toy_codec 16 writer writer (reader 1) (reader 1) ended ended missing
      missing toy_codec-IsCodec (omega arith) (omega arith) (omega arith) missing-recover
      missing-recover missing-Passes missing-Passes large large

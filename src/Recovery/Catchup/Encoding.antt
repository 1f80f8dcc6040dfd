-- ===== src/Recovery/Catchup/Encoding.antt =====
-- The check of a catchup in crates/et-net/src/connection_recovery.rs on what protobuf's encoding makes
-- of a catchup.
use native.Mathlib.Nat.{pow-suc}
use native.Mathlib.Numerals.{towards_suc}
use et_rs.Prelude.{
  ltb, leb, ◌==◌, length, drop, All, length-append, drop-append_exact, ℕ, zero, suc, ◌+◌, ◌*◌, ◌/◌,
  ◌%◌, ◌^◌, ◌≤◌, ◌<◌, ◌≡◌, refl, ap, ◌∙◌, true, false, some, List, [], ◌∷◌, ◌++◌, append_assoc,
  arith, dec_lt,
}
use et_rs.Packet.{varint_bytes, encode_varint}
use et_rs.Packet.Varint.{continuation_byte, last_byte, add_group}
use et_rs.Recovery.Catchup.{
  varint_from, decode_varint, max_entries, validate_loop, validate_catchup_encoding, is_valid,
  accepts,
}

-- A field of bytes, with the number 1: a tag, the varint of its length, and its bytes.
abbrev pub entry_bytes : List ℕ → List ℕ
entry_bytes entry = 0x0a ∷ (encode_varint (length entry) ++ entry)

abbrev pub entries_bytes : List (List ℕ) → List ℕ
entries_bytes [] = []
entries_bytes (entry ∷ entries) = entry_bytes entry ++ entries_bytes entries

-- The tests of a byte that goes on, and of a last one.
varint_from-varint_bytes :
    (k room index acc v : ℕ) (rest : List ℕ)
    → index + k ≡ 5
    → k ≤ room
    → v < 128 ^ k
    → acc < 2 ^ (index * 7)
    → 0 < k
    → varint_from (varint_bytes room v ++ rest) index acc
      ≡ some (acc + v * 2 ^ (index * 7), index + length (varint_bytes room v))
unfolding varint_from varint_bytes
varint_from-varint_bytes zero room index acc v rest e r b f p = absurd (omega arith)
varint_from-varint_bytes (suc k) zero index acc v rest e r b f p = absurd (omega arith)
varint_from-varint_bytes (suc zero) (suc room) index acc v rest e r b f p =
    let small : v < 128 = omega arith in
    let same : v % 256 ≡ v = omega arith in
    ground (arith, last_byte v small, add_group (index * 7) acc v (omega arith) f small)
varint_from-varint_bytes (suc (suc k)) (suc room) index acc v rest e r b f p =
    let place : (index + 1) * 7 ≡ index * 7 + 7 = omega arith in
    let next = add_group (index * 7) acc (v % 128) (omega arith) f (omega arith) in
    let again : varint_from (varint_bytes room (v / 2 ^ 7) ++ rest) (index + 1)
          (acc + v % 128 * 2 ^ (index * 7))
        ≡ some (
          acc + v % 128 * 2 ^ (index * 7) + v / 2 ^ 7 * 2 ^ ((index + 1) * 7),
          index + 1 + length (varint_bytes room (v / 2 ^ 7)),
        ) =
      varint_from-varint_bytes (suc k) room (index + 1) (acc + v % 128 * 2 ^ (index * 7))
        (v / 2 ^ 7) rest (omega arith) (omega arith) (omega (arith, pow-suc 128 (suc k)))
        (rw place next.1) (omega arith) in
    let wide : 2 ^ ((index + 1) * 7) ≡ 128 * 2 ^ (index * 7) =
      rw place (simp towards_suc (omega arith)) in
    let total : acc + v % 128 * 2 ^ (index * 7) + v / 2 ^ 7 * 2 ^ ((index + 1) * 7)
        ≡ acc + v * 2 ^ (index * 7) =
      let parts : v ≡ v / 128 * 128 + v % 128 = omega arith in
      rw wide (omega (arith, ap (λ (t : ℕ). t * 2 ^ (index * 7)) parts)) in
    elim (dec_lt v 128) [
      | yes small ↦
          let same : v % 256 ≡ v = omega arith in
          ground (arith, last_byte v small, add_group (index * 7) acc v (omega arith) f small)
      | no large ↦
          let low : v % 256 % 128 ≡ v % 128 = omega arith in
          ground (arith, continuation_byte (v % 256) (omega arith), next)
    ]

pub decode_varint-encode_varint :
    (v : ℕ) (rest : List ℕ)
    → v < 2 ^ 35
    → decode_varint (encode_varint v ++ rest) ≡ some (v, length (encode_varint v))
unfolding decode_varint encode_varint
decode_varint-encode_varint v rest h =
    let read : varint_from (varint_bytes 10 v ++ rest) 0 0
        ≡ some (0 + v * 2 ^ 0, 0 + length (varint_bytes 10 v)) =
      varint_from-varint_bytes 5 10 0 0 v rest refl (omega arith) (omega arith) (omega arith)
        (omega arith) in
    let same : 0 + v * 2 ^ 0 ≡ v = omega arith in
    let count : 0 + length (varint_bytes 10 v) ≡ length (varint_bytes 10 v) = omega arith in
    rw (same, count) at read

-- An entry that is not empty, as a sealed packet never is, and below 32 GiB.
abbrev pub IsEntry : List ℕ → Type 0
IsEntry entry = (0 < length entry) × (length entry < 2 ^ 35)

-- One round of the loop.
validate_round :
    (rounds len consumed entries : ℕ) (bytes body rest : List ℕ)
    → decode_varint bytes ≡ some (len, consumed)
    → drop consumed bytes ≡ body
    → drop len body ≡ rest
    → 0 < len
    → len ≤ length body
    → entries < max_entries
    → validate_loop (suc rounds) (0x0a ∷ bytes) entries ≡ validate_loop rounds rest (entries + 1)
unfolding validate_loop
validate_round rounds len consumed entries bytes body rest read at_body at_rest some_bytes whole
      few =
    let t1 : (len == 0) ≡ false = ground arith in
    let t2 : ltb max_entries (entries + 1) ≡ false = ground arith in
    let t3 : ltb (length body) len ≡ false = ground arith in
    rw (read, at_body, at_rest, t1, t2, t3) refl

validate_entry :
    (rounds : ℕ) (entry rest : List ℕ) (entries : ℕ)
    → IsEntry entry
    → entries < max_entries
    → validate_loop (suc rounds) (entry_bytes entry ++ rest) entries
      ≡ validate_loop rounds rest (entries + 1)
validate_entry rounds entry rest entries fits few =
    let size = encode_varint (length entry) in
    ap (λ bytes. validate_loop (suc rounds) (0x0a ∷ bytes) entries) (append_assoc size entry rest)
    ∙ validate_round rounds (length entry) (length size) entries (size ++ (entry ++ rest))
        (entry ++ rest) rest (decode_varint-encode_varint (length entry) (entry ++ rest) fits.1)
        (drop-append_exact (length size) size (entry ++ rest) refl)
        (drop-append_exact (length entry) entry rest refl) fits.0
        (omega (arith, length-append entry rest)) few

over_leb : (a b : ℕ) → b < a → false ≡ leb a b
over_leb a b h = ground arith

-- The loop stops at an entry too many.
validate_full :
    (rounds len consumed entries : ℕ) (bytes body : List ℕ)
    → decode_varint bytes ≡ some (len, consumed)
    → drop consumed bytes ≡ body
    → 0 < len
    → max_entries ≤ entries
    → is_valid (validate_loop (suc rounds) (0x0a ∷ bytes) entries) ≡ false
unfolding validate_loop
validate_full rounds len consumed entries bytes body read at_body some_bytes full =
    let t1 : (len == 0) ≡ false = ground arith in
    let t2 : ltb max_entries (entries + 1) ≡ true = ground arith in rw (read, at_body, t1, t2) refl

validate_loop-entries_bytes :
    (rounds : ℕ) (entries : List (List ℕ)) (n : ℕ)
    → length (entries_bytes entries) ≤ rounds
    → All IsEntry entries
    → n ≤ max_entries
    → is_valid (validate_loop rounds (entries_bytes entries) n)
      ≡ leb (n + length entries) max_entries
validate_loop-entries_bytes zero [] n enough fit few = unfold validate_loop in ground arith
validate_loop-entries_bytes (suc rounds) [] n enough fit few = unfold validate_loop in ground arith
validate_loop-entries_bytes zero (entry ∷ entries) n enough fit few = absurd (ground arith)
validate_loop-entries_bytes (suc rounds) (entry ∷ entries) n enough fit few =
    let size = encode_varint (length entry) in
    let front = length-append (size ++ entry) (entries_bytes entries) in
    elim (dec_lt n max_entries) [
      | yes room ↦
          ap is_valid (validate_entry rounds entry (entries_bytes entries) n fit.0 room)
          ∙ validate_loop-entries_bytes rounds entries (n + 1) (omega (arith, front)) fit.1
              (omega arith)
          ∙ ap (λ m. leb m max_entries) (omega arith)
      | no none_left ↦
          ap (λ bytes. is_valid (validate_loop (suc rounds) (0x0a ∷ bytes) n))
            (append_assoc size entry (entries_bytes entries))
          ∙ validate_full rounds (length entry) (length size) n
              (size ++ (entry ++ entries_bytes entries)) (entry ++ entries_bytes entries)
              (decode_varint-encode_varint (length entry) (entry ++ entries_bytes entries) fit.0.1)
              (drop-append_exact (length size) size (entry ++ entries_bytes entries) refl) fit.0.0
              (omega arith)
          ∙ over_leb (n + suc (length entries)) max_entries (omega arith)
    ]

-- The encoding of entries that are not empty and below 32 GiB each is accepted exactly where there
-- are at most 524288 of them.
pub accepts-entries_bytes :
    (entries : List (List ℕ))
    → All IsEntry entries
    → accepts (entries_bytes entries) ≡ leb (length entries) max_entries
unfolding accepts validate_catchup_encoding
accepts-entries_bytes entries fit =
    validate_loop-entries_bytes (length (entries_bytes entries)) entries 0 (omega arith) fit
      (omega arith)
    ∙ ap (λ m. leb m max_entries) (omega arith)

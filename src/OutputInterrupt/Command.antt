-- ===== src/OutputInterrupt/Command.antt =====
-- `command_requests_interrupt` of crates/et-core/src/output_interrupt.rs: whether a line of tmux's
-- control mode sends an interrupt, quit or suspend key.
use et_rs.Prelude.{
  ltb, leb, ◌==◌, if◌then◌else◌, bytes_eq, ℕ, zero, suc, ◌+◌, ◌-◌, ◌*◌, Bool, true, false, ◌&&◌,
  ◌||◌, not, Option, none, some, List, [], ◌∷◌, map, reverse,
}
use et_rs.OutputInterrupt.{strip_prefix, any, is_ascii_whitespace}
use et_rs.Crypto.Proof.{codes}

-- `std::str::from_utf8`: the bytes that may follow a lead byte, first the second one.
abbrev in_range : ℕ → ℕ → ℕ → Bool
in_range low high b = leb low b && leb b high

abbrev second_low : ℕ → ℕ
second_low lead = if lead == 0xe0 then 0xa0 else if lead == 0xf0 then 0x90 else 0x80

abbrev second_high : ℕ → ℕ
second_high lead = if lead == 0xed then 0x9f else if lead == 0xf4 then 0x8f else 0xbf

abbrev followers : ℕ → Option ℕ
followers lead =
    if ltb lead 0x80
    then some 0
    else if in_range 0xc2 0xdf lead
    then some 1
    else if in_range 0xe0 0xef lead
    then some 2
    else if in_range 0xf0 0xf4 lead
    then some 3
    else none

-- `wanted` more bytes belong to the character, the next of them between `low` and `high`.
unfoldable pub utf8_from : List ℕ → ℕ → ℕ → ℕ → Bool
utf8_from [] wanted low high = wanted == 0
utf8_from (b ∷ bs) (suc wanted) low high =
    let rest = utf8_from bs wanted 0x80 0xbf in in_range low high b && rest
utf8_from (b ∷ bs) zero low high = elim (followers b) [
  | none ↦ false
  | some wanted ↦ utf8_from bs wanted (second_low b) (second_high b)
]

unfoldable pub is_utf8 : List ℕ → Bool
unfolding utf8_from
is_utf8 bytes = utf8_from bytes 0 0 0

-- `split_ascii_whitespace`; the first argument is the token before the bytes, turned round.
abbrev with_token : List ℕ → List (List ℕ) → List (List ℕ)
with_token [] tokens = tokens
with_token (b ∷ bs) tokens = reverse (b ∷ bs) ∷ tokens

unfoldable pub split_from : List ℕ → List ℕ → List (List ℕ)
split_from token [] = with_token token []
split_from token (b ∷ bs) = elim (is_ascii_whitespace b) [
  | true ↦ with_token token (split_from [] bs)
  | false ↦ split_from (b ∷ token) bs
]

unfoldable pub split_ascii_whitespace : List ℕ → List (List ℕ)
unfolding split_from
split_ascii_whitespace bytes = split_from [] bytes

abbrev has : ℕ → List ℕ → Bool
has b = any (λ c. c == b)

abbrev takes_value : List ℕ → Bool
takes_value = any (λ c. c == b't' || (c == b'c' || c == b'N'))

abbrev to_lower : ℕ → ℕ
to_lower b = if in_range 65 90 b then b + 32 else b

abbrev eq_ignore_ascii_case : List ℕ → List ℕ → Bool
eq_ignore_ascii_case a b = bytes_eq (map to_lower a) (map to_lower b)

-- `u8::from_str_radix(.., 16)` of one or two bytes; a plus sign may stand before a digit.
abbrev hex_digit : ℕ → Option ℕ
hex_digit b =
    if in_range 48 57 b
    then some (b - 48)
    else if in_range 97 102 b
    then some (b - 87)
    else if in_range 65 70 b
    then some (b - 55)
    else none

abbrev two_digits : ℕ → Option ℕ → Option ℕ → Option ℕ
two_digits a (some high) (some low) = some (high * 16 + low)
two_digits a none (some low) = if a == b'+' then some low else none
two_digits a high none = none

unfoldable pub hex_u8 : List ℕ → Option ℕ
hex_u8 (a ∷ []) = hex_digit a
hex_u8 (a ∷ b ∷ []) = two_digits a (hex_digit a) (hex_digit b)
hex_u8 _ = none

-- The bytes 3, 26 and 28.
abbrev pub is_interrupt : ℕ → Bool
is_interrupt b = b == 3 || (b == 26 || b == 28)

abbrev is_interrupt_number : Option ℕ → Bool
is_interrupt_number none = false
is_interrupt_number (some n) = is_interrupt n

abbrev named_keys : List (List ℕ)
named_keys = map codes ("C-c" ∷ "^C" ∷ "C-z" ∷ "^Z" ∷ "C-\\" ∷ "C-|" ∷ [])

abbrev any_key : List (List ℕ) → List ℕ → Bool
any_key [] token = false
any_key (key ∷ keys) token = eq_ignore_ascii_case token key || any_key keys token

abbrev or_else : Option (List ℕ) → Option (List ℕ) → Option (List ℕ)
or_else none o = o
or_else (some n) o = some n

unfoldable pub key_of_number : Bool → List ℕ → Option (List ℕ) → Bool
unfolding hex_u8
key_of_number hex token (some number) = is_interrupt_number (hex_u8 number)
key_of_number hex token none =
    if hex then is_interrupt_number (hex_u8 token) else any_key named_keys token

unfoldable pub key_interrupts : Bool → List ℕ → Bool
unfolding key_of_number
key_interrupts hex token =
    key_of_number hex token
      (or_else (strip_prefix (codes "0x") token) (strip_prefix (codes "0X") token))

-- The loop over the tokens. `skip` says that the token is the value of a flag before it.
unfoldable pub scan_keys : List (List ℕ) → Bool → Bool → Bool → Bool
unfolding key_interrupts
scan_keys [] skip hex literal = false
scan_keys (token ∷ tokens) true hex literal = scan_keys tokens false hex literal
scan_keys (token ∷ tokens) false hex literal = elim (strip_prefix (b'-' ∷ []) token) [
  | some flags ↦
      let to_hex = has b'H' flags in
      let to_literal = not to_hex && has b'l' flags in
      scan_keys tokens (takes_value flags) (to_hex || (hex && not to_literal))
        (to_literal || (literal && not to_hex))
  | none ↦
      let rest = scan_keys tokens false hex literal in
      (not literal && key_interrupts hex token) || rest
]

unfoldable pub command_tokens : List (List ℕ) → Bool
unfolding scan_keys
command_tokens [] = false
command_tokens (name ∷ tokens) =
    (bytes_eq name (codes "send-keys") || bytes_eq name (codes "send"))
    && scan_keys tokens false false false

unfoldable pub command_requests_interrupt : List ℕ → Bool
unfolding is_utf8 split_ascii_whitespace command_tokens
command_requests_interrupt bytes = is_utf8 bytes && command_tokens (split_ascii_whitespace bytes)

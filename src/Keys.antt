-- ===== src/Keys.antt =====
-- crates/et-core/src/keys.rs: what is accepted as the id and the passkey of a session. Texts are
-- the lists of their bytes.
pub mod Parse
use et_rs.Prelude.{
  leb, ◌==◌, if◌then◌else◌, length, ℕ, Bool, true, false, ◌&&◌, ◌||◌, not, Option, none, some, List,
  [], ◌∷◌,
}

abbrev pub id_len : ℕ
id_len = 16

abbrev pub passkey_len : ℕ
passkey_len = 32

abbrev pub is_ascii_alphanumeric : ℕ → Bool
is_ascii_alphanumeric b =
    (leb 48 b && leb b 57) || ((leb 65 b && leb b 90) || (leb 97 b && leb b 122))

-- `bytes().all(..)`.
unfoldable pub all_alphanumeric : List ℕ → Bool
all_alphanumeric [] = true
all_alphanumeric (b ∷ bs) = is_ascii_alphanumeric b && all_alphanumeric bs

unfoldable pub passkey_to_key : List ℕ → Option (List ℕ)
passkey_to_key passkey =
    if not (length passkey == passkey_len) || not (all_alphanumeric passkey)
    then none
    else some passkey

-- `split_once('/')`: the first slash, which is byte 47, parts the text.
abbrev pub before_left : ℕ → Option (List ℕ × List ℕ) → Option (List ℕ × List ℕ)
before_left b none = none
before_left b (some (left, right)) = some (b ∷ left, right)

unfoldable pub split_once : List ℕ → Option (List ℕ × List ℕ)
split_once [] = none
split_once (b ∷ bs) =
    let rest = before_left b (split_once bs) in if b == 47 then some ([], bs) else rest

abbrev pub is_none : Option (List ℕ) → Bool
is_none none = true
is_none (some key) = false

unfoldable pub accept_parts : Option (List ℕ × List ℕ) → Option (List ℕ × List ℕ)
accept_parts none = none
accept_parts (some (id, passkey)) =
    if (not (length id == id_len) || not (all_alphanumeric id)) || is_none (passkey_to_key passkey)
    then none
    else some (id, passkey)

unfoldable pub parse_id_passkey : List ℕ → Option (List ℕ × List ℕ)
parse_id_passkey s = accept_parts (split_once s)

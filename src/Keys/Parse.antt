-- ===== src/Keys/Parse.antt =====
-- Which texts crates/et-core/src/keys.rs accepts as the credentials of a session.
use et_rs.Prelude.{
  ◌==◌, Bool-cases, Option-cases, length, ℕ, ◌≡◌, refl, ap, ap₂, subst, ◌∙◌, ◌↔◌, inl, inr, true,
  Option, none, some, List, [], ◌∷◌, ◌++◌, arith,
}
use et_rs.Keys.{
  id_len, passkey_len, all_alphanumeric, passkey_to_key, split_once, accept_parts, parse_id_passkey,
}

-- Sixteen and thirty-two letters and digits.
abbrev pub IsCredentials : List ℕ × List ℕ → Type 0
IsCredentials (id, passkey) =
    (length id ≡ id_len)
    × (all_alphanumeric id ≡ true)
    × (length passkey ≡ passkey_len)
    × (all_alphanumeric passkey ≡ true)

split_once_lem :
    (s left right : List ℕ) → split_once s ≡ some (left, right) → s ≡ left ++ (47 ∷ right)
unfolding split_once
split_once_lem [] left right e = absurd (ground arith)
split_once_lem (b ∷ bs) left right e = elim (Bool-cases (b == 47)) [
  | inl slash ↦ ground arith
  | inr other ↦ elim (Option-cases (split_once bs)) [
    | inl nothing ↦ absurd (ground arith)
    | inr ((l, r), found) ↦ let ih = split_once_lem bs l r found in ground arith
  ]
]

split_once-append :
    (left right : List ℕ)
    → all_alphanumeric left ≡ true
    → split_once (left ++ (47 ∷ right)) ≡ some (left, right)
unfolding split_once all_alphanumeric
split_once-append [] right own = refl
split_once-append (b ∷ left) right own = let ih = split_once-append left right in ground arith

accept_parts_iff :
    (id passkey id' passkey' : List ℕ)
    → (accept_parts (some (id, passkey)) ≡ some (id', passkey'))
      ↔ ((id ≡ id') × (passkey ≡ passkey') × IsCredentials (id, passkey))
unfolding accept_parts passkey_to_key
accept_parts_iff id passkey id' passkey' = (λ h. ground arith, λ h. ground arith)

accepted_parts :
    (o : Option (List ℕ × List ℕ)) (s id passkey : List ℕ)
    → split_once s ≡ o
    → accept_parts o ≡ some (id, passkey)
    → (s ≡ id ++ (47 ∷ passkey)) × IsCredentials (id, passkey)
accepted_parts none s id passkey e h = unfold accept_parts in absurd (ground (arith, h))
accepted_parts (some (left, right)) s id passkey e h =
    let parts = (accept_parts_iff left right id passkey).0 h in
    let parted : s ≡ left ++ (47 ∷ right) = split_once_lem s left right e in
    (
      parted ∙ ap₂ (λ l r. l ++ (47 ∷ r)) parts.0 parts.1,
      subst IsCredentials (ap₂ (λ l r. (l, r)) parts.0 parts.1) parts.2,
    )

-- A text is accepted exactly when it is an id of sixteen letters and digits, a slash, and a passkey
-- of thirty-two, and these are what it is parsed to.
pub parse_id_passkey_iff :
    (s id passkey : List ℕ)
    → (parse_id_passkey s ≡ some (id, passkey))
      ↔ ((s ≡ id ++ (47 ∷ passkey)) × IsCredentials (id, passkey))
unfolding parse_id_passkey
parse_id_passkey_iff s id passkey = (
  λ h. accepted_parts (split_once s) s id passkey refl h,
  λ h.
      ap accept_parts (ap split_once h.0 ∙ split_once-append id passkey h.1.1)
      ∙ (accept_parts_iff id passkey id passkey).1 (refl, refl, h.1),
)

-- ===== src/Crypto/Nonce.antt =====
-- The nonce of crates/et-core/src/crypto.rs read as a little-endian counter, in both directions of
-- a connection.
use native.Mathlib.Nat.{pow-suc}
use et_rs.Prelude.{
  ◌==◌, if◌then◌else◌, length, All, IsByte, from_le, from_le-lt, ℕ, zero, suc, ◌+◌, ◌*◌, ◌%◌, ◌^◌,
  ◌<◌, ◌≡◌, refl, ap, ◌∙◌, List, [], ◌∷◌, arith, dec_lt,
}
use et_rs.Crypto.{initial_nonce, bump_nonce}

-- `k` calls of `bump_nonce`.
unfoldable pub bumps : ℕ → List ℕ → List ℕ
bumps zero nonce = nonce
bumps (suc k) nonce = bump_nonce (bumps k nonce)

pub length-bump_nonce : (bs : List ℕ) → length (bump_nonce bs) ≡ length bs
unfolding bump_nonce
length-bump_nonce [] = refl
length-bump_nonce (b ∷ bs) = ground (arith, length-bump_nonce bs)

pub bump_nonce-IsByte : (bs : List ℕ) → All IsByte bs → All IsByte (bump_nonce bs)
unfolding bump_nonce
bump_nonce-IsByte [] h = tt
bump_nonce-IsByte (b ∷ bs) h = ground (arith, bump_nonce-IsByte bs h.1)

carry_step :
    (b bs_value bumped p : ℕ)
    → b < 256
    → bs_value < p
    → bumped ≡ (if bs_value + 1 == p then 0 else bs_value + 1)
    → (b + 1) % 256 + 256 * (if (b + 1) % 256 == 0 then bumped else bs_value)
      ≡ (if b + 256 * bs_value + 1 == p * 256 then 0 else b + 256 * bs_value + 1)
carry_step b bs_value bumped p hb hp e = elim (dec_lt b 255) [
  | yes small ↦ ground arith
  | no full ↦ ground arith
]

-- The carry chain adds one to the number that the bytes stand for, and starts again from 0 after
-- the largest number of that many bytes.
pub from_le-bump_nonce :
    (bs : List ℕ)
    → All IsByte bs
    → from_le (bump_nonce bs) ≡ (if from_le bs + 1 == 256 ^ length bs then 0 else from_le bs + 1)
unfolding bump_nonce from_le
from_le-bump_nonce [] h = refl
from_le-bump_nonce (b ∷ bs) h = ground (
  arith,
  carry_step b (from_le bs) (from_le (bump_nonce bs)) (256 ^ length bs) h.0 (from_le-lt bs h.1)
      (from_le-bump_nonce bs h.1),
  pow-suc 256 (length bs),
)

pub length-bumps : (k : ℕ) (bs : List ℕ) → length (bumps k bs) ≡ length bs
unfolding bumps
length-bumps zero bs = refl
length-bumps (suc k) bs = length-bump_nonce (bumps k bs) ∙ length-bumps k bs

bumps-IsByte : (k : ℕ) (bs : List ℕ) → All IsByte bs → All IsByte (bumps k bs)
unfolding bumps
bumps-IsByte zero bs h = h
bumps-IsByte (suc k) bs h = bump_nonce-IsByte (bumps k bs) (bumps-IsByte k bs h)

-- After `k` calls the counter has moved by `k`, as long as it does not overflow its width.
pub from_le-bumps :
    (k : ℕ) (bs : List ℕ)
    → All IsByte bs
    → from_le bs + k < 256 ^ length bs
    → from_le (bumps k bs) ≡ from_le bs + k
unfolding bumps
from_le-bumps zero bs h fits = omega arith
from_le-bumps (suc k) bs h fits =
    let before : from_le (bumps k bs) ≡ from_le bs + k = from_le-bumps k bs h (omega arith) in
    let width : length (bumps k bs) ≡ length bs = length-bumps k bs in
    let next : from_le (bump_nonce (bumps k bs))
        ≡ (if from_le (bumps k bs) + 1 == 256 ^ length bs then 0 else from_le (bumps k bs) + 1) =
      rw width at (from_le-bump_nonce (bumps k bs) (bumps-IsByte k bs h)) in
    ground arith

-- The first counter of a direction holds the direction in its highest byte.
from_le-initial_nonce : (d : ℕ) → from_le (initial_nonce d) ≡ d * 256 ^ 23
unfolding from_le
from_le-initial_nonce d = omega arith

initial_nonce-IsByte : (d : ℕ) → d < 2 → All IsByte (initial_nonce d)
initial_nonce-IsByte d h = omega arith

-- Two handlers of one connection, in either direction, use one nonce only for the same message of
-- the same direction: the nonce after `j` calls in direction `d` is that after `k` calls in
-- direction `e` only if `j` is `k` and `d` is `e`, for fewer than 2 ^ 184 messages.
pub bumps_injective :
    (d e j k : ℕ)
    → d < 2
    → e < 2
    → j < 256 ^ 23
    → k < 256 ^ 23
    → bumps j (initial_nonce d) ≡ bumps k (initial_nonce e)
    → (j ≡ k) × (d ≡ e)
bumps_injective d e j k hd he hj hk same =
    let left : from_le (bumps j (initial_nonce d)) ≡ from_le (initial_nonce d) + j =
      from_le-bumps j (initial_nonce d) (initial_nonce-IsByte d hd)
        (omega (arith, from_le-initial_nonce d)) in
    let right : from_le (bumps k (initial_nonce e)) ≡ from_le (initial_nonce e) + k =
      from_le-bumps k (initial_nonce e) (initial_nonce-IsByte e he)
        (omega (arith, from_le-initial_nonce e)) in
    let value : from_le (bumps j (initial_nonce d)) ≡ from_le (bumps k (initial_nonce e)) =
      ap from_le same in
    (
      omega (arith, from_le-initial_nonce d, from_le-initial_nonce e),
      omega (arith, from_le-initial_nonce d, from_le-initial_nonce e),
    )

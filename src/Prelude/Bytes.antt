-- ===== src/Prelude/Bytes.antt =====
-- Bytes of machine integers, as Rust's `to_le_bytes`, `from_be_bytes` and the like give them.
use Prim.Native.Nat.{ℕ, zero, suc, ◌+◌, ◌-◌, ◌*◌, ◌/◌, ◌%◌, ◌^◌, ◌<◌}
use mathlib.Core.Path.{◌≡◌, refl, ap, ap₂, ◌∙◌}
use mathlib.Core.List.{List, [], ◌∷◌, reverse, reverse-cons, reverse-reverse}
use native.Mathlib.Omega.{arith}
use native.Mathlib.Nat.{pow-suc}
use et_rs.Prelude.Tests.{ltb, if◌then◌else◌}
use et_rs.Prelude.Lists.{length, All, append-All, length-reverse}
use et_rs.Prelude.Fallible.{ℤ, pos, negsuc}

abbrev pub IsByte : ℕ → Type 0
IsByte b = b < 256

-- The `n` low bytes of `v`, the lowest first.
unfoldable pub le_bytes : ℕ → ℕ → List ℕ
le_bytes zero v = []
le_bytes (suc n) v = v % 256 ∷ le_bytes n (v / 256)

unfoldable pub from_le : List ℕ → ℕ
from_le [] = 0
from_le (b ∷ bs) = b + 256 * from_le bs

unfoldable pub be_bytes : ℕ → ℕ → List ℕ
be_bytes n v = reverse (le_bytes n v)

unfoldable pub from_be : List ℕ → ℕ
from_be bs = from_le (reverse bs)

-- The `i64` that a 64-bit pattern stands for, and the pattern of an `i64`.
unfoldable pub to_i64 : ℕ → ℤ
to_i64 w = if ltb w (2 ^ 63) then pos w else negsuc (2 ^ 64 - w - 1)

unfoldable pub i64_bits : ℤ → ℕ
i64_bits (pos n) = n % 2 ^ 64
i64_bits (negsuc n) = 2 ^ 64 - 1 - n % 2 ^ 64

pub length-le_bytes : (n v : ℕ) → length (le_bytes n v) ≡ n
unfolding le_bytes
length-le_bytes zero v = refl
length-le_bytes (suc n) v = ap suc (length-le_bytes n (v / 256))

pub length-be_bytes : (n v : ℕ) → length (be_bytes n v) ≡ n
unfolding be_bytes
length-be_bytes n v = length-reverse (le_bytes n v) ∙ length-le_bytes n v

pub le_bytes-IsByte : (n v : ℕ) → All IsByte (le_bytes n v)
unfolding le_bytes
le_bytes-IsByte zero v = tt
le_bytes-IsByte (suc n) v = (omega arith, le_bytes-IsByte n (v / 256))

-- Decoding inverts encoding of what fits.
pub from_le-le_bytes : (n v : ℕ) → v < 256 ^ n → from_le (le_bytes n v) ≡ v
unfolding from_le le_bytes
from_le-le_bytes zero v h = omega arith
from_le-le_bytes (suc n) v h =
    let fits : v / 256 < 256 ^ n = omega (arith, pow-suc 256 n) in
    omega (arith, from_le-le_bytes n (v / 256) fits)

pub from_be-be_bytes : (n v : ℕ) → v < 256 ^ n → from_be (be_bytes n v) ≡ v
unfolding from_be be_bytes
from_be-be_bytes n v h = rw (reverse-reverse (le_bytes n v)) (from_le-le_bytes n v h)

pub from_le-lt : (bs : List ℕ) → All IsByte bs → from_le bs < 256 ^ length bs
unfolding from_le
from_le-lt [] h = omega arith
from_le-lt (b ∷ bs) h = omega (arith, from_le-lt bs h.1, pow-suc 256 (length bs))

-- And encoding inverts decoding.
pub le_bytes-from_le : (bs : List ℕ) → All IsByte bs → le_bytes (length bs) (from_le bs) ≡ bs
unfolding from_le le_bytes
le_bytes-from_le [] h = refl
le_bytes-from_le (b ∷ bs) h =
    let low : (b + 256 * from_le bs) % 256 ≡ b = omega arith in
    let high : (b + 256 * from_le bs) / 256 ≡ from_le bs = omega arith in
    ap₂ ◌∷◌ low (rw high (le_bytes-from_le bs h.1))

pub All-reverse {ℓ κ} : {A : Type ℓ} (P : A → Type κ) (xs : List A) → All P xs → All P (reverse xs)
All-reverse P [] h = tt
All-reverse P (x ∷ xs) h =
    rw (reverse-cons x xs) (append-All P (reverse xs) (x ∷ []) (All-reverse P xs h.1) (h.0, tt))

pub be_bytes-from_be : (bs : List ℕ) → All IsByte bs → be_bytes (length bs) (from_be bs) ≡ bs
unfolding from_be be_bytes
be_bytes-from_be bs h =
    let back : le_bytes (length (reverse bs)) (from_le (reverse bs)) ≡ reverse bs =
      le_bytes-from_le (reverse bs) (All-reverse IsByte bs h) in
    ap reverse (rw (length-reverse bs) at back) ∙ reverse-reverse bs

pub from_be-lt : (bs : List ℕ) → All IsByte bs → from_be bs < 256 ^ length bs
unfolding from_be
from_be-lt bs h = rw (length-reverse bs) at (from_le-lt (reverse bs) (All-reverse IsByte bs h))

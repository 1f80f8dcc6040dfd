-- ===== src/Prelude/Bits.antt =====
-- Facts about `bit_and`, `bit_or` and `bit_xor` at variables: the libraries give their definition
-- by binary digits, and here the fuel of that definition is dropped.
use Prim.Native.Nat.{
  ℕ, zero, suc, ◌+◌, ◌-◌, ◌*◌, ◌/◌, ◌%◌, ◌^◌, ◌≤◌, ◌<◌, max, digits, bitwise, differ, bit_or,
  bit_xor, bit_or-bitwise, bit_xor-bitwise,
}
use mathlib.Core.Path.{◌≡◌, refl, ap, sym, ◌∙◌}
use mathlib.Core.Logic.{◌↔◌}
use mathlib.Core.Bool.{Bool, true, ◌&&◌}
use native.Mathlib.Omega.{arith}
use native.Mathlib.Nat.{le_refl, pow-suc}

-- A test that evaluation finds true of every number below a bound.
unfoldable pub holds_below : (ℕ → Bool) → ℕ → Bool
holds_below test zero = true
holds_below test (suc bound) = holds_below test bound && test bound

pub holds_below_lem :
    (test : ℕ → Bool) (bound v : ℕ) → v < bound → holds_below test bound ≡ true → test v ≡ true
unfolding holds_below
holds_below_lem test zero v small all = absurd (omega arith)
holds_below_lem test (suc bound) v small all = ground (arith, holds_below_lem test bound v)

-- Fuel beyond the first number changes nothing.
module _ (on_zero : ℕ → ℕ) (digit : ℕ → ℕ → ℕ) where
  one_round :
      (rounds x y : ℕ)
      → x ≤ rounds
      → digits on_zero digit (suc rounds) x y ≡ digits on_zero digit rounds x y
  one_round zero zero y enough = refl
  one_round (suc rounds) zero y enough = refl
  one_round zero (suc x) y enough = absurd (omega arith)
  one_round (suc rounds) (suc x) y enough = rw (one_round rounds (suc x / 2) (y / 2) (omega arith))

  spare_rounds :
      (spare rounds x y : ℕ)
      → x ≤ rounds
      → digits on_zero digit (spare + rounds) x y ≡ digits on_zero digit rounds x y
  spare_rounds zero rounds x y enough = let e : 0 + rounds ≡ rounds = omega arith in rw e
  spare_rounds (suc spare) rounds x y enough =
      let e : suc spare + rounds ≡ suc (spare + rounds) = omega arith in
      rw e (one_round (spare + rounds) x y (omega arith) ∙ spare_rounds spare rounds x y enough)

  bitwise_lowest :
      (x y : ℕ)
      → digit (suc x % 2) (y % 2) + 2 * bitwise on_zero digit (suc x / 2) (y / 2)
        ≡ bitwise on_zero digit (suc x) y
  bitwise_lowest x y =
      let half : ℕ = suc x / 2 in
      let e : x - half + half ≡ x = omega arith in
      let fuel : digits on_zero digit x half (y / 2) ≡ digits on_zero digit half half (y / 2) =
        rw e at (spare_rounds (x - half) half half (y / 2) (le_refl half)) in
      omega (arith, fuel)

bit_or_lowest : (x y : ℕ) → max (x % 2) (y % 2) + 2 * bit_or (x / 2) (y / 2) ≡ bit_or x y
bit_or_lowest zero y = simp bit_or-bitwise (omega arith)
bit_or_lowest (suc x) y = simp bit_or-bitwise (bitwise_lowest (λ d. d) max x y)

differ_zero : (b : ℕ) → differ 0 (b % 2) ≡ b % 2
differ_zero b = refl

bit_xor_lowest : (x y : ℕ) → differ (x % 2) (y % 2) + 2 * bit_xor (x / 2) (y / 2) ≡ bit_xor x y
bit_xor_lowest zero y = simp bit_xor-bitwise (omega (arith, differ_zero y))
bit_xor_lowest (suc x) y = simp bit_xor-bitwise (bitwise_lowest (λ d. d) differ x y)

zero-bit_or : (b : ℕ) → bit_or 0 b ≡ b
zero-bit_or b = bit_or-bitwise 0 b

bit_or_eq_zero_fuel : (n a b : ℕ) → a ≤ n → bit_or a b ≡ 0 → (a ≡ 0) × (b ≡ 0)
bit_or_eq_zero_fuel n zero b le h = (refl, sym (zero-bit_or b) ∙ h)
bit_or_eq_zero_fuel zero (suc a) b le h = absurd (omega arith)
bit_or_eq_zero_fuel (suc n) (suc a) b le h =
    let low = bit_or_lowest (suc a) b in
    let rest : (suc a / 2 ≡ 0) × (b / 2 ≡ 0) =
      bit_or_eq_zero_fuel n (suc a / 2) (b / 2) (omega arith) (omega arith) in
    (omega arith, omega arith)

-- An or is zero exactly when both sides are.
pub bit_or_eq_zero : (a b : ℕ) → (bit_or a b ≡ 0) ↔ ((a ≡ 0) × (b ≡ 0))
bit_or_eq_zero a b = (bit_or_eq_zero_fuel a a b (le_refl a), λ h. rw (h.0, h.1))

-- Two binary digits differ by 0 exactly when they are equal.
digit_differ : (x y : ℕ) → x < 2 → y < 2 → (differ x y ≡ 0) ↔ (x ≡ y)
digit_differ zero zero p q = (λ _. refl, λ _. refl)
digit_differ zero (suc zero) p q = (λ h. absurd (omega arith), λ h. absurd (omega arith))
digit_differ (suc zero) zero p q = (λ h. absurd (omega arith), λ h. absurd (omega arith))
digit_differ (suc zero) (suc zero) p q = (λ _. refl, λ _. refl)
digit_differ zero (suc (suc y)) p q = absurd (omega arith)
digit_differ (suc zero) (suc (suc y)) p q = absurd (omega arith)
digit_differ (suc (suc x)) y p q = absurd (omega arith)

bit_eq_of_differ : (a b : ℕ) → differ (a % 2) (b % 2) ≡ 0 → a % 2 ≡ b % 2
bit_eq_of_differ a b = (digit_differ (a % 2) (b % 2) (omega arith) (omega arith)).0

bit_xor_eq_zero_fuel : (n a b : ℕ) → a ≤ n → bit_xor a b ≡ 0 → a ≡ b
bit_xor_eq_zero_fuel n zero b le h = sym (sym (bit_xor-bitwise 0 b) ∙ h)
bit_xor_eq_zero_fuel zero (suc a) b le h = absurd (omega arith)
bit_xor_eq_zero_fuel (suc n) (suc a) b le h =
    let low = bit_xor_lowest (suc a) b in
    let half : suc a / 2 ≡ b / 2 =
      bit_xor_eq_zero_fuel n (suc a / 2) (b / 2) (omega arith) (omega arith) in
    let bit : suc a % 2 ≡ b % 2 = bit_eq_of_differ (suc a) b (omega arith) in omega arith

bit_xor_self_fuel : (n a : ℕ) → a ≤ n → bit_xor a a ≡ 0
bit_xor_self_fuel n zero le = refl
bit_xor_self_fuel zero (suc a) le = absurd (omega arith)
bit_xor_self_fuel (suc n) (suc a) le =
    let low = bit_xor_lowest (suc a) (suc a) in
    let half : bit_xor (suc a / 2) (suc a / 2) ≡ 0 =
      bit_xor_self_fuel n (suc a / 2) (omega arith) in
    let same : differ (suc a % 2) (suc a % 2) ≡ 0 =
      (digit_differ (suc a % 2) (suc a % 2) (omega arith) (omega arith)).1 refl in
    omega arith

-- An exclusive or is zero exactly between equal numbers.
pub bit_xor_eq_zero : (a b : ℕ) → (bit_xor a b ≡ 0) ↔ (a ≡ b)
bit_xor_eq_zero a b =
    (bit_xor_eq_zero_fuel a a b (le_refl a), λ h. rw h (bit_xor_self_fuel b b (le_refl b)))

-- Fields that do not overlap: the or is the sum.
pub bit_or_fields : (k a q : ℕ) → a < 2 ^ k → bit_or a (q * 2 ^ k) ≡ a + q * 2 ^ k
bit_or_fields zero zero q fits = omega (arith, zero-bit_or (q * 2 ^ 0))
bit_or_fields zero (suc a) q fits = absurd (omega arith)
bit_or_fields (suc k) a q fits =
    let p : 2 ^ suc k ≡ 2 ^ k * 2 = pow-suc 2 k in
    let double : q * 2 ^ suc k ≡ 2 * (q * 2 ^ k) = omega (arith, ap (λ (t : ℕ). q * t) p) in
    let half : q * 2 ^ suc k / 2 ≡ q * 2 ^ k = omega arith in
    let ih : bit_or (a / 2) (q * 2 ^ k) ≡ a / 2 + q * 2 ^ k =
      bit_or_fields k (a / 2) q (omega arith) in
    let low : max (a % 2) (q * 2 ^ suc k % 2) + 2 * bit_or (a / 2) (q * 2 ^ k)
        ≡ bit_or a (q * 2 ^ suc k) =
      rw half at (bit_or_lowest a (q * 2 ^ suc k)) in
    omega arith

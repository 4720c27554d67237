-- ===== src/Prelude/Bits.antt =====
-- `n & (n - 1)` is 0 exactly at the powers of two, and 0.
use Prim.Native.Nat.{ℕ, zero, suc, ◌+◌, ◌-◌, ◌*◌, ◌/◌, ◌%◌, ◌^◌, ◌≤◌, ◌<◌, min, bit_and, digits}
use Prim.Native.Nat.{bit_and-bitwise}
use mathlib.Core.Path.{◌≡◌, refl, sym, ap, ap₂, ◌∙◌}
use native.Mathlib.Omega.{arith}
use mathlib.Core.Logic.{◌⊎◌, inl, inr}
use crypto_agent.Prelude.Powers.{two_pow-suc, lt-two_pow}

-- the loop that `bit_and` stands for, on fuel
abbrev conj : ℕ → ℕ → ℕ → ℕ
conj fuel x y = digits (λ y. zero) min fuel x y

conj_none : (fuel y : ℕ) → conj fuel 0 y ≡ 0
conj_none zero y = refl
conj_none (suc fuel) y = refl

conj_surplus : (fuel more x y : ℕ) → x ≤ fuel → conj (more + fuel) x y ≡ conj fuel x y
conj_surplus fuel more zero y h = conj_none (more + fuel) y ∙ sym (conj_none fuel y)
conj_surplus zero more (suc x) y h = absurd (omega arith)
conj_surplus (suc fuel) more (suc x) y h =
    let half = conj_surplus fuel more (suc x / 2) (y / 2) (omega arith) in
    let moved : conj (more + suc fuel) (suc x) y ≡ conj (suc (more + fuel)) (suc x) y =
      ap (λ (k : ℕ). conj k (suc x) y) {y = suc (more + fuel)} (omega arith) in
    omega (arith, moved, half)

-- The lowest digit of a conjunction, and the rest.
low_digit : (x y : ℕ) → bit_and x y ≡ 2 * bit_and (x / 2) (y / 2) + min (x % 2) (y % 2)
low_digit zero y = omega (arith, bit_and-bitwise 0 (y / 2), bit_and-bitwise 0 y)
low_digit (suc x) y =
    let h = suc x / 2 in
    let spare : x - h + h ≡ x = omega arith in
    let enough : conj x h (y / 2) ≡ conj h h (y / 2) =
      ap (λ (k : ℕ). conj k h (y / 2)) (sym spare)
      ∙ conj_surplus h (x - h) h (y / 2) (omega arith) in
    omega (arith, enough, bit_and-bitwise h (y / 2), bit_and-bitwise (suc x) y)

and_self : (n a : ℕ) → a ≤ n → bit_and a a ≡ a
and_self zero zero h = refl
and_self zero (suc a) h = absurd (omega arith)
and_self (suc n) zero h = refl
and_self (suc n) (suc a) h =
    omega (arith, low_digit (suc a) (suc a), and_self n (suc a / 2) (omega arith))

-- clearing the lowest one bit of an odd and of an even number
clear_odd : (q : ℕ) → bit_and (2 * q + 1) (2 * q) ≡ 2 * q
clear_odd q = omega (
  arith,
  low_digit (2 * q + 1) (2 * q),
  ap (λ (t : ℕ). bit_and t ((2 * q) / 2)) (half_odd q),
  ap (λ (t : ℕ). bit_and q t) (half_even q),
  and_self q q (omega arith),
)
  where
    half_odd : (q : ℕ) → (2 * q + 1) / 2 ≡ q
    half_odd q = omega arith

    half_even : (q : ℕ) → (2 * q) / 2 ≡ q
    half_even q = omega arith

clear_even : (q : ℕ) → bit_and (2 * q + 2) (2 * q + 1) ≡ 2 * bit_and (q + 1) q
clear_even q = omega (
  arith,
  low_digit (2 * q + 2) (2 * q + 1),
  ap (λ (t : ℕ). bit_and t ((2 * q + 1) / 2)) (upper q),
  ap (λ (t : ℕ). bit_and (q + 1) t) (lower q),
)
  where
    upper : (q : ℕ) → (2 * q + 2) / 2 ≡ q + 1
    upper q = omega arith

    lower : (q : ℕ) → (2 * q + 1) / 2 ≡ q
    lower q = omega arith

parity : (n : ℕ) → ((q : ℕ) × (n ≡ 2 * q)) ⊎ ((q : ℕ) × (n ≡ 2 * q + 1))
parity zero = inl (0, refl)
parity (suc n) = elim (parity n) [
  | inl (q, e) ↦ inr (q, omega arith)
  | inr (q, e) ↦ inl (q + 1, omega arith)
]

-- `n & (n - 1)` with both numbers given
pub clear_lowest-two_pow : (z : ℕ) → bit_and (2 ^ z) (2 ^ z - 1) ≡ 0
clear_lowest-two_pow zero = refl
clear_lowest-two_pow (suc z) =
    let q = 2 ^ z - 1 in
    let e : 2 ^ suc z ≡ 2 * q + 2 = omega (arith, two_pow-suc z, lt-two_pow z) in
    let p : 2 * q + 2 - 1 ≡ 2 * q + 1 = omega arith in
    let r : q + 1 ≡ 2 ^ z = omega (arith, lt-two_pow z) in
    rw (e, p, clear_even, r, clear_lowest-two_pow z)

pub two_pow_of_clear_lowest :
    (fuel n : ℕ) → n ≤ fuel → 0 < n → bit_and n (n - 1) ≡ 0 → (z : ℕ) × (n ≡ 2 ^ z)
two_pow_of_clear_lowest zero n h pos e = absurd (omega arith)
two_pow_of_clear_lowest (suc fuel) n h pos e = elim (parity n) [
  | inl (zero, p) ↦ absurd (omega arith)
  | inl (suc q, p) ↦
      let both : bit_and n (n - 1) ≡ bit_and (2 * q + 2) (2 * q + 1) =
        ap₂ bit_and (omega arith) (omega arith) in
      let half : bit_and (q + 1) (q + 1 - 1) ≡ 0 =
        ap (bit_and (q + 1)) {y = q} (omega arith) ∙ omega (arith, clear_even q) in
      let (z, r) = two_pow_of_clear_lowest fuel (q + 1) (omega arith) (omega arith) half in
      (suc z, omega (arith, two_pow-suc z))
  | inr (q, p) ↦
      let both : bit_and n (n - 1) ≡ bit_and (2 * q + 1) (2 * q) = ap₂ bit_and p (omega arith) in
      (0, omega (arith, clear_odd q))
]

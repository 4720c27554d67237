-- ===== src/Prelude/Powers.antt =====
-- Powers of two.
use Prim.Native.Nat.{ℕ, zero, suc, ◌+◌, ◌-◌, ◌*◌, ◌^◌, ◌≤◌, ◌<◌}
use mathlib.Core.Path.{◌≡◌, ap}
use native.Mathlib.Nat.{pow-suc}
use native.Mathlib.Decide.{dec_lt}
use native.Mathlib.Omega.{arith}

pub two_pow-suc : (n : ℕ) → 2 ^ suc n ≡ 2 * 2 ^ n
two_pow-suc n = omega (arith, pow-suc 2 n)

pub lt-two_pow : (n : ℕ) → n < 2 ^ n
lt-two_pow zero = omega arith
lt-two_pow (suc n) = omega (arith, two_pow-suc n, lt-two_pow n)

-- `a * 2 ^ suc n`, for `omega`
pub mul-two_pow-suc : (a n : ℕ) → a * 2 ^ suc n ≡ 2 * (a * 2 ^ n)
mul-two_pow-suc a n = omega (arith, ap (λ (t : ℕ). a * t) (two_pow-suc n))

-- a power below another, doubled, is at most that other
pub two_pow-lt : (i j : ℕ) → 2 ^ i < 2 ^ j → i < j
two_pow-lt i zero h = absurd (omega (arith, lt-two_pow i))
two_pow-lt zero (suc j) h = omega arith
two_pow-lt (suc i) (suc j) h =
    let rest = two_pow-lt i j (omega (arith, two_pow-suc i, two_pow-suc j)) in omega arith

-- `2 ^ j` is a doubled multiple of any smaller power.
pub two_pow-gap : (i j : ℕ) → i < j → (e : ℕ) × (2 ^ j ≡ 2 * 2 ^ e * 2 ^ i)
two_pow-gap i zero h = absurd (omega arith)
two_pow-gap zero (suc j) h = (j, omega (arith, two_pow-suc j))
two_pow-gap (suc i) (suc j) h =
    let (e, p) = two_pow-gap i j (omega arith) in
    (e, omega (arith, two_pow-suc j, p, ap (λ (t : ℕ). 2 * 2 ^ e * t) (two_pow-suc i)))

-- Only one power of two lies below `n` and not below its half.
pub two_pow_unique :
    (i j n : ℕ) → 2 ^ i < n → n ≤ 2 ^ i + 2 ^ i → 2 ^ j < n → n ≤ 2 ^ j + 2 ^ j → i ≡ j
two_pow_unique i j n a b c d = omega (
  arith,
  two_pow-suc i,
  two_pow-suc j,
  two_pow-lt i (suc j) (omega (arith, two_pow-suc j)),
  two_pow-lt j (suc i) (omega (arith, two_pow-suc i)),
)

-- The top digit of a number of `h + 1` binary digits, and the rest.
pub record TopDigit (s h : ℕ) : Type 0 where
  pub digit : ℕ
  pub low : ℕ
  pub binary : digit ≤ 1
  pub sum : s ≡ low + digit * 2 ^ h
  pub small : low < 2 ^ h

pub top_digit : (s h : ℕ) → s < 2 ^ suc h → TopDigit s h
top_digit s h lt = elim (dec_lt s (2 ^ h)) [
  | yes p ↦ record { digit = 0; low = s; binary = omega arith; sum = omega arith; small = p }
  | no p ↦ record {
    digit = 1;
    low = s - 2 ^ h;
    binary = omega arith;
    sum = omega arith;
    small = omega (arith, two_pow-suc h);
  }
]

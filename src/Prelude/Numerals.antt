-- ===== src/Prelude/Numerals.antt =====
-- Numbers as text: `strconv.ParseUint` and `strconv.FormatUint` at 64 bits, in base 10 and 16.
use Prim.Native.Nat.{ℕ, zero, suc, ◌+◌, ◌*◌, ◌/◌, ◌%◌, ◌^◌, ◌≤◌, ◌<◌}
use mathlib.Core.Path.{◌≡◌, refl, sym, ap, ◌∙◌}
use mathlib.Core.Option.{Option, none, some}
use mathlib.Core.List.{[], ◌∷◌, ◌++◌}
use native.Mathlib.Omega.{arith}
use crypto_agent.Prelude.Tests.{ltb, leb, if◌then◌else◌, Bool-cases, some-inj}
use mathlib.Core.Logic.{inl, inr}
use mathlib.Core.Bool.{true, false}
use mathlib.Core.Path.{subst}
use crypto_agent.Prelude.Powers.{two_pow-suc}
use crypto_agent.Prelude.Strings.{Bytes}
use crypto_agent.Prelude.Lists.{All, All-append}
use crypto_agent.Prelude.Hex.{hex_value, hex_digit, hex_value-hex_digit}

-- the value so far with one digit more, unless the digit is none of the base or 64 bits overflow
unfoldable pub push_digit : ℕ → ℕ → Option ℕ → Option ℕ
push_digit base acc none = none
push_digit base acc (some d) =
    if leb base d
    then none
    else if leb (2 ^ 64) (acc * base + d)
    then none
    else some (acc * base + d)

unfoldable pub parse_digits : ℕ → Option ℕ → Bytes → Option ℕ
unfolding push_digit
parse_digits base acc [] = acc
parse_digits base none (c ∷ s) = none
parse_digits base (some acc) (c ∷ s) = parse_digits base (push_digit base acc (hex_value c)) s

-- `ParseUint(s, base, 64)`: no sign, no underscore, and at least one digit
unfoldable pub parse_uint : ℕ → Bytes → Option ℕ
unfolding parse_digits
parse_uint base [] = none
parse_uint base (c ∷ s) = parse_digits base (some 0) (c ∷ s)

-- the digits of a number below 2 ^ fuel
unfoldable pub format_digits : ℕ → ℕ → ℕ → Bytes
unfolding hex_digit
format_digits base zero v = []
format_digits base (suc fuel) v =
    let rest = format_digits base fuel (v / base) in
    if ltb v base then hex_digit v ∷ [] else rest ++ (hex_digit (v % base) ∷ [])

-- `FormatUint(v, base)`: 64 digits are enough for 64 bits in any base
unfoldable pub format_uint : ℕ → ℕ → Bytes
unfolding format_digits
format_uint base v = format_digits base 64 v

push_digit-lt : (base acc : ℕ) (d : Option ℕ) (v : ℕ) → push_digit base acc d ≡ some v → v < 2 ^ 64
unfolding push_digit
push_digit-lt base acc none v e = absurd (cc e)
push_digit-lt base acc (some d) v e = ground arith

parse_digits-lt :
    (base v : ℕ) (s : Bytes) (acc : Option ℕ)
    → ((a : ℕ) → acc ≡ some a → a < 2 ^ 64)
    → parse_digits base acc s ≡ some v
    → v < 2 ^ 64
unfolding parse_digits
parse_digits-lt base v [] acc h e = h v e
parse_digits-lt base v (c ∷ s) none h e = absurd (cc e)
parse_digits-lt base v (c ∷ s) (some a) h e =
    parse_digits-lt base v s (push_digit base a (hex_value c)) (push_digit-lt base a (hex_value c))
      e

-- What parses is an unsigned 64-bit number.
pub parse_uint-lt : (base v : ℕ) (s : Bytes) → parse_uint base s ≡ some v → v < 2 ^ 64
unfolding parse_uint
parse_uint-lt base v [] e = absurd (cc e)
parse_uint-lt base v (c ∷ s) e =
    parse_digits-lt base v (c ∷ s) (some 0) (λ a h. omega (arith, some-inj (sym h))) e

parse_digits-snoc :
    (base a d : ℕ) (s : Bytes) (acc : Option ℕ)
    → parse_digits base acc s ≡ some a
    → parse_digits base acc (s ++ (d ∷ [])) ≡ push_digit base a (hex_value d)
unfolding parse_digits
parse_digits-snoc base a d [] none h = absurd (cc h)
parse_digits-snoc base a d [] (some b) h = rw (some-inj h) refl
parse_digits-snoc base a d (c ∷ s) none h = absurd (cc h)
parse_digits-snoc base a d (c ∷ s) (some b) h =
    parse_digits-snoc base a d s (push_digit base b (hex_value c)) h

lt→leb : (a b : ℕ) → a < b → leb b a ≡ false
lt→leb a b h = ground arith

pushed :
    (base acc d v : ℕ)
    → d < base
    → acc * base + d ≡ v
    → v < 2 ^ 64
    → push_digit base acc (some d) ≡ some v
unfolding push_digit
pushed base acc d v h e k =
    let digit : leb base d ≡ false = ground arith in
    let fits : leb (2 ^ 64) (acc * base + d) ≡ false =
      lt→leb (acc * base + d) (2 ^ 64) (omega arith) in
    rw (digit, fits) (ap some e)

positive : (fuel v : ℕ) → v < 2 ^ suc fuel → 2 ≤ v → 0 < fuel
positive zero v h k = absurd (omega arith)
positive (suc fuel) v h k = omega arith

snoc-cons : (s : Bytes) (d : ℕ) → (c : ℕ) × (t : Bytes) × (s ++ (d ∷ []) ≡ c ∷ t)
snoc-cons [] d = (d, [], refl)
snoc-cons (c ∷ s) d = (c, s ++ (d ∷ []), refl)

format_digits-small :
    (base fuel v : ℕ) → ltb v base ≡ true → format_digits base (suc fuel) v ≡ hex_digit v ∷ []
unfolding format_digits
format_digits-small base fuel v h = rw h refl

format_digits-large :
    (base fuel v : ℕ)
    → ltb v base ≡ false
    → format_digits base (suc fuel) v
      ≡ format_digits base fuel (v / base) ++ (hex_digit (v % base) ∷ [])
unfolding format_digits
format_digits-large base fuel v h = rw h refl

-- one digit more is read
parse_push :
    (base acc d v : ℕ) (s : Bytes)
    → parse_digits base (some 0) s ≡ some acc
    → d < base
    → d < 16
    → acc * base + d ≡ v
    → v < 2 ^ 64
    → parse_digits base (some 0) (s ++ (hex_digit d ∷ [])) ≡ some v
parse_push base acc d v s h digit hex e k =
    parse_digits-snoc base acc (hex_digit d) s (some 0) h
    ∙ ap (push_digit base acc) (hex_value-hex_digit d hex)
    ∙ pushed base acc d v digit e k

parse_one :
    (base v : ℕ)
    → v < base
    → v < 16
    → v < 2 ^ 64
    → parse_digits base (some 0) (hex_digit v ∷ []) ≡ some v
parse_one base v digit hex k =
    parse_push base 0 v v [] (unfold parse_digits in refl) digit hex (omega arith) k

parse-format_ten :
    (fuel v : ℕ)
    → v < 2 ^ fuel
    → v < 2 ^ 64
    → 0 < fuel
    → parse_digits 10 (some 0) (format_digits 10 fuel v) ≡ some v
parse-format_ten zero v h k pos = absurd (omega arith)
parse-format_ten (suc fuel) v h k pos = elim (Bool-cases (ltb v 10)) [
  | inl small ↦
      rw (format_digits-small 10 fuel v small)
        (parse_one 10 v (ground (arith, small)) (ground (arith, small)) k)
  | inr large ↦
      let fits = two_pow-suc fuel in
      let size : 10 ≤ v = ground (arith, large) in
      let ih =
        parse-format_ten fuel (v / 10) (omega arith) (omega arith)
          (positive fuel v h (omega arith)) in
      rw (format_digits-large 10 fuel v large) (
        parse_push 10 (v / 10) (v % 10) v (format_digits 10 fuel (v / 10)) ih (omega arith)
          (omega arith) (omega arith) k)
]

parse-format_sixteen :
    (fuel v : ℕ)
    → v < 2 ^ fuel
    → v < 2 ^ 64
    → 0 < fuel
    → parse_digits 16 (some 0) (format_digits 16 fuel v) ≡ some v
parse-format_sixteen zero v h k pos = absurd (omega arith)
parse-format_sixteen (suc fuel) v h k pos = elim (Bool-cases (ltb v 16)) [
  | inl small ↦
      rw (format_digits-small 16 fuel v small)
        (parse_one 16 v (ground (arith, small)) (ground (arith, small)) k)
  | inr large ↦
      let fits = two_pow-suc fuel in
      let size : 16 ≤ v = ground (arith, large) in
      let ih =
        parse-format_sixteen fuel (v / 16) (omega arith) (omega arith)
          (positive fuel v h (omega arith)) in
      rw (format_digits-large 16 fuel v large) (
        parse_push 16 (v / 16) (v % 16) v (format_digits 16 fuel (v / 16)) ih (omega arith)
          (omega arith) (omega arith) k)
]

format_digits-nonempty :
    (base fuel v : ℕ) → (c : ℕ) × (s : Bytes) × (format_digits base (suc fuel) v ≡ c ∷ s)
unfolding format_digits
format_digits-nonempty base fuel v = elim (Bool-cases (ltb v base)) [
  | inl one ↦ (hex_digit v, [], rw one refl)
  | inr more ↦ rw more (snoc-cons (format_digits base fuel (v / base)) (hex_digit (v % base)))
]

-- A 64-bit number that was formatted parses back, in both bases.
pub parse_uint-format_uint : (v : ℕ) → v < 2 ^ 64 → parse_uint 10 (format_uint 10 v) ≡ some v
unfolding parse_uint format_uint
parse_uint-format_uint v h =
    let (c, s, q) = format_digits-nonempty 10 63 v in
    rw q (
      subst (λ (t : Bytes). parse_digits 10 (some 0) t ≡ some v) q
        (parse-format_ten 64 v h h (omega arith)))

pub parse_uint-format_hex : (v : ℕ) → v < 2 ^ 64 → parse_uint 16 (format_uint 16 v) ≡ some v
unfolding parse_uint format_uint
parse_uint-format_hex v h =
    let (c, s, q) = format_digits-nonempty 16 63 v in
    rw q (
      subst (λ (t : Bytes). parse_digits 16 (some 0) t ≡ some v) q
        (parse-format_sixteen 64 v h h (omega arith)))

module _ (P : ℕ → Type 0) (base : ℕ) (small : (w : ℕ) → w % base < 16) (le : base ≤ 16)
    (digit : (d : ℕ) → d < 16 → P (hex_digit d)) where
  All-format_digits : (fuel v : ℕ) → All P (format_digits base fuel v)
  unfolding format_digits
  All-format_digits zero v = tt
  All-format_digits (suc fuel) v = elim (Bool-cases (ltb v base)) [
    | inl one ↦ rw one (digit v (ground (arith, one)), tt)
    | inr more ↦ rw more (
        All-append P (format_digits base fuel (v / base)) _ (All-format_digits fuel (v / base))
          (digit (v % base) (small v), tt))
  ]

  -- A number is written in digits.
  pub All-format_uint : (v : ℕ) → All P (format_uint base v)
  unfolding format_uint
  All-format_uint v = All-format_digits 64 v

-- ===== src/Merkle/Climb.antt =====
-- How the verifiers' pair of counters moves (go-key-service/internal/merkle/inclusion.go and
-- consistency.go), in the three places that a node can have: a left child, a right child, and the
-- right edge of the tree, where both counters are equal.
use crypto_agent.Prelude.{
  ℕ, zero, suc, ◌+◌, ◌*◌, ◌/◌, ◌%◌, ◌^◌, ◌≤◌, ◌≡◌, ◌≢◌, refl, ◌∙◌, true, false, arith,
}
use crypto_agent.Prelude.Powers.{mul-two_pow-suc, lt-two_pow}
use crypto_agent.Merkle.Inclusion.{strip_even, on_left, climb}

pub on_left_child : (fn sn a : ℕ) → fn ≡ 2 * a → fn ≢ sn → on_left fn sn ≡ false
unfolding on_left
on_left_child fn sn a e ne = ground arith

pub on_left_odd : (fn sn a : ℕ) → fn ≡ 2 * a + 1 → on_left fn sn ≡ true
unfolding on_left
on_left_odd fn sn a e = ground arith

pub on_left_edge : (fn : ℕ) → on_left fn fn ≡ true
unfolding on_left
on_left_edge fn = ground arith

-- Stripping an odd number does nothing.
strip_odd : (fuel fn sn a : ℕ) → fn ≡ 2 * a + 1 → strip_even fuel fn sn ≡ (fn, sn)
unfolding strip_even
strip_odd zero fn sn a e = refl
strip_odd (suc fuel) fn sn a e = ground arith

strip_step :
    (fuel fn sn : ℕ)
    → fn % 2 ≡ 0
    → fn ≢ 0
    → strip_even (suc fuel) fn sn ≡ strip_even fuel (fn / 2) (sn / 2)
unfolding strip_even
strip_step fuel fn sn e ne = ground arith

-- Stripping takes the factors of two away.
strip_pow :
    (t fuel x a : ℕ)
    → x ≡ (2 * a + 1) * 2 ^ t
    → t ≤ fuel
    → strip_even fuel x x ≡ (2 * a + 1, 2 * a + 1)
strip_pow zero fuel x a e h =
    let e' : x ≡ 2 * a + 1 = omega arith in strip_odd fuel x x a e' ∙ rw e'
strip_pow (suc t) zero x a e h = absurd (omega arith)
strip_pow (suc t) (suc fuel) x a e h =
    let half : x ≡ 2 * ((2 * a + 1) * 2 ^ t) = omega (arith, mul-two_pow-suc (2 * a + 1) t) in
    let pos : 1 ≤ (2 * a + 1) * 2 ^ t = grind (arith, lt-two_pow t) in
    let down : x / 2 ≡ (2 * a + 1) * 2 ^ t = omega arith in
    strip_step fuel x x (omega arith) (omega arith) ∙ strip_pow t fuel (x / 2) a down (omega arith)

pub climb_left : (fn sn a b : ℕ) → fn ≡ 2 * a → fn ≢ sn → sn / 2 ≡ b → climb fn sn ≡ (a, b)
unfolding climb
climb_left fn sn a b e ne h = rw (on_left_child fn sn a e ne) (ground arith)

pub climb_right : (fn sn a b : ℕ) → fn ≡ 2 * a + 1 → sn / 2 ≡ b → climb fn sn ≡ (a, b)
unfolding climb
climb_right fn sn a b e h = rw (on_left_odd fn sn a e, strip_odd fn fn sn a e) (ground arith)

pub climb_edge : (fn a t : ℕ) → fn ≡ (2 * a + 1) * 2 ^ t → climb fn fn ≡ (a, a)
unfolding climb
climb_edge fn a t e =
    let fits : t ≤ fn = grind (arith, lt-two_pow t) in
    rw (on_left_edge fn, strip_pow t fn fn a e fits) (ground arith)

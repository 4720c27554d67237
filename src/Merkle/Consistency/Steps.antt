-- ===== src/Merkle/Consistency/Steps.antt =====
-- One round of the verifier's loop, the start of it, and one level of `subproof`
-- (go-key-service/internal/merkle/consistency.go).
use crypto_agent.Prelude.{
  ℕ, zero, suc, ◌+◌, ◌-◌, ◌*◌, ◌/◌, ◌%◌, ◌^◌, ◌≤◌, ◌<◌, ◌≡◌, ◌≢◌, refl, ◌∙◌, Bool, true, false,
  arith, Option, none, some, List, [], ◌∷◌, ◌++◌, Bytes, length, take, drop, Result, err,
}
use crypto_agent.Prelude.Powers.{two_pow-suc, mul-two_pow-suc}
use crypto_agent.Merkle.Hash.{
  Sha256, Error, invalid_proof, largest_power_of_two_less_than, hash_children, mth,
}
use crypto_agent.Merkle.Inclusion.{join}
use crypto_agent.Merkle.Climb.{
  on_left_child, on_left_odd, on_left_edge, climb_left, climb_right, climb_edge,
}
use crypto_agent.Merkle.Consistency.{strip_ones, Roots, subproof_loop, fold_roots}

strip_ones_even : (fuel fn sn a : ℕ) → fn ≡ 2 * a → strip_ones fuel fn sn ≡ (fn, sn)
unfolding strip_ones
strip_ones_even zero fn sn a e = refl
strip_ones_even (suc fuel) fn sn a e = ground arith

strip_ones_step :
    (fuel fn sn : ℕ) → fn % 2 ≡ 1 → strip_ones (suc fuel) fn sn ≡ strip_ones fuel (fn / 2) (sn / 2)
unfolding strip_ones
strip_ones_step fuel fn sn e = ground arith

-- The last leaf of a full subtree of 2 ^ j leaves with an even number of them before it: the
-- counters lose their j low digits.
pub strip_ones_full :
    (j fuel fn sn a b s : ℕ)
    → fn + 1 ≡ 2 ^ j + 2 * a * 2 ^ j
    → sn ≡ s + b * 2 ^ j
    → s < 2 ^ j
    → j ≤ fuel
    → strip_ones fuel fn sn ≡ (2 * a, b)
strip_ones_full zero fuel fn sn a b s ef es hs hf =
    let fa : fn ≡ 2 * a = omega arith in
    let sb : sn ≡ b = omega arith in strip_ones_even fuel fn sn a fa ∙ cc (fa, sb)
strip_ones_full (suc j) zero fn sn a b s ef es hs hf = absurd (omega arith)
strip_ones_full (suc j) (suc fuel) fn sn a b s ef es hs hf =
    let double = two_pow-suc j in
    let wide = mul-two_pow-suc (2 * a) j in
    let high = mul-two_pow-suc b j in
    strip_ones_step fuel fn sn (omega arith)
    ∙ strip_ones_full j fuel (fn / 2) (sn / 2) a b (s / 2) (omega arith) (omega arith) (omega arith)
        (omega arith)

module _ ⦃sha : Sha256⦄ where
  abbrev pub roots : Bytes → Bytes → Roots
  roots f s = record { fr = f; sr = s }

  -- The loop from counters that are not stripped yet; the seed is given, or the proof's first node.
  unfoldable pub run_from : Option Bytes → ℕ → ℕ → List Bytes → Result Error Roots
  run_from (some c) fn sn work =
      fold_roots (roots c c) (strip_ones fn fn sn).0 (strip_ones fn fn sn).1 work
  run_from none fn sn [] = err invalid_proof
  run_from none fn sn (c ∷ work) =
      fold_roots (roots c c) (strip_ones fn fn sn).0 (strip_ones fn fn sn).1 work

  pub roots_left :
      (f r c : Bytes) (fn sn a b : ℕ) (work : List Bytes)
      → fn ≡ 2 * a
      → fn ≢ sn
      → sn / 2 ≡ b
      → sn ≢ 0
      → fold_roots (roots f r) fn sn (c ∷ work) ≡ fold_roots (roots f (hash_children r c)) a b work
  unfolding fold_roots join
  roots_left f r c fn sn a b work e ne hb pos =
      ground (arith, on_left_child fn sn a e ne, climb_left fn sn a b e ne hb)

  pub roots_right :
      (f r c : Bytes) (fn sn a b : ℕ) (work : List Bytes)
      → fn ≡ 2 * a + 1
      → sn / 2 ≡ b
      → sn ≢ 0
      → fold_roots (roots f r) fn sn (c ∷ work)
        ≡ fold_roots (roots (hash_children c f) (hash_children c r)) a b work
  unfolding fold_roots join
  roots_right f r c fn sn a b work e hb pos =
      ground (arith, on_left_odd fn sn a e, climb_right fn sn a b e hb)

  pub roots_edge :
      (f r c : Bytes) (fn a t : ℕ) (work : List Bytes)
      → fn ≡ (2 * a + 1) * 2 ^ t
      → fn ≢ 0
      → fold_roots (roots f r) fn fn (c ∷ work)
        ≡ fold_roots (roots (hash_children c f) (hash_children c r)) a a work
  unfolding fold_roots join
  roots_edge f r c fn a t work e pos = ground (arith, on_left_edge fn, climb_edge fn a t e)

  pub subproof_whole :
      (f m : ℕ) (leaves : List Bytes)
      → m ≡ length leaves
      → (subproof_loop (suc f) m leaves true ≡ some [])
        × (subproof_loop (suc f) m leaves false ≡ some (mth leaves ∷ []))
  unfolding subproof_loop
  subproof_whole f m leaves e = (ground arith, ground arith)

  module _ (f m k : ℕ) (leaves proof : List Bytes) (at_root : Bool) (two : 2 ≤ length leaves)
      (lt : m < length leaves) (e : k ≡ largest_power_of_two_less_than (length leaves)) where
    pub subproof_front :
        m ≤ k
        → subproof_loop f m (take k leaves) at_root ≡ some proof
        → subproof_loop (suc f) m leaves at_root ≡ some (proof ++ (mth (drop k leaves) ∷ []))
    unfolding subproof_loop
    subproof_front le found = ground (arith, e)

    pub subproof_behind :
        k < m
        → subproof_loop f (m - k) (drop k leaves) false ≡ some proof
        → subproof_loop (suc f) m leaves at_root ≡ some (proof ++ (mth (take k leaves) ∷ []))
    unfolding subproof_loop
    subproof_behind gt found = ground (arith, e)

  module _ (c : Bytes) (fn sn a b : ℕ) (work : List Bytes) (e : strip_ones fn fn sn ≡ (a, b)) where
    pub run_from_given : run_from (some c) fn sn work ≡ fold_roots (roots c c) a b work
    unfolding run_from
    run_from_given = rw e

    pub run_from_proved : run_from none fn sn (c ∷ work) ≡ fold_roots (roots c c) a b work
    unfolding run_from
    run_from_proved = rw e

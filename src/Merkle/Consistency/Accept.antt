-- ===== src/Merkle/Consistency/Accept.antt =====
-- `VerifyConsistency` accepts the proofs of `subproof`
-- (go-key-service/internal/merkle/consistency.go).
use mathlib.Core.List.{append-nil}
use crypto_agent.Prelude.{
  ℕ, suc, ◌-◌, ◌*◌, ◌^◌, ◌<◌, ◌≡◌, refl, ap, ◌∙◌, true, false, arith, inl, inr, Bool-cases, Option,
  none, some, List, [], ◌∷◌, Bytes, length, take, All, equal_refl, Result, ok, ◌>>=◌, if◌then◌else◌,
  ltb, ◌==◌,
}
use crypto_agent.Prelude.Powers.{lt-two_pow}
use crypto_agent.Prelude.Bits.{clear_lowest-two_pow, two_pow_of_clear_lowest}
use crypto_agent.Merkle.Hash.{Sha256, Error, mth}
use crypto_agent.Merkle.Consistency.{
  is_power_of_two, strip_ones, Roots, subproof, fold_roots, seed, compare_roots, verify_consistency,
}
use crypto_agent.Merkle.Consistency.Steps.{roots, run_from}
use crypto_agent.Merkle.Consistency.Complete.{Mode, given, proved, Shows-edge}

-- The bit trick decides whether a number is a power of two.
pub is_power_of_two→ : (n : ℕ) → is_power_of_two n ≡ true → (z : ℕ) × (n ≡ 2 ^ z)
unfolding is_power_of_two
is_power_of_two→ n e = two_pow_of_clear_lowest n n (omega arith) (ground arith) (ground arith)

pub is_power_of_two-two_pow : (z : ℕ) → is_power_of_two (2 ^ z) ≡ true
unfolding is_power_of_two
is_power_of_two-two_pow z = ground (arith, clear_lowest-two_pow z, lt-two_pow z)

abbrev pub seed_of : Bytes → ℕ → Option Bytes
seed_of old_root m = if is_power_of_two m then some old_root else none

Mode-seed_of : (m : ℕ) (front : Bytes) → Mode true m front (seed_of front m)
Mode-seed_of m front = elim (Bool-cases (is_power_of_two m)) [
  | inl full ↦ let (z, e) = is_power_of_two→ m full in given refl z e (rw full)
  | inr other ↦
      proved (rw other) (λ _ z e. cc (other, ap is_power_of_two e, is_power_of_two-two_pow z))
]

module _ ⦃sha : Sha256⦄ where
  abbrev pub finish : Bytes → Bytes → Result Error Roots → Result Error (Unit {0})
  finish old_root new_root r = r >>= compare_roots old_root new_root

  run-seed :
      (old_root new_root : Bytes) (m n : ℕ) (proof : List Bytes)
      → (seed old_root m proof >>= λ (c, work).
          fold_roots
            (roots c c)
            (strip_ones (m - 1) (m - 1) (n - 1)).0
            (strip_ones (m - 1) (m - 1) (n - 1)).1
            work
          >>= λ r. compare_roots old_root new_root r)
        ≡ finish old_root new_root (run_from (seed_of old_root m) (m - 1) (n - 1) proof)
  unfolding seed run_from
  run-seed old_root new_root m n [] = elim (Bool-cases (is_power_of_two m)) [
    | inl full ↦ rw full
    | inr other ↦ rw other
  ]
  run-seed old_root new_root m n (c ∷ work) = elim (Bool-cases (is_power_of_two m)) [
    | inl full ↦ rw full
    | inr other ↦ rw other
  ]

  -- Between a size of one and the new size, the verifier runs its loop from the seed.
  pub verify-run :
      (old_root new_root : Bytes) (m n : ℕ) (proof : List Bytes)
      → 0 < m
      → m < n
      → verify_consistency old_root new_root m n proof
        ≡ finish old_root new_root (run_from (seed_of old_root m) (m - 1) (n - 1) proof)
  unfolding verify_consistency
  verify-run old_root new_root m n proof pos lt =
      let up : ltb n m ≡ false = ground arith in
      let apart : (m == n) ≡ false = ground arith in
      let nonzero : (m == 0) ≡ false = ground arith in
      rw (up, apart, nonzero) (run-seed old_root new_root m n proof)

  accepts :
      (old_root new_root : Bytes)
      → compare_roots old_root new_root (roots old_root new_root) ≡ ok tt
  unfolding compare_roots
  accepts old_root new_root = ground (arith, equal_refl old_root, equal_refl new_root)

  -- For an old size between 0 and the number of leaves `subproof` returns a proof, and the verifier
  -- accepts it for the roots of the first leaves and of all.
  pub consistency_complete :
      (leaves : List Bytes) (m : ℕ)
      → 0 < m
      → m < length leaves
      → (proof : List Bytes) × (subproof m leaves true ≡ some proof)
        × All (λ (p : Bytes). length p ≡ 32) proof
        × (verify_consistency (mth (take m leaves)) (mth leaves) m (length leaves) proof ≡ ok tt)
  unfolding subproof
  consistency_complete leaves m pos lt =
      let n = length leaves in
      let old_root = mth (take m leaves) in
      let (t, shown) =
        Shows-edge (suc n) m leaves true (seed_of old_root m) (m - 1) (n - 1) 0 n
          (omega (arith, lt-two_pow n)) (omega arith) pos lt (Mode-seed_of m old_root) (omega arith)
          (omega arith) in
      let zero_end : 0 * 2 ^ t ≡ 0 = omega arith in
      let ends : run_from (seed_of old_root m) (m - 1) (n - 1) shown.proof
          ≡ fold_roots (roots old_root (mth leaves)) 0 0 [] =
        rw zero_end at (rw append-nil at (shown.runs [])) in
      let done : fold_roots (roots old_root (mth leaves)) 0 0 []
          ≡ ok (roots old_root (mth leaves)) =
        unfold fold_roots in refl in
      (
        shown.proof,
        shown.found,
        shown.sized,
        verify-run old_root (mth leaves) m n shown.proof pos lt
            ∙ ap (finish old_root (mth leaves)) (ends ∙ done)
            ∙ accepts old_root (mth leaves),
      )

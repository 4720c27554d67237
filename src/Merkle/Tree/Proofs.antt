-- ===== src/Merkle/Tree/Proofs.antt =====
-- The tree's proofs are accepted for the tree's roots, and never panic.
use crypto_agent.Prelude.{
  ℕ, ◌≤◌, ◌<◌, ◌≡◌, ap, ◌∙◌, arith, some, List, [], Bytes, length, take, get_elem?, get_elem?-take,
  length-take, take-take, equal_refl, ok,
}
use mathlib.Core.Path.{subst, subst₂}
use native.Mathlib.Decide.{ℕ_discrete}
use crypto_agent.Merkle.Hash.{Sha256, hash_leaf, mth}
use crypto_agent.Merkle.Inclusion.{verify_inclusion, verify_inclusion_from_hash}
use crypto_agent.Merkle.Inclusion.Complete.{inclusion_complete}
use crypto_agent.Merkle.Consistency.{verify_consistency}
use crypto_agent.Merkle.Consistency.Accept.{consistency_complete}
use crypto_agent.Merkle.Tree.{Tree, size, proof_at, proof_for_range}
use crypto_agent.Merkle.Inclusion.Binding.{length-hash_leaf}

module _ ⦃sha : Sha256⦄ where
  -- A payload whose leaf hash stands at an index below `n`, in a tree of at least `n` leaves, has a
  -- proof for size `n`, and the verifier accepts it under the root of the first `n` leaves.
  pub proof_at-accepted :
      (t : Tree) (payload : Bytes) (idx n : ℕ)
      → idx < n
      → n ≤ size t
      → get_elem? t.leaves idx ≡ some (hash_leaf payload)
      → (p : List Bytes) × (proof_at idx n t ≡ some (ok p))
        × (verify_inclusion payload idx n p (mth (take n t.leaves)) ≡ ok tt)
  unfolding proof_at verify_inclusion size
  proof_at-accepted t payload idx n lt le at =
      let wide : length (take n t.leaves) ≡ n = omega (arith, length-take n t.leaves) in
      let (p, found, accepted) =
        inclusion_complete (take n t.leaves) idx (hash_leaf payload) (omega arith)
          (get_elem?-take idx n t.leaves lt ∙ at) (length-hash_leaf payload) in
      (
        p,
        ground (arith, found),
        subst
            (λ k.
              verify_inclusion_from_hash (hash_leaf payload) idx k p (mth (take n t.leaves))
              ≡ ok tt)
            wide accepted,
      )

  verify-same : (r : Bytes) (n : ℕ) → verify_consistency r r n n [] ≡ ok tt
  unfolding verify_consistency
  verify-same r n = ground (arith, equal_refl r)

  verify-zero : (r s : Bytes) (n : ℕ) → 0 < n → verify_consistency r s 0 n [] ≡ ok tt
  unfolding verify_consistency
  verify-zero r s n pos = ground arith

  -- For all sizes `m ≤ n` of which the tree has leaves, the range proof exists, and the verifier
  -- accepts it for the roots of the first `m` and of the first `n` leaves.
  pub proof_for_range-accepted :
      (t : Tree) (m n : ℕ)
      → m ≤ n
      → n ≤ size t
      → (p : List Bytes) × (proof_for_range m n t ≡ some (ok p))
        × (verify_consistency (mth (take m t.leaves)) (mth (take n t.leaves)) m n p ≡ ok tt)
  unfolding proof_for_range size
  proof_for_range-accepted t m n le fits = elim (ℕ_discrete m n) [
    | yes same ↦ ([], ground arith, rw same (verify-same (mth (take n t.leaves)) n))
    | no apart ↦ elim (ℕ_discrete m 0) [
      | yes none_old ↦
          ([], ground arith, rw none_old (verify-zero _ (mth (take n t.leaves)) n (omega arith)))
      | no some_old ↦
          let wide : length (take n t.leaves) ≡ n = omega (arith, length-take n t.leaves) in
          let (p, found, _, accepted) =
            consistency_complete (take n t.leaves) m (omega arith) (omega arith) in
          let roots : mth (take m (take n t.leaves)) ≡ mth (take m t.leaves) =
            ap mth (take-take m n t.leaves le) in
          (
            p,
            ground (arith, found),
            subst₂ (λ r k. verify_consistency r (mth (take n t.leaves)) m k p ≡ ok tt) roots wide
                accepted,
          )
    ]
  ]

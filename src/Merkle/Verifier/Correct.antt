-- ===== src/Merkle/Verifier/Correct.antt =====
-- What a passing report means, and which roots pass
-- (go-key-service/internal/merkle/verifier.go).
use mathlib.Core.Path.{subst}
use native.Mathlib.Decide.{dec_lt, ℕ_discrete}
use crypto_agent.Prelude.{
  ℕ, ◌≤◌, ◌<◌, ◌≡◌, ◌≢◌, sym, ap, ◌∙◌, arith, true, false, ltb, ◌⊎◌, inl, inr, none, some, some-inj,
  List, [], Bytes, length, take, take-length, All, ok,
}
use crypto_agent.Merkle.Hash.{Sha256, Collision, mth}
use crypto_agent.Merkle.Consistency.{subproof, verify_consistency}
use crypto_agent.Merkle.Consistency.Accept.{consistency_complete}
use crypto_agent.Merkle.Consistency.Binding.{consistency_sound}
use crypto_agent.Merkle.Tree.{Tree, size, root, proof_for_range}
use crypto_agent.Merkle.Tree.Proofs.{proof_for_range-accepted}
use crypto_agent.Merkle.Verifier.{
  consistent, VerificationReport, report, judge, verify_historical_root,
}

module _ ⦃sha : Sha256⦄ where
  -- The report of a passing check.
  abbrev pub passing : Bytes → ℕ → Tree → VerificationReport
  passing old_root old_size t = record (report old_root old_size (size t) (root t)) {
    is_ok = true;
    message = consistent;
  }

  judged :
      (old_root : Bytes) (n : ℕ) (t : Tree) (p : List Bytes)
      → n ≤ size t
      → proof_for_range n (size t) t ≡ some (ok p)
      → verify_historical_root old_root n t ≡ some (judge old_root n (size t) (root t) (ok p))
  unfolding verify_historical_root
  judged old_root n t p le e = let far : ltb (size t) n ≡ false = ground arith in rw (far, e)

  judge-ok :
      (old_root : Bytes) (n : ℕ) (t : Tree) (p : List Bytes)
      → verify_consistency old_root (root t) n (size t) p ≡ ok tt
      → judge old_root n (size t) (root t) (ok p) ≡ (passing old_root n t, none)
  unfolding judge
  judge-ok old_root n t p e = rw (e, judge)

  judge-ok_inv :
      (old_root : Bytes) (n : ℕ) (t : Tree) (p : List Bytes) (r : VerificationReport)
      → judge old_root n (size t) (root t) (ok p) ≡ (r, none)
      → verify_consistency old_root (root t) n (size t) p ≡ ok tt
  unfolding judge
  judge-ok_inv old_root n t p r e = ground arith

  -- The proof that the verifier asks the tree for: its nodes have 32 bytes each.
  range-sized :
      (t : Tree) (n : ℕ)
      → 0 < n
      → n ≤ size t
      → (p : List Bytes) × (proof_for_range n (size t) t ≡ some (ok p))
        × All (λ (x : Bytes). length x ≡ 32) p
  unfolding size proof_for_range
  range-sized t n pos le = elim (ℕ_discrete n (size t)) [
    | yes same ↦ ([], ground arith, tt)
    | no apart ↦
        let (p, found, sized, _) = consistency_complete t.leaves n pos (omega arith) in
        let whole : take (size t) t.leaves ≡ t.leaves =
          take-length (size t) t.leaves (omega arith) in
        let found' : subproof n (take (size t) t.leaves) true ≡ some p =
          ap (λ l. subproof n l true) whole ∙ found in
        (p, ground (arith, found'), sized)
  ]

  regression :
      (old_root : Bytes) (n : ℕ) (t : Tree) (r : VerificationReport)
      → size t < n
      → verify_historical_root old_root n t ≢ some (r, none)
  unfolding verify_historical_root
  regression old_root n t r gt e = ground arith

  -- A 32-byte root that passes for a size above 0 is the root of so many first leaves, and the tree
  -- has that many; or a collision of SHA-256 is at hand.
  pub historical_root_sound :
      (t : Tree) (old_root : Bytes) (n : ℕ) (r : VerificationReport)
      → 0 < n
      → length old_root ≡ 32
      → verify_historical_root old_root n t ≡ some (r, none)
      → ((n ≤ size t) × (old_root ≡ mth (take n t.leaves))) ⊎ Collision sha
  unfolding size root
  historical_root_sound t old_root n r pos h e = elim (dec_lt (size t) n) [
    | yes gt ↦ absurd (regression old_root n t r gt e)
    | no le ↦
        let (p, found, sized) = range-sized t n pos (omega arith) in
        let judgement : judge old_root n (size t) (root t) (ok p) ≡ (r, none) =
          some-inj (sym (judged old_root n t p (omega arith) found) ∙ e) in
        elim (consistency_sound t.leaves old_root n p pos h sized
          (judge-ok_inv old_root n t p r judgement)) [
            | inl same ↦ inl (omega arith, same)
            | inr c ↦ inr c
          ]
  ]

  zero_range : (t : Tree) → proof_for_range 0 (size t) t ≡ some (ok [])
  unfolding proof_for_range size
  zero_range t = ground arith

  zero-ok : (r s : Bytes) (n : ℕ) → 0 < n → verify_consistency r s 0 n [] ≡ ok tt
  unfolding verify_consistency
  zero-ok r s n pos = ground arith

  -- At size 0 any root passes against a tree that has leaves, whatever the hash of no leaves is.
  pub historical_root-zero :
      (t : Tree) (old_root : Bytes)
      → 0 < size t
      → verify_historical_root old_root 0 t ≡ some (passing old_root 0 t, none)
  historical_root-zero t old_root pos =
      judged old_root 0 t [] (omega arith) (zero_range t)
      ∙ ap some (judge-ok old_root 0 t [] (zero-ok old_root (root t) (size t) pos))

  -- Every root that the tree had at some size passes.
  pub historical_root-passes :
      (t : Tree) (n : ℕ)
      → n ≤ size t
      → verify_historical_root (mth (take n t.leaves)) n t
        ≡ some (passing (mth (take n t.leaves)) n t, none)
  unfolding size root
  historical_root-passes t n le =
      let (p, found, accepted) = proof_for_range-accepted t n (size t) le (omega arith) in
      let whole : take (size t) t.leaves ≡ t.leaves = take-length (size t) t.leaves (omega arith) in
      let accepted' =
        subst (λ l. verify_consistency (mth (take n t.leaves)) (mth l) n (size t) p ≡ ok tt) whole
          accepted in
      judged (mth (take n t.leaves)) n t p le found
      ∙ ap some (judge-ok (mth (take n t.leaves)) n t p accepted')

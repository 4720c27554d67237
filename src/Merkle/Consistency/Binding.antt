-- ===== src/Merkle/Consistency/Binding.antt =====
-- An accepted consistency proof binds the old root, if its nodes and the root have 32 bytes
-- (go-key-service/internal/merkle/consistency.go).
use native.Mathlib.Decide.{dec_lt}
use crypto_agent.Prelude.{
  ℕ, ◌-◌, ◌<◌, ◌≡◌, ◌≢◌, refl, sym, ap, ◌∙◌, Bool, true, arith, ◌⊎◌, inl, inr, Bool-cases, none,
  some, List, [], ◌∷◌, Bytes, length, take, All, equal, equal→eq, take-length, Result, ok, err,
  if◌then◌else◌,
}
use crypto_agent.Merkle.Hash.{Sha256, Collision, Error, hash_children, mth}
use crypto_agent.Merkle.TreeHash.{length-mth}
use crypto_agent.Merkle.Inclusion.{on_left, climb, join}
use crypto_agent.Merkle.Inclusion.Binding.{length-join, join-inj}
use crypto_agent.Merkle.Consistency.{
  Roots, is_power_of_two, strip_ones, fold_roots, compare_roots, verify_consistency,
}
use crypto_agent.Merkle.Consistency.Steps.{roots, run_from}
use crypto_agent.Merkle.Consistency.Accept.{seed_of, verify-run, finish, consistency_complete}

module _ ⦃sha : Sha256⦄ where
  abbrev IsHash : Bytes → Type 0
  IsHash p = length p ≡ 32

  -- what a round makes of both hashes
  abbrev next_roots : Bool → Bytes → Roots → Roots
  next_roots left c r = record {
    fr = if left then hash_children c r.fr else r.fr;
    sr = join left c r.sr;
  }

  fold_roots-nil_inv : (r z : Roots) (fn sn : ℕ) → fold_roots r fn sn [] ≡ ok z → (sn ≡ 0) × (r ≡ z)
  unfolding fold_roots
  fold_roots-nil_inv r z fn sn e = ground arith

  fold_roots-cons_inv :
      (r z : Roots) (fn sn : ℕ) (c : Bytes) (work : List Bytes)
      → fold_roots r fn sn (c ∷ work) ≡ ok z
      → (sn ≢ 0)
        × (fold_roots (next_roots (on_left fn sn) c r) (climb fn sn).0 (climb fn sn).1 work ≡ ok z)
  unfolding fold_roots
  fold_roots-cons_inv r z fn sn c work e = ground arith

  -- Two runs of the loop that end in one new root began with one, and on the same nodes.
  fold_roots_binding :
      (ps qs : List Bytes) (r u y z : Roots) (fn sn : ℕ)
      → All IsHash ps
      → All IsHash qs
      → IsHash r.sr
      → IsHash u.sr
      → fold_roots r fn sn ps ≡ ok y
      → fold_roots u fn sn qs ≡ ok z
      → y.sr ≡ z.sr
      → ((r.sr ≡ u.sr) × (ps ≡ qs)) ⊎ Collision sha
  fold_roots_binding [] [] r u y z fn sn hps hqs hr hu e d same =
      let a = (fold_roots-nil_inv r y fn sn e).1 in
      let b = (fold_roots-nil_inv u z fn sn d).1 in
      inl (ap (λ (t : Roots). t.sr) a ∙ same ∙ sym (ap (λ (t : Roots). t.sr) b), refl)
  fold_roots_binding [] (q ∷ qs) r u y z fn sn hps hqs hr hu e d same =
      absurd ((fold_roots-cons_inv u z fn sn q qs d).0 (fold_roots-nil_inv r y fn sn e).0)
  fold_roots_binding (p ∷ ps) [] r u y z fn sn hps hqs hr hu e d same =
      absurd ((fold_roots-cons_inv r y fn sn p ps e).0 (fold_roots-nil_inv u z fn sn d).0)
  fold_roots_binding (p ∷ ps) (q ∷ qs) r u y z fn sn hps hqs hr hu e d same =
      let b = on_left fn sn in
      elim (fold_roots_binding ps qs (next_roots b p r) (next_roots b q u) y z (climb fn sn).0
        (climb fn sn).1 hps.1 hqs.1 (length-join b p r.sr) (length-join b q u.sr)
        (fold_roots-cons_inv r y fn sn p ps e).1 (fold_roots-cons_inv u z fn sn q qs d).1 same) [
          | inl (joined, rest) ↦ elim (join-inj b p q r.sr u.sr hps.0 hqs.0 hr hu joined) [
            | inl (ep, er) ↦ inl (er, cc (ep, rest))
            | inr c ↦ inr c
          ]
          | inr c ↦ inr c
        ]

  finish_inv :
      (old_root new_root : Bytes) (v : Result Error Roots)
      → finish old_root new_root v ≡ ok tt
      → v ≡ ok (roots old_root new_root)
  unfolding compare_roots
  finish_inv old_root new_root (ok r) e =
      let a : equal r.fr old_root ≡ true = ground arith in
      let b : equal r.sr new_root ≡ true = ground arith in
      ground (arith, equal→eq r.fr old_root a, equal→eq r.sr new_root b)
  finish_inv old_root new_root (err x) e = absurd (cc)

  equal_sizes :
      (old new : Bytes) (m n : ℕ) (proof : List Bytes)
      → ¬ (m < n)
      → verify_consistency old new m n proof ≡ ok tt
      → old ≡ new
  unfolding verify_consistency
  equal_sizes old new m n proof far e =
      let same : equal old new ≡ true = ground arith in equal→eq old new same

  given_binding :
      (a b : Bytes) (y z : Roots) (fn sn : ℕ) (ps qs : List Bytes)
      → IsHash a
      → IsHash b
      → All IsHash ps
      → All IsHash qs
      → run_from (some a) fn sn ps ≡ ok y
      → run_from (some b) fn sn qs ≡ ok z
      → y.sr ≡ z.sr
      → (a ≡ b) ⊎ Collision sha
  unfolding run_from
  given_binding a b y z fn sn ps qs ha hb hps hqs e d same =
      let (fn', sn') = strip_ones fn fn sn in
      elim (fold_roots_binding ps qs (roots a a) (roots b b) y z fn' sn' hps hqs ha hb e d same) [
        | inl (seeds, _) ↦ inl seeds
        | inr c ↦ inr c
      ]

  proved_binding :
      (y z : Roots) (fn sn : ℕ) (ps qs : List Bytes)
      → All IsHash ps
      → All IsHash qs
      → run_from none fn sn ps ≡ ok y
      → run_from none fn sn qs ≡ ok z
      → y.sr ≡ z.sr
      → (y ≡ z) ⊎ Collision sha
  unfolding run_from
  proved_binding y z fn sn [] qs hps hqs e d same = absurd (cc)
  proved_binding y z fn sn (p ∷ ps) [] hps hqs e d same = absurd (cc)
  proved_binding y z fn sn (p ∷ ps) (q ∷ qs) hps hqs e d same =
      let (fn', sn') = strip_ones fn fn sn in
      elim (fold_roots_binding ps qs (roots p p) (roots q q) y z fn' sn' hps.1 hqs.1 hps.0 hqs.0 e d
        same) [ inl (seeds, rest) ↦ inl (cc (seeds, rest, e, d)) | inr c ↦ inr c ]

  run_binding :
      (old old' new : Bytes) (m fn sn : ℕ) (ps qs : List Bytes)
      → IsHash old
      → IsHash old'
      → All IsHash ps
      → All IsHash qs
      → run_from (seed_of old m) fn sn ps ≡ ok (roots old new)
      → run_from (seed_of old' m) fn sn qs ≡ ok (roots old' new)
      → (old ≡ old') ⊎ Collision sha
  run_binding old old' new m fn sn ps qs h h' hps hqs e d = elim (Bool-cases (is_power_of_two m)) [
    | inl full ↦
        given_binding old old' (roots old new) (roots old' new) fn sn ps qs h h' hps hqs
          (rw full at e) (rw full at d) refl
    | inr other ↦
        elim (proved_binding (roots old new) (roots old' new) fn sn ps qs hps hqs (rw other at e)
          (rw other at d) refl) [ inl same ↦ inl (ap (λ (t : Roots). t.fr) same) | inr c ↦ inr c ]
  ]

  -- The two sizes and the new root leave room for one old root only: two accepted proofs of
  -- 32-byte nodes have the same one, or a collision of SHA-256 is at hand. The old size is not 0.
  pub verify_consistency_binding :
      (old old' new : Bytes) (m n : ℕ) (ps qs : List Bytes)
      → 0 < m
      → IsHash old
      → IsHash old'
      → All IsHash ps
      → All IsHash qs
      → verify_consistency old new m n ps ≡ ok tt
      → verify_consistency old' new m n qs ≡ ok tt
      → (old ≡ old') ⊎ Collision sha
  verify_consistency_binding old old' new m n ps qs pos h h' hps hqs e d = elim (dec_lt m n) [
    | yes lt ↦
        run_binding old old' new m (m - 1) (n - 1) ps qs h h' hps hqs
          (finish_inv old new _ (sym (verify-run old new m n ps pos lt) ∙ e))
          (finish_inv old' new _ (sym (verify-run old' new m n qs pos lt) ∙ d))
    | no far ↦ inl (equal_sizes old new m n ps far e ∙ sym (equal_sizes old' new m n qs far d))
  ]

  -- A 32-byte root that is accepted, with a proof of 32-byte nodes, as the root of an earlier size
  -- of these leaves is the root of so many first leaves; or a collision of SHA-256 is at hand. The
  -- old size is not 0.
  pub consistency_sound :
      (leaves : List Bytes) (old : Bytes) (m : ℕ) (proof : List Bytes)
      → 0 < m
      → IsHash old
      → All IsHash proof
      → verify_consistency old (mth leaves) m (length leaves) proof ≡ ok tt
      → (old ≡ mth (take m leaves)) ⊎ Collision sha
  consistency_sound leaves old m proof pos h hp e = elim (dec_lt m (length leaves)) [
    | yes lt ↦
        let (honest, _, sized, accepted) = consistency_complete leaves m pos lt in
        verify_consistency_binding old (mth (take m leaves)) (mth leaves) m (length leaves) proof
          honest pos h (length-mth (take m leaves)) hp sized e accepted
    | no far ↦
        let whole : mth (take m leaves) ≡ mth leaves =
          ap mth (take-length m leaves (omega arith)) in
        inl (equal_sizes old (mth leaves) m (length leaves) proof far e ∙ sym whole)
  ]

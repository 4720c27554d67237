-- ===== src/Merkle/Inclusion/Binding.antt =====
-- An accepted inclusion proof binds its leaf: two of them for one position under one root are for
-- one leaf, and are the same proof, or they show a collision of SHA-256
-- (go-key-service/internal/merkle/inclusion.go).
use crypto_agent.Prelude.{
  ℕ, ◌-◌, ◌<◌, ◌≡◌, ◌≢◌, refl, sym, ap, ◌∙◌, arith, Bool, true, false, ◌⊎◌, inl, inr, List, [], ◌∷◌,
  Bytes, length, get_elem?, some, equal, equal→eq, Result, ok, err, ◌>>=◌, if◌then◌else◌,
  Bool-cases,
}
use crypto_agent.Merkle.Hash.{Sha256, Collision, Error, root_mismatch, hash_leaf, mth}
use crypto_agent.Merkle.TreeHash.{length-hash_children, hash_children-inj, sum256-inj}
use crypto_agent.Merkle.Inclusion.{
  on_left, climb, join, fold_proof, verify_inclusion_from_hash, verify_inclusion,
}
use crypto_agent.Merkle.Inclusion.Complete.{inclusion_complete}

module _ ⦃sha : Sha256⦄ where
  pub length-join : (b : Bool) (p r : Bytes) → length (join b p r) ≡ 32
  unfolding join
  length-join true p r = length-hash_children p r
  length-join false p r = length-hash_children r p

  pub join-inj :
      (b : Bool) (p q r u : Bytes)
      → length p ≡ 32
      → length q ≡ 32
      → length r ≡ 32
      → length u ≡ 32
      → join b p r ≡ join b q u
      → ((p ≡ q) × (r ≡ u)) ⊎ Collision sha
  unfolding join
  join-inj true p q r u hp hq hr hu e = hash_children-inj p q r u (hp ∙ sym hq) e
  join-inj false p q r u hp hq hr hu e = elim (hash_children-inj r u p q (hr ∙ sym hu) e) [
    | inl (er, ep) ↦ inl (ep, er)
    | inr c ↦ inr c
  ]

  fold-nil_inv :
      (r : Bytes) (fn sn : ℕ) (z : Bytes) → fold_proof r fn sn [] ≡ ok z → (sn ≡ 0) × (r ≡ z)
  unfolding fold_proof
  fold-nil_inv r fn sn z e = ground arith

  fold-cons_inv :
      (r : Bytes) (fn sn : ℕ) (p : Bytes) (ps : List Bytes) (z : Bytes)
      → fold_proof r fn sn (p ∷ ps) ≡ ok z
      → (length p ≡ 32)
        × (sn ≢ 0)
        × (fold_proof (join (on_left fn sn) p r) (climb fn sn).0 (climb fn sn).1 ps ≡ ok z)
  unfolding fold_proof
  fold-cons_inv r fn sn p ps z e = ground arith

  fold_binding :
      (ps qs : List Bytes) (r u : Bytes) (fn sn : ℕ) (z : Bytes)
      → length r ≡ 32
      → length u ≡ 32
      → fold_proof r fn sn ps ≡ ok z
      → fold_proof u fn sn qs ≡ ok z
      → ((r ≡ u) × (ps ≡ qs)) ⊎ Collision sha
  fold_binding [] [] r u fn sn z hr hu e d =
      inl ((fold-nil_inv r fn sn z e).1 ∙ sym (fold-nil_inv u fn sn z d).1, refl)
  fold_binding [] (q ∷ qs) r u fn sn z hr hu e d =
      absurd ((fold-cons_inv u fn sn q qs z d).1 (fold-nil_inv r fn sn z e).0)
  fold_binding (p ∷ ps) [] r u fn sn z hr hu e d =
      absurd ((fold-cons_inv r fn sn p ps z e).1 (fold-nil_inv u fn sn z d).0)
  fold_binding (p ∷ ps) (q ∷ qs) r u fn sn z hr hu e d =
      let (hp, _, e') = fold-cons_inv r fn sn p ps z e in
      let (hq, _, d') = fold-cons_inv u fn sn q qs z d in
      let b = on_left fn sn in
      elim (fold_binding ps qs (join b p r) (join b q u) (climb fn sn).0 (climb fn sn).1 z
        (length-join b p r) (length-join b q u) e' d') [
          | inl (same, rest) ↦ elim (join-inj b p q r u hp hq hr hu same) [
            | inl (ep, er) ↦ inl (er, cc (ep, rest))
            | inr c ↦ inr c
          ]
          | inr c ↦ inr c
        ]

  compare_inv :
      (v : Result Error Bytes) (root : Bytes)
      → (v >>= λ r. if equal r root then ok (tt {0}) else err root_mismatch) ≡ ok tt
      → v ≡ ok root
  compare_inv (ok r) root e = elim (Bool-cases (equal r root)) [
    | inl same ↦ ap ok (equal→eq r root same)
    | inr other ↦ absurd (cc (rw other at e))
  ]
  compare_inv (err x) root e = absurd (cc)

  verify_inv :
      (x : Bytes) (idx size : ℕ) (proof : List Bytes) (root : Bytes)
      → verify_inclusion_from_hash x idx size proof root ≡ ok tt
      → (idx < size) × (fold_proof x idx (size - 1) proof ≡ ok root)
  unfolding verify_inclusion_from_hash
  verify_inv x idx size proof root e =
      (ground arith, compare_inv (fold_proof x idx (size - 1) proof) root (ground arith))

  pub length-hash_leaf : (a : Bytes) → length (hash_leaf a) ≡ 32
  unfolding hash_leaf
  length-hash_leaf a = sha.length-sum256 (0 ∷ a)

  pub hash_leaf-inj : (a b : Bytes) → hash_leaf a ≡ hash_leaf b → (a ≡ b) ⊎ Collision sha
  unfolding hash_leaf
  hash_leaf-inj a b e = elim (sum256-inj (0 ∷ a) (0 ∷ b) e) [ inl same ↦ inl (cc) | inr c ↦ inr c ]

  -- Two leaf payloads that are accepted at one index, for one size and one root, are equal, and
  -- so are their proofs; or a collision of SHA-256 is at hand.
  pub verify_inclusion_binding :
      (a b : Bytes) (idx size : ℕ) (ps qs : List Bytes) (root : Bytes)
      → verify_inclusion a idx size ps root ≡ ok tt
      → verify_inclusion b idx size qs root ≡ ok tt
      → ((a ≡ b) × (ps ≡ qs)) ⊎ Collision sha
  unfolding verify_inclusion
  verify_inclusion_binding a b idx size ps qs root e d =
      elim (fold_binding ps qs (hash_leaf a) (hash_leaf b) idx (size - 1) root (length-hash_leaf a)
        (length-hash_leaf b) (verify_inv _ idx size ps root e).1
        (verify_inv _ idx size qs root d).1) [
          | inl (same, proofs) ↦ elim (hash_leaf-inj a b same) [
            | inl eq ↦ inl (eq, proofs)
            | inr c ↦ inr c
          ]
          | inr c ↦ inr c
        ]

  -- A leaf hash of 32 bytes that is accepted under the root of a list of leaves is the leaf at its
  -- index, if that one has 32 bytes; or a collision of SHA-256 is at hand.
  pub inclusion_sound :
      (leaves : List Bytes) (x y : Bytes) (idx : ℕ) (proof : List Bytes)
      → get_elem? leaves idx ≡ some y
      → length x ≡ 32
      → length y ≡ 32
      → verify_inclusion_from_hash x idx (length leaves) proof (mth leaves) ≡ ok tt
      → (x ≡ y) ⊎ Collision sha
  inclusion_sound leaves x y idx proof at hx hy e =
      let size = length leaves in
      let (lt, run) = verify_inv x idx size proof (mth leaves) e in
      let (honest, _, accepted) = inclusion_complete leaves idx y lt at hy in
      let run' = (verify_inv y idx size honest (mth leaves) accepted).1 in
      elim (fold_binding proof honest x y idx (size - 1) (mth leaves) hx hy run run') [
        | inl (same, _) ↦ inl same
        | inr c ↦ inr c
      ]

  pub inclusion_index :
      (x : Bytes) (idx size : ℕ) (proof : List Bytes) (root : Bytes)
      → verify_inclusion_from_hash x idx size proof root ≡ ok tt
      → idx < size
  inclusion_index x idx size proof root e = (verify_inv x idx size proof root e).0

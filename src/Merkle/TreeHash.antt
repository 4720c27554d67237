-- ===== src/Merkle/TreeHash.antt =====
-- Equations of `mth` (go-key-service/internal/merkle/tree.go), without its fuel, and what a
-- coincidence of two node hashes means.
use crypto_agent.Prelude.{
  ℕ, zero, suc, ◌≤◌, ◌≡◌, refl, ◌∙◌, arith, List, [], ◌∷◌, ◌++◌, Bytes, length, take, drop,
  replicate, length-append, length-take, length-replicate, take-append, take-length, append_inj,
  equal, equal_iff, Bool-cases, inl, inr, ◌⊎◌,
}
use mathlib.Core.Path.{ap₂}
use crypto_agent.Merkle.Hash.{
  Sha256, Collision, copy_hash, largest_power_of_two_less_than, hash_children, mth_loop, mth,
}
use crypto_agent.Merkle.Shape.{split, halves}

pub length-copy_hash : (b : Bytes) → length (copy_hash b) ≡ 32
unfolding copy_hash
length-copy_hash b =
    length-take 32 (b ++ replicate 32 0)
    ∙ omega (arith, length-append b (replicate 32 0), length-replicate {A = ℕ} 32 0)

pub copy_hash_id : (b : Bytes) → length b ≡ 32 → copy_hash b ≡ b
unfolding copy_hash
copy_hash_id b h = take-append 32 b (replicate 32 0) (omega arith) ∙ take-length 32 b (omega arith)

module _ ⦃sha : Sha256⦄ where
  mth_loop_fuel :
      (f g : ℕ) (leaves : List Bytes)
      → length leaves ≤ f
      → length leaves ≤ g
      → mth_loop f leaves ≡ mth_loop g leaves
  unfolding mth_loop
  mth_loop_fuel zero zero leaves p q = refl
  mth_loop_fuel zero (suc g) [] p q = refl
  mth_loop_fuel zero (suc g) (x ∷ xs) p q = absurd (omega arith)
  mth_loop_fuel (suc f) zero [] p q = refl
  mth_loop_fuel (suc f) zero (x ∷ xs) p q = absurd (omega arith)
  mth_loop_fuel (suc f) (suc g) [] p q = refl
  mth_loop_fuel (suc f) (suc g) (x ∷ []) p q = refl
  mth_loop_fuel (suc f) (suc g) (x ∷ y ∷ rest) p q =
      let leaves : List Bytes = x ∷ y ∷ rest in
      let k = largest_power_of_two_less_than (length leaves) in
      let s = split (length leaves) (omega arith) in
      let h = halves leaves k (omega (arith, s.below)) in
      ap₂ hash_children
        (mth_loop_fuel f g (take k leaves) (omega (arith, s.below, h.front))
          (omega (arith, s.below, h.front)))
        (mth_loop_fuel f g (drop k leaves) (omega (arith, s.pos, h.back))
          (omega (arith, s.pos, h.back)))

  -- The recursion of RFC 6962 for two leaves or more.
  pub mth-split :
      (leaves : List Bytes) (k : ℕ)
      → 2 ≤ length leaves
      → k ≡ largest_power_of_two_less_than (length leaves)
      → mth leaves ≡ hash_children (mth (take k leaves)) (mth (drop k leaves))
  unfolding mth
  mth-split [] k two e = absurd (omega arith)
  mth-split (x ∷ []) k two e = absurd (omega arith)
  mth-split (x ∷ y ∷ rest) k two e =
      let leaves : List Bytes = x ∷ y ∷ rest in
      let s = split (length leaves) (omega arith) in
      let h = halves leaves k (omega (arith, s.below)) in
      let f = suc (length rest) in
      rw (← e) (
        ap₂ hash_children
          (mth_loop_fuel f _ (take k leaves) (omega (arith, s.below, h.front)) (omega arith))
          (mth_loop_fuel f _ (drop k leaves) (omega (arith, s.pos, h.back)) (omega arith)))

  pub mth-one : (x : Bytes) → mth (x ∷ []) ≡ copy_hash x
  unfolding mth
  mth-one x = refl

  pub length-hash_children : (l r : Bytes) → length (hash_children l r) ≡ 32
  unfolding hash_children
  length-hash_children l r = sha.length-sum256 (1 ∷ (l ++ r))

  pub length-mth : (leaves : List Bytes) → length (mth leaves) ≡ 32
  unfolding mth
  length-mth [] = sha.length-sum256 []
  length-mth (x ∷ []) = length-copy_hash x
  length-mth (x ∷ y ∷ rest) = unfold hash_children in sha.length-sum256 _

  -- Inputs with one hash are equal, or they are a collision.
  pub sum256-inj : (a b : Bytes) → sha.sum256 a ≡ sha.sum256 b → (a ≡ b) ⊎ Collision sha
  sum256-inj a b h = elim (Bool-cases (equal a b)) [
    | inl same ↦ inl ((equal_iff a b).0 same)
    | inr other ↦
        inr (record { left = a; right = b; differ = λ e. cc ((equal_iff a b).1 e); collide = h })
  ]

  -- Nodes with one hash, whose left children have one length, have the same children.
  pub hash_children-inj :
      (l l' r r' : Bytes)
      → length l ≡ length l'
      → hash_children l r ≡ hash_children l' r'
      → ((l ≡ l') × (r ≡ r')) ⊎ Collision sha
  unfolding hash_children
  hash_children-inj l l' r r' h e = elim (sum256-inj (1 ∷ (l ++ r)) (1 ∷ (l' ++ r')) e) [
    | inl same ↦ inl (append_inj l l' r r' h (cc))
    | inr c ↦ inr c
  ]

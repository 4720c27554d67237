-- ===== src/Merkle/Inclusion/Steps.antt =====
-- One round of the verifier's loop, and one level of `path`.
use crypto_agent.Prelude.{
  ℕ, suc, ◌+◌, ◌-◌, ◌*◌, ◌/◌, ◌^◌, ◌≤◌, ◌<◌, ◌≡◌, ◌≢◌, ◌∙◌, arith, some, List, [], ◌∷◌, ◌++◌, Bytes,
  length, take, drop,
}
use crypto_agent.Merkle.Hash.{Sha256, largest_power_of_two_less_than, hash_children, mth}
use crypto_agent.Merkle.Inclusion.{on_left, climb, path_loop, join, fold_proof}
use crypto_agent.Merkle.Climb.{
  on_left_child, on_left_odd, on_left_edge, climb_left, climb_right, climb_edge,
}

module _ ⦃sha : Sha256⦄ where
  fold_step :
      (r p : Bytes) (fn sn : ℕ) (ps : List Bytes)
      → length p ≡ 32
      → sn ≢ 0
      → fold_proof r fn sn (p ∷ ps)
        ≡ fold_proof (join (on_left fn sn) p r) (climb fn sn).0 (climb fn sn).1 ps
  unfolding fold_proof
  fold_step r p fn sn ps h ne = ground arith

  pub fold_left :
      (r p : Bytes) (fn sn a b : ℕ) (ps : List Bytes)
      → length p ≡ 32
      → fn ≡ 2 * a
      → fn ≢ sn
      → sn / 2 ≡ b
      → sn ≢ 0
      → fold_proof r fn sn (p ∷ ps) ≡ fold_proof (hash_children r p) a b ps
  unfolding join
  fold_left r p fn sn a b ps h e ne hb pos =
      fold_step r p fn sn ps h pos ∙ rw (on_left_child fn sn a e ne, climb_left fn sn a b e ne hb)

  pub fold_right :
      (r p : Bytes) (fn sn a b : ℕ) (ps : List Bytes)
      → length p ≡ 32
      → fn ≡ 2 * a + 1
      → sn / 2 ≡ b
      → sn ≢ 0
      → fold_proof r fn sn (p ∷ ps) ≡ fold_proof (hash_children p r) a b ps
  unfolding join
  fold_right r p fn sn a b ps h e hb pos =
      fold_step r p fn sn ps h pos ∙ rw (on_left_odd fn sn a e, climb_right fn sn a b e hb)

  pub fold_edge :
      (r p : Bytes) (fn a t : ℕ) (ps : List Bytes)
      → length p ≡ 32
      → fn ≡ (2 * a + 1) * 2 ^ t
      → fn ≢ 0
      → fold_proof r fn fn (p ∷ ps) ≡ fold_proof (hash_children p r) a a ps
  unfolding join
  fold_edge r p fn a t ps h e pos =
      fold_step r p fn fn ps h pos ∙ rw (on_left_edge fn, climb_edge fn a t e)

  pub path_one :
      (f m : ℕ) (leaves : List Bytes) → length leaves ≡ 1 → path_loop (suc f) m leaves ≡ some []
  unfolding path_loop
  path_one f m leaves h = ground arith

  module _ (f m k : ℕ) (leaves proof : List Bytes) (two : 2 ≤ length leaves)
      (e : k ≡ largest_power_of_two_less_than (length leaves)) where
    pub path_front :
        m < k
        → path_loop f m (take k leaves) ≡ some proof
        → path_loop (suc f) m leaves ≡ some (proof ++ (mth (drop k leaves) ∷ []))
    unfolding path_loop
    path_front lt found = ground (arith, e)

    pub path_behind :
        k ≤ m
        → path_loop f (m - k) (drop k leaves) ≡ some proof
        → path_loop (suc f) m leaves ≡ some (proof ++ (mth (take k leaves) ∷ []))
    unfolding path_loop
    path_behind le found = ground (arith, e)

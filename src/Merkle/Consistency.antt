-- ===== src/Merkle/Consistency.antt =====
-- go-key-service/internal/merkle/consistency.go: consistency proofs and their verification.
-- The counters move as in inclusion.go (`climb`).
pub mod Steps
pub mod Complete
pub mod Accept
pub mod Binding
use mathlib.Core.Option
use crypto_agent.Prelude.{
  ℕ, zero, suc, ◌-◌, ◌/◌, ◌%◌, Bool, true, false, not, ◌&&◌, Option, none, some, List, [], ◌∷◌,
  ◌++◌, Bytes, length, take, drop, ltb, leb, ◌==◌, if◌then◌else◌, bit_and, equal, Result, ok, err,
  ◌>>=◌,
}
use crypto_agent.Merkle.Hash.{
  Sha256, Error, size_regression, root_mismatch, invalid_proof, largest_power_of_two_less_than,
  hash_children, mth,
}
use crypto_agent.Merkle.Inclusion.{on_left, climb, join}

unfoldable pub is_power_of_two : ℕ → Bool
is_power_of_two n = ltb 0 n && bit_and n (n - 1) == 0

-- `for fn&1 == 1 { fn >>= 1; sn >>= 1 }`, with `fuel` rounds at most; `fn` rounds are enough
unfoldable pub strip_ones : ℕ → ℕ → ℕ → ℕ × ℕ
strip_ones zero fn sn = (fn, sn)
strip_ones (suc fuel) fn sn = elim (fn % 2 == 1) [
  | true ↦ strip_ones fuel (fn / 2) (sn / 2)
  | false ↦ (fn, sn)
]

-- The two hashes that the loop carries: of the old tree and of the new one.
pub record Roots : Type 0 where
  pub fr : Bytes
  pub sr : Bytes

module _ ⦃sha : Sha256⦄ where
  -- `subproof`, with `fuel` levels of recursion at most; `none` where the code panics
  unfoldable pub subproof_loop : ℕ → ℕ → List Bytes → Bool → Option (List Bytes)
  subproof_loop zero m leaves at_root = none
  subproof_loop (suc fuel) m leaves at_root =
      let n = length leaves in
      let k = largest_power_of_two_less_than n in
      let in_front =
        Option.map (λ (p : List Bytes). p ++ (mth (drop k leaves) ∷ []))
          (subproof_loop fuel m (take k leaves) at_root) in
      let behind =
        Option.map (λ (p : List Bytes). p ++ (mth (take k leaves) ∷ []))
          (subproof_loop fuel (m - k) (drop k leaves) false) in
      if m == n
      then (if at_root then some [] else some (mth leaves ∷ []))
      else if ltb n 2
      then none
      else if leb m k
      then in_front
      else behind

  unfoldable pub subproof : ℕ → List Bytes → Bool → Option (List Bytes)
  unfolding subproof_loop
  subproof m leaves at_root = subproof_loop (suc (length leaves)) m leaves at_root

  -- the loop over the rest of the proof: `for sn > 0`
  unfoldable pub fold_roots : Roots → ℕ → ℕ → List Bytes → Result Error Roots
  fold_roots r fn sn [] = if ltb 0 sn then err invalid_proof else ok r
  fold_roots r fn sn (c ∷ work) =
      let left = on_left fn sn in
      let r' : Roots = record {
        fr = if left then hash_children c r.fr else r.fr;
        sr = join left c r.sr;
      } in
      let rest = fold_roots r' (climb fn sn).0 (climb fn sn).1 work in
      if ltb 0 sn then rest else err invalid_proof

  -- the first node: the old root if its tree is full, else the proof's first
  unfoldable pub seed : Bytes → ℕ → List Bytes → Result Error (Bytes × List Bytes)
  seed old_root old_size proof =
      if is_power_of_two old_size
      then ok (old_root, proof)
      else elim proof [ [] ↦ err invalid_proof | c ∷ work ↦ ok (c, work) ]

  -- both comparisons at the end
  unfoldable pub compare_roots : Bytes → Bytes → Roots → Result Error (Unit {0})
  compare_roots old_root new_root r =
      if not (equal r.fr old_root)
      then err root_mismatch
      else if not (equal r.sr new_root)
      then err root_mismatch
      else ok tt

  unfoldable pub verify_consistency : Bytes → Bytes → ℕ → ℕ → List Bytes → Result Error (Unit {0})
  unfolding strip_ones seed compare_roots
  verify_consistency old_root new_root old_size new_size proof =
      let start = strip_ones (old_size - 1) (old_size - 1) (new_size - 1) in
      let general : Result Error (Unit {0}) =
        (seed old_root old_size proof >>= λ (c, work).
        fold_roots (record { fr = c; sr = c }) start.0 start.1 work >>= λ r.
        compare_roots old_root new_root r) in
      if ltb new_size old_size
      then err size_regression
      else if old_size == new_size
      then (if not (equal old_root new_root)
          then err root_mismatch
          else if not (length proof == 0)
          then err invalid_proof
          else ok tt)
      else if old_size == 0
      then (if not (length proof == 0) then err invalid_proof else ok tt)
      else general

-- ===== src/Merkle/Inclusion.antt =====
-- go-key-service/internal/merkle/inclusion.go: inclusion proofs and their verification.
-- `fn & 1` is `fn % 2` and `fn >> 1` is `fn / 2`; indices and sizes are below 2 ^ 64, and nothing
-- here makes them grow.
pub mod Steps
pub mod Complete
pub mod Binding
use mathlib.Core.Option
use crypto_agent.Prelude.{
  ℕ, zero, suc, ◌-◌, ◌/◌, ◌%◌, Bool, true, false, not, ◌&&◌, ◌||◌, Option, none, some, List, [],
  ◌∷◌, ◌++◌, Bytes, length, take, drop, ltb, leb, ◌==◌, if◌then◌else◌, equal, Result, ok, err,
  ◌>>=◌,
}
use crypto_agent.Merkle.Hash.{
  Sha256, Error, root_mismatch, invalid_proof, hash_size, largest_power_of_two_less_than, hash_leaf,
  hash_children, mth,
}

-- `for fn&1 == 0 && fn != 0 { fn >>= 1; sn >>= 1 }`, with `fuel` rounds at most
unfoldable pub strip_even : ℕ → ℕ → ℕ → ℕ × ℕ
strip_even zero fn sn = (fn, sn)
strip_even (suc fuel) fn sn = elim (fn % 2 == 0 && not (fn == 0)) [
  | true ↦ strip_even fuel (fn / 2) (sn / 2)
  | false ↦ (fn, sn)
]

-- The test that puts the proof's node on the left.
unfoldable pub on_left : ℕ → ℕ → Bool
on_left fn sn = fn % 2 == 1 || fn == sn

-- How one round moves `fn` and `sn`, in both verifiers. `fn` halves at each step of the inner
-- loop, so `fn` rounds are enough.
unfoldable pub climb : ℕ → ℕ → ℕ × ℕ
unfolding on_left strip_even
climb fn sn =
    let (fn', sn') = if on_left fn sn then strip_even fn fn sn else (fn, sn) in (fn' / 2, sn' / 2)

module _ ⦃sha : Sha256⦄ where
  -- `path`, with `fuel` levels of recursion at most; `none` where the code panics
  unfoldable pub path_loop : ℕ → ℕ → List Bytes → Option (List Bytes)
  path_loop zero m leaves = none
  path_loop (suc fuel) m leaves =
      let n = length leaves in
      let k = largest_power_of_two_less_than n in
      let in_front =
        Option.map (λ (p : List Bytes). p ++ (mth (drop k leaves) ∷ []))
          (path_loop fuel m (take k leaves)) in
      let behind =
        Option.map (λ (p : List Bytes). p ++ (mth (take k leaves) ∷ []))
          (path_loop fuel (m - k) (drop k leaves)) in
      if n == 1 then some [] else if ltb n 2 then none else if ltb m k then in_front else behind

  unfoldable pub path : ℕ → List Bytes → Option (List Bytes)
  unfolding path_loop
  path m leaves = path_loop (length leaves) m leaves

  -- the two ways to put a proof's node `p` beside the hash so far
  unfoldable pub join : Bool → Bytes → Bytes → Bytes
  join true p r = hash_children p r
  join false p r = hash_children r p

  -- the loop over the proof
  unfoldable pub fold_proof : Bytes → ℕ → ℕ → List Bytes → Result Error Bytes
  fold_proof r fn sn [] = if not (sn == 0) then err invalid_proof else ok r
  fold_proof r fn sn (p ∷ ps) =
      let rest = fold_proof (join (on_left fn sn) p r) (climb fn sn).0 (climb fn sn).1 ps in
      if not (length p == hash_size) || sn == 0 then err invalid_proof else rest

  -- `verifyInclusionFromHash`
  unfoldable pub verify_inclusion_from_hash :
      Bytes → ℕ → ℕ → List Bytes → Bytes → Result Error (Unit {0})
  verify_inclusion_from_hash leaf_hash idx size proof root =
      if size == 0 || leb size idx || not (length root == hash_size) then err invalid_proof else do
        r ← fold_proof leaf_hash idx (size - 1) proof
        if equal r root then ok tt else err root_mismatch

  unfoldable pub verify_inclusion : Bytes → ℕ → ℕ → List Bytes → Bytes → Result Error (Unit {0})
  unfolding verify_inclusion_from_hash
  verify_inclusion payload idx size proof root =
      verify_inclusion_from_hash (hash_leaf payload) idx size proof root

  unfoldable pub verify_inclusion_hash :
      Bytes → ℕ → ℕ → List Bytes → Bytes → Result Error (Unit {0})
  unfolding verify_inclusion_from_hash
  verify_inclusion_hash leaf_hash idx size proof root =
      if not (length leaf_hash == hash_size)
      then err invalid_proof
      else verify_inclusion_from_hash leaf_hash idx size proof root

-- ===== src/Merkle/Hash.antt =====
-- go-key-service/internal/merkle/tree.go: leaf and node hashes, the tree hash, and the size of the
-- left subtree. SHA-256 is a parameter of the model: a function on byte strings whose results have
-- 32 bytes. No theorem assumes that it has no collisions; where one could matter, the conclusion
-- offers the collision.
use crypto_agent.Prelude.{
  ℕ, zero, suc, ◌*◌, ◌≡◌, ◌≢◌, true, false, List, [], ◌∷◌, ◌++◌, Bytes, length, take, drop,
  replicate, ltb,
}

pub record Sha256 : Type 0 where
  pub sum256 : Bytes → Bytes
  pub length-sum256 : (b : Bytes) → length (sum256 b) ≡ 32

-- The sentinel errors of the package (their wrapped text is left out), and the failures that have
-- no sentinel: a leaf hash of another size, a file whose size is no multiple of 32, and a write or
-- a flush that the operating system refuses.
pub data Error : Type 0 where
  size_regression root_mismatch invalid_proof closed : Error
  bad_leaf_size bad_file_size write_failed sync_failed : Error

abbrev pub hash_size : ℕ
hash_size = 32

-- Two inputs that differ and have one hash.
pub record Collision (sha : Sha256) : Type 0 where
  pub left : Bytes
  pub right : Bytes
  pub differ : left ≢ right
  pub collide : sha.sum256 left ≡ sha.sum256 right

-- `out := make([]byte, HashSize); copy(out, b)`: cut or padded with zeros to 32 bytes
unfoldable pub copy_hash : Bytes → Bytes
copy_hash b = take hash_size (b ++ replicate hash_size 0)

-- `for k<<1 < n { k <<= 1 }`, with `fuel` rounds at most
unfoldable pub grow : ℕ → ℕ → ℕ → ℕ
grow zero n k = k
grow (suc fuel) n k = elim (ltb (k * 2) n) [ true ↦ grow fuel n (k * 2) | false ↦ k ]

-- The code panics below 2. `mth` tests for that before the call, `path` and `subproof` do not:
-- their models have the panic as `none`.
unfoldable pub largest_power_of_two_less_than : ℕ → ℕ
unfolding grow
largest_power_of_two_less_than n = grow n n 1

module _ ⦃sha : Sha256⦄ where
  unfoldable pub hash_leaf : Bytes → Bytes
  hash_leaf payload = sha.sum256 (0 ∷ payload)

  unfoldable pub hash_children : Bytes → Bytes → Bytes
  hash_children left right = sha.sum256 (1 ∷ (left ++ right))

  -- `mth`, with `fuel` levels of recursion at most
  unfoldable pub mth_loop : ℕ → List Bytes → Bytes
  mth_loop zero leaves = sha.sum256 []
  mth_loop (suc fuel) [] = sha.sum256 []
  mth_loop (suc fuel) (x ∷ []) = copy_hash x
  mth_loop (suc fuel) (x ∷ y ∷ rest) =
      let k = largest_power_of_two_less_than (length (x ∷ y ∷ rest)) in
      hash_children (mth_loop fuel (take k (x ∷ y ∷ rest))) (mth_loop fuel (drop k (x ∷ y ∷ rest)))

  -- Both halves of a list of two or more are shorter, so its length is fuel enough.
  unfoldable pub mth : List Bytes → Bytes
  unfolding mth_loop
  mth leaves = mth_loop (length leaves) leaves

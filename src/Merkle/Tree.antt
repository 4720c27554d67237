-- ===== src/Merkle/Tree.antt =====
-- go-key-service/internal/merkle/tree.go and persistence.go, and the tree's methods in inclusion.go
-- and consistency.go. A method returns its result and the tree that it leaves behind. The lock
-- makes each method one step, so a program run is a sequence of these calls.
-- What the operating system does with a write is an argument of the calls that write.
pub mod Proofs
pub mod Durability
pub mod Growth
use crypto_agent.Prelude.{
  ℕ, zero, suc, ◌-◌, ◌/◌, ◌%◌, Bool, true, false, not, ◌||◌, Option, none, some, List, [], ◌∷◌,
  ◌++◌, Bytes, length, take, drop, ltb, leb, ◌==◌, if◌then◌else◌, Result, ok, err, ◌>>=◌,
}
use crypto_agent.Merkle.Hash.{
  Sha256, Error, size_regression, invalid_proof, closed, bad_leaf_size, bad_file_size, write_failed,
  sync_failed, hash_size, copy_hash, hash_leaf, mth,
}
use crypto_agent.Merkle.Inclusion.{path}
use crypto_agent.Merkle.Consistency.{subproof}

-- `file` is the contents of the backing file, if there is one.
pub record Tree : Type 0 where
  pub leaves : List Bytes
  pub file : Option Bytes
  pub is_closed : Bool

-- The fate of one write and flush: both succeed, the write fails behind some bytes, or the bytes are
-- written and the flush fails.
pub data WriteFate : Type 0 where
  durable : WriteFate
  torn : ℕ → WriteFate
  unsynced : WriteFate

abbrev pub new : Tree
new = record { leaves = []; file = none; is_closed = false }

-- `persistLocked`
unfoldable pub write_leaf : WriteFate → Bytes → Tree → Bytes → Result Error (Unit {0}) × Tree
write_leaf durable leaf_hash t f = (ok tt, record t { file = some (f ++ leaf_hash) })
write_leaf (torn n) leaf_hash t f =
    (err write_failed, record t { file = some (f ++ take n leaf_hash) })
write_leaf unsynced leaf_hash t f = (err sync_failed, record t { file = some (f ++ leaf_hash) })

unfoldable pub persist_locked : WriteFate → Bytes → Tree → Result Error (Unit {0}) × Tree
unfolding write_leaf
persist_locked fate leaf_hash t =
    if t.is_closed
    then (err closed, t)
    else elim t.file [ none ↦ (ok tt, t) | some f ↦ write_leaf fate leaf_hash t f ]

-- the part that `Append` and `AppendHashed` share: persist, then add the leaf
unfoldable pub add_leaf : Bytes → Result Error (Unit {0}) × Tree → Result Error ℕ × Tree
add_leaf leaf_hash (ok _, t) =
    let leaves = t.leaves ++ (leaf_hash ∷ []) in
    (ok (length leaves - 1), record t { leaves = leaves })
add_leaf leaf_hash (err e, t) = (err e, t)

unfoldable pub append_hashed : WriteFate → Bytes → Tree → Result Error ℕ × Tree
unfolding persist_locked add_leaf
append_hashed fate leaf_hash t =
    let cp = copy_hash leaf_hash in
    if not (length leaf_hash == hash_size)
    then (err bad_leaf_size, t)
    else add_leaf cp (persist_locked fate cp t)

unfoldable pub size : Tree → ℕ
size t = length t.leaves

-- `LeafHashes`: a copy of each leaf
unfoldable pub leaf_hashes : Tree → List Bytes
leaf_hashes t = t.leaves

-- The file handle goes, whether or not the file's own `Close` reports an error.
unfoldable pub close : Tree → Tree
close t = elim t.file [ none ↦ t | some f ↦ record t { file = none; is_closed = true } ]

-- `n` rounds of `ReadFull` into a 32-byte buffer
unfoldable pub read_leaves : ℕ → Bytes → List Bytes
read_leaves zero buf = []
read_leaves (suc n) buf = take hash_size buf ∷ read_leaves n (drop hash_size buf)

-- `loadLocked`
unfoldable pub load_locked : Bytes → Result Error (List Bytes)
unfolding read_leaves
load_locked contents =
    if not (length contents % hash_size == 0)
    then err bad_file_size
    else ok (read_leaves (length contents / hash_size) contents)

-- `Open` of a file with these contents, where the operating system opens and reads it
unfoldable pub open_file : Bytes → Result Error Tree
unfolding load_locked
open_file contents = load_locked contents >>= λ leaves.
    ok (record { leaves = leaves; file = some contents; is_closed = false })

-- the answer of a call that may panic, in the model's results
abbrev pub or_panic : Option (List Bytes) → Option (Result Error (List Bytes))
or_panic none = none
or_panic (some p) = some (ok p)

module _ ⦃sha : Sha256⦄ where
  unfoldable pub append : WriteFate → Bytes → Tree → Result Error ℕ × Tree
  unfolding persist_locked add_leaf
  append fate payload t = add_leaf (hash_leaf payload) (persist_locked fate (hash_leaf payload) t)

  unfoldable pub root : Tree → Bytes
  root t = mth t.leaves

  unfoldable pub snapshot : Tree → ℕ × Bytes
  snapshot t = (length t.leaves, mth t.leaves)

  unfoldable pub root_at : ℕ → Tree → Result Error Bytes
  root_at n t = if ltb (length t.leaves) n then err invalid_proof else ok (mth (take n t.leaves))

  -- `Proof`; `none` would be a panic
  unfoldable pub proof : ℕ → Tree → Option (Result Error (List Bytes))
  proof idx t =
      let n = length t.leaves in
      if n == 0 || leb n idx then some (err invalid_proof) else or_panic (path idx t.leaves)

  unfoldable pub proof_at : ℕ → ℕ → Tree → Option (Result Error (List Bytes))
  proof_at idx n t =
      if ltb (length t.leaves) n || n == 0 || leb n idx
      then some (err invalid_proof)
      else or_panic (path idx (take n t.leaves))

  unfoldable pub proof_for_range : ℕ → ℕ → Tree → Option (Result Error (List Bytes))
  proof_for_range old_size new_size t =
      if ltb (length t.leaves) new_size
      then some (err invalid_proof)
      else if ltb new_size old_size
      then some (err size_regression)
      else if old_size == 0 || old_size == new_size
      then some (ok [])
      else or_panic (subproof old_size (take new_size t.leaves) true)

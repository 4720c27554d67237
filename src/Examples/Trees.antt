-- ===== src/Examples/Trees.antt =====
-- The tree's and the anchors' theorems at trees of two and three leaves.
use crypto_agent.Merkle.Consistency.{subproof}
use crypto_agent.Merkle.Consistency.{fold_roots}
use crypto_agent.Merkle.Consistency.{is_power_of_two}
use crypto_agent.Prelude.{
  false, none, some, List, [], ◌∷◌, ◌++◌, Bytes, take, ok, err, ◌≡◌, refl, arith, ◌⊎◌, replicate,
  ◌≤◌,
}
use crypto_agent.Examples.{toy_sha}
use mathlib.Core.Option
use crypto_agent.Merkle.Hash.{root_mismatch}
use crypto_agent.Prelude.{equal, some-inj, sym}
use crypto_agent.Merkle.Hash.{
  largest_power_of_two_less_than, Collision, hash_leaf, hash_children, mth, copy_hash, sync_failed,
}
use crypto_agent.Merkle.Inclusion.{
  fold_proof, climb, join, verify_inclusion, verify_inclusion_from_hash,
}
use crypto_agent.Merkle.Consistency.{verify_consistency}
use crypto_agent.Merkle.Tree
use crypto_agent.Merkle.Tree.{Tree, durable, unsynced}
use crypto_agent.Merkle.Tree.Proofs.{proof_at-accepted, proof_for_range-accepted}
use crypto_agent.Merkle.Tree.Durability.{
  IsDurable, contents, open_file-contents, append-IsDurable, append_unsynced,
}
use crypto_agent.Merkle.Inclusion.Binding.{inclusion_sound}
use crypto_agent.Merkle.Consistency.Binding.{consistency_sound}
use crypto_agent.Merkle.Verifier.{verify_historical_root, verify_historical_root_at}
use crypto_agent.Merkle.Verifier.Correct.{
  passing, historical_root_sound, historical_root-zero, historical_root-passes,
}

abbrev leaf_a : Bytes
leaf_a = 1 ∷ replicate 31 7

abbrev leaf_b : Bytes
leaf_b = 2 ∷ replicate 31 7

abbrev pair : Tree
pair = record { leaves = leaf_a ∷ leaf_b ∷ []; file = none; is_closed = false }

abbrev logged : Tree
logged = record {
  leaves = hash_leaf ⦃sha = toy_sha⦄ (5 ∷ []) ∷ leaf_b ∷ [];
  file = none;
  is_closed = false;
}

proof_at-accepted_example :
    (p : List Bytes) × (Tree.proof_at ⦃sha = toy_sha⦄ 0 2 logged ≡ some (ok p))
    × (verify_inclusion ⦃sha = toy_sha⦄ (5 ∷ []) 0 2 p (mth ⦃sha = toy_sha⦄ (take 2 logged.leaves))
        ≡ ok tt)
unfolding Tree.size
proof_at-accepted_example =
    proof_at-accepted ⦃sha = toy_sha⦄ logged (5 ∷ []) 0 2 (omega arith) (omega arith) refl

proof_for_range-accepted_example :
    (p : List Bytes) × (Tree.proof_for_range ⦃sha = toy_sha⦄ 1 2 pair ≡ some (ok p))
    × (verify_consistency ⦃sha = toy_sha⦄
          (mth ⦃sha = toy_sha⦄ (take 1 pair.leaves))
          (mth ⦃sha = toy_sha⦄ (take 2 pair.leaves))
          1
          2
          p
        ≡ ok tt)
unfolding Tree.size
proof_for_range-accepted_example =
    proof_for_range-accepted ⦃sha = toy_sha⦄ pair 1 2 (omega arith) (omega arith)

-- the sibling proves the first leaf of two
pair_root :
    verify_inclusion_from_hash ⦃sha = toy_sha⦄ leaf_a 0 2
      (leaf_b ∷ [])
      (mth ⦃sha = toy_sha⦄ pair.leaves)
    ≡ ok tt
unfolding verify_inclusion_from_hash mth hash_children copy_hash largest_power_of_two_less_than
    fold_proof climb equal join
pair_root = refl

inclusion_sound_example : (leaf_a ≡ leaf_a) ⊎ Collision toy_sha
inclusion_sound_example =
    inclusion_sound ⦃sha = toy_sha⦄ (leaf_a ∷ leaf_b ∷ []) leaf_a leaf_a 0 (leaf_b ∷ []) refl refl
      refl pair_root

-- and one leaf is consistent with two
pair_grew :
    verify_consistency ⦃sha = toy_sha⦄ leaf_a (mth ⦃sha = toy_sha⦄ pair.leaves) 1 2 (leaf_b ∷ [])
    ≡ ok tt
unfolding verify_consistency is_power_of_two fold_roots climb equal join hash_children copy_hash mth
    largest_power_of_two_less_than
pair_grew = refl

consistency_sound_example : (leaf_a ≡ mth ⦃sha = toy_sha⦄ (take 1 pair.leaves)) ⊎ Collision toy_sha
consistency_sound_example =
    consistency_sound ⦃sha = toy_sha⦄ pair.leaves leaf_a 1 (leaf_b ∷ []) (omega arith) refl
      (refl, tt) pair_grew

historical_root-passes_example :
    verify_historical_root ⦃sha = toy_sha⦄ (mth ⦃sha = toy_sha⦄ (take 1 pair.leaves)) 1 pair
    ≡ some (passing ⦃sha = toy_sha⦄ (mth ⦃sha = toy_sha⦄ (take 1 pair.leaves)) 1 pair, none)
unfolding Tree.size
historical_root-passes_example = historical_root-passes ⦃sha = toy_sha⦄ pair 1 (omega arith)

-- the root of the first leaf of two passes
first_passes :
    verify_historical_root ⦃sha = toy_sha⦄ leaf_a 1 pair
    ≡ some (passing ⦃sha = toy_sha⦄ leaf_a 1 pair, none)
unfolding verify_historical_root Tree.size Tree.proof_for_range subproof
    largest_power_of_two_less_than verify_consistency is_power_of_two fold_roots climb equal join
    hash_children copy_hash Tree.root mth
first_passes = refl

historical_root_sound_example :
    ((1 ≤ Tree.size pair) × (leaf_a ≡ mth ⦃sha = toy_sha⦄ (take 1 pair.leaves))) ⊎ Collision toy_sha
historical_root_sound_example =
    historical_root_sound ⦃sha = toy_sha⦄ pair leaf_a 1 (passing ⦃sha = toy_sha⦄ leaf_a 1 pair)
      (omega arith) refl first_passes

-- A leaf that comes in between `Size` and `Root` makes a genuine root fail.
abbrev first : Tree
first = record pair { leaves = take 1 pair.leaves }

overtaken :
    Option.map
      (λ r. r.1)
      (verify_historical_root_at ⦃sha = toy_sha⦄
        (mth ⦃sha = toy_sha⦄ first.leaves)
        1
        first
        pair
        pair)
    ≡ some (some root_mismatch)
unfolding Tree.size verify_historical_root_at Tree.proof_for_range verify_consistency equal mth
    copy_hash Tree.root hash_children largest_power_of_two_less_than
overtaken = refl

historical_root-zero_example :
    verify_historical_root ⦃sha = toy_sha⦄ leaf_b 0 pair
    ≡ some (passing ⦃sha = toy_sha⦄ leaf_b 0 pair, none)
unfolding Tree.size
historical_root-zero_example = historical_root-zero ⦃sha = toy_sha⦄ pair leaf_b (omega arith)

abbrev stored : Tree
stored = record { leaves = leaf_a ∷ leaf_b ∷ []; file = some (leaf_a ++ leaf_b); is_closed = false }

stored-IsDurable : IsDurable stored
unfolding contents
stored-IsDurable = record { sized = (refl, (refl, tt)); stored = λ f e. some-inj (sym e) }

open_file-contents_example :
    Tree.open_file (leaf_a ++ leaf_b)
    ≡ ok (record {
      leaves = leaf_a ∷ leaf_b ∷ [];
      file = some (leaf_a ++ leaf_b);
      is_closed = false;
    })
open_file-contents_example = open_file-contents stored (leaf_a ++ leaf_b) stored-IsDurable refl

append-IsDurable_example : IsDurable (Tree.append ⦃sha = toy_sha⦄ durable (3 ∷ []) stored).1
append-IsDurable_example = append-IsDurable ⦃sha = toy_sha⦄ (3 ∷ []) stored stored-IsDurable

append_unsynced_example :
    ((Tree.append ⦃sha = toy_sha⦄ unsynced (3 ∷ []) stored).0 ≡ err sync_failed)
    × ((Tree.append ⦃sha = toy_sha⦄ unsynced (3 ∷ []) stored).1.leaves ≡ stored.leaves)
    × ((Tree.append ⦃sha = toy_sha⦄ unsynced (3 ∷ []) stored).1.file
        ≡ some ((leaf_a ++ leaf_b) ++ hash_leaf ⦃sha = toy_sha⦄ (3 ∷ [])))
    × (Tree.open_file ((leaf_a ++ leaf_b) ++ hash_leaf ⦃sha = toy_sha⦄ (3 ∷ []))
        ≡ ok (record {
          leaves = stored.leaves ++ (hash_leaf ⦃sha = toy_sha⦄ (3 ∷ []) ∷ []);
          file = some ((leaf_a ++ leaf_b) ++ hash_leaf ⦃sha = toy_sha⦄ (3 ∷ []));
          is_closed = false;
        }))
append_unsynced_example =
    append_unsynced ⦃sha = toy_sha⦄ (3 ∷ []) stored (leaf_a ++ leaf_b) stored-IsDurable refl refl

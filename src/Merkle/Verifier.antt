-- ===== src/Merkle/Verifier.antt =====
-- go-key-service/internal/merkle/verifier.go: the check of a historical root against the live tree.
-- The report's message is the case that it tells of, and not its text.
pub mod Correct
use crypto_agent.Prelude.{
  ℕ, Bool, true, false, Option, none, some, List, Bytes, ltb, if◌then◌else◌, Result, ok, err,
}
use crypto_agent.Prelude.Hex.{hex_encode}
use crypto_agent.Merkle.Hash.{Sha256, Error, size_regression}
use crypto_agent.Merkle.Consistency.{verify_consistency}
use crypto_agent.Merkle.Tree
use crypto_agent.Merkle.Tree.{Tree}

pub data Message : Type 0 where
  consistent : Message
  regressed : Message
  failed : Error → Message

pub record VerificationReport : Type 0 where
  pub is_ok : Bool
  pub message : Message
  pub historical_root : Bytes
  pub historical_size : ℕ
  pub live_root : Bytes
  pub live_size : ℕ

module _ ⦃sha : Sha256⦄ where
  abbrev report : Bytes → ℕ → ℕ → Bytes → VerificationReport
  report old_root old_size live_size live_root = record {
    is_ok = false;
    message = regressed;
    historical_root = hex_encode old_root;
    historical_size = old_size;
    live_root = hex_encode live_root;
    live_size = live_size;
  }

  abbrev rejected : VerificationReport → Error → VerificationReport × Option Error
  rejected r e = (record r { message = failed e }, some e)

  -- the second half: the proof is there, or its call failed
  unfoldable pub judge :
      Bytes → ℕ → ℕ → Bytes → Result Error (List Bytes) → VerificationReport × Option Error
  judge old_root old_size live_size live_root (err e) =
      rejected (report old_root old_size live_size live_root) e
  judge old_root old_size live_size live_root (ok proof) =
      let r = report old_root old_size live_size live_root in
      elim (verify_consistency old_root live_root old_size live_size proof) [
        | err e ↦ rejected r e
        | ok _ ↦ (record r { is_ok = true; message = consistent }, none)
      ]

  -- The report and the error; the outer `none` would be a panic in the proof's construction. The three
  -- trees are the tree as `Size`, `Root` and `ProofForRange` find it: each takes the lock for itself, so
  -- leaves can come in between.
  unfoldable pub verify_historical_root_at :
      Bytes → ℕ → Tree → Tree → Tree → Option (VerificationReport × Option Error)
  unfolding judge
  verify_historical_root_at old_root old_size at_size at_root at_proof =
      let live_size = Tree.size at_size in
      let live_root = Tree.root at_root in
      let rest : Option (VerificationReport × Option Error) =
        elim (Tree.proof_for_range old_size live_size at_proof) [
          | none ↦ none
          | some p ↦ some (judge old_root old_size live_size live_root p)
        ] in
      if ltb live_size old_size
      then some (report old_root old_size live_size live_root, some size_regression)
      else rest

  -- no leaf comes in during the call
  unfoldable pub verify_historical_root :
      Bytes → ℕ → Tree → Option (VerificationReport × Option Error)
  unfolding verify_historical_root_at
  verify_historical_root old_root old_size t = verify_historical_root_at old_root old_size t t t

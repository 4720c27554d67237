-- ===== src/MerkleVerify/Verdict.antt =====
-- What the exit code of the command says (cmd/merkle-verify/main.go).
use crypto_agent.Prelude.{
  ℕ, ◌≤◌, ◌<◌, true, false, Option, none, some, List, [], ◌∷◌, Bytes, length, take, ◌==◌, ok, ◌≡◌,
  ◌≢◌, refl, ap, ◌∙◌, arith, All, ◌⊎◌, inl, inr,
}
use mathlib.Core.Path.{subst}
use crypto_agent.Prelude.Hex.{hex_encode, hex_decode, hex_decode-hex_encode, length-hex_encode}
use crypto_agent.Merkle.Hash
use crypto_agent.Merkle.Hash.{Sha256, Collision, hash_leaf, mth}
use crypto_agent.Merkle.TreeHash.{length-mth}
use crypto_agent.Merkle.Tree
use crypto_agent.Merkle.Tree.{Tree}
use crypto_agent.Merkle.Verifier.{VerificationReport, verify_historical_root}
use crypto_agent.Merkle.Verifier.Correct.{passing, historical_root_sound, historical_root-passes}
use crypto_agent.MerkleVerify.{main, verify_tree, build_tree_from_file, exit_of}
use crypto_agent.MerkleVerify.Reading.{
  in_memory, hashes, print_leaves, IsPayload, build_tree_from_file-hashes,
  build_tree_from_file-print,
}

nonempty : (s : Bytes) → s ≢ [] → (length s == 0) ≡ false
nonempty [] h = absurd (h refl)
nonempty (c ∷ s) h = ground arith

module _ ⦃sha : Sha256⦄ where
  -- A zero exit code with a report comes from a root of 32 bytes, a file that was read, and a passing check.
  main-parts :
      (historical_root : Bytes) (n : ℕ) (leaves_file : Bytes) (contents : Option Bytes)
      (r : VerificationReport)
      → main historical_root n leaves_file contents ≡ some (0, some r)
      → (root : Bytes) × (t : Tree) × (hex_decode historical_root ≡ some root)
        × (length root ≡ 32)
        × (build_tree_from_file contents ≡ ok t)
        × (verify_historical_root root n t ≡ some (r, none))
  unfolding main verify_tree
  main-parts hex n file contents r h = ground arith

  verify_tree-report :
      (root : Bytes) (n : ℕ) (t : Tree) (r : VerificationReport × Option Hash.Error)
      → verify_historical_root root n t ≡ some r
      → verify_tree root n (ok t) ≡ some (exit_of r)
  unfolding verify_tree
  verify_tree-report root n t r h = rw (h, verify_tree) refl

  length-map : (payloads : List Bytes) → length (hashes payloads) ≡ length payloads
  length-map [] = refl
  length-map (leaf ∷ payloads) = omega (arith, length-map payloads)

  -- When the command exits with 0 and a report, for a size above 0, it has read payloads from the file of
  -- which there are that many, and the root on the command line is the hexadecimal text of the root of the
  -- first ones; or a collision of SHA-256 is at hand.
  pub main_sound :
      (historical_root : Bytes) (n : ℕ) (leaves_file : Bytes) (contents : Option Bytes)
      (r : VerificationReport)
      → 0 < n
      → main historical_root n leaves_file contents ≡ some (0, some r)
      → ((root : Bytes) × (payloads : List Bytes) × (hex_decode historical_root ≡ some root)
          × (build_tree_from_file contents ≡ ok (in_memory (hashes payloads)))
          × (n ≤ length payloads)
          × (root ≡ mth (take n (hashes payloads))))
        ⊎ Collision sha
  unfolding Tree.size
  main_sound hex n file contents r pos h =
      let (root, t, decoded, size, built, passed) = main-parts hex n file contents r h in
      let (payloads, q) = build_tree_from_file-hashes contents t built in
      elim (historical_root_sound (in_memory (hashes payloads)) root n r pos size
        (subst (λ (u : Tree). verify_historical_root root n u ≡ some (r, none)) q passed)) [
          | inr found ↦ inr found
          | inl (le, same) ↦
              inl (root, payloads, decoded, built ∙ ap ok q, rw (← length-map payloads) le, same)
        ]

  -- For payloads of bytes, none empty and none too long for a line, that were printed one to a line in a
  -- file with a name, and the hexadecimal text of the root of the first `n` of them, where the root's
  -- numbers are bytes, the command exits with 0 and a passing report.
  pub main_complete :
      (payloads : List Bytes) (n : ℕ) (leaves_file : Bytes)
      → All IsPayload payloads
      → n ≤ length payloads
      → leaves_file ≢ []
      → All (λ (v : ℕ). v < 256) (mth (take n (hashes payloads)))
      → main
          (hex_encode (mth (take n (hashes payloads))))
          n
          leaves_file
          (some (print_leaves payloads))
        ≡ some (0, some (passing (mth (take n (hashes payloads))) n (in_memory (hashes payloads))))
  unfolding main Tree.size
  main_complete payloads n file valid le named bytes =
      let root = mth (take n (hashes payloads)) in
      let written : (length (hex_encode root) == 0) ≡ false =
        ground (arith, length-hex_encode root, length-mth (take n (hashes payloads))) in
      let sized : (length root == Hash.hash_size) ≡ true =
        ground (arith, length-mth (take n (hashes payloads))) in
      rw
        (
          written,
          nonempty file named,
          hex_decode-hex_encode root bytes,
          sized,
          build_tree_from_file-print payloads valid,
        )
        (verify_tree-report root n (in_memory (hashes payloads)) _
          (historical_root-passes (in_memory (hashes payloads)) n (rw (length-map payloads) le)))

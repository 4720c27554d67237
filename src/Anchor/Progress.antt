-- ===== src/Anchor/Progress.antt =====
-- What a pass of the committer achieves (committer.go): once the tree has grown, it anchors it.
use mathlib.Core.Path.{subst}
use crypto_agent.Prelude.{
  ℕ, suc, ◌<◌, false, not, ◌&&◌, none, List, Bytes, length, leb, ◌==◌, Result, ok, ◌≡◌, refl, sym,
  ap, ◌∙◌, arith,
}
use crypto_agent.Merkle.Hash.{Sha256, mth}
use crypto_agent.Merkle.TreeHash.{length-mth}
use crypto_agent.Merkle.Tree
use crypto_agent.Merkle.Tree.{Tree}
use crypto_agent.Anchor.{
  Anchor, CommitReceipt, Error, FakeEvmClient, fake_client, fake_record, commit, record_commit,
  last_size, latest_anchor, set, Committer,
}
use crypto_agent.Anchor.Trail.{
  System, pass, Reachable, IsAudited, Reachable-IsAudited, Trail-last_size, commit-fresh,
}

fake_record-ok :
    (size : ℕ) (root : Bytes) (now : ℕ) (f : FakeEvmClient)
    → f.fail_next ≡ none
    → last_size f.anchors < size
    → (receipt : CommitReceipt) × (g : FakeEvmClient) × (fake_record size root now f
        ≡ (ok receipt, g))
unfolding fake_record
fake_record-ok size root now f q h =
    let smaller : (not (length f.anchors == 0) && leb size (last_size f.anchors)) ≡ false =
      ground arith in
    rw (q, smaller) (_, _, refl)

-- What a pass leaves when it has anchored this size and root.
pub IsAnchored : ℕ → Bytes → Result Error Anchor × Committer × FakeEvmClient → Type 0
IsAnchored size root (r, c, f) =
    (a : Anchor) × (r ≡ ok a)
    × (a.tree_size ≡ size)
    × (a.root ≡ root)
    × (latest_anchor c.store ≡ ok a)
    × (c.last_committed ≡ size)

record_commit-IsAnchored :
    (size : ℕ) (root : Bytes) (now : ℕ) (c : Committer) (receipt : CommitReceipt)
    (g : FakeEvmClient)
    → IsAnchored size root (record_commit fake_client size root now c (ok receipt, g))
unfolding IsAnchored record_commit latest_anchor set
record_commit-IsAnchored size root now c receipt g = (_, refl, refl, refl, refl, refl)

module _ ⦃sha : Sha256⦄ where
  commit-IsAnchored :
      (ls : List Bytes) (now : ℕ) (c : Committer) (f : FakeEvmClient)
      → c.last_committed < length ls
      → f.fail_next ≡ none
      → last_size f.anchors ≡ c.last_committed
      → IsAnchored (length ls) (mth ls) (commit fake_client (length ls, mth ls) now c f)
  commit-IsAnchored ls now c f h quiet same =
      let called : FakeEvmClient = record f { calls = suc f.calls } in
      let (receipt, g, q) =
        fake_record-ok (length ls) (mth ls) now called quiet (omega (arith, same, h)) in
      subst (IsAnchored (length ls) (mth ls))
        (sym (
          commit-fresh (length ls) (mth ls) now c f (omega (arith, h)) (length-mth ls) h
          ∙ ap (record_commit fake_client (length ls) (mth ls) now c) q))
        (record_commit-IsAnchored (length ls) (mth ls) now c receipt g)

  -- After any appends, passes and failures: when the tree has grown since the last commit and the chain
  -- is not told to fail, the next pass anchors the tree's size and root, and the store has that anchor.
  pub pass-IsAnchored :
      (tree : Tree) (s : System) (now : ℕ)
      → Reachable tree s
      → s.committer.last_committed < Tree.size s.tree
      → s.chain.fail_next ≡ none
      → IsAnchored
          (Tree.size s.tree)
          (Tree.root s.tree)
          ((pass now s).0, (pass now s).1.committer, (pass now s).1.chain)
  unfolding Tree.size Tree.root Tree.snapshot pass IsAudited
  pass-IsAnchored tree s now r h quiet =
      let (t, n) = Reachable-IsAudited tree s r in
      commit-IsAnchored s.tree.leaves now s.committer s.chain h quiet
        (Trail-last_size s.tree.leaves s.chain.anchors s.committer.last_committed t)

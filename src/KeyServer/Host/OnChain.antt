-- ===== src/KeyServer/Host/OnChain.antt =====
-- The committer against the contract (anchor/committer.go and contracts/src/AuditAnchor.sol): what an
-- auditor reads from the chain goes with the log of the server.
use crypto_agent.Prelude.{
  ℕ, ◌/◌, some, List, [], ◌∷◌, Bytes, text, length, leb, ◌==◌, Result, ok, err, ◌≡◌, refl, sym, ap,
  ◌∙◌, arith, get_elem?, get_elem?-snoc, Bool-cases, inl, inr,
}
use mathlib.Core.Path.{subst}
use crypto_agent.Action.{Action}
use crypto_agent.Keys.{Ed25519}
use crypto_agent.Merkle.Hash.{Sha256, mth}
use crypto_agent.Merkle.Tree
use crypto_agent.Merkle.Tree.{Tree}
use crypto_agent.Anchor
use crypto_agent.Anchor.{
  EvmClient, Committer, CommitReceipt, record_commit, validate_commit, hash_size,
}
use crypto_agent.Contract
use crypto_agent.Contract.{AuditAnchor, ChainAnchor, Message, Outcome, settled, anchor_at, commits}
use crypto_agent.Contract.Ledger.{Extended, kept, committed, commit-Extended}
use crypto_agent.KeyServer.Host.{Host, Event, request, pass, happen, happen_all}
use crypto_agent.KeyServer.Host.Growth.{
  Extends, Extends-self, serve-LogExtends, happen_all-LogExtends,
}
use crypto_agent.KeyServer.Host.Heads.{IsHead, IsHead-Extends, snapshot-IsHead, IsPassed, passed}

-- What becomes of a transaction on its way: it is run and its answer comes back, it is run and the answer
-- is lost, or it is not run.
pub data Delivery : Type 0 where
  answered unanswered unsent : Delivery

-- the client's answer, and the contract behind it
unfoldable pub answer_of :
    Delivery → AuditAnchor → Outcome ℕ → Result Anchor.Error CommitReceipt × AuditAnchor
answer_of unsent s o = (err (Anchor.refused (text "unsent")), s)
answer_of unanswered s o = (err (Anchor.refused (text "timeout")), settled s o)
answer_of answered s (err e) = (err (Anchor.refused (text "reverted")), s)
answer_of answered s (ok (id, logs, after)) =
    (ok (record { id = id; tx_hash = []; block_number = 0 }), after)

-- A client whose transactions go to the contract. Each has its sender and its block; for a commit that was
-- not answered the committer has an error.
abbrev pub contract_client : (ℕ → Message) → (ℕ → Delivery) → EvmClient
contract_client message delivery = record {
  State = AuditAnchor;
  commit = λ size root now s.
      answer_of (delivery now) s (Contract.commit (message now) size root (now / 1_000) s);
}

answer_of-either :
    (Q : AuditAnchor → Type 0) (d : Delivery) (s : AuditAnchor) (o : Outcome ℕ)
    → Q s
    → Q (settled s o)
    → Q (answer_of d s o).1
unfolding answer_of settled
answer_of-either Q unsent s o h k = h
answer_of-either Q unanswered s o h k = k
answer_of-either Q answered s (err e) h k = h
answer_of-either Q answered s (ok (id, logs, after)) h k = k

record_commit-chain :
    (client : EvmClient) (size : ℕ) (root : Bytes) (now : ℕ) (c : Committer)
    (r : Result Anchor.Error CommitReceipt × client.State)
    → (record_commit client size root now c r).2 ≡ r.1
unfolding record_commit
record_commit-chain client size root now c (err e, s) = refl
record_commit-chain client size root now c (ok receipt, s) = refl

-- A pass of the committer leaves the chain alone, or calls the client once.
commit-chain :
    (client : EvmClient) (Q : client.State → Type 0) (size : ℕ) (root : Bytes) (now : ℕ)
    (c : Committer) (s : client.State)
    → Q s
    → Q (client.commit size root now s).1
    → Q (Anchor.commit client (size, root) now c s).2
unfolding Anchor.commit validate_commit
commit-chain client Q size root now c s h k = elim (Bool-cases (size == 0)) [
  | inl z ↦ rw z h
  | inr z ↦ elim (Bool-cases (length root == hash_size)) [
    | inr odd ↦ rw (z, odd) h
    | inl even ↦ elim (Bool-cases (leb size c.last_committed)) [
      | inl old ↦ rw (z, even, old) h
      | inr new ↦
          rw (z, even, new)
            (subst Q
              (sym (record_commit-chain client size root now c (client.commit size root now s))) k)
    ]
  ]
]

module _ (sha : Sha256) where
  -- Every anchor of the contract is of a head that the log with these leaves had.
  LedgerIsHeads : List Bytes → AuditAnchor → Type 0
  LedgerIsHeads ls s =
      (i : ℕ) (a : ChainAnchor)
      → get_elem? s.anchors i ≡ some a
      → IsHead ⦃sha = sha⦄ ls a.tree_size a.root

  LedgerIsHeads-Extends :
      (ls ks : List Bytes) (s : AuditAnchor)
      → Extends ls ks
      → LedgerIsHeads ls s
      → LedgerIsHeads ks s
  unfolding LedgerIsHeads
  LedgerIsHeads-Extends ls ks s x h i a at =
      IsHead-Extends ⦃sha = sha⦄ ls ks a.tree_size a.root x (h i a at)

  Extended-LedgerIsHeads :
      (ls : List Bytes) (msg : Message) (size : ℕ) (root : Bytes) (timestamp : ℕ)
      (s u : AuditAnchor)
      → IsHead ⦃sha = sha⦄ ls size root
      → Extended msg s (commits size root timestamp) u
      → LedgerIsHeads ls s
      → LedgerIsHeads ls u
  unfolding LedgerIsHeads
  Extended-LedgerIsHeads ls msg size root timestamp s u head (kept _ _ q) h i a at =
      h i a (ap (λ l. get_elem? l i) (sym q) ∙ at)
  Extended-LedgerIsHeads ls msg size root timestamp s u head
        (committed _ _ _ _ x _ sizes roots _ _ _ q) h i a at =
      elim (get_elem?-snoc s.anchors x a i (ap (λ l. get_elem? l i) (sym q) ∙ at)) [
        | inl old ↦ h i a old
        | inr (_, same) ↦
            subst (λ (y : ChainAnchor). IsHead ⦃sha = sha⦄ ls y.tree_size y.root) same
              (rw (sizes, roots) head)
      ]

module _ (sha : Sha256) (crypto : Ed25519) (encode : Action → Bytes) (message : ℕ → Message)
    (delivery : ℕ → Delivery) where
  -- the contract goes with the log of the server
  Audited : Host AuditAnchor → Type 0
  Audited h = LedgerIsHeads sha h.world.pipeline.tree.leaves h.chain

  happen-Audited :
      (e : Event) (h : Host AuditAnchor)
      → Audited h
      → Audited (happen sha crypto encode (contract_client message delivery) e h)
  unfolding happen Audited Tree.snapshot
  happen-Audited (request now later r) h k =
      LedgerIsHeads-Extends sha h.world.pipeline.tree.leaves _ h.chain
        (serve-LogExtends sha crypto encode now later h.world.pipeline.tree.leaves r h.world
          (Extends-self h.world.pipeline.tree.leaves))
        k
  happen-Audited (pass now) h k =
      let leaves = h.world.pipeline.tree.leaves in
      let root = mth ⦃sha = sha⦄ leaves in
      let outcome = Contract.commit (message now) (length leaves) root (now / 1_000) h.chain in
      commit-chain (contract_client message delivery) (LedgerIsHeads sha leaves) (length leaves)
        root now (record { store = h.world.latest; last_committed = h.last_committed }) h.chain k
        (answer_of-either (LedgerIsHeads sha leaves) (delivery now) h.chain outcome k (
          Extended-LedgerIsHeads sha leaves (message now) (length leaves) root (now / 1_000) h.chain
            (settled h.chain outcome) (snapshot-IsHead ⦃sha = sha⦄ h.world.pipeline.tree)
            (commit-Extended (message now) (length leaves) root (now / 1_000) h.chain) k))

  happen_all-Audited :
      (es : List Event) (h : Host AuditAnchor)
      → Audited h
      → Audited (happen_all sha crypto encode (contract_client message delivery) es h)
  unfolding happen_all
  happen_all-Audited [] h k = k
  happen_all-Audited (e ∷ es) h k =
      happen_all-Audited es (happen sha crypto encode (contract_client message delivery) e h)
        (happen-Audited e h k)

  -- Let the committer's transactions go to a contract without anchors, where any may get lost, or its
  -- answer.
  -- After any requests and passes, every anchor that `anchorAt` gives passes the verifier of historical
  -- roots, with its size and root, against the server's tree at any later time.
  pub anchor_at-IsPassed :
      (start now : Host AuditAnchor) (before after : List Event) (i : ℕ) (a : ChainAnchor)
      → start.chain.anchors ≡ []
      → now ≡ happen_all sha crypto encode (contract_client message delivery) before start
      → anchor_at i now.chain ≡ ok a
      → IsPassed ⦃sha = sha⦄ a.tree_size a.root
          (happen_all sha crypto encode
            (contract_client message delivery)
            after
            now).world.pipeline.tree
  unfolding Audited LedgerIsHeads anchor_at
  anchor_at-IsPassed start now before after i a empty reached at =
      let leaves = now.world.pipeline.tree.leaves in
      let heads : Audited now = subst Audited (sym reached) (
        happen_all-Audited before start
          (λ j b there. absurd (cc (there, ap (λ l. get_elem? l j) empty)))) in
      let there : get_elem? now.chain.anchors i ≡ some a = ground (arith, at) in
      passed sha _ leaves a.tree_size a.root
        (happen_all-LogExtends sha crypto encode (contract_client message delivery) leaves after now
          (Extends-self leaves))
        (heads i a there)

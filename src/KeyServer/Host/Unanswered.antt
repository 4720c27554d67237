-- ===== src/KeyServer/Host/Unanswered.antt =====
-- What a lost answer does to the committer (anchor/committer.go with contracts/src/AuditAnchor.sol): the
-- contract has the anchor, and the server does not show it.
use crypto_agent.Prelude.{
  ℕ, ◌<◌, ◌≤◌, ◌/◌, ◌^◌, ◌%◌, true, false, some, List, [], ◌∷◌, ◌++◌, map, Bytes, text, length, leb,
  ◌==◌, ok, err, ◌≡◌, refl, sym, ap, ◌∙◌, arith, Bool-cases, inl, inr,
}
use crypto_agent.Action.{Action}
use crypto_agent.Keys.{Ed25519}
use crypto_agent.Merkle.Hash.{Sha256, mth}
use crypto_agent.Merkle.TreeHash.{length-mth}
use crypto_agent.Merkle.Tree
use crypto_agent.Anchor
use crypto_agent.Anchor.{
  EvmClient, Committer, CommitReceipt, LatestStore, record_commit, validate_commit, hash_size,
}
use crypto_agent.Contract
use crypto_agent.Contract.{
  AuditAnchor, ChainAnchor, Message, Log, Outcome, settled, last_anchor, push,
}
use crypto_agent.Contract.Sizes.{last_anchor-snoc}
use crypto_agent.KeyServer.Host.{Host, pass, happen, happen_all}
use crypto_agent.KeyServer.Host.OnChain.{
  Delivery, unanswered, answered, unsent, answer_of, contract_client,
}

-- a pass on a tree that has grown calls the client
commit-calls :
    (client : EvmClient) (size : ℕ) (root : Bytes) (now : ℕ) (c : Committer) (s : client.State)
    → 0 < size
    → length root ≡ 32
    → c.last_committed < size
    → Anchor.commit client (size, root) now c s
      ≡ record_commit client size root now c (client.commit size root now s)
unfolding Anchor.commit validate_commit
commit-calls client size root now c s pos sized new =
    let nonzero : (size == 0) ≡ false = ground arith in
    let even : (length root == hash_size) ≡ true = ground arith in
    let larger : leb size c.last_committed ≡ false = ground arith in rw (nonzero, even, larger) refl

-- a pass whose call fails, if it calls, changes nothing
commit-fails :
    (client : EvmClient) (size : ℕ) (root : Bytes) (now : ℕ) (c : Committer) (s : client.State)
    (e : Anchor.Error)
    → client.commit size root now s ≡ (err e, s)
    → ((Anchor.commit client (size, root) now c s).1 ≡ c)
      × ((Anchor.commit client (size, root) now c s).2 ≡ s)
unfolding Anchor.commit validate_commit record_commit
commit-fails client size root now c s e failed = elim (Bool-cases (size == 0)) [
  | inl z ↦ rw z (refl, refl)
  | inr z ↦ elim (Bool-cases (length root == hash_size)) [
    | inr odd ↦ rw (z, odd) (refl, refl)
    | inl even ↦ elim (Bool-cases (leb size c.last_committed)) [
      | inl old ↦ rw (z, even, old) (refl, refl)
      | inr new ↦ rw (z, even, new, failed) (refl, refl)
    ]
  ]
]

commit_inv :
    (msg : Message) (size : ℕ) (root : Bytes) (timestamp : ℕ) (s : AuditAnchor)
    (o : ℕ × List Log × AuditAnchor)
    → Contract.commit msg size root timestamp s ≡ ok o
    → (0 < size) × (push msg size root timestamp s ≡ ok o)
unfolding Contract.commit
commit_inv msg size root timestamp s o h = ground (arith, h)

-- a commit that the contract takes leaves an anchor of its size as the last one
commit-last :
    (msg : Message) (size : ℕ) (root : Bytes) (timestamp : ℕ) (s : AuditAnchor) (id : ℕ)
    (logs : List Log) (after : AuditAnchor)
    → Contract.commit msg size root timestamp s ≡ ok (id, logs, after)
    → (0 < size) × ((b : ChainAnchor) × (last_anchor after.anchors ≡ some b) × (b.tree_size ≡ size))
unfolding push
commit-last msg size root timestamp s id logs after h =
    let (pos, pushed) = commit_inv msg size root timestamp s (id, logs, after) h in
    let a : ChainAnchor = record {
      tree_size = size;
      root = root;
      timestamp = timestamp;
      block_number = msg.block_number % 2 ^ 64;
    } in
    let same : record s { anchors = s.anchors ++ (a ∷ []) } ≡ after = cc pushed in
    (
      pos,
      (
        a,
        (ap (λ (u : AuditAnchor). last_anchor u.anchors) (sym same) ∙ last_anchor-snoc s.anchors a),
        refl,
      ),
    )

-- the contract refuses a size that its last anchor has reached
commit-refused :
    (msg : Message) (size : ℕ) (root : Bytes) (timestamp : ℕ) (s : AuditAnchor) (b : ChainAnchor)
    → last_anchor s.anchors ≡ some b
    → size ≤ b.tree_size
    → (e : Contract.Error) × (Contract.commit msg size root timestamp s ≡ err e)
unfolding Contract.commit
commit-refused msg size root timestamp s b at le = elim (Bool-cases (msg.sender == s.committer)) [
  | inr q ↦ (Contract.not_committer, rw q refl)
  | inl q ↦ elim (Bool-cases (size == 0)) [
    | inl z ↦ (Contract.empty_tree, rw (q, z) refl)
    | inr z ↦
        let old : leb size b.tree_size ≡ true = ground arith in
        (Contract.tree_shrank b.tree_size size, rw (q, z, at, old) refl)
  ]
]

-- whatever becomes of a transaction that the contract refuses, the client has an error
answer_of-refused :
    (d : Delivery) (s : AuditAnchor) (x : Contract.Error)
    → (e : Anchor.Error) × (answer_of d s (err x) ≡ (err e, s))
unfolding answer_of settled
answer_of-refused answered s x = (Anchor.refused (text "reverted"), refl)
answer_of-refused unanswered s x = (Anchor.refused (text "timeout"), refl)
answer_of-refused unsent s x = (Anchor.refused (text "unsent"), refl)

module _ (sha : Sha256) (crypto : Ed25519) (encode : Action → Bytes) (message : ℕ → Message)
    (delivery : ℕ → Delivery) where
  -- The contract's last anchor is at least of this size.
  record HasReached (size : ℕ) (s : AuditAnchor) : Type 0 where
    last : ChainAnchor
    is_last : last_anchor s.anchors ≡ some last
    reached : size ≤ last.tree_size

  client-refused :
      (size : ℕ) (root : Bytes) (now : ℕ) (s : AuditAnchor)
      → HasReached size s
      → (e : Anchor.Error) × ((contract_client message delivery).commit size root now s
          ≡ (err e, s))
  client-refused size root now s h =
      let (x, q) =
        commit-refused (message now) size root (now / 1_000) s h.last h.is_last h.reached in
      let (e, r) = answer_of-refused (delivery now) s x in
      (e, ap (answer_of (delivery now) s) q ∙ r)

  host_eq :
      (h g : Host AuditAnchor)
      → h.world ≡ g.world
      → h.last_committed ≡ g.last_committed
      → h.chain ≡ g.chain
      → h ≡ g
  host_eq h g w l c = λ i. record { world = w i; last_committed = l i; chain = c i }

  pass-reached :
      (now : ℕ) (h : Host AuditAnchor)
      → HasReached (length h.world.pipeline.tree.leaves) h.chain
      → happen sha crypto encode (contract_client message delivery) (pass now) h ≡ h
  unfolding happen Tree.snapshot
  pass-reached now h r =
      let leaves = h.world.pipeline.tree.leaves in
      let c : Committer = record { store = h.world.latest; last_committed = h.last_committed } in
      let (e, failed) = client-refused (length leaves) (mth ⦃sha = sha⦄ leaves) now h.chain r in
      let (same, chain) =
        commit-fails (contract_client message delivery) (length leaves) (mth ⦃sha = sha⦄ leaves) now
          c h.chain e failed in
      host_eq _ h (ap (λ (d : Committer). record h.world { latest = d.store }) same)
        (ap (λ (d : Committer). d.last_committed) same) chain

  pass-unanswered :
      (now : ℕ) (h : Host AuditAnchor) (id : ℕ) (logs : List Log) (after : AuditAnchor)
      → delivery now ≡ unanswered
      → h.last_committed < length h.world.pipeline.tree.leaves
      → Contract.commit
          (message now)
          (length h.world.pipeline.tree.leaves)
          (mth ⦃sha = sha⦄ h.world.pipeline.tree.leaves)
          (now / 1_000)
          h.chain
        ≡ ok (id, logs, after)
      → happen sha crypto encode (contract_client message delivery) (pass now) h
        ≡ record h { chain = after }
  unfolding happen Tree.snapshot answer_of settled record_commit
  pass-unanswered now h id logs after lost new taken =
      let leaves = h.world.pipeline.tree.leaves in
      let root = mth ⦃sha = sha⦄ leaves in
      let c : Committer = record { store = h.world.latest; last_committed = h.last_committed } in
      let (pos, _) =
        commit-last (message now) (length leaves) root (now / 1_000) h.chain id logs after taken in
      rw
        (
          commit-calls (contract_client message delivery) (length leaves) root now c h.chain pos
              (length-mth ⦃sha = sha⦄ leaves) new,
          lost,
          taken,
        )
        refl

  passes-reached :
      (later : List ℕ) (h : Host AuditAnchor)
      → HasReached (length h.world.pipeline.tree.leaves) h.chain
      → happen_all sha crypto encode (contract_client message delivery) (map pass later) h ≡ h
  unfolding happen_all
  passes-reached [] h r = refl
  passes-reached (now ∷ later) h r =
      ap (happen_all sha crypto encode (contract_client message delivery) (map pass later))
        (pass-reached now h r)
      ∙ passes-reached later h r

  -- Let a pass of the committer send the root of a log that has grown, let the contract take it, and let
  -- the answer be lost. Then all that is different, after any number of further passes on the same
  -- log, whatever becomes of their transactions, is the contract: it has the anchor, and the server's
  -- latest anchor and the committer's last size are the ones from before.
  pub passes-unanswered :
      (now : ℕ) (later : List ℕ) (h : Host AuditAnchor) (id : ℕ) (logs : List Log)
      (after : AuditAnchor)
      → delivery now ≡ unanswered
      → h.last_committed < length h.world.pipeline.tree.leaves
      → Contract.commit
          (message now)
          (length h.world.pipeline.tree.leaves)
          (mth ⦃sha = sha⦄ h.world.pipeline.tree.leaves)
          (now / 1_000)
          h.chain
        ≡ ok (id, logs, after)
      → happen_all sha crypto encode (contract_client message delivery) (map pass (now ∷ later)) h
        ≡ record h { chain = after }
  unfolding happen_all
  passes-unanswered now later h id logs after lost new taken =
      let leaves = h.world.pipeline.tree.leaves in
      let (_, (last, is_last, same)) =
        commit-last (message now) (length leaves) (mth ⦃sha = sha⦄ leaves) (now / 1_000) h.chain id
          logs after taken in
      ap (happen_all sha crypto encode (contract_client message delivery) (map pass later))
        (pass-unanswered now h id logs after lost new taken)
      ∙ passes-reached later (record h { chain = after })
          (record { last = last; is_last = is_last; reached = omega (arith, same) })

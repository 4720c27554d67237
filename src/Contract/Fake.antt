-- ===== src/Contract/Fake.antt =====
-- The fake chain of the Go code (`FakeEVMClient` of internal/anchor/client.go) against the contract that it
-- stands for (contracts/src/AuditAnchor.sol).
use crypto_agent.Prelude.{
  ℕ, suc, true, false, not, ◌&&◌, none, some, List, [], ◌∷◌, ◌++◌, Bytes, text, length, leb, ◌==◌,
  Result, ok, err, ◌≡◌, refl, ap, ◌∙◌, arith, Bool-cases, inl, inr,
}
use crypto_agent.Anchor
use crypto_agent.Anchor.{
  Anchor, CommitReceipt, FakeEvmClient, fake_commit, fake_record, last_size, validate_commit,
  hash_size, hex_width,
}
use crypto_agent.Anchor.Trail.{fake_commit-ok}
use crypto_agent.Contract
use crypto_agent.Contract.{
  ChainAnchor, AuditAnchor, Message, last_anchor, push, commit, settled, Log, Outcome,
}
use crypto_agent.Contract.Marks.{Mirrors, marks-length, marks-last, both_take, called-Mirrors}

-- The two answers agree: both take the anchor under one number, or both refuse for one reason.
pub data Agree : Result Anchor.Error CommitReceipt → Outcome ℕ → Type 0 where
  taken :
      (receipt : CommitReceipt) (id : ℕ) (logs : List Log) (s : AuditAnchor)
      → receipt.id ≡ id
      → Agree (ok receipt) (ok (id, logs, s))
  empty : Agree (err Anchor.empty_tree) (err Contract.empty_tree)
  shrank : (last next : ℕ) → Agree (err Anchor.tree_shrank) (err (Contract.tree_shrank last next))

fake_commit-empty :
    (size : ℕ) (root : Bytes) (now : ℕ) (f : FakeEvmClient)
    → (size == 0) ≡ true
    → fake_commit size root now f ≡ (err Anchor.empty_tree, record f { calls = suc f.calls })
unfolding fake_commit validate_commit
fake_commit-empty size root now f z = rw (fake_commit, z) refl

-- what the fake client gives, and what it keeps, for an anchor that it takes
abbrev fake_hash : FakeEvmClient → Bytes
fake_hash f = text "0xfake" ++ hex_width 16 f.next_id

abbrev fake_receipt : FakeEvmClient → CommitReceipt
fake_receipt f = record { id = f.next_id; tx_hash = fake_hash f; block_number = 0 }

abbrev fake_anchor : ℕ → Bytes → ℕ → FakeEvmClient → Anchor
fake_anchor size root ts f = record {
  id = f.next_id;
  tree_size = size;
  root = root;
  timestamp = ts;
  block_number = 0;
  tx_hash = fake_hash f;
}

fake_record-takes :
    (f : FakeEvmClient) (size : ℕ) (root : Bytes) (ts : ℕ)
    → f.fail_next ≡ none
    → (not (length f.anchors == 0) && leb size (last_size f.anchors)) ≡ false
    → fake_record size root ts f ≡ (
      ok (fake_receipt f),
      record f {
        anchors = f.anchors ++ (fake_anchor size root ts f ∷ []);
        next_id = suc f.next_id;
      },
    )
unfolding fake_record
fake_record-takes f size root ts calm new = rw (calm, new) refl

fake_record-shrinks :
    (f : FakeEvmClient) (size : ℕ) (root : Bytes) (ts : ℕ)
    → f.fail_next ≡ none
    → (not (length f.anchors == 0) && leb size (last_size f.anchors)) ≡ true
    → fake_record size root ts f ≡ (err Anchor.tree_shrank, f)
unfolding fake_record
fake_record-shrinks f size root ts calm old = rw (calm, old) refl

module _ (s : AuditAnchor) (msg : Message) (size : ℕ) (root : Bytes) (timestamp : ℕ)
    (mine : (msg.sender == s.committer) ≡ true) (some_size : (size == 0) ≡ false) where
  commit-first :
      last_anchor s.anchors ≡ none
      → commit msg size root timestamp s ≡ push msg size root timestamp s
  unfolding commit
  commit-first l = rw (mine, some_size, l) refl

  commit-larger :
      (b : ChainAnchor)
      → last_anchor s.anchors ≡ some b
      → leb size b.tree_size ≡ false
      → commit msg size root timestamp s ≡ push msg size root timestamp s
  unfolding commit
  commit-larger b l k = rw (mine, some_size, l, k) refl

  commit-shrinks :
      (b : ChainAnchor)
      → last_anchor s.anchors ≡ some b
      → leb size b.tree_size ≡ true
      → commit msg size root timestamp s ≡ err (Contract.tree_shrank b.tree_size size)
  unfolding commit
  commit-shrinks b l k = rw (mine, some_size, l, k) refl

-- Two outcomes agree, and so do the states behind them.
pub Together : AuditAnchor → Result Anchor.Error CommitReceipt × FakeEvmClient → Outcome ℕ → Type 0
Together s (r, g) o = Agree r o × Mirrors g (settled s o)

both_push :
    (f : FakeEvmClient) (s : AuditAnchor) (msg : Message) (size : ℕ) (root : Bytes)
    (ts timestamp : ℕ)
    → Mirrors f s
    → Together s
        (
          ok (fake_receipt f),
          record f {
            anchors = f.anchors ++ (fake_anchor size root ts f ∷ []);
            next_id = suc f.next_id;
          },
        )
        (push msg size root timestamp s)
unfolding Together push settled
both_push f s msg size root ts timestamp h = (
  taken (fake_receipt f) (length s.anchors) _ _
      (h.numbered ∙ marks-length f.anchors s.anchors h.same),
  both_take f s (fake_anchor size root ts f) _ h refl refl,
)

both_shrink :
    (f : FakeEvmClient) (s : AuditAnchor) (last next : ℕ)
    → Mirrors f s
    → Together s (err Anchor.tree_shrank, f) (err (Contract.tree_shrank last next))
unfolding Together settled
both_shrink f s last next h = (shrank last next, h)

-- behind the checks that the two have in common
recorded :
    (f : FakeEvmClient) (s : AuditAnchor) (msg : Message) (size : ℕ) (root : Bytes)
    (ts timestamp : ℕ)
    → Mirrors f s
    → f.fail_next ≡ none
    → (msg.sender == s.committer) ≡ true
    → (size == 0) ≡ false
    → Together s (fake_record size root ts f) (commit msg size root timestamp s)
recorded f s msg size root ts timestamp h calm mine some_size =
    let push_both = both_push f s msg size root ts timestamp h in
    elim (marks-last f.anchors s.anchors h.same) [
      | inl (z, l) ↦
          rw
            (
              fake_record-takes f size root ts calm (ground (arith, ap length z)),
              commit-first s msg size root timestamp mine some_size l,
            )
            push_both
      | inr (b, l, last, more) ↦ elim (Bool-cases (leb size b.tree_size)) [
        | inl k ↦
            rw
              (
                fake_record-shrinks f size root ts calm (ground (arith, more, last, k)),
                commit-shrinks s msg size root timestamp mine some_size b l k,
              )
              (both_shrink f s b.tree_size size h)
        | inr k ↦
            rw
              (
                fake_record-takes f size root ts calm (ground (arith, more, last, k)),
                commit-larger s msg size root timestamp mine some_size b l k,
              )
              push_both
      ]
    ]

both_empty :
    (f : FakeEvmClient) (s : AuditAnchor)
    → Mirrors f s
    → Together s (err Anchor.empty_tree, record f { calls = suc f.calls }) (err Contract.empty_tree)
unfolding Together settled
both_empty f s h = (empty, called-Mirrors f s h)

commit-empty :
    (s : AuditAnchor) (msg : Message) (size : ℕ) (root : Bytes) (timestamp : ℕ)
    → (msg.sender == s.committer) ≡ true
    → (size == 0) ≡ true
    → commit msg size root timestamp s ≡ err Contract.empty_tree
unfolding commit
commit-empty s msg size root timestamp mine z = rw (mine, z) refl

-- Where the fake chain and the contract hold the same sizes and roots, a commit of a root of 32 bytes
-- that the fake client is not told to fail, and that the contract gets from its committer, has one
-- outcome in both: it is taken under one number, or refused because the tree is empty or has not grown;
-- and they hold the same sizes and roots behind it.
pub fake_commit-Together :
    (f : FakeEvmClient) (s : AuditAnchor) (msg : Message) (size : ℕ) (root : Bytes)
    (ts timestamp : ℕ)
    → Mirrors f s
    → f.fail_next ≡ none
    → length root ≡ 32
    → msg.sender ≡ s.committer
    → Together s (fake_commit size root ts f) (commit msg size root timestamp s)
fake_commit-Together f s msg size root ts timestamp h calm sized mine =
    let from : (msg.sender == s.committer) ≡ true = ground (arith, mine) in
    elim (Bool-cases (size == 0)) [
      | inl z ↦
          rw (fake_commit-empty size root ts f z, commit-empty s msg size root timestamp from z)
            (both_empty f s h)
      | inr z ↦ rw (fake_commit-ok size root ts f z (ground (arith, sized))) (
          recorded (record f { calls = suc f.calls }) s msg size root ts timestamp
            (called-Mirrors f s h) calm from z)
    ]

-- ===== src/Contract/Ledger.antt =====
-- What a transaction does to the ledger of the contract (contracts/src/AuditAnchor.sol), and who may change
-- what.
use crypto_agent.Prelude.{
  ℕ, ◌<◌, some, List, [], ◌∷◌, ◌++◌, Bytes, leb, ◌==◌, ok, ◌≡◌, ◌≢◌, refl, arith, get_elem?,
  get_elem?-append, Bool-cases, Option-cases, inl, inr,
}
use crypto_agent.Contract.{
  ChainAnchor, AuditAnchor, Message, last_anchor, push, commit, anchor_at, Transaction, commits,
  sets_committer, transfers_ownership, accepts_ownership, settled, set_committer,
  transfer_ownership, accept_ownership, execute, execute_all,
}

-- what a transaction does to the anchors
pub data Extended (msg : Message) (s : AuditAnchor) : Transaction → AuditAnchor → Type 0 where
  kept : (t : Transaction) (u : AuditAnchor) → u.anchors ≡ s.anchors → Extended msg s t u
  committed :
      (tree_size : ℕ) (root : Bytes) (timestamp : ℕ) (u : AuditAnchor) (a : ChainAnchor)
      → msg.sender ≡ s.committer
      → a.tree_size ≡ tree_size
      → a.root ≡ root
      → a.timestamp ≡ timestamp
      → 0 < tree_size
      → ((b : ChainAnchor) → last_anchor s.anchors ≡ some b → b.tree_size < tree_size)
      → u.anchors ≡ s.anchors ++ (a ∷ [])
      → Extended msg s (commits tree_size root timestamp) u

pub commit-Extended :
    (msg : Message) (tree_size : ℕ) (root : Bytes) (timestamp : ℕ) (s : AuditAnchor)
    → Extended msg s
        (commits tree_size root timestamp)
        (settled s (commit msg tree_size root timestamp s))
unfolding commit settled push
commit-Extended msg n root ts s = elim (Bool-cases (msg.sender == s.committer)) [
  | inr q ↦ rw q (kept (commits n root ts) s refl)
  | inl q ↦ elim (Bool-cases (n == 0)) [
    | inl z ↦ rw (q, z) (kept (commits n root ts) s refl)
    | inr z ↦ elim (Option-cases (last_anchor s.anchors)) [
      | inl l ↦
          rw (q, z, l)
            (committed n root ts _ _ (ground (arith, q)) refl refl refl (ground (arith, z))
              (λ b h. absurd (cc (l, h))) refl)
      | inr (b, l) ↦ elim (Bool-cases (leb n b.tree_size)) [
        | inl k ↦ rw (q, z, l, k) (kept (commits n root ts) s refl)
        | inr k ↦
            rw (q, z, l, k)
              (committed n root ts _ _ (ground (arith, q)) refl refl refl (ground (arith, z))
                (λ c h. ground (arith, k, l, h)) refl)
      ]
    ]
  ]
]

set_committer-anchors :
    (msg : Message) (next : ℕ) (s : AuditAnchor)
    → (settled s (set_committer msg next s)).anchors ≡ s.anchors
unfolding set_committer settled
set_committer-anchors msg next s = ground arith

transfer_ownership-anchors :
    (msg : Message) (next : ℕ) (s : AuditAnchor)
    → (settled s (transfer_ownership msg next s)).anchors ≡ s.anchors
unfolding transfer_ownership settled
transfer_ownership-anchors msg next s = ground arith

accept_ownership-anchors :
    (msg : Message) (s : AuditAnchor) → (settled s (accept_ownership msg s)).anchors ≡ s.anchors
unfolding accept_ownership settled
accept_ownership-anchors msg s = ground arith

-- A transaction leaves the anchors as they are, or it is a commit, of the committer, whose size is above 0
-- and above the last anchor's, and adds the anchor that it asks for behind them.
pub execute-Extended :
    (msg : Message) (t : Transaction) (s : AuditAnchor) → Extended msg s t (execute msg t s)
unfolding execute
execute-Extended msg (commits n root ts) s = commit-Extended msg n root ts s
execute-Extended msg (sets_committer next) s = kept _ _ (set_committer-anchors msg next s)
execute-Extended msg (transfers_ownership next) s = kept _ _ (transfer_ownership-anchors msg next s)
execute-Extended msg accepts_ownership s = kept _ _ (accept_ownership-anchors msg s)

Extended-kept :
    (msg : Message) (s u : AuditAnchor) (t : Transaction) (i : ℕ) (a : ChainAnchor)
    → Extended msg s t u
    → get_elem? s.anchors i ≡ some a
    → get_elem? u.anchors i ≡ some a
Extended-kept msg s _ _ i a (kept t u q) h = rw q h
Extended-kept msg s _ _ i a (committed _ _ _ u x _ _ _ _ _ _ q) h =
    rw q (get_elem?-append s.anchors (x ∷ []) i a h)

kept_all :
    (ts : List (Message × Transaction)) (s : AuditAnchor) (i : ℕ) (a : ChainAnchor)
    → get_elem? s.anchors i ≡ some a
    → get_elem? (execute_all ts s).anchors i ≡ some a
unfolding execute_all
kept_all [] s i a h = h
kept_all ((msg, t) ∷ ts) s i a h =
    kept_all ts (execute msg t s) i a
      (Extended-kept msg s (execute msg t s) t i a (execute-Extended msg t s) h)

-- What `anchorAt` has once answered it answers after any transactions, of whomever.
pub anchor_at-execute_all :
    (ts : List (Message × Transaction)) (s : AuditAnchor) (i : ℕ) (a : ChainAnchor)
    → anchor_at i s ≡ ok a
    → anchor_at i (execute_all ts s) ≡ ok a
unfolding anchor_at
anchor_at-execute_all ts s i a h =
    let at : get_elem? s.anchors i ≡ some a = ground (arith, h) in
    rw (anchor_at, kept_all ts s i a at) refl

-- The owner changes only by the acceptance of the one whom the owner had named, and that one is the sender.
pub owner_handover :
    (msg : Message) (t : Transaction) (s : AuditAnchor)
    → (execute msg t s).owner ≢ s.owner
    → (t ≡ accepts_ownership)
      × (msg.sender ≡ s.pending_owner)
      × ((execute msg t s).owner ≡ msg.sender)
unfolding execute commit set_committer transfer_ownership accept_ownership settled push
owner_handover msg (commits n root ts) s h = ground (arith, h)
owner_handover msg (sets_committer next) s h = ground (arith, h)
owner_handover msg (transfers_ownership next) s h = ground (arith, h)
owner_handover msg accepts_ownership s h = ground (arith, h)

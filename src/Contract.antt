-- ===== src/Contract.antt =====
-- contracts/src/AuditAnchor.sol: the chain's side of the anchors. A transaction is one step on the
-- contract's storage; a revert leaves it as it was. The sender and the block's number come from the
-- chain; addresses are numbers, and 0 is the zero address. A `uint64` argument is a number, which the
-- code only compares and stores.
pub mod Ledger
pub mod Sizes
pub mod Marks
pub mod Fake
use crypto_agent.Prelude.{
  ℕ, ◌^◌, ◌%◌, Bool, true, false, not, ◌&&◌, Option, none, some, List, [], ◌∷◌, ◌++◌, Bytes, length,
  get_elem?, leb, ◌==◌, if◌then◌else◌, Result, ok, err,
}

abbrev pub Address : Type 0
Address = ℕ

pub record ChainAnchor : Type 0 where
  pub tree_size : ℕ
  pub root : Bytes
  pub timestamp : ℕ
  pub block_number : ℕ

pub data Log : Type 0 where
  audit_anchored : ℕ → ℕ → Bytes → ℕ → ℕ → Log
  committer_changed : Address → Address → Log
  ownership_transfer_started : Address → Address → Log
  ownership_transferred : Address → Address → Log

-- `panicked` is the compiler's panic of an index out of bounds.
pub data Error : Type 0 where
  not_owner not_pending_owner not_committer empty_tree zero_address panicked : Error
  tree_shrank : ℕ → ℕ → Error

pub record AuditAnchor : Type 0 where
  pub owner : Address
  pub pending_owner : Address
  pub committer : Address
  pub anchors : List ChainAnchor

-- what a transaction has around it
pub record Message : Type 0 where
  pub sender : Address
  pub block_number : ℕ

-- a call's value with its logs and the storage behind it, or the reason of the revert
abbrev pub Outcome : Type 0 → Type 0
Outcome A = Result Error (A × List Log × AuditAnchor)

-- the constructor
unfoldable pub deploy : Message → Address → Result Error AuditAnchor
deploy msg initial_committer =
    if initial_committer == 0
    then err zero_address
    else ok (record {
      owner = msg.sender;
      pending_owner = 0;
      committer = initial_committer;
      anchors = [];
    })

-- `anchors[anchors.length - 1]`, where there is one
unfoldable pub last_anchor : List ChainAnchor → Option ChainAnchor
last_anchor [] = none
last_anchor (a ∷ []) = some a
last_anchor (a ∷ b ∷ rest) = last_anchor (b ∷ rest)

-- `commit` behind its checks
unfoldable pub push : Message → ℕ → Bytes → ℕ → AuditAnchor → Outcome ℕ
push msg tree_size root timestamp s =
    let block : ℕ = msg.block_number % 2 ^ 64 in
    let a : ChainAnchor = record {
      tree_size = tree_size;
      root = root;
      timestamp = timestamp;
      block_number = block;
    } in
    ok (
      length s.anchors,
      audit_anchored (length s.anchors) tree_size root block timestamp ∷ [],
      record s { anchors = s.anchors ++ (a ∷ []) },
    )

unfoldable pub commit : Message → ℕ → Bytes → ℕ → AuditAnchor → Outcome ℕ
unfolding last_anchor push
commit msg tree_size root timestamp s =
    if not (msg.sender == s.committer)
    then err not_committer
    else if tree_size == 0
    then err empty_tree
    else elim (last_anchor s.anchors) [
      | none ↦ push msg tree_size root timestamp s
      | some last ↦
          if leb tree_size last.tree_size
          then err (tree_shrank last.tree_size tree_size)
          else push msg tree_size root timestamp s
    ]

unfoldable pub anchor_at : ℕ → AuditAnchor → Result Error ChainAnchor
anchor_at id s = elim (get_elem? s.anchors id) [ none ↦ err panicked | some a ↦ ok a ]

unfoldable pub latest : AuditAnchor → Result Error ChainAnchor
unfolding last_anchor
latest s = elim (last_anchor s.anchors) [ none ↦ err empty_tree | some a ↦ ok a ]

unfoldable pub count : AuditAnchor → ℕ
count s = length s.anchors

unfoldable pub set_committer : Message → Address → AuditAnchor → Outcome (Unit {0})
set_committer msg next s =
    if not (msg.sender == s.owner)
    then err not_owner
    else if next == 0
    then err zero_address
    else ok (tt, committer_changed s.committer next ∷ [], record s { committer = next })

unfoldable pub transfer_ownership : Message → Address → AuditAnchor → Outcome (Unit {0})
transfer_ownership msg next s =
    if not (msg.sender == s.owner)
    then err not_owner
    else if next == 0
    then err zero_address
    else ok (tt, ownership_transfer_started s.owner next ∷ [], record s { pending_owner = next })

unfoldable pub accept_ownership : Message → AuditAnchor → Outcome (Unit {0})
accept_ownership msg s =
    if not (msg.sender == s.pending_owner)
    then err not_pending_owner
    else ok (
      tt,
      ownership_transferred s.owner s.pending_owner ∷ [],
      record s { owner = s.pending_owner; pending_owner = 0 },
    )

-- The transactions that a sender can ask for.
pub data Transaction : Type 0 where
  commits : ℕ → Bytes → ℕ → Transaction
  sets_committer : Address → Transaction
  transfers_ownership : Address → Transaction
  accepts_ownership : Transaction

-- the storage behind an outcome
unfoldable pub settled : {A : Type 0} → AuditAnchor → Outcome A → AuditAnchor
settled s (err e) = s
settled s (ok (value, logs, after)) = after

unfoldable pub execute : Message → Transaction → AuditAnchor → AuditAnchor
unfolding settled commit set_committer transfer_ownership accept_ownership
execute msg (commits tree_size root timestamp) s = settled s (commit msg tree_size root timestamp s)
execute msg (sets_committer next) s = settled s (set_committer msg next s)
execute msg (transfers_ownership next) s = settled s (transfer_ownership msg next s)
execute msg accepts_ownership s = settled s (accept_ownership msg s)

unfoldable pub execute_all : List (Message × Transaction) → AuditAnchor → AuditAnchor
unfolding execute
execute_all [] s = s
execute_all ((msg, t) ∷ ts) s = execute_all ts (execute msg t s)

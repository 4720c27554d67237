-- ===== src/Anchor.antt =====
-- go-key-service/internal/anchor: anchor.go, committer.go and the FakeEVMClient of client.go, which
-- commit the size and the root of the Merkle tree to a chain. A pass of the committer is one step.
-- The chain client is a record of one operation on a state of its own; the fake client is one.
-- Identifiers are numbers: a client records fewer than 2^64 anchors.
pub mod Trail
pub mod Progress
pub mod Cast
pub mod Loop
pub mod Lifecycle
use crypto_agent.Prelude.{
  ℕ, zero, suc, ◌+◌, ◌/◌, ◌%◌, Bool, true, false, not, ◌&&◌, Option, none, some, List, [], ◌∷◌,
  ◌++◌, Bytes, text, length, leb, ◌==◌, if◌then◌else◌, Result, ok, err,
}
use crypto_agent.Prelude.Hex.{hex_digit}

abbrev pub hash_size : ℕ
hash_size = 32

pub record Anchor : Type 0 where
  pub id : ℕ
  pub tree_size : ℕ
  pub root : Bytes
  pub timestamp : ℕ
  pub block_number : ℕ
  pub tx_hash : Bytes

pub record CommitReceipt : Type 0 where
  pub id : ℕ
  pub tx_hash : Bytes
  pub block_number : ℕ

-- `refused` is an error that a client makes up. `failed` is one of a client as `formatErr` wraps it, with
-- the size and the root.
pub data Error : Type 0 where
  tree_shrank invalid_root empty_tree no_anchor_yet : Error
  refused : Bytes → Error
  failed : Error → ℕ → Bytes → Error

unfoldable pub validate_commit : ℕ → Bytes → Result Error (Unit {0})
validate_commit tree_size root =
    if tree_size == 0
    then err empty_tree
    else if not (length root == hash_size)
    then err invalid_root
    else ok tt

-- `EVMClient`: its state, and what `Commit` of a size and a root at a time does with it
pub record EvmClient : Type 1 where
  pub State : Type 0
  pub commit : ℕ → Bytes → ℕ → State → Result Error CommitReceipt × State

pub record LatestStore : Type 0 where
  pub latest : Option Anchor

unfoldable pub set : Anchor → LatestStore → LatestStore
set a s = record { latest = some a }

unfoldable pub latest_anchor : LatestStore → Result Error Anchor
latest_anchor s = elim s.latest [ none ↦ err no_anchor_yet | some a ↦ ok a ]

pub record Committer : Type 0 where
  pub store : LatestStore
  pub last_committed : ℕ

module _ (client : EvmClient) where
  -- `commit` behind the call of the client, whose answer is the last argument
  unfoldable pub record_commit :
      ℕ
      → Bytes
      → ℕ
      → Committer
      → Result Error CommitReceipt × client.State
      → Result Error Anchor × Committer × client.State
  unfolding set
  record_commit size root now c (err e, s) = (err (failed e size root), c, s)
  record_commit size root now c (ok receipt, s) =
      let a : Anchor = record {
        id = receipt.id;
        tree_size = size;
        root = root;
        timestamp = now;
        block_number = receipt.block_number;
        tx_hash = receipt.tx_hash;
      } in
      (ok a, record { store = set a c.store; last_committed = size }, s)

  -- `commit`, on what `Snapshot` of the tree returned
  unfoldable pub commit :
      ℕ × Bytes → ℕ → Committer → client.State → Result Error Anchor × Committer × client.State
  unfolding record_commit validate_commit
  commit (size, root) now c s =
      if size == 0 then (err empty_tree, c, s) else elim (validate_commit size root) [
        | err e ↦ (err e, c, s)
        | ok _ ↦
            if leb size c.last_committed
            then (err tree_shrank, c, s)
            else record_commit size root now c (client.commit size root now s)
      ]

pub record FakeEvmClient : Type 0 where
  pub anchors : List Anchor
  pub next_id : ℕ
  pub fail_next : Option Error
  pub calls : ℕ

abbrev pub new_fake : FakeEvmClient
new_fake = record { anchors = []; next_id = 0; fail_next = none; calls = 0 }

unfoldable pub set_next_error : Option Error → FakeEvmClient → FakeEvmClient
set_next_error e f = record f { fail_next = e }

-- the tree size of the last anchor, 0 where there is none
unfoldable pub last_size : List Anchor → ℕ
last_size [] = 0
last_size (a ∷ []) = a.tree_size
last_size (a ∷ b ∷ rest) = last_size (b ∷ rest)

-- `%0nx` of a number below 16^n
unfoldable pub hex_width : ℕ → ℕ → Bytes
hex_width zero v = []
hex_width (suc n) v = hex_width n (v / 16) ++ (hex_digit (v % 16) ∷ [])

-- `FakeEVMClient.Commit` behind the check of the arguments
unfoldable pub fake_record :
    ℕ → Bytes → ℕ → FakeEvmClient → Result Error CommitReceipt × FakeEvmClient
unfolding last_size hex_width
fake_record tree_size root ts f =
    let tx_hash : Bytes = text "0xfake" ++ hex_width 16 f.next_id in
    let a : Anchor = record {
      id = f.next_id;
      tree_size = tree_size;
      root = root;
      timestamp = ts;
      block_number = 0;
      tx_hash = tx_hash;
    } in
    elim f.fail_next [
      | some e ↦ (err e, record f { fail_next = none })
      | none ↦
          if not (length f.anchors == 0) && leb tree_size (last_size f.anchors)
          then (err tree_shrank, f)
          else (
            ok (record { id = f.next_id; tx_hash = tx_hash; block_number = 0 }),
            record f { anchors = f.anchors ++ (a ∷ []); next_id = suc f.next_id },
          )
    ]

unfoldable pub fake_commit :
    ℕ → Bytes → ℕ → FakeEvmClient → Result Error CommitReceipt × FakeEvmClient
unfolding fake_record validate_commit
fake_commit tree_size root ts f =
    let called : FakeEvmClient = record f { calls = suc f.calls } in
    elim (validate_commit tree_size root) [
      | err e ↦ (err e, called)
      | ok _ ↦ fake_record tree_size root ts called
    ]

abbrev pub fake_client : EvmClient
fake_client = record { State = FakeEvmClient; commit = fake_commit }

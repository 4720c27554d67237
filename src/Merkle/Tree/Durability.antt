-- ===== src/Merkle/Tree/Durability.antt =====
-- The backing file (go-key-service/internal/merkle/persistence.go): what a later `Open` reads back.
use mathlib.Core.List.{append-nil, append_assoc}
use crypto_agent.Prelude.{
  ◌*◌, ◌/◌, ◌≡◌, refl, sym, ap, ◌∙◌, Bool, true, false, arith, Option, none, some, List, [], ◌∷◌,
  ◌++◌, Bytes, length, take, drop, All, All-append, length-append, take_front, drop_front, ok, err,
  Bool-cases, Option-cases, inl, inr,
}
use mathlib.Core.Path.{ap₂}
use crypto_agent.Merkle.Hash.{Sha256, closed, sync_failed, hash_leaf}
use crypto_agent.Merkle.Tree.{
  Tree, WriteFate, durable, write_leaf, add_leaf, unsynced, persist_locked, append, read_leaves,
  load_locked, open_file,
}

-- The file of these leaves: their hashes, one after the other.
unfoldable pub contents : List Bytes → Bytes
contents [] = []
contents (x ∷ xs) = x ++ contents xs

contents-append : (xs : List Bytes) (x : Bytes) → contents (xs ++ (x ∷ [])) ≡ contents xs ++ x
unfolding contents
contents-append [] x = append-nil x
contents-append (y ∷ ys) x = rw (contents-append ys x) (sym (append_assoc y (contents ys) x))

-- A tree whose leaves have 32 bytes each, and whose file, if it has one, holds just these.
pub record IsDurable (t : Tree) : Type 0 where
  pub sized : All (λ (x : Bytes). length x ≡ 32) t.leaves
  pub stored : (f : Bytes) → t.file ≡ some f → f ≡ contents t.leaves

length-contents :
    (xs : List Bytes)
    → All (λ (x : Bytes). length x ≡ 32) xs
    → length (contents xs) ≡ 32 * length xs
unfolding contents
length-contents [] h = refl
length-contents (x ∷ xs) h =
    omega (arith, length-append x (contents xs), length-contents xs h.1, h.0)

read_leaves-contents :
    (xs : List Bytes)
    → All (λ (x : Bytes). length x ≡ 32) xs
    → read_leaves (length xs) (contents xs) ≡ xs
unfolding read_leaves contents
read_leaves-contents [] h = refl
read_leaves-contents (x ∷ xs) h =
    let front : take 32 (x ++ contents xs) ≡ x =
      ap (λ n. take n (x ++ contents xs)) (sym h.0) ∙ take_front x (contents xs) in
    let back : drop 32 (x ++ contents xs) ≡ contents xs =
      ap (λ n. drop n (x ++ contents xs)) (sym h.0) ∙ drop_front x (contents xs) in
    ap₂ (λ a b. a ∷ b) front (ap (read_leaves (length xs)) back ∙ read_leaves-contents xs h.1)

-- `Open` of the file of a durable tree returns an open tree with the same leaves and the same file.
pub open_file-contents :
    (t : Tree) (f : Bytes)
    → IsDurable t
    → t.file ≡ some f
    → open_file f ≡ ok (record { leaves = t.leaves; file = some f; is_closed = false })
unfolding open_file load_locked
open_file-contents t f h e =
    let n = length-contents t.leaves h.sized in
    let same = h.stored f e in
    let len : length f ≡ 32 * length t.leaves = ap length same ∙ n in
    let count : length f / 32 ≡ length t.leaves = omega arith in
    let all : read_leaves (length f / 32) f ≡ t.leaves =
      ap₂ read_leaves count same ∙ read_leaves-contents t.leaves h.sized in
    ground (arith, all)

module _ ⦃sha : Sha256⦄ where
  length-hash_leaf : (a : Bytes) → length (hash_leaf a) ≡ 32
  unfolding hash_leaf
  length-hash_leaf a = sha.length-sum256 (0 ∷ a)

  append_closed :
      (fate : WriteFate) (payload : Bytes) (t : Tree)
      → t.is_closed ≡ true
      → append fate payload t ≡ (err closed, t)
  unfolding append persist_locked write_leaf add_leaf
  append_closed fate payload t e = rw e

  pub append_memory :
      (payload : Bytes) (t : Tree)
      → t.is_closed ≡ false
      → t.file ≡ none
      → (append durable payload t).1 ≡ record t { leaves = t.leaves ++ (hash_leaf payload ∷ []) }
  unfolding append persist_locked write_leaf add_leaf
  append_memory payload t e f = ground arith

  append_written :
      (payload : Bytes) (t : Tree) (f : Bytes)
      → t.is_closed ≡ false
      → t.file ≡ some f
      → (append durable payload t).1 ≡ record t {
        leaves = t.leaves ++ (hash_leaf payload ∷ []);
        file = some (f ++ hash_leaf payload);
      }
  unfolding append persist_locked write_leaf add_leaf
  append_written payload t f e g = ground arith

  append_refused :
      (payload : Bytes) (t : Tree) (f : Bytes)
      → t.is_closed ≡ false
      → t.file ≡ some f
      → append unsynced payload t
        ≡ (err sync_failed, record t { file = some (f ++ hash_leaf payload) })
  unfolding append persist_locked write_leaf add_leaf
  append_refused payload t f e g = ground arith

  grown-IsDurable :
      (payload : Bytes) (t : Tree) (f : Option Bytes) (c : Bool)
      → IsDurable t
      → ((g : Bytes) → f ≡ some g → g ≡ contents t.leaves ++ hash_leaf payload)
      → IsDurable
          (record { leaves = t.leaves ++ (hash_leaf payload ∷ []); file = f; is_closed = c })
  grown-IsDurable payload t f c h same = record {
    sized = All-append _ t.leaves (hash_leaf payload ∷ []) h.sized (length-hash_leaf payload, tt);
    stored = λ g e. same g e ∙ sym (contents-append t.leaves (hash_leaf payload));
  }

  -- An append that the disk takes keeps the leaves at 32 bytes and the file in step with them.
  pub append-IsDurable :
      (payload : Bytes) (t : Tree) → IsDurable t → IsDurable (append durable payload t).1
  append-IsDurable payload t h = elim (Bool-cases t.is_closed) [
    | inl shut ↦ rw (append_closed durable payload t shut) h
    | inr unshut ↦ elim (Option-cases t.file) [
      | inl bare ↦
          rw (append_memory payload t unshut bare)
            (grown-IsDurable payload t t.file t.is_closed h (λ g e. absurd (cc (bare, e))))
      | inr (f, backed) ↦ rw (append_written payload t f unshut backed) (
          grown-IsDurable payload t (some (f ++ hash_leaf payload)) t.is_closed h
            (λ g e. cc (e, h.stored f backed)))
    ]
  ]

  -- Where the flush fails, the call reports an error and the tree keeps its leaves, but the file
  -- has the new leaf: `Open` later returns a tree with a leaf that was never acknowledged.
  pub append_unsynced :
      (payload : Bytes) (t : Tree) (f : Bytes)
      → IsDurable t
      → t.is_closed ≡ false
      → t.file ≡ some f
      → ((append unsynced payload t).0 ≡ err sync_failed)
        × ((append unsynced payload t).1.leaves ≡ t.leaves)
        × ((append unsynced payload t).1.file ≡ some (f ++ hash_leaf payload))
        × (open_file (f ++ hash_leaf payload)
            ≡ ok (record {
              leaves = t.leaves ++ (hash_leaf payload ∷ []);
              file = some (f ++ hash_leaf payload);
              is_closed = false;
            }))
  append_unsynced payload t f h unshut backed =
      let refused = append_refused payload t f unshut backed in
      let grown : Tree = record {
        leaves = t.leaves ++ (hash_leaf payload ∷ []);
        file = some (f ++ hash_leaf payload);
        is_closed = false;
      } in
      (
        ap (λ r. r.0) refused,
        ap (λ r. r.1.leaves) refused,
        ap (λ r. r.1.file) refused,
        open_file-contents grown (f ++ hash_leaf payload)
            (grown-IsDurable payload t (some (f ++ hash_leaf payload)) false h
              (λ g e. cc (e, h.stored f backed)))
            refl,
      )

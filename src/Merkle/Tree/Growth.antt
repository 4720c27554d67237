-- ===== src/Merkle/Tree/Growth.antt =====
-- What an append does to the leaves of the tree (merkle/tree.go), whatever the disk does.
use mathlib.Core.List.{append-nil}
use crypto_agent.Prelude.{
  ℕ, List, [], ◌∷◌, ◌++◌, Bytes, length, Result, ok, err, ◌≡◌, refl, sym, ap, ◌∙◌, arith,
  length-append, Bool-cases, Option-cases, inl, inr,
}
use crypto_agent.Merkle.Hash.{Sha256, Error, hash_leaf}
use crypto_agent.Merkle.Tree.{
  Tree, WriteFate, durable, torn, unsynced, write_leaf, persist_locked, add_leaf, append,
}

-- What `tree.Append` does to the leaves.
unfoldable pub Grew : Tree → Bytes → Result Error ℕ × Tree → Type 0
Grew t l (ok i, t') = i ≡ length t.leaves × t'.leaves ≡ t.leaves ++ (l ∷ [])
Grew t l (err e, t') = t'.leaves ≡ t.leaves

write_leaf-leaves :
    (fate : WriteFate) (l : Bytes) (t : Tree) (f : Bytes)
    → (write_leaf fate l t f).1.leaves ≡ t.leaves
unfolding write_leaf
write_leaf-leaves durable l t f = refl
write_leaf-leaves (torn n) l t f = refl
write_leaf-leaves unsynced l t f = refl

persist_locked-leaves :
    (fate : WriteFate) (l : Bytes) (t : Tree) → (persist_locked fate l t).1.leaves ≡ t.leaves
unfolding persist_locked
persist_locked-leaves fate l t = elim (Bool-cases t.is_closed) [
  | inl q ↦ rw q refl
  | inr q ↦ elim (Option-cases t.file) [
    | inl n ↦ rw (q, n) refl
    | inr (f, n) ↦ rw (q, n) (write_leaf-leaves fate l t f)
  ]
]

add_leaf-Grew :
    (l : Bytes) (t : Tree) (r : Result Error (Unit {0}) × Tree)
    → r.1.leaves ≡ t.leaves
    → Grew t l (add_leaf l r)
unfolding Grew add_leaf
add_leaf-Grew l t (ok u, t') h =
    (omega (arith, length-append t'.leaves (l ∷ []), ap length h), ap (λ ls. ls ++ (l ∷ [])) h)
add_leaf-Grew l t (err e, t') h = h

pub append-Grew :
    (sha : Sha256) (fate : WriteFate) (payload : Bytes) (t : Tree)
    → Grew t (hash_leaf ⦃sha = sha⦄ payload) (append ⦃sha = sha⦄ fate payload t)
unfolding append
append-Grew sha fate payload t =
    add_leaf-Grew _ t _ (persist_locked-leaves fate (hash_leaf ⦃sha = sha⦄ payload) t)

Grew-grows :
    (t : Tree) (l : Bytes) (r : Result Error ℕ × Tree)
    → Grew t l r
    → (more : List Bytes) × (r.1.leaves ≡ t.leaves ++ more)
unfolding Grew
Grew-grows t l (ok i, t') h = (l ∷ [], h.1)
Grew-grows t l (err e, t') h = ([], h ∙ sym (append-nil t.leaves))

-- The leaves in front of an append stay.
pub append-grows :
    (sha : Sha256) (fate : WriteFate) (payload : Bytes) (t : Tree)
    → (more : List Bytes) × ((append ⦃sha = sha⦄ fate payload t).1.leaves ≡ t.leaves ++ more)
append-grows sha fate payload t = Grew-grows t _ _ (append-Grew sha fate payload t)

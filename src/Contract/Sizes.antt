-- ===== src/Contract/Sizes.antt =====
-- The sizes of the contract's anchors (contracts/src/AuditAnchor.sol): a larger one at each commit.
use crypto_agent.Prelude.{
  ℕ, ◌<◌, ◌≤◌, none, some, List, [], ◌∷◌, ◌++◌, ok, ◌≡◌, refl, sym, ap, arith, get_elem?,
  get_elem?-snoc, get_elem?-some, ◌⊎◌, inl, inr,
}
use mathlib.Core.Path.{subst}
use crypto_agent.Contract.{
  ChainAnchor, AuditAnchor, Message, deploy, last_anchor, anchor_at, Transaction, execute,
  execute_all,
}
use crypto_agent.Contract.Ledger.{Extended, kept, committed, execute-Extended}

-- The sizes of the anchors grow from above 0 up to `n`.
pub data Growing : List ChainAnchor → ℕ → Type 0 where
  nothing : Growing [] 0
  grown :
      (a : ChainAnchor) {rest : List ChainAnchor} {n : ℕ}
      → Growing rest n
      → n < a.tree_size
      → Growing (rest ++ (a ∷ [])) a.tree_size

pub last_anchor-snoc :
    (rest : List ChainAnchor) (a : ChainAnchor) → last_anchor (rest ++ (a ∷ [])) ≡ some a
unfolding last_anchor
last_anchor-snoc [] a = refl
last_anchor-snoc (b ∷ []) a = refl
last_anchor-snoc (b ∷ c ∷ rest) a = last_anchor-snoc (c ∷ rest) a

-- the last anchor has the last size
Growing-last :
    (anchors : List ChainAnchor) (n : ℕ)
    → Growing anchors n
    → ((last_anchor anchors ≡ none) × (n ≡ 0))
      ⊎ ((a : ChainAnchor) × (last_anchor anchors ≡ some a) × (a.tree_size ≡ n))
unfolding last_anchor
Growing-last _ _ nothing = inl (refl, refl)
Growing-last _ _ (grown a {rest} {n} g h) = inr (a, last_anchor-snoc rest a, refl)

IsGrowing : AuditAnchor → Type 0
IsGrowing s = (n : ℕ) × Growing s.anchors n

Extended-IsGrowing :
    (msg : Message) (s u : AuditAnchor) (t : Transaction)
    → Extended msg s t u
    → IsGrowing s
    → IsGrowing u
unfolding IsGrowing
Extended-IsGrowing msg s _ _ (kept t u q) (n, g) = (n, subst (λ l. Growing l n) (sym q) g)
Extended-IsGrowing msg s _ _ (committed size root ts u a _ same _ _ pos above q) (n, g) = (
  a.tree_size,
  subst (λ l. Growing l a.tree_size) (sym q)
      (grown a g (elim (Growing-last s.anchors n g) [
        | inl (_, z) ↦ omega (arith, z, same, pos)
        | inr (b, at, top) ↦ omega (arith, above b at, top, same)
      ])),
)

execute_all-IsGrowing :
    (ts : List (Message × Transaction)) (s : AuditAnchor)
    → IsGrowing s
    → IsGrowing (execute_all ts s)
unfolding execute_all
execute_all-IsGrowing [] s g = g
execute_all-IsGrowing ((msg, t) ∷ ts) s g =
    execute_all-IsGrowing ts (execute msg t s)
      (Extended-IsGrowing msg s (execute msg t s) t (execute-Extended msg t s) g)

deploy-IsGrowing : (msg : Message) (c : ℕ) (s : AuditAnchor) → deploy msg c ≡ ok s → IsGrowing s
unfolding deploy IsGrowing
deploy-IsGrowing msg c s h =
    let empty : s.anchors ≡ [] = ground (arith, h) in
    (0, subst (λ l. Growing l 0) (sym empty) nothing)

-- an anchor is at most as large as the ledger's last size, and larger than none
Growing-member :
    (anchors : List ChainAnchor) (n : ℕ)
    → Growing anchors n
    → (i : ℕ) (a : ChainAnchor) → get_elem? anchors i ≡ some a
    → (0 < a.tree_size) × (a.tree_size ≤ n)
Growing-member _ _ nothing i a h = absurd (cc h)
Growing-member _ _ (grown x {rest} {n} g lt) i a h = elim (get_elem?-snoc rest x a i h) [
  | inl old ↦ let (pos, le) = Growing-member rest n g i a old in (pos, omega (arith, le, lt))
  | inr (_, same) ↦ (
    omega (arith, ap (λ (y : ChainAnchor). y.tree_size) same, lt),
    omega (arith, ap (λ (y : ChainAnchor). y.tree_size) same),
  )
]

Growing-sizes :
    (anchors : List ChainAnchor) (n : ℕ)
    → Growing anchors n
    → (i j : ℕ) (a b : ChainAnchor) → get_elem? anchors i ≡ some a
    → get_elem? anchors j ≡ some b
    → i < j
    → a.tree_size < b.tree_size
Growing-sizes _ _ nothing i j a b hi hj lt = absurd (cc hi)
Growing-sizes _ _ (grown x {rest} {n} g above) i j a b hi hj lt =
    elim (get_elem?-snoc rest x b j hj) [
      | inl old_b ↦ elim (get_elem?-snoc rest x a i hi) [
        | inl old_a ↦ Growing-sizes rest n g i j a b old_a old_b lt
        | inr (at, _) ↦ absurd (omega (arith, at, lt, get_elem?-some rest j b old_b))
      ]
      | inr (at, same) ↦ elim (get_elem?-snoc rest x a i hi) [
        | inl old_a ↦ omega (
          arith,
          (Growing-member rest n g i a old_a).1,
          above,
          ap (λ (y : ChainAnchor). y.tree_size) same,
        )
        | inr (at', _) ↦ absurd (omega (arith, at, at', lt))
      ]
    ]

-- After the contract's deployment and any transactions, of whomever, an anchor that stands behind another
-- one in the ledger has a larger tree size.
pub anchors_grow :
    (msg : Message) (first : ℕ) (s : AuditAnchor) (ts : List (Message × Transaction)) (i j : ℕ)
    (a b : ChainAnchor)
    → deploy msg first ≡ ok s
    → anchor_at i (execute_all ts s) ≡ ok a
    → anchor_at j (execute_all ts s) ≡ ok b
    → i < j
    → a.tree_size < b.tree_size
unfolding IsGrowing anchor_at
anchors_grow msg first s ts i j a b new hi hj lt =
    let (n, g) = execute_all-IsGrowing ts s (deploy-IsGrowing msg first s new) in
    Growing-sizes (execute_all ts s).anchors n g i j a b (ground (arith, hi)) (ground (arith, hj))
      lt

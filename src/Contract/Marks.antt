-- ===== src/Contract/Marks.antt =====
-- The sizes and the roots that the fake chain (internal/anchor/client.go) and the contract
-- (contracts/src/AuditAnchor.sol) hold.
use crypto_agent.Prelude.{
  ℕ, suc, none, some, List, [], ◌∷◌, ◌++◌, map, Bytes, length, ◌≡◌, ◌≢◌, refl, sym, ap, ◌∙◌, arith,
  length-append, ◌⊎◌, inl, inr,
}
use crypto_agent.Anchor.{Anchor, FakeEvmClient, last_size}
use crypto_agent.Contract.{ChainAnchor, AuditAnchor, last_anchor}

-- The size and the root of each anchor: the chain's times and blocks are its own.
unfoldable pub fake_marks : List Anchor → List (ℕ × Bytes)
fake_marks xs = map (λ (a : Anchor). (a.tree_size, a.root)) xs

unfoldable pub chain_marks : List ChainAnchor → List (ℕ × Bytes)
chain_marks xs = map (λ (a : ChainAnchor). (a.tree_size, a.root)) xs

-- The two hold the same sizes and roots, and give the same next number.
pub record Mirrors (f : FakeEvmClient) (s : AuditAnchor) : Type 0 where
  pub same : fake_marks f.anchors ≡ chain_marks s.anchors
  pub numbered : f.next_id ≡ length f.anchors

pub marks-length :
    (xs : List Anchor) (bs : List ChainAnchor)
    → fake_marks xs ≡ chain_marks bs
    → length xs ≡ length bs
unfolding fake_marks chain_marks
marks-length [] [] q = refl
marks-length [] (b ∷ bs) q = absurd (cc q)
marks-length (a ∷ xs) [] q = absurd (cc q)
marks-length (a ∷ xs) (b ∷ bs) q = ap suc (marks-length xs bs (cc q))

pub marks-last :
    (xs : List Anchor) (bs : List ChainAnchor)
    → fake_marks xs ≡ chain_marks bs
    → ((xs ≡ []) × (last_anchor bs ≡ none))
      ⊎ ((b : ChainAnchor) × (last_anchor bs ≡ some b)
          × (b.tree_size ≡ last_size xs)
          × (length xs ≢ 0))
unfolding fake_marks chain_marks last_anchor last_size
marks-last [] [] q = inl (refl, refl)
marks-last [] (b ∷ bs) q = absurd (cc q)
marks-last (a ∷ xs) [] q = absurd (cc q)
marks-last (a ∷ []) (b ∷ []) q = inr (b, refl, cc q, λ z. omega (arith, z))
marks-last (a ∷ []) (b ∷ c ∷ bs) q = absurd (cc q)
marks-last (a ∷ c ∷ xs) (b ∷ []) q = absurd (cc q)
marks-last (a ∷ c ∷ xs) (b ∷ d ∷ bs) q = elim (marks-last (c ∷ xs) (d ∷ bs) (cc q)) [
  | inl (z, _) ↦ absurd (cc z)
  | inr (last, at, size, _) ↦ inr (last, at, size, λ z. omega (arith, z))
]

fake_marks-snoc :
    (l : List Anchor) (a : Anchor)
    → fake_marks (l ++ (a ∷ [])) ≡ fake_marks l ++ ((a.tree_size, a.root) ∷ [])
unfolding fake_marks
fake_marks-snoc [] a = refl
fake_marks-snoc (b ∷ l) a = ap (λ t. (b.tree_size, b.root) ∷ t) (fake_marks-snoc l a)

chain_marks-snoc :
    (l : List ChainAnchor) (a : ChainAnchor)
    → chain_marks (l ++ (a ∷ [])) ≡ chain_marks l ++ ((a.tree_size, a.root) ∷ [])
unfolding chain_marks
chain_marks-snoc [] a = refl
chain_marks-snoc (b ∷ l) a = ap (λ t. (b.tree_size, b.root) ∷ t) (chain_marks-snoc l a)

-- the two take an anchor of one size and one root
pub both_take :
    (f : FakeEvmClient) (s : AuditAnchor) (a : Anchor) (b : ChainAnchor)
    → Mirrors f s
    → a.tree_size ≡ b.tree_size
    → a.root ≡ b.root
    → Mirrors
        (record f { anchors = f.anchors ++ (a ∷ []); next_id = suc f.next_id })
        (record s { anchors = s.anchors ++ (b ∷ []) })
both_take f s a b h sizes roots = record {
  same =
      fake_marks-snoc f.anchors a
      ∙ ap (λ l. l ++ ((a.tree_size, a.root) ∷ [])) h.same
      ∙ ap (λ (m : ℕ × Bytes). chain_marks s.anchors ++ (m ∷ [])) (cc (sizes, roots))
      ∙ sym (chain_marks-snoc s.anchors b);
  numbered = omega (arith, h.numbered, length-append f.anchors (a ∷ []));
}

-- counting a call changes nothing that is compared
pub called-Mirrors :
    (f : FakeEvmClient) (s : AuditAnchor)
    → Mirrors f s
    → Mirrors (record f { calls = suc f.calls }) s
called-Mirrors f s h = record { same = h.same; numbered = h.numbered }

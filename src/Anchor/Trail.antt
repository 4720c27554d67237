-- ===== src/Anchor/Trail.antt =====
-- The anchors of a log that grows: the Merkle tree, the committer and the fake chain together
-- (committer.go, client.go and merkle/tree.go). Every pass commits what the tree holds then, so that an
-- anchor stays a historical root of the tree.
use crypto_agent.Prelude.{
  ℕ, suc, ◌≤◌, ◌<◌, true, false, not, ◌&&◌, Option, none, some, List, [], ◌∷◌, ◌++◌, Bytes, length,
  take, leb, ◌==◌, Result, ok, err, ◌≡◌, refl, sym, ap, ◌∙◌, arith, length-append, Bool-cases,
  Option-cases, inl, inr, get_elem?, get_elem?-snoc, take-append, take-length,
}
use mathlib.Core.Path.{subst}
use native.Mathlib.Decide.{dec_lt}
use crypto_agent.Merkle.Hash.{Sha256, mth}
use crypto_agent.Merkle.TreeHash.{length-mth}
use crypto_agent.Merkle.Tree
use crypto_agent.Merkle.Tree.{Tree, WriteFate}
use crypto_agent.Merkle.Tree.Growth.{append-grows}
use crypto_agent.Merkle.Verifier.{VerificationReport, verify_historical_root}
use crypto_agent.Merkle.Verifier.Correct.{historical_root-passes}
use crypto_agent.Anchor.{
  Anchor, CommitReceipt, Error, Committer, FakeEvmClient, fake_client, fake_commit, fake_record,
  commit, record_commit, validate_commit, last_size, set_next_error, new_fake, hash_size,
  empty_tree, tree_shrank,
}

-- The committer with the tree that it watches and the chain that it writes to.
pub record System : Type 0 where
  pub tree : Tree
  pub committer : Committer
  pub chain : FakeEvmClient

last_size-snoc : (rest : List Anchor) (a : Anchor) → last_size (rest ++ (a ∷ [])) ≡ a.tree_size
unfolding last_size
last_size-snoc [] a = refl
last_size-snoc (b ∷ []) a = refl
last_size-snoc (b ∷ c ∷ rest) a = last_size-snoc (c ∷ rest) a

-- What a call of the chain leaves of its anchors: all of them, with a new one behind a success.
Recorded : ℕ → Bytes → FakeEvmClient → Result Error CommitReceipt × FakeEvmClient → Type 0
Recorded size root f (err e, g) = (g.anchors ≡ f.anchors) × (g.next_id ≡ f.next_id)
Recorded size root f (ok receipt, g) =
    (a : Anchor) × (a.tree_size ≡ size)
    × (a.root ≡ root)
    × (a.id ≡ f.next_id)
    × (g.anchors ≡ f.anchors ++ (a ∷ []))
    × (g.next_id ≡ suc f.next_id)

fake_record-Recorded :
    (size : ℕ) (root : Bytes) (now : ℕ) (f : FakeEvmClient)
    → Recorded size root f (fake_record size root now f)
unfolding fake_record Recorded
fake_record-Recorded size root now f = elim (Option-cases f.fail_next) [
  | inr (e, q) ↦ rw q (refl, refl)
  | inl q ↦ elim (Bool-cases (not (length f.anchors == 0) && leb size (last_size f.anchors))) [
    | inl b ↦ rw (q, b) (refl, refl)
    | inr b ↦ rw (q, b) (_, refl, refl, refl, refl, refl)
  ]
]

pub fake_commit-ok :
    (size : ℕ) (root : Bytes) (now : ℕ) (f : FakeEvmClient)
    → (size == 0) ≡ false
    → (length root == hash_size) ≡ true
    → fake_commit size root now f ≡ fake_record size root now (record f { calls = suc f.calls })
unfolding fake_commit validate_commit
fake_commit-ok size root now f z l = rw (fake_commit, z, l) refl

module _ ⦃sha : Sha256⦄ where
  unfoldable pub pass : ℕ → System → Result Error Anchor × System
  pass now s =
      let (answer, c, f) = commit fake_client (Tree.snapshot s.tree) now s.committer s.chain in
      (answer, record { tree = s.tree; committer = c; chain = f })

  -- `Trail ls anchors n`: each anchor holds a size of the tree with the leaves `ls` and its root at
  -- that size, the sizes go up to `n`, and the numbers are the places.
  pub data Trail (ls : List Bytes) : List Anchor → ℕ → Type 0 where
    nothing : Trail ls [] 0
    anchored :
        (a : Anchor) {rest : List Anchor} {n : ℕ}
        → Trail ls rest n
        → n < a.tree_size
        → a.id ≡ length rest
        → a.tree_size ≤ length ls
        → a.root ≡ mth (take a.tree_size ls)
        → Trail ls (rest ++ (a ∷ [])) a.tree_size

  -- The chain's trail ends where the committer thinks it does.
  unfoldable pub IsAudited : System → Type 0
  IsAudited s =
      Trail s.tree.leaves s.chain.anchors s.committer.last_committed
      × (s.chain.next_id ≡ length s.chain.anchors)

  pub Trail-last_size :
      (ls : List Bytes) (anchors : List Anchor) (n : ℕ) → Trail ls anchors n → last_size anchors ≡ n
  unfolding last_size
  Trail-last_size ls _ _ nothing = refl
  Trail-last_size ls _ _ (anchored a {rest} {n} t p q r s) = last_size-snoc rest a

  Trail-grow :
      (ls more : List Bytes) (anchors : List Anchor) (n : ℕ)
      → Trail ls anchors n
      → Trail (ls ++ more) anchors n
  Trail-grow ls more _ _ nothing = nothing
  Trail-grow ls more _ _ (anchored a {rest} {n} t p q r s) =
      anchored a (Trail-grow ls more rest n t) p q (omega (arith, length-append ls more, r))
        (s ∙ ap mth (sym (take-append a.tree_size ls more r)))

  Keeps : List Bytes → Result Error Anchor × Committer × FakeEvmClient → Type 0
  Keeps ls (r, c, f) = Trail ls f.anchors c.last_committed × (f.next_id ≡ length f.anchors)

  kept :
      (ls : List Bytes) (r : Result Error Anchor × Committer × FakeEvmClient)
      → Keeps ls r
      → Trail ls r.2.anchors r.1.last_committed × (r.2.next_id ≡ length r.2.anchors)
  unfolding Keeps
  kept ls r h = h

  record_commit-Trail :
      (ls : List Bytes) (size : ℕ) (root : Bytes) (now : ℕ) (c : Committer) (f : FakeEvmClient)
      (r : Result Error CommitReceipt × FakeEvmClient)
      → Recorded size root f r
      → size ≤ length ls
      → root ≡ mth (take size ls)
      → c.last_committed < size
      → Trail ls f.anchors c.last_committed
      → f.next_id ≡ length f.anchors
      → Keeps ls (record_commit fake_client size root now c r)
  unfolding record_commit Recorded Keeps
  record_commit-Trail ls size root now c f (err e, g) (same, id) le mt gt t n =
      (subst (λ xs. Trail ls xs c.last_committed) (sym same) t, id ∙ n ∙ ap length (sym same))
  record_commit-Trail ls size root now c f (ok receipt, g) (a, sz, rt, id, more, next) le mt gt t
        n =
      (
        subst (λ xs. Trail ls xs size) (sym more)
            (subst (λ k. Trail ls (f.anchors ++ (a ∷ [])) k) sz
              (anchored a t (omega (arith, sz, gt)) (id ∙ n) (omega (arith, sz, le))
                (rt ∙ mt ∙ ap (λ k. mth (take k ls)) (sym sz)))),
        omega (arith, next, n, length-append f.anchors (a ∷ []), ap length more),
      )

  pub commit-fresh :
      (size : ℕ) (root : Bytes) (now : ℕ) (c : Committer) (f : FakeEvmClient)
      → 0 < size
      → length root ≡ 32
      → c.last_committed < size
      → commit fake_client (size, root) now c f
        ≡ record_commit fake_client size root now c
            (fake_record size root now (record f { calls = suc f.calls }))
  unfolding commit validate_commit
  commit-fresh size root now c f pos l gt =
      let nonzero : (size == 0) ≡ false = ground arith in
      let sized : (length root == hash_size) ≡ true = ground arith in
      let new : leb size c.last_committed ≡ false = ground arith in
      rw (nonzero, sized, new)
        (ap (record_commit fake_client size root now c)
          (fake_commit-ok size root now f nonzero sized))

  -- the committer and the chain stay as they are, when the tree has not grown
  commit-stale :
      (size : ℕ) (root : Bytes) (now : ℕ) (c : Committer) (f : FakeEvmClient)
      → length root ≡ 32
      → size ≤ c.last_committed
      → (e : Error) × (commit fake_client (size, root) now c f ≡ (err e, c, f))
  unfolding commit validate_commit
  commit-stale size root now c f l le = elim (Bool-cases (size == 0)) [
    | inl z ↦ (empty_tree, rw z refl)
    | inr nz ↦
        let sized : (length root == hash_size) ≡ true = ground arith in
        let old : leb size c.last_committed ≡ true = ground arith in
        (tree_shrank, rw (nz, sized, old) refl)
  ]

  -- The tree grows, the committer makes a pass, or the chain is told to fail the next time.
  pub data Step : System → System → Type 0 where
    appends :
        (fate : WriteFate) (payload : Bytes) (s : System)
        → Step s (record s { tree = (Tree.append fate payload s.tree).1 })
    passes : (now : ℕ) (s : System) → Step s (pass now s).1
    breaks :
        (e : Option Error) (s : System) → Step s (record s { chain = set_next_error e s.chain })

  -- What becomes of a new committer and a new chain on a tree.
  pub data Reachable (tree : Tree) : System → Type 0 where
    fresh : Reachable tree (record {
      tree = tree;
      committer = record { store = record { latest = none }; last_committed = 0 };
      chain = new_fake;
    })
    next : {s u : System} → Reachable tree s → Step s u → Reachable tree u

  whole_root : (ls : List Bytes) → mth ls ≡ mth (take (length ls) ls)
  whole_root ls = ap mth (sym (take-length (length ls) ls (omega arith)))

  pass-IsAudited : (now : ℕ) (s : System) → IsAudited s → IsAudited (pass now s).1
  unfolding pass IsAudited Tree.snapshot
  pass-IsAudited now s (t, n) =
      let ls = s.tree.leaves in
      elim (dec_lt s.committer.last_committed (length ls)) [
        | no h ↦
            let (e, q) =
              commit-stale (length ls) (mth ls) now s.committer s.chain (length-mth ls)
                (omega arith) in
            rw q (t, n)
        | yes h ↦
            let called : FakeEvmClient = record s.chain { calls = suc s.chain.calls } in
            let answer = fake_record (length ls) (mth ls) now called in
            kept ls (commit fake_client (length ls, mth ls) now s.committer s.chain) (
              subst (Keeps ls)
                (sym (
                  commit-fresh (length ls) (mth ls) now s.committer s.chain (omega arith)
                    (length-mth ls) h))
                (record_commit-Trail ls (length ls) (mth ls) now s.committer called answer
                  (fake_record-Recorded (length ls) (mth ls) now called) (omega arith)
                  (whole_root ls) h t n))
      ]

  Step-IsAudited : (s u : System) → Step s u → IsAudited s → IsAudited u
  unfolding IsAudited set_next_error
  Step-IsAudited _ _ (appends fate payload s) (t, n) =
      let (more, q) = append-grows sha fate payload s.tree in
      rw q (Trail-grow s.tree.leaves more s.chain.anchors s.committer.last_committed t, n)
  Step-IsAudited _ _ (passes now s) h = pass-IsAudited now s h
  Step-IsAudited _ _ (breaks e s) h = h

  pub Reachable-IsAudited : (tree : Tree) (s : System) → Reachable tree s → IsAudited s
  unfolding IsAudited
  Reachable-IsAudited tree _ fresh = (nothing, refl)
  Reachable-IsAudited tree _ (next {s} {u} r st) =
      Step-IsAudited s u st (Reachable-IsAudited tree s r)

  Trail-member :
      (ls : List Bytes) (anchors : List Anchor) (n : ℕ)
      → Trail ls anchors n
      → (i : ℕ) (a : Anchor) → get_elem? anchors i ≡ some a
      → (a.id ≡ i) × (a.tree_size ≤ length ls) × (a.root ≡ mth (take a.tree_size ls))
  Trail-member ls _ _ nothing i a h = absurd (cc h)
  Trail-member ls _ _ (anchored x {rest} {n} t p q r s) i a h = elim (get_elem?-snoc rest x a i h) [
    | inl g ↦ Trail-member ls rest n t i a g
    | inr (at, same) ↦
        subst
          (λ (y : Anchor).
            (y.id ≡ i) × (y.tree_size ≤ length ls) × (y.root ≡ mth (take y.tree_size ls)))
          same (q ∙ sym at, r, s)
  ]

  -- After any appends, committer passes and chain failures, every anchor of the chain has its place as
  -- its number, and the verifier accepts its root and size against the tree as it is now.
  pub anchors-verified :
      (tree : Tree) (s : System) (i : ℕ) (a : Anchor)
      → Reachable tree s
      → get_elem? s.chain.anchors i ≡ some a
      → (a.id ≡ i)
        × ((r : VerificationReport) × (verify_historical_root a.root a.tree_size s.tree
              ≡ some (r, none))
            × (r.is_ok ≡ true))
  unfolding IsAudited Tree.size
  anchors-verified tree s i a r h =
      let (t, n) = Reachable-IsAudited tree s r in
      let (id, le, rt) =
        Trail-member s.tree.leaves s.chain.anchors s.committer.last_committed t i a h in
      (id, rw rt (_, historical_root-passes s.tree a.tree_size le, refl))

-- ===== src/Merkle/Inclusion/Complete.antt =====
-- `path` never fails on an index in range, and the verifier accepts what it makes
-- (go-key-service/internal/merkle/inclusion.go).
use mathlib.Core.Path.{subst₂}
use mathlib.Core.List.{append-nil, append_assoc}
use crypto_agent.Prelude.{
  ℕ, zero, suc, ◌+◌, ◌-◌, ◌*◌, ◌^◌, ◌≤◌, ◌<◌, ◌≡◌, ◌≢◌, refl, sym, ap, ◌∙◌, arith, ltb, ltb→lt,
  ltb→le, Bool-cases, inl, inr, some, List, [], ◌∷◌, ◌++◌, Bytes, length, take, drop, get_elem?,
  get_elem?-take, get_elem?-drop, equal_refl, ok,
}
use crypto_agent.Prelude.Powers.{two_pow-suc, mul-two_pow-suc, lt-two_pow, top_digit, two_pow-gap}
use crypto_agent.Merkle.Hash.{Sha256, largest_power_of_two_less_than, hash_children, mth}
use native.Mathlib.Decide.{dec_lt}
use crypto_agent.Merkle.Shape.{split, halves, split-two_pow, level-lt}
use crypto_agent.Merkle.TreeHash.{mth-split, mth-one, copy_hash_id, length-mth}
use crypto_agent.Merkle.Inclusion.{path_loop, path, fold_proof, verify_inclusion_from_hash}
use crypto_agent.Merkle.Inclusion.Steps.{
  fold_left, fold_right, fold_edge, path_one, path_front, path_behind,
}

module _ ⦃sha : Sha256⦄ where
  -- `path` makes a proof for leaf `m`, and the verifier's loop takes it from leaf `x` at counters
  -- `fn`, `sn` to the subtree's hash at counters `a`, `b`, whatever follows.
  record Reaches (f m : ℕ) (leaves : List Bytes) (x : Bytes) (fn sn a b : ℕ) : Type 0 where
    proof : List Bytes
    found : path_loop f m leaves ≡ some proof
    runs :
        (rest : List Bytes) → fold_proof x fn sn (proof ++ rest) ≡ fold_proof (mth leaves) a b rest

  Reaches-one :
      (f m : ℕ) (leaves : List Bytes) (x : Bytes) (fn sn : ℕ)
      → length leaves ≡ 1
      → m < 1
      → get_elem? leaves m ≡ some x
      → length x ≡ 32
      → Reaches (suc f) m leaves x fn sn fn sn
  Reaches-one f m [] x fn sn one lt at h = absurd (omega arith)
  Reaches-one f zero (y ∷ []) x fn sn one lt at h = record {
    proof = [];
    found = path_one f zero (y ∷ []) one;
    runs = λ rest. let e : x ≡ mth (y ∷ []) = sym (copy_hash_id x h) ∙ cc (mth-one y) in rw e;
  }
  Reaches-one f (suc m) (y ∷ []) x fn sn one lt at h = absurd (omega arith)
  Reaches-one f m (y ∷ z ∷ rest) x fn sn one lt at h = absurd (omega arith)

  module _ (f m k : ℕ) (leaves : List Bytes) (x : Bytes) (fn sn a' b' a b : ℕ)
      (two : 2 ≤ length leaves) (e : k ≡ largest_power_of_two_less_than (length leaves)) where
    Reaches-front :
        m < k
        → Reaches f m (take k leaves) x fn sn a' b'
        → ((r q : Bytes) (ps : List Bytes)
            → length q ≡ 32
            → fold_proof r a' b' (q ∷ ps) ≡ fold_proof (hash_children r q) a b ps)
        → Reaches (suc f) m leaves x fn sn a b
    Reaches-front lt sub step =
        let q = mth (drop k leaves) in
        record {
          proof = sub.proof ++ (q ∷ []);
          found = path_front f m k leaves sub.proof two e lt sub.found;
          runs = λ rest.
              rw (append_assoc, sub.runs (q ∷ rest))
                (step _ q rest (length-mth (drop k leaves))
                  ∙ ap (λ t. fold_proof t a b rest) (sym (mth-split leaves k two e)));
        }

    Reaches-behind :
        k ≤ m
        → Reaches f (m - k) (drop k leaves) x fn sn a' b'
        → ((r q : Bytes) (ps : List Bytes)
            → length q ≡ 32
            → fold_proof r a' b' (q ∷ ps) ≡ fold_proof (hash_children q r) a b ps)
        → Reaches (suc f) m leaves x fn sn a b
    Reaches-behind le sub step =
        let q = mth (take k leaves) in
        record {
          proof = sub.proof ++ (q ∷ []);
          found = path_behind f m k leaves sub.proof two e le sub.found;
          runs = λ rest.
              rw (append_assoc, sub.runs (q ∷ rest))
                (step _ q rest (length-mth (take k leaves))
                  ∙ ap (λ t. fold_proof t a b rest) (sym (mth-split leaves k two e)));
        }

  -- A full subtree of 2 ^ h leaves off the right edge: the counters lose their h low digits.
  Reaches-full :
      (h f m : ℕ) (leaves : List Bytes) (x : Bytes) (fn sn s a b : ℕ)
      → length leaves ≡ 2 ^ h
      → h < f
      → m < 2 ^ h
      → get_elem? leaves m ≡ some x
      → length x ≡ 32
      → fn ≡ m + a * 2 ^ h
      → sn ≡ s + b * 2 ^ h
      → s < 2 ^ h
      → a < b
      → Reaches f m leaves x fn sn a b
  Reaches-full h zero m leaves x fn sn s a b n hf hm at hx ef es hs lt = absurd (omega arith)
  Reaches-full zero (suc f) m leaves x fn sn s a b n hf hm at hx ef es hs lt =
      let fa : fn ≡ a = omega arith in
      let sb : sn ≡ b = omega arith in rw (← fa, ← sb) (Reaches-one f m leaves x fn sn n hm at hx)
  Reaches-full (suc h) (suc f) m leaves x fn sn s a b n hf hm at hx ef es hs lt =
      let k = 2 ^ h in
      let d = top_digit s h hs in
      let wide : length leaves ≡ k + k = omega (arith, two_pow-suc h) in
      let two : 2 ≤ length leaves = omega (arith, lt-two_pow h) in
      let e : k ≡ largest_power_of_two_less_than (length leaves) =
        sym (split-two_pow (length leaves) h (omega (arith, lt-two_pow h)) (omega arith)) in
      let half = halves leaves k (omega arith) in
      let es' : sn ≡ d.low + (2 * b + d.digit) * k = omega (arith, mul-two_pow-suc b h, d.sum) in
      elim (Bool-cases (ltb m k)) [
        | inl front ↦
            Reaches-front f m k leaves x fn sn (2 * a) (2 * b + d.digit) a b two e (ground arith)
              (Reaches-full h f m (take k leaves) x fn sn d.low (2 * a) (2 * b + d.digit) half.front
                (omega arith) (ground arith) (get_elem?-take m k leaves (ground arith) ∙ at) hx
                (omega (arith, mul-two_pow-suc a h)) es' d.small (omega arith))
              (λ r q ps hq.
                fold_left r q (2 * a) (2 * b + d.digit) a b ps hq refl (omega arith)
                  (omega (arith, d.binary)) (omega arith))
        | inr back ↦
            Reaches-behind f m k leaves x fn sn (2 * a + 1) (2 * b + d.digit) a b two e
              (ground arith)
              (Reaches-full h f (m - k) (drop k leaves) x fn sn d.low (2 * a + 1) (2 * b + d.digit)
                (omega (arith, half.back)) (omega arith) (ground arith)
                (get_elem?-drop k m (m - k) leaves (ground arith) ∙ at) hx
                (ground (arith, mul-two_pow-suc a h)) es' d.small (omega arith))
              (λ r q ps hq.
                fold_right r q (2 * a + 1) (2 * b + d.digit) a b ps hq refl
                  (omega (arith, d.binary)) (omega arith))
      ]

  -- What `Reaches-edge` below says with `f` levels of recursion.
  abbrev EdgeClaim : ℕ → Bytes → Type 0
  EdgeClaim f x =
      (m : ℕ) (leaves : List Bytes) (fn sn c h : ℕ)
      → length leaves ≤ 2 ^ h
      → length leaves ≤ f
      → m < length leaves
      → get_elem? leaves m ≡ some x
      → length x ≡ 32
      → fn ≡ m + c * 2 ^ h
      → sn ≡ length leaves - 1 + c * 2 ^ h
      → (t : ℕ) × Reaches f m leaves x fn sn (c * 2 ^ t) (c * 2 ^ t)

  Reaches-edge_step :
      (f : ℕ) (x : Bytes) (m : ℕ) (leaves : List Bytes) (fn sn c h : ℕ)
      → length leaves ≤ 2 ^ h
      → length leaves ≤ suc f
      → m < length leaves
      → get_elem? leaves m ≡ some x
      → length x ≡ 32
      → fn ≡ m + c * 2 ^ h
      → sn ≡ length leaves - 1 + c * 2 ^ h
      → 2 ≤ length leaves
      → EdgeClaim f x
      → (t : ℕ) × Reaches (suc f) m leaves x fn sn (c * 2 ^ t) (c * 2 ^ t)
  Reaches-edge_step f x m leaves fn sn c h wide hf hm at hx ef es two again =
      let n = length leaves in
      let k = largest_power_of_two_less_than n in
      let s = split n two in
      let j = s.level in
      let (e, gap) = two_pow-gap j h (level-lt s h wide) in
      let a = c * 2 ^ e in
      let scaled : c * 2 ^ h ≡ c * (2 * 2 ^ e * 2 ^ j) = ap (λ (t : ℕ). c * t) gap in
      let half = halves leaves k (omega (arith, s.below)) in
      let back_len : length (drop k leaves) ≡ n - k = half.back in
      let fit : n - k ≤ 2 ^ j = omega (arith, s.half, s.is_pow) in
      let es' : sn ≡ n - k - 1 + (2 * a + 1) * 2 ^ j = omega (arith, scaled, s.is_pow, s.below) in
      elim (Bool-cases (ltb m k)) [
        | inl front ↦ (
          e,
          Reaches-front f m k leaves x fn sn (2 * a) (2 * a + 1) a a two refl (ltb→lt m k front)
              (Reaches-full j f m (take k leaves) x fn sn (n - k - 1) (2 * a) (2 * a + 1)
                (half.front ∙ s.is_pow) (omega (arith, s.below, s.is_pow, lt-two_pow j))
                (omega (arith, s.is_pow, ltb→lt m k front))
                (get_elem?-take m k leaves (ltb→lt m k front) ∙ at) hx (omega (arith, scaled)) es'
                (omega (arith, s.below, s.is_pow, s.half)) (omega arith))
              (λ r q ps hq.
                fold_left r q (2 * a) (2 * a + 1) a a ps hq refl (omega arith) (omega arith)
                  (omega arith)),
        )
        | inr back ↦
            let le = ltb→le m k back in
            let (t, sub) =
              again (m - k) (drop k leaves) fn sn (2 * a + 1) j (omega (arith, back_len))
                (omega (arith, back_len, s.pos)) (omega (arith, back_len))
                (get_elem?-drop k m (m - k) leaves (omega arith) ∙ at) hx
                (omega (arith, scaled, s.is_pow)) (omega (arith, es', back_len)) in
            let y = (2 * a + 1) * 2 ^ t in
            let pos : y ≢ 0 = grind (arith, lt-two_pow t) in
            (
              e,
              Reaches-behind f m k leaves x fn sn y y a a two refl le sub
                  (λ r q ps hq. fold_edge r q y a t ps hq (refl {a = y}) pos),
            )
      ]

  -- A subtree on the right edge, below `c` full subtrees of 2 ^ h leaves: both counters end at `c`,
  -- up to factors of two, which the next round strips.
  Reaches-edge :
      (f m : ℕ) (leaves : List Bytes) (x : Bytes) (fn sn c h : ℕ)
      → length leaves ≤ 2 ^ h
      → length leaves ≤ f
      → m < length leaves
      → get_elem? leaves m ≡ some x
      → length x ≡ 32
      → fn ≡ m + c * 2 ^ h
      → sn ≡ length leaves - 1 + c * 2 ^ h
      → (t : ℕ) × Reaches f m leaves x fn sn (c * 2 ^ t) (c * 2 ^ t)
  Reaches-edge zero m leaves x fn sn c h wide hf hm at hx ef es = absurd (omega arith)
  Reaches-edge (suc f) m leaves x fn sn c h wide hf hm at hx ef es =
      elim (dec_lt (length leaves) 2) [
        | yes one ↦
            let fa : fn ≡ c * 2 ^ h = omega arith in
            let sb : sn ≡ c * 2 ^ h = omega arith in
            let base = Reaches-one f m leaves x fn sn (omega arith) (omega arith) at hx in
            (h, subst₂ (λ a b. Reaches (suc f) m leaves x fn sn a b) fa sb base)
        | no more ↦
            Reaches-edge_step f x m leaves fn sn c h wide hf hm at hx ef es (omega arith)
              (λ m' leaves' fn' sn' c' h'. Reaches-edge f m' leaves' x fn' sn' c' h')
      ]

  verify_ok :
      (x : Bytes) (idx size : ℕ) (proof : List Bytes) (root : Bytes)
      → idx < size
      → length root ≡ 32
      → fold_proof x idx (size - 1) proof ≡ fold_proof root 0 0 []
      → verify_inclusion_from_hash x idx size proof root ≡ ok tt
  unfolding verify_inclusion_from_hash
  verify_ok x idx size proof root lt h e =
      let whole : fold_proof x idx (size - 1) proof ≡ ok root = e ∙ unfold fold_proof in refl in
      ground (arith, equal_refl root)

  -- For an index in range, `path` returns a proof, and the verifier accepts it for that leaf under
  -- the root of these leaves.
  pub inclusion_complete :
      (leaves : List Bytes) (m : ℕ) (x : Bytes)
      → m < length leaves
      → get_elem? leaves m ≡ some x
      → length x ≡ 32
      → (proof : List Bytes) × (path m leaves ≡ some proof)
        × (verify_inclusion_from_hash x m (length leaves) proof (mth leaves) ≡ ok tt)
  unfolding path
  inclusion_complete leaves m x lt at hx =
      let n = length leaves in
      let (t, r) =
        Reaches-edge n m leaves x m (n - 1) 0 n (omega (arith, lt-two_pow n)) (omega arith) lt at hx
          (omega arith) (omega arith) in
      let zero_end : 0 * 2 ^ t ≡ 0 = omega arith in
      let ends : fold_proof x m (n - 1) r.proof ≡ fold_proof (mth leaves) 0 0 [] =
        rw zero_end at (rw append-nil at (r.runs [])) in
      (r.proof, r.found, verify_ok x m n r.proof (mth leaves) lt (length-mth leaves) ends)

-- ===== src/Merkle/Consistency/Complete.antt =====
-- `subproof` never fails on sizes in range, and its proofs lead the verifier's loop from the seed to
-- both roots (go-key-service/internal/merkle/consistency.go).
use mathlib.Core.Path.{ap₂}
use mathlib.Core.List.{append_assoc}
use native.Mathlib.Decide.{dec_le, ℕ_discrete}
use crypto_agent.Prelude.{
  ℕ, zero, suc, ◌+◌, ◌-◌, ◌*◌, ◌^◌, ◌≤◌, ◌<◌, ◌≡◌, ◌≢◌, refl, sym, ap, ◌∙◌, Bool, true, false,
  arith, ◌⊎◌, inl, inr, Option, none, some, List, [], ◌∷◌, ◌++◌, Bytes, length, take, drop,
  length-take, take-length, take-take, drop-take, All, All-append,
}
use crypto_agent.Prelude.Powers.{
  two_pow-suc, mul-two_pow-suc, lt-two_pow, two_pow-lt, two_pow-gap, top_digit,
}
use crypto_agent.Merkle.Hash.{Sha256, largest_power_of_two_less_than, hash_children, mth}
use crypto_agent.Merkle.Shape.{split, halves, split-two_pow, level-lt}
use crypto_agent.Merkle.TreeHash.{mth-split, length-mth}
use crypto_agent.Merkle.Consistency.{subproof_loop, fold_roots}
use crypto_agent.Merkle.Consistency.Steps.{
  strip_ones_full, roots, run_from, run_from_given, run_from_proved, roots_left, roots_right,
  roots_edge, subproof_whole, subproof_front, subproof_behind,
}

-- Where the seed comes from: the old root stands in for the proof's first node exactly if the old
-- size is a power of two, and then the recursion reaches it along `at_root`.
pub data Mode (at_root : Bool) (m : ℕ) (front : Bytes) (seed : Option Bytes) : Type 0 where
  given : at_root ≡ true → (z : ℕ) → m ≡ 2 ^ z → seed ≡ some front → Mode at_root m front seed
  proved : seed ≡ none → (at_root ≡ true → (z : ℕ) → m ≢ 2 ^ z) → Mode at_root m front seed

module _ ⦃sha : Sha256⦄ where
  -- The old root splits where the new one does, if it reaches behind the left subtree.
  old_root-split :
      (leaves : List Bytes) (m k j : ℕ)
      → k ≡ 2 ^ j
      → k < m
      → m ≤ k + k
      → m ≤ length leaves
      → mth (take m leaves)
        ≡ hash_children (mth (take k leaves)) (mth (take (m - k) (drop k leaves)))
  old_root-split leaves m k j p lo hi fits =
      let n : length (take m leaves) ≡ m = omega (arith, length-take m leaves) in
      let e : k ≡ largest_power_of_two_less_than (length (take m leaves)) =
        p ∙ sym (split-two_pow (length (take m leaves)) j (omega (arith, p)) (omega (arith, p))) in
      mth-split (take m leaves) k (omega (arith, p, lt-two_pow j)) e
      ∙ ap₂ hash_children (ap mth (take-take k m leaves (omega arith)))
          (ap mth (drop-take k m (m - k) leaves (omega arith)))

  -- `subproof` makes a proof for the first `m` leaves, and the loop takes it from its seed at
  -- counters `fn`, `sn` to both hashes at counters `a`, `b`, whatever follows.
  pub record Shows (f m : ℕ) (leaves : List Bytes) (at_root : Bool) (seed : Option Bytes)
      (fn sn a b : ℕ) : Type 0 where
    pub proof : List Bytes
    pub found : subproof_loop f m leaves at_root ≡ some proof
    pub sized : All (λ (p : Bytes). length p ≡ 32) proof
    pub runs :
        (rest : List Bytes)
        → run_from seed fn sn (proof ++ rest)
          ≡ fold_roots (roots (mth (take m leaves)) (mth leaves)) a b rest

  -- All leaves of a full subtree: the seed is its hash.
  Shows-whole :
      (h f m : ℕ) (leaves : List Bytes) (at_root : Bool) (seed : Option Bytes) (fn sn s a b : ℕ)
      → length leaves ≡ 2 ^ h
      → m ≡ length leaves
      → Mode at_root m (mth (take m leaves)) seed
      → fn + 1 ≡ m + 2 * a * 2 ^ h
      → sn ≡ s + b * 2 ^ h
      → s < 2 ^ h
      → Shows (suc f) m leaves at_root seed fn sn (2 * a) b
  Shows-whole h f m leaves true seed fn sn s a b n whole (given r z p e) ef es hs =
      let stripped =
        strip_ones_full h fn fn sn a b s (omega arith) es hs (omega (arith, lt-two_pow h)) in
      let same : mth (take m leaves) ≡ mth leaves = ap mth (take-length m leaves (omega arith)) in
      rw e (record {
        proof = [];
        sized = tt;
        found = (subproof_whole f m leaves whole).0;
        runs = λ rest.
            run_from_given (mth (take m leaves)) fn sn (2 * a) b rest stripped
            ∙ ap (λ x. fold_roots (roots (mth (take m leaves)) x) (2 * a) b rest) same;
      })
  Shows-whole h f m leaves false seed fn sn s a b n whole (given r z p e) ef es hs = absurd (cc r)
  Shows-whole h f m leaves true seed fn sn s a b n whole (proved e none_at) ef es hs =
      absurd (none_at refl h (whole ∙ n))
  Shows-whole h f m leaves false seed fn sn s a b n whole (proved e none_at) ef es hs =
      let stripped =
        strip_ones_full h fn fn sn a b s (omega arith) es hs (omega (arith, lt-two_pow h)) in
      let same : mth leaves ≡ mth (take m leaves) =
        ap mth (sym (take-length m leaves (omega arith))) in
      rw e (record {
        proof = mth leaves ∷ [];
        sized = (length-mth leaves, tt);
        found = (subproof_whole f m leaves whole).1;
        runs = λ rest.
            run_from_proved (mth leaves) fn sn (2 * a) b rest stripped
            ∙ ap (λ x. fold_roots (roots x (mth leaves)) (2 * a) b rest) same;
      })

  module _ (f m k : ℕ) (leaves : List Bytes) (at_root : Bool) (seed : Option Bytes)
      (fn sn a' b' a b j : ℕ) (two : 2 ≤ length leaves) (lt : m < length leaves)
      (e : k ≡ largest_power_of_two_less_than (length leaves)) (p : k ≡ 2 ^ j) where
    Shows-front :
        m ≤ k
        → Shows f m (take k leaves) at_root seed fn sn a' b'
        → ((x r q : Bytes) (work : List Bytes)
            → fold_roots (roots x r) a' b' (q ∷ work)
              ≡ fold_roots (roots x (hash_children r q)) a b work)
        → Shows (suc f) m leaves at_root seed fn sn a b
    Shows-front le sub step =
        let q = mth (drop k leaves) in
        record {
          proof = sub.proof ++ (q ∷ []);
          sized = All-append _ sub.proof (q ∷ []) sub.sized (length-mth (drop k leaves), tt);
          found = subproof_front f m k leaves sub.proof at_root two lt e le sub.found;
          runs = λ rest.
              rw (append_assoc, sub.runs (q ∷ rest))
                (step _ _ q rest
                  ∙ ap₂ (λ x y. fold_roots (roots x y) a b rest) (ap mth (take-take m k leaves le))
                      (sym (mth-split leaves k two e)));
        }

    Shows-behind :
        k < m
        → m ≤ k + k
        → Shows f (m - k) (drop k leaves) false seed fn sn a' b'
        → ((x r q : Bytes) (work : List Bytes)
            → fold_roots (roots x r) a' b' (q ∷ work)
              ≡ fold_roots (roots (hash_children q x) (hash_children q r)) a b work)
        → Shows (suc f) m leaves at_root seed fn sn a b
    Shows-behind gt hi sub step =
        let q = mth (take k leaves) in
        record {
          proof = sub.proof ++ (q ∷ []);
          sized = All-append _ sub.proof (q ∷ []) sub.sized (length-mth (take k leaves), tt);
          found = subproof_behind f m k leaves sub.proof at_root two lt e gt sub.found;
          runs = λ rest.
              rw (append_assoc, sub.runs (q ∷ rest))
                (step _ _ q rest
                  ∙ ap₂ (λ x y. fold_roots (roots x y) a b rest)
                      (sym (old_root-split leaves m k j p gt hi (omega arith)))
                      (sym (mth-split leaves k two e)));
        }

  -- Behind the left subtree `subproof` always proves its seed.
  Mode-behind :
      (at_root : Bool) (m k j : ℕ) (front : Bytes) (seed : Option Bytes)
      → k ≡ 2 ^ j
      → k < m
      → m < k + k
      → Mode at_root m front seed
      → (front' : Bytes) → Mode false (m - k) front' seed
  Mode-behind at_root m k j front seed p lo hi (given r z e s) front' =
      let low = two_pow-lt j z (omega arith) in
      let high = two_pow-lt z (suc j) (omega (arith, two_pow-suc j)) in absurd (omega arith)
  Mode-behind at_root m k j front seed p lo hi (proved e none_at) front' =
      proved e (λ t. absurd (cc t))

  -- A full subtree off the right edge, of which the old tree has a part, or all if the subtree is a
  -- left child.
  Shows-full :
      (h f m : ℕ) (leaves : List Bytes) (at_root : Bool) (seed : Option Bytes) (fn sn s a b : ℕ)
      → length leaves ≡ 2 ^ h
      → h < f
      → 0 < m
      → (m < 2 ^ h) ⊎ ((m ≡ 2 ^ h) × ((a' : ℕ) × (a ≡ 2 * a')))
      → Mode at_root m (mth (take m leaves)) seed
      → fn + 1 ≡ m + a * 2 ^ h
      → sn ≡ s + b * 2 ^ h
      → s < 2 ^ h
      → a < b
      → Shows f m leaves at_root seed fn sn a b
  Shows-full h zero m leaves at_root seed fn sn s a b n hf pos part mode ef es hs lt =
      absurd (omega arith)
  Shows-full h (suc f) m leaves at_root seed fn sn s a b n hf pos (inr (whole, (a', ea))) mode ef es
        hs lt =
      let ef' : fn + 1 ≡ m + 2 * a' * 2 ^ h = omega (arith, ap (λ (t : ℕ). t * 2 ^ h) ea) in
      rw ea (Shows-whole h f m leaves at_root seed fn sn s a' b n (whole ∙ sym n) mode ef' es hs)
  Shows-full zero (suc f) m leaves at_root seed fn sn s a b n hf pos (inl part) mode ef es hs lt =
      absurd (omega arith)
  Shows-full (suc h) (suc f) m leaves at_root seed fn sn s a b n hf pos (inl part) mode ef es hs
        lt =
      let k = 2 ^ h in
      let d = top_digit s h hs in
      let b' = 2 * b + d.digit in
      let wide : length leaves ≡ k + k = omega (arith, two_pow-suc h) in
      let two : 2 ≤ length leaves = omega (arith, lt-two_pow h) in
      let e : k ≡ largest_power_of_two_less_than (length leaves) =
        sym (split-two_pow (length leaves) h (omega (arith, lt-two_pow h)) (omega arith)) in
      let half = halves leaves k (omega arith) in
      let es' : sn ≡ d.low + b' * k = omega (arith, mul-two_pow-suc b h, d.sum) in
      let low : m < length leaves = omega (arith, two_pow-suc h) in
      let binary = d.binary in
      let again_front =
        λ (le : m ≤ k) (part' : (m < k) ⊎ ((m ≡ k) × ((a' : ℕ) × (2 * a ≡ 2 * a')))).
          Shows-full h f m (take k leaves) at_root seed fn sn d.low (2 * a) b' half.front
            (omega arith) pos part' (rw (take-take m k leaves le) mode)
            (omega (arith, mul-two_pow-suc a h)) es' d.small (omega arith) in
      let step_front = λ (x r q : Bytes) (work : List Bytes).
        roots_left x r q (2 * a) b' a b work refl (omega arith) (omega arith) (omega arith) in
      elim (dec_le m k) [
        | yes le ↦
            Shows-front f m k leaves at_root seed fn sn (2 * a) b' a b h two low e refl le
              (again_front le (elim (ℕ_discrete m k) [
                | yes same ↦ inr (same, (a, refl))
                | no other ↦ inl (omega arith)
              ]))
              step_front
        | no behind ↦
            let gt : k < m = omega arith in
            let hi : m < k + k = omega (arith, two_pow-suc h) in
            Shows-behind f m k leaves at_root seed fn sn (2 * a + 1) b' a b h two low e refl gt
              (omega arith)
              (Shows-full h f (m - k) (drop k leaves) false seed fn sn d.low (2 * a + 1) b'
                (omega (arith, half.back)) (omega arith) (omega arith) (inl (omega arith))
                (Mode-behind at_root m k h _ seed refl gt hi mode _)
                (omega (arith, mul-two_pow-suc a h)) es' d.small (omega arith))
              (λ x r q work.
                roots_right x r q (2 * a + 1) b' a b work refl (omega arith) (omega arith))
      ]

  -- What `Shows-edge` below says with `f` levels of recursion.
  abbrev pub EdgeClaim : ℕ → Type 0
  EdgeClaim f =
      (m : ℕ) (leaves : List Bytes) (at_root : Bool) (seed : Option Bytes) (fn sn c h : ℕ)
      → length leaves ≤ 2 ^ h
      → length leaves ≤ f
      → 0 < m
      → m < length leaves
      → Mode at_root m (mth (take m leaves)) seed
      → fn + 1 ≡ m + c * 2 ^ h
      → sn ≡ length leaves - 1 + c * 2 ^ h
      → (t : ℕ) × Shows f m leaves at_root seed fn sn (c * 2 ^ t) (c * 2 ^ t)

  Shows-edge_step : (f : ℕ) → EdgeClaim f → EdgeClaim (suc f)
  Shows-edge_step f again m leaves at_root seed fn sn c h wide hf pos lt mode ef es =
      let n = length leaves in
      let k = largest_power_of_two_less_than n in
      let s = split n (omega arith) in
      let j = s.level in
      let (e, gap) = two_pow-gap j h (level-lt s h wide) in
      let a = c * 2 ^ e in
      let scaled : c * 2 ^ h ≡ c * (2 * 2 ^ e * 2 ^ j) = ap (λ (t : ℕ). c * t) gap in
      let half = halves leaves k (omega (arith, s.below)) in
      let back_len : length (drop k leaves) ≡ n - k = half.back in
      let es' : sn ≡ n - k - 1 + (2 * a + 1) * 2 ^ j = omega (arith, scaled, s.is_pow, s.below) in
      elim (dec_le m k) [
        | yes le ↦
            let part : (m < 2 ^ j) ⊎ ((m ≡ 2 ^ j) × ((a' : ℕ) × (2 * a ≡ 2 * a'))) =
              elim (ℕ_discrete m (2 ^ j)) [
                | yes same ↦ inr (same, (a, refl))
                | no other ↦ inl (omega (arith, s.is_pow))
              ] in
            (
              e,
              Shows-front f m k leaves at_root seed fn sn (2 * a) (2 * a + 1) a a j (omega arith) lt
                  refl s.is_pow le
                  (Shows-full j f m (take k leaves) at_root seed fn sn (n - k - 1) (2 * a)
                    (2 * a + 1) (half.front ∙ s.is_pow)
                    (omega (arith, s.below, s.is_pow, lt-two_pow j)) pos part
                    (rw (take-take m k leaves le) mode) (omega (arith, scaled)) es'
                    (omega (arith, s.below, s.is_pow, s.half)) (omega arith))
                  (λ x r q work.
                    roots_left x r q (2 * a) (2 * a + 1) a a work refl (omega arith) (omega arith)
                      (omega arith)),
            )
        | no behind ↦
            let gt : k < m = omega arith in
            let hi : m < k + k = omega (arith, s.half) in
            let (t, sub) =
              again (m - k) (drop k leaves) false seed fn sn (2 * a + 1) j
                (omega (arith, back_len, s.half, s.is_pow)) (omega (arith, back_len, s.pos))
                (omega arith) (omega (arith, back_len))
                (Mode-behind at_root m k j _ seed s.is_pow gt hi mode _)
                (omega (arith, scaled, s.is_pow)) (omega (arith, es', back_len)) in
            let y = (2 * a + 1) * 2 ^ t in
            let nonzero : y ≢ 0 = grind (arith, lt-two_pow t) in
            (
              e,
              Shows-behind f m k leaves at_root seed fn sn y y a a j (omega arith) lt refl s.is_pow
                  gt (omega arith) sub
                  (λ x r q work. roots_edge x r q y a t work (refl {a = y}) nonzero),
            )
      ]

  -- A subtree on the right edge, below `c` full subtrees of 2 ^ h leaves, of which the old tree has
  -- a part: both counters end at `c`, up to factors of two.
  pub Shows-edge : (f : ℕ) → EdgeClaim f
  Shows-edge zero m leaves at_root seed fn sn c h wide hf pos lt mode ef es = absurd (omega arith)
  Shows-edge (suc f) m leaves at_root seed fn sn c h wide hf pos lt mode ef es =
      Shows-edge_step f (Shows-edge f) m leaves at_root seed fn sn c h wide hf pos lt mode ef es

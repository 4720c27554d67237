-- ===== src/Merkle/Shape.antt =====
-- How a tree of `n` leaves splits, and the equations of the tree hash.
use crypto_agent.Prelude.{
  ℕ, zero, suc, ◌+◌, ◌-◌, ◌*◌, ◌^◌, ◌≤◌, ◌<◌, ◌≡◌, refl, ap, ◌∙◌, arith, List, Bytes, length, take,
  drop, length-take, length-drop, Bool-cases, inl, inr, ltb,
}
use crypto_agent.Prelude.Powers.{two_pow-suc, lt-two_pow, two_pow-lt, two_pow-gap, two_pow_unique}
use crypto_agent.Merkle.Hash.{grow, largest_power_of_two_less_than}

-- Everything that is known of the split of `n` leaves at `k`.
pub record Split (n k : ℕ) : Type 0 where
  pub level : ℕ
  pub is_pow : k ≡ 2 ^ level
  pub below : k < n
  pub half : n ≤ k + k
  pub pos : 0 < k

grow-Split : (fuel n k j : ℕ) → k ≡ 2 ^ j → 0 < k → k < n → n ≤ fuel + k → Split n (grow fuel n k)
unfolding grow
grow-Split zero n k j e pos lt room = absurd (omega arith)
grow-Split (suc fuel) n k j e pos lt room = elim (Bool-cases (ltb (k * 2) n)) [
  | inl more ↦
      rw (more, grow)
        (grow-Split fuel n (k * 2) (suc j) (omega (arith, two_pow-suc j)) (omega arith)
          (ground arith) (omega arith))
  | inr done ↦
      rw (done, grow) (record { level = j; is_pow = e; below = lt; half = ground arith; pos = pos })
]

-- The left subtree of two or more leaves has a power of two of them: fewer than all, and no fewer
-- than the right one. The loop has fuel enough.
pub split : (n : ℕ) → 2 ≤ n → Split n (largest_power_of_two_less_than n)
unfolding largest_power_of_two_less_than
split n h = grow-Split n n 1 0 refl (omega arith) (omega arith) (omega arith)

-- What a recursion over `split` uses: both parts of a list are shorter.
pub record Halves (leaves : List Bytes) (k : ℕ) : Type 0 where
  pub front : length (take k leaves) ≡ k
  pub back : length (drop k leaves) ≡ length leaves - k

pub halves : (leaves : List Bytes) (k : ℕ) → k ≤ length leaves → Halves leaves k
halves leaves k h = record {
  front = omega (arith, length-take k leaves);
  back = length-drop k leaves;
}

-- A power of two that reaches past the left subtree's size reaches twice as far.
pub level-lt : {n k : ℕ} (s : Split n k) (h : ℕ) → n ≤ 2 ^ h → s.level < h
level-lt s h fits = two_pow-lt s.level h (omega (arith, s.is_pow, s.below))

-- In the numbering of the verifier: `2 ^ h` is `2 ^ (h - level - 1)` doubled left subtrees.
pub Split-level : {n k : ℕ} (s : Split n k) (h : ℕ) → n ≤ 2 ^ h → (e : ℕ) × (2 ^ h ≡ 2 * 2 ^ e * k)
Split-level s h fits =
    let gap = two_pow-gap s.level h (level-lt s h fits) in
    (gap.0, omega (arith, gap.1, ap (λ (t : ℕ). 2 * 2 ^ gap.0 * t) s.is_pow))

-- The split is the only power of two in its place.
pub split-two_pow :
    (n j : ℕ) → 2 ^ j < n → n ≤ 2 ^ j + 2 ^ j → largest_power_of_two_less_than n ≡ 2 ^ j
split-two_pow n j lo hi =
    let s = split n (omega (arith, lt-two_pow j)) in
    let same =
      two_pow_unique s.level j n (omega (arith, s.is_pow, s.below))
        (omega (arith, s.is_pow, s.half)) lo hi in
    s.is_pow ∙ ap (λ (t : ℕ). 2 ^ t) same

-- ===== src/Auditlog/Coherence/Hashes.antt =====
-- The hashes that `EventsSince` lists (pipeline.go), for a log that grows by one event.
use crypto_agent.Prelude.{
  ℕ, zero, suc, ◌≤◌, List, [], ◌∷◌, ◌++◌, map, Bytes, length, drop, ltb, if◌then◌else◌, ◌≡◌, refl,
  ap, arith, length-append, Bool-cases, drop_past, inl, inr,
}
use crypto_agent.Auditlog.{appended, rejected, Event, leaves_since, is_appended}

pub leaves_since-append :
    (k : ℕ) (xs ys : List Event)
    → leaves_since k (xs ++ ys) ≡ leaves_since k xs ++ leaves_since k ys
unfolding leaves_since
leaves_since-append k [] ys = refl
leaves_since-append k (e ∷ xs) ys = ground (arith, leaves_since-append k xs ys)

drop-snoc :
    (k : ℕ) (xs : List Bytes) (y : Bytes)
    → k ≤ length xs
    → drop k (xs ++ (y ∷ [])) ≡ drop k xs ++ (y ∷ [])
drop-snoc zero xs y h = refl
drop-snoc (suc k) [] y h = absurd (omega arith)
drop-snoc (suc k) (x ∷ xs) y h = drop-snoc k xs y (omega arith)

pub leaves_since-appended :
    (k : ℕ) (e : Event)
    → e.kind ≡ appended
    → leaves_since k (e ∷ []) ≡ (if ltb e.leaf_index k then [] else e ∷ [])
unfolding leaves_since is_appended
leaves_since-appended k e h = rw h refl

pub leaves_since-rejected : (k : ℕ) (e : Event) → e.kind ≡ rejected → leaves_since k (e ∷ []) ≡ []
unfolding leaves_since is_appended
leaves_since-rejected k e h = rw h refl

unfoldable pub hashes : List Event → List Bytes
hashes es = map (λ e. e.leaf_hash) es

pub hashes-append : (xs ys : List Event) → hashes (xs ++ ys) ≡ hashes xs ++ hashes ys
unfolding hashes
hashes-append [] ys = refl
hashes-append (x ∷ xs) ys = ap (λ t. x.leaf_hash ∷ t) (hashes-append xs ys)

pub leaf_step :
    (k : ℕ) (e : Event) (ls : List Bytes)
    → e.leaf_index ≡ length ls
    → drop k ls ++ hashes (if ltb e.leaf_index k then [] else e ∷ [])
      ≡ drop k (ls ++ (e.leaf_hash ∷ []))
unfolding hashes
leaf_step k e ls ix = elim (Bool-cases (ltb e.leaf_index k)) [
  | inl q ↦
      rw
        (
          q,
          drop_past k ls (ground (arith, q, ix)),
          drop_past k (ls ++ (e.leaf_hash ∷ []))
              (ground (arith, q, ix, length-append ls (e.leaf_hash ∷ []))),
        )
        refl
  | inr q ↦ rw (q, drop-snoc k ls e.leaf_hash (ground (arith, q, ix))) refl
]

pub hashes-none : (k : ℕ) → hashes (leaves_since k []) ≡ []
unfolding hashes leaves_since
hashes-none k = refl

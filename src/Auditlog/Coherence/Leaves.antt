-- ===== src/Auditlog/Coherence/Leaves.antt =====
-- The leaves of the tree against the events of the log (pipeline.go): each leaf that was appended has
-- its event.
use crypto_agent.Prelude.{
  ℕ, ◌≤◌, some, List, [], ◌∷◌, ◌++◌, Bytes, length, ◌≡◌, sym, ◌∙◌, arith, get_elem?,
  get_elem?-append, get_elem?-last, get_elem?-snoc, get_elem?-some, inl, inr,
}
use mathlib.Core.Path.{subst}
use crypto_agent.Auditlog.{appended, Event, Pipeline}
use crypto_agent.Auditlog.Coherence.{Feed, start, leaf, refusal, IsCoherent}

-- the event `e` stands in the log and tells of the leaf `x` at place `i`
pub record TellsOf (es : List Event) (i : ℕ) (x : Bytes) (e : Event) : Type 0 where
  pub number : ℕ
  pub there : get_elem? es number ≡ some e
  pub is_leaf : e.kind ≡ appended
  pub place : e.leaf_index ≡ i
  pub hashed : e.leaf_hash ≡ x

earlier :
    (es : List Event) (y : Event) (i : ℕ) (x : Bytes) (e : Event)
    → TellsOf es i x e
    → TellsOf (es ++ (y ∷ [])) i x e
earlier es y i x e told = record {
  number = told.number;
  there = get_elem?-append es (y ∷ []) told.number e told.there;
  is_leaf = told.is_leaf;
  place = told.place;
  hashed = told.hashed;
}

Feed-TellsOf :
    (base : List Bytes) (es : List Event) (ls : List Bytes)
    → Feed base es ls
    → (i : ℕ) (x : Bytes) → length base ≤ i
    → get_elem? ls i ≡ some x
    → (e : Event) × TellsOf es i x e
Feed-TellsOf base _ _ start i x h at = absurd (omega (arith, h, get_elem?-some base i x at))
Feed-TellsOf base _ _ (leaf y {es} {ls} f kd sq ix) i x h at =
    elim (get_elem?-snoc ls y.leaf_hash x i at) [
      | inl g ↦ let (e, told) = Feed-TellsOf base es ls f i x h g in (e, earlier es y i x e told)
      | inr (q, g) ↦ (
        y,
        record {
          number = length es;
          there = get_elem?-last es y;
          is_leaf = kd;
          place = ix ∙ sym q;
          hashed = g;
        },
      )
    ]
Feed-TellsOf base _ _ (refusal y {es} {ls} f kd sq) i x h at =
    let (e, told) = Feed-TellsOf base es ls f i x h at in (e, earlier es y i x e told)

pub IsCoherent-leaf :
    (base : List Bytes) (p : Pipeline) (i : ℕ) (x : Bytes)
    → IsCoherent base p
    → length base ≤ i
    → get_elem? p.tree.leaves i ≡ some x
    → (e : Event) × TellsOf p.events i x e
unfolding IsCoherent
IsCoherent-leaf base p i x f h at = Feed-TellsOf base p.events p.tree.leaves f i x h at

-- a log without events goes with any tree
pub no_events-IsCoherent : (p : Pipeline) → p.events ≡ [] → IsCoherent p.tree.leaves p
unfolding IsCoherent
no_events-IsCoherent p h = subst (λ es. Feed p.tree.leaves es p.tree.leaves) (sym h) start

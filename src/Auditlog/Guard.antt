-- ===== src/Auditlog/Guard.antt =====
-- What the replay cache of `Submit` (pipeline.go) keeps true of the log: two leaves with one agent and
-- nonce are further apart than the window, whether entries are evicted or an append fails.
pub mod Calls
use crypto_agent.Prelude.{
  ℕ, ◌+◌, ◌*◌, ◌/◌, ◌^◌, ◌≤◌, ◌<◌, true, false, Option, none, some, List, [], ◌∷◌, ◌++◌, Bytes,
  length, if◌then◌else◌, Result, ok, err, ◌≡◌, refl, sym, ap, ◌∙◌, arith, equal, equal→eq,
  equal_refl, Result-cases, Bool-cases, Option-cases, ◌⊎◌, inl, inr, get_elem?, get_elem?-snoc,
  some-inj, get_elem?-some, equal_iff,
}
use mathlib.Core.Path.{subst}
use crypto_agent.Action.{Action, max_skew_millis, nonce_window_ms}
use crypto_agent.Merkle.Hash
use crypto_agent.Merkle.Hash.{Sha256}
use crypto_agent.Merkle.Tree
use crypto_agent.Merkle.Tree.{Tree}
use crypto_agent.Auditlog.{
  Event, appended, rejected, Pipeline, Env, Refusal, publish, record_leaf, append_fresh,
  appended_event, forget, submit_locked, refused, submit_checked, check_action, submit, is_expired,
  is_skewed, replay_key, lookup, without, record_rejection_from_action, rejection,
}
use crypto_agent.Auditlog.Replay.{check_action-ok}

-- how long `Submit` remembers a nonce, in nanoseconds
abbrev pub window : ℕ
window = (max_skew_millis + nonce_window_ms) * 1_000_000

abbrev pub key_of : Action → Bytes
key_of a = replay_key a.agent_id a.nonce

-- The event at a place of the log tells of a leaf for this action.
pub record LeafAt (es : List Event) (i : ℕ) (e : Event) (a : Action) : Type 0 where
  pub placed : get_elem? es i ≡ some e
  pub is_leaf : e.kind ≡ appended
  pub tells : e.action ≡ some a

abbrev pub Cache : Type 0
Cache = List (Bytes × Event)

-- The clock of a call, in nanoseconds: 30 seconds after 1970 or later, and 30 seconds before the end of
-- int64 milliseconds or earlier.
unfoldable pub IsClock : ℕ → Type 0
IsClock now = (30_000 ≤ now / 1_000_000) × (now / 1_000_000 + 30_000 < 2 ^ 63)

abbrev pub IsTimely : ℕ → Action → Type 0
IsTimely now a = IsClock now × (is_skewed (now / 1_000_000) a.timestamp_ms ≡ false)

-- What holds of the log and the cache when no call has read a later clock than `now`.
pub record IsGuarded (now : ℕ) (es : List Event) (seen : Cache) : Type 0 where
  pub apart :
      (i j : ℕ) (e f : Event) (a b : Action)
      → i < j
      → LeafAt es i e a
      → LeafAt es j f b
      → key_of a ≡ key_of b
      → e.recorded_at + window < f.recorded_at
  pub past : (i : ℕ) (e : Event) (a : Action) → LeafAt es i e a → e.recorded_at ≤ now
  pub cached :
      (i : ℕ) (e : Event) (a : Action)
      → LeafAt es i e a
      → (e.recorded_at + window < now)
        ⊎ ((c : Event) × (lookup (key_of a) seen ≡ some c) × (e.recorded_at ≤ c.recorded_at))
  pub timely : (i : ℕ) (e : Event) (a : Action) → LeafAt es i e a → IsTimely e.recorded_at a

LeafAt-rejected :
    (es : List Event) (r e : Event) (a : Action) (i : ℕ)
    → r.kind ≡ rejected
    → LeafAt (es ++ (r ∷ [])) i e a
    → LeafAt es i e a
LeafAt-rejected es r e a i k h = elim (get_elem?-snoc es r e i h.placed) [
  | inl q ↦ record { placed = q; is_leaf = h.is_leaf; tells = h.tells }
  | inr (_, q) ↦ absurd (cc (k, h.is_leaf, q))
]

-- A leaf of the longer log was there, or is the new event.
LeafAt-snoc :
    (es : List Event) (x e : Event) (a b : Action) (i : ℕ)
    → x.action ≡ some b
    → LeafAt (es ++ (x ∷ [])) i e a
    → LeafAt es i e a ⊎ ((i ≡ length es) × (e ≡ x) × (a ≡ b))
LeafAt-snoc es x e a b i k h = elim (get_elem?-snoc es x e i h.placed) [
  | inl q ↦ inl (record { placed = q; is_leaf = h.is_leaf; tells = h.tells })
  | inr (at, q) ↦ inr (at, sym q, some-inj (sym h.tells ∙ ap (λ y. y.action) (sym q) ∙ k))
]

LeafAt-lt : (es : List Event) (e : Event) (a : Action) (i : ℕ) → LeafAt es i e a → i < length es
LeafAt-lt es e a i h = get_elem?-some es i e h.placed

pub IsGuarded-later :
    (now later : ℕ) (es : List Event) (seen : Cache)
    → now ≤ later
    → IsGuarded now es seen
    → IsGuarded later es seen
IsGuarded-later now later es seen le g = record {
  apart = g.apart;
  past = λ i e a h. omega (arith, g.past i e a h, le);
  cached =
      λ i e a h. elim (g.cached i e a h) [ inl old ↦ inl (omega arith) | inr there ↦ inr there ];
  timely = g.timely;
}

pub IsGuarded-rejected :
    (now : ℕ) (es : List Event) (seen : Cache) (r : Event)
    → r.kind ≡ rejected
    → IsGuarded now es seen
    → IsGuarded now (es ++ (r ∷ [])) seen
IsGuarded-rejected now es seen r k g = record {
  apart = λ i j e f a b lt h u.
      g.apart i j e f a b lt (LeafAt-rejected es r e a i k h) (LeafAt-rejected es r f b j k u);
  past = λ i e a h. g.past i e a (LeafAt-rejected es r e a i k h);
  cached = λ i e a h. g.cached i e a (LeafAt-rejected es r e a i k h);
  timely = λ i e a h. g.timely i e a (LeafAt-rejected es r e a i k h);
}

-- The cache `rest` is `seen` with no entry for the key.
unfoldable pub Cleared : Bytes → Cache → Cache → Type 0
Cleared key seen rest = (k : Bytes) → lookup k rest ≡ (if equal key k then none else lookup k seen)

lookup-without :
    (key k : Bytes) (seen : Cache)
    → lookup k (without key seen) ≡ (if equal key k then none else lookup k seen)
unfolding lookup without
lookup-without key k [] = ground arith
lookup-without key k ((j, e) ∷ seen) =
    ground (arith, lookup-without key k seen, equal_iff j k, equal_iff j key, equal_iff key k)

pub Cleared-absent : (key : Bytes) (seen : Cache) → lookup key seen ≡ none → Cleared key seen seen
unfolding Cleared
Cleared-absent key seen q k = elim (Bool-cases (equal key k)) [
  | inl same ↦ rw same (ap (λ j. lookup j seen) (sym (equal→eq key k same)) ∙ q)
  | inr other ↦ rw other refl
]

pub Cleared-forget : (key : Bytes) (seen : Cache) → Cleared key seen (without key seen)
unfolding Cleared
Cleared-forget key seen k = lookup-without key k seen

-- the entries of the key, if there are any, have expired
unfoldable pub Stale : Bytes → ℕ → Cache → Type 0
Stale key now seen = (c : Event) → lookup key seen ≡ some c → c.recorded_at + window < now

module _ (now later : ℕ) (es : List Event) (seen rest : Cache) (key : Bytes) (le : now ≤ later)
    (g : IsGuarded now es seen) (stale : Stale key later seen)
    (cleared : Cleared key seen rest) where
  -- a leaf with the key is older than the window
  LeafAt-stale :
      (i : ℕ) (e : Event) (a : Action)
      → LeafAt es i e a
      → key ≡ key_of a
      → e.recorded_at + window < later
  unfolding Stale
  LeafAt-stale i e a h same = elim (g.cached i e a h) [
    | inl old ↦ omega arith
    | inr (c, there, newer) ↦
        let gone = stale c (ap (λ k. lookup k seen) same ∙ there) in omega arith
  ]

  -- `Append` failed: an expired entry may be gone
  pub IsGuarded-cleared : IsGuarded later es rest
  unfolding Cleared
  IsGuarded-cleared = record {
    apart = g.apart;
    past = λ i e a h. omega (arith, g.past i e a h, le);
    cached = λ i e a h. elim (Bool-cases (equal key (key_of a))) [
      | inl same ↦ inl (LeafAt-stale i e a h (equal→eq key (key_of a) same))
      | inr other ↦ elim (g.cached i e a h) [
        | inl old ↦ inl (omega arith)
        | inr (c, there, newer) ↦ inr (c, cleared (key_of a) ∙ rw other there, newer)
      ]
    ];
    timely = g.timely;
  }

  module _ (x : Event) (b : Action) (its : x.action ≡ some b) (at : x.recorded_at ≡ later)
      (its_key : key ≡ key_of b) (in_time : IsTimely later b) where
    apart-snoc :
        (i j : ℕ) (e f : Event) (a c : Action)
        → i < j
        → LeafAt (es ++ (x ∷ [])) i e a
        → LeafAt (es ++ (x ∷ [])) j f c
        → key_of a ≡ key_of c
        → e.recorded_at + window < f.recorded_at
    apart-snoc i j e f a c lt h u same = elim (LeafAt-snoc es x f c b j its u) [
      | inl v ↦ elim (LeafAt-snoc es x e a b i its h) [
        | inl w ↦ g.apart i j e f a c lt w v same
        | inr (last, q, p) ↦ absurd (omega (arith, LeafAt-lt es f c j v))
      ]
      | inr (last, q, p) ↦ elim (LeafAt-snoc es x e a b i its h) [
        | inl w ↦
            let old = LeafAt-stale i e a w (its_key ∙ ap key_of (sym p) ∙ sym same) in
            let new = ap (λ y. y.recorded_at) q in omega arith
        | inr (first, r, t) ↦ absurd (omega arith)
      ]
    ]

    -- the new leaf is there, and the cache has its event
    pub IsGuarded-leaf : IsGuarded later (es ++ (x ∷ [])) ((key, x) ∷ rest)
    unfolding Cleared lookup
    IsGuarded-leaf = record {
      apart = apart-snoc;
      past = λ i e a h. elim (LeafAt-snoc es x e a b i its h) [
        | inl w ↦ omega (arith, g.past i e a w, le)
        | inr (last, q, p) ↦ omega (arith, ap (λ y. y.recorded_at) q)
      ];
      cached = λ i e a h. elim (LeafAt-snoc es x e a b i its h) [
        | inl w ↦ elim (Bool-cases (equal key (key_of a))) [
          | inl same ↦ inl (LeafAt-stale i e a w (equal→eq key (key_of a) same))
          | inr other ↦ elim (g.cached i e a w) [
            | inl old ↦ inl (omega arith)
            | inr (c, there, newer) ↦ inr (c, rw other (cleared (key_of a) ∙ rw other there), newer)
          ]
        ]
        | inr (last, q, p) ↦
            inr
              (x, rw (p, ← its_key, equal_refl key) refl, omega (arith, ap (λ y. y.recorded_at) q))
      ];
      timely = λ i e a h. elim (LeafAt-snoc es x e a b i its h) [
        | inl w ↦ g.timely i e a w
        | inr (last, q, p) ↦ rw (q, p, at) in_time
      ];
    }

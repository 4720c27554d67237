-- ===== src/Auditlog/Window.antt =====
-- Idempotency of `Submit` over the replay window (pipeline.go): whatever is called in between, an event
-- stays in the cache until it expires.
use crypto_agent.Prelude.{
  ℕ, ◌+◌, ◌*◌, ◌≤◌, true, false, Option, none, some, List, [], ◌∷◌, ◌++◌, Bytes, equal, equal_iff,
  Result, ok, err, ◌≡◌, refl, sym, ap, ◌∙◌, arith, Bool-cases, Option-cases, inl, inr,
}
use mathlib.Core.Path.{subst}
use crypto_agent.Action.{Action, max_skew_millis, nonce_window_ms}
use crypto_agent.Merkle.Hash
use crypto_agent.Merkle.Hash.{Sha256}
use crypto_agent.Merkle.Tree.{Tree}
use crypto_agent.Auditlog.{
  Event, Pipeline, Env, Refusal, publish, record_leaf, append_fresh, appended_event, forget,
  submit_locked, refused, submit_checked, check_action, submit, record_rejection,
  record_rejection_from_action, subscribe, cancel, is_expired, replay_key, lookup, without,
}
use crypto_agent.Auditlog.Replay.{
  IsAuthentic, submit-locked, submit-Remembers, submit_locked-cached, submit_locked-stale,
  unexpired,
}

-- Calls of a pipeline's methods one after the other, in which no `Submit` reads a clock past the limit.
pub data During (sha : Sha256) (limit : ℕ) : Pipeline → Pipeline → Type 0 where
  done : (p : Pipeline) → During sha limit p p
  submits :
      {p q : Pipeline}
      → During sha limit p q
      → (env : Env) (a : Option Action) (sig : Bytes) → env.now ≤ limit
      → During sha limit p (submit sha env a sig q).1
  records :
      {p q : Pipeline}
      → During sha limit p q
      → (at : ℕ) (agent_id action_type target reason : Bytes)
      → During sha limit p (record_rejection at agent_id action_type target reason q)
  subscribes : {p q : Pipeline} → During sha limit p q → During sha limit p (subscribe q).1
  cancels : {p q : Pipeline} → During sha limit p q → (id : ℕ) → During sha limit p (cancel id q)

lookup-without :
    (k j : Bytes) (m : List (Bytes × Event))
    → equal j k ≡ false
    → lookup k (without j m) ≡ lookup k m
unfolding lookup without
lookup-without k j [] h = refl
lookup-without k j ((i, e) ∷ m) h = elim (Bool-cases (equal i j)) [
  | inl same ↦
      let other : equal i k ≡ false =
        subst (λ x. equal x k ≡ false) (sym ((equal_iff i j).0 same)) h in
      rw (same, other) (lookup-without k j m h)
  | inr apart ↦ rw (apart, lookup-without k j m h) refl
]

-- the cache has the event under the key
abbrev Holds : Bytes → Event → Pipeline → Type 0
Holds k e p = lookup k p.seen ≡ some e

module _ (sha : Sha256) (k : Bytes) (e : Event) where
  record_leaf-Holds :
      (j : Bytes) (x : Event) (p : Pipeline) (r : Result Hash.Error ℕ × Tree)
      → equal j k ≡ false
      → Holds k e p
      → Holds k e (record_leaf j x p r).1
  unfolding record_leaf publish lookup
  record_leaf-Holds j x p (ok i, t) other h = rw other h
  record_leaf-Holds j x p (err y, t) other h = h

  append_fresh-Holds :
      (env : Env) (a : Action) (sig : Bytes) (found : Bytes × Bytes) (p : Pipeline)
      → equal (replay_key a.agent_id a.nonce) k ≡ false
      → Holds k e p
      → Holds k e (append_fresh sha env a sig found p).1
  unfolding append_fresh
  append_fresh-Holds env a sig (canon, pub_key) p other h =
      record_leaf-Holds _ (appended_event sha env.now a sig pub_key (canon ++ sig) 0) p _ other h

  submit_locked-Holds :
      (env : Env) (a : Action) (sig : Bytes) (found : Bytes × Bytes) (cached : Option Event)
      (p : Pipeline)
      → equal (replay_key a.agent_id a.nonce) k ≡ false
      → Holds k e p
      → Holds k e (submit_locked sha env a sig found cached p).1
  unfolding submit_locked forget
  submit_locked-Holds env a sig found none p other h = append_fresh-Holds env a sig found p other h
  submit_locked-Holds env a sig found (some c) p other h =
      elim (Bool-cases (is_expired c.recorded_at env.now)) [
        | inl q ↦ rw (submit_locked-stale sha env a sig found c p q) (
            append_fresh-Holds env a sig found (forget (replay_key a.agent_id a.nonce) p) other
              (lookup-without k _ p.seen other ∙ h))
        | inr q ↦ rw (submit_locked-cached sha env a sig found c p q) h
      ]

  submit_checked-Holds :
      (env : Env) (a : Action) (sig : Bytes) (checked : Result Refusal (Bytes × Bytes))
      (p : Pipeline)
      → is_expired e.recorded_at env.now ≡ false
      → Holds k e p
      → Holds k e (submit_checked sha env a sig checked p).1
  unfolding submit_checked refused record_rejection_from_action publish
  submit_checked-Holds env a sig (err r) p alive h = elim (Option-cases r.published) [
    | inl q ↦ rw q h
    | inr (_, q) ↦ rw q h
  ]
  submit_checked-Holds env a sig (ok found) p alive h =
      let j = replay_key a.agent_id a.nonce in
      elim (Bool-cases (equal j k)) [
        | inl same ↦
            let cached : lookup j p.seen ≡ some e =
              ap (λ i. lookup i p.seen) ((equal_iff j k).0 same) ∙ h in
            rw (cached, submit_locked-cached sha env a sig found e p alive) h
        | inr other ↦ submit_locked-Holds env a sig found (lookup j p.seen) p other h
      ]

  submit-Holds :
      (env : Env) (a : Option Action) (sig : Bytes) (p : Pipeline)
      → is_expired e.recorded_at env.now ≡ false
      → Holds k e p
      → Holds k e (submit sha env a sig p).1
  unfolding submit
  submit-Holds env none sig p alive h = h
  submit-Holds env (some a) sig p alive h =
      submit_checked-Holds env a sig (check_action env a sig) p alive h

  During-Holds :
      (limit : ℕ) (p q : Pipeline)
      → limit ≤ e.recorded_at + (max_skew_millis + nonce_window_ms) * 1_000_000
      → During sha limit p q
      → Holds k e p
      → Holds k e q
  unfolding record_rejection publish subscribe cancel
  During-Holds limit p _ near (done _) h = h
  During-Holds limit p _ near (submits {q = q} d env a sig le) h =
      submit-Holds env a sig q (unexpired e.recorded_at env.now (omega arith))
        (During-Holds limit p q near d h)
  During-Holds limit p _ near (records {q = q} d _ _ _ _ _) h = During-Holds limit p q near d h
  During-Holds limit p _ near (subscribes {q = q} d) h = During-Holds limit p q near d h
  During-Holds limit p _ near (cancels {q = q} d id) h = During-Holds limit p q near d h

-- When `Submit` has appended an action and answered with the event `e`, and then any calls of the
-- pipeline follow, none of which is a `Submit` that reads a clock past the end of the replay window, an
-- authentic action of the same agent with the same nonce is still answered inside the window with `e` as
-- not fresh, even if the rest of it differs from the first, and the pipeline, its tree included, stays
-- as it is.
pub submit-replay :
    (sha : Sha256) (env later : Env) (limit : ℕ) (a b : Action) (sig sig' : Bytes) (p q : Pipeline)
    (e : Event)
    → (submit sha env (some a) sig p).0 ≡ ok (e, true)
    → limit ≤ env.now + (max_skew_millis + nonce_window_ms) * 1_000_000
    → During sha limit (submit sha env (some a) sig p).1 q
    → IsAuthentic later b sig'
    → b.agent_id ≡ a.agent_id
    → b.nonce ≡ a.nonce
    → later.now ≤ limit
    → submit sha later (some b) sig' q ≡ (ok (e, false), q)
submit-replay sha env later limit a b sig sig' p q e h near between auth same_agent same_nonce le =
    let (at, first) = submit-Remembers sha env a sig p e h in
    let cached =
      During-Holds sha _ e limit (submit sha env (some a) sig p).1 q (omega (arith, at, near))
        between first in
    submit-locked sha later b sig' q auth
    ∙ ap (λ c. submit_locked sha later b sig' (later.encode b, auth.entry.pub_key) c q)
        (rw (same_agent, same_nonce) cached)
    ∙ submit_locked-cached sha later b sig' _ e q
        (unexpired e.recorded_at later.now (omega (arith, at, near, le)))

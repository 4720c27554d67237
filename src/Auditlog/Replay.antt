-- ===== src/Auditlog/Replay.antt =====
-- What the answers of `Submit` vouch for, and what it leaves in its cache (pipeline.go).
use crypto_agent.Prelude.{
  ℕ, ◌+◌, ◌*◌, ◌/◌, ◌≤◌, Bool, true, false, Option, none, some, ◌++◌, Bytes, length, ◌==◌, Result,
  ok, err, ◌≡◌, refl, sym, ap, ◌∙◌, arith, equal_refl, Result-cases, Bool-cases, Option-cases, inl,
  inr,
}
use mathlib.Core.Path.{subst}
use crypto_agent.Keystore.{MemoryEntry}
use crypto_agent.Action
use crypto_agent.Action.{Action, max_skew_millis, nonce_window_ms, current_schema}
use crypto_agent.Merkle.Hash
use crypto_agent.Merkle.Hash.{Sha256, hash_leaf}
use crypto_agent.Merkle.Tree.{Tree}
use crypto_agent.Auditlog.{
  Event, Pipeline, Env, Error, Refusal, Answer, publish, record_leaf, append_fresh, appended_event,
  forget, submit_locked, refused, submit_checked, check_action, check_agent, check_signature,
  submit, is_expired, is_skewed, replay_key, lookup,
}

-- What `Submit` has checked when it answers with an event: the action is well formed and of the
-- current schema, its time stamp is near the clock, and the key that is registered for its agent
-- verifies the signature over its canonical bytes.
pub record IsAuthentic (env : Env) (a : Action) (sig : Bytes) : Type 0 where
  pub valid : Action.validate a ≡ ok tt
  pub timely : is_skewed (env.now / 1_000_000) a.timestamp_ms ≡ false
  pub entry : MemoryEntry
  pub key_size : length entry.pub_key ≡ 32
  pub registered : env.store_get a.agent_id ≡ ok entry
  pub signed : env.crypto.verify entry.pub_key (env.encode a) sig ≡ true

-- the bytes of the leaf are the canonical ones, and the key is the registered one
pub check_agent-ok :
    (env : Env) (a : Action) (sig : Bytes) (found : Bytes × Bytes)
    → check_agent env a sig ≡ ok found
    → (entry : MemoryEntry) × (env.store_get a.agent_id ≡ ok entry)
      × (length entry.pub_key ≡ 32)
      × (env.crypto.verify entry.pub_key (env.encode a) sig ≡ true)
      × (found ≡ (env.encode a, entry.pub_key))
unfolding check_agent check_signature Action.verify Action.canonical
check_agent-ok env a sig found h = ground arith

pub check_action-ok :
    (env : Env) (a : Action) (sig : Bytes) (found : Bytes × Bytes)
    → check_action env a sig ≡ ok found
    → (Action.validate a ≡ ok tt)
      × (is_skewed (env.now / 1_000_000) a.timestamp_ms ≡ false)
      × (check_agent env a sig ≡ ok found)
unfolding check_action
check_action-ok env a sig found h = ground arith

check_action-IsAuthentic :
    (env : Env) (a : Action) (sig : Bytes) (found : Bytes × Bytes)
    → check_action env a sig ≡ ok found
    → IsAuthentic env a sig
check_action-IsAuthentic env a sig found h =
    let (valid, timely, agent) = check_action-ok env a sig found h in
    let (entry, registered, key_size, signed, _) = check_agent-ok env a sig found agent in
    record {
      valid = valid;
      timely = timely;
      entry = entry;
      registered = registered;
      key_size = key_size;
      signed = signed;
    }

valid_schema :
    (a : Action) → Action.validate a ≡ ok tt → (a.schema_version == current_schema) ≡ true
unfolding Action.validate
valid_schema a h = ground arith

IsAuthentic-check_agent :
    (env : Env) (a : Action) (sig : Bytes) (h : IsAuthentic env a sig)
    → check_agent env a sig ≡ ok (env.encode a, h.entry.pub_key)
unfolding check_agent check_signature Action.verify Action.canonical
IsAuthentic-check_agent env a sig h = ground (arith, h.registered, h.key_size, h.valid, h.signed)

IsAuthentic-check_action :
    (env : Env) (a : Action) (sig : Bytes) (h : IsAuthentic env a sig)
    → check_action env a sig ≡ ok (env.encode a, h.entry.pub_key)
unfolding check_action
IsAuthentic-check_action env a sig h =
    rw (valid_schema a h.valid, h.valid, h.timely) (IsAuthentic-check_agent env a sig h)

refused-err :
    (env : Env) (a : Action) (r : Refusal) (p : Pipeline) → (refused env a r p).0 ≡ err r.error
unfolding refused
refused-err env a r p = elim (Option-cases r.published) [
  | inl q ↦ rw q refl
  | inr (_, q) ↦ rw q refl
]

err_not_ok : (x : Error) (y : Event × Bool) → Path (Result Error (Event × Bool)) (err x) (ok y) → ⊥
err_not_ok x y h = cc

refused_not_ok :
    (sha : Sha256) (env : Env) (a : Action) (sig : Bytes) (p : Pipeline) (r : Refusal) (e : Event)
    (is_fresh : Bool)
    → check_action env a sig ≡ err r
    → (submit sha env (some a) sig p).0 ≡ ok (e, is_fresh)
    → ⊥
unfolding submit submit_checked
refused_not_ok sha env a sig p r e b q h =
    err_not_ok r.error (e, b)
      (sym (refused-err env a r p) ∙ ap (λ c. (submit_checked sha env a sig c p).0) (sym q) ∙ h)

-- An event comes back from `Submit`, fresh or cached, only for an action that is well formed, timely
-- and signed with the key that the store has for its agent.
pub submit-IsAuthentic :
    (sha : Sha256) (env : Env) (a : Action) (sig : Bytes) (p : Pipeline) (e : Event)
    (is_fresh : Bool)
    → (submit sha env (some a) sig p).0 ≡ ok (e, is_fresh)
    → IsAuthentic env a sig
unfolding submit
submit-IsAuthentic sha env a sig p e is_fresh h = elim (Result-cases (check_action env a sig)) [
  | inl (found, q) ↦ check_action-IsAuthentic env a sig found q
  | inr (r, q) ↦ absurd (refused_not_ok sha env a sig p r e is_fresh q h)
]

-- the entry that a fresh append leaves behind
record_leaf-seen :
    (key : Bytes) (x e : Event) (b : Bool) (p : Pipeline) (r : Result Hash.Error ℕ × Tree)
    → (record_leaf key x p r).0 ≡ ok (e, b)
    → (e.recorded_at ≡ x.recorded_at) × (lookup key (record_leaf key x p r).1.seen ≡ some e)
unfolding record_leaf publish lookup
record_leaf-seen key x e b p (ok i, t) h =
    let same : record x { seq = length p.events; leaf_index = i } ≡ e = cc h in
    (ap (λ y. y.recorded_at) (sym same), rw (equal_refl key) (ap some same))
record_leaf-seen key x e b p (err y, t) h = absurd (cc h)

pub submit_locked-stale :
    (sha : Sha256) (env : Env) (a : Action) (sig : Bytes) (found : Bytes × Bytes) (c : Event)
    (p : Pipeline)
    → is_expired c.recorded_at env.now ≡ true
    → submit_locked sha env a sig found (some c) p
      ≡ append_fresh sha env a sig found (forget (replay_key a.agent_id a.nonce) p)
unfolding submit_locked
submit_locked-stale sha env a sig found c p q = rw q refl

pub submit_locked-cached :
    (sha : Sha256) (env : Env) (a : Action) (sig : Bytes) (found : Bytes × Bytes) (c : Event)
    (p : Pipeline)
    → is_expired c.recorded_at env.now ≡ false
    → submit_locked sha env a sig found (some c) p ≡ (ok (c, false), p)
unfolding submit_locked
submit_locked-cached sha env a sig found c p q = rw q refl

-- the answer `r` is a fresh event, which the cache now has under the key
Remembers : Bytes → ℕ → Answer → Type 0
Remembers key now r =
    (e : Event) → r.0 ≡ ok (e, true) → (e.recorded_at ≡ now) × (lookup key r.1.seen ≡ some e)

append_fresh-Remembers :
    (sha : Sha256) (env : Env) (a : Action) (sig : Bytes) (found : Bytes × Bytes) (p : Pipeline)
    → Remembers (replay_key a.agent_id a.nonce) env.now (append_fresh sha env a sig found p)
unfolding Remembers append_fresh
append_fresh-Remembers sha env a sig (canon, pub_key) p e h =
    record_leaf-seen _ (appended_event sha env.now a sig pub_key (canon ++ sig) 0) e true p _ h

not_fresh :
    (key : Bytes) (now : ℕ) (c : Event) (p : Pipeline) → Remembers key now (ok (c, false), p)
unfolding Remembers
not_fresh key now c p e h = absurd (cc h)

submit_locked-Remembers :
    (sha : Sha256) (env : Env) (a : Action) (sig : Bytes) (found : Bytes × Bytes)
    (cached : Option Event) (p : Pipeline)
    → Remembers (replay_key a.agent_id a.nonce) env.now (submit_locked sha env a sig found cached p)
unfolding submit_locked
submit_locked-Remembers sha env a sig found none p = append_fresh-Remembers sha env a sig found p
submit_locked-Remembers sha env a sig found (some c) p =
    elim (Bool-cases (is_expired c.recorded_at env.now)) [
      | inl q ↦
          rw (submit_locked-stale sha env a sig found c p q)
            (append_fresh-Remembers sha env a sig found (forget (replay_key a.agent_id a.nonce) p))
      | inr q ↦ rw (submit_locked-cached sha env a sig found c p q) (not_fresh _ env.now c p)
    ]

pub submit-locked :
    (sha : Sha256) (env : Env) (a : Action) (sig : Bytes) (p : Pipeline) (h : IsAuthentic env a sig)
    → submit sha env (some a) sig p
      ≡ submit_locked sha env a sig
          (env.encode a, h.entry.pub_key)
          (lookup (replay_key a.agent_id a.nonce) p.seen)
          p
unfolding submit submit_checked
submit-locked sha env a sig p h = rw (IsAuthentic-check_action env a sig h) refl

pub unexpired :
    (recorded_at now : ℕ)
    → now ≤ recorded_at + (max_skew_millis + nonce_window_ms) * 1_000_000
    → is_expired recorded_at now ≡ false
unfolding is_expired
unexpired r n h = ground arith

pub submit-Remembers :
    (sha : Sha256) (env : Env) (a : Action) (sig : Bytes) (p : Pipeline) (e : Event)
    → (submit sha env (some a) sig p).0 ≡ ok (e, true)
    → (e.recorded_at ≡ env.now)
      × (lookup (replay_key a.agent_id a.nonce) (submit sha env (some a) sig p).1.seen ≡ some e)
unfolding Remembers
submit-Remembers sha env a sig p e h =
    let auth = submit-IsAuthentic sha env a sig p e true h in
    subst (Remembers (replay_key a.agent_id a.nonce) env.now)
      (sym (submit-locked sha env a sig p auth))
      (submit_locked-Remembers sha env a sig (env.encode a, auth.entry.pub_key)
        (lookup (replay_key a.agent_id a.nonce) p.seen) p)
      e h

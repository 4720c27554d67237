-- ===== src/Auditlog/Provenance.antt =====
-- What stands behind each event of the log (pipeline.go): a predicate of events that holds of every
-- denial, and of every event that `Submit` makes of an action it has checked, holds of the whole log.
use crypto_agent.Prelude.{
  ℕ, Option, none, some, ◌++◌, Bytes, length, Result, ok, err, ◌≡◌, refl, All, All-append,
  Bool-cases, Option-cases, Result-cases, inl, inr,
}
use crypto_agent.Action.{Action}
use crypto_agent.Merkle.Hash
use crypto_agent.Merkle.Hash.{Sha256}
use crypto_agent.Merkle.Tree
use crypto_agent.Merkle.Tree.{Tree}
use crypto_agent.Auditlog.{
  rejected, Event, Pipeline, Env, Refusal, publish, record_rejection, record_rejection_from_action,
  record_leaf, append_fresh, appended_event, forget, submit_locked, refused, submit_checked,
  check_action, submit, is_expired, replay_key, lookup, rejection,
}

-- the event has the property whatever its place in the log and in the tree
abbrev pub Anywhere : (Event → Type 0) → Event → Type 0
Anywhere P e = (seq idx : ℕ) → P (record e { seq = seq; leaf_index = idx })

module _ (P : Event → Type 0) (denied : (e : Event) → e.kind ≡ rejected → P e) where
  publish-All :
      (e : Event) (p : Pipeline)
      → P (record e { seq = length p.events })
      → All P p.events
      → All P (publish e p).events
  unfolding publish
  publish-All e p h hs = All-append P p.events _ hs (h, tt)

  record_leaf-All :
      (key : Bytes) (e : Event) (p : Pipeline) (r : Result Hash.Error ℕ × Tree)
      → Anywhere P e
      → All P p.events
      → All P (record_leaf key e p r).1.events
  unfolding record_leaf publish
  record_leaf-All key e p (err x, t) h hs = hs
  record_leaf-All key e p (ok idx, t) h hs =
      All-append P p.events _ hs (h (length p.events) idx, tt)

  append_fresh-All :
      (sha : Sha256) (env : Env) (a : Action) (sig canon pub_key : Bytes) (p : Pipeline)
      → Anywhere P (appended_event sha env.now a sig pub_key (canon ++ sig) 0)
      → All P p.events
      → All P (append_fresh sha env a sig (canon, pub_key) p).1.events
  unfolding append_fresh
  append_fresh-All sha env a sig canon pub_key p h hs =
      record_leaf-All (replay_key a.agent_id a.nonce)
        (appended_event sha env.now a sig pub_key (canon ++ sig) 0) p
        (Tree.append ⦃sha = sha⦄ env.fate (canon ++ sig) p.tree) h hs

  submit_locked-All :
      (sha : Sha256) (env : Env) (a : Action) (sig canon pub_key : Bytes) (cached : Option Event)
      (p : Pipeline)
      → Anywhere P (appended_event sha env.now a sig pub_key (canon ++ sig) 0)
      → All P p.events
      → All P (submit_locked sha env a sig (canon, pub_key) cached p).1.events
  unfolding submit_locked forget
  submit_locked-All sha env a sig canon pub_key none p h hs =
      append_fresh-All sha env a sig canon pub_key p h hs
  submit_locked-All sha env a sig canon pub_key (some c) p h hs =
      elim (Bool-cases (is_expired c.recorded_at env.now)) [
        | inl q ↦ rw q (append_fresh-All sha env a sig canon pub_key (forget _ p) h hs)
        | inr q ↦ rw q hs
      ]

  refused-All :
      (env : Env) (a : Action) (r : Refusal) (p : Pipeline)
      → All P p.events
      → All P (refused env a r p).1.events
  unfolding refused record_rejection_from_action
  refused-All env a r p hs = elim (Option-cases r.published) [
    | inl q ↦ rw q hs
    | inr (reason, q) ↦ rw q (
        publish-All (rejection env.rejected_at (some a) a.agent_id a.action_type a.target reason) p
          (denied _ refl) hs)
  ]

  pub submit-All :
      (sha : Sha256) (env : Env) (a : Option Action) (sig : Bytes) (p : Pipeline)
      → ((b : Action) (canon pub_key : Bytes)
          → a ≡ some b
          → check_action env b sig ≡ ok (canon, pub_key)
          → Anywhere P (appended_event sha env.now b sig pub_key (canon ++ sig) 0))
      → All P p.events
      → All P (submit sha env a sig p).1.events
  unfolding submit submit_checked
  submit-All sha env none sig p h hs = hs
  submit-All sha env (some a) sig p h hs = elim (Result-cases (check_action env a sig)) [
    | inl ((canon, pub_key), q) ↦ rw q (
        submit_locked-All sha env a sig canon pub_key
          (lookup (replay_key a.agent_id a.nonce) p.seen) p (h a canon pub_key refl q) hs)
    | inr (r, q) ↦ rw q (refused-All env a r p hs)
  ]

  pub record_rejection-All :
      (at : ℕ) (agent_id action_type target reason : Bytes) (p : Pipeline)
      → All P p.events
      → All P (record_rejection at agent_id action_type target reason p).events
  unfolding record_rejection
  record_rejection-All at agent_id action_type target reason p hs =
      publish-All (rejection at none agent_id action_type target reason) p (denied _ refl) hs

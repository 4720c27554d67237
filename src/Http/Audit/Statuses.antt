-- ===== src/Http/Audit/Statuses.antt =====
-- What the status of the append endpoint says (auditlog/http/handler.go).
use crypto_agent.Prelude.{
  ℕ, ◌≤◌, Bool, true, false, Option, none, some, [], ◌∷◌, ◌++◌, Bytes, Result, ok, err, ◌≡◌, refl,
  arith, Bool-cases, Option-cases, Result-cases, ◌⊎◌, inl, inr,
}
use crypto_agent.Prelude.Hex.{hex_decode}
use crypto_agent.Action
use crypto_agent.Action.{Action}
use crypto_agent.Merkle.Hash
use crypto_agent.Merkle.Hash.{Sha256, hash_leaf}
use crypto_agent.Merkle.Tree
use crypto_agent.Merkle.Tree.{Tree}
use crypto_agent.Merkle.Tree.Growth.{Grew, append-Grew}
use crypto_agent.Auditlog.{
  Event, Pipeline, Env, Error, Refusal, Answer, publish, record_leaf, append_fresh, appended_event,
  forget, submit_locked, refused, submit_checked, check_action, submit, is_expired, replay_key,
  lookup, record_rejection_from_action,
}
use crypto_agent.Auditlog.Replay.{
  IsAuthentic, submit-IsAuthentic, submit_locked-stale, submit_locked-cached,
}
use crypto_agent.Http.Audit.{append, append_decoded, answered, write_pipeline_error}

-- An answer of the pipeline adds a leaf, whose event it returns as fresh, or it leaves the leaves alone.
unfoldable pub Adds : Pipeline → Answer → Type 0
Adds p (ok (e, true), q) = q.tree.leaves ≡ p.tree.leaves ++ (e.leaf_hash ∷ [])
Adds p (ok (e, false), q) = q.tree.leaves ≡ p.tree.leaves
Adds p (err x, q) = q.tree.leaves ≡ p.tree.leaves

record_leaf-Adds :
    (key : Bytes) (e : Event) (p : Pipeline) (r : Result Hash.Error ℕ × Tree)
    → Grew p.tree e.leaf_hash r
    → Adds p (record_leaf key e p r)
unfolding record_leaf publish Adds Grew
record_leaf-Adds key e p (ok i, t) g = g.1
record_leaf-Adds key e p (err x, t) g = g

append_fresh-Adds :
    (sha : Sha256) (env : Env) (a : Action) (sig : Bytes) (found : Bytes × Bytes) (p : Pipeline)
    → Adds p (append_fresh sha env a sig found p)
unfolding append_fresh
append_fresh-Adds sha env a sig (canon, pub_key) p =
    record_leaf-Adds (replay_key a.agent_id a.nonce)
      (appended_event sha env.now a sig pub_key (canon ++ sig) 0) p
      (Tree.append ⦃sha = sha⦄ env.fate (canon ++ sig) p.tree)
      (append-Grew sha env.fate (canon ++ sig) p.tree)

-- the cache makes no difference to the leaves
forget-Adds : (key : Bytes) (p : Pipeline) (r : Answer) → Adds (forget key p) r → Adds p r
unfolding forget Adds
forget-Adds key p (ok (e, true), q) h = h
forget-Adds key p (ok (e, false), q) h = h
forget-Adds key p (err x, q) h = h

cached-Adds : (p : Pipeline) (e : Event) → Adds p (ok (e, false), p)
unfolding Adds
cached-Adds p e = refl

submit_locked-Adds :
    (sha : Sha256) (env : Env) (a : Action) (sig : Bytes) (found : Bytes × Bytes)
    (cached : Option Event) (p : Pipeline)
    → Adds p (submit_locked sha env a sig found cached p)
unfolding submit_locked
submit_locked-Adds sha env a sig found none p = append_fresh-Adds sha env a sig found p
submit_locked-Adds sha env a sig found (some c) p =
    let key = replay_key a.agent_id a.nonce in
    elim (Bool-cases (is_expired c.recorded_at env.now)) [
      | inl old ↦ rw (submit_locked-stale sha env a sig found c p old) (
          forget-Adds key p (append_fresh sha env a sig found (forget key p))
            (append_fresh-Adds sha env a sig found (forget key p)))
      | inr young ↦ rw (submit_locked-cached sha env a sig found c p young) (cached-Adds p c)
    ]

refused-Adds : (env : Env) (a : Action) (r : Refusal) (p : Pipeline) → Adds p (refused env a r p)
unfolding refused record_rejection_from_action publish Adds
refused-Adds env a r p = elim (Option-cases r.published) [
  | inl q ↦ rw q refl
  | inr (reason, q) ↦ rw q refl
]

pub submit-Adds :
    (sha : Sha256) (env : Env) (a : Action) (sig : Bytes) (p : Pipeline)
    → Adds p (submit sha env (some a) sig p)
unfolding submit submit_checked
submit-Adds sha env a sig p = elim (Result-cases (check_action env a sig)) [
  | inl (found, q) ↦
      rw q
        (submit_locked-Adds sha env a sig found (lookup (replay_key a.agent_id a.nonce) p.seen) p)
  | inr (r, q) ↦ rw q (refused-Adds env a r p)
]

write_pipeline_error-status :
    (canceled : Bool) (e : Error) → 400 ≤ (write_pipeline_error canceled e).status
unfolding write_pipeline_error
write_pipeline_error-status canceled Error.unknown_agent = omega arith
write_pipeline_error-status canceled (Error.invalid Action.Error.invalid_signature) = omega arith
write_pipeline_error-status canceled (Error.invalid Action.Error.bad_schema_version) = omega arith
write_pipeline_error-status canceled Error.timestamp_skew = omega arith
write_pipeline_error-status canceled (Error.invalid Action.Error.empty_field) = omega arith
write_pipeline_error-status canceled (Error.invalid Action.Error.nonce_shape) = omega arith
write_pipeline_error-status canceled (Error.invalid Action.Error.invalid_key_length) = omega arith
write_pipeline_error-status canceled Error.store_failed = ground arith
write_pipeline_error-status canceled (Error.append_failed e) = omega arith

-- What an answer of the endpoint says: with 200, the action was authentic and the leaves are those from
-- before or one more; with any other status they are those from before.
pub data Told (env : Env) (a : Action) (signature : Bytes) (p q : Pipeline) : ℕ → Type 0 where
  accepted :
      (sig : Bytes)
      → hex_decode signature ≡ some sig
      → IsAuthentic env a sig
      → (q.tree.leaves ≡ p.tree.leaves)
        ⊎ ((leaf : Bytes) × (q.tree.leaves ≡ p.tree.leaves ++ (leaf ∷ [])))
      → Told env a signature p q 200
  turned_down :
      (status : ℕ) → 400 ≤ status → q.tree.leaves ≡ p.tree.leaves → Told env a signature p q status

answered-Told :
    (canceled : Bool) (env : Env) (a : Action) (signature sig : Bytes) (p : Pipeline) (r : Answer)
    → hex_decode signature ≡ some sig
    → ((e : Event) (is_fresh : Bool) → r.0 ≡ ok (e, is_fresh) → IsAuthentic env a sig)
    → Adds p r
    → Told env a signature p (answered canceled r).1 (answered canceled r).0.status
unfolding answered Adds
answered-Told canceled env a signature sig p (err x, q) decoded authentic h =
    turned_down (write_pipeline_error canceled x).status (write_pipeline_error-status canceled x) h
answered-Told canceled env a signature sig p (ok (e, true), q) decoded authentic h =
    accepted sig decoded (authentic e true refl) (inr (e.leaf_hash, h))
answered-Told canceled env a signature sig p (ok (e, false), q) decoded authentic h =
    accepted sig decoded (authentic e false refl) (inl h)

append_decoded-Told :
    (sha : Sha256) (env : Env) (canceled : Bool) (a : Action) (signature : Bytes) (p : Pipeline)
    (decoded : Option Bytes)
    → hex_decode signature ≡ decoded
    → Told env a signature p
        (append_decoded sha env canceled a decoded p).1
        (append_decoded sha env canceled a decoded p).0.status
unfolding append_decoded
append_decoded-Told sha env canceled a signature p none h = turned_down 400 (omega arith) refl
append_decoded-Told sha env canceled a signature p (some sig) h =
    answered-Told canceled env a signature sig p (submit sha env (some a) sig p) h
      (submit-IsAuthentic sha env a sig p) (submit-Adds sha env a sig p)

-- A call of the append endpoint with an action answers 200 only if the signature is hexadecimal text and
-- the action is authentic under it, and then the log keeps its leaves or gains one; any other answer is
-- a status from 400 on, and the leaves stay.
pub append-status :
    (sha : Sha256) (env : Env) (canceled : Bool) (a : Action) (signature : Bytes) (p : Pipeline)
    → Told env a signature p
        (append sha env canceled (some (some a, signature)) p).1
        (append sha env canceled (some (some a, signature)) p).0.status
unfolding append append_decoded
append-status sha env canceled a signature p =
    append_decoded-Told sha env canceled a signature p (hex_decode signature) refl

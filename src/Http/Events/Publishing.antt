-- ===== src/Http/Events/Publishing.antt =====
-- A call of `Submit` or `RecordRejection` (pipeline.go) publishes one event at most.
use crypto_agent.Prelude.{
  ℕ, suc, Option, none, some, [], ◌∷◌, ◌++◌, Bytes, length, Result, ok, err, ◌≡◌, refl, arith,
  Bool-cases, Option-cases, inl, inr, All-append,
}
use crypto_agent.Action.{Action}
use crypto_agent.Merkle.Hash
use crypto_agent.Merkle.Hash.{Sha256}
use crypto_agent.Merkle.Tree
use crypto_agent.Merkle.Tree.{Tree}
use crypto_agent.Auditlog.{
  Event, Pipeline, Subscribers, Env, Refusal, deliver, publish, record_leaf, append_fresh,
  appended_event, forget, submit_locked, refused, submit_checked, check_action, submit, is_expired,
  replay_key, lookup, subscribe, cancel, record_rejection, record_rejection_from_action, rejection,
  drop_subscriber,
}
use crypto_agent.Auditlog.Coherence
use crypto_agent.Auditlog.Coherence.{submits, records, subscribes, cancels, fresh, next}
use crypto_agent.Http.Events.Channel.{Below}

-- From `p` to `q` one event was published, which the constructor names, or none.
pub data Published (p q : Pipeline) : Type 0 where
  silent : q.events ≡ p.events → q.subs ≡ p.subs → q.next_id ≡ p.next_id → Published p q
  one :
      (e : Event)
      → q.events ≡ p.events ++ (e ∷ [])
      → e.seq ≡ length p.events
      → q.subs ≡ deliver p.sub_buffer e p.subs
      → q.next_id ≡ p.next_id
      → Published p q

publish-Published : (e : Event) (p : Pipeline) → Published p (publish e p)
unfolding publish
publish-Published e p = one (record e { seq = length p.events }) refl refl refl refl

record_leaf-Published :
    (key : Bytes) (e : Event) (p : Pipeline) (r : Result Hash.Error ℕ × Tree)
    → Published p (record_leaf key e p r).1
unfolding record_leaf publish
record_leaf-Published key e p (ok i, t) =
    one (record e { seq = length p.events; leaf_index = i }) refl refl refl refl
record_leaf-Published key e p (err x, t) = silent refl refl refl

append_fresh-Published :
    (sha : Sha256) (env : Env) (a : Action) (sig : Bytes) (found : Bytes × Bytes) (p : Pipeline)
    → Published p (append_fresh sha env a sig found p).1
unfolding append_fresh
append_fresh-Published sha env a sig (canon, pub_key) p =
    record_leaf-Published (replay_key a.agent_id a.nonce)
      (appended_event sha env.now a sig pub_key (canon ++ sig) 0) p
      (Tree.append ⦃sha = sha⦄ env.fate (canon ++ sig) p.tree)

-- the cache makes no difference
forget-Published : (key : Bytes) (p q : Pipeline) → Published (forget key p) q → Published p q
unfolding forget
forget-Published key p q (silent a b c) = silent a b c
forget-Published key p q (one e a b c d) = one e a b c d

submit_locked-Published :
    (sha : Sha256) (env : Env) (a : Action) (sig : Bytes) (found : Bytes × Bytes)
    (cached : Option Event) (p : Pipeline)
    → Published p (submit_locked sha env a sig found cached p).1
unfolding submit_locked
submit_locked-Published sha env a sig found none p = append_fresh-Published sha env a sig found p
submit_locked-Published sha env a sig found (some c) p =
    let key = replay_key a.agent_id a.nonce in
    elim (Bool-cases (is_expired c.recorded_at env.now)) [
      | inl old ↦ rw old (
          forget-Published key p (append_fresh sha env a sig found (forget key p)).1
            (append_fresh-Published sha env a sig found (forget key p)))
      | inr young ↦ rw young (silent refl refl refl)
    ]

refused-Published :
    (env : Env) (a : Action) (r : Refusal) (p : Pipeline) → Published p (refused env a r p).1
unfolding refused record_rejection_from_action
refused-Published env a r p = elim (Option-cases r.published) [
  | inl q ↦ rw q (silent refl refl refl)
  | inr (reason, q) ↦ rw q (
      publish-Published
        (rejection env.rejected_at (some a) a.agent_id a.action_type a.target reason) p)
]

submit_checked-Published :
    (sha : Sha256) (env : Env) (a : Action) (sig : Bytes) (r : Result Refusal (Bytes × Bytes))
    (p : Pipeline)
    → Published p (submit_checked sha env a sig r p).1
unfolding submit_checked
submit_checked-Published sha env a sig (err r) p = refused-Published env a r p
submit_checked-Published sha env a sig (ok found) p =
    submit_locked-Published sha env a sig found (lookup (replay_key a.agent_id a.nonce) p.seen) p

pub submit-Published :
    (sha : Sha256) (env : Env) (a : Option Action) (sig : Bytes) (p : Pipeline)
    → Published p (submit sha env a sig p).1
unfolding submit
submit-Published sha env none sig p = silent refl refl refl
submit-Published sha env (some a) sig p =
    submit_checked-Published sha env a sig (check_action env a sig) p

pub record_rejection-Published :
    (at : ℕ) (agent_id action_type target reason : Bytes) (p : Pipeline)
    → Published p (record_rejection at agent_id action_type target reason p)
unfolding record_rejection
record_rejection-Published at agent_id action_type target reason p =
    publish-Published (rejection at none agent_id action_type target reason) p

-- Ids are given out once: every subscriber's is below the next one.
Fresh : Pipeline → Type 0
Fresh p = Below p.next_id p.subs

Below-deliver :
    (n buffer : ℕ) (e : Event) (subs : Subscribers) → Below n subs → Below n (deliver buffer e subs)
unfolding Below deliver
Below-deliver n buffer e [] h = h
Below-deliver n buffer e (s ∷ subs) h = (h.0, Below-deliver n buffer e subs h.1)

Below-suc : (n : ℕ) (subs : Subscribers) → Below n subs → Below (suc n) subs
unfolding Below
Below-suc n [] h = h
Below-suc n (s ∷ subs) h = (omega (arith, h.0), Below-suc n subs h.1)

snoc_Below :
    (n : ℕ) (subs : Subscribers) → Below (suc n) subs → Below (suc n) (subs ++ ((n, []) ∷ []))
unfolding Below
snoc_Below n subs h = All-append _ subs ((n, []) ∷ []) h (omega arith, tt)

Below-drop_subscriber :
    (n id : ℕ) (subs : Subscribers) → Below n subs → Below n (drop_subscriber id subs)
unfolding Below drop_subscriber
Below-drop_subscriber n id [] h = h
Below-drop_subscriber n id ((j, q) ∷ subs) h = ground (arith, Below-drop_subscriber n id subs h.1)

Published-Fresh : (p q : Pipeline) → Published p q → Fresh p → Fresh q
unfolding Fresh
Published-Fresh p q (silent a b c) h = rw (b, c) h
Published-Fresh p q (one e a b c d) h = rw (c, d) (Below-deliver p.next_id p.sub_buffer e p.subs h)

Step-Fresh : (sha : Sha256) (p q : Pipeline) → Coherence.Step sha p q → Fresh p → Fresh q
unfolding Fresh subscribe cancel
Step-Fresh sha _ _ (submits env a sig p) h =
    Published-Fresh p (submit sha env a sig p).1 (submit-Published sha env a sig p) h
Step-Fresh sha _ _ (records at agent_id action_type target reason p) h =
    Published-Fresh p (record_rejection at agent_id action_type target reason p)
      (record_rejection-Published at agent_id action_type target reason p) h
Step-Fresh sha _ _ (subscribes p) h = snoc_Below p.next_id p.subs (Below-suc p.next_id p.subs h)
Step-Fresh sha _ _ (cancels id p) h = Below-drop_subscriber p.next_id id p.subs h

pub Reachable-Below :
    (sha : Sha256) (tree : Tree) (sub_buffer : ℕ) (p : Pipeline)
    → Coherence.Reachable sha tree sub_buffer p
    → Below p.next_id p.subs
unfolding Fresh Below
Reachable-Below sha tree b _ fresh = tt
Reachable-Below sha tree b _ (next {p} {q} r s) =
    Step-Fresh sha p q s (Reachable-Below sha tree b p r)

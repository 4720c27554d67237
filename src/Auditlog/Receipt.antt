-- ===== src/Auditlog/Receipt.antt =====
-- What an answer of `Submit` with a fresh event says of the tree (pipeline.go).
use crypto_agent.Prelude.{
  ℕ, true, false, Option, none, some, [], ◌∷◌, ◌++◌, Bytes, length, Result, ok, err, ◌≡◌, sym, ap,
  ◌∙◌, Bool-cases, inl, inr,
}
use mathlib.Core.Path.{subst}
use crypto_agent.Action.{Action}
use crypto_agent.Merkle.Hash
use crypto_agent.Merkle.Hash.{Sha256, hash_leaf}
use crypto_agent.Merkle.Tree
use crypto_agent.Merkle.Tree.{Tree}
use crypto_agent.Merkle.Tree.Growth.{Grew, append-Grew}
use crypto_agent.Auditlog.{
  Event, Pipeline, Env, Answer, publish, record_leaf, append_fresh, appended_event, forget,
  submit_locked, submit, is_expired, replay_key, lookup,
}
use crypto_agent.Auditlog.Replay.{
  submit-IsAuthentic, submit-locked, submit_locked-stale, submit_locked-cached,
}

-- If the answer is a fresh event, the tree has got one leaf more, with this hash, at the event's place.
Receipt : Pipeline → Bytes → Answer → Type 0
Receipt p leaf_hash r =
    (e : Event)
    → r.0 ≡ ok (e, true)
    → (e.leaf_index ≡ length p.tree.leaves) × (r.1.tree.leaves ≡ p.tree.leaves ++ (leaf_hash ∷ []))

record_leaf-Receipt :
    (key : Bytes) (x : Event) (p : Pipeline) (r : Result Hash.Error ℕ × Tree)
    → Grew p.tree x.leaf_hash r
    → Receipt p x.leaf_hash (record_leaf key x p r)
unfolding record_leaf publish Receipt Grew
record_leaf-Receipt key x p (ok i, t) g e h =
    let same : record x { seq = length p.events; leaf_index = i } ≡ e = cc h in
    (ap (λ y. y.leaf_index) (sym same) ∙ g.0, g.1)
record_leaf-Receipt key x p (err y, t) g e h = absurd (cc h)

append_fresh-Receipt :
    (sha : Sha256) (env : Env) (a : Action) (sig canon pub_key : Bytes) (p : Pipeline)
    → Receipt p
        (hash_leaf ⦃sha = sha⦄ (canon ++ sig))
        (append_fresh sha env a sig (canon, pub_key) p)
unfolding append_fresh
append_fresh-Receipt sha env a sig canon pub_key p =
    record_leaf-Receipt (replay_key a.agent_id a.nonce)
      (appended_event sha env.now a sig pub_key (canon ++ sig) 0) p
      (Tree.append ⦃sha = sha⦄ env.fate (canon ++ sig) p.tree)
      (append-Grew sha env.fate (canon ++ sig) p.tree)

cached-Receipt :
    (p : Pipeline) (leaf_hash : Bytes) (c : Event) → Receipt p leaf_hash (ok (c, false), p)
unfolding Receipt
cached-Receipt p leaf_hash c e h = absurd (cc h)

submit_locked-Receipt :
    (sha : Sha256) (env : Env) (a : Action) (sig canon pub_key : Bytes) (cached : Option Event)
    (p : Pipeline)
    → Receipt p
        (hash_leaf ⦃sha = sha⦄ (canon ++ sig))
        (submit_locked sha env a sig (canon, pub_key) cached p)
unfolding submit_locked Receipt forget
submit_locked-Receipt sha env a sig canon pub_key none p =
    append_fresh-Receipt sha env a sig canon pub_key p
submit_locked-Receipt sha env a sig canon pub_key (some c) p =
    elim (Bool-cases (is_expired c.recorded_at env.now)) [
      | inl old ↦ rw (submit_locked-stale sha env a sig (canon, pub_key) c p old) (
          append_fresh-Receipt sha env a sig canon pub_key
            (forget (replay_key a.agent_id a.nonce) p))
      | inr young ↦
          rw (submit_locked-cached sha env a sig (canon, pub_key) c p young)
            (cached-Receipt p (hash_leaf ⦃sha = sha⦄ (canon ++ sig)) c)
    ]

pub submit-fresh :
    (sha : Sha256) (env : Env) (a : Action) (sig : Bytes) (p : Pipeline) (e : Event)
    → (submit sha env (some a) sig p).0 ≡ ok (e, true)
    → (e.leaf_index ≡ length p.tree.leaves)
      × ((submit sha env (some a) sig p).1.tree.leaves
          ≡ p.tree.leaves ++ (hash_leaf ⦃sha = sha⦄ (env.encode a ++ sig) ∷ []))
unfolding Receipt
submit-fresh sha env a sig p e h =
    let auth = submit-IsAuthentic sha env a sig p e true h in
    subst (Receipt p (hash_leaf ⦃sha = sha⦄ (env.encode a ++ sig)))
      (sym (submit-locked sha env a sig p auth))
      (submit_locked-Receipt sha env a sig (env.encode a) auth.entry.pub_key
        (lookup (replay_key a.agent_id a.nonce) p.seen) p)
      e h

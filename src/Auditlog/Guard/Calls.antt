-- ===== src/Auditlog/Guard/Calls.antt =====
-- Every call of the pipeline keeps the guard (auditlog/pipeline.go).
use crypto_agent.Prelude.{
  ℕ, ◌+◌, ◌≤◌, ◌<◌, true, Option, none, some, ◌++◌, Bytes, length, Result, ok, err, ◌≡◌, refl, sym,
  ◌∙◌, arith, Result-cases, Bool-cases, Option-cases, inl, inr, some-inj,
}
use mathlib.Core.Path.{subst}
use crypto_agent.Action.{Action}
use crypto_agent.Merkle.Hash
use crypto_agent.Merkle.Hash.{Sha256}
use crypto_agent.Merkle.Tree
use crypto_agent.Merkle.Tree.{Tree}
use crypto_agent.Auditlog.{
  Event, Pipeline, Env, Refusal, publish, record_leaf, append_fresh, appended_event, forget,
  submit_locked, refused, submit_checked, check_action, submit, is_expired, lookup,
  record_rejection_from_action, rejection,
}
use crypto_agent.Auditlog.Replay.{check_action-ok}
use crypto_agent.Auditlog.Guard.{
  window, key_of, Cache, IsClock, IsTimely, IsGuarded, IsGuarded-later, IsGuarded-rejected, Cleared,
  Cleared-absent, Cleared-forget, Stale, IsGuarded-cleared, IsGuarded-leaf,
}

unfoldable pub Keeps : ℕ → Pipeline → Type 0
Keeps now p = IsGuarded now p.events p.seen

Keeps-later : (now later : ℕ) (p : Pipeline) → now ≤ later → Keeps now p → Keeps later p
unfolding Keeps
Keeps-later now later p le g = IsGuarded-later now later p.events p.seen le g

record_leaf-IsGuarded :
    (now later : ℕ) (key : Bytes) (x : Event) (b : Action) (p : Pipeline) (seen : Cache)
    (r : Result Hash.Error ℕ × Tree)
    → now ≤ later
    → IsGuarded now p.events seen
    → Stale key later seen
    → Cleared key seen p.seen
    → x.action ≡ some b
    → x.recorded_at ≡ later
    → key ≡ key_of b
    → IsTimely later b
    → Keeps later (record_leaf key x p r).1
unfolding record_leaf publish Keeps
record_leaf-IsGuarded now later key x b p seen (ok i, t) le g stale cleared its at its_key in_time =
    IsGuarded-leaf now later p.events seen p.seen key le g stale cleared
      (record x { seq = length p.events; leaf_index = i }) b its at its_key in_time
record_leaf-IsGuarded now later key x b p seen (err e, t) le g stale cleared its at its_key
      in_time =
    IsGuarded-cleared now later p.events seen p.seen key le g stale cleared

append_fresh-IsGuarded :
    (sha : Sha256) (env : Env) (a : Action) (sig : Bytes) (found : Bytes × Bytes) (now : ℕ)
    (seen : Cache) (p : Pipeline)
    → now ≤ env.now
    → IsGuarded now p.events seen
    → Stale (key_of a) env.now seen
    → Cleared (key_of a) seen p.seen
    → IsTimely env.now a
    → Keeps env.now (append_fresh sha env a sig found p).1
unfolding append_fresh
append_fresh-IsGuarded sha env a sig (canon, pub_key) now seen p le g stale cleared in_time =
    record_leaf-IsGuarded now env.now (key_of a)
      (appended_event sha env.now a sig pub_key (canon ++ sig) 0) a p seen
      (Tree.append ⦃sha = sha⦄ env.fate (canon ++ sig) p.tree) le g stale cleared refl refl refl
      in_time

expired-lt : (at now : ℕ) → is_expired at now ≡ true → at + window < now
unfolding is_expired
expired-lt at now h = ground arith

submit_locked-IsGuarded :
    (sha : Sha256) (env : Env) (a : Action) (sig : Bytes) (found : Bytes × Bytes) (now : ℕ)
    (p : Pipeline) (cached : Option Event)
    → lookup (key_of a) p.seen ≡ cached
    → now ≤ env.now
    → Keeps now p
    → IsTimely env.now a
    → Keeps env.now (submit_locked sha env a sig found cached p).1
unfolding submit_locked Keeps Stale forget
submit_locked-IsGuarded sha env a sig found now p none q le g in_time =
    append_fresh-IsGuarded sha env a sig found now p.seen p le g (λ c there. absurd (cc (there, q)))
      (Cleared-absent (key_of a) p.seen q) in_time
submit_locked-IsGuarded sha env a sig found now p (some c) q le g in_time =
    elim (Bool-cases (is_expired c.recorded_at env.now)) [
      | inl old ↦ rw old (
          append_fresh-IsGuarded sha env a sig found now p.seen (forget (key_of a) p) le g
            (λ d there.
              subst (λ (y : Event). y.recorded_at + window < env.now) (some-inj (sym q ∙ there))
                (expired-lt c.recorded_at env.now old))
            (Cleared-forget (key_of a) p.seen) in_time)
      | inr young ↦ rw young (IsGuarded-later now env.now p.events p.seen le g)
    ]

refused-IsGuarded :
    (env : Env) (a : Action) (r : Refusal) (now : ℕ) (p : Pipeline)
    → Keeps now p
    → Keeps now (refused env a r p).1
unfolding refused record_rejection_from_action publish Keeps
refused-IsGuarded env a r now p g = elim (Option-cases r.published) [
  | inl q ↦ rw q g
  | inr (reason, q) ↦ rw q (
      IsGuarded-rejected now p.events p.seen
        (record (rejection env.rejected_at (some a) a.agent_id a.action_type a.target reason) {
          seq = length p.events;
        })
        refl g)
]

pub submit-IsGuarded :
    (sha : Sha256) (env : Env) (a : Option Action) (sig : Bytes) (now : ℕ) (p : Pipeline)
    → now ≤ env.now
    → IsClock env.now
    → Keeps now p
    → Keeps env.now (submit sha env a sig p).1
unfolding submit submit_checked
submit-IsGuarded sha env none sig now p le c g = Keeps-later now env.now p le g
submit-IsGuarded sha env (some a) sig now p le c g = elim (Result-cases (check_action env a sig)) [
  | inr (r, q) ↦
      rw q (Keeps-later now env.now (refused env a r p).1 le (refused-IsGuarded env a r now p g))
  | inl (found, q) ↦
      let in_time = (check_action-ok env a sig found q).1 in
      rw q (
        submit_locked-IsGuarded sha env a sig found now p (lookup (key_of a) p.seen) refl le g
          (c, in_time))
]

-- ===== src/Auditlog/Once.antt =====
-- Replay protection over a whole run of the pipeline (pipeline.go): the cache of `Submit`, its lazy
-- eviction and the bound on the clock skew together give a signed action one leaf at most.
use crypto_agent.Prelude.{
  ℕ, ◌+◌, ◌/◌, ◌^◌, ◌≤◌, ◌<◌, Option, none, [], Bytes, length, ◌≡◌, refl, arith, inl, inr,
}
use native.Mathlib.Decide.{dec_lt}
use crypto_agent.Action.{Action}
use crypto_agent.Merkle.Hash.{Sha256}
use crypto_agent.Merkle.Tree.{Tree}
use crypto_agent.Auditlog.{
  Event, Pipeline, Env, publish, submit, record_rejection, rejection, subscribe, cancel,
}
use crypto_agent.Auditlog.Skew.{is_skewed_iff}
use crypto_agent.Auditlog.Guard.{IsClock, IsTimely, LeafAt, IsGuarded, window, IsGuarded-rejected}
use crypto_agent.Auditlog.Guard.Calls.{Keeps, submit-IsGuarded}

-- The runs of a new pipeline in which no `Submit` reads an earlier clock than the one before it; the
-- number is the last clock read. Rejections, subscriptions and cancellations come at any time.
pub data Run (sha : Sha256) (tree : Tree) (sub_buffer : ℕ) : ℕ → Pipeline → Type 0 where
  begin : Run sha tree sub_buffer 0 (record {
    tree = tree;
    sub_buffer = sub_buffer;
    seen = [];
    events = [];
    subs = [];
    next_id = 0;
  })
  submits :
      {now : ℕ} {p : Pipeline}
      → Run sha tree sub_buffer now p
      → (env : Env) (a : Option Action) (sig : Bytes) → now ≤ env.now
      → IsClock env.now
      → Run sha tree sub_buffer env.now (submit sha env a sig p).1
  records :
      {now : ℕ} {p : Pipeline}
      → Run sha tree sub_buffer now p
      → (at : ℕ) (agent_id action_type target reason : Bytes)
      → Run sha tree sub_buffer now (record_rejection at agent_id action_type target reason p)
  subscribes :
      {now : ℕ} {p : Pipeline}
      → Run sha tree sub_buffer now p
      → Run sha tree sub_buffer now (subscribe p).1
  cancels :
      {now : ℕ} {p : Pipeline}
      → Run sha tree sub_buffer now p
      → (id : ℕ) → Run sha tree sub_buffer now (cancel id p)

module _ (sha : Sha256) (tree : Tree) (sub_buffer : ℕ) where
  Run-Keeps : (now : ℕ) (p : Pipeline) → Run sha tree sub_buffer now p → Keeps now p
  unfolding Keeps record_rejection publish subscribe cancel
  Run-Keeps _ _ begin = record {
    apart = λ i j e f a b lt h u k. absurd (cc h.placed);
    past = λ i e a h. absurd (cc h.placed);
    cached = λ i e a h. absurd (cc h.placed);
    timely = λ i e a h. absurd (cc h.placed);
  }
  Run-Keeps _ _ (submits {now} {p} r env a sig le c) =
      submit-IsGuarded sha env a sig now p le c (Run-Keeps now p r)
  Run-Keeps _ _ (records {now} {p} r at agent_id action_type target reason) =
      IsGuarded-rejected now p.events p.seen
        (record (rejection at none agent_id action_type target reason) { seq = length p.events })
        refl (Run-Keeps now p r)
  Run-Keeps _ _ (subscribes {now} {p} r) = Run-Keeps now p r
  Run-Keeps _ _ (cancels {now} {p} r id) = Run-Keeps now p r

  -- Two times at which one action passes the skew check are no further apart than the window.
  timely_close :
      (at later : ℕ) (a : Action)
      → a.timestamp_ms < 2 ^ 64
      → IsTimely at a
      → IsTimely later a
      → later ≤ at + window
  unfolding IsClock
  timely_close at later a small (c, h) (d, u) =
      elim ((is_skewed_iff (at / 1_000_000) a.timestamp_ms c.0 c.1 small).0 h) [
        | inl (l, m) ↦ elim ((is_skewed_iff (later / 1_000_000) a.timestamp_ms d.0 d.1 small).0 u) [
          | inl (n, o) ↦ omega arith
          | inr far ↦ absurd (omega arith)
        ]
        | inr far ↦ elim ((is_skewed_iff (later / 1_000_000) a.timestamp_ms d.0 d.1 small).0 u) [
          | inl (n, o) ↦ absurd (omega arith)
          | inr same ↦ omega arith
        ]
      ]

  not_later :
      (now : ℕ) (p : Pipeline) (i j : ℕ) (e f : Event) (a : Action)
      → IsGuarded now p.events p.seen
      → a.timestamp_ms < 2 ^ 64
      → LeafAt p.events i e a
      → LeafAt p.events j f a
      → j ≤ i
  not_later now p i j e f a g small h u = elim (dec_lt i j) [
    | yes lt ↦
        let far = g.apart i j e f a a lt h u refl in
        let near =
          timely_close e.recorded_at f.recorded_at a small (g.timely i e a h) (g.timely j f a u) in
        absurd (omega arith)
    | no ge ↦ omega arith
  ]

  -- In a run where the clock does not go back between calls of `Submit`, and always reads a time that is
  -- 30 seconds or more inside the range from 1970 to the end of int64 milliseconds, one action has one
  -- leaf at most: two events of leaves that tell of the same action stand at the same place. The action's
  -- time stamp is an int64.
  pub one_leaf :
      (now : ℕ) (p : Pipeline) (i j : ℕ) (e f : Event) (a : Action)
      → Run sha tree sub_buffer now p
      → a.timestamp_ms < 2 ^ 64
      → LeafAt p.events i e a
      → LeafAt p.events j f a
      → i ≡ j
  unfolding Keeps
  one_leaf now p i j e f a r small h u =
      let g = Run-Keeps now p r in
      let le = not_later now p i j e f a g small h u in
      let ge = not_later now p j i f e a g small u h in omega arith

  -- In such a run two leaves for one agent and nonce, whatever else their actions say, were recorded
  -- further apart than the replay window of 630 seconds.
  pub nonce_apart :
      (now : ℕ) (p : Pipeline) (i j : ℕ) (e f : Event) (a b : Action)
      → Run sha tree sub_buffer now p
      → i < j
      → LeafAt p.events i e a
      → LeafAt p.events j f b
      → a.agent_id ≡ b.agent_id
      → a.nonce ≡ b.nonce
      → e.recorded_at + 630_000_000_000 < f.recorded_at
  unfolding Keeps
  nonce_apart now p i j e f a b r lt h u agent nonce =
      (Run-Keeps now p r).apart i j e f a b lt h u (rw (agent, nonce) refl)

-- ===== src/Auditlog/Coherence.antt =====
-- The event log of the pipeline against its Merkle tree (pipeline.go): every call keeps the two in
-- step, so that `EventsSince` and `AllEventsSince` tell what the tree holds.
pub mod Leaves
pub mod Hashes
use crypto_agent.Prelude.{
  ℕ, zero, suc, ◌+◌, ◌≤◌, Option, none, some, List, [], ◌∷◌, ◌++◌, map, Bytes, length, drop, ltb,
  leb, if◌then◌else◌, Result, ok, err, ◌≡◌, refl, sym, ap, ◌∙◌, arith, length-append, Bool-cases,
  Option-cases, get_elem?, get_elem?-drop, drop_past, get_elem?-snoc, inl, inr,
}
use mathlib.Core.Path.{subst}
use mathlib.Core.List.{append-nil}
use crypto_agent.Action.{Action}
use crypto_agent.Merkle.Hash
use crypto_agent.Merkle.Hash.{Sha256, hash_leaf, closed}
use crypto_agent.Merkle.Tree.{Tree}
use crypto_agent.Merkle.Tree.Growth.{Grew, append-Grew}
use crypto_agent.Auditlog.{
  appended, rejected, Event, Pipeline, Env, Refusal, Env, publish, record_rejection,
  record_rejection_from_action, record_leaf, append_fresh, appended_event, forget, submit_locked,
  refused, submit_checked, check_action, submit, subscribe, cancel, leaves_since, is_appended,
  events_since, all_events_since, is_expired, replay_key, lookup, rejection,
}
use crypto_agent.Auditlog.Coherence.Hashes.{
  leaves_since-append, leaves_since-appended, leaves_since-rejected, hashes, hashes-append,
  leaf_step, hashes-none,
}

-- `Feed base es ls`: the events `es` tell how a tree with the leaves `base` became one with the
-- leaves `ls`. Each event has its place as its number, and an appended one the place and the hash of
-- its leaf.
pub data Feed (base : List Bytes) : List Event → List Bytes → Type 0 where
  start : Feed base [] base
  leaf :
      (e : Event) {es : List Event} {ls : List Bytes}
      → Feed base es ls
      → e.kind ≡ appended
      → e.seq ≡ length es
      → e.leaf_index ≡ length ls
      → Feed base (es ++ (e ∷ [])) (ls ++ (e.leaf_hash ∷ []))
  refusal :
      (e : Event) {es : List Event} {ls : List Bytes}
      → Feed base es ls
      → e.kind ≡ rejected
      → e.seq ≡ length es
      → Feed base (es ++ (e ∷ [])) ls

pub IsCoherent : List Bytes → Pipeline → Type 0
IsCoherent base p = Feed base p.events p.tree.leaves

-- The calls of a pipeline's methods that change it, one step each.
pub data Step (sha : Sha256) : Pipeline → Pipeline → Type 0 where
  submits :
      (env : Env) (a : Option Action) (sig : Bytes) (p : Pipeline)
      → Step sha p ((submit sha env a sig p).1)
  records :
      (at : ℕ) (agent_id action_type target reason : Bytes) (p : Pipeline)
      → Step sha p (record_rejection at agent_id action_type target reason p)
  subscribes : (p : Pipeline) → Step sha p ((subscribe p).1)
  cancels : (id : ℕ) (p : Pipeline) → Step sha p (cancel id p)

-- What a pipeline made by `New` on a tree becomes.
pub data Reachable (sha : Sha256) (tree : Tree) (sub_buffer : ℕ) : Pipeline → Type 0 where
  fresh : Reachable sha tree sub_buffer (record {
    tree = tree;
    sub_buffer = sub_buffer;
    seen = [];
    events = [];
    subs = [];
    next_id = 0;
  })
  next :
      {p q : Pipeline}
      → Reachable sha tree sub_buffer p
      → Step sha p q
      → Reachable sha tree sub_buffer q

publish-refused :
    (base : List Bytes) (e : Event) (p : Pipeline)
    → e.kind ≡ rejected
    → IsCoherent base p
    → IsCoherent base (publish e p)
unfolding IsCoherent publish
publish-refused base e p k h = refusal (record e { seq = length p.events }) h k refl

record_leaf-IsCoherent :
    (base : List Bytes) (key : Bytes) (e : Event) (p : Pipeline) (r : Result Hash.Error ℕ × Tree)
    → e.kind ≡ appended
    → Grew p.tree e.leaf_hash r
    → IsCoherent base p
    → IsCoherent base (record_leaf key e p r).1
unfolding IsCoherent record_leaf publish Grew
record_leaf-IsCoherent base key e p (ok i, t) k g h =
    subst
      (λ ls. Feed base (p.events ++ (record e { seq = length p.events; leaf_index = i } ∷ [])) ls)
      (sym g.1) (leaf (record e { seq = length p.events; leaf_index = i }) h k refl g.0)
record_leaf-IsCoherent base key e p (err x, t) k g h = subst (λ ls. Feed base p.events ls) (sym g) h

append_fresh-IsCoherent :
    (base : List Bytes) (sha : Sha256) (env : Env) (a : Action) (sig : Bytes)
    (found : Bytes × Bytes) (p : Pipeline)
    → IsCoherent base p
    → IsCoherent base (append_fresh sha env a sig found p).1
unfolding append_fresh
append_fresh-IsCoherent base sha env a sig (canon, pub_key) p h =
    record_leaf-IsCoherent base _ (appended_event sha env.now a sig pub_key (canon ++ sig) 0) p _
      refl (append-Grew sha env.fate (canon ++ sig) p.tree) h

submit_locked-IsCoherent :
    (base : List Bytes) (sha : Sha256) (env : Env) (a : Action) (sig : Bytes)
    (found : Bytes × Bytes) (cached : Option Event) (p : Pipeline)
    → IsCoherent base p
    → IsCoherent base (submit_locked sha env a sig found cached p).1
unfolding submit_locked forget IsCoherent
submit_locked-IsCoherent base sha env a sig found none p h =
    append_fresh-IsCoherent base sha env a sig found p h
submit_locked-IsCoherent base sha env a sig found (some e) p h =
    elim (Bool-cases (is_expired e.recorded_at env.now)) [
      | inl q ↦ rw q (append_fresh-IsCoherent base sha env a sig found (forget _ p) h)
      | inr q ↦ rw q h
    ]

refused-IsCoherent :
    (base : List Bytes) (env : Env) (a : Action) (r : Refusal) (p : Pipeline)
    → IsCoherent base p
    → IsCoherent base (refused env a r p).1
unfolding refused record_rejection_from_action
refused-IsCoherent base env a r p h = elim (Option-cases r.published) [
  | inl n ↦ rw n h
  | inr (reason, n) ↦ rw n (
      publish-refused base
        (rejection env.rejected_at (some a) a.agent_id a.action_type a.target reason) p refl h)
]

submit_checked-IsCoherent :
    (base : List Bytes) (sha : Sha256) (env : Env) (a : Action) (sig : Bytes)
    (r : Result Refusal (Bytes × Bytes)) (p : Pipeline)
    → IsCoherent base p
    → IsCoherent base (submit_checked sha env a sig r p).1
unfolding submit_checked
submit_checked-IsCoherent base sha env a sig (err r) p h = refused-IsCoherent base env a r p h
submit_checked-IsCoherent base sha env a sig (ok found) p h =
    submit_locked-IsCoherent base sha env a sig found
      (lookup (replay_key a.agent_id a.nonce) p.seen) p h

pub submit-IsCoherent :
    (base : List Bytes) (sha : Sha256) (env : Env) (a : Option Action) (sig : Bytes) (p : Pipeline)
    → IsCoherent base p
    → IsCoherent base (submit sha env a sig p).1
unfolding submit
submit-IsCoherent base sha env none sig p h = h
submit-IsCoherent base sha env (some a) sig p h =
    submit_checked-IsCoherent base sha env a sig (check_action env a sig) p h

-- Every step keeps the log and the tree in step.
pub Step-IsCoherent :
    (base : List Bytes) (sha : Sha256) (p q : Pipeline)
    → Step sha p q
    → IsCoherent base p
    → IsCoherent base q
unfolding subscribe cancel record_rejection IsCoherent
Step-IsCoherent base sha _ _ (submits env a sig p) h = submit-IsCoherent base sha env a sig p h
Step-IsCoherent base sha _ _ (records at agent_id action_type target reason p) h =
    publish-refused base (rejection at none agent_id action_type target reason) p refl h
Step-IsCoherent base sha _ _ (subscribes p) h = h
Step-IsCoherent base sha _ _ (cancels id p) h = h

Reachable-IsCoherent :
    (sha : Sha256) (tree : Tree) (sub_buffer : ℕ) (p : Pipeline)
    → Reachable sha tree sub_buffer p
    → IsCoherent tree.leaves p
unfolding IsCoherent
Reachable-IsCoherent sha tree b _ fresh = start
Reachable-IsCoherent sha tree b _ (next {p} {q} r s) =
    Step-IsCoherent tree.leaves sha p q s (Reachable-IsCoherent sha tree b p r)

Feed-leaves_since :
    (base : List Bytes) (k : ℕ)
    → length base ≤ k
    → (es : List Event) (ls : List Bytes) → Feed base es ls
    → hashes (leaves_since k es) ≡ drop k ls
Feed-leaves_since base k h _ _ start = hashes-none k ∙ sym (drop_past k base h)
Feed-leaves_since base k h _ _ (leaf e {es} {ls} f kd sq ix) =
    rw
      (
        leaves_since-append k es (e ∷ []),
        leaves_since-appended k e kd,
        hashes-append (leaves_since k es) (if ltb e.leaf_index k then [] else e ∷ []),
        Feed-leaves_since base k h es ls f,
      )
      (leaf_step k e ls ix)
Feed-leaves_since base k h _ _ (refusal e {es} {ls} f kd sq) =
    rw
      (
        leaves_since-append k es (e ∷ []),
        leaves_since-rejected k e kd,
        append-nil (leaves_since k es),
      )
      (Feed-leaves_since base k h es ls f)

-- In a pipeline that was reached from a new one by any calls, `EventsSince(k)`, for a `k` that is not
-- below the size the tree began with, lists the hashes of exactly the tree's leaves from `k` on, in
-- order.
pub events_since-leaves :
    (sha : Sha256) (tree : Tree) (sub_buffer : ℕ) (p : Pipeline) (k : ℕ)
    → Reachable sha tree sub_buffer p
    → length tree.leaves ≤ k
    → map (λ e. e.leaf_hash) (events_since k p) ≡ drop k p.tree.leaves
unfolding events_since hashes IsCoherent
events_since-leaves sha tree b p k r h =
    Feed-leaves_since tree.leaves k h p.events p.tree.leaves (Reachable-IsCoherent sha tree b p r)

Feed-seq :
    (base : List Bytes) (es : List Event) (ls : List Bytes)
    → Feed base es ls
    → (i : ℕ) (e : Event) → get_elem? es i ≡ some e
    → e.seq ≡ i
Feed-seq base _ _ start i e h = absurd (cc h)
Feed-seq base _ _ (leaf x {es} {ls} f kd sq ix) i e h = elim (get_elem?-snoc es x e i h) [
  | inl g ↦ Feed-seq base es ls f i e g
  | inr (q, g) ↦ ap (λ y. y.seq) (sym g) ∙ sq ∙ sym q
]
Feed-seq base _ _ (refusal x {es} {ls} f kd sq) i e h = elim (get_elem?-snoc es x e i h) [
  | inl g ↦ Feed-seq base es ls f i e g
  | inr (q, g) ↦ ap (λ y. y.seq) (sym g) ∙ sq ∙ sym q
]

pub all_events_since-drop : (k : ℕ) (p : Pipeline) → all_events_since k p ≡ drop k p.events
unfolding all_events_since
all_events_since-drop k p = elim (Bool-cases (leb (length p.events) k)) [
  | inl q ↦ rw (q, drop_past k p.events (ground (arith, q))) refl
  | inr q ↦ rw q refl
]

pub Reachable-seq :
    (sha : Sha256) (tree : Tree) (sub_buffer : ℕ) (p : Pipeline)
    → Reachable sha tree sub_buffer p
    → (i : ℕ) (e : Event) → get_elem? p.events i ≡ some e
    → e.seq ≡ i
unfolding IsCoherent
Reachable-seq sha tree b p r =
    Feed-seq tree.leaves p.events p.tree.leaves (Reachable-IsCoherent sha tree b p r)

-- In a pipeline that was reached from a new one by any calls, the event at place `i` of
-- `AllEventsSince(k)` has the number `k + i`, so that a client which asks again behind the last
-- number it saw misses no event and sees none twice.
pub all_events_since-seq :
    (sha : Sha256) (tree : Tree) (sub_buffer : ℕ) (p : Pipeline) (k i : ℕ) (e : Event)
    → Reachable sha tree sub_buffer p
    → get_elem? (all_events_since k p) i ≡ some e
    → e.seq ≡ k + i
unfolding IsCoherent
all_events_since-seq sha tree b p k i e r h =
    Feed-seq tree.leaves p.events p.tree.leaves (Reachable-IsCoherent sha tree b p r) (k + i) e
      (cc (h, all_events_since-drop k p, get_elem?-drop k (k + i) i p.events refl))

-- ===== src/Auditlog.antt =====
-- go-key-service/internal/auditlog/pipeline.go: verified actions go into the Merkle tree, once for
-- each agent and nonce in the replay window, and every outcome is an event. The lock makes each
-- method one step on the record below. What a call takes from outside is its `Env`: two readings of the clock (in
-- nanoseconds since 1970), the key store's answer, what the disk does, and the cryptography.
pub mod Skew
pub mod Coherence
pub mod Setup
pub mod Replay
pub mod Window
pub mod Guard
pub mod Once
pub mod Provenance
pub mod Receipt
use crypto_agent.Prelude.{
  ℕ, zero, suc, ◌+◌, ◌-◌, ◌*◌, ◌/◌, Bool, true, false, not, ◌&&◌, Option, none, some, List, [], ◌∷◌,
  ◌++◌, map, Bytes, text, equal, length, drop, ltb, leb, ◌==◌, if◌then◌else◌, Result, ok, err,
  ◌>>=◌,
}
use crypto_agent.Prelude.Int64.{Int64, is_negative, sub_int64, neg_int64, lt_int64}
use crypto_agent.Keys.{Ed25519}
use crypto_agent.Keystore
use crypto_agent.Keystore.{MemoryEntry}
use crypto_agent.Action
use crypto_agent.Action.{Action, max_skew_millis, nonce_window_ms, current_schema}
use crypto_agent.Merkle.Hash
use crypto_agent.Merkle.Hash.{Sha256, hash_leaf}
use crypto_agent.Merkle.Tree
use crypto_agent.Merkle.Tree.{Tree, WriteFate}

-- The errors of `Submit`. `store_failed` is any failure of the key store but "not found".
pub data Error : Type 0 where
  invalid : Action.Error → Error
  timestamp_skew : Error
  unknown_agent : Error
  store_failed : Error
  append_failed : Hash.Error → Error

pub data Kind : Type 0 where
  appended rejected : Kind

pub record Event : Type 0 where
  pub seq : ℕ
  pub kind : Kind
  pub leaf_index : ℕ
  pub leaf_hash : Bytes
  pub action : Option Action
  pub signature : Bytes
  pub public_key : Bytes
  pub agent_id : Bytes
  pub action_type : Bytes
  pub target : Bytes
  pub reason : Bytes
  pub recorded_at : ℕ

-- A subscriber's id, and what its channel holds.
abbrev pub Subscribers : Type 0
Subscribers = List (ℕ × List Event)

-- An event is not changed once it is published, so the pointers in `seen` and `events` are values.
pub record Pipeline : Type 0 where
  pub tree : Tree
  pub sub_buffer : ℕ
  pub seen : List (Bytes × Event)
  pub events : List Event
  pub subs : Subscribers
  pub next_id : ℕ

pub record Env : Type 0 where
  pub now : ℕ
  pub rejected_at : ℕ
  pub store_get : Bytes → Result Keystore.Error MemoryEntry
  pub fate : WriteFate
  pub crypto : Ed25519
  pub encode : Action → Bytes

unfoldable pub abs_int64 : Int64 → Int64
abs_int64 v = if is_negative v then neg_int64 v else v

-- `absInt64(now.UnixMilli() - a.TimestampMs) > action.MaxSkewMillis`
unfoldable pub is_skewed : Int64 → Int64 → Bool
unfolding abs_int64
is_skewed now_ms timestamp_ms = lt_int64 max_skew_millis (abs_int64 (sub_int64 now_ms timestamp_ms))

-- `expired`: nanoseconds; a clock that went back gives a negative difference, which is not over
unfoldable pub is_expired : ℕ → ℕ → Bool
is_expired recorded_at now =
    ltb ((max_skew_millis + nonce_window_ms) * 1_000_000) (now - recorded_at)

unfoldable pub replay_key : Bytes → Bytes → Bytes
replay_key agent_id nonce = agent_id ++ (b'|' ∷ nonce)

unfoldable pub lookup : Bytes → List (Bytes × Event) → Option Event
lookup k [] = none
lookup k ((j, e) ∷ m) = if equal j k then some e else lookup k m

unfoldable pub without : Bytes → List (Bytes × Event) → List (Bytes × Event)
without k [] = []
without k ((j, e) ∷ m) = let rest = without k m in if equal j k then rest else (j, e) ∷ rest

-- `select { case ch <- *ev: default: }`: a full channel loses the event
unfoldable pub offer : ℕ → Event → List Event → List Event
offer buffer e queue = if ltb (length queue) buffer then queue ++ (e ∷ []) else queue

unfoldable pub deliver : ℕ → Event → Subscribers → Subscribers
unfolding offer
deliver buffer e [] = []
deliver buffer e ((id, queue) ∷ subs) = (id, offer buffer e queue) ∷ deliver buffer e subs

-- `publish`: the event gets its number, and goes to the log and to the subscribers
unfoldable pub publish : Event → Pipeline → Pipeline
unfolding deliver
publish e p =
    let e' : Event = record e { seq = length p.events } in
    record p { events = p.events ++ (e' ∷ []); subs = deliver p.sub_buffer e' p.subs }

-- the event of a denial; the action is there when `Submit` refuses it
abbrev pub rejection : ℕ → Option Action → Bytes → Bytes → Bytes → Bytes → Event
rejection at a agent_id action_type target reason = record {
  seq = 0;
  kind = rejected;
  leaf_index = 0;
  leaf_hash = [];
  action = a;
  signature = [];
  public_key = [];
  agent_id = agent_id;
  action_type = action_type;
  target = target;
  reason = reason;
  recorded_at = at;
}

unfoldable pub record_rejection : ℕ → Bytes → Bytes → Bytes → Bytes → Pipeline → Pipeline
unfolding publish
record_rejection at agent_id action_type target reason p =
    publish (rejection at none agent_id action_type target reason) p

unfoldable pub record_rejection_from_action : ℕ → Action → Bytes → Pipeline → Pipeline
unfolding publish
record_rejection_from_action at a reason p =
    publish (rejection at (some a) a.agent_id a.action_type a.target reason) p

unfoldable pub rejection_reason_for_validate : Action.Error → Bytes
rejection_reason_for_validate Action.Error.empty_field = text "invalid_action"
rejection_reason_for_validate Action.Error.nonce_shape = text "invalid_nonce"
rejection_reason_for_validate Action.Error.bad_schema_version = text "schema_version"
rejection_reason_for_validate _ = text "invalid_action"

-- An error of the checks, with the reason that is published, if one is.
pub record Refusal : Type 0 where
  pub error : Error
  pub published : Option Bytes

abbrev refuse {ℓ} : {A : Type ℓ} → Error → Bytes → Result Refusal A
refuse e reason = err (record { error = e; published = some reason })

-- the signature check, with the key that the store gave
unfoldable pub check_signature : Env → Action → Bytes → MemoryEntry → Result Refusal (Bytes × Bytes)
check_signature env a sig entry = elim (Action.verify env.encode env.crypto a sig entry.pub_key) [
  | err e ↦ refuse (invalid e) (text "invalid_signature")
  | ok _ ↦ elim (Action.canonical env.encode a) [
    | err e ↦ err (record { error = invalid e; published = none })
    | ok canon ↦ ok (canon, entry.pub_key)
  ]
]

unfoldable pub check_agent : Env → Action → Bytes → Result Refusal (Bytes × Bytes)
unfolding check_signature
check_agent env a sig = elim (env.store_get a.agent_id) [
  | err Keystore.Error.not_found ↦ refuse unknown_agent (text "unknown_agent")
  | err _ ↦ err (record { error = store_failed; published = none })
  | ok entry ↦ check_signature env a sig entry
]

-- `Submit` up to the lock: the canonical bytes and the public key, or why not
unfoldable pub check_action : Env → Action → Bytes → Result Refusal (Bytes × Bytes)
unfolding check_agent is_skewed rejection_reason_for_validate
check_action env a sig =
    if not (a.schema_version == current_schema)
    then refuse (invalid Action.Error.bad_schema_version) (text "schema_version")
    else elim (Action.validate a) [
      | err e ↦ refuse (invalid e) (rejection_reason_for_validate e)
      | ok _ ↦
          if is_skewed (env.now / 1_000_000) a.timestamp_ms
          then refuse timestamp_skew (text "timestamp_skew")
          else check_agent env a sig
    ]

-- the event of a new leaf, before it has its number
abbrev pub appended_event : Sha256 → ℕ → Action → Bytes → Bytes → Bytes → ℕ → Event
appended_event sha now a sig pub_key payload idx = record {
  seq = 0;
  kind = appended;
  leaf_index = idx;
  leaf_hash = hash_leaf ⦃sha = sha⦄ payload;
  action = some a;
  signature = sig;
  public_key = pub_key;
  agent_id = [];
  action_type = [];
  target = [];
  reason = [];
  recorded_at = now;
}

-- a call's answer: the event with whether it is fresh, or the error
abbrev pub Answer : Type 0
Answer = Result Error (Event × Bool) × Pipeline

-- `Submit` behind the call of `tree.Append`, whose result is the last argument
unfoldable pub record_leaf : Bytes → Event → Pipeline → Result Hash.Error ℕ × Tree → Answer
unfolding publish
record_leaf key e p (err x, t) = (err (append_failed x), record p { tree = t })
record_leaf key e p (ok idx, t) =
    let ev : Event = record e { seq = length p.events; leaf_index = idx } in
    (ok (ev, true), publish ev (record p { tree = t; seen = (key, ev) ∷ p.seen }))

unfoldable pub append_fresh : Sha256 → Env → Action → Bytes → Bytes × Bytes → Pipeline → Answer
unfolding record_leaf
append_fresh sha env a sig (canon, pub_key) p =
    record_leaf (replay_key a.agent_id a.nonce)
      (appended_event sha env.now a sig pub_key (canon ++ sig) 0) p
      (Tree.append ⦃sha = sha⦄ env.fate (canon ++ sig) p.tree)

-- `delete(p.seen, key)`
unfoldable pub forget : Bytes → Pipeline → Pipeline
forget key p = record p { seen = without key p.seen }

-- `Submit` under the lock: what it does with the entry of `seen`
unfoldable pub submit_locked :
    Sha256 → Env → Action → Bytes → Bytes × Bytes → Option Event → Pipeline → Answer
unfolding append_fresh is_expired
submit_locked sha env a sig found none p = append_fresh sha env a sig found p
submit_locked sha env a sig found (some e) p =
    if not (is_expired e.recorded_at env.now)
    then (ok (e, false), p)
    else append_fresh sha env a sig found (forget (replay_key a.agent_id a.nonce) p)

-- the error of a check, behind the event that tells of it
unfoldable pub refused : Env → Action → Refusal → Pipeline → Answer
unfolding record_rejection_from_action
refused env a r p = elim r.published [
  | none ↦ (err r.error, p)
  | some reason ↦ (err r.error, record_rejection_from_action env.rejected_at a reason p)
]

unfoldable pub submit_checked :
    Sha256 → Env → Action → Bytes → Result Refusal (Bytes × Bytes) → Pipeline → Answer
unfolding refused submit_locked
submit_checked sha env a sig (err r) p = refused env a r p
submit_checked sha env a sig (ok found) p =
    submit_locked sha env a sig found (lookup (replay_key a.agent_id a.nonce) p.seen) p

unfoldable pub submit : Sha256 → Env → Option Action → Bytes → Pipeline → Answer
unfolding submit_checked check_action
submit sha env none sig p = (err (invalid Action.Error.bad_schema_version), p)
submit sha env (some a) sig p = submit_checked sha env a sig (check_action env a sig) p

unfoldable pub subscribe : Pipeline → ℕ × Pipeline
subscribe p =
    (p.next_id, record p { next_id = suc p.next_id; subs = p.subs ++ ((p.next_id, []) ∷ []) })

unfoldable pub drop_subscriber : ℕ → Subscribers → Subscribers
drop_subscriber id [] = []
drop_subscriber id ((j, queue) ∷ subs) =
    let rest = drop_subscriber id subs in if j == id then rest else (j, queue) ∷ rest

-- the function that `Subscribe` returns; a second call finds no such subscriber
unfoldable pub cancel : ℕ → Pipeline → Pipeline
unfolding drop_subscriber
cancel id p = record p { subs = drop_subscriber id p.subs }

unfoldable pub is_appended : Kind → Bool
is_appended appended = true
is_appended rejected = false

unfoldable pub leaves_since : ℕ → List Event → List Event
unfolding is_appended
leaves_since since [] = []
leaves_since since (e ∷ es) =
    let rest = leaves_since since es in
    if not (is_appended e.kind) then rest else if ltb e.leaf_index since then rest else e ∷ rest

unfoldable pub events_since : ℕ → Pipeline → List Event
unfolding leaves_since
events_since since p = leaves_since since p.events

unfoldable pub all_events_since : ℕ → Pipeline → List Event
all_events_since since p = if leb (length p.events) since then [] else drop since p.events

unfoldable pub size : Pipeline → ℕ
size p = Tree.size p.tree

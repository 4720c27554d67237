-- ===== src/Examples/Logs.antt =====
-- The audit log's and the anchors' theorems at a pipeline with one agent.
use crypto_agent.Prelude.Hex.{hex_digit}
use crypto_agent.Anchor.{fake_commit}
use crypto_agent.Merkle.Hash.{copy_hash}
use crypto_agent.Anchor.{commit}
use crypto_agent.Auditlog.{lookup}
use crypto_agent.Prelude.{
  true, false, none, some, [], ◌∷◌, ◌++◌, map, Bytes, text, drop, ok, ◌≡◌, refl, arith, ◌⊎◌, ◌↔◌,
  get_elem?, replicate, ◌≤◌, ◌^◌, ◌+◌, get_elem?, equal,
}
use crypto_agent.Examples.{toy_sha, toy_keys}
use crypto_agent.Action.{Action}
use crypto_agent.Action.Validity.{IsValid, validate-ok_iff}
use crypto_agent.Action
use crypto_agent.Merkle.Hash.{mth}
use crypto_agent.Merkle.Tree
use crypto_agent.Merkle.Tree.{Tree, durable}
use crypto_agent.Merkle.Verifier.{VerificationReport, verify_historical_root}
use crypto_agent.Auditlog.{Event, Pipeline, Env, submit, events_since, is_skewed, appended_event}
use crypto_agent.Auditlog.Skew.{is_skewed_iff}
use crypto_agent.Auditlog.Coherence
use crypto_agent.Auditlog.Coherence.{events_since-leaves, all_events_since-seq}
use crypto_agent.Auditlog
use crypto_agent.Auditlog.Replay.{IsAuthentic}
use crypto_agent.Auditlog.Window.{During, submit-replay}
use crypto_agent.Anchor.{Anchor, new_fake}
use crypto_agent.Anchor.Progress.{IsAnchored, pass-IsAnchored}
use crypto_agent.Anchor.Trail
use crypto_agent.Anchor.Trail.{System, pass, anchors-verified}

abbrev pub agent_key : Bytes
agent_key = replicate 32 9

abbrev pub greeting : Action
greeting = record {
  schema_version = 1;
  agent_id = text "a";
  action_type = text "say";
  target = text "t";
  timestamp_ms = 100_000;
  nonce = replicate 32 48;
}

abbrev pub at_noon : Env
at_noon = record {
  now = 100_000_000_000;
  rejected_at = 100_000_000_000;
  store_get = λ id. ok (record { pub_key = agent_key; priv = agent_key });
  fate = durable;
  crypto = toy_keys;
  encode = λ a. a.target;
}

abbrev pub signature : Bytes
signature = agent_key ++ text "t"

abbrev pub start : Pipeline
start = record { tree = Tree.new; sub_buffer = 16; seen = []; events = []; subs = []; next_id = 0 }

abbrev pub after : Pipeline
after = (submit toy_sha at_noon (some greeting) signature start).1

abbrev pub greeting_event : Event
greeting_event =
    appended_event toy_sha 100_000_000_000 greeting signature agent_key (text "t" ++ signature) 0

greeted : (submit toy_sha at_noon (some greeting) signature start).0 ≡ ok (greeting_event, true)
unfolding submit Action.validate Action.verify equal lookup Tree.append
greeted = refl

is_valid : Action.validate greeting ≡ ok tt
unfolding Action.validate
is_valid = refl

in_time : is_skewed 100_000 100_000 ≡ false
unfolding is_skewed
in_time = refl

verifies : equal (agent_key ++ text "t") signature ≡ true
unfolding equal
verifies = refl

greeting_again : IsAuthentic at_noon greeting signature
greeting_again = record {
  valid = is_valid;
  timely = in_time;
  entry = record { pub_key = agent_key; priv = agent_key };
  key_size = refl;
  registered = refl;
  signed = verifies;
}

-- between the two a rejection, a new action, and a subscription that is given up
abbrev another : Action
another = record greeting { nonce = replicate 32 49 }

abbrev busy : Pipeline
busy =
    Auditlog.cancel 0
      (Auditlog.subscribe
        (submit toy_sha at_noon (some another) signature (
          Auditlog.record_rejection 0 (text "a") (text "say") (text "t") (text "expired")
            after)).1).1

between : During toy_sha 100_000_000_001 after busy
between =
    During.cancels
      (During.subscribes (
        During.submits
          (During.records (During.done after) 0 (text "a") (text "say") (text "t") (text "expired"))
          at_noon (some another) signature (omega arith)))
      0

-- another action with the nonce of the first
abbrev asking : Action
asking = record greeting { action_type = text "ask" }

asked : IsAuthentic at_noon asking signature
unfolding Action.validate is_skewed Action.verify equal
asked = record {
  valid = refl;
  timely = refl;
  entry = record { pub_key = agent_key; priv = agent_key };
  key_size = refl;
  registered = refl;
  signed = refl;
}

submit-replay_example :
    submit toy_sha at_noon (some asking) signature busy ≡ (ok (greeting_event, false), busy)
submit-replay_example =
    submit-replay toy_sha at_noon at_noon 100_000_000_001 greeting asking signature signature start
      busy greeting_event greeted (omega arith) between asked refl refl (omega arith)

abbrev submitted : Coherence.Reachable toy_sha Tree.new 16 after
submitted =
    Coherence.Reachable.next Coherence.Reachable.fresh
      (Coherence.Step.submits at_noon (some greeting) signature start)

events_since-leaves_example :
    map (λ e. e.leaf_hash) (events_since 0 after) ≡ drop 0 after.tree.leaves
events_since-leaves_example =
    events_since-leaves toy_sha Tree.new 16 after 0 submitted (omega arith)

is_skewed_iff_example :
    is_skewed 100_000 130_000 ≡ false
    ↔ ((130_000 ≤ 100_000 + 30_000 × 100_000 ≤ 130_000 + 30_000) ⊎ 130_000 ≡ 100_000 + 2 ^ 63)
is_skewed_iff_example = is_skewed_iff 100_000 130_000 (omega arith) (omega arith) (omega arith)

validate-ok_iff_example : (Action.validate greeting ≡ ok tt) ↔ IsValid greeting
validate-ok_iff_example = validate-ok_iff greeting

abbrev quiet : System
quiet = record {
  tree = record { leaves = agent_key ∷ []; file = none; is_closed = false };
  committer = record { store = record { latest = none }; last_committed = 0 };
  chain = new_fake;
}

abbrev passed : System
passed = (pass ⦃sha = toy_sha⦄ 7 quiet).1

abbrev first_anchor : Anchor
first_anchor = record {
  id = 0;
  tree_size = 1;
  root = agent_key;
  timestamp = 7;
  block_number = 0;
  tx_hash = text "0xfake0000000000000000";
}

anchored_first : get_elem? passed.chain.anchors 0 ≡ some first_anchor
unfolding pass commit Tree.snapshot mth copy_hash fake_commit hex_digit
anchored_first = refl

anchors-verified_example :
    (first_anchor.id ≡ 0)
    × ((r : VerificationReport) × (verify_historical_root ⦃sha = toy_sha⦄ first_anchor.root
            first_anchor.tree_size passed.tree
          ≡ some (r, none))
        × (r.is_ok ≡ true))
anchors-verified_example =
    anchors-verified ⦃sha = toy_sha⦄ quiet.tree passed 0 first_anchor
      (Trail.Reachable.next Trail.Reachable.fresh (Trail.Step.passes 7 quiet)) anchored_first

pass-IsAnchored_example :
    IsAnchored
      (Tree.size quiet.tree)
      (Tree.root ⦃sha = toy_sha⦄ quiet.tree)
      ((pass ⦃sha = toy_sha⦄ 7 quiet).0, passed.committer, passed.chain)
unfolding Tree.size
pass-IsAnchored_example =
    pass-IsAnchored ⦃sha = toy_sha⦄ quiet.tree quiet 7 Trail.Reachable.fresh (omega arith) refl

-- ===== src/Examples/Runs.antt =====
-- The theorems on runs of the audit log and of its event stream at one submission.
use crypto_agent.Auditlog.{replay_key}
use crypto_agent.Prelude.{ℕ, true, some, [], ◌∷◌, drop, length, ◌≡◌, refl, arith}
use crypto_agent.Examples.{toy_sha}
use crypto_agent.Examples.Logs.{greeting, at_noon, signature, start, after, greeting_event}
use crypto_agent.Merkle.Tree
use crypto_agent.Auditlog.{Pipeline, Event, submit, all_events_since}
use crypto_agent.Auditlog.{lookup, subscribe}
use crypto_agent.Http.Events.{take_event, on_event}
use crypto_agent.Action
use crypto_agent.Prelude.{equal, ap, some-inj}
use crypto_agent.Auditlog.Coherence
use crypto_agent.Auditlog.Guard.{LeafAt, IsClock}
use crypto_agent.Auditlog.Once
use crypto_agent.Auditlog.Once.{one_leaf}
use crypto_agent.Http.Events.{Connection, connect, replay, receive}
use crypto_agent.Http.Events.Channel.{queue_of}
use crypto_agent.Http.Events.Steps.{HasRoom}
use crypto_agent.Http.Events.CaughtUp
use crypto_agent.Http.Events.CaughtUp.{Stream-sent}

noon : IsClock 100_000_000_000
unfolding IsClock
noon = (omega arith, omega arith)

abbrev again : Pipeline
again = (submit toy_sha at_noon (some greeting) signature after).1

abbrev submitted_twice : Once.Run toy_sha Tree.new 16 100_000_000_000 again
submitted_twice =
    Once.Run.submits
      (Once.Run.submits Once.Run.begin at_noon (some greeting) signature (omega arith) noon) at_noon
      (some greeting) signature (omega arith) noon

leaf_at : LeafAt again.events 0 greeting_event greeting
unfolding submit Action.validate Action.verify equal lookup Tree.append replay_key
leaf_at = record { placed = refl; is_leaf = refl; tells = refl }

one_leaf_example : ◌≡◌ {A = ℕ} 0 0
one_leaf_example =
    one_leaf toy_sha Tree.new 16 100_000_000_000 again 0 0 greeting_event greeting_event greeting
      submitted_twice (omega arith) leaf_at leaf_at

-- a client connects, the agent submits, the backlog is sent, and the channel's copy is passed over
abbrev connected : Connection × Pipeline
connected = connect 0 start

abbrev published : Pipeline
published = (submit toy_sha at_noon (some greeting) signature connected.1).1

abbrev caught_up : Connection
caught_up = record { subscriber = 0; since = 0; sent = greeting_event ∷ []; last_sent = some 0 }

abbrev drained : Pipeline
drained = record published { subs = (0, []) ∷ [] }

room : HasRoom connected.1 connected.0.subscriber
unfolding HasRoom queue_of connect subscribe
room queue h = omega (arith, ap (length {A = Event}) (some-inj h))

backlog : replay published connected.0 ≡ caught_up
unfolding replay all_events_since submit Action.validate Action.verify equal lookup connect
    subscribe Tree.append
backlog = refl

received : receive published (replay published connected.0) ≡ some (caught_up, drained)
unfolding receive take_event on_event connect subscribe submit Action.validate Action.verify equal
    lookup Tree.append replay all_events_since
received = refl

streamed : CaughtUp.Stream toy_sha Tree.new 16 true drained caught_up
streamed =
    CaughtUp.Stream.receives
      (CaughtUp.Stream.replays (
        CaughtUp.Stream.submits (CaughtUp.Stream.connects Coherence.Reachable.fresh 0 (omega arith))
          at_noon (some greeting) signature room))
      received

emptied : queue_of 0 drained.subs ≡ some []
unfolding queue_of
emptied = refl

Stream-sent_example : caught_up.sent ≡ drop 0 drained.events
Stream-sent_example = Stream-sent toy_sha Tree.new 16 drained caught_up streamed emptied

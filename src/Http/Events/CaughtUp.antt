-- ===== src/Http/Events/CaughtUp.antt =====
-- A stream (auditlog/http/handler.go) among the other calls of the pipeline: what the client was sent,
-- as long as its channel never overflows.
use crypto_agent.Prelude.{
  ℕ, ◌≤◌, Bool, true, false, Option, some, [], Bytes, length, drop, ◌≡◌, ◌≢◌, sym, ap, ◌∙◌, arith,
  length-drop, some-inj,
}
use crypto_agent.Action.{Action}
use crypto_agent.Merkle.Hash.{Sha256}
use crypto_agent.Merkle.Tree.{Tree}
use crypto_agent.Auditlog.{Pipeline, Env, submit, record_rejection, subscribe, cancel}
use crypto_agent.Auditlog.Coherence
use crypto_agent.Auditlog.Coherence.{Reachable-seq, all_events_since-drop}
use crypto_agent.Http.Events.{Connection, connect, replay, receive}
use crypto_agent.Http.Events.Channel.{queue_of, queue_of_new}
use crypto_agent.Http.Events.Publishing.{
  submit-Published, record_rejection-Published, Reachable-Below,
}
use crypto_agent.Http.Events.Steps.{
  HasRoom, IsInStep, IsNumbered, Published-IsInStep, connect-IsInStep, replay-IsInStep,
}
use crypto_agent.Http.Events.Receiving.{
  receive-IsInStep, subscribe-IsInStep, cancel-IsInStep, all_sent,
}

-- A connection among the calls of other clients, in any order; the flag tells whether the backlog was
-- sent. A call that may publish finds room in the channel.
pub data Stream (sha : Sha256) (tree : Tree) (sub_buffer : ℕ)
    : Bool → Pipeline → Connection → Type 0 where
  connects :
      {p : Pipeline}
      → Coherence.Reachable sha tree sub_buffer p
      → (since : ℕ) → since ≤ length p.events
      → Stream sha tree sub_buffer false (connect since p).1 (connect since p).0
  submits :
      {b : Bool} {p : Pipeline} {c : Connection}
      → Stream sha tree sub_buffer b p c
      → (env : Env) (a : Option Action) (sig : Bytes) → HasRoom p c.subscriber
      → Stream sha tree sub_buffer b (submit sha env a sig p).1 c
  records :
      {b : Bool} {p : Pipeline} {c : Connection}
      → Stream sha tree sub_buffer b p c
      → (at : ℕ) (agent_id action_type target reason : Bytes) → HasRoom p c.subscriber
      → Stream sha tree sub_buffer b (record_rejection at agent_id action_type target reason p) c
  subscribes :
      {b : Bool} {p : Pipeline} {c : Connection}
      → Stream sha tree sub_buffer b p c
      → Stream sha tree sub_buffer b (subscribe p).1 c
  cancels :
      {b : Bool} {p : Pipeline} {c : Connection}
      → Stream sha tree sub_buffer b p c
      → (id : ℕ) → id ≢ c.subscriber
      → Stream sha tree sub_buffer b (cancel id p) c
  replays :
      {p : Pipeline} {c : Connection}
      → Stream sha tree sub_buffer false p c
      → Stream sha tree sub_buffer true p (replay p c)
  receives :
      {p q : Pipeline} {c d : Connection}
      → Stream sha tree sub_buffer true p c
      → receive p c ≡ some (d, q)
      → Stream sha tree sub_buffer true q d

module _ (sha : Sha256) (tree : Tree) (sub_buffer : ℕ) where
  Stream-IsInStep :
      (b : Bool) (p : Pipeline) (c : Connection) → Stream sha tree sub_buffer b p c → IsInStep b p c
  unfolding IsNumbered
  Stream-IsInStep _ _ _ (connects {p} r since le) =
      connect-IsInStep since p le (Reachable-seq sha tree sub_buffer p r)
        (queue_of_new p.next_id p.subs (Reachable-Below sha tree sub_buffer p r))
  Stream-IsInStep _ _ _ (submits {b} {p} {c} s env a sig room) =
      Published-IsInStep b p (submit sha env a sig p).1 c room (submit-Published sha env a sig p)
        (Stream-IsInStep b p c s)
  Stream-IsInStep _ _ _ (records {b} {p} {c} s at agent_id action_type target reason room) =
      Published-IsInStep b p (record_rejection at agent_id action_type target reason p) c room
        (record_rejection-Published at agent_id action_type target reason p)
        (Stream-IsInStep b p c s)
  Stream-IsInStep _ _ _ (subscribes {b} {p} {c} s) =
      subscribe-IsInStep b p c (Stream-IsInStep b p c s)
  Stream-IsInStep _ _ _ (cancels {b} {p} {c} s id other) =
      cancel-IsInStep b id p c other (Stream-IsInStep b p c s)
  Stream-IsInStep _ _ _ (replays {p} {c} s) = replay-IsInStep p c (Stream-IsInStep false p c s)
  Stream-IsInStep _ _ _ (receives {p} {q} {c} {d} s got) =
      receive-IsInStep p q c d got (Stream-IsInStep true p c s)

  caught_up :
      (p : Pipeline) (c : Connection)
      → IsInStep true p c
      → queue_of c.subscriber p.subs ≡ some []
      → c.sent ≡ drop c.since p.events
  caught_up p c h empty =
      let gone : drop h.from p.events ≡ [] = some-inj (sym h.queued ∙ empty) in
      let size = ap length gone in
      all_sent p c h.from h.progress (omega (arith, size, length-drop h.from p.events))

  -- A client that asks from a number up to the length of the log, whose backlog was sent and whose
  -- channel has never overflowed, was sent exactly the events from that number on, each once and in
  -- order, whenever its channel is empty: nothing is lost or doubled between the backlog and the channel.
  pub Stream-sent :
      (p : Pipeline) (c : Connection)
      → Stream sha tree sub_buffer true p c
      → queue_of c.subscriber p.subs ≡ some []
      → c.sent ≡ drop c.since p.events
  Stream-sent p c s empty = caught_up p c (Stream-IsInStep true p c s) empty

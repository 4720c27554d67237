-- ===== src/Http/Events/Receiving.antt =====
-- What an event from the channel, and the calls of other clients, leave of a connection
-- (auditlog/http/handler.go).
use crypto_agent.Prelude.{
  ℕ, suc, ◌-◌, ◌≤◌, Bool, true, some, List, [], ◌∷◌, length, drop, leb, ◌≡◌, ◌≢◌, refl, sym, ap,
  ◌∙◌, arith, Bool-cases, inl, inr, get_elem?, get_elem?-some, drop_past, take-length, some-inj,
}
use mathlib.Core.Path.{subst}
use native.Mathlib.Decide.{dec_lt}
use crypto_agent.Auditlog.{Event, Pipeline, Subscribers, subscribe, cancel}
use crypto_agent.Http.Events.{Connection, receive, send, on_event}
use crypto_agent.Http.Events.Channel.{
  queue_of, take_event-queue_of, take_event-empty, queue_of-append, queue_of-drop_subscriber,
}
use crypto_agent.Http.Events.Steps.{
  Progress, going, IsNumbered, IsInStep, drop-take-suc, drop-uncons,
}

-- a round of the loop, with the event `e` that is at the head of the channel
on_event-Progress :
    (events : List Event) (from : ℕ) (e : Event) (c : Connection)
    → IsNumbered events
    → get_elem? events from ≡ some e
    → c.since ≤ from
    → Progress events from c true
    → Progress events (suc from) (on_event e c) true
unfolding on_event send IsNumbered
on_event-Progress events from e c num at low (going upto ge le s (inl (first, l))) =
    let here : upto ≡ from = omega arith in
    let size = get_elem?-some events from e at in
    rw l (
      going (suc from) (omega arith) (omega arith)
        (rw (s, here) (sym (drop-take-suc c.since from events e at low)))
        (inr (omega arith, ap some (num from e at ∙ omega arith))))
on_event-Progress events from e c num at low (going upto ge le s (inr (pos, l))) =
    let size = get_elem?-some events from e at in
    let its : e.seq ≡ from = num from e at in
    elim (Bool-cases (leb e.seq (upto - 1))) [
      | inl old ↦ rw (l, old) (going upto (ground (arith, old, its)) le s (inr (pos, refl)))
      | inr young ↦
          let here : upto ≡ from = ground (arith, young, its) in
          rw (l, young)
            (going (suc from) (omega arith) (omega arith)
              (rw (s, here) (sym (drop-take-suc c.since from events e at low)))
              (inr (omega arith, ap some (its ∙ omega arith))))
    ]

on_event-since :
    (e : Event) (c : Connection)
    → ((on_event e c).since ≡ c.since) × ((on_event e c).subscriber ≡ c.subscriber)
unfolding on_event send
on_event-since e c = ground arith

received-IsInStep :
    (p : Pipeline) (c : Connection) (h : IsInStep true p c) (e : Event) (rest : Subscribers)
    → get_elem? p.events h.from ≡ some e
    → queue_of c.subscriber rest ≡ some (drop (suc h.from) p.events)
    → IsInStep true (record p { subs = rest }) (on_event e c)
received-IsInStep p c h e rest at left =
    let (same_since, same_id) = on_event-since e c in
    let size = get_elem?-some p.events h.from e at in
    record {
      from = suc h.from;
      queued = rw same_id left;
      after = rw same_since (omega (arith, h.after));
      inside = omega arith;
      numbered = h.numbered;
      progress = on_event-Progress p.events h.from e c h.numbered at h.after h.progress;
    }

pub receive-IsInStep :
    (p q : Pipeline) (c d : Connection)
    → receive p c ≡ some (d, q)
    → IsInStep true p c
    → IsInStep true q d
unfolding receive
receive-IsInStep p q c d got h = elim (dec_lt h.from (length p.events)) [
  | no end ↦
      let empty : drop h.from p.events ≡ [] = drop_past h.from p.events (omega arith) in
      let none_there = take_event-empty c.subscriber p.subs (h.queued ∙ ap some empty) in
      absurd (cc (rw (none_there, receive) at got))
  | yes more ↦
      let (e, at, split) = drop-uncons h.from p.events more in
      let (rest, taken, left) =
        take_event-queue_of c.subscriber p.subs e (drop (suc h.from) p.events)
          (h.queued ∙ ap some split) in
      let both : (on_event e c, record p { subs = rest }) ≡ (d, q) =
        some-inj (rw (taken, receive) at got) in
      subst (λ (r : Connection × Pipeline). IsInStep true r.1 r.0) both
        (received-IsInStep p c h e rest at left)
]

pub subscribe-IsInStep :
    (b : Bool) (p : Pipeline) (c : Connection) → IsInStep b p c → IsInStep b (subscribe p).1 c
unfolding subscribe
subscribe-IsInStep b p c h = record {
  from = h.from;
  queued =
      queue_of-append c.subscriber p.subs ((p.next_id, []) ∷ []) (drop h.from p.events) h.queued;
  after = h.after;
  inside = h.inside;
  numbered = h.numbered;
  progress = h.progress;
}

pub cancel-IsInStep :
    (b : Bool) (id : ℕ) (p : Pipeline) (c : Connection)
    → id ≢ c.subscriber
    → IsInStep b p c
    → IsInStep b (cancel id p) c
unfolding cancel
cancel-IsInStep b id p c other h = record {
  from = h.from;
  queued = queue_of-drop_subscriber c.subscriber id p.subs other ∙ h.queued;
  after = h.after;
  inside = h.inside;
  numbered = h.numbered;
  progress = h.progress;
}

pub all_sent :
    (p : Pipeline) (c : Connection) (from : ℕ)
    → Progress p.events from c true
    → length p.events ≤ from
    → c.sent ≡ drop c.since p.events
all_sent p c from (going upto ge le s l) end =
    s ∙ ap (drop c.since) (take-length upto p.events (omega arith))

-- ===== src/Http/Events/Steps.antt =====
-- What each call leaves of a stream (auditlog/http/handler.go): how far the client has got, and what
-- its channel holds.
use crypto_agent.Prelude.{
  ℕ, zero, suc, ◌+◌, ◌-◌, ◌≤◌, ◌<◌, Bool, true, false, none, some, List, [], ◌∷◌, ◌++◌, length,
  take, drop, ◌≡◌, refl, sym, ap, ◌∙◌, arith, ◌⊎◌, inl, inr, get_elem?, get_elem?-drop,
  get_elem?-snoc, drop-append, drop_past, length-append, length-drop, take-append, take-length,
  some-inj,
}
use mathlib.Core.List.{append_assoc, append-nil}
use crypto_agent.Auditlog.{Event, Pipeline, subscribe}
use crypto_agent.Auditlog.Coherence.{all_events_since-drop}
use crypto_agent.Http.Events.{Connection, connect, replay, send, send_all}
use crypto_agent.Http.Events.Channel.{queue_of, queue_of-deliver}
use crypto_agent.Http.Events.Publishing.{Published, silent, one}

-- There is room for one more event in the channel of the subscriber.
unfoldable pub HasRoom : Pipeline → ℕ → Type 0
HasRoom p id = (queue : List Event) → queue_of id p.subs ≡ some queue → length queue < p.sub_buffer

-- How far a connection is: nothing was sent yet, or the events from `since` to before `upto`.
pub data Progress (events : List Event) (from : ℕ) (c : Connection) : Bool → Type 0 where
  waiting : c.sent ≡ [] → c.last_sent ≡ none → Progress events from c false
  going :
      (upto : ℕ)
      → from ≤ upto
      → upto ≤ length events
      → c.sent ≡ drop c.since (take upto events)
      → ((upto ≡ c.since) × (c.last_sent ≡ none)) ⊎ ((0 < upto) × (c.last_sent ≡ some (upto - 1)))
      → Progress events from c true

unfoldable pub IsNumbered : List Event → Type 0
IsNumbered events = (i : ℕ) (e : Event) → get_elem? events i ≡ some e → e.seq ≡ i

-- The channel holds the events from `from` on.
pub record IsInStep (b : Bool) (p : Pipeline) (c : Connection) : Type 0 where
  pub from : ℕ
  pub queued : queue_of c.subscriber p.subs ≡ some (drop from p.events)
  pub after : c.since ≤ from
  pub inside : from ≤ length p.events
  pub numbered : IsNumbered p.events
  pub progress : Progress p.events from c b

-- one event more
pub drop-take-suc :
    (k m : ℕ) (es : List Event) (e : Event)
    → get_elem? es m ≡ some e
    → k ≤ m
    → drop k (take (suc m) es) ≡ drop k (take m es) ++ (e ∷ [])
drop-take-suc k m [] e h le = absurd (cc h)
drop-take-suc zero zero (x ∷ es) e h le = ap (λ y. y ∷ []) (some-inj h)
drop-take-suc zero (suc m) (x ∷ es) e h le =
    ap (λ t. x ∷ t) (drop-take-suc zero m es e h (omega arith))
drop-take-suc (suc k) zero (x ∷ es) e h le = absurd (omega arith)
drop-take-suc (suc k) (suc m) (x ∷ es) e h le = drop-take-suc k m es e h (omega arith)

pub drop-uncons :
    (k : ℕ) (es : List Event)
    → k < length es
    → (e : Event) × (get_elem? es k ≡ some e) × (drop k es ≡ e ∷ drop (suc k) es)
drop-uncons k [] h = absurd (omega arith)
drop-uncons zero (x ∷ es) h = (x, refl, refl)
drop-uncons (suc k) (x ∷ es) h = drop-uncons k es (omega arith)

send_all-sent : (es : List Event) (c : Connection) → (send_all es c).sent ≡ c.sent ++ es
unfolding send_all send
send_all-sent [] c = sym (append-nil c.sent)
send_all-sent (e ∷ es) c = send_all-sent es (send e c) ∙ append_assoc c.sent (e ∷ []) es

send_all-since :
    (es : List Event) (c : Connection)
    → ((send_all es c).since ≡ c.since) × ((send_all es c).subscriber ≡ c.subscriber)
unfolding send_all send
send_all-since [] c = (refl, refl)
send_all-since (e ∷ es) c = send_all-since es (send e c)

send_all-last_sent :
    (e : Event) (es : List Event) (c : Connection) (n : ℕ)
    → ((i : ℕ) (x : Event) → get_elem? (e ∷ es) i ≡ some x → x.seq ≡ n + i)
    → (send_all (e ∷ es) c).last_sent ≡ some (n + length es)
unfolding send_all send
send_all-last_sent e [] c n h = ap some (h 0 e refl)
send_all-last_sent e (f ∷ es) c n h =
    send_all-last_sent f es (send e c) (suc n) (λ i x g. h (suc i) x g ∙ omega arith)
    ∙ ap some (omega arith)

Progress-append :
    (events more : List Event) (from : ℕ) (c : Connection) (b : Bool)
    → Progress events from c b
    → Progress (events ++ more) from c b
Progress-append events more from c _ (waiting a l) = waiting a l
Progress-append events more from c _ (going upto ge le s l) =
    going upto ge (omega (arith, length-append events more))
      (s ∙ ap (drop c.since) (sym (take-append upto events more le))) l

IsNumbered-snoc :
    (events : List Event) (e : Event)
    → e.seq ≡ length events
    → IsNumbered events
    → IsNumbered (events ++ (e ∷ []))
unfolding IsNumbered
IsNumbered-snoc events e at h i x g = elim (get_elem?-snoc events e x i g) [
  | inl q ↦ h i x q
  | inr (last, q) ↦ ap (λ y. y.seq) (sym q) ∙ at ∙ sym last
]

pub Published-IsInStep :
    (b : Bool) (p q : Pipeline) (c : Connection)
    → HasRoom p c.subscriber
    → Published p q
    → IsInStep b p c
    → IsInStep b q c
unfolding HasRoom
Published-IsInStep b p q c room (silent es ss n) h = record {
  from = h.from;
  queued = rw (ss, es) h.queued;
  after = h.after;
  inside = rw es h.inside;
  numbered = rw es h.numbered;
  progress = rw es h.progress;
}
Published-IsInStep b p q c room (one e es at ss n) h = record {
  from = h.from;
  queued =
      rw (ss, es, drop-append h.from p.events (e ∷ []) h.inside)
        (queue_of-deliver c.subscriber p.sub_buffer e p.subs (drop h.from p.events) h.queued
          (room (drop h.from p.events) h.queued));
  after = h.after;
  inside = rw es (omega (arith, length-append p.events (e ∷ []), h.inside));
  numbered = rw es (IsNumbered-snoc p.events e at h.numbered);
  progress = rw es (Progress-append p.events (e ∷ []) h.from c b h.progress);
}

pub connect-IsInStep :
    (since : ℕ) (p : Pipeline)
    → since ≤ length p.events
    → IsNumbered p.events
    → queue_of p.next_id (p.subs ++ ((p.next_id, []) ∷ [])) ≡ some []
    → IsInStep false (connect since p).1 (connect since p).0
unfolding connect subscribe
connect-IsInStep since p le num q = record {
  from = length p.events;
  queued = q ∙ ap some (sym (drop_past (length p.events) p.events (omega arith)));
  after = le;
  inside = omega arith;
  numbered = num;
  progress = waiting refl refl;
}

-- the backlog
replay-sent :
    (p : Pipeline) (c : Connection) (es : List Event)
    → drop c.since p.events ≡ es
    → c.sent ≡ []
    → (send_all es c).sent ≡ drop (send_all es c).since (take (length p.events) p.events)
replay-sent p c es all s =
    send_all-sent es c
    ∙ ap (λ t. t ++ es) s
    ∙ sym all
    ∙ rw ((send_all-since es c).0, take-length (length p.events) p.events (omega arith)) refl

replay-Progress :
    (p : Pipeline) (c : Connection) (from : ℕ) (es : List Event)
    → drop c.since p.events ≡ es
    → c.since ≤ from
    → from ≤ length p.events
    → IsNumbered p.events
    → Progress p.events from c false
    → Progress p.events from (send_all es c) true
unfolding IsNumbered
replay-Progress p c from [] all low high num (waiting s l) =
    let size : c.since ≡ length p.events =
      omega (arith, ap length all, length-drop c.since p.events) in
    going (length p.events) high (omega arith) (replay-sent p c [] all s)
      (inl (sym size ∙ sym (send_all-since [] c).0, unfold send_all in l))
replay-Progress p c from (e ∷ es) all low high num (waiting s l) =
    let size = ap length all in
    going (length p.events) high (omega arith) (replay-sent p c (e ∷ es) all s) (
      inr (
        omega (arith, size, length-drop c.since p.events),
        send_all-last_sent e es c c.since (λ i x g. num (c.since + i) x (
              sym (get_elem?-drop c.since (c.since + i) i p.events refl)
              ∙ ap (λ t. get_elem? t i) all
              ∙ g))
            ∙ ap some (omega (arith, size, length-drop c.since p.events)),
      ))

pub replay-IsInStep :
    (p : Pipeline) (c : Connection) → IsInStep false p c → IsInStep true p (replay p c)
unfolding replay
replay-IsInStep p c h =
    let es = drop c.since p.events in
    let (same_since, same_id) = send_all-since es c in
    rw (all_events_since-drop c.since p) (record {
      from = h.from;
      queued = rw same_id h.queued;
      after = rw same_since h.after;
      inside = h.inside;
      numbered = h.numbered;
      progress = replay-Progress p c h.from es refl h.after h.inside h.numbered h.progress;
    })

-- ===== src/Http/Events/Channel.antt =====
-- What a channel holds between the calls (pipeline.go and auditlog/http/handler.go).
use crypto_agent.Prelude.{
  ℕ, ◌<◌, true, Option, none, some, List, [], ◌∷◌, ◌++◌, length, ltb, ◌==◌, if◌then◌else◌, ◌≡◌, ◌≢◌,
  refl, arith, Bool-cases, inl, inr, All,
}
use crypto_agent.Auditlog.{Event, Subscribers, offer, deliver, drop_subscriber}
use crypto_agent.Http.Events.{take_event}

-- The events in the channel of a subscriber, if there is one.
unfoldable pub queue_of : ℕ → Subscribers → Option (List Event)
queue_of id [] = none
queue_of id ((j, queue) ∷ subs) = if j == id then some queue else queue_of id subs

pub take_event-queue_of :
    (id : ℕ) (subs : Subscribers) (e : Event) (queue : List Event)
    → queue_of id subs ≡ some (e ∷ queue)
    → (rest : Subscribers) × (take_event id subs ≡ some (e, rest)) × (queue_of id rest ≡ some queue)
unfolding queue_of take_event
take_event-queue_of id [] e queue h = absurd (cc h)
take_event-queue_of id ((j, q) ∷ subs) e queue h = elim (Bool-cases (j == id)) [
  | inl same ↦
      let full : q ≡ e ∷ queue = ground (arith, same, h) in
      ((j, queue) ∷ subs, rw (same, full) refl, rw same refl)
  | inr other ↦
      let (rest, taken, left) = take_event-queue_of id subs e queue (ground (arith, other, h)) in
      ((j, q) ∷ rest, rw (other, taken) refl, rw other left)
]

pub take_event-empty :
    (id : ℕ) (subs : Subscribers) → queue_of id subs ≡ some [] → take_event id subs ≡ none
unfolding queue_of take_event
take_event-empty id [] h = refl
take_event-empty id ((j, q) ∷ subs) h = elim (Bool-cases (j == id)) [
  | inl same ↦ let gone : q ≡ [] = ground (arith, same, h) in rw (same, gone) refl
  | inr other ↦ rw (other, take_event-empty id subs (ground (arith, other, h))) refl
]

pub queue_of-deliver :
    (id buffer : ℕ) (e : Event) (subs : Subscribers) (queue : List Event)
    → queue_of id subs ≡ some queue
    → length queue < buffer
    → queue_of id (deliver buffer e subs) ≡ some (queue ++ (e ∷ []))
unfolding queue_of deliver offer
queue_of-deliver id buffer e [] queue h room = absurd (cc h)
queue_of-deliver id buffer e ((j, q) ∷ subs) queue h room = elim (Bool-cases (j == id)) [
  | inl same ↦
      let whole : q ≡ queue = ground (arith, same, h) in
      let fits : ltb (length queue) buffer ≡ true = ground arith in rw (same, whole, fits) refl
  | inr other ↦ rw other (queue_of-deliver id buffer e subs queue (ground (arith, other, h)) room)
]

pub queue_of-append :
    (id : ℕ) (subs more : Subscribers) (queue : List Event)
    → queue_of id subs ≡ some queue
    → queue_of id (subs ++ more) ≡ some queue
unfolding queue_of
queue_of-append id [] more queue h = absurd (cc h)
queue_of-append id ((j, q) ∷ subs) more queue h = ground (arith, queue_of-append id subs more queue)

pub queue_of-drop_subscriber :
    (id other : ℕ) (subs : Subscribers)
    → other ≢ id
    → queue_of id (drop_subscriber other subs) ≡ queue_of id subs
unfolding queue_of drop_subscriber
queue_of-drop_subscriber id other [] ne = refl
queue_of-drop_subscriber id other ((j, q) ∷ subs) ne =
    ground (arith, queue_of-drop_subscriber id other subs ne)

-- every subscriber has got an earlier id
unfoldable pub Below : ℕ → Subscribers → Type 0
Below n subs = All (λ (s : ℕ × List Event). s.0 < n) subs

pub queue_of_new :
    (n : ℕ) (subs : Subscribers) → Below n subs → queue_of n (subs ++ ((n, []) ∷ [])) ≡ some []
unfolding queue_of Below
queue_of_new n [] h = ground arith
queue_of_new n ((j, q) ∷ subs) h = ground (arith, queue_of_new n subs h.1)

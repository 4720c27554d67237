-- ===== src/Http/Events.antt =====
-- The event stream of go-key-service/internal/auditlog/http/handler.go (`stream`, `writeSSE`): a client
-- subscribes, is sent the backlog, and then what arrives on its channel, less what it was sent already.
-- A write that fails ends the stream; the JSON of an event is an argument.
pub mod Channel
pub mod Publishing
pub mod Steps
pub mod Receiving
pub mod CaughtUp
use crypto_agent.Prelude.{
  ℕ, Bool, true, false, Option, none, some, List, [], ◌∷◌, ◌++◌, Bytes, text, length, leb, ◌==◌,
  if◌then◌else◌, Result, ok, err,
}
use crypto_agent.Prelude.Numerals.{parse_uint, format_uint}
use crypto_agent.Http.{Response, write_error}
use crypto_agent.Auditlog.{Event, Pipeline, Subscribers, subscribe, all_events_since}

-- `lastSent` and `lastSentSet` are one optional number. `sent` are the events written so far.
pub record Connection : Type 0 where
  pub subscriber : ℕ
  pub since : ℕ
  pub sent : List Event
  pub last_sent : Option ℕ

unfoldable pub send : Event → Connection → Connection
send e c = record c { sent = c.sent ++ (e ∷ []); last_sent = some e.seq }

-- `Subscribe`, before anything is written
unfoldable pub connect : ℕ → Pipeline → Connection × Pipeline
connect since p =
    let (id, q) = subscribe p in
    (record { subscriber = id; since = since; sent = []; last_sent = none }, q)

-- the query parameter `since`: 0 where it is empty, and nothing where it is no decimal number of 64 bits
unfoldable pub parse_since : Bytes → Option ℕ
parse_since v = if length v == 0 then some 0 else parse_uint 10 v

-- the connection, if there is a number to start from
abbrev connect_at : Option ℕ → Pipeline → Result Response (Connection × Pipeline)
connect_at none p = err (write_error 400 (text "invalid_since"))
connect_at (some since) p = ok (connect since p)

-- the start of `stream`, up to the backlog: whether the response can be flushed, and the text of `since`
unfoldable pub open_stream : Bool → Bytes → Pipeline → Result Response (Connection × Pipeline)
unfolding parse_since connect
open_stream false v p = err (write_error 500 (text "no_flush"))
open_stream true v p = connect_at (parse_since v) p

-- `writeSSE`: the text that it writes, around the JSON of the event
unfoldable pub write_sse : (Event → Bytes) → Event → Bytes
write_sse json e = text "id: " ++ format_uint 10 e.seq ++ text "\ndata: " ++ json e ++ text "\n\n"

unfoldable pub send_all : List Event → Connection → Connection
unfolding send
send_all [] c = c
send_all (e ∷ es) c = send_all es (send e c)

-- the loop over the backlog
unfoldable pub replay : Pipeline → Connection → Connection
unfolding send_all
replay p c = send_all (all_events_since c.since p) c

-- an event from the channel: one that was sent already is passed over
unfoldable pub on_event : Event → Connection → Connection
unfolding send
on_event e c = elim c.last_sent [ none ↦ send e c | some n ↦ if leb e.seq n then c else send e c ]

-- `<-ch`: the oldest event in the channel of a subscriber, and the channels without it
unfoldable pub take_event : ℕ → Subscribers → Option (Event × Subscribers)
take_event id [] = none
take_event id ((j, queue) ∷ subs) =
    let rest = take_event id subs in
    if j == id
    then elim queue [ [] ↦ none | e ∷ es ↦ some (e, (j, es) ∷ subs) ]
    else elim rest [ none ↦ none | some (e, others) ↦ some (e, (j, queue) ∷ others) ]

-- one round of the loop; `none` where it waits
unfoldable pub receive : Pipeline → Connection → Option (Connection × Pipeline)
unfolding on_event take_event
receive p c = elim (take_event c.subscriber p.subs) [
  | none ↦ none
  | some (e, subs) ↦ some (on_event e c, record p { subs = subs })
]

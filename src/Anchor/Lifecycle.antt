-- ===== src/Anchor/Lifecycle.antt =====
-- `Start` and `Stop` of the committer (go-key-service/internal/anchor/committer.go): the two `sync.Once`,
-- the channels that they guard, and the goroutine of the loop. Closing a channel twice is a panic, which
-- is counted. How long `Stop` waits is left out: its answer depends on what its `select` picks.
use crypto_agent.Prelude.{
  ℕ, suc, ◌+◌, ◌-◌, ◌≤◌, ◌<◌, Bool, true, false, not, ◌&&◌, if◌then◌else◌, ◌≡◌, refl, ap, arith,
}

pub record Lifecycle : Type 0 where
  pub start_done : Bool
  pub stop_done : Bool
  pub stop_closed : Bool
  pub done_closed : Bool
  pub loops : ℕ
  pub panics : ℕ

-- as `NewCommitter` makes it
abbrev pub created : Lifecycle
created = record {
  start_done = false;
  stop_done = false;
  stop_closed = false;
  done_closed = false;
  loops = 0;
  panics = 0;
}

unfoldable pub start : Lifecycle → Lifecycle
start l = if l.start_done then l else record l { start_done = true; loops = suc l.loops }

unfoldable pub close_stop : Lifecycle → Lifecycle
close_stop l =
    if l.stop_closed then record l { panics = suc l.panics } else record l { stop_closed = true }

-- the first line of `Stop`
unfoldable pub signal_stop : Lifecycle → Lifecycle
unfolding close_stop
signal_stop l = if l.stop_done then l else close_stop (record l { stop_done = true })

-- the rest of `Stop`: whether it returns true, where the time may be over first
unfoldable pub stop_answer : Bool → Lifecycle → Bool
stop_answer timed_out l = l.done_closed && not timed_out

-- A loop returns, and closes the channel that `Stop` waits for.
unfoldable pub leave : Lifecycle → Lifecycle
leave l =
    if l.done_closed
    then record l { loops = l.loops - 1; panics = suc l.panics }
    else record l { loops = l.loops - 1; done_closed = true }

-- What becomes of a new committer: calls from anywhere, and loops that end whenever they do.
pub data Reachable : Lifecycle → Type 0 where
  fresh : Reachable created
  starts : {l : Lifecycle} → Reachable l → Reachable (start l)
  stops : {l : Lifecycle} → Reachable l → Reachable (signal_stop l)
  leaves : {l : Lifecycle} → Reachable l → 0 < l.loops → Reachable (leave l)

abbrev count : Bool → ℕ
count true = 1
count false = 0

-- No panic so far; the one loop runs, or is over.
record IsSound (l : Lifecycle) : Type 0 where
  quiet : l.panics ≡ 0
  closed : l.stop_closed ≡ l.stop_done
  once : l.loops + count l.done_closed ≡ count l.start_done

start-IsSound : (l : Lifecycle) → IsSound l → IsSound (start l)
unfolding start
start-IsSound l h = record { quiet = ground arith; closed = ground arith; once = ground arith }

signal_stop-IsSound : (l : Lifecycle) → IsSound l → IsSound (signal_stop l)
unfolding signal_stop close_stop
signal_stop-IsSound l h = record {
  quiet = ground arith;
  closed = ground arith;
  once = ground arith;
}

leave-IsSound : (l : Lifecycle) → IsSound l → 0 < l.loops → IsSound (leave l)
unfolding leave
leave-IsSound l h running = record {
  quiet = ground arith;
  closed = ground arith;
  once = ground arith;
}

Reachable-IsSound : (l : Lifecycle) → Reachable l → IsSound l
Reachable-IsSound _ fresh = record { quiet = refl; closed = refl; once = refl }
Reachable-IsSound _ (starts {l} r) = start-IsSound l (Reachable-IsSound l r)
Reachable-IsSound _ (stops {l} r) = signal_stop-IsSound l (Reachable-IsSound l r)
Reachable-IsSound _ (leaves {l} r running) = leave-IsSound l (Reachable-IsSound l r) running

count_le : (b : Bool) → count b ≤ 1
count_le true = omega arith
count_le false = omega arith

-- Whatever is called, in any order and as often as anyone likes, no channel is closed twice and no more
-- than one loop runs; when the channel that `Stop` waits for is closed, none does.
pub one_loop :
    (l : Lifecycle)
    → Reachable l
    → (l.panics ≡ 0) × (l.loops ≤ 1) × (l.done_closed ≡ true → l.loops ≡ 0)
one_loop l r =
    let h = Reachable-IsSound l r in
    let most = count_le l.start_done in
    (
      h.quiet,
      omega (arith, h.once, most),
      λ closed. let c = ap count closed in omega (arith, h.once, most, c),
    )

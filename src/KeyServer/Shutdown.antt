-- ===== src/KeyServer/Shutdown.antt =====
-- The run of the process (`main` of go-key-service/cmd/keyserver/main.go) once its parts are put together:
-- it serves until a signal or the listener's failure, and then ends with an exit code. What the
-- operating system, net/http and the committer's `Stop` come to is an argument; a line of the logger stands
-- for itself.
use crypto_agent.Prelude.{
  ℕ, Bool, true, false, none, some, List, [], ◌∷◌, ◌++◌, Result, ok, err, ◌≡◌, refl, arith, suc,
  ◌↔◌, if◌then◌else◌,
}
use crypto_agent.KeyServer.{KeyServer, Error}

-- What the process does that others see, in order.
pub data Act : Type 0 where
  logs_start_error : Error → Act
  starts_committer listens logs_signal logs_server_error stops_committer logs_unclean_stop
        shuts_down logs_shutdown_error :
      Act

-- What the `select` of `main` receives.
pub data Wakeup : Type 0 where
  signal : Wakeup
  listen_failed : Wakeup

-- What is outside: what wakes `main`, whether `Stop` saw the committer's loop end in 5 seconds, and
-- whether `Shutdown` came to an end in 5.
pub record Surroundings : Type 0 where
  pub wakeup : Wakeup
  pub stopped : Bool
  pub drained : Bool

-- the acts, and the exit code of the process
abbrev pub Run : Type 0
Run = List Act × ℕ

unfoldable pub shut_down : Surroundings → List Act → Run
shut_down env acts =
    if env.drained
    then (acts ++ (shuts_down ∷ []), 0)
    else (acts ++ (shuts_down ∷ logs_shutdown_error ∷ []), 1)

-- `if committer != nil { if !committer.Stop(…) … }`
unfoldable pub stop_committer : Bool → Surroundings → List Act → List Act
stop_committer has_committer env acts =
    if has_committer
    then (if env.stopped
        then acts ++ (stops_committer ∷ [])
        else acts ++ (stops_committer ∷ logs_unclean_stop ∷ []))
    else acts

unfoldable pub wait : Bool → Surroundings → List Act → Run
unfolding shut_down stop_committer
wait has_committer env acts = elim env.wakeup [
  | signal ↦ shut_down env (stop_committer has_committer env (acts ++ (logs_signal ∷ [])))
  | listen_failed ↦ (acts ++ (logs_server_error ∷ []), 1)
]

unfoldable pub has_committer : KeyServer → Bool
has_committer server = elim server.committer [ none ↦ false | some w ↦ true ]

-- `main`, on what its first half has put together
unfoldable pub run : Result Error KeyServer → Surroundings → Run
unfolding wait has_committer
run (err e) env = (logs_start_error e ∷ [], 1)
run (ok server) env =
    wait (has_committer server) env
      ((if has_committer server then starts_committer ∷ [] else []) ++ (listens ∷ []))

-- What has to hold for a clean end: the parts could be put together, a signal came, and the connections
-- were drained in time.
pub record EndsWell (r : Result Error KeyServer) (env : Surroundings) : Type 0 where
  pub server : KeyServer
  pub started : r ≡ ok server
  pub signalled : env.wakeup ≡ signal
  pub in_time : env.drained ≡ true

wait-zero :
    (has : Bool) (env : Surroundings) (acts : List Act)
    → (wait has env acts).1 ≡ 0
    → (env.wakeup ≡ signal) × (env.drained ≡ true)
unfolding wait shut_down
wait-zero has env acts h = ground (arith, h)

zero-wait :
    (has : Bool) (env : Surroundings) (acts : List Act)
    → env.wakeup ≡ signal
    → env.drained ≡ true
    → (wait has env acts).1 ≡ 0
unfolding wait shut_down
zero-wait has env acts h k = ground (arith, h, k)

zero-EndsWell :
    (r : Result Error KeyServer) (env : Surroundings) → (run r env).1 ≡ 0 → EndsWell r env
unfolding run
zero-EndsWell (err e) env h = absurd (omega (arith, h))
zero-EndsWell (ok server) env h =
    let (signalled, in_time) = wait-zero (has_committer server) env _ h in
    record { server = server; started = refl; signalled = signalled; in_time = in_time }

EndsWell-zero :
    (r : Result Error KeyServer) (env : Surroundings) → EndsWell r env → (run r env).1 ≡ 0
unfolding run
EndsWell-zero (err e) env h = absurd (cc h.started)
EndsWell-zero (ok server) env h = zero-wait (has_committer server) env _ h.signalled h.in_time

-- The process exits with 0 if and only if its parts could be put together, a signal ended it, and the
-- server's connections were drained in time; whether the committer stopped in time makes no difference.
pub run-EndsWell_iff :
    (r : Result Error KeyServer) (env : Surroundings) → ((run r env).1 ≡ 0) ↔ EndsWell r env
run-EndsWell_iff r env = (zero-EndsWell r env, EndsWell-zero r env)

-- how often an act occurs
unfoldable pub times : (Act → Bool) → List Act → ℕ
times p [] = 0
times p (a ∷ acts) = let rest = times p acts in if p a then suc rest else rest

unfoldable pub is_start : Act → Bool
is_start starts_committer = true
is_start _ = false

unfoldable pub is_stop : Act → Bool
is_stop stops_committer = true
is_stop _ = false

-- In a run that a signal ends, the committer is told to stop as often as it was started.
pub run-balanced :
    (r : Result Error KeyServer) (env : Surroundings)
    → env.wakeup ≡ signal
    → times is_stop (run r env).0 ≡ times is_start (run r env).0
unfolding run wait shut_down stop_committer times is_start is_stop
run-balanced (err e) env h = refl
run-balanced (ok server) env h = ground (arith, h)

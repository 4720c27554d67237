-- ===== src/Anchor/Loop.antt =====
-- The committer's construction and its polling loop (go-key-service/internal/anchor/committer.go). What
-- the `select` of the loop receives, one after the other, is a list of signals; a tick comes with what
-- the tree and the clock say then. A warning stands for its line in the logger.
use crypto_agent.Prelude.{
  ℕ, suc, Bool, true, false, ◌||◌, Option, none, some, List, [], ◌∷◌, ◌++◌, Bytes, ◌==◌,
  if◌then◌else◌, Result, ok, err, ◌≡◌, refl,
}
use crypto_agent.Prelude.Int64.{Int64, is_negative}
use crypto_agent.Merkle.Tree.{Tree}
use crypto_agent.Anchor.{
  Anchor, Error, tree_shrank, empty_tree, EvmClient, LatestStore, Committer, commit,
}

pub data SetupError : Type 0 where
  no_tree no_client no_store : SetupError

-- A committer with its interval, in nanoseconds.
pub record Watcher (C : Type 0) : Type 0 where
  pub tree : Tree
  pub client : C
  pub committer : Committer
  pub interval : Int64

-- `NewCommitter`, less the clock and the logger
unfoldable pub new_committer :
    {C : Type 0}
    → Option Tree
    → Option C
    → Option LatestStore
    → Int64
    → Result SetupError (Watcher C)
new_committer none client store interval = err no_tree
new_committer (some t) none store interval = err no_client
new_committer (some t) (some client) none interval = err no_store
new_committer (some t) (some client) (some store) interval = ok (record {
  tree = t;
  client = client;
  committer = record { store = store; last_committed = 0 };
  interval = if is_negative interval || interval == 0 then 900_000_000_000 else interval;
})

-- What a loop has come to: whether it returned, how often it warned, the committer and the chain.
pub record Progress (S : Type 0) : Type 0 where
  pub is_done : Bool
  pub warnings : ℕ
  pub committer : Committer
  pub chain : S

pub data Signal : Type 0 where
  tick : ℕ × Bytes → ℕ → Signal
  cancelled stopped : Signal

-- the errors of a pass that are not logged
unfoldable pub is_quiet : Result Error Anchor → Bool
is_quiet (ok a) = true
is_quiet (err tree_shrank) = true
is_quiet (err empty_tree) = true
is_quiet (err _) = false

module _ (client : EvmClient) where
  -- a pass, with the warning that it may give
  unfoldable pub attempt : ℕ × Bytes → ℕ → Progress client.State → Progress client.State
  unfolding commit is_quiet
  attempt snapshot now s =
      let (r, c, chain) = commit client snapshot now s.committer s.chain in
      record {
        is_done = s.is_done;
        warnings = if is_quiet r then s.warnings else suc s.warnings;
        committer = c;
        chain = chain;
      }

  -- the rounds of the loop; it waits where the signals end
  unfoldable pub rounds : List Signal → Progress client.State → Progress client.State
  unfolding attempt
  rounds [] s = s
  rounds (tick snapshot now ∷ signals) s = rounds signals (attempt snapshot now s)
  rounds (cancelled ∷ signals) s = record s { is_done = true }
  rounds (stopped ∷ signals) s = record s { is_done = true }

  -- `loop`: a first pass, and the rounds
  unfoldable pub loop :
      ℕ × Bytes → ℕ → List Signal → Committer → client.State → Progress client.State
  unfolding rounds
  loop snapshot now signals c chain = rounds signals (
      attempt snapshot now (record { is_done = false; warnings = 0; committer = c; chain = chain }))

  rounds-stop :
      (before after : List Signal) (s : Progress client.State)
      → rounds (before ++ (stopped ∷ after)) s ≡ record (rounds before s) { is_done = true }
  unfolding rounds
  rounds-stop [] after s = refl
  rounds-stop (tick snapshot now ∷ before) after s =
      rounds-stop before after (attempt snapshot now s)
  rounds-stop (cancelled ∷ before) after s = refl
  rounds-stop (stopped ∷ before) after s = refl

  -- A stop ends the loop: what it was told before has its effect, nothing that comes behind has any, and
  -- the committer and the chain stay as they were at the stop.
  pub loop-stop :
      (snapshot : ℕ × Bytes) (now : ℕ) (before after : List Signal) (c : Committer)
      (chain : client.State)
      → loop snapshot now (before ++ (stopped ∷ after)) c chain
        ≡ record (loop snapshot now before c chain) { is_done = true }
  unfolding loop
  loop-stop snapshot now before after c chain = rounds-stop before after (
      attempt snapshot now (record { is_done = false; warnings = 0; committer = c; chain = chain }))

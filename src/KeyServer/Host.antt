-- ===== src/KeyServer/Host.antt =====
-- The server's process: the requests of internal/httpapi and the passes of the committer
-- (internal/anchor/committer.go) on the tree and the latest store that `main` gives to both
-- (go-key-service/cmd/keyserver/main.go). The chain client is any.
pub mod Growth
pub mod Heads
pub mod OnChain
pub mod Receipts
pub mod Unanswered
use crypto_agent.Prelude.{ℕ, List, [], ◌∷◌, Bytes}
use crypto_agent.Action.{Action}
use crypto_agent.Keys.{Ed25519}
use crypto_agent.Merkle.Hash.{Sha256}
use crypto_agent.Merkle.Tree
use crypto_agent.Anchor.{EvmClient, Committer, commit}
use crypto_agent.KeyServer.World.{World, Request, serve}

-- The committer's store is the world's.
pub record Host (S : Type 0) : Type 0 where
  pub world : World
  pub last_committed : ℕ
  pub chain : S

-- What happens: a request at two readings of the clock, or a pass of the committer at one.
pub data Event : Type 0 where
  request : ℕ → ℕ → Request → Event
  pass : ℕ → Event

module _ (sha : Sha256) (crypto : Ed25519) (encode : Action → Bytes) (client : EvmClient) where
  abbrev committer_of : Host client.State → Committer
  committer_of h = record { store = h.world.latest; last_committed = h.last_committed }

  unfoldable pub happen : Event → Host client.State → Host client.State
  unfolding serve commit
  happen (request now later r) h = record h {
    world = (serve sha crypto encode now later r h.world).1;
  }
  happen (pass now) h =
      let (_, c, chain) =
        commit client (Tree.snapshot ⦃sha = sha⦄ h.world.pipeline.tree) now (committer_of h)
          h.chain in
      record {
        world = record h.world { latest = c.store };
        last_committed = c.last_committed;
        chain = chain;
      }

  unfoldable pub happen_all : List Event → Host client.State → Host client.State
  unfolding happen
  happen_all [] h = h
  happen_all (e ∷ es) h = happen_all es (happen e h)

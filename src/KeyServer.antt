-- ===== src/KeyServer.antt =====
-- go-key-service/cmd/keyserver/main.go: how the key server is put together from its configuration. The
-- generated signing key is an argument. The parts share the store, the tree, the pipeline and the latest
-- anchor by pointers: each holds the value that it has at the start.
pub mod Startup
pub mod World
pub mod Shutdown
pub mod Host
use crypto_agent.Prelude.{
  Option, none, some, [], Bytes, true, equal, Result, ok, err, if◌then◌else◌,
}
use crypto_agent.Prelude.Int64.{Int64}
use crypto_agent.Keys.{Ed25519}
use crypto_agent.Merkle.Tree
use crypto_agent.Capability
use crypto_agent.Capability.{Codec, Service}
use crypto_agent.Capability.Startup.{new_service}
use crypto_agent.Auditlog.Setup.{new_pipeline}
use crypto_agent.Anchor
use crypto_agent.Anchor.Loop.{Watcher, new_committer}
use crypto_agent.Config
use crypto_agent.Config.{Config, Client, anchor_off, load, build_anchor_client}
use crypto_agent.Http.Server.{
  Server, new_server, with_audit_pipeline, with_capability, with_merkle_tree, with_cors,
  with_anchor,
}

-- Why `main` exits before it listens.
pub data Error : Type 0 where
  bad_config : Config.Error → Error
  bad_capability : Capability.Startup.SetupError → Error
  bad_anchor_client : Config.Error → Error
  bad_committer : Anchor.Loop.SetupError → Error

pub record KeyServer : Type 0 where
  pub server : Server
  pub committer : Option (Watcher Client)

abbrev new_latest_store : Anchor.LatestStore
new_latest_store = record { latest = none }

-- with the chain client, or its error
unfoldable pub with_committer :
    Config → Server → Result Config.Error Client → Result Error KeyServer
with_committer cfg server (err e) = err (bad_anchor_client e)
with_committer cfg server (ok client) =
    elim (new_committer (some Tree.new) (some client) (some new_latest_store) cfg.anchor_interval) [
      | err e ↦ err (bad_committer e)
      | ok w ↦
          ok (record { server = with_anchor (some new_latest_store) server; committer = some w })
    ]

-- the server without an anchor endpoint
abbrev pub base_server : Config → Service → Server
base_server cfg svc = with_cors cfg.cors_origins (
    with_merkle_tree (some Tree.new) (
      with_capability (some svc)
        (with_audit_pipeline (some (new_pipeline Tree.new [])) (new_server []))))

-- with the token service, or its error
unfoldable pub with_service :
    Config → Result Capability.Startup.SetupError Service → Result Error KeyServer
unfolding with_committer new_pipeline
with_service cfg (err e) = err (bad_capability e)
with_service cfg (ok svc) =
    let anchored = with_committer cfg (base_server cfg svc) (build_anchor_client cfg) in
    if equal cfg.anchor_mode anchor_off
    then ok (record { server = base_server cfg svc; committer = none })
    else anchored

-- `main` up to `ListenAndServe`, behind the configuration
unfoldable pub assemble : Codec → Ed25519 → Option Bytes → Config → Result Error KeyServer
unfolding with_service
assemble codec crypto generated cfg = with_service cfg (
    new_service codec crypto (some []) generated
      (record { revocation = none; signing_key = none; has_sink = true }))

-- the configuration, or its error
abbrev pub configured :
    Codec → Ed25519 → Option Bytes → Result Config.Error Config → Result Error KeyServer
configured codec crypto generated (err e) = err (bad_config e)
configured codec crypto generated (ok cfg) = assemble codec crypto generated cfg

unfoldable pub start :
    (Bytes → Bytes)
    → (Bytes → Option Int64)
    → Codec
    → Ed25519
    → Option Bytes
    → Result Error KeyServer
unfolding assemble
start env parse_duration codec crypto generated =
    configured codec crypto generated (load env parse_duration)

-- ===== src/KeyServer/Startup.antt =====
-- A configuration that loads starts the server (go-key-service/cmd/keyserver/main.go).
use crypto_agent.Prelude.{
  false, ◌||◌, ◌==◌, Option, none, some, Bytes, equal, equal→eq, equal_refl, Result, ok, ◌≡◌, ◌≢◌,
  refl, sym, ap, arith, ◌⊎◌, inl, inr, Bool-cases,
}
use crypto_agent.Prelude.Int64.{Int64, is_negative}
use crypto_agent.Keys.{Ed25519}
use crypto_agent.Capability.{Codec, Service}
use crypto_agent.Capability.Startup.{choose_key, new_service}
use crypto_agent.Anchor.Loop.{Watcher, new_committer}
use crypto_agent.Config.{Config, Client, anchor_off, load, build_anchor_client}
use crypto_agent.Config.Usable.{load-IsUsable, load-build_anchor_client, IsUsable}
use crypto_agent.Http.Server.{Server}
use crypto_agent.KeyServer.{
  KeyServer, Error, base_server, with_committer, with_service, assemble, start,
}

-- What a running server has of its configuration: the origins, and either no committer, or one that has
-- the client and the interval of the configuration, with the endpoint that shows its store.
pub record IsStarted (cfg : Config) (s : KeyServer) : Type 0 where
  pub origins : s.server.cors_origins ≡ cfg.cors_origins
  pub anchoring :
      ((cfg.anchor_mode ≡ anchor_off) × (s.committer ≡ none) × (s.server.anchor_store ≡ none))
      ⊎ ((cfg.anchor_mode ≢ anchor_off)
          × ((w : Watcher Client) × (s.committer ≡ some w)
              × (build_anchor_client cfg ≡ ok w.client)
              × (w.interval ≡ cfg.anchor_interval)
              × (s.server.anchor_store ≡ some w.committer.store)))

-- A start that succeeds, with a server that has what it needs.
abbrev Starts : Config → Result Error KeyServer → Type 0
Starts cfg r = (s : KeyServer) × (r ≡ ok s) × IsStarted cfg s

-- a client at hand
with_committer-IsStarted :
    (cfg : Config) (server : Server) (client : Client)
    → cfg.anchor_mode ≢ anchor_off
    → build_anchor_client cfg ≡ ok client
    → is_negative cfg.anchor_interval ≡ false
    → cfg.anchor_interval ≢ 0
    → server.cors_origins ≡ cfg.cors_origins
    → Starts cfg (with_committer cfg server (ok client))
unfolding with_committer new_committer
with_committer-IsStarted cfg server client on made up nonzero origins =
    let positive : (is_negative cfg.anchor_interval || cfg.anchor_interval == 0) ≡ false =
      ground (arith, up, nonzero) in
    (
      _,
      refl,
      record { origins = origins; anchoring = inr (on, (_, refl, made, rw positive refl, refl)) },
    )

with_service-IsStarted :
    (cfg : Config) (svc : Service)
    → IsUsable cfg
    → (cfg.anchor_mode ≢ anchor_off → (client : Client) × (build_anchor_client cfg ≡ ok client))
    → Starts cfg (with_service cfg (ok svc))
unfolding with_service
with_service-IsStarted cfg svc usable client =
    elim (Bool-cases (equal cfg.anchor_mode anchor_off)) [
      | inl off ↦ rw off (
        _,
        refl,
        record {
          origins = refl;
          anchoring = inl (equal→eq cfg.anchor_mode anchor_off off, refl, refl);
        },
      )
      | inr on ↦
          let active : cfg.anchor_mode ≢ anchor_off = (λ same.
            absurd (cc (on, sym (equal_refl anchor_off), ap (λ m. equal m anchor_off) same))) in
          let (c, made) = client active in
          rw (on, made)
            (with_committer-IsStarted cfg (base_server cfg svc) c active made usable.interval.0
              usable.interval.1 refl)
    ]

any_client :
    (env : Bytes → Bytes) (parse_duration : Bytes → Option Int64) (cfg : Config)
    → load env parse_duration ≡ ok cfg
    → cfg.anchor_mode ≢ anchor_off
    → (client : Client) × (build_anchor_client cfg ≡ ok client)
any_client env parse_duration cfg h on =
    elim (load-build_anchor_client env parse_duration cfg h on) [
      | inl (dry, made) ↦ (_, made)
      | inr (real, (c, made, fits)) ↦ (_, made)
    ]

-- A server whose configuration loads and whose signing key could be generated starts: its committer has
-- the client and the interval of the configuration, or there is none if the mode is off.
pub load-start :
    (env : Bytes → Bytes) (parse_duration : Bytes → Option Int64) (codec : Codec) (crypto : Ed25519)
    (key : Bytes) (cfg : Config)
    → load env parse_duration ≡ ok cfg
    → (s : KeyServer) × (start env parse_duration codec crypto (some key) ≡ ok s) × IsStarted cfg s
unfolding start assemble new_service choose_key
load-start env parse_duration codec crypto key cfg h = rw h (
    with_service-IsStarted cfg _ (load-IsUsable env parse_duration cfg h)
      (any_client env parse_duration cfg h))

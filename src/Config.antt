-- ===== src/Config.antt =====
-- go-key-service/internal/config/config.go, and `buildAnchorClient` of cmd/keyserver/main.go: the settings
-- that are read from the environment, and the chain client that they ask for. The environment is a
-- function, "" for what is not set; `time.ParseDuration` is an argument, with an int64 of nanoseconds.
pub mod Usable
use crypto_agent.Prelude.{
  ℕ, Bool, true, false, not, ◌||◌, Option, none, some, List, [], ◌∷◌, Bytes, text, equal, length,
  ◌==◌, if◌then◌else◌, Result, ok, err, ◌>>=◌,
}
use crypto_agent.Prelude.Int64.{Int64, is_negative}
use crypto_agent.Prelude.Text.{to_lower, trim_space, split_at}
use crypto_agent.Anchor
use crypto_agent.Anchor.{FakeEvmClient, new_fake}
use crypto_agent.Anchor.Cast.{CastClient, new_cast_client}

abbrev pub anchor_off : Bytes
anchor_off = text "off"

abbrev pub anchor_dry_run : Bytes
anchor_dry_run = text "dry-run"

abbrev pub anchor_cast : Bytes
anchor_cast = text "cast"

pub data Level : Type 0 where
  debug info warn error : Level

pub data Error : Type 0 where
  unknown_log_level interval_syntax interval_not_positive cast_incomplete unknown_mode : Error
  bad_client : Anchor.Error → Error
  unsupported_mode : Error

pub record Config : Type 0 where
  pub addr : Bytes
  pub log_level : Level
  pub anchor_mode : Bytes
  pub anchor_interval : Int64
  pub anchor_contract_address : Bytes
  pub anchor_rpc_url : Bytes
  pub anchor_private_key : Bytes
  pub anchor_cast_binary : Bytes
  pub cors_origins : List Bytes

-- `String` of a Secret, and its JSON less the quotes
unfoldable pub redacted : Bytes → Bytes
redacted s = if length s == 0 then [] else text "[REDACTED]"

unfoldable pub get_env : (Bytes → Bytes) → Bytes → Bytes → Bytes
get_env env key default = if length (env key) == 0 then default else env key

-- the loop of `parseOrigins`
unfoldable pub kept_origins : List Bytes → List Bytes
kept_origins [] = []
kept_origins (part ∷ parts) =
    let rest = kept_origins parts in
    if length (trim_space part) == 0 then rest else trim_space part ∷ rest

-- `nil` is the empty list
unfoldable pub parse_origins : Bytes → List Bytes
unfolding kept_origins
parse_origins raw = if length raw == 0 then [] else kept_origins (split_at b',' raw)

unfoldable pub parse_level : Bytes → Result Error Level
parse_level s =
    let l = to_lower s in
    if equal l (text "debug")
    then ok debug
    else if equal l (text "info")
    then ok info
    else if equal l (text "warn") || equal l (text "warning")
    then ok warn
    else if equal l (text "error")
    then ok error
    else err unknown_log_level

module _ (env : Bytes → Bytes) (parse_duration : Bytes → Option Int64) where
  unfoldable pub load_level : Result Error Level
  unfolding parse_level
  load_level =
      let raw = env (text "KEYSERVER_LOG_LEVEL") in
      if length raw == 0 then ok info else parse_level raw

  -- 15 minutes, or what is set
  unfoldable pub load_interval : Result Error Int64
  load_interval =
      let raw = env (text "ANCHOR_INTERVAL") in
      if length raw == 0 then ok 900_000_000_000 else elim (parse_duration raw) [
        | none ↦ err interval_syntax
        | some d ↦ if is_negative d || d == 0 then err interval_not_positive else ok d
      ]

  -- the settings before the switch on the mode
  abbrev base_config : Level → Int64 → Config
  base_config level interval = record {
    addr = get_env env (text "KEYSERVER_ADDR") (text ":8080");
    log_level = level;
    anchor_mode = to_lower (get_env env (text "ANCHOR_MODE") anchor_off);
    anchor_interval = interval;
    anchor_contract_address = [];
    anchor_rpc_url = [];
    anchor_private_key = [];
    anchor_cast_binary = [];
    cors_origins = parse_origins (env (text "KEYSERVER_CORS_ORIGINS"));
  }

  -- the case of `cast`
  unfoldable pub load_cast : Config → Result Error Config
  load_cast cfg =
      let full : Config = record cfg {
        anchor_contract_address = env (text "ANCHOR_CONTRACT_ADDRESS");
        anchor_rpc_url = env (text "ANCHOR_RPC_URL");
        anchor_private_key = env (text "ANCHOR_PRIVATE_KEY");
        anchor_cast_binary = env (text "ANCHOR_CAST_BINARY");
      } in
      if length full.anchor_contract_address == 0
        || length full.anchor_rpc_url == 0
        || length full.anchor_private_key == 0
      then err cast_incomplete
      else ok full

  -- the switch on the mode
  unfoldable pub load_mode : Config → Result Error Config
  unfolding load_cast
  load_mode cfg =
      if equal cfg.anchor_mode anchor_off || equal cfg.anchor_mode anchor_dry_run
      then ok cfg
      else if equal cfg.anchor_mode anchor_cast
      then load_cast cfg
      else err unknown_mode

  unfoldable pub load : Result Error Config
  unfolding load_level load_interval load_mode
  load = do level ← load_level; interval ← load_interval; load_mode (base_config level interval)

-- The two chain clients.
pub data Client : Type 0 where
  fake : FakeEvmClient → Client
  cast : CastClient → Client

unfoldable pub build_anchor_client : Config → Result Error Client
unfolding new_cast_client
build_anchor_client cfg =
    if equal cfg.anchor_mode anchor_dry_run
    then ok (fake new_fake)
    else if equal cfg.anchor_mode anchor_cast
    then elim (new_cast_client (record {
      contract_address = cfg.anchor_contract_address;
      rpc_url = cfg.anchor_rpc_url;
      private_key = cfg.anchor_private_key;
      cast_binary = cfg.anchor_cast_binary;
    })) [ err e ↦ err (bad_client e) | ok c ↦ ok (cast c) ]
    else err unsupported_mode

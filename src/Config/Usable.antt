-- ===== src/Config/Usable.antt =====
-- What a configuration that loads can be relied on for (config.go and cmd/keyserver/main.go).
use crypto_agent.Prelude.{
  false, ◌||◌, Option, List, [], ◌∷◌, Bytes, text, equal, equal→eq, length, ◌==◌, if◌then◌else◌, ok,
  ◌>>=◌, ◌≡◌, ◌≢◌, refl, arith, All, Bool-cases, err-ne-ok, ok-inj, Result-cases, ◌⊎◌, inl, inr,
}
use crypto_agent.Prelude.Int64.{Int64, is_negative}
use crypto_agent.Prelude.Text.{trim_space}
use crypto_agent.Anchor.{new_fake}
use crypto_agent.Anchor.Cast.{CastClient, new_cast_client}
use crypto_agent.Config.{
  Config, Level, fake, cast, anchor_off, anchor_dry_run, anchor_cast, kept_origins, parse_origins,
  load_level, load_interval, load_cast, load_mode, load, base_config, build_anchor_client,
}

-- The mode is one that the server knows, and `cast` has its three settings.
pub data IsMode (cfg : Config) : Type 0 where
  is_off : cfg.anchor_mode ≡ anchor_off → IsMode cfg
  is_dry_run : cfg.anchor_mode ≡ anchor_dry_run → IsMode cfg
  is_cast :
      cfg.anchor_mode ≡ anchor_cast
      → cfg.anchor_contract_address ≢ []
      → cfg.anchor_rpc_url ≢ []
      → cfg.anchor_private_key ≢ []
      → IsMode cfg

-- What `Load` guarantees.
pub record IsUsable (cfg : Config) : Type 0 where
  pub mode : IsMode cfg
  pub interval : (is_negative cfg.anchor_interval ≡ false) × (cfg.anchor_interval ≢ 0)
  pub origins : All (λ (o : Bytes). o ≢ []) cfg.cors_origins

kept_origins-nonempty : (parts : List Bytes) → All (λ (o : Bytes). o ≢ []) (kept_origins parts)
unfolding kept_origins
kept_origins-nonempty [] = tt
kept_origins-nonempty (part ∷ parts) = elim (Bool-cases (length (trim_space part) == 0)) [
  | inl empty ↦ rw empty (kept_origins-nonempty parts)
  | inr full ↦ rw full ((λ e. absurd (cc (full, e))), kept_origins-nonempty parts)
]

parse_origins-nonempty : (raw : Bytes) → All (λ (o : Bytes). o ≢ []) (parse_origins raw)
unfolding parse_origins
parse_origins-nonempty raw = elim (Bool-cases (length raw == 0)) [
  | inl empty ↦ rw empty tt
  | inr full ↦ rw full (kept_origins-nonempty _)
]

all_full :
    (a b c : Bytes)
    → (length a == 0 || length b == 0 || length c == 0) ≡ false
    → (a ≢ []) × (b ≢ []) × (c ≢ [])
all_full [] b c h = absurd (cc h)
all_full (x ∷ a) [] c h = absurd (ground arith)
all_full (x ∷ a) (y ∷ b) [] h = absurd (ground arith)
all_full (x ∷ a) (y ∷ b) (z ∷ c) h = ((λ e. cc e), (λ e. cc e), (λ e. cc e))

module _ (env : Bytes → Bytes) (parse_duration : Bytes → Option Int64) where
  load_interval-positive :
      (d : Int64) → load_interval env parse_duration ≡ ok d → (is_negative d ≡ false) × (d ≢ 0)
  unfolding load_interval
  load_interval-positive d h = ground arith

  -- the mode, and what is left alone
  Kept : Config → Config → Type 0
  Kept base cfg =
      IsMode cfg
      × (cfg.anchor_interval ≡ base.anchor_interval)
      × (cfg.cors_origins ≡ base.cors_origins)

  load_cast-Kept :
      (base cfg : Config)
      → base.anchor_mode ≡ anchor_cast
      → load_cast env parse_duration base ≡ ok cfg
      → Kept base cfg
  unfolding load_cast Kept
  load_cast-Kept base cfg mode h =
      elim (Bool-cases (
        length (env (text "ANCHOR_CONTRACT_ADDRESS")) == 0
        || length (env (text "ANCHOR_RPC_URL")) == 0
        || length (env (text "ANCHOR_PRIVATE_KEY")) == 0)) [
          | inl empty ↦ absurd (err-ne-ok (rw empty at h))
          | inr full ↦
              let same = ok-inj (rw full at h) in
              let (a, b, c) =
                all_full (env (text "ANCHOR_CONTRACT_ADDRESS")) (env (text "ANCHOR_RPC_URL"))
                  (env (text "ANCHOR_PRIVATE_KEY")) full in
              rw (← same) (is_cast mode a b c, refl, refl)
        ]

  load_mode-Kept : (base cfg : Config) → load_mode env parse_duration base ≡ ok cfg → Kept base cfg
  unfolding load_mode Kept
  load_mode-Kept base cfg h = elim (Bool-cases (equal base.anchor_mode anchor_off)) [
    | inl off ↦
        let same = ok-inj (rw off at h) in
        rw (← same) (is_off (equal→eq base.anchor_mode anchor_off off), refl, refl)
    | inr on ↦ elim (Bool-cases (equal base.anchor_mode anchor_dry_run)) [
      | inl dry ↦
          let same = ok-inj (rw (on, dry) at h) in
          rw (← same) (is_dry_run (equal→eq base.anchor_mode anchor_dry_run dry), refl, refl)
      | inr wet ↦ elim (Bool-cases (equal base.anchor_mode anchor_cast)) [
        | inl real ↦
            load_cast-Kept base cfg (equal→eq base.anchor_mode anchor_cast real)
              (rw (on, wet, real) at h)
        | inr other ↦ absurd (err-ne-ok (rw (on, wet, other) at h))
      ]
    ]
  ]

  load-parts :
      (cfg : Config)
      → load env parse_duration ≡ ok cfg
      → (level : Level) × (d : Int64) × (load_interval env parse_duration ≡ ok d)
        × (load_mode env parse_duration (base_config env parse_duration level d) ≡ ok cfg)
  unfolding load
  load-parts cfg h = elim (Result-cases (load_level env parse_duration)) [
    | inr (e, q) ↦ absurd (err-ne-ok (rw (q, ◌>>=◌) at h))
    | inl (level, q) ↦ elim (Result-cases (load_interval env parse_duration)) [
      | inr (e, r) ↦ absurd (err-ne-ok (rw (q, r, ◌>>=◌) at h))
      | inl (d, r) ↦ (level, d, r, rw (q, r, ◌>>=◌) at h)
    ]
  ]

  -- A configuration that loads has a known mode, with the three settings of `cast` where that is the mode,
  -- a positive interval, and no empty origin.
  pub load-IsUsable : (cfg : Config) → load env parse_duration ≡ ok cfg → IsUsable cfg
  unfolding Kept
  load-IsUsable cfg h =
      let (level, d, r, m) = load-parts cfg h in
      let (mode, same_interval, same_origins) =
        load_mode-Kept (base_config env parse_duration level d) cfg m in
      record {
        mode = mode;
        interval = rw same_interval (load_interval-positive d r);
        origins = rw same_origins (parse_origins-nonempty (env (text "KEYSERVER_CORS_ORIGINS")));
      }

full_length : (a : Bytes) → a ≢ [] → (length a == 0) ≡ false
full_length [] h = absurd (h refl)
full_length (x ∷ a) h = ground arith

-- the client of `cast`
pub HasSettings : Config → CastClient → Type 0
HasSettings cfg c =
    (c.contract ≡ cfg.anchor_contract_address)
    × (c.rpc_url ≡ cfg.anchor_rpc_url)
    × (c.private_key ≡ cfg.anchor_private_key)
    × (c.cast_bin ≢ [])

default_binary : (b : Bytes) → (if length b == 0 then text "cast" else b) ≢ []
default_binary [] h = absurd (cc h)
default_binary (x ∷ b) h = absurd (cc (rw (full_length (x ∷ b) (λ e. cc e)) at h))

client_of_cast :
    (cfg : Config)
    → cfg.anchor_mode ≡ anchor_cast
    → cfg.anchor_contract_address ≢ []
    → cfg.anchor_rpc_url ≢ []
    → cfg.anchor_private_key ≢ []
    → (c : CastClient) × (build_anchor_client cfg ≡ ok (cast c)) × HasSettings cfg c
unfolding build_anchor_client new_cast_client HasSettings equal
client_of_cast cfg mode a b c = (
  record {
    contract = cfg.anchor_contract_address;
    rpc_url = cfg.anchor_rpc_url;
    private_key = cfg.anchor_private_key;
    cast_bin = if length cfg.anchor_cast_binary == 0 then text "cast" else cfg.anchor_cast_binary;
  },
  rw
      (
        mode,
        full_length cfg.anchor_contract_address a,
        full_length cfg.anchor_rpc_url b,
        full_length cfg.anchor_private_key c,
      )
      refl,
  (refl, refl, refl, default_binary cfg.anchor_cast_binary),
)

client_of :
    (cfg : Config)
    → IsMode cfg
    → cfg.anchor_mode ≢ anchor_off
    → ((cfg.anchor_mode ≡ anchor_dry_run) × (build_anchor_client cfg ≡ ok (fake new_fake)))
      ⊎ ((cfg.anchor_mode ≡ anchor_cast)
          × ((c : CastClient) × (build_anchor_client cfg ≡ ok (cast c)) × HasSettings cfg c))
unfolding build_anchor_client equal
client_of cfg (is_off off) on = absurd (on off)
client_of cfg (is_dry_run dry) on = inl (dry, rw dry refl)
client_of cfg (is_cast real a b c) on = inr (real, client_of_cast cfg real a b c)

-- For a configuration that loads: where anchoring is not off, `buildAnchorClient`
-- returns a client, the fake one for `dry-run` and for `cast` one with the settings of the configuration.
pub load-build_anchor_client :
    (env : Bytes → Bytes) (parse_duration : Bytes → Option Int64) (cfg : Config)
    → load env parse_duration ≡ ok cfg
    → cfg.anchor_mode ≢ anchor_off
    → ((cfg.anchor_mode ≡ anchor_dry_run) × (build_anchor_client cfg ≡ ok (fake new_fake)))
      ⊎ ((cfg.anchor_mode ≡ anchor_cast)
          × ((c : CastClient) × (build_anchor_client cfg ≡ ok (cast c)) × HasSettings cfg c))
load-build_anchor_client env parse_duration cfg h on =
    client_of cfg (load-IsUsable env parse_duration cfg h).mode on

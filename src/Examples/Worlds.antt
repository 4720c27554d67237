-- ===== src/Examples/Worlds.antt =====
-- The theorems on a running server at one agent and one token.
use crypto_agent.Prelude.{ℕ, ◌≤◌, false, some, none, List, [], ◌∷◌, text, ◌≡◌, ◌≢◌, refl}
use crypto_agent.Examples.{toy_sha, toy_keys}
use crypto_agent.Examples.Logs.{agent_key, greeting, at_noon, signature, after}
use crypto_agent.Examples.Tokens.{service, token}
use crypto_agent.Examples.Services.{token_body}
use crypto_agent.Merkle.Tree.{durable}
use crypto_agent.Prelude.Hex.{hex_encode}
use crypto_agent.KeyServer.World.{
  World, Request, serve, serve_all, list_keys, merkle_head, delete_key, append_action, revoke_token,
  verify_token,
}
use crypto_agent.KeyServer.World.Deletion.{Spares, deleted_agent}
use crypto_agent.KeyServer.World.Revocation.{revoked_token}

-- the agent has submitted its action
abbrev running : World
running = record {
  store = (text "a", record { pub_key = agent_key; priv = agent_key }) ∷ [];
  pipeline = after;
  service = service;
  latest = record { latest = none };
}

abbrev others : List (ℕ × ℕ × Request)
others = (1, 1, list_keys) ∷ (2, 2, merkle_head) ∷ []

abbrev without_agent : World
without_agent =
    serve_all toy_sha toy_keys at_noon.encode others
      (serve toy_sha toy_keys at_noon.encode 0 0 (delete_key (text "a")) running).1

deleted_agent_example :
    (400
      ≤ (serve toy_sha toy_keys at_noon.encode 100_000_000_000 100_000_000_000
          (append_action (some (some greeting, hex_encode signature)) durable false)
          without_agent).0.status)
    × ((serve toy_sha toy_keys at_noon.encode 100_000_000_000 100_000_000_000
          (append_action (some (some greeting, hex_encode signature)) durable false)
          without_agent).1.pipeline.tree.leaves
        ≡ without_agent.pipeline.tree.leaves)
unfolding Spares
deleted_agent_example =
    deleted_agent toy_sha toy_keys at_noon.encode 0 0 greeting others running without_agent
      100_000_000_000 100_000_000_000 (hex_encode signature) durable false (tt, (tt, tt)) refl

abbrev without_token : World
without_token =
    serve_all toy_sha toy_keys at_noon.encode others
      (serve toy_sha toy_keys at_noon.encode 0 0 (revoke_token (text "id")) running).1

revoked_token_example :
    (serve toy_sha toy_keys at_noon.encode 1_001_000_000_000 1_001_000_000_000
      (verify_token (some token_body))
      without_token).0.status
    ≢ 200
revoked_token_example =
    revoked_token toy_sha toy_keys at_noon.encode 0 0 token others running without_token
      1_001_000_000_000 1_001_000_000_000 token_body (λ e. cc e) refl refl

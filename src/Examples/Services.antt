-- ===== src/Examples/Services.antt =====
-- The theorems on the endpoints, the key store, the configuration and the command, at small inputs.
use crypto_agent.Prelude.Text.{to_lower}
use crypto_agent.Prelude.{
  ℕ, zero, suc, ◌≤◌, ◌<◌, false, none, some, List, [], ◌∷◌, Bytes, text, take, length, replicate,
  equal, if◌then◌else◌, ok, ◌≡◌, ◌↔◌, ◌⊎◌, refl, arith, All,
}
use crypto_agent.Prelude.Hex.{hex_encode, hex_decode}
use crypto_agent.Examples.{toy_sha, toy_keys}
use crypto_agent.Examples.Logs.{greeting, at_noon, signature, start}
use crypto_agent.Examples.Tokens.{service, entry}
use crypto_agent.Merkle.Hash.{Collision, mth, hash_leaf, largest_power_of_two_less_than, copy_hash}
use crypto_agent.Merkle.Shape.{Split, split}
use crypto_agent.Merkle.Verifier.Correct.{passing}
use crypto_agent.Keystore
use crypto_agent.Keystore.Refinement.{
  IsMap, Agrees, Promises, calls, create_key, get_key, list_keys, delete_key, Command,
  calls-Promises,
}
use crypto_agent.Config
use crypto_agent.Config.{Config, load}
use crypto_agent.KeyServer
use crypto_agent.KeyServer.{KeyServer}
use crypto_agent.KeyServer.Startup.{IsStarted, load-start}
use crypto_agent.MerkleVerify.{main, build_tree_from_file}
use crypto_agent.MerkleVerify.Reading.{print_leaves, hashes, in_memory, IsPayload}
use crypto_agent.MerkleVerify.Verdict.{main_sound, main_complete}
use crypto_agent.Http.Audit
use crypto_agent.Http.Audit.Statuses.{Told, append-status}
use crypto_agent.Http.Tokens
use crypto_agent.Http.Tokens.{VerifyBody}
use crypto_agent.Http.Tokens.Verdicts.{IsAccepted, verify-status}

split_example : Split 5 (largest_power_of_two_less_than 5)
split_example = split 5 (omega arith)

abbrev life : List Command
life =
    create_key (text "b") (some entry)
    ∷ create_key (text "a") (some entry)
    ∷ list_keys
    ∷ get_key (text "a")
    ∷ delete_key (text "a")
    ∷ get_key (text "a")
    ∷ []

empty_store : Agrees [] (λ id. none)
unfolding Agrees Keystore.lookup
empty_store j = refl

empty-IsMap : IsMap []
unfolding IsMap
empty-IsMap = tt

calls-Promises_example : Promises life (λ id. none) (calls life [])
calls-Promises_example = calls-Promises life [] (λ id. none) empty-IsMap empty_store

append-status_example :
    Told at_noon greeting
      (hex_encode signature)
      start
      (Audit.append toy_sha at_noon false (some (some greeting, hex_encode signature)) start).1
      (Audit.append toy_sha at_noon false
        (some (some greeting, hex_encode signature))
        start).0.status
append-status_example = append-status toy_sha at_noon false greeting (hex_encode signature) start

abbrev pub token_body : VerifyBody
token_body = record {
  claims_json = text "id";
  signature_hex = text "5369";
  agent_id = text "a";
  action_type = text "say";
  target = text "t";
}

verify-status_example :
    ((Tokens.verify service 1001 (some token_body)).0.status ≡ 200)
    ↔ IsAccepted service 1001 token_body
verify-status_example = verify-status service 1001 token_body

abbrev leaf : Bytes
leaf = 1 ∷ replicate 31 7

abbrev dry_env : Bytes → Bytes
dry_env name = if equal name (text "ANCHOR_MODE") then text "dry-run" else []

abbrev dry_config : Config
dry_config = record {
  addr = text ":8080";
  log_level = Config.Level.info;
  anchor_mode = text "dry-run";
  anchor_interval = 900_000_000_000;
  anchor_contract_address = [];
  anchor_rpc_url = [];
  anchor_private_key = [];
  anchor_cast_binary = [];
  cors_origins = [];
}

loaded : load dry_env (λ d. none) ≡ ok dry_config
unfolding load equal to_lower Config.get_env Config.parse_origins
loaded = refl

load-start_example :
    (s : KeyServer) × (KeyServer.start dry_env (λ d. none) service.codec toy_keys (some signature)
      ≡ ok s)
    × IsStarted dry_config s
load-start_example =
    load-start dry_env (λ d. none) service.codec toy_keys signature dry_config loaded

abbrev payloads : List Bytes
payloads = (5 ∷ []) ∷ (6 ∷ []) ∷ []

abbrev root_of : ℕ → Bytes
root_of n = mth ⦃sha = toy_sha⦄ (take n (hashes ⦃sha = toy_sha⦄ payloads))

valid_payloads : All IsPayload payloads
valid_payloads = (
  record { bytes = (omega arith, tt); some_byte = λ e. cc e; fits = omega arith },
  (record { bytes = (omega arith, tt); some_byte = λ e. cc e; fits = omega arith }, tt),
)

zeros : (n : ℕ) → All (λ (v : ℕ). v < 256) (replicate n 0)
zeros zero = tt
zeros (suc n) = (omega arith, zeros n)

root_bytes : All (λ (v : ℕ). v < 256) (root_of 1)
unfolding mth hash_leaf copy_hash
root_bytes = (omega arith, (omega arith, zeros 30))

main_complete_example :
    main ⦃sha = toy_sha⦄ (hex_encode (root_of 1)) 1 (text "f") (some (print_leaves payloads))
    ≡ some (
      0,
      some (
          passing ⦃sha = toy_sha⦄
            (root_of 1)
            1
            (in_memory ⦃sha = toy_sha⦄ (hashes ⦃sha = toy_sha⦄ payloads))),
    )
main_complete_example =
    main_complete ⦃sha = toy_sha⦄ payloads 1 (text "f") valid_payloads (omega arith) (λ e. cc e)
      root_bytes

main_sound_example :
    ((root : Bytes) × (read : List Bytes) × (hex_decode (hex_encode (root_of 1)) ≡ some root)
      × (build_tree_from_file ⦃sha = toy_sha⦄ (some (print_leaves payloads))
          ≡ ok (in_memory ⦃sha = toy_sha⦄ (hashes ⦃sha = toy_sha⦄ read)))
      × (1 ≤ length read)
      × (root ≡ mth ⦃sha = toy_sha⦄ (take 1 (hashes ⦃sha = toy_sha⦄ read))))
    ⊎ Collision toy_sha
main_sound_example =
    main_sound ⦃sha = toy_sha⦄ (hex_encode (root_of 1)) 1 (text "f") (some (print_leaves payloads))
      (passing ⦃sha = toy_sha⦄ (root_of 1) 1
        (in_memory ⦃sha = toy_sha⦄ (hashes ⦃sha = toy_sha⦄ payloads)))
      (omega arith) main_complete_example

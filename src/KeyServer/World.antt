-- ===== src/KeyServer/World.antt =====
-- The running server as one state (go-key-service/cmd/keyserver/main.go): the parts that the handlers
-- share by pointers, and one request after the other. The sink of the token service is the pipeline's
-- `RecordRejection`, as `main` wires it, and the append endpoint asks the store that the key endpoints
-- change.
pub mod Deletion
pub mod Provenance
pub mod Revocation
use crypto_agent.Prelude.{ℕ, ◌/◌, Bool, Option, none, some, List, [], ◌∷◌, Bytes, Result, ok, err}
use crypto_agent.Action.{Action}
use crypto_agent.Keys.{Ed25519}
use crypto_agent.Keystore
use crypto_agent.Keystore.{Memory, MemoryEntry}
use crypto_agent.Merkle.Hash.{Sha256}
use crypto_agent.Merkle.Tree.{WriteFate}
use crypto_agent.Capability.{Service, Rejection}
use crypto_agent.Auditlog.{Pipeline, Env, record_rejection}
use crypto_agent.Anchor.{LatestStore}
use crypto_agent.Http.{Response}
use crypto_agent.Http.Keys
use crypto_agent.Http.Tokens
use crypto_agent.Http.Tokens.{IssueBody, VerifyBody}
use crypto_agent.Http.Audit
use crypto_agent.Http.Roots

pub record World : Type 0 where
  pub store : Memory
  pub pipeline : Pipeline
  pub service : Service
  pub latest : LatestStore

-- The requests, with what the handler draws from outside: a key pair, the fate of a write, whether the
-- client went away, a token's id.
pub data Request : Type 0 where
  create_key : Option Bytes → Option MemoryEntry → Request
  create_agent : Option Bytes → Option MemoryEntry → Request
  get_key : Bytes → Request
  get_agent_pub_key : Bytes → Request
  list_keys : Request
  delete_key : Bytes → Request
  merkle_head : Request
  latest_anchor : Request
  append_action : Option (Option Action × Bytes) → WriteFate → Bool → Request
  issue_token : Option IssueBody → Bytes → Request
  verify_token : Option VerifyBody → Request
  revoke_token : Bytes → Request
  signing_pubkey : Request

-- the calls of the sink
unfoldable pub record_all : ℕ → List Rejection → Pipeline → Pipeline
record_all at [] p = p
record_all at (r ∷ rs) p =
    record_all at rs (record_rejection at r.agent_id r.action_type r.target r.reason p)

-- the agent that a body of `issue` names
abbrev agent_of : Option IssueBody → Bytes
agent_of none = []
agent_of (some b) = b.agent_id

module _ (sha : Sha256) (crypto : Ed25519) (encode : Action → Bytes) where
  -- what `Submit` has around it: two readings of the clock, and the store
  abbrev pub env_of : ℕ → ℕ → WriteFate → Memory → Env
  env_of now later fate store = record {
    now = now;
    rejected_at = later;
    store_get = λ id. Keystore.get id store;
    fate = fate;
    crypto = crypto;
    encode = encode;
  }

  abbrev with_store : Response × Memory → World → Response × World
  with_store (r, m) w = (r, record w { store = m })

  abbrev with_pipeline : Response × Pipeline → World → Response × World
  with_pipeline (r, p) w = (r, record w { pipeline = p })

  abbrev with_calls : ℕ → Response × List Rejection → World → Response × World
  with_calls later (r, calls) w = (r, record w { pipeline = record_all later calls w.pipeline })

  abbrev with_service : Response × Service → World → Response × World
  with_service (r, svc) w = (r, record w { service = svc })

  -- One request, at two readings of the clock in nanoseconds.
  unfoldable pub serve : ℕ → ℕ → Request → World → Response × World
  unfolding record_all
  serve now later (create_key id generated) w =
      with_store (Keys.handle_create id generated w.store) w
  serve now later (create_agent id generated) w =
      with_store (Keys.handle_agents id generated w.store) w
  serve now later (get_agent_pub_key id) w = (Keys.handle_get_agent_pub_key id w.store, w)
  serve now later (get_key id) w = (Keys.handle_get id w.store, w)
  serve now later list_keys w = (Keys.handle_list w.store, w)
  serve now later (delete_key id) w = with_store (Keys.handle_delete id w.store) w
  serve now later merkle_head w = (Roots.handle_merkle_head ⦃sha = sha⦄ w.pipeline.tree, w)
  serve now later latest_anchor w = (Roots.latest w.latest, w)
  serve now later (append_action body fate canceled) w =
      with_pipeline (Audit.append sha (env_of now later fate w.store) canceled body w.pipeline) w
  serve now later (issue_token body fresh_id) w = (
    Tokens.issue w.service (now / 1_000_000_000) fresh_id (Keystore.get (agent_of body) w.store)
        body,
    w,
  )
  serve now later (verify_token body) w =
      with_calls later (Tokens.verify w.service (now / 1_000_000_000) body) w
  serve now later (revoke_token id) w = with_service (Tokens.revoke w.service id) w
  serve now later signing_pubkey w = (Tokens.signing_pubkey w.service, w)

  -- a sequence of requests, each with its clock
  unfoldable pub serve_all : List (ℕ × ℕ × Request) → World → World
  unfolding serve
  serve_all [] w = w
  serve_all ((now, later, request) ∷ requests) w = serve_all requests (serve now later request w).1

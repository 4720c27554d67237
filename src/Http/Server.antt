-- ===== src/Http/Server.antt =====
-- The server of go-key-service/internal/httpapi/handlers.go: its options, its table of routes with those
-- that the packages auditloghttp, capabilityhttp and anchorhttp mount, and its CORS middleware. How chi
-- finds a request's route in the table is not modelled.
pub mod Origins
pub mod Logging
use crypto_agent.Prelude.{
  ℕ, Bool, true, false, not, ◌&&◌, Option, none, some, List, [], ◌∷◌, ◌++◌, Bytes, text, length,
  equal, ◌==◌, if◌then◌else◌,
}
use crypto_agent.Prelude.Sorting.{has}
use crypto_agent.Keystore.{Memory}
use crypto_agent.Auditlog.{Pipeline}
use crypto_agent.Capability.{Service}
use crypto_agent.Anchor.{LatestStore}
use crypto_agent.Merkle.Tree.{Tree}
use crypto_agent.Http.{Response, string, number, write_json, write_header}
use crypto_agent.Action.{current_schema}

pub record Server : Type 0 where
  pub store : Memory
  pub pipeline : Option Pipeline
  pub capability : Option Service
  pub anchor_store : Option LatestStore
  pub tree : Option Tree
  pub cors_origins : List Bytes

abbrev pub new_server : Memory → Server
new_server store = record {
  store = store;
  pipeline = none;
  capability = none;
  anchor_store = none;
  tree = none;
  cors_origins = [];
}

abbrev pub with_audit_pipeline : Option Pipeline → Server → Server
with_audit_pipeline p s = record s { pipeline = p }

abbrev pub with_capability : Option Service → Server → Server
with_capability c s = record s { capability = c }

abbrev pub with_anchor : Option LatestStore → Server → Server
with_anchor latest s = record s { anchor_store = latest }

abbrev pub with_merkle_tree : Option Tree → Server → Server
with_merkle_tree t s = record s { tree = t }

abbrev pub with_cors : List Bytes → Server → Server
with_cors origins s = record s { cors_origins = origins }

pub data Method : Type 0 where
  get post delete options other : Method

pub data Endpoint : Type 0 where
  health list_keys create_key create_agent get_agent_pubkey get_key delete_key : Endpoint
  merkle_head audit_append audit_events : Endpoint
  token_issue token_verify token_revoke token_signing_pubkey anchor_latest : Endpoint

pub record Route : Type 0 where
  pub method : Method
  pub pattern : Bytes
  pub endpoint : Endpoint

abbrev route : Method → Bytes → Endpoint → Route
route m p e = record { method = m; pattern = p; endpoint = e }

-- the routes of a part that is there
abbrev mounted : {A : Type 0} → Option A → List Route → List Route
mounted none routes = []
mounted (some _) routes = routes

abbrev pub key_routes : List Route
key_routes =
    route get (text "/health") health
    ∷ route get (text "/v1/keys/") list_keys
    ∷ route post (text "/v1/keys/") create_key
    ∷ route post (text "/v1/keys/agents") create_agent
    ∷ route get (text "/v1/keys/agents/{agentID}/pubkey") get_agent_pubkey
    ∷ route get (text "/v1/keys/{agentID}") get_key
    ∷ route delete (text "/v1/keys/{agentID}") delete_key
    ∷ []

-- `auditloghttp.Mount`
abbrev pub audit_routes : List Route
audit_routes =
    route post (text "/v1/audit/append") audit_append
    ∷ route get (text "/v1/audit/events") audit_events
    ∷ []

-- `capabilityhttp.Mount`
abbrev pub token_routes : List Route
token_routes =
    route post (text "/v1/tokens/") token_issue
    ∷ route post (text "/v1/tokens/verify") token_verify
    ∷ route post (text "/v1/tokens/{tokenID}/revoke") token_revoke
    ∷ route get (text "/v1/tokens/signing-pubkey") token_signing_pubkey
    ∷ []

-- `anchorhttp.Mount`
abbrev pub anchor_routes : List Route
anchor_routes = route get (text "/v1/anchor/latest") anchor_latest ∷ []

-- `Router`: the routes in the order in which they are added
unfoldable pub router : Server → List Route
router s =
    key_routes
    ++ mounted s.tree (route get (text "/v1/merkle/head") merkle_head ∷ [])
    ++ mounted s.pipeline audit_routes
    ++ mounted s.capability token_routes
    ++ mounted s.anchor_store anchor_routes

-- `handleHealth`
unfoldable pub handle_health : Response
handle_health =
    write_json 200
      ((text "status", string (text "ok")) ∷ (text "schema_version", number current_schema) ∷ [])

abbrev is_listed : Bytes → List Bytes → Bool
is_listed x xs = has (equal x) xs

abbrev pub Headers : Type 0
Headers = List (Bytes × Bytes)

unfoldable pub cors_headers : List Bytes → Bytes → Headers
cors_headers origins origin =
    if not (length origin == 0) && is_listed origin origins
    then (text "Access-Control-Allow-Origin", origin)
      ∷ (text "Vary", text "Origin")
      ∷ (text "Access-Control-Allow-Methods", text "GET, POST, DELETE, OPTIONS")
      ∷ (text "Access-Control-Allow-Headers", text "Content-Type")
      ∷ (text "Access-Control-Max-Age", text "300")
      ∷ []
    else []

-- `cors` around the next handler: the request's Origin header, empty if it has none, and its method. The
-- headers are those that the middleware adds.
unfoldable pub cors :
    {S : Type 0} → List Bytes → (S → Response × S) → Bytes → Method → S → Headers × Response × S
unfolding cors_headers
cors origins next origin options s = (cors_headers origins origin, write_header 204, s)
cors origins next origin method s =
    let (response, state) = next s in (cors_headers origins origin, response, state)

-- what `Router` puts around a handler: the middleware, if there are origins
unfoldable pub wrapped :
    {S : Type 0} → List Bytes → (S → Response × S) → Bytes → Method → S → Headers × Response × S
unfolding cors
wrapped [] next origin method s = let (response, state) = next s in ([], response, state)
wrapped (o ∷ origins) next origin method s = cors (o ∷ origins) next origin method s

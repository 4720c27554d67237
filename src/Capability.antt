-- ===== src/Capability.antt =====
-- go-key-service/internal/capability: tokens, the revocation set and the service.
-- The JSON codec of claims is a parameter (`encode`, `decode`), like the Ed25519 functions. The clock
-- reading, the fresh token id and the answer of the key store are arguments of the calls that
-- take them. Times and lifetimes are Unix seconds in an int64.
pub mod Verdicts
pub mod Lifetime
pub mod Startup
pub mod Json
use crypto_agent.Prelude.{
  ℕ, Bool, true, false, not, ◌&&◌, ◌||◌, Option, none, some, List, [], ◌∷◌, Bytes, text, equal,
  Result, ok, err, if◌then◌else◌, ◌==◌,
}
use crypto_agent.Prelude.Int64.{Int64, is_negative, add_int64, lt_int64}
use crypto_agent.Prelude.Sorting.{sort_strings, has}
use crypto_agent.Keys.{Ed25519}
use crypto_agent.Keystore
use crypto_agent.Keystore.{MemoryEntry}

pub record Token : Type 0 where
  pub token_id : Bytes
  pub agent_id : Bytes
  pub action_types : List Bytes
  pub targets : List Bytes
  pub issued_at : Int64
  pub expires_at : Int64

-- The package's sentinel errors, and a failure of the key store other than "not found".
pub data Error : Type 0 where
  malformed_token invalid_signature expired revoked agent_mismatch : Error
  action_type_not_allowed target_not_allowed unknown_agent invalid_ttl : Error
  store_failed : Error

abbrev pub wildcard : Bytes
wildcard = text "*"

-- `contains`: an element that is the wildcard or the wanted string
unfoldable pub contains : List Bytes → Bytes → Bool
contains list want = has (λ v. equal v wildcard || equal v want) list

unfoldable pub allows : Token → Bytes → Bytes → Bool × Bool
allows t action_type target = (contains t.action_types action_type, contains t.targets target)

-- The revocation set: Go's map with empty values.
abbrev pub RevocationStore : Type 0
RevocationStore = List Bytes

unfoldable pub is_revoked : Bytes → RevocationStore → Bool
is_revoked token_id ids = has (λ j. equal j token_id) ids

unfoldable pub revoke : Bytes → RevocationStore → RevocationStore
revoke token_id ids = if is_revoked token_id ids then ids else token_id ∷ ids

-- The claims' JSON: what `Canonical` writes once the lists are sorted, and `json.Unmarshal`.
pub record Codec : Type 0 where
  pub encode : Token → Bytes
  pub decode : Bytes → Option Token

pub record Service : Type 0 where
  pub codec : Codec
  pub crypto : Ed25519
  pub sign_priv : Bytes
  pub revocation : RevocationStore
  pub has_sink : Bool

pub record IssueRequest : Type 0 where
  pub agent_id : Bytes
  pub action_types : List Bytes
  pub targets : List Bytes
  pub ttl_seconds : Int64

pub record VerifyRequest : Type 0 where
  pub claims_json : Bytes
  pub signature : Bytes
  pub agent_id : Bytes
  pub action_type : Bytes
  pub target : Bytes

-- What the rejection sink is called with.
pub record Rejection : Type 0 where
  pub agent_id : Bytes
  pub action_type : Bytes
  pub target : Bytes
  pub reason : Bytes

abbrev pub sorted : Token → Token
sorted t = record t { action_types = sort_strings t.action_types; targets = sort_strings t.targets }

module _ (svc : Service) where
  -- The encoder cannot fail on strings and integers.
  unfoldable pub canonical : Token → Bytes
  canonical t = svc.codec.encode (sorted t)

  -- `store_get` is the answer of `store.Get` for the request's agent.
  unfoldable pub issue :
      Int64
      → Bytes
      → Result Keystore.Error MemoryEntry
      → IssueRequest
      → Result Error (Token × Bytes × Bytes)
  unfolding canonical
  issue now fresh_id store_get req =
      let tok : Token = record {
        token_id = fresh_id;
        agent_id = req.agent_id;
        action_types = req.action_types;
        targets = req.targets;
        issued_at = now;
        expires_at = add_int64 now req.ttl_seconds;
      } in
      let claims = canonical tok in
      if is_negative req.ttl_seconds || req.ttl_seconds == 0
      then err invalid_ttl
      else elim store_get [
        | err Keystore.Error.not_found ↦ err unknown_agent
        | err _ ↦ err store_failed
        | ok _ ↦ ok (tok, claims, svc.crypto.sign svc.sign_priv claims)
      ]

  -- `emitRejection`: the calls of the sink, if there is one
  unfoldable pub emit_rejection : VerifyRequest → Bytes → List Rejection
  emit_rejection req reason =
      if svc.has_sink
      then record {
        agent_id = req.agent_id;
        action_type = req.action_type;
        target = req.target;
        reason = reason;
      }
        ∷ []
      else []

  abbrev deny : VerifyRequest → Bytes → Error → Result Error Token × List Rejection
  deny req reason e = (err e, emit_rejection req reason)

  -- the checks of a parsed token, in the code's order
  unfoldable pub check : Int64 → VerifyRequest → Token → Result Error Token × List Rejection
  unfolding allows
  check now req tok =
      let (action_ok, target_ok) = allows tok req.action_type req.target in
      if not (svc.crypto.verify (svc.crypto.public svc.sign_priv) (canonical tok) req.signature)
      then deny req (text "invalid_signature") invalid_signature
      else if not (lt_int64 now tok.expires_at)
      then deny req (text "expired") expired
      else if is_revoked tok.token_id svc.revocation
      then deny req (text "revoked") revoked
      else if not (equal tok.agent_id req.agent_id)
      then deny req (text "agent_mismatch") agent_mismatch
      else if not action_ok
      then deny req (text "action_type_not_allowed") action_type_not_allowed
      else if not target_ok
      then deny req (text "target_not_allowed") target_not_allowed
      else (ok tok, [])

  -- `Verify`: the verdict, and the calls of the sink
  unfoldable pub verify : Int64 → VerifyRequest → Result Error Token × List Rejection
  unfolding check
  verify now req = elim (svc.codec.decode req.claims_json) [
    | none ↦ deny req (text "malformed_token") malformed_token
    | some tok ↦ check now req tok
  ]

  unfoldable pub revoke_token : Bytes → Service
  unfolding revoke
  revoke_token token_id = record svc { revocation = revoke token_id svc.revocation }

-- ===== src/Http/Tokens.antt =====
-- The token endpoints of go-key-service/internal/capability/http/handler.go. The sink's calls are part of
-- the answer, as for `Verify`.
pub mod Verdicts
use crypto_agent.Prelude.{
  ℕ, Bool, true, ◌||◌, Option, none, some, List, [], ◌∷◌, Bytes, text, length, ◌==◌, if◌then◌else◌,
  Result, ok, err,
}
use crypto_agent.Prelude.Hex.{hex_encode, hex_decode}
use crypto_agent.Prelude.Int64.{Int64}
use crypto_agent.Keystore
use crypto_agent.Keystore.{MemoryEntry}
use crypto_agent.Capability
use crypto_agent.Capability.{Service, Token, Rejection, Error}
use crypto_agent.Http.{Response, string, flag, write_json, write_error, write_header}

-- The request bodies; a list that the body leaves out is `nil`.
pub record IssueBody : Type 0 where
  pub agent_id : Bytes
  pub action_types : Option (List Bytes)
  pub targets : Option (List Bytes)
  pub ttl_seconds : Int64

pub record VerifyBody : Type 0 where
  pub claims_json : Bytes
  pub signature_hex : Bytes
  pub agent_id : Bytes
  pub action_type : Bytes
  pub target : Bytes

-- the switch of `issue`
unfoldable pub issue_error : Error → Response
issue_error Error.invalid_ttl = write_error 400 (text "invalid_ttl")
issue_error Error.unknown_agent = write_error 404 (text "unknown_agent")
issue_error _ = write_error 500 (text "internal")

unfoldable pub issued : Result Error (Token × Bytes × Bytes) → Response
unfolding issue_error
issued (err e) = issue_error e
issued (ok (tok, claims, sig)) = write_json 201 (
    (text "token_id", string tok.token_id)
    ∷ (text "claims_json", string claims)
    ∷ (text "signature_hex", string (hex_encode sig))
    ∷ [])

-- the switch of `verify`
unfoldable pub verify_error : Error → Response
verify_error Error.malformed_token = write_error 400 (text "malformed_token")
verify_error Error.invalid_signature = write_error 401 (text "invalid_signature")
verify_error Error.expired = write_error 403 (text "expired")
verify_error Error.revoked = write_error 403 (text "revoked")
verify_error Error.agent_mismatch = write_error 403 (text "agent_mismatch")
verify_error Error.action_type_not_allowed = write_error 403 (text "action_type_not_allowed")
verify_error Error.target_not_allowed = write_error 403 (text "target_not_allowed")
verify_error _ = write_error 500 (text "internal")

unfoldable pub verified : Result Error Token × List Rejection → Response × List Rejection
unfolding verify_error
verified (err e, calls) = (verify_error e, calls)
verified (ok tok, calls) =
    (write_json 200 ((text "ok", flag true) ∷ (text "token_id", string tok.token_id) ∷ []), calls)

module _ (svc : Service) where
  unfoldable pub issue_checked :
      Int64
      → Bytes
      → Result Keystore.Error MemoryEntry
      → Bytes
      → Option (List Bytes)
      → Option (List Bytes)
      → Int64
      → Response
  unfolding issued
  issue_checked now fresh_id store_get agent_id none targets ttl =
      write_error 400 (text "missing_field")
  issue_checked now fresh_id store_get agent_id (some types) none ttl =
      write_error 400 (text "missing_field")
  issue_checked now fresh_id store_get agent_id (some types) (some targets) ttl = issued (
      Capability.issue svc now fresh_id store_get (record {
        agent_id = agent_id;
        action_types = types;
        targets = targets;
        ttl_seconds = ttl;
      }))

  -- `issue`, with the answer of the key store for the agent
  unfoldable pub issue :
      Int64 → Bytes → Result Keystore.Error MemoryEntry → Option IssueBody → Response
  unfolding issue_checked
  issue now fresh_id store_get none = write_error 400 (text "invalid_json")
  issue now fresh_id store_get (some b) =
      if length b.agent_id == 0
      then write_error 400 (text "missing_field")
      else issue_checked now fresh_id store_get b.agent_id b.action_types b.targets b.ttl_seconds

  -- `verify`
  unfoldable pub verify : Int64 → Option VerifyBody → Response × List Rejection
  unfolding verified
  verify now none = (write_error 400 (text "invalid_json"), [])
  verify now (some b) =
      if length b.claims_json == 0 || length b.signature_hex == 0 || length b.agent_id == 0
      then (write_error 400 (text "missing_field"), [])
      else elim (hex_decode b.signature_hex) [
        | none ↦ (write_error 400 (text "invalid_signature_hex"), [])
        | some sig ↦ verified (
            Capability.verify svc now (record {
              claims_json = b.claims_json;
              signature = sig;
              agent_id = b.agent_id;
              action_type = b.action_type;
              target = b.target;
            }))
      ]

  -- `revoke`
  unfoldable pub revoke : Bytes → Response × Service
  revoke id =
      if length id == 0
      then (write_error 400 (text "missing_field"), svc)
      else (write_header 204, Capability.revoke_token svc id)

  -- `signingPubkey`
  unfoldable pub signing_pubkey : Response
  signing_pubkey =
      write_json 200
        ((text "public_key_hex", string (hex_encode (svc.crypto.public svc.sign_priv))) ∷ [])

-- ===== src/Http/Audit.antt =====
-- The append endpoint of go-key-service/internal/auditlog/http/handler.go, and the JSON of an event
-- (`MarshalJSON` of auditlog/pipeline.go and of `appendResponse`).
pub mod Statuses
pub mod Splice
use crypto_agent.Prelude.{
  ℕ, Bool, true, false, not, Option, none, some, List, [], ◌∷◌, ◌++◌, Bytes, text, length, ◌==◌,
  if◌then◌else◌, Result, ok, err,
}
use crypto_agent.Prelude.Hex.{hex_encode, hex_decode}
use crypto_agent.Action
use crypto_agent.Action.{Action}
use crypto_agent.Merkle.Hash.{Sha256}
use crypto_agent.Auditlog
use crypto_agent.Auditlog.{Kind, appended, rejected, Event, Pipeline, Env, Error, submit}
use crypto_agent.Http.{Value, string, number, flag, Response, write_json, write_error}

-- The fields of an action, as its JSON tags name them.
unfoldable pub action_fields : Option Action → List (Bytes × Value)
action_fields none = []
action_fields (some a) =
    (text "action.schema_version", number a.schema_version)
    ∷ (text "action.agent_id", string a.agent_id)
    ∷ (text "action.action_type", string a.action_type)
    ∷ (text "action.target", string a.target)
    ∷ (text "action.timestamp", number a.timestamp_ms)
    ∷ (text "action.nonce", string a.nonce)
    ∷ []

-- `omitempty`
unfoldable pub unless_empty : Bytes → Bytes → List (Bytes × Value)
unless_empty name value = if length value == 0 then [] else (name, string value) ∷ []

unfoldable pub kind_fields : Kind → Event → List (Bytes × Value)
unfolding action_fields unless_empty
kind_fields rejected e =
    (text "seq", number e.seq) ∷ (text "kind", string (text "rejected")) ∷ action_fields e.action
    ++ unless_empty (text "agent_id") e.agent_id
    ++ unless_empty (text "action_type") e.action_type
    ++ unless_empty (text "target") e.target
    ++ (text "reason", string e.reason) ∷ (text "recorded_at", number e.recorded_at) ∷ []
kind_fields appended e =
    (text "seq", number e.seq)
      ∷ (text "kind", string (text "appended"))
      ∷ (text "leaf_index", number e.leaf_index)
      ∷ (text "leaf_hash", string (hex_encode e.leaf_hash))
      ∷ action_fields e.action
    ++ (text "signature", string (hex_encode e.signature))
      ∷ (text "public_key", string (hex_encode e.public_key))
      ∷ (text "recorded_at", number e.recorded_at)
      ∷ []

-- `MarshalJSON`: the fields of the object, those of the action with their path
unfoldable pub event_fields : Event → List (Bytes × Value)
unfolding kind_fields
event_fields e = kind_fields e.kind e

-- `writePipelineError`. A failure of the key store may be a cancelled request; the store in memory has
-- none.
unfoldable pub write_pipeline_error : Bool → Error → Response
write_pipeline_error canceled Error.unknown_agent = write_error 404 (text "unknown_agent")
write_pipeline_error canceled (Error.invalid Action.Error.invalid_signature) =
    write_error 401 (text "invalid_signature")
write_pipeline_error canceled (Error.invalid Action.Error.bad_schema_version) =
    write_error 422 (text "schema_version")
write_pipeline_error canceled Error.timestamp_skew = write_error 422 (text "timestamp_skew")
write_pipeline_error canceled (Error.invalid Action.Error.empty_field) =
    write_error 400 (text "invalid_action")
write_pipeline_error canceled (Error.invalid Action.Error.nonce_shape) =
    write_error 400 (text "invalid_action")
write_pipeline_error canceled (Error.invalid Action.Error.invalid_key_length) =
    write_error 500 (text "internal")
write_pipeline_error canceled Error.store_failed =
    if canceled then write_error 408 (text "canceled") else write_error 500 (text "internal")
write_pipeline_error canceled (Error.append_failed e) = write_error 500 (text "internal")

-- what is made of the pipeline's answer
unfoldable pub answered : Bool → Result Error (Event × Bool) × Pipeline → Response × Pipeline
unfolding write_pipeline_error event_fields
answered canceled (err e, p) = (write_pipeline_error canceled e, p)
answered canceled (ok (e, is_fresh), p) =
    (write_json 200 (event_fields e ++ (text "idempotent", flag (not is_fresh)) ∷ []), p)

-- the signature is decoded, or could not be
unfoldable pub append_decoded :
    Sha256 → Env → Bool → Action → Option Bytes → Pipeline → Response × Pipeline
unfolding answered
append_decoded sha env canceled a none p = (write_error 400 (text "invalid_signature_hex"), p)
append_decoded sha env canceled a (some sig) p = answered canceled (submit sha env (some a) sig p)

-- `append`: the action and the signature's text, if the body is JSON
unfoldable pub append :
    Sha256 → Env → Bool → Option (Option Action × Bytes) → Pipeline → Response × Pipeline
unfolding append_decoded
append sha env canceled none p = (write_error 400 (text "invalid_json"), p)
append sha env canceled (some (none, signature)) p = (write_error 400 (text "missing_field"), p)
append sha env canceled (some (some a, signature)) p =
    append_decoded sha env canceled a (hex_decode signature) p

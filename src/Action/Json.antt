-- ===== src/Action/Json.antt =====
-- The bytes of `Canonical` (go-key-service/internal/action/action.go): the encoder that it calls, with the
-- keys in their order and without the newline. Signatures, and the leaves of the log, are over these.
use mathlib.Core.List.{append_assoc, append_cancel_left}
use crypto_agent.Prelude.{◌^◌, ◌<◌, ◌≡◌, sym, ◌∙◌, [], ◌∷◌, ◌++◌, Bytes, text}
use crypto_agent.Prelude.Json.{quote, format_int}
use crypto_agent.Prelude.Json.Prefix.{IsUtf8, quote-prefix, format_int-comma, format_int-brace}
use crypto_agent.Action.{Action}

-- the object of an action from a key on, in front of a text
abbrev from_timestamp : Action → Bytes → Bytes
from_timestamp a rest = text ",\"timestamp\":" ++ format_int a.timestamp_ms ++ b'}' ∷ rest

abbrev from_target : Action → Bytes → Bytes
from_target a rest = text "\"target\":" ++ quote a.target ++ from_timestamp a rest

abbrev from_schema_version : Action → Bytes → Bytes
from_schema_version a rest =
    text ",\"schema_version\":" ++ format_int a.schema_version ++ b',' ∷ from_target a rest

abbrev from_nonce : Action → Bytes → Bytes
from_nonce a rest = text ",\"nonce\":" ++ quote a.nonce ++ from_schema_version a rest

abbrev from_agent_id : Action → Bytes → Bytes
from_agent_id a rest = text ",\"agent_id\":" ++ quote a.agent_id ++ from_nonce a rest

unfoldable pub encode_onto : Action → Bytes → Bytes
encode_onto a rest = text "{\"action_type\":" ++ quote a.action_type ++ from_agent_id a rest

unfoldable pub encode : Action → Bytes
unfolding encode_onto
encode a = encode_onto a []

encode-onto : (a : Action) (r : Bytes) → encode a ++ r ≡ encode_onto a r
unfolding encode
encode-onto a r = simp append_assoc

-- The numbers of an action are int64 patterns, and its strings are valid UTF-8, which all strings are that
-- `encoding/json` decodes.
pub record IsEncodable (a : Action) : Type 0 where
  pub version_word : a.schema_version < 2 ^ 64
  pub time_word : a.timestamp_ms < 2 ^ 64
  pub action_type_utf8 : IsUtf8 a.action_type
  pub agent_id_utf8 : IsUtf8 a.agent_id
  pub nonce_utf8 : IsUtf8 a.nonce
  pub target_utf8 : IsUtf8 a.target

action_eq :
    (a b : Action)
    → a.schema_version ≡ b.schema_version
    → a.agent_id ≡ b.agent_id
    → a.action_type ≡ b.action_type
    → a.target ≡ b.target
    → a.timestamp_ms ≡ b.timestamp_ms
    → a.nonce ≡ b.nonce
    → a ≡ b
action_eq a b v i t g s n = λ k. record {
  schema_version = v k;
  agent_id = i k;
  action_type = t k;
  target = g k;
  timestamp_ms = s k;
  nonce = n k;
}

-- If the canonical bytes of two actions, whose numbers are int64 patterns and whose strings are valid
-- UTF-8, begin one text, the actions are equal, and so is what follows: every field is under the
-- signature, and no text can be read as two such actions.
pub encode-prefix :
    (a b : Action) (r u : Bytes)
    → IsEncodable a
    → IsEncodable b
    → encode a ++ r ≡ encode b ++ u
    → (a ≡ b) × (r ≡ u)
unfolding encode_onto
encode-prefix a b r u ha hb e =
    let whole = sym (encode-onto a r) ∙ e ∙ encode-onto b u in
    let (types, e1) =
      quote-prefix a.action_type b.action_type (from_agent_id a r) (from_agent_id b u)
        ha.action_type_utf8 hb.action_type_utf8
        (append_cancel_left (text "{\"action_type\":") (quote a.action_type ++ from_agent_id a r)
          (quote b.action_type ++ from_agent_id b u) whole) in
    let (agents, e2) =
      quote-prefix a.agent_id b.agent_id (from_nonce a r) (from_nonce b u) ha.agent_id_utf8
        hb.agent_id_utf8
        (append_cancel_left (text ",\"agent_id\":") (quote a.agent_id ++ from_nonce a r)
          (quote b.agent_id ++ from_nonce b u) e1) in
    let (nonces, e3) =
      quote-prefix a.nonce b.nonce (from_schema_version a r) (from_schema_version b u) ha.nonce_utf8
        hb.nonce_utf8
        (append_cancel_left (text ",\"nonce\":") (quote a.nonce ++ from_schema_version a r)
          (quote b.nonce ++ from_schema_version b u) e2) in
    let (versions, e4) =
      format_int-comma a.schema_version b.schema_version (from_target a r) (from_target b u)
        ha.version_word hb.version_word
        (append_cancel_left (text ",\"schema_version\":")
          (format_int a.schema_version ++ b',' ∷ from_target a r)
          (format_int b.schema_version ++ b',' ∷ from_target b u) e3) in
    let (targets, e5) =
      quote-prefix a.target b.target (from_timestamp a r) (from_timestamp b u) ha.target_utf8
        hb.target_utf8
        (append_cancel_left (text "\"target\":") (quote a.target ++ from_timestamp a r)
          (quote b.target ++ from_timestamp b u) e4) in
    let (times, rest) =
      format_int-brace a.timestamp_ms b.timestamp_ms r u ha.time_word hb.time_word (
        append_cancel_left (text ",\"timestamp\":") (format_int a.timestamp_ms ++ b'}' ∷ r)
          (format_int b.timestamp_ms ++ b'}' ∷ u) e5) in
    (action_eq a b versions agents types targets times nonces, rest)

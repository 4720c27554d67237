-- ===== src/Http.antt =====
-- The HTTP side of the key service: internal/httpapi/handlers.go and the handlers below
-- internal/auditlog, internal/capability, internal/anchor and internal/merkle. A handler is a function
-- from the decoded request and the state to the response and the new state. What `net/http`, `chi` and
-- `encoding/json` do with a request is an argument: a body that is not JSON is `none`.
pub mod Keys
pub mod Tokens
pub mod Audit
pub mod Roots
pub mod Server
pub mod Events
use crypto_agent.Prelude.{ℕ, Bool, List, Bytes}

pub data Value : Type 0 where
  string : Bytes → Value
  number : ℕ → Value
  flag : Bool → Value
  strings : List Bytes → Value

-- A body: none, an object, or an error's code, whose message is left out.
pub data Body : Type 0 where
  empty : Body
  object : List (Bytes × Value) → Body
  failure : Bytes → Body

pub record Response : Type 0 where
  pub status : ℕ
  pub body : Body

-- `writeJSON` and `writeError`
abbrev pub write_json : ℕ → List (Bytes × Value) → Response
write_json status fields = record { status = status; body = object fields }

abbrev pub write_error : ℕ → Bytes → Response
write_error status code = record { status = status; body = failure code }

abbrev pub write_header : ℕ → Response
write_header status = record { status = status; body = empty }

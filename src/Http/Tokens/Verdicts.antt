-- ===== src/Http/Tokens/Verdicts.antt =====
-- What the statuses of the token endpoints mean (capability/http/handler.go).
use crypto_agent.Prelude.{
  false, ◌||◌, some, List, Bytes, length, ◌==◌, Result, ok, err, ◌≡◌, ◌↔◌, refl, ap, ◌∙◌, arith,
}
use crypto_agent.Prelude.Hex.{hex_decode}
use crypto_agent.Prelude.Int64.{Int64}
use crypto_agent.Capability
use crypto_agent.Capability.{Service, Token, Rejection, VerifyRequest, Error, revoke_token}
use crypto_agent.Capability.Verdicts.{IsAuthorized, verify-ok_iff}
use crypto_agent.Http.{Response}
use crypto_agent.Http.Tokens.{VerifyBody, verify, verified, verify_error}

-- The request that the handler makes of a body and its decoded signature.
abbrev pub request_of : VerifyBody → Bytes → VerifyRequest
request_of b sig = record {
  claims_json = b.claims_json;
  signature = sig;
  agent_id = b.agent_id;
  action_type = b.action_type;
  target = b.target;
}

verified-ok :
    (r : Result Error Token × List Rejection)
    → (verified r).0.status ≡ 200
    → (tok : Token) × (r.0 ≡ ok tok)
unfolding verified verify_error
verified-ok (ok tok, calls) h = (tok, refl)
verified-ok (err Error.malformed_token, calls) h = absurd (omega (arith, h))
verified-ok (err Error.invalid_signature, calls) h = absurd (omega (arith, h))
verified-ok (err Error.expired, calls) h = absurd (omega (arith, h))
verified-ok (err Error.revoked, calls) h = absurd (omega (arith, h))
verified-ok (err Error.agent_mismatch, calls) h = absurd (omega (arith, h))
verified-ok (err Error.action_type_not_allowed, calls) h = absurd (omega (arith, h))
verified-ok (err Error.target_not_allowed, calls) h = absurd (omega (arith, h))
verified-ok (err Error.unknown_agent, calls) h = absurd (omega (arith, h))
verified-ok (err Error.invalid_ttl, calls) h = absurd (omega (arith, h))
verified-ok (err Error.store_failed, calls) h = absurd (omega (arith, h))

-- The three fields that a body must have are there.
pub IsFull : VerifyBody → Type 0
IsFull b =
    (length b.claims_json == 0 || length b.signature_hex == 0 || length b.agent_id == 0) ≡ false

verify-parts :
    (svc : Service) (now : Int64) (b : VerifyBody)
    → (verify svc now (some b)).0.status ≡ 200
    → IsFull b
      × ((sig : Bytes) × (hex_decode b.signature_hex ≡ some sig)
          × ((verified (Capability.verify svc now (request_of b sig))).0.status ≡ 200))
unfolding verify IsFull
verify-parts svc now b h = ground arith

verified_status :
    (r : Result Error Token × List Rejection) (tok : Token)
    → r.0 ≡ ok tok
    → (verified r).0.status ≡ 200
unfolding verified
verified_status (ok t, calls) tok h = refl
verified_status (err e, calls) tok h = absurd (cc h)

verify-whole :
    (svc : Service) (now : Int64) (b : VerifyBody) (sig : Bytes)
    → IsFull b
    → hex_decode b.signature_hex ≡ some sig
    → verify svc now (some b) ≡ verified (Capability.verify svc now (request_of b sig))
unfolding verify IsFull
verify-whole svc now b sig full decoded = rw (full, decoded) refl

-- What `verify` asks of a body to answer 200.
pub record IsAccepted (svc : Service) (now : Int64) (b : VerifyBody) : Type 0 where
  pub full : IsFull b
  pub sig : Bytes
  pub decoded : hex_decode b.signature_hex ≡ some sig
  pub tok : Token
  pub authorized : IsAuthorized svc now (request_of b sig) tok

-- `verify` answers 200 exactly for a body that has its fields, whose signature is hexadecimal text and
-- whose claims are a token that is authorized for the agent, the action type and the target of the body.
pub verify-status :
    (svc : Service) (now : Int64) (b : VerifyBody)
    → ((verify svc now (some b)).0.status ≡ 200) ↔ IsAccepted svc now b
verify-status svc now b = (
  (λ h.
      let (full, (sig, decoded, good)) = verify-parts svc now b h in
      let (tok, passed) = verified-ok (Capability.verify svc now (request_of b sig)) good in
      record {
        full = full;
        sig = sig;
        decoded = decoded;
        tok = tok;
        authorized = (verify-ok_iff svc now (request_of b sig) tok).0 passed;
      }),
  (λ h.
      ap (λ (r : Response × List Rejection). r.0.status)
        (verify-whole svc now b h.sig h.full h.decoded)
      ∙ verified_status (Capability.verify svc now (request_of b h.sig)) h.tok
          ((verify-ok_iff svc now (request_of b h.sig) h.tok).1 h.authorized)),
)

-- ===== src/Examples/Tokens.antt =====
-- The key store's and the capability service's theorems at one agent and one token.
use crypto_agent.Prelude.Sorting.{sort_strings}
use crypto_agent.Prelude.{
  true, false, some, [], ◌∷◌, text, ok, err, ◌≡◌, refl, arith, ◌↔◌, ◌&&◌, ◌+◌, ◌^◌, ltb, equal,
  if◌then◌else◌,
}
use crypto_agent.Prelude.Sorting.{has}
use crypto_agent.Examples.{toy_keys}
use crypto_agent.Keystore.{MemoryEntry, Memory}
use crypto_agent.Capability
use crypto_agent.Capability.{
  Token, Service, IssueRequest, VerifyRequest, canonical, issue, contains, expired,
}
use crypto_agent.Capability.Verdicts.{IsAuthorized, announced, verify-ok_iff, verify-announced}
use crypto_agent.Capability.Lifetime.{minted, presented, issue-verify}

abbrev pub entry : MemoryEntry
entry = record { pub_key = text "P"; priv = text "S" }

abbrev pub one_key : Memory
one_key = (text "a", entry) ∷ []

abbrev request : IssueRequest
request = record {
  agent_id = text "a";
  action_types = text "say" ∷ [];
  targets = text "*" ∷ [];
  ttl_seconds = 60;
}

abbrev pub token : Token
token = minted 1000 (text "id") request

abbrev pub service : Service
service = record {
  codec = record { encode = λ t. t.token_id; decode = λ b. some token };
  crypto = toy_keys;
  sign_priv = text "S";
  revocation = [];
  has_sink = true;
}

abbrev shown : VerifyRequest
shown = presented service token (text "say") (text "t")

verify-ok_iff_example :
    ((Capability.verify service 1001 shown).0 ≡ ok token) ↔ IsAuthorized service 1001 shown token
verify-ok_iff_example = verify-ok_iff service 1001 shown token

-- a request of another agent, which is denied
abbrev stolen : VerifyRequest
stolen = record shown { agent_id = text "b" }

verify-announced_example :
    (Capability.verify service 1001 stolen).1
    ≡ announced service stolen (Capability.verify service 1001 stolen).0
verify-announced_example = verify-announced service 1001 stolen

decoded : some token ≡ some (Capability.sorted token)
unfolding sort_strings
decoded = refl

unrevoked : Capability.is_revoked (text "id") [] ≡ false
unfolding Capability.is_revoked has
unrevoked = refl

has_type : contains (text "say" ∷ []) (text "say") ≡ true
unfolding contains has equal
has_type = refl

has_target : contains (text "*" ∷ []) (text "t") ≡ true
unfolding contains has equal
has_target = refl

issue-verify_example :
    (issue service 1000 (text "id") (ok entry) request
      ≡ ok (token, canonical service token, toy_keys.sign (text "S") (canonical service token)))
    × ((Capability.verify service 1030 shown).0 ≡ (
        if ltb (1000 + 60) (2 ^ 63) && ltb 1030 (1000 + 60)
        then ok (Capability.sorted token)
        else err expired))
issue-verify_example =
    issue-verify service 1000 1030 (text "id") entry request (text "say") (text "t") (omega arith)
      (omega arith) (omega arith) (omega arith) decoded unrevoked has_type has_target

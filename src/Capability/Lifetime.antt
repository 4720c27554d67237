-- ===== src/Capability/Lifetime.antt =====
-- A token from `Issue` on its way back to `Verify` (go-key-service/internal/capability/service.go).
use mathlib.Core.Path.{ap₂}
use crypto_agent.Prelude.{
  ◌+◌, ◌^◌, ◌<◌, ◌≡◌, ap, ◌∙◌, Bool, true, false, arith, some, Bytes, equal, equal_refl, ok, err,
  ltb, ◌&&◌, if◌then◌else◌, Bool-cases, inl, inr,
}
use crypto_agent.Prelude.Int64.{Int64, lt_int64, add_int64}
use crypto_agent.Prelude.Sorting.{sort_strings, sort_strings_idem, has-sort_strings}
use crypto_agent.Keystore.{MemoryEntry}
use crypto_agent.Capability.{
  Token, expired, contains, is_revoked, Service, IssueRequest, VerifyRequest, sorted, canonical,
  issue, allows, check, verify,
}
use crypto_agent.Capability.Verdicts.{verify-check}

contains-sort_strings : (want : Bytes) (xs : _) → contains (sort_strings xs) want ≡ contains xs want
unfolding contains
contains-sort_strings want xs = has-sort_strings _ xs

-- the token that `Issue` makes, and its way back
abbrev pub minted : Int64 → Bytes → IssueRequest → Token
minted now fresh_id req = record {
  token_id = fresh_id;
  agent_id = req.agent_id;
  action_types = req.action_types;
  targets = req.targets;
  issued_at = now;
  expires_at = add_int64 now req.ttl_seconds;
}

module _ (svc : Service) where
  -- signed and sent back as it was issued
  abbrev pub presented : Token → Bytes → Bytes → VerifyRequest
  presented tok action_type target = record {
    claims_json = canonical svc tok;
    signature = svc.crypto.sign svc.sign_priv (canonical svc tok);
    agent_id = tok.agent_id;
    action_type = action_type;
    target = target;
  }

  canonical-sorted : (tok : Token) → canonical svc (sorted tok) ≡ canonical svc tok
  unfolding canonical
  canonical-sorted tok =
      ap₂ (λ a b. svc.codec.encode (record tok { action_types = a; targets = b }))
        (sort_strings_idem tok.action_types) (sort_strings_idem tok.targets)

  issue-minted :
      (now : Int64) (fresh_id : Bytes) (entry : MemoryEntry) (req : IssueRequest)
      → 0 < req.ttl_seconds
      → req.ttl_seconds < 2 ^ 63
      → issue svc now fresh_id (ok entry) req
        ≡ ok (
          minted now fresh_id req,
          canonical svc (minted now fresh_id req),
          svc.crypto.sign svc.sign_priv (canonical svc (minted now fresh_id req)),
        )
  unfolding issue
  issue-minted now fresh_id entry req pos small = ground arith

  check-alive :
      (tok : Token) (t : Int64) (req : VerifyRequest)
      → svc.crypto.verify (svc.crypto.public svc.sign_priv) (canonical svc tok) req.signature ≡ true
      → is_revoked tok.token_id svc.revocation ≡ false
      → equal tok.agent_id req.agent_id ≡ true
      → contains tok.action_types req.action_type ≡ true
      → contains tok.targets req.target ≡ true
      → (check svc t req tok).0 ≡ (if lt_int64 t tok.expires_at then ok tok else err expired)
  unfolding check allows
  check-alive tok t req signed nr owner ha ht =
      rw (signed, nr, owner, ha, ht)
        (elim (Bool-cases (lt_int64 t tok.expires_at)) [ inl y ↦ rw y | inr n ↦ rw n ])

  back :
      (tok : Token) (t : Int64) (action_type target : Bytes)
      → svc.codec.decode (canonical svc tok) ≡ some (sorted tok)
      → is_revoked tok.token_id svc.revocation ≡ false
      → contains tok.action_types action_type ≡ true
      → contains tok.targets target ≡ true
      → (verify svc t (presented tok action_type target)).0
        ≡ (if lt_int64 t tok.expires_at then ok (sorted tok) else err expired)
  back tok t action_type target p nr ha ht =
      let req = presented tok action_type target in
      let signed : svc.crypto.verify (svc.crypto.public svc.sign_priv) (canonical svc (sorted tok))
            req.signature
          ≡ true =
        ap (λ c. svc.crypto.verify (svc.crypto.public svc.sign_priv) c req.signature)
          (canonical-sorted tok)
        ∙ svc.crypto.verify-sign svc.sign_priv (canonical svc tok) in
      ap (λ r. r.0) (verify-check svc t req (sorted tok) p)
      ∙ check-alive (sorted tok) t req signed nr (equal_refl tok.agent_id)
          (contains-sort_strings action_type tok.action_types ∙ ha)
          (contains-sort_strings target tok.targets ∙ ht)

  -- A token issued for a positive lifetime, to a known agent, comes back from `Verify` as issued,
  -- with its lists sorted, for an action and a target in its scope: until `now + ttl`, and never
  -- where that sum passes the largest int64, since then it has wrapped to a time long ago. The
  -- claims parse to what was encoded, and the token is not revoked.
  pub issue-verify :
      (now t : Int64) (fresh_id : Bytes) (entry : MemoryEntry) (req : IssueRequest)
      (action_type target : Bytes)
      → 0 < req.ttl_seconds
      → req.ttl_seconds < 2 ^ 63
      → now < 2 ^ 63
      → t < 2 ^ 63
      → svc.codec.decode (canonical svc (minted now fresh_id req))
        ≡ some (sorted (minted now fresh_id req))
      → is_revoked fresh_id svc.revocation ≡ false
      → contains req.action_types action_type ≡ true
      → contains req.targets target ≡ true
      → (issue svc now fresh_id (ok entry) req
          ≡ ok (
            minted now fresh_id req,
            canonical svc (minted now fresh_id req),
            svc.crypto.sign svc.sign_priv (canonical svc (minted now fresh_id req)),
          ))
        × ((verify svc t (presented (minted now fresh_id req) action_type target)).0 ≡ (
            if ltb (now + req.ttl_seconds) (2 ^ 63) && ltb t (now + req.ttl_seconds)
            then ok (sorted (minted now fresh_id req))
            else err expired))
  issue-verify now t fresh_id entry req action_type target pos small hn ht p nr ha hg =
      let tok = minted now fresh_id req in
      let lifetime : lt_int64 t tok.expires_at
          ≡ (ltb (now + req.ttl_seconds) (2 ^ 63) && ltb t (now + req.ttl_seconds)) =
        ground arith in
      (
        issue-minted now fresh_id entry req pos small,
        back tok t action_type target p nr ha hg
            ∙ ap (λ (b : Bool). if b then ok (sorted tok) else err expired) lifetime,
      )

-- ===== src/KeyServer/World/Revocation.antt =====
-- What a revocation does to the verify endpoint (capability/http/handler.go and the token service).
use mathlib.Core.Path.{subst}
use crypto_agent.Prelude.{
  ℕ, ◌/◌, true, false, some, some-inj, List, [], ◌∷◌, Bytes, length, ◌==◌, ◌≡◌, ◌≢◌, refl, sym, ap,
  ◌∙◌, arith, Bool-cases, inl, inr,
}
use crypto_agent.Action.{Action}
use crypto_agent.Keys.{Ed25519}
use crypto_agent.Merkle.Hash.{Sha256}
use crypto_agent.Capability
use crypto_agent.Capability.{Service, Token, Codec, is_revoked}
use crypto_agent.Capability.Verdicts.{revoke-kept, revoke_self}
use crypto_agent.Http.Tokens
use crypto_agent.Http.Tokens.{VerifyBody}
use crypto_agent.Http.Tokens.Verdicts.{IsAccepted, verify-status}
use crypto_agent.KeyServer.World.{
  World, Request, create_key, create_agent, get_key, get_agent_pub_key, list_keys, delete_key,
  merkle_head, latest_anchor, append_action, issue_token, verify_token, revoke_token,
  signing_pubkey, serve, serve_all,
}

-- The service reads claims with this codec, and the token is revoked.
Bars : Codec → Bytes → Service → Type 0
Bars codec id svc = (svc.codec ≡ codec) × (is_revoked id svc.revocation ≡ true)

revoke-Bars :
    (codec : Codec) (id j : Bytes) (svc : Service)
    → Bars codec id svc
    → Bars codec id (Tokens.revoke svc j).1
unfolding Bars Tokens.revoke Capability.revoke_token
revoke-Bars codec id j svc (same, h) = elim (Bool-cases (length j == 0)) [
  | inl empty ↦ rw empty (same, h)
  | inr full ↦ rw full (same, revoke-kept id j svc.revocation h)
]

revoke_self-Bars :
    (id : Bytes) (svc : Service) → id ≢ [] → Bars svc.codec id (Tokens.revoke svc id).1
unfolding Bars Tokens.revoke Capability.revoke_token
revoke_self-Bars [] svc h = absurd (h refl)
revoke_self-Bars (c ∷ id) svc h =
    let full : (length (c ∷ id) == 0) ≡ false = ground arith in
    rw full (refl, revoke_self (c ∷ id) svc.revocation)

module _ (sha : Sha256) (crypto : Ed25519) (encode : Action → Bytes) where
  serve-Bars :
      (now later : ℕ) (codec : Codec) (id : Bytes) (r : Request) (w : World)
      → Bars codec id w.service
      → Bars codec id (serve sha crypto encode now later r w).1.service
  unfolding serve
  serve-Bars now later codec id (create_key j generated) w h = h
  serve-Bars now later codec id (create_agent j generated) w h = h
  serve-Bars now later codec id (get_agent_pub_key j) w h = h
  serve-Bars now later codec id (get_key j) w h = h
  serve-Bars now later codec id list_keys w h = h
  serve-Bars now later codec id (delete_key j) w h = h
  serve-Bars now later codec id merkle_head w h = h
  serve-Bars now later codec id latest_anchor w h = h
  serve-Bars now later codec id (append_action body fate canceled) w h = h
  serve-Bars now later codec id (issue_token body fresh_id) w h = h
  serve-Bars now later codec id (verify_token body) w h = h
  serve-Bars now later codec id (revoke_token j) w h = revoke-Bars codec id j w.service h
  serve-Bars now later codec id signing_pubkey w h = h

  serve_all-Bars :
      (codec : Codec) (id : Bytes) (requests : List (ℕ × ℕ × Request)) (w : World)
      → Bars codec id w.service
      → Bars codec id (serve_all sha crypto encode requests w).service
  unfolding serve_all
  serve_all-Bars codec id [] w h = h
  serve_all-Bars codec id ((now, later, r) ∷ requests) w h =
      serve_all-Bars codec id requests (serve sha crypto encode now later r w).1
        (serve-Bars now later codec id r w h)

  Bars-IsAccepted :
      (svc : Service) (codec : Codec) (now : ℕ) (b : VerifyBody) (tok : Token)
      → Bars codec tok.token_id svc
      → codec.decode b.claims_json ≡ some tok
      → ¬ (IsAccepted svc now b)
  unfolding Bars
  Bars-IsAccepted svc codec now b tok (same, revoked) claims h =
      let one : tok ≡ h.tok = some-inj (
        sym claims ∙ ap (λ (c : Codec). c.decode b.claims_json) (sym same) ∙ h.authorized.parsed) in
      let alike = ap (λ (t : Token). is_revoked t.token_id svc.revocation) one in
      absurd (cc (revoked, alike, h.authorized.not_revoked))

  -- After a request to revoke a token by its id, which is not empty, and any other requests, the verify
  -- endpoint does not answer 200 to a body whose claims read as that token.
  pub revoked_token :
      (now later : ℕ) (tok : Token) (requests : List (ℕ × ℕ × Request)) (w u : World) (at after : ℕ)
      (b : VerifyBody)
      → tok.token_id ≢ []
      → w.service.codec.decode b.claims_json ≡ some tok
      → u
        ≡ serve_all sha crypto encode requests
            (serve sha crypto encode now later (revoke_token tok.token_id) w).1
      → (serve sha crypto encode at after (verify_token (some b)) u).0.status ≢ 200
  unfolding serve
  revoked_token now later tok requests w u at after b named claims reached good =
      let barred : Bars w.service.codec tok.token_id u.service =
        subst (λ (x : World). Bars w.service.codec tok.token_id x.service) (sym reached)
          (serve_all-Bars w.service.codec tok.token_id requests _
            (revoke_self-Bars tok.token_id w.service named)) in
      Bars-IsAccepted u.service w.service.codec (at / 1_000_000_000) b tok barred claims
        ((verify-status u.service (at / 1_000_000_000) b).0 good)

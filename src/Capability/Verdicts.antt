-- ===== src/Capability/Verdicts.antt =====
-- What `Verify` decides (go-key-service/internal/capability/service.go).
use crypto_agent.Prelude.{
  ℕ, zero, suc, get_elem?, some-inj, ◌⊎◌, Bool-cases, ◌≡◌, ◌≢◌, sym, ap, ◌∙◌, ◌↔◌, true, false,
  arith, none, some, List, [], ◌∷◌, Bytes, text, equal, equal_iff, equal_refl, if◌then◌else◌,
  Result, ok, err, Option-cases, inl, inr,
}
use crypto_agent.Prelude.Int64.{Int64, lt_int64}
use crypto_agent.Prelude.Sorting.{has}
use crypto_agent.Capability.{
  Token, RevocationStore, Error, malformed_token, invalid_signature, expired, revoked,
  agent_mismatch, action_type_not_allowed, target_not_allowed, unknown_agent, invalid_ttl,
  store_failed, contains, is_revoked, revoke, Service, VerifyRequest, Rejection, canonical, allows,
  emit_rejection, check, verify, revoke_token,
}

-- A list of a token covers a wanted string: at some place stands the wildcard, or the string itself.
abbrev pub Covers : List Bytes → Bytes → Type 0
Covers list want = (i : ℕ) × ((get_elem? list i ≡ some (text "*")) ⊎ (get_elem? list i ≡ some want))

contains-Covers : (list : List Bytes) (want : Bytes) → contains list want ≡ true → Covers list want
unfolding contains has
contains-Covers [] want e = absurd (cc e)
contains-Covers (x ∷ xs) want e = elim (Bool-cases (equal x (text "*"))) [
  | inl star ↦ (0, inl (ap some ((equal_iff x (text "*")).0 star)))
  | inr plain ↦ elim (Bool-cases (equal x want)) [
    | inl same ↦ (0, inr (ap some ((equal_iff x want).0 same)))
    | inr other ↦ let (i, h) = contains-Covers xs want (rw (plain, other) at e) in (suc i, h)
  ]
]

Covers-contains : (list : List Bytes) (want : Bytes) → Covers list want → contains list want ≡ true
unfolding contains has
Covers-contains [] want (i, inl star) = absurd (cc star)
Covers-contains [] want (i, inr same) = absurd (cc same)
Covers-contains (x ∷ xs) want (zero, inl star) =
    ground (arith, (equal_iff x (text "*")).1 (some-inj star))
Covers-contains (x ∷ xs) want (zero, inr same) =
    ground (arith, (equal_iff x want).1 (some-inj same))
Covers-contains (x ∷ xs) want (suc i, h) = ground (arith, Covers-contains xs want (i, h))

-- Everything that an accepted token satisfies.
pub record IsAuthorized (svc : Service) (now : Int64) (req : VerifyRequest) (tok : Token)
    : Type 0 where
  pub parsed : svc.codec.decode req.claims_json ≡ some tok
  pub signed :
      svc.crypto.verify (svc.crypto.public svc.sign_priv) (canonical svc tok) req.signature ≡ true
  pub alive : lt_int64 now tok.expires_at ≡ true
  pub not_revoked : is_revoked tok.token_id svc.revocation ≡ false
  pub owned : tok.agent_id ≡ req.agent_id
  pub action_allowed : Covers tok.action_types req.action_type
  pub target_allowed : Covers tok.targets req.target

-- The stable code that goes with each denial of `Verify`.
abbrev pub reason : Error → Bytes
reason malformed_token = text "malformed_token"
reason invalid_signature = text "invalid_signature"
reason expired = text "expired"
reason revoked = text "revoked"
reason agent_mismatch = text "agent_mismatch"
reason action_type_not_allowed = text "action_type_not_allowed"
reason target_not_allowed = text "target_not_allowed"
reason unknown_agent = text ""
reason invalid_ttl = text ""
reason store_failed = text ""

-- The calls of the sink that go with a verdict: where there is a sink, a denial is one call, with the
-- request's agent, action type and target and the stable code; without one, and for a pass, none.
abbrev pub announced : Service → VerifyRequest → Result Error Token → List Rejection
announced svc req (ok tok) = []
announced svc req (err e) =
    if svc.has_sink
    then record {
      agent_id = req.agent_id;
      action_type = req.action_type;
      target = req.target;
      reason = reason e;
    }
      ∷ []
    else []

module _ (svc : Service) (now : Int64) (req : VerifyRequest) where
  check_sound :
      (tok tok' : Token)
      → svc.codec.decode req.claims_json ≡ some tok
      → (check svc now req tok).0 ≡ ok tok'
      → IsAuthorized svc now req tok'
  unfolding check allows
  check_sound tok tok' p e =
      let same : tok ≡ tok' = ground arith in
      let owner : equal tok.agent_id req.agent_id ≡ true = ground arith in
      rw (← same) (record {
        parsed = p;
        signed = ground arith;
        alive = ground arith;
        not_revoked = ground arith;
        owned = (equal_iff tok.agent_id req.agent_id).0 owner;
        action_allowed = contains-Covers tok.action_types req.action_type (ground arith);
        target_allowed = contains-Covers tok.targets req.target (ground arith);
      })

  pub verify-check :
      (tok : Token)
      → svc.codec.decode req.claims_json ≡ some tok
      → verify svc now req ≡ check svc now req tok
  unfolding verify
  verify-check tok p = rw (p, verify)

  verify-malformed :
      svc.codec.decode req.claims_json ≡ none
      → verify svc now req ≡ (err malformed_token, emit_rejection svc req (reason malformed_token))
  unfolding verify
  verify-malformed p = rw (p, verify)

  check_complete : (tok : Token) → IsAuthorized svc now req tok → (check svc now req tok).0 ≡ ok tok
  unfolding check
  check_complete tok a =
      let owner : equal tok.agent_id req.agent_id ≡ true =
        (equal_iff tok.agent_id req.agent_id).1 a.owned in
      rw (
        a.signed,
        a.alive,
        a.not_revoked,
        owner,
        Covers-contains tok.action_types req.action_type a.action_allowed,
        Covers-contains tok.targets req.target a.target_allowed,
      )

  check-announced :
      (tok : Token) → (check svc now req tok).1 ≡ announced svc req (check svc now req tok).0
  unfolding check emit_rejection
  check-announced tok = ground arith

  -- `Verify` accepts a request with a token exactly if the claims parse to that token, its
  -- signature verifies, it has not expired and is not revoked, it belongs to the request's agent,
  -- and its lists have the wildcard or the request's action type, and the wildcard or its target.
  pub verify-ok_iff :
      (tok : Token) → ((verify svc now req).0 ≡ ok tok) ↔ IsAuthorized svc now req tok
  verify-ok_iff tok = (
    λ e. elim (Option-cases (svc.codec.decode req.claims_json)) [
      | inl p ↦ absurd (cc (e, verify-malformed p))
      | inr (tok', p) ↦ check_sound tok' tok p (ap (λ r. r.0) (sym (verify-check tok' p)) ∙ e)
    ],
    λ a. ap (λ r. r.0) (verify-check tok a.parsed) ∙ check_complete tok a,
  )

  -- Where the service has a sink, every denial of `Verify` is one call of it, with the request's agent,
  -- action type and target and the denial's stable code; a pass, and a service without a sink, make none.
  pub verify-announced : (verify svc now req).1 ≡ announced svc req (verify svc now req).0
  unfolding emit_rejection
  verify-announced = elim (Option-cases (svc.codec.decode req.claims_json)) [
    | inl p ↦ rw (verify-malformed p, emit_rejection)
    | inr (tok, p) ↦ rw (verify-check tok p) (check-announced tok)
  ]

pub revoke-kept :
    (id j : Bytes) (ids : RevocationStore)
    → is_revoked id ids ≡ true
    → is_revoked id (revoke j ids) ≡ true
unfolding is_revoked revoke has
revoke-kept id j ids e = ground arith

pub revoke_self : (id : Bytes) (ids : RevocationStore) → is_revoked id (revoke id ids) ≡ true
unfolding is_revoked revoke has
revoke_self id ids = ground (arith, equal_refl id)

-- the service behind a list of revocations, the first made first
abbrev pub revoke_all : List Bytes → Service → Service
revoke_all [] svc = svc
revoke_all (id ∷ ids) svc = revoke_all ids (revoke_token svc id)

revoke_all-kept :
    (ids : List Bytes) (id : Bytes) (svc : Service)
    → is_revoked id svc.revocation ≡ true
    → is_revoked id (revoke_all ids svc).revocation ≡ true
unfolding revoke_token
revoke_all-kept [] id svc e = e
revoke_all-kept (j ∷ ids) id svc e =
    revoke_all-kept ids id (revoke_token svc j) (revoke-kept id j svc.revocation e)

-- Once a token id is revoked, no token with it is accepted again, whatever is revoked later and
-- whatever the time and the request are.
pub revoke_is_final :
    (svc : Service) (id : Bytes) (later : List Bytes) (now : Int64) (req : VerifyRequest)
    (tok : Token)
    → tok.token_id ≡ id
    → (verify (revoke_all later (revoke_token svc id)) now req).0 ≢ ok tok
unfolding revoke_token
revoke_is_final svc id later now req tok same e =
    let after = revoke_all later (revoke_token svc id) in
    let a = (verify-ok_iff after now req tok).0 e in
    let kept = revoke_all-kept later id (revoke_token svc id) (revoke_self id svc.revocation) in
    cc (a.not_revoked, ap (λ i. is_revoked i after.revocation) same, kept)

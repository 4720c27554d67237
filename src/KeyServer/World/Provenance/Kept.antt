-- ===== src/KeyServer/World/Provenance/Kept.antt =====
-- Every request keeps the key store good, the log in step with the tree, and each leaf vouched for
-- (httpapi/handlers.go, auditlog/http/handler.go, auditlog/pipeline.go).
use crypto_agent.Prelude.{
  ℕ, ◌/◌, Bool, Option, none, some, List, [], ◌∷◌, ◌++◌, Bytes, length, some-inj, ok, err, ◌≡◌,
  refl, sym, ap, ◌∙◌, All,
}
use mathlib.Core.Path.{subst}
use crypto_agent.Prelude.Hex.{hex_decode}
use crypto_agent.Action.{Action}
use crypto_agent.Action.Json.{encode, IsEncodable}
use crypto_agent.Keys.{Ed25519}
use crypto_agent.Keystore.{Memory}
use crypto_agent.Merkle.Hash.{Sha256, hash_leaf}
use crypto_agent.Merkle.Tree.{WriteFate}
use crypto_agent.Capability.{Rejection}
use crypto_agent.Auditlog.{
  Pipeline, Env, Event, Answer, record_rejection, rejected, appended_event, check_action, submit,
}
use crypto_agent.Auditlog.Replay.{check_action-ok, check_agent-ok}
use crypto_agent.Auditlog.Coherence.{IsCoherent, submit-IsCoherent, Step-IsCoherent, records}
use crypto_agent.Auditlog.Provenance.{Anywhere, submit-All, record_rejection-All}
use crypto_agent.Http.Tokens
use crypto_agent.Http.Audit.{append, append_decoded, answered}
use crypto_agent.KeyServer.World.{
  World, Request, create_key, create_agent, get_key, get_agent_pub_key, list_keys, delete_key,
  merkle_head, latest_anchor, append_action, issue_token, verify_token, revoke_token,
  signing_pubkey, serve, serve_all, env_of, record_all,
}
use crypto_agent.KeyServer.World.Provenance.Store.{
  handle_create-IsGoodStore, handle_agents-IsGoodStore, delete-IsGoodStore, get-lookup,
}
use crypto_agent.KeyServer.World.Provenance.{Vouched, IsGoodStore, Brings}

answered-same : (canceled : Bool) (r : Answer) → (answered canceled r).1 ≡ r.1
unfolding answered
answered-same canceled (err e, p) = refl
answered-same canceled (ok (e, is_fresh), p) = refl

append_decoded-keeps :
    (Q : Pipeline → Type 0) (sha : Sha256) (env : Env) (canceled : Bool) (a : Action)
    (decoded : Option Bytes) (p : Pipeline)
    → Q p
    → ((sig : Bytes) → Q (submit sha env (some a) sig p).1)
    → Q (append_decoded sha env canceled a decoded p).1
unfolding append_decoded
append_decoded-keeps Q sha env canceled a none p h k = h
append_decoded-keeps Q sha env canceled a (some sig) p h k =
    subst Q (sym (answered-same canceled (submit sha env (some a) sig p))) (k sig)

-- What the endpoint keeps, if `Submit` keeps it.
pub append-keeps :
    (Q : Pipeline → Type 0) (sha : Sha256) (env : Env) (canceled : Bool)
    (body : Option (Option Action × Bytes)) (p : Pipeline)
    → Q p
    → ((a : Action) (signature sig : Bytes)
        → body ≡ some (some a, signature)
        → Q (submit sha env (some a) sig p).1)
    → Q (append sha env canceled body p).1
unfolding append
append-keeps Q sha env canceled none p h k = h
append-keeps Q sha env canceled (some (none, signature)) p h k = h
append-keeps Q sha env canceled (some (some a, signature)) p h k =
    append_decoded-keeps Q sha env canceled a (hex_decode signature) p h
      (λ sig. k a signature sig refl)

pub record_all-keeps :
    (Q : Pipeline → Type 0)
    → ((at : ℕ) (agent_id action_type target reason : Bytes) (p : Pipeline)
        → Q p
        → Q (record_rejection at agent_id action_type target reason p))
    → (at : ℕ) (rs : List Rejection) (p : Pipeline) → Q p
    → Q (record_all at rs p)
unfolding record_all
record_all-keeps Q step at [] p h = h
record_all-keeps Q step at (r ∷ rs) p h =
    record_all-keeps Q step at rs (record_rejection at r.agent_id r.action_type r.target r.reason p)
      (step at r.agent_id r.action_type r.target r.reason p h)

-- The log goes with the tree, and every leaf of the log is vouched for.
pub record IsVouchedLog (sha : Sha256) (crypto : Ed25519) (Good : Bytes → Bytes → Type 0)
    (base : List Bytes) (p : Pipeline) : Type 0 where
  pub coherent : IsCoherent base p
  pub vouched : All (Vouched sha crypto Good) p.events

-- The store is good, and the log is vouched for.
pub record IsSound (sha : Sha256) (crypto : Ed25519) (Good : Bytes → Bytes → Type 0)
    (base : List Bytes) (w : World) : Type 0 where
  pub good_store : IsGoodStore Good w.store
  pub log : IsVouchedLog sha crypto Good base w.pipeline

module _ (sha : Sha256) (crypto : Ed25519) (Good : Bytes → Bytes → Type 0) where
  denied-Vouched : (e : Event) → e.kind ≡ rejected → Vouched sha crypto Good e
  denied-Vouched e r a = absurd (cc (r, a))

  checked-Vouched :
      (now later : ℕ) (fate : WriteFate) (m : Memory) (a : Action) (sig canon pub_key : Bytes)
      → IsGoodStore Good m
      → IsEncodable a
      → check_action (env_of sha crypto encode now later fate m) a sig ≡ ok (canon, pub_key)
      → Anywhere (Vouched sha crypto Good) (appended_event sha now a sig pub_key (canon ++ sig) 0)
  unfolding IsGoodStore
  checked-Vouched now later fate m a sig canon pub_key good word h seq idx _ =
      let env = env_of sha crypto encode now later fate m in
      let (_, _, agent) = check_action-ok env a sig (canon, pub_key) h in
      let (entry, registered, key_size, signed, found) =
        check_agent-ok env a sig (canon, pub_key) agent in
      let same : pub_key ≡ entry.pub_key = ap (λ (f : Bytes × Bytes). f.1) found in
      record {
        signed_action = a;
        told = refl;
        word = word;
        hashed = ap (λ (f : Bytes × Bytes). hash_leaf ⦃sha = sha⦄ (f.0 ++ sig)) found;
        key_size = ap length same ∙ key_size;
        verified = ap (λ k. crypto.verify k (encode a) sig) same ∙ signed;
        good =
            subst (λ k. Good a.agent_id k) (sym same)
              (good a.agent_id entry (get-lookup a.agent_id m entry registered));
      }

  submit-IsVouchedLog :
      (now later : ℕ) (fate : WriteFate) (m : Memory) (base : List Bytes) (a : Action) (sig : Bytes)
      (p : Pipeline)
      → IsGoodStore Good m
      → IsEncodable a
      → IsVouchedLog sha crypto Good base p
      → IsVouchedLog sha crypto Good base
          (submit sha (env_of sha crypto encode now later fate m) (some a) sig p).1
  submit-IsVouchedLog now later fate m base a sig p good word h =
      let env = env_of sha crypto encode now later fate m in
      record {
        coherent = submit-IsCoherent base sha env (some a) sig p h.coherent;
        vouched =
            submit-All (Vouched sha crypto Good) denied-Vouched sha env (some a) sig p
              (λ b canon pub_key same k.
                checked-Vouched now later fate m b sig canon pub_key good
                  (subst IsEncodable (some-inj same) word) k)
              h.vouched;
      }

  records-IsVouchedLog :
      (base : List Bytes) (at : ℕ) (agent_id action_type target reason : Bytes) (p : Pipeline)
      → IsVouchedLog sha crypto Good base p
      → IsVouchedLog sha crypto Good base (record_rejection at agent_id action_type target reason p)
  records-IsVouchedLog base at agent_id action_type target reason p h = record {
    coherent =
        Step-IsCoherent base sha p _ (records at agent_id action_type target reason p) h.coherent;
    vouched =
        record_rejection-All (Vouched sha crypto Good) denied-Vouched at agent_id action_type target
          reason p h.vouched;
  }

  append-IsVouchedLog :
      (now later : ℕ) (fate : WriteFate) (canceled : Bool) (m : Memory) (base : List Bytes)
      (body : Option (Option Action × Bytes)) (p : Pipeline)
      → IsGoodStore Good m
      → Brings Good (append_action body fate canceled)
      → IsVouchedLog sha crypto Good base p
      → IsVouchedLog sha crypto Good base
          (append sha (env_of sha crypto encode now later fate m) canceled body p).1
  unfolding Brings
  append-IsVouchedLog now later fate canceled m base body p good word h =
      append-keeps (IsVouchedLog sha crypto Good base) sha
        (env_of sha crypto encode now later fate m) canceled body p h
        (λ a signature sig same.
          submit-IsVouchedLog now later fate m base a sig p good
            (subst (λ b. Brings Good (append_action b fate canceled)) same word) h)

  serve-IsSound :
      (now later : ℕ) (base : List Bytes) (r : Request) (w : World)
      → Brings Good r
      → IsSound sha crypto Good base w
      → IsSound sha crypto Good base (serve sha crypto encode now later r w).1
  unfolding serve
  serve-IsSound now later base (create_key id generated) w b h = record {
    good_store = handle_create-IsGoodStore Good id generated w.store b h.good_store;
    log = h.log;
  }
  serve-IsSound now later base (create_agent id generated) w b h = record {
    good_store = handle_agents-IsGoodStore Good id generated w.store b h.good_store;
    log = h.log;
  }
  serve-IsSound now later base (get_agent_pub_key j) w b h = h
  serve-IsSound now later base (get_key j) w b h = h
  serve-IsSound now later base list_keys w b h = h
  serve-IsSound now later base (delete_key j) w b h = record {
    good_store = delete-IsGoodStore Good j w.store h.good_store;
    log = h.log;
  }
  serve-IsSound now later base merkle_head w b h = h
  serve-IsSound now later base latest_anchor w b h = h
  serve-IsSound now later base (append_action body fate canceled) w b h = record {
    good_store = h.good_store;
    log =
        append-IsVouchedLog now later fate canceled w.store base body w.pipeline h.good_store b
          h.log;
  }
  serve-IsSound now later base (issue_token body fresh_id) w b h = record {
    good_store = h.good_store;
    log = h.log;
  }
  serve-IsSound now later base (verify_token body) w b h = record {
    good_store = h.good_store;
    log =
        record_all-keeps (IsVouchedLog sha crypto Good base) (records-IsVouchedLog base) later
          (Tokens.verify w.service (now / 1_000_000_000) body).1 w.pipeline h.log;
  }
  serve-IsSound now later base (revoke_token j) w b h = record {
    good_store = h.good_store;
    log = h.log;
  }
  serve-IsSound now later base signing_pubkey w b h = h

  pub serve_all-IsSound :
      (base : List Bytes) (requests : List (ℕ × ℕ × Request)) (w : World)
      → All (λ (r : ℕ × ℕ × Request). Brings Good r.2) requests
      → IsSound sha crypto Good base w
      → IsSound sha crypto Good base (serve_all sha crypto encode requests w)
  unfolding serve_all
  serve_all-IsSound base [] w b h = h
  serve_all-IsSound base ((now, later, r) ∷ requests) w (b, bs) h =
      serve_all-IsSound base requests (serve sha crypto encode now later r w).1 bs
        (serve-IsSound now later base r w b h)

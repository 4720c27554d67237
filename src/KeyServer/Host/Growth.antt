-- ===== src/KeyServer/Host/Growth.antt =====
-- The log of the running server only grows: what a request or a pass of the committer leaves of its
-- leaves are all of them, in front (auditlog/pipeline.go, httpapi/handlers.go).
use crypto_agent.Prelude.{
  get_elem?, get_elem?-append, some, ℕ, ◌≤◌, ◌/◌, true, false, some, List, [], ◌∷◌, ◌++◌, Bytes,
  length, take, ok, err, ◌≡◌, sym, ap, ◌∙◌, arith, length-append, take-append,
}
use mathlib.Core.List.{append_assoc, append-nil}
use crypto_agent.Action.{Action}
use crypto_agent.Keys.{Ed25519}
use crypto_agent.Merkle.Hash.{Sha256}
use crypto_agent.Auditlog.{Pipeline, Env, Answer, submit, record_rejection, publish}
use crypto_agent.Http.Audit.Statuses.{Adds, submit-Adds}
use crypto_agent.Http.Tokens
use crypto_agent.Anchor.{EvmClient}
use crypto_agent.KeyServer.World.{
  World, Request, create_key, create_agent, get_key, get_agent_pub_key, list_keys, delete_key,
  merkle_head, latest_anchor, append_action, issue_token, verify_token, revoke_token,
  signing_pubkey, serve, env_of,
}
use crypto_agent.KeyServer.World.Provenance.Kept.{append-keeps, record_all-keeps}
use crypto_agent.KeyServer.Host.{Host, Event, request, pass, happen, happen_all}

-- the leaves `ls` are the first ones of `ks`
pub Extends : List Bytes → List Bytes → Type 0
Extends ls ks = (more : List Bytes) × (ks ≡ ls ++ more)

pub Extends-self : (ls : List Bytes) → Extends ls ls
unfolding Extends
Extends-self ls = ([], sym (append-nil ls))

Extends-same : (ls ks js : List Bytes) → Extends ls ks → js ≡ ks → Extends ls js
unfolding Extends
Extends-same ls ks js (more, q) same = (more, same ∙ q)

Extends-more : (ls ks js more : List Bytes) → Extends ls ks → js ≡ ks ++ more → Extends ls js
unfolding Extends
Extends-more ls ks js more (front, q) r =
    (front ++ more, r ∙ ap (λ l. l ++ more) q ∙ append_assoc ls front more)

Adds-Extends :
    (ls : List Bytes) (p : Pipeline) (r : Answer)
    → Adds p r
    → Extends ls p.tree.leaves
    → Extends ls r.1.tree.leaves
unfolding Adds
Adds-Extends ls p (ok (e, true), q) h x =
    Extends-more ls p.tree.leaves q.tree.leaves (e.leaf_hash ∷ []) x h
Adds-Extends ls p (ok (e, false), q) h x = Extends-same ls p.tree.leaves q.tree.leaves x h
Adds-Extends ls p (err y, q) h x = Extends-same ls p.tree.leaves q.tree.leaves x h

abbrev pub LogExtends : List Bytes → Pipeline → Type 0
LogExtends ls p = Extends ls p.tree.leaves

record_rejection-LogExtends :
    (ls : List Bytes) (at : ℕ) (agent_id action_type target reason : Bytes) (p : Pipeline)
    → LogExtends ls p
    → LogExtends ls (record_rejection at agent_id action_type target reason p)
unfolding record_rejection publish
record_rejection-LogExtends ls at agent_id action_type target reason p h = h

submit-LogExtends :
    (ls : List Bytes) (sha : Sha256) (env : Env) (a : Action) (sig : Bytes) (p : Pipeline)
    → LogExtends ls p
    → LogExtends ls (submit sha env (some a) sig p).1
submit-LogExtends ls sha env a sig p h =
    Adds-Extends ls p (submit sha env (some a) sig p) (submit-Adds sha env a sig p) h

pub Extends-get_elem? :
    (ls ks : List Bytes) (i : ℕ) (x : Bytes)
    → Extends ls ks
    → get_elem? ls i ≡ some x
    → get_elem? ks i ≡ some x
unfolding Extends
Extends-get_elem? ls ks i x (more, q) h = ap (λ l. get_elem? l i) q ∙ get_elem?-append ls more i x h

pub Extends-take :
    (ls ks : List Bytes) (n : ℕ)
    → Extends ls ks
    → n ≤ length ls
    → (n ≤ length ks) × (take n ks ≡ take n ls)
unfolding Extends
Extends-take ls ks n (more, q) h =
    (omega (arith, h, ap length q, length-append ls more), ap (take n) q ∙ take-append n ls more h)

module _ (sha : Sha256) (crypto : Ed25519) (encode : Action → Bytes) where
  pub serve-LogExtends :
      (now later : ℕ) (ls : List Bytes) (r : Request) (w : World)
      → LogExtends ls w.pipeline
      → LogExtends ls (serve sha crypto encode now later r w).1.pipeline
  unfolding serve
  serve-LogExtends now later ls (create_key id generated) w h = h
  serve-LogExtends now later ls (create_agent id generated) w h = h
  serve-LogExtends now later ls (get_agent_pub_key j) w h = h
  serve-LogExtends now later ls (get_key j) w h = h
  serve-LogExtends now later ls list_keys w h = h
  serve-LogExtends now later ls (delete_key j) w h = h
  serve-LogExtends now later ls merkle_head w h = h
  serve-LogExtends now later ls latest_anchor w h = h
  serve-LogExtends now later ls (append_action body fate canceled) w h =
      append-keeps (LogExtends ls) sha (env_of sha crypto encode now later fate w.store) canceled
        body w.pipeline h
        (λ a signature sig same.
          submit-LogExtends ls sha (env_of sha crypto encode now later fate w.store) a sig
            w.pipeline h)
  serve-LogExtends now later ls (issue_token body fresh_id) w h = h
  serve-LogExtends now later ls (verify_token body) w h =
      record_all-keeps (LogExtends ls) (record_rejection-LogExtends ls) later
        (Tokens.verify w.service (now / 1_000_000_000) body).1 w.pipeline h
  serve-LogExtends now later ls (revoke_token j) w h = h
  serve-LogExtends now later ls signing_pubkey w h = h

  module _ (client : EvmClient) where
    happen-LogExtends :
        (ls : List Bytes) (e : Event) (h : Host client.State)
        → LogExtends ls h.world.pipeline
        → LogExtends ls (happen sha crypto encode client e h).world.pipeline
    unfolding happen
    happen-LogExtends ls (request now later r) h k = serve-LogExtends now later ls r h.world k
    happen-LogExtends ls (pass now) h k = k

    pub happen_all-LogExtends :
        (ls : List Bytes) (es : List Event) (h : Host client.State)
        → LogExtends ls h.world.pipeline
        → LogExtends ls (happen_all sha crypto encode client es h).world.pipeline
    unfolding happen_all
    happen_all-LogExtends ls [] h k = k
    happen_all-LogExtends ls (e ∷ es) h k =
        happen_all-LogExtends ls es (happen sha crypto encode client e h)
          (happen-LogExtends ls e h k)

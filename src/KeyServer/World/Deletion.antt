-- ===== src/KeyServer/World/Deletion.antt =====
-- What the deletion of a key does to the append endpoint (httpapi/handlers.go, auditlog/http/handler.go
-- and the key store that they share).
use crypto_agent.Prelude.{
  ℕ, ◌≤◌, Bool, Option, none, some, List, [], ◌∷◌, Bytes, equal_iff, err, err-ne-ok, ◌≡◌, refl, ◌≢◌,
  sym, ap, ◌∙◌, arith, All,
}
use crypto_agent.Action.{Action}
use crypto_agent.Keys.{Ed25519}
use crypto_agent.Keystore
use crypto_agent.Keystore.{Memory, MemoryEntry, lookup, without, create, get, delete}
use crypto_agent.Keystore.Laws.{lookup-without}
use crypto_agent.Merkle.Hash.{Sha256}
use crypto_agent.Merkle.Tree.{WriteFate}
use crypto_agent.Auditlog.{Env, Pipeline}
use crypto_agent.Auditlog.Replay.{IsAuthentic}
use crypto_agent.Http.Keys.{handle_create, handle_agents, created, handle_delete, deleted}
use crypto_agent.Http.Audit.Statuses.{Told, append-status}
use crypto_agent.KeyServer.World.{
  World, Request, create_key, create_agent, get_key, get_agent_pub_key, list_keys, delete_key,
  merkle_head, latest_anchor, append_action, issue_token, verify_token, revoke_token,
  signing_pubkey, serve, serve_all, env_of,
}

-- A request that makes no key for this agent.
unfoldable pub Spares : Bytes → Request → Type 0
Spares id (create_key (some j) generated) = j ≢ id
Spares id (create_agent (some j) generated) = j ≢ id
Spares id _ = Unit {0}

create-absent :
    (id j : Bytes) (generated : Option MemoryEntry) (m : Memory)
    → j ≢ id
    → lookup id m ≡ none
    → lookup id (handle_create (some j) generated m).1 ≡ none
unfolding handle_create created create lookup
create-absent id j generated m other h = ground (arith, equal_iff j id, other, h)

delete-absent :
    (id j : Bytes) (m : Memory) → lookup id m ≡ none → lookup id (handle_delete j m).1 ≡ none
unfolding handle_delete deleted delete
delete-absent id j m h = ground (arith, lookup-without j id m, h)

delete_self : (id : Bytes) (m : Memory) → lookup id (handle_delete id m).1 ≡ none
unfolding handle_delete deleted delete
delete_self id m = ground (arith, lookup-without id id m, equal_iff id id)

-- the two endpoints that create a key do the same
pub handle_agents-handle_create :
    (body : Option Bytes) (generated : Option MemoryEntry) (m : Memory)
    → handle_agents body generated m ≡ handle_create body generated m
unfolding handle_agents handle_create
handle_agents-handle_create none generated m = refl
handle_agents-handle_create (some id) generated m = refl

-- a body that is not JSON makes no key
no_create-absent :
    (id : Bytes) (generated : Option MemoryEntry) (m : Memory)
    → lookup id m ≡ none
    → lookup id (handle_create none generated m).1 ≡ none
unfolding handle_create
no_create-absent id generated m h = h

get-absent :
    (id : Bytes) (m : Memory) → lookup id m ≡ none → get id m ≡ err Keystore.Error.not_found
unfolding get
get-absent id m h = ground (arith, h)

-- an agent without a key has no authentic action
no_key :
    (now later : ℕ) (fate : WriteFate) (crypto : Ed25519) (encode : Action → Bytes) (sha : Sha256)
    (m : Memory) (a : Action) (sig : Bytes)
    → lookup a.agent_id m ≡ none
    → ¬ (IsAuthentic (env_of sha crypto encode now later fate m) a sig)
no_key now later fate crypto encode sha m a sig absent h =
    absurd (err-ne-ok (sym (get-absent a.agent_id m absent) ∙ h.registered))

Told-refused :
    (env : Env) (a : Action) (signature : Bytes) (p q : Pipeline) (status : ℕ)
    → ((sig : Bytes) → ¬ (IsAuthentic env a sig))
    → Told env a signature p q status
    → (400 ≤ status) × (q.tree.leaves ≡ p.tree.leaves)
Told-refused env a signature p q _ never (Told.accepted sig decoded authentic kept) =
    absurd (never sig authentic)
Told-refused env a signature p q status never (Told.turned_down _ high same) = (high, same)

module _ (sha : Sha256) (crypto : Ed25519) (encode : Action → Bytes) where
  serve-absent :
      (now later : ℕ) (id : Bytes) (r : Request) (w : World)
      → Spares id r
      → lookup id w.store ≡ none
      → lookup id (serve sha crypto encode now later r w).1.store ≡ none
  unfolding serve Spares
  serve-absent now later id (create_key none generated) w s h =
      no_create-absent id generated w.store h
  serve-absent now later id (create_key (some j) generated) w s h =
      create-absent id j generated w.store s h
  serve-absent now later id (create_agent none generated) w s h =
      rw (handle_agents-handle_create none generated w.store)
        (no_create-absent id generated w.store h)
  serve-absent now later id (create_agent (some j) generated) w s h =
      rw (handle_agents-handle_create (some j) generated w.store)
        (create-absent id j generated w.store s h)
  serve-absent now later id (get_agent_pub_key j) w s h = h
  serve-absent now later id (get_key j) w s h = h
  serve-absent now later id list_keys w s h = h
  serve-absent now later id (delete_key j) w s h = delete-absent id j w.store h
  serve-absent now later id merkle_head w s h = h
  serve-absent now later id latest_anchor w s h = h
  serve-absent now later id (append_action body fate canceled) w s h = h
  serve-absent now later id (issue_token body fresh_id) w s h = h
  serve-absent now later id (verify_token body) w s h = h
  serve-absent now later id (revoke_token j) w s h = h
  serve-absent now later id signing_pubkey w s h = h

  serve_all-absent :
      (id : Bytes) (requests : List (ℕ × ℕ × Request)) (w : World)
      → All (λ (r : ℕ × ℕ × Request). Spares id r.2) requests
      → lookup id w.store ≡ none
      → lookup id (serve_all sha crypto encode requests w).store ≡ none
  unfolding serve_all
  serve_all-absent id [] w s h = h
  serve_all-absent id ((now, later, r) ∷ requests) w (s, ss) h =
      serve_all-absent id requests (serve sha crypto encode now later r w).1 ss
        (serve-absent now later id r w s h)

  -- After a request to delete an agent's key and any requests that make no new key for that agent, the
  -- append endpoint answers every action of the agent with a status from 400 on and leaves the leaves
  -- alone, whether the action was submitted before or not.
  pub deleted_agent :
      (now later : ℕ) (a : Action) (requests : List (ℕ × ℕ × Request)) (w u : World) (at after : ℕ)
      (signature : Bytes) (fate : WriteFate) (canceled : Bool)
      → All (λ (r : ℕ × ℕ × Request). Spares a.agent_id r.2) requests
      → u
        ≡ serve_all sha crypto encode requests
            (serve sha crypto encode now later (delete_key a.agent_id) w).1
      → (400
          ≤ (serve sha crypto encode at after
              (append_action (some (some a, signature)) fate canceled)
              u).0.status)
        × ((serve sha crypto encode at after
              (append_action (some (some a, signature)) fate canceled)
              u).1.pipeline.tree.leaves
            ≡ u.pipeline.tree.leaves)
  unfolding serve
  deleted_agent now later a requests w u at after signature fate canceled spared reached =
      let absent : lookup a.agent_id u.store ≡ none =
        ap (λ (x : World). lookup a.agent_id x.store) reached
        ∙ serve_all-absent a.agent_id requests _ spared (delete_self a.agent_id w.store) in
      Told-refused (env_of sha crypto encode at after fate u.store) a signature u.pipeline _ _
        (λ sig. no_key at after fate crypto encode sha u.store a sig absent)
        (append-status sha (env_of sha crypto encode at after fate u.store) canceled a signature
          u.pipeline)

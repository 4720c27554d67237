-- ===== src/Http/Keys.antt =====
-- The key endpoints of go-key-service/internal/httpapi/handlers.go, on the store in memory.
pub mod Laws
use crypto_agent.Prelude.{
  ℕ, Option, none, some, List, [], ◌∷◌, Bytes, text, length, ◌==◌, if◌then◌else◌, Result, ok, err,
}
use crypto_agent.Prelude.Hex.{hex_encode}
use crypto_agent.Keystore
use crypto_agent.Keystore.{Error, not_found, already_exists, key_generation, MemoryEntry, Memory}
use crypto_agent.Http.{Response, string, strings, write_json, write_error, write_header}

unfoldable pub write_store_error : Error → Response
write_store_error not_found = write_error 404 (text "not_found")
write_store_error already_exists = write_error 409 (text "already_exists")
write_store_error _ = write_error 500 (text "internal")

-- `keyResponse`
unfoldable pub key_response : ℕ → Bytes → Bytes → Response
key_response status id pub_key =
    write_json status
      ((text "agent_id", string id) ∷ (text "public_key", string (hex_encode pub_key)) ∷ [])

-- `handleCreate` behind the store's answer
unfoldable pub created : Bytes → Result Error Bytes × Memory → Response × Memory
unfolding write_store_error key_response
created id (err e, m) = (write_store_error e, m)
created id (ok pub_key, m) = (key_response 201 id pub_key, m)

-- `handleCreate`: the agent's id, if the body is JSON, and the pair that is generated
unfoldable pub handle_create : Option Bytes → Option MemoryEntry → Memory → Response × Memory
unfolding created
handle_create none generated m = (write_error 400 (text "invalid_json"), m)
handle_create (some id) generated m =
    if length id == 0
    then (write_error 400 (text "missing_field"), m)
    else created id (Keystore.create id generated m)

-- `handleGet`
unfoldable pub handle_get : Bytes → Memory → Response
unfolding write_store_error key_response
handle_get id m = elim (Keystore.get id m) [
  | err e ↦ write_store_error e
  | ok entry ↦ key_response 200 id entry.pub_key
]

-- `handleList`
unfoldable pub handle_list : Memory → Response
handle_list m = write_json 200 ((text "agent_ids", strings (Keystore.list m)) ∷ [])

unfoldable pub deleted : Result Error (Unit {0}) × Memory → Response × Memory
unfolding write_store_error
deleted (err e, m) = (write_store_error e, m)
deleted (ok _, m) = (write_header 204, m)

-- `handleDelete`
unfoldable pub handle_delete : Bytes → Memory → Response × Memory
unfolding deleted
handle_delete id m = deleted (Keystore.delete id m)

-- `handleAgents`, word for word `handleCreate`
unfoldable pub handle_agents : Option Bytes → Option MemoryEntry → Memory → Response × Memory
unfolding created
handle_agents none generated m = (write_error 400 (text "invalid_json"), m)
handle_agents (some id) generated m =
    if length id == 0
    then (write_error 400 (text "missing_field"), m)
    else created id (Keystore.create id generated m)

-- `handleGetAgentPubKey`, word for word `handleGet`
unfoldable pub handle_get_agent_pub_key : Bytes → Memory → Response
unfolding write_store_error key_response
handle_get_agent_pub_key id m = elim (Keystore.get id m) [
  | err e ↦ write_store_error e
  | ok entry ↦ key_response 200 id entry.pub_key
]

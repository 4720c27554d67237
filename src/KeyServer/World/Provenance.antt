-- ===== src/KeyServer/World/Provenance.antt =====
-- What a leaf of the running server's log stands for: the store, the pipeline and the requests that
-- change them (httpapi/handlers.go, auditlog/http/handler.go, auditlog/pipeline.go), with the canonical
-- bytes of action/action.go.
pub mod Kept
pub mod Leaf
pub mod Store
use crypto_agent.Prelude.{true, some, none, Bytes, length, ◌++◌, ◌≡◌}
use crypto_agent.Action.{Action}
use crypto_agent.Action.Json.{encode, IsEncodable}
use crypto_agent.Keys.{Ed25519}
use crypto_agent.Keystore.{Memory, MemoryEntry, lookup}
use crypto_agent.Merkle.Hash.{Sha256, hash_leaf}
use crypto_agent.Auditlog.{appended, Event}
use crypto_agent.KeyServer.World.{Request, create_key, create_agent, append_action}

-- What stands behind a leaf: the event names the action, the leaf is the hash of its canonical bytes and
-- the signature, which verifies under a key that is good for the action's agent.
pub record Genuine (sha : Sha256) (crypto : Ed25519) (Good : Bytes → Bytes → Type 0) (e : Event)
    : Type 0 where
  pub signed_action : Action
  pub told : e.action ≡ some signed_action
  pub word : IsEncodable signed_action
  pub hashed : e.leaf_hash ≡ hash_leaf ⦃sha = sha⦄ (encode signed_action ++ e.signature)
  pub key_size : length e.public_key ≡ 32
  pub verified : crypto.verify e.public_key (encode signed_action) e.signature ≡ true
  pub good : Good signed_action.agent_id e.public_key

abbrev pub Vouched : Sha256 → Ed25519 → (Bytes → Bytes → Type 0) → Event → Type 0
Vouched sha crypto Good e = e.kind ≡ appended → Genuine sha crypto Good e

-- every key of the store is good for its agent
unfoldable pub IsGoodStore : (Bytes → Bytes → Type 0) → Memory → Type 0
IsGoodStore Good m =
    (id : Bytes) (entry : MemoryEntry) → lookup id m ≡ some entry → Good id entry.pub_key

-- A request brings only keys that are good for their agent, and only actions whose numbers are int64
-- patterns and whose strings are valid UTF-8, as the decoder of `encoding/json` makes them.
unfoldable pub Brings : (Bytes → Bytes → Type 0) → Request → Type 0
Brings Good (create_key (some id) (some entry)) = Good id entry.pub_key
Brings Good (create_agent (some id) (some entry)) = Good id entry.pub_key
Brings Good (append_action (some (some a, signature)) fate canceled) = IsEncodable a
Brings Good _ = Unit {0}

-- ===== src/KeyServer/World/Provenance/Store.antt =====
-- The endpoints of the keys keep the store good (httpapi/handlers.go and keystore/keystore.go).
use crypto_agent.Prelude.{
  Option, none, some, Bytes, equal_iff, ◌⊎◌, some-inj, ok, ◌≡◌, arith, inl, inr,
}
use mathlib.Core.Path.{subst}
use crypto_agent.Keystore.{Memory, MemoryEntry, lookup, get, create, delete}
use crypto_agent.Keystore.Laws.{lookup-without}
use crypto_agent.Http.Keys.{handle_create, handle_agents, created, handle_delete, deleted}
use crypto_agent.KeyServer.World.{create_key, create_agent}
use crypto_agent.KeyServer.World.Deletion.{handle_agents-handle_create}
use crypto_agent.KeyServer.World.Provenance.{IsGoodStore, Brings}

-- an entry that is there after a creation is the new one, or was there
create_inv :
    (id j : Bytes) (generated : Option MemoryEntry) (m : Memory) (entry : MemoryEntry)
    → lookup j (handle_create (some id) generated m).1 ≡ some entry
    → (lookup j m ≡ some entry) ⊎ ((id ≡ j) × (generated ≡ some entry))
unfolding handle_create created create lookup
create_inv id j generated m entry h = ground (arith, h, equal_iff id j)

-- an entry that is there after a deletion was there
delete_inv :
    (id j : Bytes) (m : Memory) (entry : MemoryEntry)
    → lookup j (handle_delete id m).1 ≡ some entry
    → lookup j m ≡ some entry
unfolding handle_delete deleted delete
delete_inv id j m entry h = ground (arith, h, lookup-without id j m)

pub get-lookup :
    (id : Bytes) (m : Memory) (entry : MemoryEntry) → get id m ≡ ok entry → lookup id m ≡ some entry
unfolding get
get-lookup id m entry h = ground (arith, h)

module _ (Good : Bytes → Bytes → Type 0) where
  create-IsGoodStore :
      (id : Bytes) (generated : Option MemoryEntry) (m : Memory)
      → ((entry : MemoryEntry) → generated ≡ some entry → Good id entry.pub_key)
      → IsGoodStore Good m
      → IsGoodStore Good (handle_create (some id) generated m).1
  unfolding IsGoodStore
  create-IsGoodStore id generated m fresh h j entry at =
      elim (create_inv id j generated m entry at) [
        | inl old ↦ h j entry old
        | inr (same, new) ↦ subst (λ i. Good i entry.pub_key) same (fresh entry new)
      ]

  brought :
      (id : Bytes) (generated : Option MemoryEntry)
      → Brings Good (create_key (some id) generated)
      → (entry : MemoryEntry) → generated ≡ some entry
      → Good id entry.pub_key
  unfolding Brings
  brought id none b entry h = absurd (cc h)
  brought id (some x) b entry h = subst (λ (y : MemoryEntry). Good id y.pub_key) (some-inj h) b

  -- the two endpoints that create a key bring the same
  Brings-agent :
      (id : Option Bytes) (generated : Option MemoryEntry)
      → Brings Good (create_agent id generated)
      → Brings Good (create_key id generated)
  unfolding Brings
  Brings-agent none generated b = tt
  Brings-agent (some id) none b = tt
  Brings-agent (some id) (some entry) b = b

  pub handle_create-IsGoodStore :
      (id : Option Bytes) (generated : Option MemoryEntry) (m : Memory)
      → Brings Good (create_key id generated)
      → IsGoodStore Good m
      → IsGoodStore Good (handle_create id generated m).1
  unfolding handle_create
  handle_create-IsGoodStore none generated m b h = h
  handle_create-IsGoodStore (some id) generated m b h =
      create-IsGoodStore id generated m (brought id generated b) h

  pub handle_agents-IsGoodStore :
      (id : Option Bytes) (generated : Option MemoryEntry) (m : Memory)
      → Brings Good (create_agent id generated)
      → IsGoodStore Good m
      → IsGoodStore Good (handle_agents id generated m).1
  handle_agents-IsGoodStore id generated m b h =
      rw (handle_agents-handle_create id generated m)
        (handle_create-IsGoodStore id generated m (Brings-agent id generated b) h)

  pub delete-IsGoodStore :
      (id : Bytes) (m : Memory) → IsGoodStore Good m → IsGoodStore Good (handle_delete id m).1
  unfolding IsGoodStore
  delete-IsGoodStore id m h j entry at = h j entry (delete_inv id j m entry at)

-- ===== src/Http/Keys/Laws.antt =====
-- The life of an agent's key over HTTP (httpapi/handlers.go).
use crypto_agent.Prelude.{
  false, Option, none, some, ◌∷◌, Bytes, text, equal_refl, length, ◌==◌, ok, err, ◌≡◌, refl, ap,
  ◌∙◌, arith,
}
use crypto_agent.Keystore
use crypto_agent.Keystore.{Error, not_found, already_exists, key_generation, MemoryEntry, Memory}
use crypto_agent.Keystore.Laws.{lookup-without}
use crypto_agent.Http.{Response, write_error, write_header}
use crypto_agent.Http.Keys.{handle_create, handle_get, handle_delete, key_response, deleted}

handle_create-parts :
    (id : Bytes) (generated : Option MemoryEntry) (m : Memory)
    → (handle_create (some id) generated m).0.status ≡ 201
    → (e : MemoryEntry) × (generated ≡ some e)
      × ((length id == 0) ≡ false)
      × (Keystore.lookup id m ≡ none)
      × (handle_create (some id) generated m ≡ (key_response 201 id e.pub_key, (id, e) ∷ m))
unfolding handle_create Keystore.create
handle_create-parts id none m h = absurd (ground arith)
handle_create-parts id (some e) m h = (e, refl, ground arith, ground arith, ground arith)

-- the answers on a store whose first entry is the agent's
module _ (id : Bytes) (e : MemoryEntry) (m : Memory) where
  found : Keystore.lookup id ((id, e) ∷ m) ≡ some e
  unfolding Keystore.lookup
  found = rw (equal_refl id) refl

  get_entry : Keystore.get id ((id, e) ∷ m) ≡ ok e
  unfolding Keystore.get
  get_entry = rw (found, Keystore.get) refl

  get_found : handle_get id ((id, e) ∷ m) ≡ key_response 200 id e.pub_key
  unfolding handle_get
  get_found = rw (get_entry, handle_get) refl

  create_again :
      (other : Option MemoryEntry)
      → (length id == 0) ≡ false
      → handle_create (some id) other ((id, e) ∷ m)
        ≡ (write_error 409 (text "already_exists"), (id, e) ∷ m)
  unfolding handle_create Keystore.create
  create_again other named = rw (named, found) refl

  delete_entry : Keystore.delete id ((id, e) ∷ m) ≡ (ok tt, Keystore.without id ((id, e) ∷ m))
  unfolding Keystore.delete
  delete_entry = rw (found, Keystore.delete) refl

  delete_found :
      handle_delete id ((id, e) ∷ m) ≡ (write_header 204, Keystore.without id ((id, e) ∷ m))
  unfolding handle_delete
  delete_found = ap deleted delete_entry

  lookup_gone : Keystore.lookup id (Keystore.without id ((id, e) ∷ m)) ≡ none
  lookup_gone = lookup-without id id ((id, e) ∷ m) ∙ rw (equal_refl id) refl

  entry_gone : Keystore.get id (Keystore.without id ((id, e) ∷ m)) ≡ err not_found
  unfolding Keystore.get
  entry_gone = rw (lookup_gone, Keystore.get) refl

  get_gone : handle_get id (Keystore.without id ((id, e) ∷ m)) ≡ write_error 404 (text "not_found")
  unfolding handle_get
  get_gone = rw (entry_gone, handle_get) refl

-- When a key is created with 201, the same body comes back from a read with 200, a second creation is
-- refused with 409 and changes nothing, a deletion is answered with 204, and a read behind it with 404.
pub handle_create-lifecycle :
    (id : Bytes) (generated other : Option MemoryEntry) (m : Memory)
    → (handle_create (some id) generated m).0.status ≡ 201
    → (handle_get id (handle_create (some id) generated m).1
        ≡ record (handle_create (some id) generated m).0 { status = 200 })
      × (handle_create (some id) other (handle_create (some id) generated m).1
          ≡ (write_error 409 (text "already_exists"), (handle_create (some id) generated m).1))
      × ((handle_delete id (handle_create (some id) generated m).1).0 ≡ write_header 204)
      × (handle_get id (handle_delete id (handle_create (some id) generated m).1).1
          ≡ write_error 404 (text "not_found"))
handle_create-lifecycle id generated other m h =
    let (e, made, named, absent, q) = handle_create-parts id generated m h in
    rw q (
      get_found id e m ∙ (unfold key_response in refl),
      create_again id e m other named,
      ap (λ (r : Response × Memory). r.0) (delete_found id e m),
      ap (λ (r : Response × Memory). handle_get id r.1) (delete_found id e m) ∙ get_gone id e m,
    )

-- ===== src/Keystore/Laws.antt =====
-- The store is a finite map (go-key-service/internal/keystore/memory.go).
use crypto_agent.Prelude.{
  ◌≡◌, refl, ◌∙◌, Bool, true, false, arith, Option, none, some, [], ◌∷◌, Bytes, equal, equal_iff,
  Result, ok, err, if◌then◌else◌, map,
}
use crypto_agent.Prelude.Sorting.{has, has-sort_strings, IsSorted, sort_strings-IsSorted}
use crypto_agent.Keystore.{
  Memory, MemoryEntry, Error, not_found, lookup, without, create, get, list, delete,
}

-- A successful `Create` returns the new public key and adds the new pair, for its id alone.
pub get-create :
    (id j key : Bytes) (generated : Option MemoryEntry) (m m' : Memory)
    → create id generated m ≡ (ok key, m')
    → (e : MemoryEntry) × (generated ≡ some e)
      × (key ≡ e.pub_key)
      × (get id m ≡ err not_found)
      × (get j m' ≡ (if equal id j then ok e else get j m))
unfolding create get lookup
get-create id j key none m m' e = absurd (ground arith)
get-create id j key (some k) m m' e =
    let s : m' ≡ (id, k) ∷ m = ground arith in
    (k, refl, ground arith, ground arith, rw s (ground arith))

pub lookup-without :
    (id j : Bytes) (m : Memory)
    → lookup j (without id m) ≡ (if equal id j then none else lookup j m)
unfolding lookup without
lookup-without id j [] = ground arith
lookup-without id j ((i, e) ∷ m) =
    ground (arith, lookup-without id j m, equal_iff i id, equal_iff i j, equal_iff id j)

-- A successful `Delete` takes away its id alone, which was there.
pub get-delete :
    (id j : Bytes) (m m' : Memory)
    → delete id m ≡ (ok tt, m')
    → (get j m' ≡ (if equal id j then err not_found else get j m))
unfolding delete get
get-delete id j m m' e =
    let s : m' ≡ without id m = ground arith in rw s (ground (arith, lookup-without id j m))

-- A failing call leaves the store as it was.
pub failure_changes_nothing :
    (id : Bytes) (generated : Option MemoryEntry) (m : Memory) (x : Error)
    → ((create id generated m).0 ≡ err x → (create id generated m).1 ≡ m)
      × ((delete id m).0 ≡ err x → (delete id m).1 ≡ m)
unfolding create delete
failure_changes_nothing id generated m x = (λ e. ground arith, λ e. ground arith)

abbrev pub found : Result Error MemoryEntry → Bool
found (ok e) = true
found (err x) = false

has-keys : (id : Bytes) (m : Memory) → has (λ j. equal j id) (map (λ p. p.0) m) ≡ found (get id m)
unfolding has get lookup
has-keys id [] = refl
has-keys id ((j, e) ∷ m) = ground (arith, has-keys id m)

-- `List` is in ascending order, and holds an id exactly if `Get` finds it.
pub list_lem :
    (id : Bytes) (m : Memory)
    → IsSorted (list m) × (has (λ j. equal j id) (list m) ≡ found (get id m))
unfolding list
list_lem id m = (sort_strings-IsSorted _, has-sort_strings _ _ ∙ has-keys id m)

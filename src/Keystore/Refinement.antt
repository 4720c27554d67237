-- ===== src/Keystore/Refinement.antt =====
-- The store in memory against an abstract one (go-key-service/internal/keystore/memory.go): a function
-- from ids to key pairs, which has neither an order nor a representation.
use crypto_agent.Prelude.{
  ℕ, Option, none, some, List, [], ◌∷◌, map, Bytes, length, ◌==◌, equal, equal_iff, Result, ok, err,
  if◌then◌else◌, ◌≡◌, refl, sym, ap, ◌∙◌, arith, Bool-cases, inl, inr,
}
use crypto_agent.Prelude.Sorting.{count, count-sort_strings, IsSorted, sort_strings-IsSorted}
use crypto_agent.Keystore.{
  Memory, MemoryEntry, Error, not_found, already_exists, key_generation, lookup, without, create,
  get, list, delete,
}
use crypto_agent.Keystore.Laws.{lookup-without}

-- What the interface `KeyStore` promises, on functions. `create` has the key pair that is generated.
abbrev pub Abstract : Type 0
Abstract = Bytes → Option MemoryEntry

abbrev pub assign : Bytes → Option MemoryEntry → Abstract → Abstract
assign id value f j = if equal id j then value else f j

pub data Command : Type 0 where
  create_key : Bytes → Option MemoryEntry → Command
  get_key : Bytes → Command
  list_keys : Command
  delete_key : Bytes → Command

pub data Answer : Type 0 where
  created : Bytes → Answer
  found : MemoryEntry → Answer
  listed : List Bytes → Answer
  deleted : Answer
  failed : Error → Answer

abbrev create_answer : Result Error Bytes → Answer
create_answer (ok key) = created key
create_answer (err e) = failed e

abbrev get_answer : Result Error MemoryEntry → Answer
get_answer (ok entry) = found entry
get_answer (err e) = failed e

abbrev delete_answer : Result Error (Unit {0}) → Answer
delete_answer (ok _) = deleted
delete_answer (err e) = failed e

-- a call of the store in memory
unfoldable pub call : Command → Memory → Answer × Memory
call (create_key id generated) m = let (r, n) = create id generated m in (create_answer r, n)
call (get_key id) m = (get_answer (get id m), m)
call list_keys m = (listed (list m), m)
call (delete_key id) m = let (r, n) = delete id m in (delete_answer r, n)

-- a new key where there is none
abbrev put : Bytes → Option MemoryEntry → Abstract → Answer × Abstract
put id none f = (failed key_generation, f)
put id (some e) f = (created e.pub_key, assign id (some e) f)

abbrev abstract_create :
    Bytes → Option MemoryEntry → Option MemoryEntry → Abstract → Answer × Abstract
abstract_create id generated none f = put id generated f
abstract_create id generated (some _) f = (failed already_exists, f)

abbrev abstract_delete : Bytes → Option MemoryEntry → Abstract → Answer × Abstract
abstract_delete id none f = (failed not_found, f)
abstract_delete id (some _) f = (deleted, assign id none f)

abbrev abstract_get : Option MemoryEntry → Answer
abstract_get none = failed not_found
abstract_get (some e) = found e

-- The answers that a call of an abstract store may give, and the store behind it.
abbrev pub Outcome : Type 1
Outcome = (Answer → Type 0) × Abstract

-- one answer and no other
abbrev pub exactly : Answer × Abstract → Outcome
exactly r = (λ a. a ≡ r.0, r.1)

abbrev stored : Option MemoryEntry → ℕ
stored none = 0
stored (some _) = 1

-- The answer to `List`: in ascending order, each id that has a key once, and no other id.
abbrev pub IsListing : Abstract → Answer → Type 0
IsListing f (listed ids) = IsSorted ids × ((j : Bytes) → count (λ i. equal i j) ids ≡ stored (f j))
IsListing f _ = ⊥

unfoldable pub abstract_call : Command → Abstract → Outcome
abstract_call (create_key id generated) f =
    exactly
      (if length id == 0 then (failed not_found, f) else abstract_create id generated (f id) f)
abstract_call (get_key id) f = exactly (abstract_get (f id), f)
abstract_call list_keys f = (IsListing f, f)
abstract_call (delete_key id) f = exactly (abstract_delete id (f id) f)

-- the answers to a sequence of calls
unfoldable pub calls : List Command → Memory → List Answer
unfolding call
calls [] m = []
calls (c ∷ cs) m = let (a, n) = call c m in a ∷ calls cs n

-- The answers are as many as the calls, and each is one that the abstract store may give there.
unfoldable pub Promises : List Command → Abstract → List Answer → Type 0
unfolding abstract_call
Promises [] f [] = Unit
Promises (c ∷ cs) f (a ∷ rest) = (abstract_call c f).0 a × Promises cs (abstract_call c f).1 rest
Promises _ f _ = ⊥

-- A list that stands for Go's map: no id has two entries.
unfoldable pub IsMap : Memory → Type 0
unfolding lookup
IsMap [] = Unit
IsMap ((id, e) ∷ m) = (lookup id m ≡ none) × IsMap m

-- The store in memory and the abstract one hold the same keys.
unfoldable pub Agrees : Memory → Abstract → Type 0
Agrees m f = (j : Bytes) → lookup j m ≡ f j

-- what a pair of calls has to show
Matches : Answer × Memory → Outcome → Type 0
Matches (a, m) (Allowed, f) = Allowed a × Agrees m f × IsMap m

create-IsMap :
    (id : Bytes) (generated : Option MemoryEntry) (m : Memory)
    → IsMap m
    → IsMap (create id generated m).1
unfolding create IsMap
create-IsMap id none m u = ground (arith, u)
create-IsMap id (some e) m u = ground (arith, u)

create-Matches :
    (id : Bytes) (generated : Option MemoryEntry) (m : Memory) (f : Abstract)
    → Agrees m f
    → IsMap m
    → Matches (call (create_key id generated) m) (abstract_call (create_key id generated) f)
unfolding call abstract_call create Matches Agrees lookup
create-Matches id none m f h u =
    (ground (arith, h id), (λ j. ground (arith, h id, h j)), create-IsMap id none m u)
create-Matches id (some e) m f h u =
    (ground (arith, h id), (λ j. ground (arith, h id, h j)), create-IsMap id (some e) m u)

get-Matches :
    (id : Bytes) (m : Memory) (f : Abstract)
    → Agrees m f
    → IsMap m
    → Matches (call (get_key id) m) (abstract_call (get_key id) f)
unfolding call abstract_call get Matches Agrees
get-Matches id m f h u = (ground (arith, h id), h, u)

without-IsMap : (id : Bytes) (m : Memory) → IsMap m → IsMap (without id m)
unfolding without IsMap
without-IsMap id [] u = tt
without-IsMap id ((j, e) ∷ m) u = elim (Bool-cases (equal j id)) [
  | inl same ↦ rw same (without-IsMap id m u.1)
  | inr other ↦ rw other (ground (arith, lookup-without id j m, u.0), without-IsMap id m u.1)
]

delete-IsMap : (id : Bytes) (m : Memory) → IsMap m → IsMap (delete id m).1
unfolding delete
delete-IsMap id m u = ground (arith, u, without-IsMap id m u)

delete-Matches :
    (id : Bytes) (m : Memory) (f : Abstract)
    → Agrees m f
    → IsMap m
    → Matches (call (delete_key id) m) (abstract_call (delete_key id) f)
unfolding call abstract_call delete Matches Agrees
delete-Matches id m f h u = (
  ground (arith, h id),
  (λ j. ground (arith, h id, h j, lookup-without id j m)),
  delete-IsMap id m u,
)

count-keys :
    (j : Bytes) (m : Memory)
    → IsMap m
    → count (λ i. equal i j) (map (λ p. p.0) m) ≡ stored (lookup j m)
unfolding count IsMap lookup
count-keys j [] u = refl
count-keys j ((i, e) ∷ m) u = elim (Bool-cases (equal i j)) [
  | inl same ↦
      let gone : lookup j m ≡ none = ap (λ k. lookup k m) (sym ((equal_iff i j).0 same)) ∙ u.0 in
      rw (same, count-keys j m u.1, gone) refl
  | inr other ↦ rw other (count-keys j m u.1)
]

list-Matches :
    (m : Memory) (f : Abstract)
    → Agrees m f
    → IsMap m
    → Matches (call list_keys m) (abstract_call list_keys f)
unfolding call abstract_call list Matches Agrees
list-Matches m f h u = (
  (sort_strings-IsSorted _, (λ j. count-sort_strings _ _ ∙ count-keys j m u ∙ ap stored (h j))),
  h,
  u,
)

call-Matches :
    (c : Command) (m : Memory) (f : Abstract)
    → Agrees m f
    → IsMap m
    → Matches (call c m) (abstract_call c f)
call-Matches (create_key id generated) m f = create-Matches id generated m f
call-Matches (get_key id) m f = get-Matches id m f
call-Matches list_keys m f = list-Matches m f
call-Matches (delete_key id) m f = delete-Matches id m f

-- A store in memory that holds the keys of an abstract store answers every sequence of calls of
-- `Create`, `Get`, `List` and `Delete` as that store may, errors included: the answers of the others are
-- the ones of the abstract store, and each answer of `List` is in ascending order and holds every id
-- that has a key at that point once, and no other.
pub calls-Promises :
    (cs : List Command) (m : Memory) (f : Abstract)
    → IsMap m
    → Agrees m f
    → Promises cs f (calls cs m)
unfolding calls Promises Matches
calls-Promises [] m f u h = tt
calls-Promises (c ∷ cs) m f u h =
    let (allowed, holds, apart) = call-Matches c m f h u in
    (allowed, calls-Promises cs (call c m).1 (abstract_call c f).1 apart holds)

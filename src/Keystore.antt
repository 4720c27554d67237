-- ===== src/Keystore.antt =====
-- go-key-service/internal/keystore: agents' key pairs by agent id. Go's map is a list of entries
-- with at most one for each id; its order is not observed, since `List` sorts. The outcome of the
-- random key generation is an argument of `create`.
pub mod Laws
pub mod Refinement
use crypto_agent.Prelude.{
  Bool, true, false, ◌&&◌, Option, none, some, List, [], ◌∷◌, Bytes, equal, Result, ok, err,
  if◌then◌else◌, map, ◌==◌, length,
}
use crypto_agent.Prelude.Sorting.{sort_strings}

-- `key_generation` is an error of the random source.
pub data Error : Type 0 where
  not_found already_exists key_generation : Error

pub record MemoryEntry : Type 0 where
  pub pub_key : Bytes
  pub priv : Bytes

abbrev pub Memory : Type 0
Memory = List (Bytes × MemoryEntry)

unfoldable pub lookup : Bytes → Memory → Option MemoryEntry
lookup id [] = none
lookup id ((j, e) ∷ m) = if equal j id then some e else lookup id m

unfoldable pub without : Bytes → Memory → Memory
without id [] = []
without id ((j, e) ∷ m) = let rest = without id m in if equal j id then rest else (j, e) ∷ rest

unfoldable pub create : Bytes → Option MemoryEntry → Memory → Result Error Bytes × Memory
create id generated m = if length id == 0 then (err not_found, m) else elim (lookup id m) [
  | some _ ↦ (err already_exists, m)
  | none ↦ elim generated [ none ↦ (err key_generation, m) | some e ↦ (ok e.pub_key, (id, e) ∷ m) ]
]

unfoldable pub get : Bytes → Memory → Result Error MemoryEntry
get id m = elim (lookup id m) [ none ↦ err not_found | some e ↦ ok e ]

unfoldable pub list : Memory → List Bytes
list m = sort_strings (map (λ p. p.0) m)

unfoldable pub delete : Bytes → Memory → Result Error (Unit {0}) × Memory
delete id m = elim (lookup id m) [ none ↦ (err not_found, m) | some _ ↦ (ok tt, without id m) ]

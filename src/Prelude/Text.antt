-- ===== src/Prelude/Text.antt =====
-- What the code uses of Go's `strings`, on ASCII text. `TrimSpace` would also cut the spaces of Unicode
-- outside ASCII, and `ToLower` change letters there.
use Prim.Native.Nat.{ℕ, ◌+◌}
use mathlib.Core.Path.{◌≡◌, ◌∙◌, refl, ap}
use mathlib.Core.Bool.{Bool, true, false, ◌&&◌, ◌||◌}
use mathlib.Core.List.{List, [], ◌∷◌, map}
use crypto_agent.Prelude.Tests.{leb, ◌==◌, if◌then◌else◌}
use crypto_agent.Prelude.Lists.{All}
use crypto_agent.Prelude.Strings.{Bytes}

unfoldable pub is_space : ℕ → Bool
is_space c = c == b' ' || leb 9 c && leb c 13

unfoldable pub trim_left : Bytes → Bytes
unfolding is_space
trim_left [] = []
trim_left (c ∷ s) = let rest = trim_left s in if is_space c then rest else c ∷ s

abbrev cons_unless_blank : ℕ → Bytes → Bytes
cons_unless_blank c [] = if is_space c then [] else c ∷ []
cons_unless_blank c (x ∷ s) = c ∷ x ∷ s

unfoldable pub trim_right : Bytes → Bytes
unfolding is_space
trim_right [] = []
trim_right (c ∷ s) = cons_unless_blank c (trim_right s)

-- `strings.TrimSpace`
unfoldable pub trim_space : Bytes → Bytes
unfolding trim_left trim_right
trim_space s = trim_right (trim_left s)

unfoldable pub lower : ℕ → ℕ
lower c = if leb b'A' c && leb c b'Z' then c + 32 else c

-- `strings.ToLower`
unfoldable pub to_lower : Bytes → Bytes
unfolding lower
to_lower s = map lower s

unfoldable pub has_prefix : Bytes → Bytes → Bool
has_prefix [] s = true
has_prefix (p ∷ ps) [] = false
has_prefix (p ∷ ps) (c ∷ s) = p == c && has_prefix ps s

abbrev push_first : ℕ → List Bytes → List Bytes
push_first c [] = (c ∷ []) ∷ []
push_first c (part ∷ parts) = (c ∷ part) ∷ parts

-- `strings.Split` at one character
unfoldable pub split_at : ℕ → Bytes → List Bytes
split_at sep [] = [] ∷ []
split_at sep (c ∷ s) =
    let rest = split_at sep s in if c == sep then [] ∷ rest else push_first c rest

-- Text without spaces is not trimmed.
abbrev pub IsSolid : ℕ → Type 0
IsSolid c = is_space c ≡ false

cons_solid : (c : ℕ) (s : Bytes) → IsSolid c → cons_unless_blank c s ≡ c ∷ s
cons_solid c [] h = rw h refl
cons_solid c (x ∷ s) h = refl

trim_right-solid : (s : Bytes) → All IsSolid s → trim_right s ≡ s
unfolding trim_right
trim_right-solid [] h = refl
trim_right-solid (c ∷ s) h = ap (cons_unless_blank c) (trim_right-solid s h.1) ∙ cons_solid c s h.0

pub trim_space-solid : (s : Bytes) → All IsSolid s → trim_space s ≡ s
unfolding trim_space trim_left
trim_space-solid [] h = trim_right-solid [] h
trim_space-solid (c ∷ s) h = rw h.0 (trim_right-solid (c ∷ s) h)

-- ===== src/Prelude/Sorting.antt =====
-- `sort.Strings`: byte strings in ascending order, and membership and multiplicity, which sorting keeps.
use Prim.Native.Nat.{ℕ, suc}
use mathlib.Core.Path.{◌≡◌, refl, sym, subst}
use mathlib.Core.Bool.{Bool, true, false, ◌||◌, ◌&&◌}
use mathlib.Core.Logic.{inl, inr}
use mathlib.Core.List.{List, [], ◌∷◌, Perm}
use mathlib.Core.List.Perm
use native.Mathlib.Omega.{arith}
use crypto_agent.Prelude.Tests.{ltb, ◌==◌, if◌then◌else◌, Bool-cases}
use crypto_agent.Prelude.Lists.{All}
use crypto_agent.Prelude.Strings.{Bytes}

-- byte by byte; a proper prefix comes first
unfoldable pub not_after : Bytes → Bytes → Bool
not_after [] ys = true
not_after (x ∷ xs) [] = false
not_after (x ∷ xs) (y ∷ ys) = ltb x y || (x == y && not_after xs ys)

unfoldable pub insert_sorted : Bytes → List Bytes → List Bytes
insert_sorted x [] = x ∷ []
insert_sorted x (y ∷ ys) =
    let rest = insert_sorted x ys in if not_after x y then x ∷ y ∷ ys else y ∷ rest

unfoldable pub sort_strings : List Bytes → List Bytes
unfolding insert_sorted not_after
sort_strings [] = []
sort_strings (x ∷ xs) = insert_sorted x (sort_strings xs)

-- whether the test holds of some element
unfoldable pub has : (Bytes → Bool) → List Bytes → Bool
has p [] = false
has p (x ∷ xs) = p x || has p xs

has-insert_sorted :
    (p : Bytes → Bool) (x : Bytes) (xs : List Bytes)
    → has p (insert_sorted x xs) ≡ (p x || has p xs)
unfolding has insert_sorted
has-insert_sorted p x [] = refl
has-insert_sorted p x (y ∷ ys) = ground (arith, has-insert_sorted p x ys)

pub has-sort_strings : (p : Bytes → Bool) (xs : List Bytes) → has p (sort_strings xs) ≡ has p xs
unfolding has sort_strings
has-sort_strings p [] = refl
has-sort_strings p (x ∷ xs) =
    ground (arith, has-insert_sorted p x (sort_strings xs), has-sort_strings p xs)

-- how often the test holds
unfoldable pub count : (Bytes → Bool) → List Bytes → ℕ
count p [] = 0
count p (x ∷ xs) = let rest = count p xs in if p x then suc rest else rest

count-insert_sorted :
    (p : Bytes → Bool) (x : Bytes) (xs : List Bytes)
    → count p (insert_sorted x xs) ≡ count p (x ∷ xs)
unfolding count insert_sorted
count-insert_sorted p x [] = refl
count-insert_sorted p x (y ∷ ys) = ground (arith, count-insert_sorted p x ys)

pub count-sort_strings :
    (p : Bytes → Bool) (xs : List Bytes) → count p (sort_strings xs) ≡ count p xs
unfolding count sort_strings
count-sort_strings p [] = refl
count-sort_strings p (x ∷ xs) =
    ground (arith, count-insert_sorted p x (sort_strings xs), count-sort_strings p xs)

-- In ascending order.
abbrev pub IsSorted : List Bytes → Type 0
IsSorted [] = Unit
IsSorted (x ∷ []) = Unit
IsSorted (x ∷ y ∷ ys) = (not_after x y ≡ true) × IsSorted (y ∷ ys)

not_after_total : (x y : Bytes) → not_after x y ≡ false → not_after y x ≡ true
unfolding not_after
not_after_total [] y e = cc
not_after_total (x ∷ xs) [] e = refl
not_after_total (x ∷ xs) (y ∷ ys) e = ground (arith, not_after_total xs ys)

insert_sorted-IsSorted : (x : Bytes) (xs : List Bytes) → IsSorted xs → IsSorted (insert_sorted x xs)
unfolding insert_sorted
insert_sorted-IsSorted x [] h = tt
insert_sorted-IsSorted x (y ∷ []) h = ground (arith, not_after_total x y)
insert_sorted-IsSorted x (y ∷ z ∷ zs) h =
    ground (arith, not_after_total x y, insert_sorted-IsSorted x (z ∷ zs) h.1)

pub sort_strings-IsSorted : (xs : List Bytes) → IsSorted (sort_strings xs)
unfolding sort_strings
sort_strings-IsSorted [] = tt
sort_strings-IsSorted (x ∷ xs) =
    insert_sorted-IsSorted x (sort_strings xs) (sort_strings-IsSorted xs)

IsSorted-tail : (x : Bytes) (xs : List Bytes) → IsSorted (x ∷ xs) → IsSorted xs
IsSorted-tail x [] h = tt
IsSorted-tail x (y ∷ ys) h = h.1

-- Sorting what is sorted changes nothing.
sort_strings_id : (xs : List Bytes) → IsSorted xs → sort_strings xs ≡ xs
unfolding sort_strings insert_sorted
sort_strings_id [] h = refl
sort_strings_id (x ∷ []) h = refl
sort_strings_id (x ∷ y ∷ ys) h = rw (sort_strings_id (y ∷ ys) h.1, h.0)

pub sort_strings_idem : (xs : List Bytes) → sort_strings (sort_strings xs) ≡ sort_strings xs
sort_strings_idem xs = sort_strings_id (sort_strings xs) (sort_strings-IsSorted xs)

insert_sorted-perm : (x : Bytes) (xs : List Bytes) → Perm (insert_sorted x xs) (x ∷ xs)
unfolding insert_sorted
insert_sorted-perm x [] = Perm.refl (x ∷ [])
insert_sorted-perm x (y ∷ ys) = elim (Bool-cases (not_after x y)) [
  | inl first ↦ rw first (Perm.refl (x ∷ y ∷ ys))
  | inr later ↦ rw later (Perm.trans (Perm.cons y (insert_sorted-perm x ys)) (Perm.swap x y ys))
]

-- Sorting only moves the elements.
pub sort_strings-perm : (xs : List Bytes) → Perm (sort_strings xs) xs
unfolding sort_strings
sort_strings-perm [] = Perm.refl []
sort_strings-perm (x ∷ xs) =
    Perm.trans (insert_sorted-perm x (sort_strings xs)) (Perm.cons x (sort_strings-perm xs))

-- Lists that are sorted into one list have the same elements, each as often.
pub sort_strings-inj : (xs ys : List Bytes) → sort_strings xs ≡ sort_strings ys → Perm xs ys
sort_strings-inj xs ys e =
    Perm.trans (Perm.symm (sort_strings-perm xs))
      (subst (λ zs. Perm zs ys) (sym e) (sort_strings-perm ys))

All-insert_sorted :
    (P : Bytes → Type 0) (x : Bytes) (xs : List Bytes) → P x → All P xs → All P (insert_sorted x xs)
unfolding insert_sorted
All-insert_sorted P x [] h hs = (h, tt)
All-insert_sorted P x (y ∷ ys) h hs = elim (Bool-cases (not_after x y)) [
  | inl first ↦ rw first (h, hs)
  | inr later ↦ rw later (hs.0, All-insert_sorted P x ys h hs.1)
]

pub All-sort_strings : (P : Bytes → Type 0) (xs : List Bytes) → All P xs → All P (sort_strings xs)
unfolding sort_strings
All-sort_strings P [] h = tt
All-sort_strings P (x ∷ xs) h =
    All-insert_sorted P x (sort_strings xs) h.0 (All-sort_strings P xs h.1)

-- ===== src/Http/Server/Origins.antt =====
-- Which origins the CORS middleware of httpapi/handlers.go allows.
use crypto_agent.Prelude.{
  ℕ, zero, suc, ◌<◌, Bool, true, false, not, ◌&&◌, Option, none, some, some-inj, List, [], ◌∷◌,
  Bytes, text, length, get_elem?, equal, equal→eq, equal_refl, ◌==◌, if◌then◌else◌, ◌≡◌, ◌↔◌, refl,
  sym, ap, ◌∙◌, arith, Bool-cases, inl, inr,
}
use crypto_agent.Prelude.Sorting.{has}
use crypto_agent.Http.{Response}
use crypto_agent.Http.Server.{
  Headers, Method, get, post, delete, options, other, cors_headers, cors, wrapped,
}

-- The value of a header, the first of its name.
unfoldable pub header : Bytes → Headers → Option Bytes
header name [] = none
header name ((n, v) ∷ hs) = let rest = header name hs in if equal n name then some v else rest

has-get_elem? :
    (x : Bytes) (xs : List Bytes) → has (equal x) xs ≡ true → (i : ℕ) × (get_elem? xs i ≡ some x)
unfolding has
has-get_elem? x [] h = absurd (cc h)
has-get_elem? x (y ∷ ys) h = elim (Bool-cases (equal x y)) [
  | inl same ↦ (0, ap some (sym (equal→eq x y same)))
  | inr apart ↦ let (i, found) = has-get_elem? x ys (ground (arith, h, apart)) in (suc i, found)
]

get_elem?-has :
    (x : Bytes) (xs : List Bytes) (i : ℕ) → get_elem? xs i ≡ some x → has (equal x) xs ≡ true
unfolding has
get_elem?-has x [] i h = absurd (cc h)
get_elem?-has x (y ∷ ys) zero h = rw (some-inj h, equal_refl x) refl
get_elem?-has x (y ∷ ys) (suc i) h = ground (arith, get_elem?-has x ys i h)

-- the middleware's own headers, whatever the method
cors-headers :
    {S : Type 0} (origins : List Bytes) (next : S → Response × S) (origin : Bytes) (m : Method)
    (s : S)
    → (cors origins next origin m s).0 ≡ cors_headers origins origin
unfolding cors
cors-headers origins next origin get s = refl
cors-headers origins next origin post s = refl
cors-headers origins next origin delete s = refl
cors-headers origins next origin options s = refl
cors-headers origins next origin other s = refl

-- An origin that is allowed: the request has it, and the list too.
pub IsAllowed : List Bytes → Bytes → Type 0
IsAllowed origins origin = (0 < length origin) × ((i : ℕ) × (get_elem? origins i ≡ some origin))

is_open : List Bytes → Bytes → Bool
is_open origins origin = not (length origin == 0) && has (equal origin) origins

cors_headers-open :
    (origins : List Bytes) (origin : Bytes)
    → is_open origins origin ≡ true
    → header (text "Access-Control-Allow-Origin") (cors_headers origins origin) ≡ some origin
unfolding cors_headers header is_open equal
cors_headers-open origins origin h = rw h refl

cors_headers-shut :
    (origins : List Bytes) (origin : Bytes)
    → is_open origins origin ≡ false
    → cors_headers origins origin ≡ []
unfolding cors_headers is_open
cors_headers-shut origins origin h = rw h refl

is_open-IsAllowed :
    (origins : List Bytes) (origin : Bytes)
    → (is_open origins origin ≡ true) ↔ IsAllowed origins origin
unfolding is_open IsAllowed
is_open-IsAllowed origins origin = (
  (λ h. (ground arith, has-get_elem? origin origins (ground arith))),
  λ h. let listed = get_elem?-has origin origins h.1.0 h.1.1 in ground (arith, listed, h.0),
)

cors_headers-IsAllowed :
    (origins : List Bytes) (origin v : Bytes)
    → header (text "Access-Control-Allow-Origin") (cors_headers origins origin) ≡ some v
    → (v ≡ origin) × IsAllowed origins origin
unfolding header
cors_headers-IsAllowed origins origin v h = elim (Bool-cases (is_open origins origin)) [
  | inl opened ↦ (
    some-inj (sym h ∙ cors_headers-open origins origin opened),
    (is_open-IsAllowed origins origin).0 opened,
  )
  | inr shut ↦ absurd (
      cc (
        h,
        ap (header (text "Access-Control-Allow-Origin")) (cors_headers-shut origins origin shut),
      ))
]

wrapped-headers :
    {S : Type 0} (origins : List Bytes) (next : S → Response × S) (origin : Bytes) (m : Method)
    (s : S)
    → (wrapped origins next origin m s).0 ≡ cors_headers origins origin
unfolding wrapped cors_headers has
wrapped-headers [] next origin m s = ground arith
wrapped-headers (o ∷ origins) next origin m s = cors-headers (o ∷ origins) next origin m s

-- Whatever the method, a wrapped handler's answer allows an origin exactly if it is the one that the
-- request names, which is not empty and stands in the list of the configuration.
pub cors-allows :
    {S : Type 0} (origins : List Bytes) (next : S → Response × S) (origin v : Bytes) (m : Method)
    (s : S)
    → (header (text "Access-Control-Allow-Origin") (wrapped origins next origin m s).0 ≡ some v)
      ↔ ((v ≡ origin) × IsAllowed origins origin)
cors-allows origins next origin v m s = rw (wrapped-headers origins next origin m s) (
  cors_headers-IsAllowed origins origin v,
  λ h.
      cors_headers-open origins origin ((is_open-IsAllowed origins origin).1 h.1)
      ∙ ap some (sym h.0),
)

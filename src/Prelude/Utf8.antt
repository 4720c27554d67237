-- ===== src/Prelude/Utf8.antt =====
-- Text as `encoding/json` reads it: the runes of a byte string, where a byte that begins no rune of UTF-8
-- stands for itself as an error of one byte (`utf8.DecodeRuneInString`).
use Prim.Native.Nat.{ℕ, zero, suc}
use mathlib.Core.Path.{◌≡◌, ◌∙◌, refl, sym, ap}
use mathlib.Core.Bool.{Bool, true, false, ◌&&◌}
use mathlib.Core.Logic.{◌≢◌, inl, inr}
use mathlib.Core.List.{List, [], ◌∷◌}
use native.Mathlib.Omega.{arith}
use crypto_agent.Prelude.Tests.{ltb, leb, ◌==◌, if◌then◌else◌, Bool-cases}
use crypto_agent.Prelude.Lists.{drop}
use crypto_agent.Prelude.Strings.{Bytes}

abbrev within : ℕ → ℕ → ℕ → Bool
within low high c = leb low c && leb c high

abbrev is_tail : ℕ → Bool
is_tail = within 0x80 0xbf

-- What a byte begins: a character below 0x80, a rune with so many bytes behind the first, the line
-- separator U+2028, the paragraph separator U+2029, or no rune.
pub data Start : Type 0 where
  ascii : Start
  rune : ℕ → Start
  line paragraph : Start
  broken : Start

-- the second byte is in the range, and the others are tails
unfoldable pub two : Bytes → Start
two (d ∷ s) = if is_tail d then rune 1 else broken
two _ = broken

unfoldable pub three : ℕ → ℕ → Bytes → Start
three low high (d ∷ e ∷ s) = if within low high d && is_tail e then rune 2 else broken
three low high _ = broken

unfoldable pub four : ℕ → ℕ → Bytes → Start
four low high (d ∷ e ∷ f ∷ s) =
    if within low high d && (is_tail e && is_tail f) then rune 3 else broken
four low high _ = broken

-- behind 0xe2, where the separators are
unfoldable pub behind_e2 : Bytes → Start
behind_e2 (d ∷ e ∷ s) =
    if d == 0x80 && e == 0xa8
    then line
    else if d == 0x80 && e == 0xa9
    then paragraph
    else if is_tail d && is_tail e
    then rune 2
    else broken
behind_e2 _ = broken

unfoldable pub start_general : ℕ → Bytes → Start
unfolding two three four
start_general c s =
    if ltb c 0x80
    then ascii
    else if within 0xc2 0xdf c
    then two s
    else if c == 0xe0
    then three 0xa0 0xbf s
    else if c == 0xed
    then three 0x80 0x9f s
    else if within 0xe1 0xef c
    then three 0x80 0xbf s
    else if c == 0xf0
    then four 0x90 0xbf s
    else if within 0xf1 0xf3 c
    then four 0x80 0xbf s
    else if c == 0xf4
    then four 0x80 0x8f s
    else broken

unfoldable pub start : ℕ → Bytes → Start
unfolding start_general behind_e2
start c s = if c == 0xe2 then behind_e2 s else start_general c s

-- What the encoder writes one after the other: a byte of a rune, a separator, or an error.
pub data Piece : Type 0 where
  byte : ℕ → Piece
  line_separator paragraph_separator invalid : Piece

unfoldable pub first_piece : ℕ → Start → Piece
first_piece c line = line_separator
first_piece c paragraph = paragraph_separator
first_piece c broken = invalid
first_piece c _ = byte c

-- how many of the bytes behind the first go through, and how many are left out
unfoldable pub copied : Start → ℕ
copied (rune n) = n
copied _ = 0

unfoldable pub skipped : Start → ℕ
skipped line = 2
skipped paragraph = 2
skipped _ = 0

unfoldable pub pieces_from : ℕ → ℕ → Bytes → List Piece
unfolding start first_piece copied skipped
pieces_from k j [] = []
pieces_from k (suc j) (c ∷ s) = pieces_from k j s
pieces_from (suc k) zero (c ∷ s) = byte c ∷ pieces_from k zero s
pieces_from zero zero (c ∷ s) =
    let x = start c s in let rest = pieces_from (copied x) (skipped x) s in first_piece c x ∷ rest

unfoldable pub pieces : Bytes → List Piece
unfolding pieces_from
pieces s = pieces_from 0 0 s

unfoldable pub no_errors : List Piece → Bool
no_errors [] = true
no_errors (invalid ∷ ps) = false
no_errors (_ ∷ ps) = no_errors ps

-- `utf8.ValidString`
unfoldable pub is_utf8 : Bytes → Bool
unfolding no_errors pieces
is_utf8 s = no_errors (pieces s)

-- the bytes of what was written
abbrev unpiece : List Piece → Bytes
unpiece [] = []
unpiece (byte c ∷ ps) = c ∷ unpiece ps
unpiece (line_separator ∷ ps) = 0xe2 ∷ 0x80 ∷ 0xa8 ∷ unpiece ps
unpiece (paragraph_separator ∷ ps) = 0xe2 ∷ 0x80 ∷ 0xa9 ∷ unpiece ps
unpiece (invalid ∷ ps) = unpiece ps

behind_e2-line : (s : Bytes) → behind_e2 s ≡ line → s ≡ 0x80 ∷ 0xa8 ∷ drop 2 s
unfolding behind_e2
behind_e2-line [] h = absurd (cc h)
behind_e2-line (d ∷ []) h = absurd (cc h)
behind_e2-line (d ∷ e ∷ s) h = ground (arith, h)

behind_e2-paragraph : (s : Bytes) → behind_e2 s ≡ paragraph → s ≡ 0x80 ∷ 0xa9 ∷ drop 2 s
unfolding behind_e2
behind_e2-paragraph [] h = absurd (cc h)
behind_e2-paragraph (d ∷ []) h = absurd (cc h)
behind_e2-paragraph (d ∷ e ∷ s) h = ground (arith, h)

-- no separator
abbrev IsPlain : Start → Type 0
IsPlain x = (x ≢ line) × (x ≢ paragraph)

rune-IsPlain : (n : ℕ) → IsPlain (rune n)
rune-IsPlain n = (λ e. absurd (cc e), λ e. absurd (cc e))

broken-IsPlain : IsPlain broken
broken-IsPlain = (λ e. absurd (cc e), λ e. absurd (cc e))

ascii-IsPlain : IsPlain ascii
ascii-IsPlain = (λ e. absurd (cc e), λ e. absurd (cc e))

either-IsPlain : (b : Bool) (x y : Start) → IsPlain x → IsPlain y → IsPlain (if b then x else y)
either-IsPlain true x y hx hy = hx
either-IsPlain false x y hx hy = hy

two-IsPlain : (s : Bytes) → IsPlain (two s)
unfolding two
two-IsPlain [] = broken-IsPlain
two-IsPlain (d ∷ s) = either-IsPlain _ _ _ (rune-IsPlain 1) broken-IsPlain

three-IsPlain : (low high : ℕ) (s : Bytes) → IsPlain (three low high s)
unfolding three
three-IsPlain low high [] = broken-IsPlain
three-IsPlain low high (d ∷ []) = broken-IsPlain
three-IsPlain low high (d ∷ e ∷ s) = either-IsPlain _ _ _ (rune-IsPlain 2) broken-IsPlain

four-IsPlain : (low high : ℕ) (s : Bytes) → IsPlain (four low high s)
unfolding four
four-IsPlain low high [] = broken-IsPlain
four-IsPlain low high (d ∷ []) = broken-IsPlain
four-IsPlain low high (d ∷ e ∷ []) = broken-IsPlain
four-IsPlain low high (d ∷ e ∷ f ∷ s) = either-IsPlain _ _ _ (rune-IsPlain 3) broken-IsPlain

start_general-IsPlain : (c : ℕ) (s : Bytes) → IsPlain (start_general c s)
unfolding start_general
start_general-IsPlain c s = either-IsPlain (ltb c 0x80) ascii _ ascii-IsPlain (
    either-IsPlain _ _ _ (two-IsPlain s) (
      either-IsPlain _ _ _ (three-IsPlain 0xa0 0xbf s) (
        either-IsPlain _ _ _ (three-IsPlain 0x80 0x9f s) (
          either-IsPlain _ _ _ (three-IsPlain 0x80 0xbf s) (
            either-IsPlain _ _ _ (four-IsPlain 0x90 0xbf s) (
              either-IsPlain _ _ _ (four-IsPlain 0x80 0xbf s)
                (either-IsPlain _ _ _ (four-IsPlain 0x80 0x8f s) broken-IsPlain)))))))

start-line : (c : ℕ) (s : Bytes) → start c s ≡ line → (c ≡ 0xe2) × (s ≡ 0x80 ∷ 0xa8 ∷ drop 2 s)
unfolding start
start-line c s h = elim (Bool-cases (c == 0xe2)) [
  | inl same ↦ (ground (arith, same), behind_e2-line s (rw same at h))
  | inr e ↦ absurd ((start_general-IsPlain c s).0 (rw e at h))
]

start-paragraph :
    (c : ℕ) (s : Bytes) → start c s ≡ paragraph → (c ≡ 0xe2) × (s ≡ 0x80 ∷ 0xa9 ∷ drop 2 s)
unfolding start
start-paragraph c s h = elim (Bool-cases (c == 0xe2)) [
  | inl same ↦ (ground (arith, same), behind_e2-paragraph s (rw same at h))
  | inr e ↦ absurd ((start_general-IsPlain c s).1 (rw e at h))
]

first-unpiece :
    (c : ℕ) (s : Bytes) (x : Start) (ps : List Piece)
    → start c s ≡ x
    → no_errors (first_piece c x ∷ ps) ≡ true
    → (no_errors ps ≡ true → unpiece ps ≡ drop (skipped x) s)
    → unpiece (first_piece c x ∷ ps) ≡ c ∷ s
unfolding first_piece skipped no_errors
first-unpiece c s ascii ps e h rest = ap (λ t. c ∷ t) (rest h)
first-unpiece c s (rune n) ps e h rest = ap (λ t. c ∷ t) (rest h)
first-unpiece c s broken ps e h rest = absurd (cc h)
first-unpiece c s line ps e h rest =
    let (first, behind) = start-line c s e in cc (first, behind, rest h)
first-unpiece c s paragraph ps e h rest =
    let (first, behind) = start-paragraph c s e in cc (first, behind, rest h)

-- Valid text is written as it is, but for the separators, whose bytes come back.
unpiece-pieces_from :
    (k j : ℕ) (s : Bytes)
    → no_errors (pieces_from k j s) ≡ true
    → unpiece (pieces_from k j s) ≡ drop j s
unfolding pieces_from no_errors
unpiece-pieces_from k zero [] h = refl
unpiece-pieces_from k (suc j) [] h = refl
unpiece-pieces_from k (suc j) (c ∷ s) h = unpiece-pieces_from k j s h
unpiece-pieces_from (suc k) zero (c ∷ s) h = ap (λ t. c ∷ t) (unpiece-pieces_from k zero s h)
unpiece-pieces_from zero zero (c ∷ s) h =
    let x = start c s in
    first-unpiece c s x (pieces_from (copied x) (skipped x) s) refl h
      (unpiece-pieces_from (copied x) (skipped x) s)

-- Valid texts that are written alike are alike.
pub pieces-inj : (s t : Bytes) → is_utf8 s ≡ true → is_utf8 t ≡ true → pieces s ≡ pieces t → s ≡ t
unfolding pieces is_utf8
pieces-inj s t hs ht e =
    sym (unpiece-pieces_from 0 0 s hs) ∙ ap unpiece e ∙ unpiece-pieces_from 0 0 t ht

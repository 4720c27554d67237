-- ===== src/Prelude/Json/Prefix.antt =====
-- A value that is written is known from the front of any text that it begins.
use Prim.Native.Nat.{ℕ, ◌+◌, ◌*◌, ◌/◌, ◌%◌, ◌<◌, ◌^◌}
use mathlib.Core.Path.{◌≡◌, ◌∙◌, refl, sym, ap}
use mathlib.Core.Logic.{◌≢◌, inl, inr}
use mathlib.Core.Bool.{true}
use mathlib.Core.Option.{Option, none, some}
use mathlib.Core.List.{List, [], ◌∷◌, ◌++◌, append_assoc, append_cancel_left}
use native.Mathlib.Omega.{arith}
use crypto_agent.Prelude.Tests.{ltb, ◌==◌, if◌then◌else◌, some-inj, Bool-cases}
use crypto_agent.Prelude.Lists.{All}
use crypto_agent.Prelude.Strings.{Bytes, text}
use crypto_agent.Prelude.Int64.{Int64, is_negative, neg_int64}
use crypto_agent.Prelude.Hex.{hex_digit, hex_value, hex_value-hex_digit}
use crypto_agent.Prelude.Numerals.{format_uint, parse_uint, parse_uint-format_uint, All-format_uint}
use crypto_agent.Prelude.Json.{
  escape_char, print_piece, print_pieces, escape, quote, format_int, print_rest, print_strings,
}
use crypto_agent.Prelude.Utf8.{
  Piece, byte, line_separator, paragraph_separator, invalid, pieces, is_utf8, pieces-inj,
}

abbrev tail : Bytes → Bytes
tail [] = []
tail (c ∷ s) = s

-- the reading of one piece between the quotes: of a separator by its last digit
separator : ℕ → Piece
separator l = if l == b'8' then line_separator else paragraph_separator

read_hex : Bytes → Option (Piece × Bytes)
unfolding separator
read_hex (a ∷ _ ∷ h ∷ l ∷ s) =
    if a == b'2'
    then some (separator l, s)
    else if a == b'f'
    then some (invalid, s)
    else both (hex_value h) (hex_value l) s
  where
    both : Option ℕ → Option ℕ → Bytes → Option (Piece × Bytes)
    both (some h) (some l) s = some (byte (h * 16 + l), s)
    both _ _ s = none
read_hex _ = none

read_escape : Bytes → Option (Piece × Bytes)
unfolding read_hex
read_escape [] = none
read_escape (c ∷ s) =
    if c == b'b'
    then some (byte 8, s)
    else if c == b'f'
    then some (byte 12, s)
    else if c == b'n'
    then some (byte 10, s)
    else if c == b'r'
    then some (byte 13, s)
    else if c == b't'
    then some (byte 9, s)
    else if c == b'u'
    then read_hex s
    else some (byte c, s)

read_piece : Bytes → Option (Piece × Bytes)
unfolding read_escape
read_piece [] = none
read_piece (c ∷ s) = let escaped = read_escape s in if c == b'\\' then escaped else some (byte c, s)

read_piece-escape_char : (c : ℕ) (s : Bytes) → read_piece (escape_char c ++ s) ≡ some (byte c, s)
unfolding read_piece read_escape read_hex escape_char
read_piece-escape_char c s = elim (Bool-cases (ltb c 32)) [
  | inr plain ↦ ground arith
  | inl control ↦
      let small : c < 32 = ground arith in
      ground (
        arith,
        hex_value-hex_digit (c / 16) (omega arith),
        hex_value-hex_digit (c % 16) (omega arith),
      )
]

read_piece-print_piece : (p : Piece) (s : Bytes) → read_piece (print_piece p ++ s) ≡ some (p, s)
unfolding read_piece read_escape read_hex separator print_piece
read_piece-print_piece (byte c) s = read_piece-escape_char c s
read_piece-print_piece line_separator s = refl
read_piece-print_piece paragraph_separator s = refl
read_piece-print_piece invalid s = refl

escape_char-ne-quote : (c : ℕ) (s u : Bytes) → escape_char c ++ s ≢ b'"' ∷ u
unfolding escape_char
escape_char-ne-quote c s u e = ground arith

print_piece-ne-quote : (p : Piece) (s u : Bytes) → print_piece p ++ s ≢ b'"' ∷ u
unfolding print_piece
print_piece-ne-quote (byte c) s u e = escape_char-ne-quote c s u e
print_piece-ne-quote line_separator s u e = absurd (ground (arith, e))
print_piece-ne-quote paragraph_separator s u e = absurd (ground (arith, e))
print_piece-ne-quote invalid s u e = absurd (ground (arith, e))

print_pieces-prefix :
    (s t : List Piece) (r u : Bytes)
    → print_pieces s ++ (b'"' ∷ r) ≡ print_pieces t ++ (b'"' ∷ u)
    → (s ≡ t) × (r ≡ u)
unfolding print_pieces
print_pieces-prefix [] [] r u e = (refl, ap tail e)
print_pieces-prefix [] (d ∷ t) r u e = absurd (
    print_piece-ne-quote d (print_pieces t ++ (b'"' ∷ u)) r
      (sym (e ∙ append_assoc (print_piece d) (print_pieces t) (b'"' ∷ u))))
print_pieces-prefix (c ∷ s) [] r u e = absurd (
    print_piece-ne-quote c (print_pieces s ++ (b'"' ∷ r)) u
      (sym (append_assoc (print_piece c) (print_pieces s) (b'"' ∷ r)) ∙ e))
print_pieces-prefix (c ∷ s) (d ∷ t) r u e =
    let whole =
      sym (append_assoc (print_piece c) (print_pieces s) (b'"' ∷ r))
      ∙ e
      ∙ append_assoc (print_piece d) (print_pieces t) (b'"' ∷ u) in
    let read = some-inj (
      sym (read_piece-print_piece c (print_pieces s ++ (b'"' ∷ r)))
      ∙ ap read_piece whole
      ∙ read_piece-print_piece d (print_pieces t ++ (b'"' ∷ u))) in
    let (same, rest) = print_pieces-prefix s t r u (ap (λ p. p.1) read) in
    (cc (same, ap (λ p. p.0) read), rest)

-- What `utf8.ValidString` accepts.
abbrev pub IsUtf8 : Bytes → Type 0
IsUtf8 s = is_utf8 s ≡ true

pub quote-prefix :
    (s t r u : Bytes) → IsUtf8 s → IsUtf8 t → quote s ++ r ≡ quote t ++ u → (s ≡ t) × (r ≡ u)
unfolding quote escape
quote-prefix s t r u hs ht e =
    let (same, rest) = print_pieces-prefix (pieces s) (pieces t) r u (
      sym (append_assoc (escape s) (b'"' ∷ []) r)
      ∙ ap tail e
      ∙ append_assoc (escape t) (b'"' ∷ []) u) in
    (pieces-inj s t hs ht same, rest)

-- what an integer is written in: neither a comma nor a brace
abbrev IsNumeral : ℕ → Type 0
IsNumeral c = (c ≢ b',') × (c ≢ b'}')

-- a digit of a number
abbrev IsUnsigned : ℕ → Type 0
IsUnsigned c = (c ≢ b'-') × IsNumeral c

hex_digit-IsUnsigned : (d : ℕ) → d < 16 → IsUnsigned (hex_digit d)
unfolding hex_digit
hex_digit-IsUnsigned d h = ground arith

format_uint-IsUnsigned : (v : ℕ) → All IsUnsigned (format_uint 10 v)
format_uint-IsUnsigned v =
    All-format_uint IsUnsigned 10 (λ w. omega arith) (omega arith) hex_digit-IsUnsigned v

All-IsNumeral : (s : Bytes) → All IsUnsigned s → All IsNumeral s
All-IsNumeral [] h = tt
All-IsNumeral (c ∷ s) h = (h.0.1, All-IsNumeral s h.1)

format_int-IsNumeral : (v : Int64) → All IsNumeral (format_int v)
unfolding format_int
format_int-IsNumeral v = elim (Bool-cases (is_negative v)) [
  | inl minus ↦ rw minus (
    ((λ e. absurd (omega (arith, e))), λ e. absurd (omega (arith, e))),
    All-IsNumeral _ (format_uint-IsUnsigned (neg_int64 v)),
  )
  | inr plus ↦ rw plus (All-IsNumeral _ (format_uint-IsUnsigned v))
]

format_uint-inj : (v w : ℕ) → v < 2 ^ 64 → w < 2 ^ 64 → format_uint 10 v ≡ format_uint 10 w → v ≡ w
format_uint-inj v w hv hw e =
    some-inj
      (sym (parse_uint-format_uint v hv) ∙ ap (parse_uint 10) e ∙ parse_uint-format_uint w hw)

unsigned_head : (s t : Bytes) → All IsUnsigned s → s ≢ b'-' ∷ t
unsigned_head [] t h e = absurd (cc e)
unsigned_head (c ∷ s) t h e = ground (arith, e, h)

neg_int64-inj :
    (v w : Int64)
    → v < 2 ^ 64
    → w < 2 ^ 64
    → is_negative v ≡ true
    → is_negative w ≡ true
    → neg_int64 v ≡ neg_int64 w
    → v ≡ w
neg_int64-inj v w hv hw nv nw e = ground (arith, e)

pub format_int-inj : (v w : Int64) → v < 2 ^ 64 → w < 2 ^ 64 → format_int v ≡ format_int w → v ≡ w
unfolding format_int
format_int-inj v w hv hw e = elim (Bool-cases (is_negative v)) [
  | inl nv ↦ elim (Bool-cases (is_negative w)) [
    | inl nw ↦ neg_int64-inj v w hv hw nv nw (
        format_uint-inj (neg_int64 v) (neg_int64 w) (omega arith) (omega arith)
          (ap tail (rw (nv, nw) at e)))
    | inr pw ↦ absurd (unsigned_head _ _ (format_uint-IsUnsigned w) (sym (rw (nv, pw) at e)))
  ]
  | inr pv ↦ elim (Bool-cases (is_negative w)) [
    | inl nw ↦ absurd (unsigned_head _ _ (format_uint-IsUnsigned v) (rw (pv, nw) at e))
    | inr pw ↦ format_uint-inj v w hv hw (rw (pv, pw) at e)
  ]
]

-- up to a character that stands in neither part
stop-prefix :
    (stop : ℕ) (s t r u : Bytes)
    → All (λ c. c ≢ stop) s
    → All (λ c. c ≢ stop) t
    → s ++ (stop ∷ r) ≡ t ++ (stop ∷ u)
    → (s ≡ t) × (r ≡ u)
stop-prefix stop [] [] r u hs ht e = (refl, ap tail e)
stop-prefix stop [] (d ∷ t) r u hs ht e = absurd (ground (arith, e, ht.0))
stop-prefix stop (c ∷ s) [] r u hs ht e = absurd (ground (arith, e, hs.0))
stop-prefix stop (c ∷ s) (d ∷ t) r u hs ht e =
    let (same, rest) = stop-prefix stop s t r u hs.1 ht.1 (ap tail e) in
    (ground (arith, e, same), rest)

no_brace : (s : Bytes) → All IsNumeral s → All (λ c. c ≢ b'}') s
no_brace [] h = tt
no_brace (c ∷ s) h = (h.0.1, no_brace s h.1)

no_comma : (s : Bytes) → All IsNumeral s → All (λ c. c ≢ b',') s
no_comma [] h = tt
no_comma (c ∷ s) h = (h.0.0, no_comma s h.1)

pub format_int-comma :
    (v w : Int64) (r u : Bytes)
    → v < 2 ^ 64
    → w < 2 ^ 64
    → format_int v ++ (b',' ∷ r) ≡ format_int w ++ (b',' ∷ u)
    → (v ≡ w) × (r ≡ u)
format_int-comma v w r u hv hw e =
    let (same, rest) =
      stop-prefix b',' _ _ r u (no_comma _ (format_int-IsNumeral v))
        (no_comma _ (format_int-IsNumeral w)) e in
    (format_int-inj v w hv hw same, rest)

pub format_int-brace :
    (v w : Int64) (r u : Bytes)
    → v < 2 ^ 64
    → w < 2 ^ 64
    → format_int v ++ (b'}' ∷ r) ≡ format_int w ++ (b'}' ∷ u)
    → (v ≡ w) × (r ≡ u)
format_int-brace v w r u hv hw e =
    let (same, rest) =
      stop-prefix b'}' _ _ r u (no_brace _ (format_int-IsNumeral v))
        (no_brace _ (format_int-IsNumeral w)) e in
    (format_int-inj v w hv hw same, rest)

print_rest-prefix :
    (ss ts : List Bytes) (r u : Bytes)
    → All IsUtf8 ss
    → All IsUtf8 ts
    → print_rest ss ++ r ≡ print_rest ts ++ u
    → (ss ≡ ts) × (r ≡ u)
unfolding print_rest
print_rest-prefix [] [] r u hs ht e = (refl, ap tail e)
print_rest-prefix [] (t ∷ ts) r u hs ht e = absurd (ground (arith, e))
print_rest-prefix (s ∷ ss) [] r u hs ht e = absurd (ground (arith, e))
print_rest-prefix (s ∷ ss) (t ∷ ts) r u hs ht e =
    let (one, behind) = quote-prefix s t (print_rest ss ++ r) (print_rest ts ++ u) hs.0 ht.0 (
      sym (append_assoc (quote s) (print_rest ss) r)
      ∙ ap tail e
      ∙ append_assoc (quote t) (print_rest ts) u) in
    let (more, rest) = print_rest-prefix ss ts r u hs.1 ht.1 behind in (cc (one, more), rest)

pub print_strings-prefix :
    (ss ts : List Bytes) (r u : Bytes)
    → All IsUtf8 ss
    → All IsUtf8 ts
    → print_strings ss ++ r ≡ print_strings ts ++ u
    → (ss ≡ ts) × (r ≡ u)
unfolding print_strings
print_strings-prefix [] [] r u hs ht e = (refl, append_cancel_left (text "null") r u e)
print_strings-prefix [] (t ∷ ts) r u hs ht e = absurd (ground (arith, e))
print_strings-prefix (s ∷ ss) [] r u hs ht e = absurd (ground (arith, e))
print_strings-prefix (s ∷ ss) (t ∷ ts) r u hs ht e =
    let (one, behind) = quote-prefix s t (print_rest ss ++ r) (print_rest ts ++ u) hs.0 ht.0 (
      sym (append_assoc (quote s) (print_rest ss) r)
      ∙ ap tail e
      ∙ append_assoc (quote t) (print_rest ts) u) in
    let (more, rest) = print_rest-prefix ss ts r u hs.1 ht.1 behind in (cc (one, more), rest)

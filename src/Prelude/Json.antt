-- ===== src/Prelude/Json.antt =====
-- What `encoding/json` writes with HTML escapes off: strings, lists of strings, signed integers, and
-- objects of such. In a string the separators U+2028 and U+2029 are escaped, and each byte that begins no
-- rune of UTF-8 is written as the escape of U+FFFD; other text from 0x80 on goes through unchanged.
pub mod Prefix
use Prim.Native.Nat.{ℕ, zero, suc, ◌+◌, ◌*◌, ◌/◌, ◌%◌, ◌<◌}
use mathlib.Core.Bool.{Bool, true, false}
use mathlib.Core.Option.{Option, none, some}
use mathlib.Core.List.{List, [], ◌∷◌, ◌++◌}
use crypto_agent.Prelude.Tests.{ltb, ◌==◌, if◌then◌else◌}
use crypto_agent.Prelude.Strings.{Bytes, text}
use crypto_agent.Prelude.Utf8.{Piece, byte, line_separator, paragraph_separator, invalid, pieces}
use crypto_agent.Prelude.Int64.{Int64, is_negative, neg_int64}
use crypto_agent.Prelude.Hex.{hex_digit}
use crypto_agent.Prelude.Numerals.{format_uint}

-- what stands for a character between the quotes
unfoldable pub escape_char : ℕ → Bytes
unfolding hex_digit
escape_char c =
    if c == b'"'
    then b'\\' ∷ b'"' ∷ []
    else if c == b'\\'
    then b'\\' ∷ b'\\' ∷ []
    else if c == 8
    then b'\\' ∷ b'b' ∷ []
    else if c == 12
    then b'\\' ∷ b'f' ∷ []
    else if c == 10
    then b'\\' ∷ b'n' ∷ []
    else if c == 13
    then b'\\' ∷ b'r' ∷ []
    else if c == 9
    then b'\\' ∷ b't' ∷ []
    else if ltb c 32
    then b'\\' ∷ b'u' ∷ b'0' ∷ b'0' ∷ hex_digit (c / 16) ∷ hex_digit (c % 16) ∷ []
    else c ∷ []

unfoldable pub print_piece : Piece → Bytes
unfolding escape_char
print_piece (byte c) = escape_char c
print_piece line_separator = text "\\u2028"
print_piece paragraph_separator = text "\\u2029"
print_piece invalid = text "\\ufffd"

unfoldable pub print_pieces : List Piece → Bytes
unfolding print_piece
print_pieces [] = []
print_pieces (p ∷ ps) = print_piece p ++ print_pieces ps

unfoldable pub escape : Bytes → Bytes
unfolding print_pieces pieces
escape s = print_pieces (pieces s)

unfoldable pub quote : Bytes → Bytes
unfolding escape
quote s = b'"' ∷ (escape s ++ (b'"' ∷ []))

unfoldable pub format_int : Int64 → Bytes
format_int v = if is_negative v then b'-' ∷ format_uint 10 (neg_int64 v) else format_uint 10 v

-- the elements behind the first one, and the closing bracket
unfoldable pub print_rest : List Bytes → Bytes
unfolding quote
print_rest [] = b']' ∷ []
print_rest (s ∷ ss) = b',' ∷ (quote s ++ print_rest ss)

-- a list of strings; Go's nil slice is `null`
unfoldable pub print_strings : List Bytes → Bytes
unfolding print_rest
print_strings [] = text "null"
print_strings (s ∷ ss) = b'[' ∷ (quote s ++ print_rest ss)

-- ===== src/Anchor/Cast/Arguments.antt =====
-- What reaches the `cast` command (client.go), and how its numbers are read back (cast_parse.go).
use crypto_agent.Prelude.{
  ℕ, ◌%◌, ◌^◌, ◌≤◌, ◌<◌, true, false, Option, none, some, [], ◌∷◌, ◌++◌, Bytes, text, length, drop,
  ◌==◌, ok, ◌≡◌, refl, arith, All, inl, inr, get_elem?, ◌≢◌, ◌⊎◌,
}
use crypto_agent.Prelude.Hex.{hex_digit, hex_decode, hex_decode-hex_encode}
use crypto_agent.Prelude.Numerals.{
  parse_uint, format_uint, All-format_uint, parse_uint-lt, parse_uint-format_uint,
  parse_uint-format_hex,
}
use crypto_agent.Prelude.Text.{trim_space, trim_space-solid, is_space, IsSolid, has_prefix}
use crypto_agent.Prelude.Int64.{Int64}
use crypto_agent.Anchor.{CommitReceipt}
use crypto_agent.Anchor.Cast.{parse_hex_uint, parse_cast_send_output, CastClient, cast_command}

-- an argument, decoded
abbrev pub bind_arg : {A : Type 0} → (Bytes → Option A) → Option Bytes → Option A
bind_arg decode none = none
bind_arg decode (some s) = decode s

-- neither a space nor an `x`
abbrev IsPlain : ℕ → Type 0
IsPlain c = (is_space c ≡ false) × (c ≢ 120) × (c ≢ 88)

hex_digit-IsPlain : (d : ℕ) → d < 16 → IsPlain (hex_digit d)
unfolding hex_digit is_space
hex_digit-IsPlain d h = ground arith

All-IsSolid : (s : Bytes) → All IsPlain s → All IsSolid s
All-IsSolid [] h = tt
All-IsSolid (c ∷ s) h = (h.0.0, All-IsSolid s h.1)

no_prefix :
    (x : ℕ) (s : Bytes) → All IsPlain s → (x ≡ 120) ⊎ (x ≡ 88) → has_prefix (48 ∷ x ∷ []) s ≡ false
unfolding has_prefix
no_prefix x [] h k = refl
no_prefix x (c ∷ []) h k = ground arith
no_prefix x (c ∷ d ∷ s) h k = ground arith

format_uint-IsPlain :
    (base v : ℕ) → base ≤ 16 → ((w : ℕ) → w % base < 16) → All IsPlain (format_uint base v)
format_uint-IsPlain base v h small = All-format_uint IsPlain base small h hex_digit-IsPlain v

nonempty : (base v w : ℕ) (s : Bytes) → parse_uint base s ≡ some w → (length s == 0) ≡ false
unfolding parse_uint
nonempty base v w [] h = absurd (cc h)
nonempty base v w (c ∷ s) h = ground arith

prefixed : (s : Bytes) → All IsSolid s → All IsSolid (48 ∷ 120 ∷ s)
unfolding is_space
prefixed s h = (refl, (refl, h))

has_text : (c : ℕ) (s : Bytes) → (length (c ∷ s) == 0) ≡ false
has_text c s = ground arith

has_prefix_x : (s : Bytes) → has_prefix (48 ∷ 120 ∷ []) (48 ∷ 120 ∷ s) ≡ true
unfolding has_prefix
has_prefix_x s = refl

read_decimal : (v : ℕ) → v < 2 ^ 64 → parse_hex_uint (format_uint 10 v) ≡ some v
unfolding parse_hex_uint
read_decimal v h =
    let plain = format_uint-IsPlain 10 v (omega arith) (λ w. omega arith) in
    let back = parse_uint-format_uint v h in
    rw
      (
        trim_space-solid (format_uint 10 v) (All-IsSolid _ plain),
        nonempty 10 v v (format_uint 10 v) back,
        no_prefix 120 (format_uint 10 v) plain (inl refl),
        no_prefix 88 (format_uint 10 v) plain (inr refl),
      )
      back

read_hexadecimal : (v : ℕ) → v < 2 ^ 64 → parse_hex_uint (48 ∷ 120 ∷ format_uint 16 v) ≡ some v
unfolding parse_hex_uint
read_hexadecimal v h =
    let plain = format_uint-IsPlain 16 v (omega arith) (λ w. omega arith) in
    rw
      (
        trim_space-solid (48 ∷ 120 ∷ format_uint 16 v) (prefixed _ (All-IsSolid _ plain)),
        has_text 48 (120 ∷ format_uint 16 v),
        has_prefix_x (format_uint 16 v),
      )
      (parse_uint-format_hex v h)

-- A 64-bit block number is read back from decimal text, and from hexadecimal text behind `0x`.
pub parse_hex_uint-format :
    (v : ℕ)
    → v < 2 ^ 64
    → (parse_hex_uint (format_uint 10 v) ≡ some v)
      × (parse_hex_uint (text "0x" ++ format_uint 16 v) ≡ some v)
parse_hex_uint-format v h = (read_decimal v h, read_hexadecimal v h)

-- The block number of a parsed receipt has 64 bits, its hash is not empty and it has the id 0.
pub parse_cast_send_output-bounds :
    (found : Option (Bytes × Bytes)) (r : CommitReceipt)
    → parse_cast_send_output found ≡ ok r
    → (r.block_number < 2 ^ 64) × (r.tx_hash ≢ []) × (r.id ≡ 0)
unfolding parse_cast_send_output parse_hex_uint
parse_cast_send_output-bounds none r e = absurd (cc e)
parse_cast_send_output-bounds (some (hash, number)) r e = ground (
  arith,
  parse_uint-lt 16 r.block_number (drop 2 (trim_space number)),
  parse_uint-lt 10 r.block_number (trim_space number),
)

-- The arguments of `cast` decode to the size, the root and the time that `Commit` was given, and neither
-- they nor the name of the command depend on the private key.
pub cast_command-arguments :
    (c : CastClient) (other : Bytes) (tree_size : ℕ) (root : Bytes) (unix : Int64)
    → tree_size < 2 ^ 64
    → unix < 2 ^ 64
    → All (λ v. v < 256) root
    → (bind_arg (parse_uint 10) (get_elem? (cast_command c tree_size root unix).args 6)
        ≡ some tree_size)
      × (bind_arg
            (λ s. hex_decode (drop 2 s))
            (get_elem? (cast_command c tree_size root unix).args 7)
          ≡ some root)
      × (bind_arg (parse_uint 10) (get_elem? (cast_command c tree_size root unix).args 8)
          ≡ some unix)
      × ((cast_command (record c { private_key = other }) tree_size root unix).args
          ≡ (cast_command c tree_size root unix).args)
      × ((cast_command (record c { private_key = other }) tree_size root unix).name
          ≡ (cast_command c tree_size root unix).name)
unfolding cast_command
cast_command-arguments c other tree_size root unix h k bytes = (
  parse_uint-format_uint tree_size h,
  hex_decode-hex_encode root bytes,
  parse_uint-format_uint unix k,
  refl,
  refl,
)

-- ===== src/Prelude/Hex.antt =====
-- Lower-case hexadecimal text of bytes: `hexEncode` of go-key-service/internal/auditlog/pipeline.go,
-- and `hex.EncodeToString`, which writes the same.
use Prim.Native.Nat.{ℕ, suc, ◌+◌, ◌-◌, ◌*◌, ◌/◌, ◌%◌, ◌<◌}
use mathlib.Core.Path.{◌≡◌, refl, ap}
use mathlib.Core.List.{[], ◌∷◌}
use native.Mathlib.Omega.{arith}
use mathlib.Core.Bool.{◌&&◌}
use mathlib.Core.Option.{Option, none, some}
use crypto_agent.Prelude.Tests.{ltb, leb, if◌then◌else◌, some-inj}
use crypto_agent.Prelude.Lists.{length, All}
use crypto_agent.Prelude.Strings.{Bytes}

-- `"0123456789abcdef"[d]`
unfoldable pub hex_digit : ℕ → ℕ
hex_digit d = if ltb d 10 then d + b'0' else d + 87

unfoldable pub hex_encode : Bytes → Bytes
unfolding hex_digit
hex_encode [] = []
hex_encode (v ∷ b) = hex_digit (v / 16) ∷ hex_digit (v % 16) ∷ hex_encode b

pub length-hex_encode : (b : Bytes) → length (hex_encode b) ≡ 2 * length b
unfolding hex_encode
length-hex_encode [] = refl
length-hex_encode (v ∷ b) = omega (arith, length-hex_encode b)

digit_inj : (c d : ℕ) → c < 16 → d < 16 → hex_digit c ≡ hex_digit d → c ≡ d
unfolding hex_digit
digit_inj c d hc hd e = ground arith

-- Byte strings with one hexadecimal text are equal.
pub hex_encode-inj :
    (a b : Bytes)
    → All (λ v. v < 256) a
    → All (λ v. v < 256) b
    → hex_encode a ≡ hex_encode b
    → a ≡ b
unfolding hex_encode
hex_encode-inj [] [] ha hb e = refl
hex_encode-inj [] (w ∷ b) ha hb e = absurd (cc)
hex_encode-inj (v ∷ a) [] ha hb e = absurd (cc)
hex_encode-inj (v ∷ a) (w ∷ b) ha hb e =
    let hi = digit_inj (v / 16) (w / 16) (omega arith) (omega arith) (cc) in
    let lo = digit_inj (v % 16) (w % 16) (omega arith) (omega arith) (cc) in
    let same : v ≡ w = omega arith in cc (same, hex_encode-inj a b ha.1 hb.1 (cc))

-- the value of a digit, of either case
unfoldable pub hex_value : ℕ → Option ℕ
hex_value c =
    if leb b'0' c && leb c b'9'
    then some (c - 48)
    else if leb b'a' c && leb c b'f'
    then some (c - 87)
    else if leb b'A' c && leb c b'F'
    then some (c - 55)
    else none

abbrev join_digits : Option ℕ → Option ℕ → Option Bytes → Option Bytes
join_digits (some h) (some l) (some b) = some ((h * 16 + l) ∷ b)
join_digits _ _ _ = none

-- `hex.DecodeString`: two digits a byte, or an error
unfoldable pub hex_decode : Bytes → Option Bytes
unfolding hex_value
hex_decode [] = some []
hex_decode (h ∷ []) = none
hex_decode (h ∷ l ∷ s) = join_digits (hex_value h) (hex_value l) (hex_decode s)

pub hex_value-hex_digit : (d : ℕ) → d < 16 → hex_value (hex_digit d) ≡ some d
unfolding hex_value hex_digit
hex_value-hex_digit d h = ground arith

-- Decoding undoes encoding.
pub hex_decode-hex_encode : (b : Bytes) → All (λ v. v < 256) b → hex_decode (hex_encode b) ≡ some b
unfolding hex_decode hex_encode
hex_decode-hex_encode [] h = refl
hex_decode-hex_encode (v ∷ b) h =
    rw
      (
        hex_value-hex_digit (v / 16) (omega (arith, h.0)),
        hex_value-hex_digit (v % 16) (omega arith),
        hex_decode-hex_encode b h.1,
      )
      (ap (λ (w : ℕ). some (w ∷ b)) (omega arith))

decoded :
    (h l : Option ℕ) (r : Option Bytes) (s b : Bytes)
    → join_digits h l r ≡ some b
    → ((c : Bytes) → r ≡ some c → length s ≡ 2 * length c)
    → suc (suc (length s)) ≡ 2 * length b
decoded none l r s b e ih = absurd (cc e)
decoded (some h) none r s b e ih = absurd (cc e)
decoded (some h) (some l) none s b e ih = absurd (cc e)
decoded (some h) (some l) (some c) s b e ih =
    let whole : (h * 16 + l) ∷ c ≡ b = some-inj e in omega (arith, ih c refl, ap length whole)

-- A text that decodes has two digits for each byte.
pub length-hex_decode : (s b : Bytes) → hex_decode s ≡ some b → length s ≡ 2 * length b
unfolding hex_decode
length-hex_decode [] b e = ground arith
length-hex_decode (h ∷ []) b e = absurd (cc e)
length-hex_decode (h ∷ l ∷ s) b e =
    decoded (hex_value h) (hex_value l) (hex_decode s) s b e (length-hex_decode s)

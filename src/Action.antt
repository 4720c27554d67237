-- ===== src/Action.antt =====
-- go-key-service/internal/action/action.go and internal/signing/signing.go: the action message, its
-- validation, and signatures over its canonical bytes. The JSON encoder is an argument of
-- `canonical`; it cannot fail on strings and integers.
pub mod Validity
pub mod Json
use crypto_agent.Prelude.{
  ℕ, Bool, true, false, not, ◌&&◌, ◌||◌, List, [], ◌∷◌, Bytes, length, leb, ◌==◌, if◌then◌else◌,
  Result, ok, err, ◌>>=◌,
}
use crypto_agent.Prelude.Int64.{Int64}
use crypto_agent.Keys.{Ed25519}

abbrev pub current_schema : Int64
current_schema = 1

abbrev pub nonce_hex_len : ℕ
nonce_hex_len = 32

abbrev pub max_skew_millis : ℕ
max_skew_millis = 30_000

abbrev pub nonce_window_ms : ℕ
nonce_window_ms = 600_000

pub record Action : Type 0 where
  pub schema_version : Int64
  pub agent_id : Bytes
  pub action_type : Bytes
  pub target : Bytes
  pub timestamp_ms : Int64
  pub nonce : Bytes

-- The errors of both packages.
pub data Error : Type 0 where
  bad_schema_version empty_field nonce_shape : Error
  invalid_signature invalid_key_length : Error

is_upper_hex : ℕ → Bool
is_upper_hex c = leb b'A' c && leb c b'F'

-- what `hex.DecodeString` takes as a digit
is_hex : ℕ → Bool
unfolding is_upper_hex
is_hex c = leb b'0' c && leb c b'9' || leb b'a' c && leb c b'f' || is_upper_hex c

-- `hex.DecodeString` succeeds: an even number of digits
all_hex : Bytes → Bool
unfolding is_hex
all_hex [] = true
all_hex (c ∷ s) = is_hex c && all_hex s

-- the loop that looks for capital digits; behind `hex.DecodeString` each character is one byte
any_upper : Bytes → Bool
unfolding is_upper_hex
any_upper [] = false
any_upper (c ∷ s) = is_upper_hex c || any_upper s

unfoldable pub validate : Action → Result Error (Unit {0})
unfolding all_hex any_upper
validate a =
    if not (a.schema_version == current_schema)
    then err bad_schema_version
    else if length a.agent_id == 0 || length a.action_type == 0 || length a.target == 0
    then err empty_field
    else if not (length a.nonce == nonce_hex_len)
    then err nonce_shape
    else if not (all_hex a.nonce)
    then err nonce_shape
    else if any_upper a.nonce
    then err nonce_shape
    else ok tt

module _ (encode : Action → Bytes) where
  unfoldable pub canonical : Action → Result Error Bytes
  canonical a = validate a >>= λ _. ok (encode a)

  module _ (crypto : Ed25519) where
    -- `signing.Sign`: keys of another size than 64 bytes are refused
    unfoldable pub sign : Action → Bytes → Result Error Bytes
    unfolding canonical
    sign a priv =
        if not (length priv == 64)
        then err invalid_key_length
        else canonical a >>= λ msg. ok (crypto.sign priv msg)

    -- `signing.Verify`
    unfoldable pub verify : Action → Bytes → Bytes → Result Error (Unit {0})
    unfolding canonical
    verify a sig pub_key =
        if not (length pub_key == 32)
        then err invalid_key_length
        else canonical a >>= λ msg.
            if not (crypto.verify pub_key msg sig) then err invalid_signature else ok tt

-- ===== src/VectorGen.antt =====
-- go-key-service/internal/signing/vector_gen/main.go: the program that prints the signing vector of
-- docs/signing_vectors.json. The encoder of the output is not modelled: the object is a list of fields,
-- whose values are texts in hexadecimal, and the action.
use crypto_agent.Prelude.{
  ℕ, zero, suc, [], ◌∷◌, Bytes, text, length, Result, ok, ◌>>=◌, ◌≡◌, ◌==◌, true, refl, arith,
}
use crypto_agent.Prelude.Hex.{hex_encode}
use crypto_agent.Keys.{Ed25519}
use crypto_agent.Action
use crypto_agent.Action.{Action}
use crypto_agent.Action.Json.{encode}

-- `seed[i] = byte(i)`, from `i` on
unfoldable pub count_from : ℕ → ℕ → Bytes
count_from i zero = []
count_from i (suc n) = i ∷ count_from (suc i) n

abbrev pub seed : Bytes
seed = count_from 0 32

abbrev pub vector_action : Action
vector_action = record {
  schema_version = 1;
  agent_id = text "agent-001";
  action_type = text "ping";
  target = text "peer-002";
  timestamp_ms = 1_700_000_000_000;
  nonce = text "0123456789abcdef0123456789abcdef";
}

pub record Vector : Type 0 where
  pub seed_hex : Bytes
  pub public_key : Bytes
  pub action : Action
  pub canonical_hex : Bytes
  pub signature_hex : Bytes

-- `main`; an error is its panic. `key_from_seed` is `ed25519.NewKeyFromSeed`.
unfoldable pub generate : Ed25519 → (Bytes → Bytes) → Result Action.Error Vector
unfolding count_from
generate crypto key_from_seed =
    let priv = key_from_seed seed in
    Action.canonical encode vector_action >>= λ canonical.
    Action.sign encode crypto vector_action priv >>= λ sig. ok (record {
      seed_hex = hex_encode seed;
      public_key = hex_encode (crypto.public priv);
      action = vector_action;
      canonical_hex = hex_encode canonical;
      signature_hex = hex_encode sig;
    })

is_valid : Action.validate vector_action ≡ ok tt
unfolding Action.validate
is_valid = refl

-- What the program prints can be checked by whoever reads it: it does not panic, and the printed signature
-- is the text of one that `Verify` accepts for the printed action under the printed key. Keys that are made
-- from a seed have 64 bytes, and their public keys 32.
pub generate-verify :
    (crypto : Ed25519) (key_from_seed : Bytes → Bytes)
    → length (key_from_seed seed) ≡ 64
    → length (crypto.public (key_from_seed seed)) ≡ 32
    → (v : Vector) × (sig : Bytes) × (pub_key : Bytes) × (generate crypto key_from_seed ≡ ok v)
      × (v.signature_hex ≡ hex_encode sig)
      × (v.public_key ≡ hex_encode pub_key)
      × (Action.verify encode crypto v.action sig pub_key ≡ ok tt)
unfolding generate Action.canonical Action.sign Action.verify
generate-verify crypto key_from_seed private_size public_size =
    let priv = key_from_seed seed in
    let long : (length priv == 64) ≡ true = ground (arith, private_size) in
    let wide : (length (crypto.public priv) == 32) ≡ true = ground (arith, public_size) in
    (
      record {
        seed_hex = hex_encode seed;
        public_key = hex_encode (crypto.public priv);
        action = vector_action;
        canonical_hex = hex_encode (encode vector_action);
        signature_hex = hex_encode (crypto.sign priv (encode vector_action));
      },
      crypto.sign priv (encode vector_action),
      crypto.public priv,
      rw (is_valid, long) refl,
      refl,
      refl,
      rw (wide, is_valid, crypto.verify-sign priv (encode vector_action)) refl,
    )

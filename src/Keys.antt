-- ===== src/Keys.antt =====
-- Ed25519, a parameter of the model: byte strings for keys, messages and signatures. What the code
-- relies on is that a signature verifies under the signer's public key.
use crypto_agent.Prelude.{◌≡◌, Bool, true, Bytes}

pub record Ed25519 : Type 0 where
  pub sign : Bytes → Bytes → Bytes
  pub public : Bytes → Bytes
  pub verify : Bytes → Bytes → Bytes → Bool
  pub verify-sign : (priv msg : Bytes) → verify (public priv) msg (sign priv msg) ≡ true

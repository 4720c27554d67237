-- ===== src/Examples.antt =====
-- Small runs of the model: a hash that keeps the first 32 bytes, a signature that repeats the message,
-- and the theorems at concrete trees, logs and tokens. No cryptographic strength is meant.
pub mod Trees
pub mod Logs
pub mod Tokens
pub mod Runs
pub mod Services
pub mod Worlds
pub mod Origins
pub mod Hosts
pub mod Chain
use crypto_agent.Prelude.{ℕ, Bool, List, ◌++◌, Bytes, equal, equal_refl}
use crypto_agent.Merkle.Hash.{Sha256, copy_hash}
use crypto_agent.Merkle.TreeHash.{length-copy_hash}
use crypto_agent.Keys.{Ed25519}

abbrev pub toy_sha : Sha256
toy_sha = record { sum256 = copy_hash; length-sum256 = length-copy_hash }

abbrev pub toy_keys : Ed25519
toy_keys = record {
  sign = λ priv msg. priv ++ msg;
  public = λ priv. priv;
  verify = λ pub_key msg sig. equal (pub_key ++ msg) sig;
  verify-sign = λ priv msg. equal_refl (priv ++ msg);
}

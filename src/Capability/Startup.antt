-- ===== src/Capability/Startup.antt =====
-- The construction of the token service (`NewService` and `SetRejectionSink` of
-- go-key-service/internal/capability/service.go), less the clock and the logger. The key pair that
-- `ed25519.GenerateKey` returns is an argument.
use crypto_agent.Prelude.{
  Bool, not, Option, none, some, [], Bytes, length, ◌==◌, if◌then◌else◌, Result, ok, err,
}
use crypto_agent.Keys.{Ed25519}
use crypto_agent.Keystore.{Memory}
use crypto_agent.Capability.{Codec, Service, RevocationStore}

pub data SetupError : Type 0 where
  no_keystore no_entropy bad_signing_key : SetupError

pub record Options : Type 0 where
  pub revocation : Option RevocationStore
  pub signing_key : Option Bytes
  pub has_sink : Bool

abbrev revocation_or_new : Option RevocationStore → RevocationStore
revocation_or_new none = []
revocation_or_new (some ids) = ids

-- the signing key: a given one of 64 bytes, or the generated one
unfoldable pub choose_key : Option Bytes → Option Bytes → Result SetupError Bytes
choose_key none none = err no_entropy
choose_key none (some key) = ok key
choose_key (some key) generated = if not (length key == 64) then err bad_signing_key else ok key

abbrev service_of : Codec → Ed25519 → Options → Result SetupError Bytes → Result SetupError Service
service_of codec crypto opts (err e) = err e
service_of codec crypto opts (ok key) = ok (record {
  codec = codec;
  crypto = crypto;
  sign_priv = key;
  revocation = revocation_or_new opts.revocation;
  has_sink = opts.has_sink;
})

unfoldable pub new_service :
    Codec → Ed25519 → Option Memory → Option Bytes → Options → Result SetupError Service
unfolding choose_key
new_service codec crypto none generated opts = err no_keystore
new_service codec crypto (some store) generated opts =
    service_of codec crypto opts (choose_key opts.signing_key generated)

unfoldable pub set_rejection_sink : Bool → Service → Service
set_rejection_sink has_sink svc = record svc { has_sink = has_sink }

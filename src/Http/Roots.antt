-- ===== src/Http/Roots.antt =====
-- The endpoints that show roots: `handleMerkleHead` of httpapi/handlers.go, the handler of
-- merkle/http/handler.go and the one of anchor/http/handler.go.
pub mod Verdicts
use mathlib.Core.Option
use crypto_agent.Prelude.{
  ℕ, Bool, true, false, Option, none, some, List, [], ◌∷◌, ◌++◌, Bytes, text, length, ◌==◌, not,
  ◌||◌, if◌then◌else◌, Result, ok, err,
}
use crypto_agent.Prelude.Hex.{hex_encode, hex_decode}
use crypto_agent.Merkle.Hash
use crypto_agent.Merkle.Hash.{Sha256, hash_size}
use crypto_agent.Merkle.Tree
use crypto_agent.Merkle.Tree.{Tree}
use crypto_agent.Merkle.Verifier.{
  VerificationReport, Message, consistent, regressed, failed, verify_historical_root,
}
use crypto_agent.Anchor
use crypto_agent.Anchor.{Anchor, LatestStore, latest_anchor}
use crypto_agent.Http.{Value, Response, string, number, flag, write_json, write_error}

module _ ⦃sha : Sha256⦄ where
  -- `handleMerkleHead`
  unfoldable pub handle_merkle_head : Tree → Response
  handle_merkle_head t =
      let (size, root) = Tree.snapshot t in
      write_json 200
        ((text "size", number size) ∷ (text "root_hex", string (text "0x" ++ hex_encode root)) ∷ [])

  -- The report as JSON, less its message.
  unfoldable pub report_fields : VerificationReport → List (Bytes × Value)
  report_fields r =
      (text "ok", flag r.is_ok)
      ∷ (text "historical_root", string r.historical_root)
      ∷ (text "historical_size", number r.historical_size)
      ∷ (text "live_root", string r.live_root)
      ∷ (text "live_size", number r.live_size)
      ∷ []

  -- both branches of the handler's test of the error give 422
  unfoldable pub reported : VerificationReport × Option Hash.Error → Response
  unfolding report_fields
  reported (r, none) = write_json 200 (report_fields r)
  reported (r, some e) = write_json 422 (report_fields r)

  -- a root that is decoded, or could not be
  unfoldable pub verify_root : Option Bytes → ℕ → Tree → Option Response
  unfolding reported
  verify_root none size t = some (write_error 400 (text "invalid_root"))
  verify_root (some root) size t =
      let rest : Option Response = Option.map reported (verify_historical_root root size t) in
      if not (length root == hash_size) then some (write_error 400 (text "invalid_root")) else rest

  -- `Handler` of package merklehttp: whether the method is POST, and the root and the size, if the body is
  -- JSON. The outer `none` would be a panic in the proof's construction.
  unfoldable pub verify_handler : Bool → Option (Bytes × ℕ) → Tree → Option Response
  unfolding verify_root
  verify_handler false body t = some (write_error 405 (text "method_not_allowed"))
  verify_handler true none t = some (write_error 400 (text "invalid_json"))
  verify_handler true (some (historical_root, historical_size)) t =
      verify_root (hex_decode historical_root) historical_size t

-- `omitempty`
unfoldable pub unless_zero : Bytes → ℕ → List (Bytes × Value)
unless_zero name value = if value == 0 then [] else (name, number value) ∷ []

-- `latestResponse`; the times of the anchors are in milliseconds here.
unfoldable pub anchor_fields : Anchor → List (Bytes × Value)
unfolding unless_zero
anchor_fields a =
    (text "id", number a.id)
      ∷ (text "tree_size", number a.tree_size)
      ∷ (text "root_hex", string (text "0x" ++ hex_encode a.root))
      ∷ (text "timestamp_ms", number a.timestamp)
      ∷ unless_zero (text "block_number") a.block_number
    ++ (if length a.tx_hash == 0 then [] else (text "tx_hash", string a.tx_hash) ∷ [])

unfoldable pub write_anchor_error : Anchor.Error → Response
write_anchor_error Anchor.no_anchor_yet = write_error 404 (text "no_anchor_yet")
write_anchor_error _ = write_error 500 (text "internal")

-- `latest`
unfoldable pub latest : LatestStore → Response
unfolding write_anchor_error anchor_fields
latest store = elim (latest_anchor store) [
  | err e ↦ write_anchor_error e
  | ok a ↦ write_json 200 (anchor_fields a)
]

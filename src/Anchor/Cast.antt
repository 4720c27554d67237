-- ===== src/Anchor/Cast.antt =====
-- go-key-service/internal/anchor: the CastClient of client.go, which runs `cast send`, and the parser of
-- its output, cast_parse.go. Running the command and decoding its JSON are arguments.
pub mod Arguments
use crypto_agent.Prelude.{
  ℕ, ◌+◌, ◌-◌, ◌/◌, Bool, true, false, not, ◌||◌, Option, none, some, List, [], ◌∷◌, ◌++◌, Bytes,
  text, length, drop, ◌==◌, if◌then◌else◌, Result, ok, err, ◌>>=◌,
}
use crypto_agent.Prelude.Hex.{hex_encode}
use crypto_agent.Prelude.Int64.{Int64, is_negative}
use crypto_agent.Prelude.Numerals.{parse_uint, format_uint}
use crypto_agent.Prelude.Text.{trim_space, has_prefix}
use crypto_agent.Anchor.{CommitReceipt, Error, refused, validate_commit, EvmClient}

-- "0x1a" or "26"; nothing is 0
unfoldable pub parse_hex_uint : Bytes → Option ℕ
parse_hex_uint raw =
    let s = trim_space raw in
    if length s == 0
    then some 0
    else if has_prefix (text "0x") s || has_prefix (text "0X") s
    then parse_uint 16 (drop 2 s)
    else parse_uint 10 s

-- `parseCastSendOutput`, on the hash and the block number that the JSON has, if it is JSON
unfoldable pub parse_cast_send_output : Option (Bytes × Bytes) → Result Error CommitReceipt
unfolding parse_hex_uint
parse_cast_send_output none = err (refused (text "decode json"))
parse_cast_send_output (some (transaction_hash, block_number)) =
    if length transaction_hash == 0
    then err (refused (text "receipt missing transactionHash"))
    else elim (parse_hex_uint block_number) [
      | none ↦ err (refused (text "blockNumber"))
      | some n ↦ ok (record { id = 0; tx_hash = transaction_hash; block_number = n })
    ]

pub record CastClient : Type 0 where
  pub contract : Bytes
  pub rpc_url : Bytes
  pub private_key : Bytes
  pub cast_bin : Bytes

pub record CastClientConfig : Type 0 where
  pub contract_address : Bytes
  pub rpc_url : Bytes
  pub private_key : Bytes
  pub cast_binary : Bytes

unfoldable pub new_cast_client : CastClientConfig → Result Error CastClient
new_cast_client cfg =
    if length cfg.contract_address == 0
    then err (refused (text "ContractAddress is required"))
    else if length cfg.rpc_url == 0
    then err (refused (text "RPCURL is required"))
    else if length cfg.private_key == 0
    then err (refused (text "PrivateKey is required"))
    else ok (record {
      contract = cfg.contract_address;
      rpc_url = cfg.rpc_url;
      private_key = cfg.private_key;
      cast_bin = if length cfg.cast_binary == 0 then text "cast" else cfg.cast_binary;
    })

-- What the command runner is called with.
pub record Command : Type 0 where
  pub env : List Bytes
  pub name : Bytes
  pub args : List Bytes

unfoldable pub cast_command : CastClient → ℕ → Bytes → Int64 → Command
cast_command c tree_size root unix = record {
  env = (text "ETH_PRIVATE_KEY=" ++ c.private_key) ∷ [];
  name = c.cast_bin;
  args =
      text "send"
      ∷ text "--rpc-url"
      ∷ c.rpc_url
      ∷ text "--json"
      ∷ c.contract
      ∷ text "commit(uint64,bytes32,uint64)"
      ∷ format_uint 10 tree_size
      ∷ (text "0x" ++ hex_encode root)
      ∷ format_uint 10 unix
      ∷ [];
}

-- a command runner with a state of its own: the output, or `none` where the command failed
module _ {World : Type 0} (run : Command → World → Option Bytes × World)
    (decode : Bytes → Option (Bytes × Bytes)) where
  -- what is made of the output
  unfoldable pub read_receipt : Option Bytes × World → Result Error CommitReceipt × World
  unfolding parse_cast_send_output
  read_receipt (none, w) = (err (refused (text "cast send")), w)
  read_receipt (some out, w) = elim (parse_cast_send_output (decode out)) [
    | err e ↦ (err (refused (text "cast send: parse receipt")), w)
    | ok receipt ↦ (ok receipt, w)
  ]

  -- `Commit`; the time is in seconds
  unfoldable pub cast_commit :
      CastClient → ℕ → Bytes → Int64 → World → Result Error CommitReceipt × World
  unfolding validate_commit read_receipt cast_command
  cast_commit c tree_size root unix w = elim (validate_commit tree_size root) [
    | err e ↦ (err e, w)
    | ok _ ↦
        if is_negative unix
        then (err (refused (text "timestamp before unix epoch")), w)
        else read_receipt (run (cast_command c tree_size root unix) w)
  ]

  -- the client as the committer uses it, with its clock in nanoseconds since 1970
  abbrev pub cast_client : CastClient → EvmClient
  cast_client c = record {
    State = World;
    commit = λ tree_size root now w. cast_commit c tree_size root (now / 1_000_000_000) w;
  }

-- ===== src/Examples/Origins.antt =====
-- The theorems on the canonical bytes, and on what stands behind a leaf, at one agent with one action.
use crypto_agent.Merkle.Inclusion.{fold_proof}
use crypto_agent.Merkle.Hash.{hash_leaf}
use crypto_agent.Merkle.Hash.{copy_hash}
use crypto_agent.Merkle.Hash.{mth}
use crypto_agent.Prelude.Numerals.{format_uint}
use crypto_agent.Prelude.{
  ℕ, false, some, none, List, [], ◌∷◌, ◌++◌, Bytes, text, equal, ok, ◌≡◌, refl, ◌⊎◌, arith,
}
use crypto_agent.Examples.{toy_sha, toy_keys}
use crypto_agent.Examples.Logs.{agent_key, greeting, start}
use crypto_agent.Examples.Tokens.{service}
use crypto_agent.Prelude.Hex.{hex_encode, hex_decode}
use crypto_agent.Prelude.Utf8.{is_utf8}
use crypto_agent.Prelude.Json.{quote, format_int}
use crypto_agent.Action.{Action}
use crypto_agent.Action.Json.{encode, encode-prefix, IsEncodable}
use crypto_agent.Keystore
use crypto_agent.Http.Audit
use crypto_agent.Http.Keys
use crypto_agent.Auditlog
use crypto_agent.Action
use crypto_agent.Merkle.Tree
use crypto_agent.Prelude.Numerals.{format_uint}
use crypto_agent.Keystore.{MemoryEntry}
use crypto_agent.Merkle.Hash.{Collision}
use crypto_agent.Merkle.Tree.{durable, snapshot}
use crypto_agent.Merkle.Inclusion.{verify_inclusion}
use crypto_agent.KeyServer.World.{World, Request, create_key, append_action, serve_all}
use crypto_agent.KeyServer.World.Provenance.{IsGoodStore, Brings}
use crypto_agent.KeyServer.World.Provenance.Leaf.{Behind, leaf_provenance}

-- the action of docs/signing_vectors.json
abbrev shared : Action
shared = record {
  schema_version = 1;
  agent_id = text "agent-001";
  action_type = text "ping";
  target = text "peer-002";
  timestamp_ms = 1_700_000_000_000;
  nonce = text "0123456789abcdef0123456789abcdef";
}

encode_shared :
    encode shared
    ≡ text
        "{\"action_type\":\"ping\",\"agent_id\":\"agent-001\",\"nonce\":\"0123456789abcdef0123456789abcdef\",\"schema_version\":1,\"target\":\"peer-002\",\"timestamp\":1700000000000}"
unfolding encode quote format_int format_uint
encode_shared = refl

-- Runes of two and three bytes go through, the separators are escaped, and a byte that begins no rune is
-- written as U+FFFD: two such bytes are written alike.
quote_runes :
    quote (0xc3 ∷ 0xa9 ∷ 0xe2 ∷ 0x80 ∷ 0xa8 ∷ 0xe2 ∷ 0x82 ∷ 0xac ∷ [])
    ≡ b'"' ∷ 0xc3 ∷ 0xa9 ∷ (text "\\u2028" ++ (0xe2 ∷ 0x82 ∷ 0xac ∷ b'"' ∷ []))
unfolding quote
quote_runes = refl

quote_broken :
    (quote (0xff ∷ []) ≡ text "\"\\ufffd\"")
    × (quote (0xfe ∷ []) ≡ text "\"\\ufffd\"")
    × (quote (0xe2 ∷ 0x82 ∷ []) ≡ text "\"\\ufffd\\ufffd\"")
unfolding quote
quote_broken = (refl, refl, refl)

-- the empty server
abbrev pub idle : World
idle = record { store = []; pipeline = start; service = service; latest = record { latest = none } }

abbrev agent_entry : MemoryEntry
agent_entry = record { pub_key = agent_key; priv = agent_key }

abbrev pub greeting_signature : Bytes
greeting_signature = agent_key ++ encode greeting

abbrev pub submission : List (ℕ × ℕ × Request)
submission =
    (0, 0, create_key (some (text "a")) (some agent_entry))
    ∷ (
      100_000_000_000,
      100_000_000_000,
      append_action (some (some greeting, hex_encode greeting_signature)) durable false,
    )
    ∷ []

abbrev visited : World
visited = serve_all toy_sha toy_keys encode submission idle

-- the pair that was made for the agent
Made : Bytes → Bytes → Type 0
Made id key = (id ≡ text "a") × (key ≡ agent_key)

none_stored : IsGoodStore Made idle.store
unfolding IsGoodStore Keystore.lookup
none_stored id entry h = absurd (cc h)

Brings-Made : (Brings Made (create_key (some (text "a")) (some agent_entry)))
unfolding Brings Made
Brings-Made = (refl, refl)

words : IsEncodable greeting
unfolding is_utf8
words = record {
  version_word = omega arith;
  time_word = omega arith;
  action_type_utf8 = refl;
  agent_id_utf8 = refl;
  nonce_utf8 = refl;
  target_utf8 = refl;
}

included :
    verify_inclusion ⦃sha = toy_sha⦄
      (encode greeting ++ greeting_signature)
      0
      (snapshot ⦃sha = toy_sha⦄ visited.pipeline.tree).0
      []
      (snapshot ⦃sha = toy_sha⦄ visited.pipeline.tree).1
    ≡ ok tt
unfolding serve_all verify_inclusion snapshot Audit.append hex_decode hex_encode encode
    Auditlog.submit Action.validate Keystore.get Keystore.lookup Keys.handle_create Keystore.create
    equal Action.verify Auditlog.lookup Tree.append quote format_int format_uint mth copy_hash
    hash_leaf fold_proof
included = refl

leaf_provenance_example :
    Behind toy_keys Made visited.pipeline.events 0 greeting greeting_signature ⊎ Collision toy_sha
unfolding Brings
leaf_provenance_example =
    leaf_provenance toy_sha toy_keys Made idle visited submission greeting greeting_signature 0 []
      refl none_stored (Brings-Made, (words, tt)) refl words (omega arith) included

shared_words : IsEncodable shared
unfolding is_utf8
shared_words = record {
  version_word = omega arith;
  time_word = omega arith;
  action_type_utf8 = refl;
  agent_id_utf8 = refl;
  nonce_utf8 = refl;
  target_utf8 = refl;
}

encode-prefix_example : (shared ≡ shared) × (text "sig" ≡ text "sig")
encode-prefix_example =
    encode-prefix shared shared (text "sig") (text "sig") shared_words shared_words refl

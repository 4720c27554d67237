-- ===== src/Examples/Hosts.antt =====
-- The theorems on the server's process, its middleware and its texts, at small inputs.
use crypto_agent.Contract
use crypto_agent.KeyServer.Host.Unanswered.{passes-unanswered}
use crypto_agent.Contract.{settled}
use crypto_agent.Contract
use crypto_agent.KeyServer.Host.Unanswered.{passes-unanswered}
use crypto_agent.Contract.{commit}
use crypto_agent.KeyServer.Host.OnChain.{answer_of}
use crypto_agent.Keystore.{lookup}
use crypto_agent.Keystore.{get}
use crypto_agent.Prelude.Utf8.{is_utf8}
use crypto_agent.Prelude.Sorting.{sort_strings}
use crypto_agent.Prelude.Numerals.{format_uint}
use crypto_agent.Prelude.Json.{format_int}
use crypto_agent.Prelude.Json.{quote}
use crypto_agent.Prelude.Hex.{hex_digit}
use crypto_agent.Merkle.Hash.{copy_hash}
use crypto_agent.Merkle.Tree.{snapshot}
use crypto_agent.Prelude.{
  ◌≤◌, true, false, some, none, List, [], ◌∷◌, ◌++◌, Bytes, text, ok, ◌≡◌, refl, arith, equal,
}
use crypto_agent.Examples.{toy_sha, toy_keys}
use crypto_agent.Examples.Logs.{agent_key, greeting, start}
use crypto_agent.Examples.Tokens.{service, token}
use crypto_agent.Examples.Origins.{greeting_signature, idle}
use crypto_agent.Prelude.Hex.{hex_encode}
use crypto_agent.Action
use crypto_agent.Action.Json.{encode}
use crypto_agent.Capability
use crypto_agent.Capability.{Service, Token}
use crypto_agent.Capability.Json as TokenJson
use crypto_agent.Merkle.Hash.{mth}
use crypto_agent.Anchor
use crypto_agent.Anchor.{Anchor, FakeEvmClient, new_fake, fake_client}
use crypto_agent.Anchor.Lifecycle as Loops
use crypto_agent.Anchor.Lifecycle.{Lifecycle, one_loop}
use crypto_agent.Http.Server.Logging.{
  Writer, Handler, header, body, flushes, log_requests, last_status, serve_http,
  log_requests-serve_http,
}
use crypto_agent.Auditlog
use crypto_agent.Auditlog.{submit, appended_event}
use crypto_agent.Action
use crypto_agent.Merkle.Tree
use crypto_agent.Merkle.Tree.{durable}
use crypto_agent.Http.{write_json, flag}
use crypto_agent.Http.Audit.{event_fields}
use crypto_agent.Contract
use crypto_agent.KeyServer.Host.Unanswered.{passes-unanswered}
use crypto_agent.Contract.{AuditAnchor, ChainAnchor, Message, anchor_at}
use crypto_agent.KeyServer.Host.OnChain.{
  Delivery, answered, unanswered, contract_client, anchor_at-IsPassed,
}
use crypto_agent.KeyServer.Host.Receipts.{IsIncluded, fresh-IsIncluded}
use crypto_agent.KeyServer.World.{append_action, serve, env_of}
use crypto_agent.Prelude.{ℕ, map, ◌==◌, if◌then◌else◌, equal}
use crypto_agent.Prelude.Hex.{hex_decode}
use crypto_agent.KeyServer.Host.{Host, Event, request, pass, happen_all}
use crypto_agent.KeyServer.Host.Heads.{IsPassed, anchor-IsPassed}
use crypto_agent.KeyServer.World.{list_keys}

-- a server whose log has a leaf
abbrev opened : Host FakeEvmClient
opened = record {
  world = record idle {
    pipeline = record start {
      tree = record { leaves = agent_key ∷ []; file = none; is_closed = false };
    };
  };
  last_committed = 0;
  chain = new_fake;
}

abbrev morning : List Event
morning = request 1 1 list_keys ∷ pass 7 ∷ []

abbrev anchored : Host FakeEvmClient
anchored = happen_all toy_sha toy_keys encode fake_client morning opened

abbrev morning_anchor : Anchor
morning_anchor = record {
  id = 0;
  tree_size = 1;
  root = agent_key;
  timestamp = 7;
  block_number = 0;
  tx_hash = text "0xfake0000000000000000";
}

shows_anchor : Anchor.latest_anchor anchored.world.latest ≡ ok morning_anchor
unfolding Anchor.latest_anchor happen_all snapshot mth copy_hash Anchor.fake_commit hex_digit
shows_anchor = refl

abbrev afternoon : List Event
afternoon = request 8 8 list_keys ∷ []

anchor-IsPassed_example :
    IsPassed ⦃sha = toy_sha⦄ morning_anchor.tree_size morning_anchor.root
      (happen_all toy_sha toy_keys encode fake_client afternoon anchored).world.pipeline.tree
anchor-IsPassed_example =
    anchor-IsPassed toy_sha toy_keys encode fake_client opened anchored morning afternoon
      morning_anchor refl refl shows_anchor

-- a service that signs the bytes of the tokens
abbrev printing : Service
printing = record service { codec = record { encode = TokenJson.encode; decode = λ b. some token } }

-- the same with the lists in another order
abbrev turned : Token
turned = record token { action_types = text "say" ∷ text "ask" ∷ [] }

abbrev straight : Token
straight = record token { action_types = text "ask" ∷ text "say" ∷ [] }

turned-IsEncodable : TokenJson.IsEncodable turned
unfolding is_utf8
turned-IsEncodable = record {
  start_word = omega arith;
  end_word = omega arith;
  token_id_utf8 = refl;
  agent_id_utf8 = refl;
  action_types_utf8 = (refl, (refl, tt));
  targets_utf8 = (refl, tt);
}

straight-IsEncodable : TokenJson.IsEncodable straight
unfolding is_utf8
straight-IsEncodable = record {
  start_word = omega arith;
  end_word = omega arith;
  token_id_utf8 = refl;
  agent_id_utf8 = refl;
  action_types_utf8 = (refl, (refl, tt));
  targets_utf8 = (refl, tt);
}

one_canonical : Capability.canonical printing turned ≡ Capability.canonical printing straight
unfolding Capability.canonical sort_strings
one_canonical = refl

canonical-inj_example : TokenJson.AreAlike turned straight
canonical-inj_example =
    TokenJson.canonical-inj printing turned straight refl turned-IsEncodable straight-IsEncodable
      one_canonical

abbrev busy : Lifecycle
busy = Loops.signal_stop (Loops.start (Loops.start Loops.created))

busy_reached : Loops.Reachable busy
busy_reached =
    Loops.Reachable.stops (Loops.Reachable.starts (Loops.Reachable.starts Loops.Reachable.fresh))

one_loop_example : (busy.panics ≡ 0) × (busy.loops ≤ 1) × (busy.done_closed ≡ true → busy.loops ≡ 0)
one_loop_example = one_loop busy busy_reached

-- a writer that keeps what was written
abbrev page : Writer Bytes
page = record { write_header = λ status s. s; write = λ bytes s. s ++ bytes; flush = some (λ s. s) }

abbrev greeter : Handler
greeter can_flush = header 201 ∷ body (text "hi") ∷ flushes ∷ []

log_requests-serve_http_example :
    log_requests page greeter [] ≡ (last_status 200 (greeter true), serve_http page greeter [])
log_requests-serve_http_example = log_requests-serve_http page (λ s. s) greeter [] refl

-- the contract behind the committer, whose second answer is lost
abbrev by_committer : ℕ → Message
by_committer now = record { sender = 2; block_number = now }

abbrev loses : ℕ → Delivery
loses now = if now == 9 then unanswered else answered

abbrev on_chain : Host AuditAnchor
on_chain = record {
  world = opened.world;
  last_committed = 0;
  chain = record { owner = 1; pending_owner = 0; committer = 2; anchors = [] };
}

abbrev lost_pass : List Event
lost_pass = pass 9 ∷ []

abbrev on_chain_anchor : ChainAnchor
on_chain_anchor = record { tree_size = 1; root = agent_key; timestamp = 0; block_number = 9 }

abbrev read : Host AuditAnchor
read = happen_all toy_sha toy_keys encode (contract_client by_committer loses) lost_pass on_chain

has_anchor : anchor_at 0 read.chain ≡ ok on_chain_anchor
unfolding anchor_at happen_all snapshot mth copy_hash answer_of commit settled
has_anchor = refl

anchor_at-IsPassed_example :
    IsPassed ⦃sha = toy_sha⦄ on_chain_anchor.tree_size on_chain_anchor.root
      (happen_all toy_sha toy_keys encode
        (contract_client by_committer loses)
        afternoon
        read).world.pipeline.tree
anchor_at-IsPassed_example =
    anchor_at-IsPassed toy_sha toy_keys encode by_committer loses on_chain read lost_pass afternoon
      0 on_chain_anchor refl refl has_anchor

-- a server with the agent of the tests, and its action
abbrev staffed : Host FakeEvmClient
staffed = record {
  world = record idle { store = (text "a", record { pub_key = agent_key; priv = agent_key }) ∷ [] };
  last_committed = 0;
  chain = new_fake;
}

abbrev greeting_new : Auditlog.Event
greeting_new =
    appended_event toy_sha 100_000_000_000 greeting greeting_signature agent_key
      (encode greeting ++ greeting_signature) 0

decodes : hex_decode (hex_encode greeting_signature) ≡ some greeting_signature
unfolding hex_decode hex_encode encode quote format_int format_uint
decodes = refl

is_new :
    (submit toy_sha
      (env_of toy_sha toy_keys encode 100_000_000_000 100_000_000_000 durable staffed.world.store)
      (some greeting)
      greeting_signature
      staffed.world.pipeline).0
    ≡ ok (greeting_new, true)
unfolding submit Action.validate Action.verify equal Auditlog.lookup Tree.append get lookup encode
    quote format_int format_uint
is_new = refl

fresh-IsIncluded_example :
    ((serve toy_sha toy_keys encode 100_000_000_000 100_000_000_000
        (append_action (some (some greeting, hex_encode greeting_signature)) durable false)
        staffed.world).0
      ≡ write_json 200 (event_fields greeting_new ++ (text "idempotent", flag false) ∷ []))
    × IsIncluded ⦃sha = toy_sha⦄
        (encode greeting ++ greeting_signature)
        0
        (happen_all toy_sha toy_keys encode fake_client
          (request 100_000_000_000 100_000_000_000
              (append_action (some (some greeting, hex_encode greeting_signature)) durable false)
            ∷ afternoon)
          staffed).world.pipeline.tree
fresh-IsIncluded_example =
    fresh-IsIncluded toy_sha toy_keys encode fake_client 100_000_000_000 100_000_000_000 greeting
      (hex_encode greeting_signature) greeting_signature durable false greeting_new staffed
      afternoon decodes is_new

abbrev taken : AuditAnchor
taken = record { owner = 1; pending_owner = 0; committer = 2; anchors = on_chain_anchor ∷ [] }

takes :
    Contract.commit (by_committer 9) 1 agent_key 0 on_chain.chain
    ≡ ok (0, Contract.audit_anchored 0 1 agent_key 9 0 ∷ [], taken)
unfolding Contract.commit
takes = refl

passes-unanswered_example :
    happen_all toy_sha toy_keys encode
      (contract_client by_committer loses)
      (map pass (9 ∷ 10 ∷ 11 ∷ []))
      on_chain
    ≡ record on_chain { chain = taken }
unfolding mth copy_hash
passes-unanswered_example =
    passes-unanswered toy_sha toy_keys encode by_committer loses 9 (10 ∷ 11 ∷ []) on_chain 0
      (Contract.audit_anchored 0 1 agent_key 9 0 ∷ []) taken refl (omega arith) takes

-- ===== src/Lib.antt =====
-- The agent key service (go-key-service): signed agent actions go through a pipeline into an append-only
-- Merkle tree, whose roots are anchored on a chain, capability tokens say what an agent may do, and an
-- HTTP server shows it all. Each Go package has a file, with its theorems in the files below it.
--
-- Merkle.antt (internal/merkle) is the tree of RFC 6962. Merkle/Hash: HashLeaf, HashChildren, mth.
--   Merkle/Inclusion: path and VerifyInclusion. Merkle/Consistency: subproof and VerifyConsistency.
--   Merkle/Tree: the Tree with its methods, and its backing file (persistence.go).
--   Merkle/Verifier: VerifyHistoricalRoot.
-- Keystore.antt (internal/keystore) is the key store in memory; Keystore/Refinement has its abstract
--   specification.
-- Action.antt (internal/action, internal/signing) is the signed message; Action/Json: the bytes of
--   Canonical. VectorGen.antt (internal/signing/vector_gen) prints the test vector of the signatures.
-- Capability.antt (internal/capability) issues, verifies and revokes tokens; Capability/Startup:
--   NewService; Capability/Json: the bytes of the signed claims.
-- Auditlog.antt (internal/auditlog/pipeline.go) is Submit, with the replay cache, the event feed and
--   its subscribers; it uses Action, Keystore and Merkle. Auditlog/Guard, with Auditlog/Guard/Calls,
--   and Auditlog/Once follow the cache over whole runs, Auditlog/Window one entry while it is live; Auditlog/Coherence, Auditlog/Provenance and
--   Auditlog/Receipt, the event log and the tree. Auditlog/Setup: New and its options.
-- Anchor.antt (internal/anchor) is one pass of the committer, and the fake chain it can write to.
--   Anchor/Loop: NewCommitter and the polling loop. Anchor/Lifecycle: Start and Stop. Anchor/Cast:
--   CastClient and cast_parse.go.
-- Contract.antt (contracts/src/AuditAnchor.sol) is the contract that keeps the anchors; Contract/Fake
--   compares the fake chain with it.
-- Http.antt has the responses of all handlers. Http/Keys and Http/Server: internal/httpapi, with the
--   routes, the CORS middleware and, in Http/Server/Logging, the one that logs. Http/Audit and
--   Http/Events: internal/auditlog/http, the append endpoint, with the text of its answer in
--   Http/Audit/Splice, and the event stream. Http/Tokens: internal/capability/http. Http/Roots: the
--   endpoints of the live head, of internal/merkle/http and of internal/anchor/http.
-- Config.antt (internal/config) is Load and the chain client that it asks for; KeyServer.antt
--   (cmd/keyserver) assembles the parts from it. KeyServer/World is the running server as one state, with
--   one request after the other; KeyServer/Host adds the passes of the committer, with any chain
--   client, and in KeyServer/Host/OnChain and KeyServer/Host/Unanswered with the contract, whose
--   transactions, or the answers to them, may get lost. KeyServer/Shutdown is the end of the process.
-- MerkleVerify.antt (cmd/merkle-verify) is the command that checks a root against a file of leaves.
-- Prelude.antt has what they share: byte strings, results, int64 patterns, hexadecimal, decimal and
--   hexadecimal numbers, white space, sorting, in Prelude/Utf8 the runes of a text, and in Prelude/Json the texts that
--   encoding/json writes.
-- Examples.antt runs the theorems at small inputs.
--
-- A method is a function from its arguments and the state to its result and the new state. The lock
-- of each type makes a call one step, so a concurrent run is a sequence of calls. VerifyHistoricalRoot
-- takes the lock of the tree three times, and is a function of the tree as it is each time; the theorems
-- on it, and its callers, are about a call during which no leaf comes in. Errors are values, without the
-- text that wraps them. Byte slices are lists of numbers and are never aliased, since
-- the code copies what it keeps. A handler is a function from the decoded request; its response is a
-- status and the fields of an object, or the code of an error.
--
-- Parameters: SHA-256 (a function to 32 bytes; a theorem on forgery ends in a collision), Ed25519 (a
-- signature verifies under the key of its signer), the JSON encoders and decoders, the clock, the
-- random source, what the disk does, the environment, time.ParseDuration, and the command runner of
-- the cast client. An int64 is its bit pattern below 2^64, and its operations wrap. Sizes and
-- indices are numbers; trees have fewer than 2^64 leaves, and anchors and events are fewer than that.
-- Text that is trimmed or changed to lower case is ASCII. In a JSON string the encoder escapes U+2028 and
-- U+2029 and writes each byte of invalid UTF-8 as the escape of U+FFFD, so it keeps apart only valid texts:
-- where a theorem rests on that, the strings are valid UTF-8, which all that encoding/json decodes are.
-- The encoder of the canonical bytes is an argument of what needs nothing of it, and is Action/Json or
-- Capability/Json where a theorem rests on the bytes.
--
-- Loops on slices have fuel that is proved to be enough: the tree hash, the path and the proof take
-- the number of leaves, and the search for a power of two takes the size. A number is written with 64
-- rounds, since it has 64 bits. A line of a file of leaves has fewer than 1048576 characters, as the
-- scanner's buffer demands.
--
-- Not modelled: what net/http and chi do with a connection and a path, the text of log lines and error
-- messages, the gas and the encoding of the contract's calls, and the programs in other languages
-- (dashboard, SDK, the contract's scripts and tests).
pub mod Prelude
pub mod VectorGen
pub mod Merkle
pub mod Keys
pub mod Keystore
pub mod Capability
pub mod Action
pub mod Auditlog
pub mod Anchor
pub mod Http
pub mod MerkleVerify
pub mod Config
pub mod Contract
pub mod KeyServer
pub mod Examples

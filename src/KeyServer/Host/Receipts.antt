-- ===== src/KeyServer/Host/Receipts.antt =====
-- What a submission that was answered with a fresh event is good for: from then on its leaf has an
-- inclusion proof (auditlog/http/handler.go, auditlog/pipeline.go, merkle/inclusion.go).
use crypto_agent.Prelude.{
  ℕ, Bool, true, false, some, List, [], ◌∷◌, ◌++◌, Bytes, text, length, ok, err, ◌≡◌, refl, ap, ◌∙◌,
  arith, get_elem?, get_elem?-last, get_elem?-some, take-length,
}
use mathlib.Core.Path.{subst}
use crypto_agent.Prelude.Hex.{hex_decode}
use crypto_agent.Action.{Action}
use crypto_agent.Keys.{Ed25519}
use crypto_agent.Merkle.Hash.{Sha256, hash_leaf, mth}
use crypto_agent.Merkle.Tree
use crypto_agent.Merkle.Tree.{Tree, WriteFate}
use crypto_agent.Merkle.Tree.Proofs.{proof_at-accepted}
use crypto_agent.Merkle.Inclusion.{verify_inclusion}
use crypto_agent.Auditlog
use crypto_agent.Auditlog.{Pipeline, Env, Answer, submit}
use crypto_agent.Auditlog.Receipt.{submit-fresh}
use crypto_agent.Anchor.{EvmClient}
use crypto_agent.Http.{Response, flag, write_json}
use crypto_agent.Http.Audit.{append, append_decoded, answered, event_fields}
use crypto_agent.KeyServer.World.{World, append_action, serve, env_of}
use crypto_agent.KeyServer.Host.{Host, Event, request, happen, happen_all}
use crypto_agent.KeyServer.Host.Growth.{Extends-self, Extends-get_elem?, happen_all-LogExtends}

append-answered :
    (sha : Sha256) (env : Env) (canceled : Bool) (a : Action) (signature sig : Bytes) (p : Pipeline)
    → hex_decode signature ≡ some sig
    → append sha env canceled (some (some a, signature)) p
      ≡ answered canceled (submit sha env (some a) sig p)
unfolding append append_decoded
append-answered sha env canceled a signature sig p h = rw h refl

answered-fresh :
    (canceled : Bool) (r : Answer) (e : Auditlog.Event)
    → r.0 ≡ ok (e, true)
    → answered canceled r
      ≡ (write_json 200 (event_fields e ++ (text "idempotent", flag false) ∷ []), r.1)
unfolding answered
answered-fresh canceled (ok (x, true), q) e h =
    let same : x ≡ e = cc h in
    ap (λ y. (write_json 200 (event_fields y ++ (text "idempotent", flag false) ∷ []), q)) same
answered-fresh canceled (ok (x, false), q) e h = absurd (cc h)
answered-fresh canceled (err x, q) e h = absurd (cc h)

module _ ⦃sha : Sha256⦄ where
  -- The tree has a proof for the payload at the index, which the verifier accepts under the tree's head.
  pub IsIncluded : Bytes → ℕ → Tree → Type 0
  IsIncluded payload i t =
      (proof : List Bytes) × (Tree.proof_at i (Tree.size t) t ≡ some (ok proof))
      × (verify_inclusion payload i (Tree.snapshot t).0 proof (Tree.snapshot t).1 ≡ ok tt)

  leaf-IsIncluded :
      (payload : Bytes) (i : ℕ) (t : Tree)
      → get_elem? t.leaves i ≡ some (hash_leaf payload)
      → IsIncluded payload i t
  unfolding IsIncluded Tree.snapshot Tree.size
  leaf-IsIncluded payload i t at =
      let n = length t.leaves in
      let (p, found, accepted) =
        proof_at-accepted t payload i n (get_elem?-some t.leaves i (hash_leaf payload) at)
          (omega arith) at in
      (
        p,
        found,
        subst (λ ls. verify_inclusion payload i n p (mth ls) ≡ ok tt)
            (take-length n t.leaves (omega arith)) accepted,
      )

module _ (sha : Sha256) (crypto : Ed25519) (encode : Action → Bytes) where
  appended :
      (now later : ℕ) (a : Action) (signature sig : Bytes) (fate : WriteFate) (canceled : Bool)
      (e : Auditlog.Event) (w : World)
      → hex_decode signature ≡ some sig
      → (submit sha (env_of sha crypto encode now later fate w.store) (some a) sig w.pipeline).0
        ≡ ok (e, true)
      → append sha
          (env_of sha crypto encode now later fate w.store)
          canceled
          (some (some a, signature))
          w.pipeline
        ≡ (
          write_json 200 (event_fields e ++ (text "idempotent", flag false) ∷ []),
          (submit sha (env_of sha crypto encode now later fate w.store) (some a) sig w.pipeline).1,
        )
  appended now later a signature sig fate canceled e w decoded h =
      let env = env_of sha crypto encode now later fate w.store in
      append-answered sha env canceled a signature sig w.pipeline decoded
      ∙ answered-fresh canceled (submit sha env (some a) sig w.pipeline) e h

  leaf_added :
      (now later : ℕ) (a : Action) (signature sig : Bytes) (fate : WriteFate) (canceled : Bool)
      (e : Auditlog.Event) (w : World)
      → hex_decode signature ≡ some sig
      → (submit sha (env_of sha crypto encode now later fate w.store) (some a) sig w.pipeline).0
        ≡ ok (e, true)
      → get_elem?
          (serve sha crypto encode now later
            (append_action (some (some a, signature)) fate canceled)
            w).1.pipeline.tree.leaves
          e.leaf_index
        ≡ some (hash_leaf ⦃sha = sha⦄ (encode a ++ sig))
  unfolding serve
  leaf_added now later a signature sig fate canceled e w decoded h =
      let env = env_of sha crypto encode now later fate w.store in
      let (place, leaves) = submit-fresh sha env a sig w.pipeline e h in
      ap (λ (r : Response × Pipeline). get_elem? r.1.tree.leaves e.leaf_index)
        (appended now later a signature sig fate canceled e w decoded h)
      ∙ ap (λ ls. get_elem? ls e.leaf_index) leaves
      ∙ ap
          (λ i.
            get_elem? (w.pipeline.tree.leaves ++ (hash_leaf ⦃sha = sha⦄ (encode a ++ sig) ∷ [])) i)
          place
      ∙ get_elem?-last w.pipeline.tree.leaves (hash_leaf ⦃sha = sha⦄ (encode a ++ sig))

  -- Where `Submit` takes an action as new, with the event `e`, the append endpoint answers 200 with the
  -- fields of `e` and `idempotent: false`. After any requests and committer passes that follow, with any
  -- chain client, the server's tree has a proof for the leaf index of `e`, and the verifier accepts it
  -- under the tree's head, for the canonical bytes of the action with the signature behind them.
  pub fresh-IsIncluded :
      (client : EvmClient) (now later : ℕ) (a : Action) (signature sig : Bytes) (fate : WriteFate)
      (canceled : Bool) (e : Auditlog.Event) (h : Host client.State) (events : List Event)
      → hex_decode signature ≡ some sig
      → (submit sha
          (env_of sha crypto encode now later fate h.world.store)
          (some a)
          sig
          h.world.pipeline).0
        ≡ ok (e, true)
      → ((serve sha crypto encode now later
            (append_action (some (some a, signature)) fate canceled)
            h.world).0
          ≡ write_json 200 (event_fields e ++ (text "idempotent", flag false) ∷ []))
        × IsIncluded ⦃sha = sha⦄
            (encode a ++ sig)
            e.leaf_index
            (happen_all sha crypto encode client
              (request now later (append_action (some (some a, signature)) fate canceled) ∷ events)
              h).world.pipeline.tree
  unfolding serve happen_all happen
  fresh-IsIncluded client now later a signature sig fate canceled e h events decoded new =
      let call = append_action (some (some a, signature)) fate canceled in
      let g = happen sha crypto encode client (request now later call) h in
      let leaves = g.world.pipeline.tree.leaves in
      let after = happen_all sha crypto encode client events g in
      (
        ap (λ (r : Response × Pipeline). r.0)
            (appended now later a signature sig fate canceled e h.world decoded new),
        leaf-IsIncluded ⦃sha = sha⦄ (encode a ++ sig) e.leaf_index after.world.pipeline.tree (
            Extends-get_elem? leaves after.world.pipeline.tree.leaves e.leaf_index _
              (happen_all-LogExtends sha crypto encode client leaves events g (Extends-self leaves))
              (leaf_added now later a signature sig fate canceled e h.world decoded new)),
      )

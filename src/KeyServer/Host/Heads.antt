-- ===== src/KeyServer/Host/Heads.antt =====
-- What the server has shown of its log stays true: the heads of `handleMerkleHead` and the anchors of the
-- latest store (httpapi/handlers.go, anchor/committer.go, merkle/verifier.go).
use crypto_agent.Prelude.{
  ℕ, ◌≤◌, true, some, none, List, [], ◌∷◌, Bytes, length, take, ok, ◌≡◌, refl, sym, ap, ◌∙◌, arith,
  take-length, ◌⊎◌, inl, inr,
}
use mathlib.Core.Path.{subst}
use crypto_agent.Action.{Action}
use crypto_agent.Keys.{Ed25519}
use crypto_agent.Merkle.Hash.{Sha256, mth}
use crypto_agent.Merkle.Tree
use crypto_agent.Merkle.Tree.{Tree}
use crypto_agent.Merkle.Verifier.{VerificationReport, verify_historical_root}
use crypto_agent.Merkle.Verifier.Correct.{historical_root-passes}
use crypto_agent.Anchor
use crypto_agent.Anchor.{
  Anchor, CommitReceipt, Error, EvmClient, LatestStore, Committer, commit, record_commit,
  validate_commit, set,
}
use crypto_agent.KeyServer.World.{
  World, Request, create_key, create_agent, get_key, get_agent_pub_key, list_keys, delete_key,
  merkle_head, latest_anchor, append_action, issue_token, verify_token, revoke_token,
  signing_pubkey, serve,
}
use crypto_agent.KeyServer.Host.{Host, Event, request, pass, happen, happen_all}
use crypto_agent.KeyServer.Host.Growth.{
  Extends, Extends-self, Extends-take, serve-LogExtends, happen_all-LogExtends,
}

module _ ⦃sha : Sha256⦄ where
  -- A size and a root that the log with these leaves had.
  pub record IsHead (ls : List Bytes) (size : ℕ) (root : Bytes) : Type 0 where
    pub within : size ≤ length ls
    pub is_root : root ≡ mth (take size ls)

  pub IsHead-Extends :
      (ls ks : List Bytes) (size : ℕ) (root : Bytes)
      → Extends ls ks
      → IsHead ls size root
      → IsHead ks size root
  IsHead-Extends ls ks size root x h =
      let (le, same) = Extends-take ls ks size x h.within in
      record { within = le; is_root = h.is_root ∙ ap mth (sym same) }

  pub snapshot-IsHead : (t : Tree) → IsHead t.leaves (Tree.snapshot t).0 (Tree.snapshot t).1
  unfolding Tree.snapshot
  snapshot-IsHead t = record {
    within = omega arith;
    is_root = ap mth (sym (take-length (length t.leaves) t.leaves (omega arith)));
  }

  -- The verifier of historical roots passes the root at the size.
  pub IsPassed : ℕ → Bytes → Tree → Type 0
  IsPassed size root t =
      (report : VerificationReport) × (verify_historical_root root size t ≡ some (report, none))
      × (report.is_ok ≡ true)

  IsHead-IsPassed :
      (t : Tree) (size : ℕ) (root : Bytes) → IsHead t.leaves size root → IsPassed size root t
  unfolding Tree.size IsPassed
  IsHead-IsPassed t size root h = rw (h.is_root) (_, historical_root-passes t size h.within, refl)

-- the anchor in the store behind a pass is the old one, or of the size and the root of the pass
commit-latest :
    (client : EvmClient) (size : ℕ) (root : Bytes) (now : ℕ) (c : Committer) (s : client.State)
    (a : Anchor)
    → (commit client (size, root) now c s).1.store.latest ≡ some a
    → (c.store.latest ≡ some a) ⊎ ((a.tree_size ≡ size) × (a.root ≡ root))
unfolding commit record_commit validate_commit set
commit-latest client size root now c s a h = ground (arith, h)

-- The anchor of the store, if there is one, is of a head that the log had.
pub LatestIsHead : Sha256 → World → Type 0
LatestIsHead sha w =
    (a : Anchor)
    → w.latest.latest ≡ some a
    → IsHead ⦃sha = sha⦄ w.pipeline.tree.leaves a.tree_size a.root

latest_some : (l : LatestStore) (a : Anchor) → Anchor.latest_anchor l ≡ ok a → l.latest ≡ some a
unfolding Anchor.latest_anchor
latest_some l a h = ground (arith, h)

no_anchor-LatestIsHead : (sha : Sha256) (w : World) → w.latest.latest ≡ none → LatestIsHead sha w
unfolding LatestIsHead
no_anchor-LatestIsHead sha w none_yet a at = absurd (cc (none_yet, at))

module _ (sha : Sha256) where
  pub passed :
      (t : Tree) (ls : List Bytes) (size : ℕ) (root : Bytes)
      → Extends ls t.leaves
      → IsHead ⦃sha = sha⦄ ls size root
      → IsPassed ⦃sha = sha⦄ size root t
  passed t ls size root grown h =
      IsHead-IsPassed ⦃sha = sha⦄ t size root
        (IsHead-Extends ⦃sha = sha⦄ ls t.leaves size root grown h)

module _ (sha : Sha256) (crypto : Ed25519) (encode : Action → Bytes) where
  serve-latest :
      (now later : ℕ) (r : Request) (w : World)
      → (serve sha crypto encode now later r w).1.latest ≡ w.latest
  unfolding serve
  serve-latest now later (create_key id generated) w = refl
  serve-latest now later (create_agent id generated) w = refl
  serve-latest now later (get_agent_pub_key j) w = refl
  serve-latest now later (get_key j) w = refl
  serve-latest now later list_keys w = refl
  serve-latest now later (delete_key j) w = refl
  serve-latest now later merkle_head w = refl
  serve-latest now later latest_anchor w = refl
  serve-latest now later (append_action body fate canceled) w = refl
  serve-latest now later (issue_token body fresh_id) w = refl
  serve-latest now later (verify_token body) w = refl
  serve-latest now later (revoke_token j) w = refl
  serve-latest now later signing_pubkey w = refl

  serve-LatestIsHead :
      (now later : ℕ) (r : Request) (w : World)
      → LatestIsHead sha w
      → LatestIsHead sha (serve sha crypto encode now later r w).1
  unfolding LatestIsHead
  serve-LatestIsHead now later r w h a at =
      IsHead-Extends ⦃sha = sha⦄ w.pipeline.tree.leaves _ a.tree_size a.root
        (serve-LogExtends sha crypto encode now later w.pipeline.tree.leaves r w
          (Extends-self w.pipeline.tree.leaves))
        (h a (sym (ap (λ (l : LatestStore). l.latest) (serve-latest now later r w)) ∙ at))

  module _ (client : EvmClient) where
    happen-LatestIsHead :
        (e : Event) (h : Host client.State)
        → LatestIsHead sha h.world
        → LatestIsHead sha (happen sha crypto encode client e h).world
    unfolding happen LatestIsHead Tree.snapshot
    happen-LatestIsHead (request now later r) h k a at =
        serve-LatestIsHead now later r h.world k a at
    happen-LatestIsHead (pass now) h k a at =
        let leaves = h.world.pipeline.tree.leaves in
        elim (commit-latest client (length leaves) (mth ⦃sha = sha⦄ leaves) now
          (record { store = h.world.latest; last_committed = h.last_committed }) h.chain a at) [
            | inl old ↦ k a old
            | inr (size, root) ↦ rw (size, root) (snapshot-IsHead ⦃sha = sha⦄ h.world.pipeline.tree)
          ]

    happen_all-LatestIsHead :
        (es : List Event) (h : Host client.State)
        → LatestIsHead sha h.world
        → LatestIsHead sha (happen_all sha crypto encode client es h).world
    unfolding happen_all
    happen_all-LatestIsHead [] h k = k
    happen_all-LatestIsHead (e ∷ es) h k =
        happen_all-LatestIsHead es (happen sha crypto encode client e h) (happen-LatestIsHead e h k)

    head_passed :
        (now : Host client.State) (events : List Event) (size : ℕ) (root : Bytes)
        → IsHead ⦃sha = sha⦄ now.world.pipeline.tree.leaves size root
        → IsPassed ⦃sha = sha⦄ size root
            (happen_all sha crypto encode client events now).world.pipeline.tree
    head_passed now events size root h =
        let leaves = now.world.pipeline.tree.leaves in
        passed sha (happen_all sha crypto encode client events now).world.pipeline.tree leaves size
          root
          (happen_all-LogExtends sha crypto encode client leaves events now (Extends-self leaves)) h

    -- Whatever requests and committer passes follow, with any chain client: the size and the root that
    -- the server's tree has now pass the verifier of historical roots against its tree then.
    pub head-IsPassed :
        (now : Host client.State) (events : List Event)
        → IsPassed ⦃sha = sha⦄
            (Tree.snapshot ⦃sha = sha⦄ now.world.pipeline.tree).0
            (Tree.snapshot ⦃sha = sha⦄ now.world.pipeline.tree).1
            (happen_all sha crypto encode client events now).world.pipeline.tree
    head-IsPassed now events =
        head_passed now events (Tree.snapshot ⦃sha = sha⦄ now.world.pipeline.tree).0
          (Tree.snapshot ⦃sha = sha⦄ now.world.pipeline.tree).1
          (snapshot-IsHead ⦃sha = sha⦄ now.world.pipeline.tree)

    -- Let a server start with no anchor, and let requests and committer passes follow, with any chain
    -- client. The latest anchor that the server has at some time passes the verifier of historical
    -- roots against its tree at any later time.
    pub anchor-IsPassed :
        (start now : Host client.State) (before after : List Event) (a : Anchor)
        → start.world.latest.latest ≡ none
        → now ≡ happen_all sha crypto encode client before start
        → Anchor.latest_anchor now.world.latest ≡ ok a
        → IsPassed ⦃sha = sha⦄ a.tree_size a.root
            (happen_all sha crypto encode client after now).world.pipeline.tree
    unfolding LatestIsHead
    anchor-IsPassed start now before after a none_yet reached at =
        let first : LatestIsHead sha now.world =
          subst (λ (h : Host client.State). LatestIsHead sha h.world) (sym reached)
            (happen_all-LatestIsHead before start
              (no_anchor-LatestIsHead sha start.world none_yet)) in
        head_passed now after a.tree_size a.root (first a (latest_some now.world.latest a at))

-- ===== src/KeyServer/World/Provenance/Leaf.antt =====
-- An accepted inclusion proof against the head of the running server, followed back to the event that
-- `Submit` made (merkle/inclusion.go, auditlog/pipeline.go, cmd/keyserver/main.go).
use crypto_agent.Prelude.{
  ℕ, ◌≤◌, true, some, List, [], ◌++◌, Bytes, length, ok, ◌≡◌, sym, ap, ◌∙◌, All, All-get_elem?,
  get_elem?, get_elem?-lt, ◌⊎◌, inl, inr,
}
use mathlib.Core.Path.{subst}
use crypto_agent.Action.{Action}
use crypto_agent.Action.Json.{encode, encode-prefix, IsEncodable}
use crypto_agent.Keys.{Ed25519}
use crypto_agent.Merkle.Hash.{Sha256, Collision, hash_leaf}
use crypto_agent.Merkle.Tree.{snapshot}
use crypto_agent.Merkle.Inclusion.{verify_inclusion}
use crypto_agent.Merkle.Inclusion.Binding.{
  inclusion_sound, inclusion_index, length-hash_leaf, hash_leaf-inj,
}
use crypto_agent.Auditlog.{Event, Pipeline}
use crypto_agent.Auditlog.Coherence.Leaves.{TellsOf, IsCoherent-leaf, no_events-IsCoherent}
use crypto_agent.KeyServer.World.{World, Request, serve_all}
use crypto_agent.KeyServer.World.Provenance.{Genuine, Vouched, IsGoodStore, Brings}
use crypto_agent.KeyServer.World.Provenance.Kept.{IsVouchedLog, IsSound, serve_all-IsSound}

-- The event at number `k` of the log says that the leaf at `i` is this action with this signature, which
-- verifies under the event's key; and that key is good for the action's agent.
pub record Behind (crypto : Ed25519) (Good : Bytes → Bytes → Type 0) (es : List Event) (i : ℕ)
    (a : Action) (sig : Bytes) : Type 0 where
  pub number : ℕ
  pub event : Event
  pub there : get_elem? es number ≡ some event
  pub place : event.leaf_index ≡ i
  pub of_action : event.action ≡ some a
  pub of_signature : event.signature ≡ sig
  pub verified : crypto.verify event.public_key (encode a) sig ≡ true
  pub good : Good a.agent_id event.public_key

module _ (sha : Sha256) (crypto : Ed25519) (Good : Bytes → Bytes → Type 0) where
  -- a vouched event whose leaf is the hash of an action's bytes and a signature is the event of these
  Genuine-Behind :
      (es : List Event) (i : ℕ) (x : Bytes) (a : Action) (sig : Bytes) (e : Event)
      → TellsOf es i x e
      → Genuine sha crypto Good e
      → IsEncodable a
      → hash_leaf ⦃sha = sha⦄ (encode a ++ sig) ≡ x
      → Behind crypto Good es i a sig ⊎ Collision sha
  Genuine-Behind es i x a sig e t g word h =
      elim (hash_leaf-inj ⦃sha = sha⦄ (encode a ++ sig) (encode g.signed_action ++ e.signature)
        (h ∙ sym t.hashed ∙ g.hashed)) [
          | inr c ↦ inr c
          | inl same ↦
              let (is_a, is_sig) =
                encode-prefix a g.signed_action sig e.signature word g.word same in
              inl (record {
                number = t.number;
                event = e;
                there = t.there;
                place = t.place;
                of_action = g.told ∙ ap some (sym is_a);
                of_signature = sym is_sig;
                verified = rw (is_a, is_sig) g.verified;
                good = rw is_a g.good;
              })
        ]

  leaf-Behind :
      (base : List Bytes) (p : Pipeline) (a : Action) (sig : Bytes) (i : ℕ) (proof : List Bytes)
      → IsVouchedLog sha crypto Good base p
      → IsEncodable a
      → length base ≤ i
      → (let (size, root) = snapshot ⦃sha = sha⦄ p.tree in
          verify_inclusion ⦃sha = sha⦄ (encode a ++ sig) i size proof root ≡ ok tt)
      → Behind crypto Good p.events i a sig ⊎ Collision sha
  unfolding snapshot verify_inclusion
  leaf-Behind base p a sig i proof log word h accepted =
      let x = hash_leaf ⦃sha = sha⦄ (encode a ++ sig) in
      let lt = inclusion_index ⦃sha = sha⦄ x i _ proof _ accepted in
      let (y, at) = get_elem?-lt p.tree.leaves i lt in
      let (e, told) = IsCoherent-leaf base p i y log.coherent h at in
      let g : Genuine sha crypto Good e =
        All-get_elem? (Vouched sha crypto Good) p.events told.number log.vouched told.there
          told.is_leaf in
      let len : length y ≡ 32 =
        ap length (sym told.hashed ∙ g.hashed) ∙ length-hash_leaf ⦃sha = sha⦄ _ in
      elim (inclusion_sound ⦃sha = sha⦄ p.tree.leaves x y i proof at
        (length-hash_leaf ⦃sha = sha⦄ (encode a ++ sig)) len accepted) [
          | inl same ↦ Genuine-Behind p.events i y a sig e told g word same
          | inr c ↦ inr c
        ]

  -- Let the server start with a log without events and a store whose keys are good for their agents,
  -- and let it serve any requests that register only good keys, with actions whose numbers are int64
  -- patterns and whose strings are valid UTF-8. Then an inclusion proof that is accepted under the head
  -- of its tree, for the canonical bytes of such an action with a signature behind them, at a place
  -- that the server has filled, means this: the log has an event with this place, action and signature,
  -- whose key verifies the signature over the action and is good for the action's agent; or a collision
  -- of SHA-256 is at hand.
  pub leaf_provenance :
      (w u : World) (requests : List (ℕ × ℕ × Request)) (a : Action) (sig : Bytes) (i : ℕ)
      (proof : List Bytes)
      → w.pipeline.events ≡ []
      → IsGoodStore Good w.store
      → All (λ (r : ℕ × ℕ × Request). Brings Good r.2) requests
      → u ≡ serve_all sha crypto encode requests w
      → IsEncodable a
      → length w.pipeline.tree.leaves ≤ i
      → verify_inclusion ⦃sha = sha⦄
          (encode a ++ sig)
          i
          (snapshot ⦃sha = sha⦄ u.pipeline.tree).0
          proof
          (snapshot ⦃sha = sha⦄ u.pipeline.tree).1
        ≡ ok tt
      → Behind crypto Good u.pipeline.events i a sig ⊎ Collision sha
  leaf_provenance w u requests a sig i proof new good brings reached word h accepted =
      let base = w.pipeline.tree.leaves in
      let start : IsSound sha crypto Good base w = record {
        good_store = good;
        log = record {
          coherent = no_events-IsCoherent w.pipeline new;
          vouched = subst (All (Vouched sha crypto Good)) (sym new) tt;
        };
      } in
      let after : IsSound sha crypto Good base u =
        subst (IsSound sha crypto Good base) (sym reached)
          (serve_all-IsSound sha crypto Good base requests w brings start) in
      leaf-Behind base u.pipeline a sig i proof after.log word h accepted

-- ===== src/Http/Roots/Verdicts.antt =====
-- What the answers of the endpoints on roots mean (merkle/http/handler.go and handleMerkleHead of
-- httpapi/handlers.go).
use mathlib.Core.Option
use native.Mathlib.Decide.{ℕ_discrete}
use crypto_agent.Prelude.{
  ℕ, ◌≤◌, ◌<◌, true, false, Option, none, some, some-inj, [], ◌∷◌, ◌++◌, Bytes, text, length, take,
  ◌==◌, ◌≡◌, ◌≢◌, refl, sym, ap, ◌∙◌, arith, Option-cases, ◌⊎◌, inl, inr,
}
use crypto_agent.Prelude.Hex.{hex_value, hex_encode, hex_decode}
use crypto_agent.Merkle.Hash
use crypto_agent.Merkle.Hash.{Sha256, Collision, mth}
use crypto_agent.Merkle.Tree.{Tree, size, snapshot}
use crypto_agent.Merkle.Verifier.{VerificationReport, verify_historical_root}
use crypto_agent.Merkle.Verifier.Correct.{historical_root_sound}
use crypto_agent.Http.{Response, object, number, string, write_error}
use crypto_agent.Http.Roots.{reported, verify_root, verify_handler, handle_merkle_head}

module _ ⦃sha : Sha256⦄ where
  reported-ok :
      (r : VerificationReport) (e : Option Hash.Error) → (reported (r, e)).status ≡ 200 → e ≡ none
  unfolding reported
  reported-ok r none h = refl
  reported-ok r (some e) h = absurd (omega (arith, h))

  refused : (code : Bytes) (r : Response) → some (write_error 400 code) ≡ some r → r.status ≢ 200
  refused code r e good = absurd (omega (arith, ap (λ (x : Response). x.status) (some-inj e), good))

  passed :
      (root : Bytes) (n : ℕ) (t : Tree) (r : Response)
      → Option.map reported (verify_historical_root root n t) ≡ some r
      → r.status ≡ 200
      → (report : VerificationReport) × (verify_historical_root root n t ≡ some (report, none))
  passed root n t r found good = elim (Option-cases (verify_historical_root root n t)) [
    | inl q ↦ absurd (cc (q, found))
    | inr ((report, e), q) ↦
        let answer : reported (report, e) ≡ r =
          some-inj (sym (ap (Option.map reported) q) ∙ found) in
        let none_left = reported-ok report e (ap (λ (x : Response). x.status) answer ∙ good) in
        (report, q ∙ ap (λ x. some (report, x)) none_left)
  ]

  verify_root-odd :
      (root : Bytes) (n : ℕ) (t : Tree)
      → length root == 32 ≡ false
      → verify_root (some root) n t ≡ some (write_error 400 (text "invalid_root"))
  unfolding verify_root
  verify_root-odd root n t h = rw h refl

  verify_root-sized :
      (root : Bytes) (n : ℕ) (t : Tree)
      → length root == 32 ≡ true
      → verify_root (some root) n t ≡ Option.map reported (verify_historical_root root n t)
  unfolding verify_root
  verify_root-sized root n t h = rw h refl

  verify_root_sound :
      (decoded : Option Bytes) (n : ℕ) (t : Tree) (r : Response)
      → 0 < n
      → verify_root decoded n t ≡ some r
      → r.status ≡ 200
      → ((n ≤ size t) × (decoded ≡ some (mth (take n t.leaves)))) ⊎ Collision sha
  unfolding verify_root
  verify_root_sound none n t r pos found good = absurd (refused (text "invalid_root") r found good)
  verify_root_sound (some root) n t r pos found good = elim (ℕ_discrete (length root) 32) [
    | no odd ↦
        let wrong : length root == 32 ≡ false = ground (arith, odd) in
        absurd (refused (text "invalid_root") r (sym (verify_root-odd root n t wrong) ∙ found) good)
    | yes sized ↦
        let even : length root == 32 ≡ true = ground (arith, sized) in
        let (report, fine) =
          passed root n t r (sym (verify_root-sized root n t even) ∙ found) good in
        elim (historical_root_sound t root n report pos sized fine) [
          | inl (le, same) ↦ inl (le, ap some same)
          | inr c ↦ inr c
        ]
  ]

  -- What a POST of a text and a size says when it is answered with 200: if the size is above 0, the text
  -- is the hexadecimal form of the root of so many first leaves, or a collision of SHA-256 is at hand.
  pub verify_handler_sound :
      (historical_root : Bytes) (n : ℕ) (t : Tree) (r : Response)
      → 0 < n
      → verify_handler true (some (historical_root, n)) t ≡ some r
      → r.status ≡ 200
      → ((n ≤ size t) × (hex_decode historical_root ≡ some (mth (take n t.leaves)))) ⊎ Collision sha
  unfolding verify_handler
  verify_handler_sound historical_root n t r = verify_root_sound (hex_decode historical_root) n t r

  decoded-prefixed : (s : Bytes) → hex_decode (text "0x" ++ s) ≡ none
  unfolding hex_decode hex_value
  decoded-prefixed s = refl

  -- The text that the endpoint of the live head shows for its root is refused when it is posted to the
  -- verifier of roots, at any size: the prefix 0x is no hexadecimal text.
  pub verify_handler-handle_merkle_head :
      (t u : Tree) (n : ℕ)
      → (shown : Bytes) × (((handle_merkle_head t).body
            ≡ object ((text "size", number (size t)) ∷ (text "root_hex", string shown) ∷ []))
          × (verify_handler true (some (shown, n)) u
              ≡ some (write_error 400 (text "invalid_root"))))
  unfolding verify_handler verify_root handle_merkle_head snapshot size
  verify_handler-handle_merkle_head t u n = (
    text "0x" ++ hex_encode (mth t.leaves),
    (refl, ap (λ d. verify_root d n u) (decoded-prefixed (hex_encode (mth t.leaves)))),
  )

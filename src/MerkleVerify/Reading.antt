-- ===== src/MerkleVerify/Reading.antt =====
-- What the command reads from a file of leaves (cmd/merkle-verify/main.go).
use crypto_agent.Prelude.{
  ℕ, suc, ◌*◌, ◌/◌, ◌%◌, ◌<◌, true, false, Option, none, some, List, [], ◌∷◌, ◌++◌, map, Bytes,
  length, ltb, ◌==◌, ok, ◌≡◌, ◌≢◌, refl, sym, ap, ◌∙◌, arith, All, Bool-cases, Option-cases,
  err-ne-ok, lt→ltb, ok-inj, inl, inr,
}
use mathlib.Core.List.{append-nil, append_assoc}
use crypto_agent.Prelude.Hex.{
  hex_digit, hex_encode, hex_decode, hex_decode-hex_encode, length-hex_encode,
}
use crypto_agent.Prelude.Text.{trim_space, trim_space-solid, is_space, IsSolid}
use crypto_agent.Merkle.Hash.{Sha256, hash_leaf}
use crypto_agent.Merkle.Tree
use crypto_agent.Merkle.Tree.{Tree, durable}
use crypto_agent.Merkle.Tree.Durability.{append_memory}
use crypto_agent.MerkleVerify.{max_line, lines_of, drop_cr, build_tree, build_tree_from_file}

module _ ⦃sha : Sha256⦄ where
  abbrev pub in_memory : List Bytes → Tree
  in_memory leaves = record { leaves = leaves; file = none; is_closed = false }

  -- the tree of these payloads
  abbrev pub hashes : List Bytes → List Bytes
  hashes payloads = map hash_leaf payloads

  append-in_memory :
      (leaf : Bytes) (leaves : List Bytes)
      → (Tree.append durable leaf (in_memory leaves)).1
        ≡ in_memory (leaves ++ (hash_leaf leaf ∷ []))
  append-in_memory leaf leaves = append_memory leaf (in_memory leaves) refl refl

  -- A file that is read gives the tree of some payloads, one for each line that is not blank.
  build_tree-hashes :
      (lines : List Bytes) (line : ℕ) (leaves : List Bytes) (t : Tree)
      → build_tree line lines (in_memory leaves) ≡ ok t
      → (payloads : List Bytes) × (t ≡ in_memory (leaves ++ hashes payloads))
  unfolding build_tree
  build_tree-hashes [] line leaves t h =
      ([], ok-inj (sym h) ∙ ap in_memory (sym (append-nil leaves)))
  build_tree-hashes (l ∷ lines) line leaves t h = elim (Bool-cases (ltb (length l) max_line)) [
    | inr long ↦ absurd (err-ne-ok (rw long at h))
    | inl fits ↦ elim (Bool-cases (length (trim_space (drop_cr l)) == 0)) [
      | inl blank ↦ build_tree-hashes lines (suc line) leaves t (rw (fits, blank) at h)
      | inr full ↦ elim (Option-cases (hex_decode (trim_space (drop_cr l)))) [
        | inl bad ↦ absurd (err-ne-ok (rw (fits, full, bad) at h))
        | inr (leaf, good) ↦
            let (payloads, q) =
              build_tree-hashes lines (suc line) (leaves ++ (hash_leaf leaf ∷ [])) t
                (rw (append-in_memory leaf leaves) at (rw (fits, full, good) at h)) in
            (
              leaf ∷ payloads,
              q ∙ ap in_memory (append_assoc leaves (hash_leaf leaf ∷ []) (hashes payloads)),
            )
      ]
    ]
  ]

  pub build_tree_from_file-hashes :
      (contents : Option Bytes) (t : Tree)
      → build_tree_from_file contents ≡ ok t
      → (payloads : List Bytes) × (t ≡ in_memory (hashes payloads))
  unfolding build_tree_from_file
  build_tree_from_file-hashes none t h = absurd (err-ne-ok h)
  build_tree_from_file-hashes (some contents) t h = build_tree-hashes (lines_of contents) 0 [] t h

-- The file of these payloads: one line of hexadecimal text each.
unfoldable pub print_leaves : List Bytes → Bytes
print_leaves [] = []
print_leaves (leaf ∷ leaves) = hex_encode leaf ++ (b'\n' ∷ print_leaves leaves)

-- A payload that the format can hold: bytes, at least one, and no more than a line takes.
pub record IsPayload (leaf : Bytes) : Type 0 where
  pub bytes : All (λ (v : ℕ). v < 256) leaf
  pub some_byte : leaf ≢ []
  pub fits : 2 * length leaf < max_line

lines_of-line :
    (s rest : Bytes)
    → All (λ (c : ℕ). (c == 10) ≡ false) s
    → lines_of (s ++ (10 ∷ rest)) ≡ s ∷ lines_of rest
unfolding lines_of
lines_of-line [] rest h = refl
lines_of-line (c ∷ s) rest h = rw (h.0, lines_of-line s rest h.1) refl

-- what holds of every digit
abbrev IsDigit : ℕ → Type 0
IsDigit c = (is_space c ≡ false) × ((c == 10) ≡ false) × ((c == 13) ≡ false)

digit_lem : (d : ℕ) → d < 16 → IsDigit (hex_digit d)
unfolding hex_digit is_space
digit_lem d h = ground arith

hex_encode-digits : (b : Bytes) → All (λ (v : ℕ). v < 256) b → All IsDigit (hex_encode b)
unfolding hex_encode
hex_encode-digits [] h = tt
hex_encode-digits (v ∷ b) h = (
  digit_lem (v / 16) (omega (arith, h.0)),
  (digit_lem (v % 16) (omega arith), hex_encode-digits b h.1),
)

drop_cr-digits : (s : Bytes) → All IsDigit s → drop_cr s ≡ s
unfolding drop_cr
drop_cr-digits [] h = refl
drop_cr-digits (c ∷ []) h = rw h.0.2 refl
drop_cr-digits (c ∷ d ∷ s) h = ap (λ t. c ∷ t) (drop_cr-digits (d ∷ s) h.1)

digits-IsSolid : (s : Bytes) → All IsDigit s → All IsSolid s
digits-IsSolid [] h = tt
digits-IsSolid (c ∷ s) h = (h.0.0, digits-IsSolid s h.1)

digits-lines : (s : Bytes) → All IsDigit s → All (λ (c : ℕ). (c == 10) ≡ false) s
digits-lines [] h = tt
digits-lines (c ∷ s) h = (h.0.1, digits-lines s h.1)

positive_length : (s : Bytes) → s ≢ [] → 0 < length s
positive_length [] h = absurd (h refl)
positive_length (c ∷ s) h = omega arith

module _ ⦃sha : Sha256⦄ where
  build_tree-line :
      (leaf : Bytes) (line : ℕ) (lines leaves : List Bytes)
      → IsPayload leaf
      → build_tree line (hex_encode leaf ∷ lines) (in_memory leaves)
        ≡ build_tree (suc line) lines (in_memory (leaves ++ (hash_leaf leaf ∷ [])))
  unfolding build_tree
  build_tree-line leaf line lines leaves h =
      let digits = hex_encode-digits leaf h.bytes in
      let short : ltb (length (hex_encode leaf)) max_line ≡ true =
        lt→ltb (length (hex_encode leaf)) max_line
          (omega (arith, length-hex_encode leaf, h.fits)) in
      let size = positive_length leaf h.some_byte in
      let full : (length (hex_encode leaf) == 0) ≡ false = ground (arith, length-hex_encode leaf) in
      rw
        (
          short,
          drop_cr-digits (hex_encode leaf) digits,
          trim_space-solid (hex_encode leaf) (digits-IsSolid (hex_encode leaf) digits),
          full,
          hex_decode-hex_encode leaf h.bytes,
          append-in_memory leaf leaves,
        )
        refl

  build_tree-print :
      (payloads : List Bytes) (line : ℕ) (leaves : List Bytes)
      → All IsPayload payloads
      → build_tree line (lines_of (print_leaves payloads)) (in_memory leaves)
        ≡ ok (in_memory (leaves ++ hashes payloads))
  unfolding print_leaves
  build_tree-print [] line leaves h =
      unfold lines_of build_tree in ap (λ l. ok (in_memory l)) (sym (append-nil leaves))
  build_tree-print (leaf ∷ payloads) line leaves h =
      rw
        (lines_of-line (hex_encode leaf) (print_leaves payloads)
          (digits-lines (hex_encode leaf) (hex_encode-digits leaf h.0.bytes)))
        (build_tree-line leaf line (lines_of (print_leaves payloads)) leaves h.0
          ∙ build_tree-print payloads (suc line) (leaves ++ (hash_leaf leaf ∷ [])) h.1
          ∙ ap (λ l. ok (in_memory l))
              (append_assoc leaves (hash_leaf leaf ∷ []) (hashes payloads)))

  -- A file of payloads that was printed one to a line is read back as the tree of just these payloads.
  pub build_tree_from_file-print :
      (payloads : List Bytes)
      → All IsPayload payloads
      → build_tree_from_file (some (print_leaves payloads)) ≡ ok (in_memory (hashes payloads))
  unfolding build_tree_from_file
  build_tree_from_file-print payloads h = build_tree-print payloads 0 [] h

-- ===== src/MerkleVerify.antt =====
-- go-key-service/cmd/merkle-verify/main.go: the command that rebuilds a tree from a file of leaves and
-- checks a historical root. The file's contents and the parsed flags are arguments; `none` as the whole
-- result would be a panic.
pub mod Reading
pub mod Verdict
use crypto_agent.Prelude.{
  ℕ, suc, ◌+◌, Bool, true, false, not, ◌||◌, Option, none, some, List, [], ◌∷◌, Bytes, length, ltb,
  ◌==◌, if◌then◌else◌, Result, ok, err, ◌>>=◌,
}
use crypto_agent.Prelude.Hex.{hex_decode}
use crypto_agent.Prelude.Text.{trim_space}
use crypto_agent.Merkle.Hash
use crypto_agent.Merkle.Hash.{Sha256}
use crypto_agent.Merkle.Tree
use crypto_agent.Merkle.Tree.{Tree, durable}
use crypto_agent.Merkle.Verifier.{VerificationReport, verify_historical_root}

pub data Error : Type 0 where
  no_file too_long : Error
  bad_line : ℕ → Error

-- the largest buffer of the scanner; a line fits if it is shorter
abbrev pub max_line : ℕ
max_line = 1_048_576

abbrev pub push_first : ℕ → List Bytes → List Bytes
push_first c [] = (c ∷ []) ∷ []
push_first c (line ∷ lines) = (c ∷ line) ∷ lines

-- `bufio.ScanLines`: what stands before each newline, and behind the last one if anything does
unfoldable pub lines_of : Bytes → List Bytes
lines_of [] = []
lines_of (c ∷ s) = let rest = lines_of s in if c == b'\n' then [] ∷ rest else push_first c rest

-- A carriage return at the end of a line goes; `strings.TrimSpace` would take it too.
unfoldable pub drop_cr : Bytes → Bytes
drop_cr [] = []
drop_cr (c ∷ []) = if c == b'\r' then [] else c ∷ []
drop_cr (c ∷ d ∷ s) = c ∷ drop_cr (d ∷ s)

module _ ⦃sha : Sha256⦄ where
  -- the loop of `buildTreeFromFile`, with the number of lines that were read; a tree in memory takes
  -- every leaf
  unfoldable pub build_tree : ℕ → List Bytes → Tree → Result Error Tree
  unfolding drop_cr
  build_tree line [] t = ok t
  build_tree line (l ∷ lines) t =
      let raw = trim_space (drop_cr l) in
      let skipped = build_tree (suc line) lines t in
      let added = λ (leaf : Bytes). build_tree (suc line) lines (Tree.append durable leaf t).1 in
      if not (ltb (length l) max_line)
      then err too_long
      else if length raw == 0
      then skipped
      else elim (hex_decode raw) [ none ↦ err (bad_line (suc line)) | some leaf ↦ added leaf ]

  unfoldable pub build_tree_from_file : Option Bytes → Result Error Tree
  unfolding build_tree lines_of
  build_tree_from_file none = err no_file
  build_tree_from_file (some contents) = build_tree 0 (lines_of contents) Tree.new

  -- The exit code, and the report if one is printed.
  abbrev pub Outcome : Type 0
  Outcome = ℕ × Option VerificationReport

  abbrev pub exit_of : VerificationReport × Option Hash.Error → Outcome
  exit_of (r, none) = (0, some r)
  exit_of (r, some e) = (1, some r)

  -- `main` behind the flags
  unfoldable pub verify_tree : Bytes → ℕ → Result Error Tree → Option Outcome
  verify_tree root size (err e) = some (2, none)
  verify_tree root size (ok t) = elim (verify_historical_root root size t) [
    | none ↦ none
    | some r ↦ some (exit_of r)
  ]

  unfoldable pub main : Bytes → ℕ → Bytes → Option Bytes → Option Outcome
  unfolding verify_tree build_tree_from_file
  main historical_root historical_size leaves_file contents =
      if length historical_root == 0 || length leaves_file == 0
      then some (2, none)
      else elim (hex_decode historical_root) [
        | none ↦ some (2, none)
        | some root ↦
            if not (length root == Hash.hash_size)
            then some (2, none)
            else verify_tree root historical_size (build_tree_from_file contents)
      ]

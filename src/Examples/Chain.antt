-- ===== src/Examples/Chain.antt =====
-- The theorems on the contract at one committer.
use crypto_agent.Prelude.{ℕ, ◌<◌, List, [], ◌∷◌, ok, ◌≡◌, refl, arith, replicate}
use crypto_agent.Anchor.{new_fake, fake_commit}
use crypto_agent.Contract.{
  AuditAnchor, ChainAnchor, Message, Transaction, commits, sets_committer, deploy, anchor_at,
  commit, execute_all,
}
use crypto_agent.Contract.Sizes.{anchors_grow}
use crypto_agent.Contract.Marks.{Mirrors, fake_marks, chain_marks}
use crypto_agent.Contract.Fake.{Together, fake_commit-Together}

abbrev by : ℕ → Message
by sender = record { sender = sender; block_number = 100 }

abbrev deployed : AuditAnchor
deployed = record { owner = 1; pending_owner = 0; committer = 2; anchors = [] }

-- the owner cannot commit, and a size that does not grow is refused
abbrev history : List (Message × Transaction)
history =
    (by 2, commits 3 (replicate 32 7) 50)
    ∷ (by 1, commits 4 (replicate 32 7) 50)
    ∷ (by 2, commits 3 (replicate 32 8) 51)
    ∷ (by 1, sets_committer 5)
    ∷ (by 5, commits 9 (replicate 32 9) 52)
    ∷ []

abbrev small : ChainAnchor
small = record { tree_size = 3; root = replicate 32 7; timestamp = 50; block_number = 100 }

abbrev large : ChainAnchor
large = record { tree_size = 9; root = replicate 32 9; timestamp = 52; block_number = 100 }

deploys : deploy (by 1) 2 ≡ ok deployed
unfolding deploy
deploys = refl

has_small : anchor_at 0 (execute_all history deployed) ≡ ok small
unfolding anchor_at execute_all
has_small = refl

has_large : anchor_at 1 (execute_all history deployed) ≡ ok large
unfolding anchor_at execute_all
has_large = refl

anchors_grow_example : small.tree_size < large.tree_size
anchors_grow_example =
    anchors_grow (by 1) 2 deployed history 0 1 small large deploys has_small has_large (omega arith)

both_empty : Mirrors new_fake deployed
unfolding fake_marks chain_marks
both_empty = record { same = refl; numbered = refl }

fake_commit-Together_example :
    Together deployed
      (fake_commit 3 (replicate 32 7) 50 new_fake)
      (commit (by 2) 3 (replicate 32 7) 50 deployed)
fake_commit-Together_example =
    fake_commit-Together new_fake deployed (by 2) 3 (replicate 32 7) 50 50 both_empty refl refl refl

-- ===== src/Auditlog/Setup.antt =====
-- The construction of the pipeline (`New` and its options in go-key-service/internal/auditlog/pipeline.go).
-- The clock is an argument of each call, so `WithClock` has no trace in the state.
use crypto_agent.Prelude.{◌||◌, List, [], ◌∷◌, ◌==◌, if◌then◌else◌}
use crypto_agent.Prelude.Int64.{Int64, is_negative}
use crypto_agent.Merkle.Tree.{Tree}
use crypto_agent.Auditlog.{Pipeline}

pub data Setting : Type 0 where
  with_clock : Setting
  with_subscriber_buffer : Int64 → Setting

unfoldable pub apply : Setting → Pipeline → Pipeline
apply with_clock p = p
apply (with_subscriber_buffer n) p =
    if is_negative n || n == 0 then p else record p { sub_buffer = n }

unfoldable pub apply_all : List Setting → Pipeline → Pipeline
unfolding apply
apply_all [] p = p
apply_all (o ∷ opts) p = apply_all opts (apply o p)

unfoldable pub new_pipeline : Tree → List Setting → Pipeline
unfolding apply_all
new_pipeline tree opts =
    apply_all opts
      (record { tree = tree; sub_buffer = 16; seen = []; events = []; subs = []; next_id = 0 })

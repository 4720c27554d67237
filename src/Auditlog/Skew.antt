-- ===== src/Auditlog/Skew.antt =====
-- The window of `Submit` around the server's clock (pipeline.go), on int64 bit patterns.
use crypto_agent.Prelude.{◌+◌, ◌^◌, ◌≤◌, ◌<◌, false, ◌≡◌, ◌↔◌, arith, ◌⊎◌}
use crypto_agent.Prelude.Int64.{Int64}
use crypto_agent.Auditlog.{abs_int64, is_skewed}

-- For a clock at least 30 seconds after 1970 and not at the end of int64, a time stamp passes the
-- check exactly when it is within 30 000 ms of the clock, or is the one pattern 2^63 away from it,
-- whose distance has no absolute value in int64.
pub is_skewed_iff :
    (now timestamp : Int64)
    → 30_000 ≤ now
    → now + 30_000 < 2 ^ 63
    → timestamp < 2 ^ 64
    → is_skewed now timestamp ≡ false
      ↔ ((timestamp ≤ now + 30_000 × now ≤ timestamp + 30_000) ⊎ timestamp ≡ now + 2 ^ 63)
unfolding is_skewed abs_int64
is_skewed_iff now timestamp h k b = ground arith

-- ===== src/Breaker.antt =====
-- internal/gateway/breaker.go: the count of failures in a row of each channel, and the channel row
-- that a tripped breaker disables.
pub mod Trips
use general_api.Base.{leb, ◌==◌, if◌then◌else◌, ℕ, ◌+◌, Bool, true, false}

-- A threshold of 0 or less switches the breaker off.
pub record Breaker : Type 0 where
  pub fails : ℕ → ℕ
  pub threshold : ℕ

unfoldable pub new_breaker : ℕ → Breaker
new_breaker threshold = record { fails = λ id. 0; threshold = threshold }

abbrev pub put_fails : ℕ → ℕ → (ℕ → ℕ) → ℕ → ℕ
put_fails id n m j = if j == id then n else m j

unfoldable pub record_success : ℕ → Breaker → Breaker
record_success id b = record b { fails = put_fails id 0 b.fails }

unfoldable pub record_failure : ℕ → Breaker → Bool × Breaker
record_failure id b = if leb b.threshold 0 then (false, b) else (
  leb b.threshold (b.fails id + 1),
  record b { fails = put_fails id (b.fails id + 1) b.fails },
)

-- The columns of a channel that decide whether it is used and probed.
pub record Channel : Type 0 where
  pub status : ℕ
  pub auto_disabled_at : ℕ

-- The UPDATE of `DisableChannel`, and whether it hit the row.
unfoldable pub disable_channel : ℕ → Channel → Channel × Bool
disable_channel now c =
    if c.status == 1 then (record { status = 0; auto_disabled_at = now }, true) else (c, false)

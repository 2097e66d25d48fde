-- ===== src/Quota/Overflow.antt =====
-- `addNoWrap`: the guard of every addition to a limit.
use general_api.Base.{ℤ, ◌+ℤ◌, InRange, in_range, wrap64, ◌≡◌, true, arith}
use general_api.Quota.{add_no_wrap}

-- The guard passes exactly when the sum of the two int64 is an int64, so what it lets through never
-- wraps, and nothing that fits is refused.
pub add_no_wrap-in_range :
    (base amount : ℤ)
    → InRange base
    → InRange amount
    → add_no_wrap base amount ≡ in_range (base +ℤ amount)
unfolding add_no_wrap wrap64 ◌+ℤ◌
add_no_wrap-in_range base amount h k = ground arith

pub in_range_lem : (z : ℤ) → InRange z → in_range z ≡ true
in_range_lem z h = ground arith

-- ===== src/Cost.antt =====
-- The billing kernel of internal/gateway/handler.go: clamps, the 128-bit product sum, the price of
-- one call and the snapshot that `applyUsage` writes.
pub mod Exact
pub mod Usage
pub mod Ledger
pub mod Bounds
use general_api.Base.{
  ℕ, zero, ◌+◌, ◌-◌, ◌*◌, ◌/◌, ◌%◌, ◌&&◌, ◌||◌, Option, none, some, ℤ, pos, ltb, leb, ◌==◌,
  if◌then◌else◌, ltb_ℤ, eqb_ℤ, ◌-ℤ◌, wrap64, bits64, signed64,
}

abbrev pub max_usage_tokens : ℕ
max_usage_tokens = 10000000000

abbrev pub max_usage_points : ℕ
max_usage_points = 1000000000000000

unfoldable pub clamp_tokens : ℤ → ℤ
clamp_tokens n =
    if ltb_ℤ n (pos 0)
    then pos 0
    else if ltb_ℤ (pos max_usage_tokens) n
    then pos max_usage_tokens
    else n

unfoldable pub clamp_price : ℤ → ℤ
clamp_price p = if ltb_ℤ p (pos 0) then pos 0 else p

-- bits.Mul64: the 128-bit product of two uint64, high word first.
abbrev pub mul64 : ℕ → ℕ → ℕ × ℕ
mul64 a b = (a * b / 18446744073709551616, a * b % 18446744073709551616)

-- bits.Div64: `none` is its panic, on a divisor that is 0 or not above the high word.
abbrev pub div64 : ℕ → ℕ → ℕ → Option (ℕ × ℕ)
div64 hi lo y =
    if leb y hi
    then none
    else some ((hi * 18446744073709551616 + lo) / y, (hi * 18446744073709551616 + lo) % y)

-- The two carries of the sum of three low words.
add_words : ℕ × ℕ → ℕ × ℕ → ℕ × ℕ → ℕ × ℕ
add_words (hi1, lo1) (hi2, lo2) (hi3, lo3) =
    let lo = (lo1 + lo2) % 18446744073709551616 in
    let carry = (if ltb lo lo1 then 1 else zero) in
    let lo' = (lo + lo3) % 18446744073709551616 in
    let carry' = (if ltb lo' lo3 then carry + 1 else carry) in
    ((hi1 + hi2 + hi3 + carry') % 18446744073709551616, lo')

unfoldable pub mul_add128 : ℤ → ℤ → ℤ → ℤ → ℤ → ℤ → ℕ × ℕ
unfolding add_words
mul_add128 a b c d e f =
    add_words (mul64 (bits64 a) (bits64 b)) (mul64 (bits64 c) (bits64 d))
      (mul64 (bits64 e) (bits64 f))

-- The rounding after the division: up, and at most the ceiling of one call.
round_up : Option (ℕ × ℕ) → Option ℤ
round_up none = none
round_up (some (q, r)) =
    if ltb max_usage_points q || q == max_usage_points && ltb 0 r
    then some (pos max_usage_points)
    else some (signed64 (if ltb 0 r then (q + 1) % 18446744073709551616 else q))

unfoldable pub div_price : ℕ × ℕ → Option ℤ
unfolding round_up
div_price (hi, lo) =
    if leb 1000000 hi then some (pos max_usage_points) else round_up (div64 hi lo 1000000)

-- `none` would be a panic of the process.
unfoldable pub calc_cost_cached : ℤ → ℤ → ℤ → ℤ → ℤ → ℤ → Option ℤ
calc_cost_cached prompt cached completion input_price cache_hit_price output_price =
    let pt = clamp_tokens prompt in
    let ct = clamp_tokens completion in
    let hit' = clamp_tokens cached in
    let hit = (if ltb_ℤ pt hit' then pt else hit') in
    let ip = clamp_price input_price in
    let chp' = clamp_price cache_hit_price in
    let op = clamp_price output_price in
    let chp = (if eqb_ℤ chp' (pos 0) then ip else chp') in
    div_price (mul_add128 (wrap64 (pt -ℤ hit)) ip hit chp ct op)

unfoldable pub calc_cost : ℤ → ℤ → ℤ → ℤ → Option ℤ
calc_cost prompt completion input_price output_price =
    calc_cost_cached prompt (pos 0) completion input_price (pos 0) output_price

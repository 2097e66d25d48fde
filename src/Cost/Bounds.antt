-- ===== src/Cost/Bounds.antt =====
-- What the exact price implies for the bill.
use general_api.Base.{
  ℤ, ◌≤ℤ◌, ◌<ℤ◌, InRange, pos, negsuc, ℕ, ◌+◌, ◌-◌, ◌*◌, ◌≤◌, ◌<◌, min, ◌≡◌, ap, some, arith,
}
use general_api.Cost.{max_usage_points, calc_cost_cached, calc_cost}
use general_api.Cost.Exact.{
  ceil_div, tokens, price, hit_tokens, hit_price, micro_points, calc_cost_cached_exact,
  calc_cost-words,
}

pub ceil_div_pos : (n : ℕ) → 0 < n → 0 < min (ceil_div n 1000000) max_usage_points
ceil_div_pos n h = omega arith

pub mul_pos : (a b : ℕ) → 0 < a → 0 < b → 0 < a * b
mul_pos a b h k = grind arith

split_mul : (p h i : ℕ) → h ≤ p → (p - h) * i + h * i ≡ p * i
split_mul p h i k = let e : p ≡ (p - h) + h = omega arith in omega (arith, ap (λ (t : ℕ). t * i) e)

-- Moving `d` tokens from the dear price to the cheap one.
shift_mul :
    (p h d i c : ℕ) → h + d ≤ p → c ≤ i → (p - (h + d)) * i + (h + d) * c ≤ (p - h) * i + h * c
shift_mul p h d i c k le =
    let e : p - h ≡ (p - (h + d)) + d = omega arith in
    let low : d * c ≤ d * i = grind arith in omega (arith, low, ap (λ (t : ℕ). t * i) e)

discount_mul : (p g h i c : ℕ) → g ≤ h → h ≤ p → c ≤ i → (p - h) * i + h * c ≤ (p - g) * i + g * c
discount_mul p g h i c k l le =
    let e : h ≡ g + (h - g) = omega arith in
    omega (arith, shift_mul p g (h - g) i c (omega arith) le, ap (λ (t : ℕ). (p - t) * i + t * c) e)

unpriced : (i c : ℤ) → c ≤ℤ pos 0 → hit_price i c ≡ price i
unpriced i c h = ground arith

priced : (i c : ℤ) → pos 0 <ℤ c → hit_price i c ≡ price c
priced i c h = ground arith

hit_tokens_mono : (prompt a b : ℤ) → a ≤ℤ b → hit_tokens prompt a ≤ hit_tokens prompt b
hit_tokens_mono prompt (pos a) (pos b) h = omega arith
hit_tokens_mono prompt (negsuc a) b h = omega arith
hit_tokens_mono prompt (pos a) (negsuc b) h = omega arith

price_mono : (a b : ℤ) → a ≤ℤ b → price a ≤ price b
price_mono (pos a) (pos b) h = omega arith
price_mono (negsuc a) b h = omega arith
price_mono (pos a) (negsuc b) h = omega arith

no_hits :
    (prompt completion i o : ℤ)
    → micro_points prompt (pos 0) completion i (pos 0) o
      ≡ tokens prompt * price i + tokens completion * price o
no_hits prompt completion i o =
    let e : hit_tokens prompt (pos 0) ≡ 0 = omega arith in
    let z : tokens prompt - 0 ≡ tokens prompt = omega arith in rw (e, z) (omega arith)

ceil_div_mono :
    (n m : ℕ)
    → n ≤ m
    → min (ceil_div n 1000000) max_usage_points ≤ min (ceil_div m 1000000) max_usage_points
ceil_div_mono n m h = omega arith

-- A call that produces at least one token of a priced output costs at least one point, and never
-- more than the ceiling.
pub calc_cost_cached_bounds :
    (prompt cached completion input_price cache_hit_price output_price : ℤ)
    → InRange input_price
    → InRange cache_hit_price
    → InRange output_price
    → pos 0 <ℤ completion
    → pos 0 <ℤ output_price
    → (c : ℕ) × (calc_cost_cached prompt cached completion input_price cache_hit_price output_price
        ≡ some (pos c))
      × (1 ≤ c)
      × (c ≤ max_usage_points)
calc_cost_cached_bounds prompt cached completion input_price cache_hit_price output_price hi hc ho h
      k =
    let m = micro_points prompt cached completion input_price cache_hit_price output_price in
    (
      min (ceil_div m 1000000) max_usage_points,
      calc_cost_cached_exact prompt cached completion input_price cache_hit_price output_price hi hc
          ho,
      ceil_div_pos m (
          omega
            (arith, mul_pos (tokens completion) (price output_price) (omega arith) (omega arith))),
      omega arith,
    )

-- With no cache price set the split into hits and misses changes nothing: the bill is that of
-- `CalcCost`, whatever number of hits the upstream reports.
calc_cost_cached-no_cache_price :
    (prompt cached completion input_price cache_hit_price output_price : ℤ)
    → InRange input_price
    → InRange cache_hit_price
    → InRange output_price
    → cache_hit_price ≤ℤ pos 0
    → calc_cost_cached prompt cached completion input_price cache_hit_price output_price
      ≡ calc_cost prompt completion input_price output_price
calc_cost_cached-no_cache_price prompt cached completion input_price cache_hit_price output_price hi
      hc ho h =
    rw
      (
        calc_cost_cached_exact prompt cached completion input_price cache_hit_price output_price hi
            hc ho,
        calc_cost-words prompt completion input_price output_price,
        calc_cost_cached_exact prompt (pos 0) completion input_price (pos 0) output_price hi
            (omega arith) ho,
      )
      (ap (λ n. some (pos (min (ceil_div n 1000000) max_usage_points)))
        (rw (unpriced input_price cache_hit_price h) (
          omega (
            arith,
            no_hits prompt completion input_price output_price,
            split_mul (tokens prompt) (hit_tokens prompt cached) (price input_price) (omega arith),
          ))))

-- A cache price at or below the input price is a discount: the more hits the upstream reports,
-- the less the call costs.
pub calc_cost_cached_discount :
    (prompt cached more completion input_price cache_hit_price output_price : ℤ)
    → InRange input_price
    → InRange cache_hit_price
    → InRange output_price
    → pos 0 <ℤ cache_hit_price
    → cache_hit_price ≤ℤ input_price
    → cached ≤ℤ more
    → (c d : ℕ) × (calc_cost_cached prompt cached completion input_price cache_hit_price
          output_price
        ≡ some (pos c))
      × (calc_cost_cached prompt more completion input_price cache_hit_price output_price
          ≡ some (pos d))
      × (d ≤ c)
calc_cost_cached_discount prompt cached more completion input_price cache_hit_price output_price hi
      hc ho h le fewer =
    (
      _,
      _,
      calc_cost_cached_exact prompt cached completion input_price cache_hit_price output_price hi hc
          ho,
      calc_cost_cached_exact prompt more completion input_price cache_hit_price output_price hi hc
          ho,
      ceil_div_mono _ _ (
          rw (priced input_price cache_hit_price h) (
            omega (
              arith,
              discount_mul (tokens prompt) (hit_tokens prompt cached) (hit_tokens prompt more)
                  (price input_price) (price cache_hit_price)
                  (hit_tokens_mono prompt cached more fewer) (omega arith)
                  (price_mono cache_hit_price input_price le),
            ))),
    )

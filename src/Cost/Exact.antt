-- ===== src/Cost/Exact.antt =====
-- The billing kernel against exact arithmetic over ℕ.
use general_api.Base.{
  ◌==◌, if◌then◌else◌, ℤ, pos_part, ◌-ℤ◌, ltb_ℤ, eqb_ℤ, InRange, bits64, wrap64, pos, ℕ, ◌+◌, ◌-◌,
  ◌*◌, ◌/◌, ◌%◌, ◌≤◌, ◌<◌, min, ◌≡◌, refl, ◌∙◌, some, arith,
}
use general_api.Cost.{
  max_usage_tokens, max_usage_points, clamp_tokens, clamp_price, add_words, mul_add128, div_price,
  calc_cost_cached, calc_cost,
}

-- Rounding up.
abbrev pub ceil_div : ℕ → ℕ → ℕ
ceil_div n d = (n + (d - 1)) / d

-- Three 128-bit numbers, by their words.
add_words_exact :
    (p q r : ℕ)
    → p + q + r < 18446744073709551616 * 18446744073709551616
    → let s =
        add_words
          (p / 18446744073709551616, p % 18446744073709551616)
          (q / 18446744073709551616, q % 18446744073709551616)
          (r / 18446744073709551616, r % 18446744073709551616) in
      (s.0 * 18446744073709551616 + s.1 ≡ p + q + r) × (s.1 < 18446744073709551616)
unfolding add_words
add_words_exact p q r h = ground arith

div_price_exact :
    (hi lo : ℕ)
    → lo < 18446744073709551616
    → div_price (hi, lo)
      ≡ some (pos (min (ceil_div (hi * 18446744073709551616 + lo) 1000000) max_usage_points))
unfolding div_price
div_price_exact hi lo h = ground arith

bits64_small : (n : ℕ) → n < 18446744073709551616 → bits64 (pos n) ≡ n
bits64_small n h = omega arith

product_bound :
    (a b : ℕ)
    → a ≤ 10000000000
    → b < 9223372036854775808
    → a * b ≤ 10000000000 * 9223372036854775808
product_bound a b h k = grind arith

mul_add128_exact :
    (a b c d e f : ℕ)
    → a ≤ 10000000000
    → b < 9223372036854775808
    → c ≤ 10000000000
    → d < 9223372036854775808
    → e ≤ 10000000000
    → f < 9223372036854775808
    → let s = mul_add128 (pos a) (pos b) (pos c) (pos d) (pos e) (pos f) in
      (s.0 * 18446744073709551616 + s.1 ≡ a * b + c * d + e * f) × (s.1 < 18446744073709551616)
unfolding mul_add128
mul_add128_exact a b c d e f ha hb hc hd he hf =
    rw
      (
        bits64_small a (omega arith),
        bits64_small b (omega arith),
        bits64_small c (omega arith),
        bits64_small d (omega arith),
        bits64_small e (omega arith),
        bits64_small f (omega arith),
      )
      (add_words_exact (a * b) (c * d) (e * f)
        (omega (arith, product_bound a b ha hb, product_bound c d hc hd, product_bound e f he hf)))

-- The clamped token count and price, as numbers.
abbrev pub tokens : ℤ → ℕ
tokens n = min (pos_part n) max_usage_tokens

abbrev pub price : ℤ → ℕ
price = pos_part

abbrev pub hit_tokens : ℤ → ℤ → ℕ
hit_tokens prompt cached = min (tokens cached) (tokens prompt)

-- A cache price of 0 stands for the input price.
abbrev pub hit_price : ℤ → ℤ → ℕ
hit_price input_price cache_hit_price =
    if price cache_hit_price == 0 then price input_price else price cache_hit_price

-- Millionths of a point that a call costs.
abbrev pub micro_points : ℤ → ℤ → ℤ → ℤ → ℤ → ℤ → ℕ
micro_points prompt cached completion input_price cache_hit_price output_price =
    (tokens prompt - hit_tokens prompt cached) * price input_price
    + hit_tokens prompt cached * hit_price input_price cache_hit_price
    + tokens completion * price output_price

clamp_tokens_lem : (n : ℤ) → clamp_tokens n ≡ pos (tokens n)
unfolding clamp_tokens
clamp_tokens_lem n = ground arith

clamp_price_lem : (n : ℤ) → clamp_price n ≡ pos (price n)
unfolding clamp_price
clamp_price_lem n = ground arith

hit_lem : (p h : ℕ) → (if ltb_ℤ (pos p) (pos h) then pos p else pos h) ≡ pos (min h p)
hit_lem p h = ground arith

hit_price_lem :
    (i c : ℕ) → (if eqb_ℤ (pos c) (pos 0) then pos i else pos c) ≡ pos (if c == 0 then i else c)
hit_price_lem i c = ground arith

miss_lem : (p h : ℕ) → h ≤ p → p ≤ 10000000000 → wrap64 (pos p -ℤ pos h) ≡ pos (p - h)
unfolding wrap64 ◌-ℤ◌
miss_lem p h k b = ground arith

calc_cost_cached-words :
    (prompt cached completion input_price cache_hit_price output_price : ℤ)
    → calc_cost_cached prompt cached completion input_price cache_hit_price output_price
      ≡ div_price (
          mul_add128
            (pos (tokens prompt - hit_tokens prompt cached))
            (pos (price input_price))
            (pos (hit_tokens prompt cached))
            (pos (hit_price input_price cache_hit_price))
            (pos (tokens completion))
            (pos (price output_price)))
unfolding calc_cost_cached
calc_cost_cached-words prompt cached completion input_price cache_hit_price output_price =
    rw
      (
        clamp_tokens_lem prompt,
        clamp_tokens_lem completion,
        clamp_tokens_lem cached,
        clamp_price_lem input_price,
        clamp_price_lem cache_hit_price,
        clamp_price_lem output_price,
      )
      (rw
        (
          hit_lem (tokens prompt) (tokens cached),
          hit_price_lem (price input_price) (price cache_hit_price),
        )
        (rw (miss_lem (tokens prompt) (hit_tokens prompt cached) (omega arith) (omega arith))))

-- For int64 arguments the billed price is the exact sum of the three segments, in millionths,
-- rounded up and cut at the ceiling of one call. No step of it panics or wraps.
pub calc_cost_cached_exact :
    (prompt cached completion input_price cache_hit_price output_price : ℤ)
    → InRange input_price
    → InRange cache_hit_price
    → InRange output_price
    → calc_cost_cached prompt cached completion input_price cache_hit_price output_price
      ≡ some (
          pos (
            min
              (ceil_div
                (micro_points prompt cached completion input_price cache_hit_price output_price)
                1000000)
              max_usage_points))
calc_cost_cached_exact prompt cached completion input_price cache_hit_price output_price hi hc ho =
    let words =
      mul_add128_exact (tokens prompt - hit_tokens prompt cached) (price input_price)
        (hit_tokens prompt cached) (hit_price input_price cache_hit_price) (tokens completion)
        (price output_price) (omega arith) (omega arith) (omega arith) (ground arith) (omega arith)
        (omega arith) in
    rw (calc_cost_cached-words prompt cached completion input_price cache_hit_price output_price)
      (div_price_exact _ _ words.1 ∙ rw words.0)

pub calc_cost-words :
    (prompt completion input_price output_price : ℤ)
    → calc_cost prompt completion input_price output_price
      ≡ calc_cost_cached prompt (pos 0) completion input_price (pos 0) output_price
unfolding calc_cost
calc_cost-words prompt completion input_price output_price = refl

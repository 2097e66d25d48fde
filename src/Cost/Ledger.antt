-- ===== src/Cost/Ledger.antt =====
-- What `applyUsage` writes into the log of a call.
use general_api.Base.{
  if◌then◌else◌, ℤ, ◌<ℤ◌, ltb_ℤ, InRange, pos, ℕ, ◌<◌, min, ◌≡◌, refl, some, arith,
}
use general_api.Model.{UsageLog, ModelPrices}
use general_api.Cost.{clamp_tokens, calc_cost_cached, max_usage_points}
use general_api.Cost.Exact.{
  ceil_div, tokens, hit_tokens, micro_points, price, calc_cost_cached_exact,
}
use general_api.Cost.Bounds.{ceil_div_pos, mul_pos}
use general_api.Cost.Usage.{Usage, cached_tokens, snapshot, price_snapshot, apply_usage}

-- The prices of a model are int64 columns.
pub record PricesInRange (m : ModelPrices) : Type 0 where
  pub input : InRange m.input_price
  pub output : InRange m.output_price
  pub hit : InRange m.input_cache_hit_price
  pub cost_input : InRange m.cost_input_price
  pub cost_output : InRange m.cost_output_price
  pub cost_hit : InRange m.cost_input_cache_hit_price

-- The points of a usage at the prices of a model, for the customer and for the vendor.
abbrev pub sale_points : Usage → ModelPrices → ℕ
sale_points u m =
    min
      (ceil_div
        (micro_points u.prompt_tokens (cached_tokens u) u.completion_tokens m.input_price
          m.input_cache_hit_price m.output_price)
        1000000)
      max_usage_points

abbrev pub vendor_points : Usage → ModelPrices → ℕ
vendor_points u m =
    min
      (ceil_div
        (micro_points u.prompt_tokens (cached_tokens u) u.completion_tokens m.cost_input_price
          m.cost_input_cache_hit_price m.cost_output_price)
        1000000)
      max_usage_points

-- An answer of a model with an output price costs something.
pub sale_points_pos :
    (u : Usage) (m : ModelPrices)
    → pos 0 <ℤ u.completion_tokens
    → pos 0 <ℤ m.output_price
    → 0 < sale_points u m
sale_points_pos u m h k = ceil_div_pos _ (
    omega (
      arith,
      mul_pos (tokens u.completion_tokens) (price m.output_price) (omega arith) (omega arith),
    ))

-- At no price it costs nothing.
pub sale_points_zero :
    (u : Usage) (m : ModelPrices)
    → m.input_price ≡ pos 0
    → m.input_cache_hit_price ≡ pos 0
    → m.output_price ≡ pos 0
    → sale_points u m ≡ 0
sale_points_zero u m a b c = rw (a, b, c) (omega arith)

-- The record of a usage that is priced at a model, all else as in the record before.
abbrev pub priced : UsageLog → Usage → ModelPrices → UsageLog
priced rec u m = record rec {
  prompt_tokens = pos (tokens u.prompt_tokens);
  completion_tokens = pos (tokens u.completion_tokens);
  cached_tokens = pos (hit_tokens u.prompt_tokens (cached_tokens u));
  input_price = m.input_price;
  output_price = m.output_price;
  input_cache_hit_price = m.input_cache_hit_price;
  cost_input_price = m.cost_input_price;
  cost_output_price = m.cost_output_price;
  cost_input_cache_hit_price = m.cost_input_cache_hit_price;
  cost = pos (sale_points u m);
  vendor_cost = pos (vendor_points u m);
}

clamp_tokens_lem : (n : ℤ) → clamp_tokens n ≡ pos (tokens n)
unfolding clamp_tokens
clamp_tokens_lem n = ground arith

hits_lem :
    (p c : ℤ)
    → (if ltb_ℤ (clamp_tokens p) (clamp_tokens c) then clamp_tokens p else clamp_tokens c)
      ≡ pos (hit_tokens p c)
unfolding clamp_tokens
hits_lem p c = ground arith

-- Counts that are clamped already are priced alike.
micro_points-clamped :
    (p k c i h o : ℤ)
    → micro_points (pos (tokens p)) (pos (hit_tokens p k)) (pos (tokens c)) i h o
      ≡ micro_points p k c i h o
micro_points-clamped p k c i h o =
    let a : tokens (pos (tokens p)) ≡ tokens p = omega arith in
    let b : min (tokens (pos (hit_tokens p k))) (tokens p) ≡ hit_tokens p k = omega arith in
    let d : tokens (pos (tokens c)) ≡ tokens c = omega arith in rw (a, b, d) refl

calc_clamped :
    (p k c i h o : ℤ)
    → InRange i
    → InRange h
    → InRange o
    → calc_cost_cached (pos (tokens p)) (pos (hit_tokens p k)) (pos (tokens c)) i h o
      ≡ some (pos (min (ceil_div (micro_points p k c i h o) 1000000) max_usage_points))
calc_clamped p k c i h o a b d =
    rw (← micro_points-clamped p k c i h o)
      (calc_cost_cached_exact (pos (tokens p)) (pos (hit_tokens p k)) (pos (tokens c)) i h o a b d)

-- For a model with int64 prices a usage report is always priced: the record holds the clamped
-- counts, the hits at most the prompt, the six prices of the model, the exact cost of the usage at
-- the model's sale prices and its exact vendor cost at the model's vendor prices, and all else as
-- before.
pub apply_usage_exact :
    (rec : UsageLog) (u : Usage) (m : ModelPrices)
    → PricesInRange m
    → apply_usage rec (some u) m ≡ some (priced rec u m)
unfolding apply_usage snapshot price_snapshot
apply_usage_exact rec u m h =
    let pt = u.prompt_tokens in
    let k = cached_tokens u in
    let c = u.completion_tokens in
    rw (hits_lem pt k, clamp_tokens_lem pt, clamp_tokens_lem c)
      (rw
        (
          calc_clamped pt k c m.input_price m.input_cache_hit_price m.output_price h.input h.hit
              h.output,
          price_snapshot,
        )
        (rw (
          calc_clamped pt k c m.cost_input_price m.cost_input_cache_hit_price m.cost_output_price
            h.cost_input h.cost_hit h.cost_output)))

-- ===== src/Cost/Usage.antt =====
-- The usage that an upstream reports and its snapshot in the log: `Usage.CachedTokens` and
-- `applyUsage` of internal/gateway/handler.go.
use general_api.Base.{if◌then◌else◌, ℤ, ltb_ℤ, true, Option, none, some}
use general_api.Model.{UsageLog, ModelPrices}
use general_api.Cost.{clamp_tokens, calc_cost_cached}

pub record Usage : Type 0 where
  pub prompt_tokens : ℤ
  pub completion_tokens : ℤ
  pub prompt_cache_hit_tokens : ℤ
  pub prompt_tokens_details : Option ℤ

-- The larger of the two dialects' counts.
cached_of : ℤ → Option ℤ → ℤ
cached_of c none = c
cached_of c (some d) = if ltb_ℤ c d then d else c

unfoldable pub cached_tokens : Usage → ℤ
unfolding cached_of
cached_tokens u = cached_of u.prompt_cache_hit_tokens u.prompt_tokens_details

-- The record with its prices and counts set, before the two costs.
unfoldable pub snapshot : UsageLog → Usage → ModelPrices → UsageLog
snapshot rec u m =
    let pt = clamp_tokens u.prompt_tokens in
    let cached = clamp_tokens (cached_tokens u) in
    record rec {
      prompt_tokens = pt;
      completion_tokens = clamp_tokens u.completion_tokens;
      cached_tokens = (if ltb_ℤ pt cached then pt else cached);
      input_price = m.input_price;
      output_price = m.output_price;
      input_cache_hit_price = m.input_cache_hit_price;
      cost_input_price = m.cost_input_price;
      cost_output_price = m.cost_output_price;
      cost_input_cache_hit_price = m.cost_input_cache_hit_price;
    }

-- The two prices of a snapshot; `none` would be a panic of the process.
unfoldable pub price_snapshot : UsageLog → Option UsageLog
price_snapshot r =
    elim (calc_cost_cached r.prompt_tokens r.cached_tokens r.completion_tokens r.input_price
      r.input_cache_hit_price r.output_price) [
        | none ↦ none
        | some cost ↦
            elim (calc_cost_cached r.prompt_tokens r.cached_tokens r.completion_tokens
              r.cost_input_price r.cost_input_cache_hit_price r.cost_output_price) [
                | none ↦ none
                | some vendor_cost ↦ some (record r { cost = cost; vendor_cost = vendor_cost })
              ]
      ]

unfoldable pub apply_usage : UsageLog → Option Usage → ModelPrices → Option UsageLog
apply_usage rec none m = some (record rec { no_usage = true })
apply_usage rec (some u) m = price_snapshot (snapshot rec u m)

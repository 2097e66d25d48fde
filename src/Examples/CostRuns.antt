-- ===== src/Examples/CostRuns.antt =====
-- Prices of concrete calls.
use general_api.Base.{◌-ℤ◌, wrap64, pos, negsuc, min, ◌≡◌, refl, false, none, some, arith}
use general_api.Model.{UsageLog, ModelPrices}
use general_api.Cost.{
  calc_cost_cached, max_usage_points, clamp_tokens, clamp_price, mul_add128, div_price,
}
use general_api.Cost.Exact.{ceil_div, micro_points, calc_cost_cached_exact}
use general_api.Cost.Usage.{Usage, apply_usage, cached_tokens}
use general_api.Usages.{resp_usage, responses_usage_from, anth_usage, anthropic_usage_from}
use general_api.Usages.Replay.{responses_usage-roundtrip}
use general_api.Cost.Ledger.{apply_usage_exact}

-- 1000 prompt tokens, 400 of them hits, 250 completion tokens; 2, 1 and 8 yuan per million.
small_call :
    calc_cost_cached (pos 1000) (pos 400) (pos 250) (pos 2000000) (pos 1000000) (pos 8000000)
    ≡ some (pos 3600)
unfolding calc_cost_cached clamp_tokens clamp_price mul_add128 div_price ◌-ℤ◌ wrap64
small_call = refl

-- One token at the lowest price still costs a point.
one_token : calc_cost_cached (pos 1) (pos 0) (pos 0) (pos 1) (pos 0) (pos 0) ≡ some (pos 1)
unfolding calc_cost_cached clamp_tokens clamp_price mul_add128 div_price ◌-ℤ◌ wrap64
one_token = refl

calc_cost_cached_exact_example :
    calc_cost_cached (pos 1000) (pos 400) (pos 250) (pos 2000000) (pos 1000000) (pos 8000000)
    ≡ some (
        pos (
          min
            (ceil_div
              (micro_points
                (pos 1000)
                (pos 400)
                (pos 250)
                (pos 2000000)
                (pos 1000000)
                (pos 8000000))
              1000000)
            max_usage_points))
calc_cost_cached_exact_example =
    calc_cost_cached_exact (pos 1000) (pos 400) (pos 250) (pos 2000000) (pos 1000000) (pos 8000000)
      (omega arith) (omega arith) (omega arith)

abbrev pub blank : UsageLog
blank = record {
  request_id = "r";
  org_id = 1;
  user_id = 7;
  api_key_id = 3;
  channel_id = none;
  cost_center_id = none;
  model_name = "m";
  is_stream = false;
  prompt_tokens = pos 0;
  completion_tokens = pos 0;
  cached_tokens = pos 0;
  input_price = pos 0;
  output_price = pos 0;
  input_cache_hit_price = pos 0;
  cost_input_price = pos 0;
  cost_output_price = pos 0;
  cost_input_cache_hit_price = pos 0;
  vendor_cost = pos 0;
  cost = pos 0;
  no_usage = false;
  status = 200;
  error = "";
  created_at = 0;
}

abbrev pub prices : ModelPrices
prices = record {
  input_price = pos 2000000;
  output_price = pos 8000000;
  input_cache_hit_price = pos 1000000;
  cost_input_price = pos 1000000;
  cost_output_price = pos 4000000;
  cost_input_cache_hit_price = pos 0;
}

-- An upstream that claims more hits than prompt tokens.
abbrev pub dirty : Usage
dirty = record {
  prompt_tokens = pos 1000;
  completion_tokens = pos 250;
  prompt_cache_hit_tokens = negsuc 4;
  prompt_tokens_details = some (pos 5000);
}

apply_usage_exact_example :
    apply_usage blank (some dirty) prices
    ≡ some (record blank {
      prompt_tokens = pos 1000;
      completion_tokens = pos 250;
      cached_tokens = pos 1000;
      input_price = pos 2000000;
      output_price = pos 8000000;
      input_cache_hit_price = pos 1000000;
      cost_input_price = pos 1000000;
      cost_output_price = pos 4000000;
      cost_input_cache_hit_price = pos 0;
      cost = pos 3000;
      vendor_cost = pos 2000;
    })
unfolding cached_tokens
apply_usage_exact_example = apply_usage_exact blank dirty prices (omega arith)

responses_usage-roundtrip_example :
    (apply_usage blank (responses_usage_from (some (resp_usage (some dirty)))) prices
      ≡ apply_usage blank (some dirty) prices)
    × (apply_usage blank (anthropic_usage_from (some (anth_usage (some dirty)))) prices
        ≡ apply_usage blank (some dirty) prices)
responses_usage-roundtrip_example = responses_usage-roundtrip blank dirty prices

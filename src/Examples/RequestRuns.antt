-- ===== src/Examples/RequestRuns.antt =====
-- Requests from their arrival to their settlement.
use general_api.Base.{◌==◌, pos, ◌<◌, ◌≡◌, refl, true, false, none, some, [], ◌∷◌, arith}
use general_api.Model.{UsageLog}
use general_api.Coord.{is_cooling, new_mem}
use general_api.Breaker.{new_breaker}
use general_api.Quota.Store.{Db}
use general_api.Quota.{precheck, precheck_row, settle, insert_log, scrubbed}
use general_api.Selector.{channel_candidates}
use general_api.Selector.Shuffle.{weighted_shuffle, int_weight}
use general_api.Selector.Query.{Selection, select_candidates}
use general_api.Request.Tables.{KeyInfo, Tier, ModelRow, Catalog, is_granted, request_prices}
use general_api.Request.{
  Env, Inbound, State, refused, admitted, chat_completions, preflight, relay, start_record,
  model_not_allowed,
}
use general_api.Request.Refused.{relay-refused}
use general_api.Request.Allowed.{Allowed, preflight-Allowed}
use general_api.Request.Bill.{PaidBy, Charge, relay-Charge}
use general_api.Cost.Usage.{apply_usage}
use general_api.Cost.Ledger.{priced, sale_points}
use general_api.Request.Pricing.{of_model, at_tier, free_override_charged}
use general_api.Examples.CostRuns.{blank, prices, dirty}
use general_api.Examples.QuotaRuns.{shop, solvent}
use general_api.Examples.RelayRuns.{config, turns}
use general_api.Examples.SelectorRuns.{random, row, key, plain}

abbrev env : Env
env = record {
  now = 1000;
  seconds = 9;
  period = "2026-09";
  decrypt = plain;
  intn = random;
  truncate = λ s. s;
  scrub = λ s. s;
}

abbrev chat_model : ModelRow
chat_model = record { enabled = true; video = false; vendor_id = 1; prices = prices }

abbrev discount : Tier
discount = record { input_price = pos 5; output_price = pos 7; input_cache_hit_price = pos 0 }

abbrev gift : Tier
gift = record { input_price = pos 0; output_price = pos 0; input_cache_hit_price = pos 0 }

-- The vendor is granted to user 7 alone.
abbrev catalog_with : Tier → Catalog
catalog_with t = record {
  models = λ name. some chat_model;
  org_model_prices = λ org_id name. some t;
  org_vendor_prices = λ org_id vendor_id. none;
  serving_vendors = λ name. 1 ∷ [];
  user_vendor_grants = λ user_id vendor_id. user_id == 7;
  user_model_grants = λ user_id name. false;
  key_rows = key ∷ [];
  cand_rows = λ name. row ∷ [];
}

abbrev catalog : Catalog
catalog = catalog_with discount

abbrev ann_key : KeyInfo
ann_key = record { org_id = 1; user_id = 7; key_id = 3; cost_center_id = none; playground = false }

abbrev bob_key : KeyInfo
bob_key = record ann_key { user_id = 8 }

abbrev hello : Inbound
hello = record {
  request_id = "r";
  allowed = true;
  too_large = false;
  parsed = some (record { keys = "model" ∷ "messages" ∷ []; model = "m"; stream = false });
}

abbrev funded : Db
funded = record shop { orgs = λ id. some solvent }

abbrev begin : State
begin = record { mem = new_mem; breaker = new_breaker 3; db = funded }

abbrev refused_record : KeyInfo → UsageLog
refused_record ki = record (start_record ki hello) { model_name = "m"; status = 403 }

bob_refused :
    preflight env catalog chat_completions bob_key funded new_mem hello
    ≡ refused model_not_allowed (refused_record bob_key) new_mem
unfolding preflight is_granted
bob_refused = refl

relay-refused_example :
    let e = relay env config catalog chat_completions bob_key turns hello begin in
    (e.rec.status ≡ 403)
    × (e.rec.cost ≡ pos 0)
    × (e.state.db ≡ insert_log env.seconds (scrubbed env.scrub e.rec) funded)
    × (e.state.breaker ≡ new_breaker 3)
    × (e.effects ≡ [])
relay-refused_example =
    relay-refused env config catalog chat_completions bob_key turns hello begin model_not_allowed
      (refused_record bob_key) new_mem bob_refused

abbrev selection : Selection
selection = select_candidates (pos 1000) plain random (key ∷ []) (row ∷ []) new_mem

ann_admitted :
    preflight env catalog chat_completions ann_key funded new_mem hello
    ≡ admitted
        (request_prices catalog ann_key "m" chat_model)
        false
        selection
        (record (start_record ann_key hello) { model_name = "m" })
unfolding preflight is_granted precheck precheck_row select_candidates channel_candidates
    weighted_shuffle int_weight is_cooling
ann_admitted = refl

preflight-Allowed_example :
    Allowed env catalog chat_completions ann_key funded new_mem hello
      (request_prices catalog ann_key "m" chat_model)
      false
      selection
preflight-Allowed_example =
    preflight-Allowed env catalog chat_completions ann_key funded new_mem hello
      (request_prices catalog ann_key "m" chat_model) false selection
      (record (start_record ann_key hello) { model_name = "m" }) ann_admitted

relay-Charge_example :
    let e = relay env config catalog chat_completions ann_key turns hello begin in
    PaidBy ann_key e.rec
    × Charge env catalog chat_completions ann_key hello begin e.rec
    × (e.state.db ≡ (settle env.scrub env.seconds env.period e.rec funded).1)
relay-Charge_example = relay-Charge env config catalog chat_completions ann_key turns hello begin

free_override_charged_example :
    (apply_usage blank (some dirty) (request_prices (catalog_with gift) ann_key "m" chat_model)
      ≡ some (priced blank dirty prices))
    × (0 < sale_points dirty prices)
    × (apply_usage blank (some dirty) (at_tier prices gift)
        ≡ some (record (priced blank dirty (at_tier prices gift)) { cost = pos 0 }))
free_override_charged_example =
    free_override_charged (catalog_with gift) ann_key "m" chat_model gift refl (of_model refl) blank
      dirty (omega arith) refl refl refl (omega arith) (omega arith)

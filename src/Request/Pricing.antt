-- ===== src/Request/Pricing.antt =====
-- The prices of an organisation that has overrides.
use general_api.Base.{
  ltb, if◌then◌else◌, ◌<ℤ◌, ltb_ℤ, eqb_ℤ, pos, ℕ, ◌<◌, String, ◌≡◌, refl, ap, ◌∙◌, Bool, true,
  false, ◌&&◌, none, some, arith,
}
use general_api.Model.{UsageLog, ModelPrices}
use general_api.Cost.Usage.{Usage, apply_usage}
use general_api.Cost.Ledger.{
  PricesInRange, sale_points, priced, apply_usage_exact, sale_points_pos, sale_points_zero,
}
use general_api.Request.Tables.{
  Tier, Catalog, ModelRow, KeyInfo, org_prices, request_prices, tier_of, chosen_tier,
  with_cache_price,
}

-- The override that applies to a request, if there is one: that of the model, else that of its
-- vendor.
pub data Overrides (cat : Catalog) (org_id : ℕ) (name : String) (row : ModelRow) (t : Tier)
    : Type 0 where
  of_model : cat.org_model_prices org_id name ≡ some t → Overrides cat org_id name row t
  of_vendor :
      cat.org_model_prices org_id name ≡ none
      → cat.org_vendor_prices org_id row.vendor_id ≡ some t
      → Overrides cat org_id name row t

chosen-Overrides :
    (cat : Catalog) (org_id : ℕ) (name : String) (row : ModelRow) (t : Tier)
    → Overrides cat org_id name row t
    → chosen_tier
        (cat.org_model_prices org_id name)
        (cat.org_vendor_prices org_id row.vendor_id)
        (tier_of row.prices)
      ≡ t
unfolding chosen_tier
chosen-Overrides cat org_id name row t (of_model e) = rw e refl
chosen-Overrides cat org_id name row t (of_vendor e f) = rw (e, f) refl

-- The prices of a model with those of an override in place of its own.
abbrev pub at_tier : ModelPrices → Tier → ModelPrices
at_tier m t = record m {
  input_price = t.input_price;
  output_price = t.output_price;
  input_cache_hit_price = t.input_cache_hit_price;
}

module _ (cat : Catalog) (ki : KeyInfo) (name : String) (row : ModelRow) (t : Tier)
    (member : ltb 0 ki.org_id ≡ true) (o : Overrides cat ki.org_id name row t) where
  overridden :
      {b : Bool}
      → eqb_ℤ t.output_price (pos 0) && eqb_ℤ t.input_price (pos 0) ≡ b
      → request_prices cat ki name row ≡ (
          if b then row.prices else record row.prices {
            input_price = (with_cache_price t).input_price;
            output_price = (with_cache_price t).output_price;
            input_cache_hit_price = (with_cache_price t).input_cache_hit_price;
          })
  unfolding org_prices
  overridden e = rw (member, chosen-Overrides cat ki.org_id name row t o, e) refl

  -- An override of the model, or without one of its vendor, sets the prices that an organisation
  -- is charged, with its input price for a cache price that is not positive, unless its input and
  -- output prices are both zero; what the vendor is paid stays.
  pub request_prices-Overrides :
      eqb_ℤ t.output_price (pos 0) && eqb_ℤ t.input_price (pos 0) ≡ false
      → let m = request_prices cat ki name row in
        (m.input_price ≡ t.input_price)
        × (m.output_price ≡ t.output_price)
        × (m.input_cache_hit_price ≡ (
            if ltb_ℤ (pos 0) t.input_cache_hit_price
            then t.input_cache_hit_price
            else t.input_price))
        × (m.cost_input_price ≡ row.prices.cost_input_price)
        × (m.cost_output_price ≡ row.prices.cost_output_price)
        × (m.cost_input_cache_hit_price ≡ row.prices.cost_input_cache_hit_price)
  unfolding with_cache_price
  request_prices-Overrides e = rw (overridden e) (refl, refl, refl, refl, refl, refl)

  -- A caller of an organisation whose override sets all three prices to zero is nevertheless
  -- charged at the model's own prices: a usage with completion tokens, of a model with int64
  -- prices and a positive output price, is logged at those, at a positive cost, while the prices
  -- of the override would make it free.
  pub free_override_charged :
      (rec : UsageLog) (u : Usage)
      → PricesInRange row.prices
      → t.input_price ≡ pos 0
      → t.output_price ≡ pos 0
      → t.input_cache_hit_price ≡ pos 0
      → pos 0 <ℤ row.prices.output_price
      → pos 0 <ℤ u.completion_tokens
      → (apply_usage rec (some u) (request_prices cat ki name row) ≡ some (priced rec u row.prices))
        × (0 < sale_points u row.prices)
        × (apply_usage rec (some u) (at_tier row.prices t)
            ≡ some (record (priced rec u (at_tier row.prices t)) { cost = pos 0 }))
  free_override_charged rec u h zi zo zh ho hc =
      let e : eqb_ℤ t.output_price (pos 0) && eqb_ℤ t.input_price (pos 0) ≡ true =
        rw (zi, zo) refl in
      (
        rw (overridden e) (apply_usage_exact rec u row.prices h),
        sale_points_pos u row.prices hc ho,
        apply_usage_exact rec u (at_tier row.prices t) nothing
            ∙ ap (λ (n : ℕ). some (record (priced rec u (at_tier row.prices t)) { cost = pos n }))
                (sale_points_zero u (at_tier row.prices t) zi zh zo),
      )
    where
      nothing : PricesInRange (at_tier row.prices t)
      nothing = record {
        input = rw zi (omega arith);
        output = rw zo (omega arith);
        hit = rw zh (omega arith);
        cost_input = h.cost_input;
        cost_output = h.cost_output;
        cost_hit = h.cost_hit;
      }

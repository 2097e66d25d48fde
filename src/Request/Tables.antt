-- ===== src/Request/Tables.antt =====
-- The tables that the checks of `relay` read, the prices of a request (the query of
-- org_model_prices and org_vendor_prices in internal/gateway/handler.go) and the grants of a model.
use general_api.Base.{
  ltb, if◌then◌else◌, ℤ, ltb_ℤ, eqb_ℤ, pos, ℕ, String, Bool, false, ◌&&◌, ◌||◌, Option, none, some,
  List, [], ◌∷◌,
}
use general_api.Model.{ModelPrices}
use general_api.Selector.{CandRow, KeyRow}

-- `KeyInfo`
pub record KeyInfo : Type 0 where
  pub org_id : ℕ
  pub user_id : ℕ
  pub key_id : ℕ
  pub cost_center_id : Option ℕ
  pub playground : Bool

-- The prices that an override has.
pub record Tier : Type 0 where
  pub input_price : ℤ
  pub output_price : ℤ
  pub input_cache_hit_price : ℤ

pub record ModelRow : Type 0 where
  pub enabled : Bool
  pub video : Bool
  pub vendor_id : ℕ
  pub prices : ModelPrices

-- The tables that the checks read, by their keys.
pub record Catalog : Type 0 where
  pub models : String → Option ModelRow
  pub org_model_prices : ℕ → String → Option Tier
  pub org_vendor_prices : ℕ → ℕ → Option Tier
  pub serving_vendors : String → List ℕ  -- ModelServingVendors
  pub user_vendor_grants : ℕ → ℕ → Bool
  pub user_model_grants : ℕ → String → Bool
  pub key_rows : List KeyRow
  pub cand_rows : String → List CandRow

abbrev pub tier_of : ModelPrices → Tier
tier_of m = record {
  input_price = m.input_price;
  output_price = m.output_price;
  input_cache_hit_price = m.input_cache_hit_price;
}

-- The nested CASE of the query: an override of the model, else one of its vendor, else the model's
-- own prices, with the input price for a cache price that is not positive.
unfoldable pub chosen_tier : Option Tier → Option Tier → Tier → Tier
chosen_tier (some mp) vp own = mp
chosen_tier none (some vp) own = vp
chosen_tier none none own = own

unfoldable pub with_cache_price : Tier → Tier
with_cache_price t = record t {
  input_cache_hit_price =
      (if ltb_ℤ (pos 0) t.input_cache_hit_price then t.input_cache_hit_price else t.input_price);
}

-- The prices of a request of an organisation.
unfoldable pub org_prices : Catalog → ℕ → String → ModelRow → ModelPrices
unfolding chosen_tier with_cache_price
org_prices cat org_id name row =
    let p = with_cache_price (
      chosen_tier (cat.org_model_prices org_id name) (cat.org_vendor_prices org_id row.vendor_id)
        (tier_of row.prices)) in
    if eqb_ℤ p.output_price (pos 0) && eqb_ℤ p.input_price (pos 0)
    then row.prices
    else record row.prices {
      input_price = p.input_price;
      output_price = p.output_price;
      input_cache_hit_price = p.input_cache_hit_price;
    }

abbrev pub request_prices : Catalog → KeyInfo → String → ModelRow → ModelPrices
request_prices cat ki name row =
    if ltb 0 ki.org_id then org_prices cat ki.org_id name row else row.prices

abbrev any_granted : (ℕ → Bool) → List ℕ → Bool
any_granted f [] = false
any_granted f (v ∷ vs) = f v || any_granted f vs

-- A grant of a vendor that serves the model, or of the model itself.
unfoldable pub is_granted : Catalog → ℕ → String → Bool
is_granted cat user_id name =
    any_granted (cat.user_vendor_grants user_id) (cat.serving_vendors name)
    || cat.user_model_grants user_id name

-- ===== src/Routes.antt =====
-- internal/service/modelroute.go: channels follow the keys of their vendor and models follow their
-- channels. A table is the list of its rows, whose ids and names are unique, so that the rows that
-- a sweep has selected are those that it updates. Remarks, notices and logs are left out, and no
-- other transaction comes in between.
pub mod Aligned
pub mod Recovery
use general_api.Base.{
  ltb, leb, ◌==◌, if◌then◌else◌, ltb→lt, lt→ltb, leb→le, ==_iff, Bool-cases, Option-cases, if_intro,
  length, length-append, All, All-append, ℤ, pos_part, neg_part, sub_ℕ, ◌+ℤ◌, ◌-ℤ◌, ◌≤ℤ◌, ◌<ℤ◌,
  ltb_ℤ, leb_ℤ, eqb_ℤ, +ℤ_parts, -ℤ_parts, eq_of_parts, int_laws, +ℤ_comm, +ℤ_assoc, +ℤ_zero,
  InRange, in_range, bits64, signed64, wrap64, wrap64-InRange, eqb_ℤ→eq, pos, negsuc, ℕ, zero, suc,
  ◌+◌, ◌-◌, ◌*◌, ◌/◌, ◌%◌, ◌^◌, ◌≤◌, ◌<◌, min, max, String, ◌≡◌, refl, sym, ap, subst, ◌∙◌, ◌≢◌,
  ◌↔◌, ◌⊎◌, inl, inr, Bool, true, false, ◌&&◌, ◌||◌, not, Option, none, some, List, [], ◌∷◌, ◌++◌,
  map, filter, append_assoc, append-nil, arith, str_eq, eq_iff, dec_lt, dec_le, ℕ_discrete,
}

pub record VendorRow : Type 0 where
  pub id : ℕ
  pub status : ℕ

pub record VendorKey : Type 0 where
  pub vendor_id : ℕ
  pub status : ℕ

pub record ChannelRow : Type 0 where
  pub id : ℕ
  pub name : String
  pub vendor_id : ℕ
  pub status : ℕ
  pub base_url : String
  pub path : String
  pub auto_disabled_at : ℕ
  pub nokey_disabled_at : ℕ
  pub updated_at : ℕ

pub record Ability : Type 0 where
  pub model_name : String
  pub channel_id : ℕ

pub record ModelRow : Type 0 where
  pub name : String
  pub status : ℕ
  pub auto_disabled_at : ℕ
  pub updated_at : ℕ

pub record RouteDb : Type 0 where
  pub vendors : List VendorRow
  pub vendor_keys : List VendorKey
  pub channels : List ChannelRow
  pub abilities : List Ability
  pub models : List ModelRow

-- EXISTS
abbrev pub any {ℓ} : {A : Type ℓ} → (A → Bool) → List A → Bool
any f [] = false
any f (x ∷ xs) = f x || any f xs

abbrev pub vendor_on : RouteDb → ℕ → Bool
vendor_on db id = any (λ (v : VendorRow). v.id == id && v.status == 1) db.vendors

-- `channelHasUsableKey`
unfoldable pub has_usable_key : RouteDb → ChannelRow → Bool
has_usable_key db c =
    any (λ (k : VendorKey). k.vendor_id == c.vendor_id && k.status == 1 && vendor_on db k.vendor_id)
      db.vendor_keys

abbrev pub serves : RouteDb → ℕ → ChannelRow → Bool
serves db id c =
    c.id == id
    && (vendor_on db c.vendor_id && c.status == 1)
    && not (str_eq c.base_url "")
    && not (str_eq c.path "")
    && any (λ (k : VendorKey). k.vendor_id == c.vendor_id && k.status == 1) db.vendor_keys

-- `ModelHasLiveUpstream`
unfoldable pub has_live_upstream : RouteDb → String → Bool
has_live_upstream db name =
    any (λ (a : Ability). str_eq a.model_name name && any (serves db a.channel_id) db.channels)
      db.abilities

-- The names of the rows that a test selects.
abbrev pub selected {ℓ} : {A : Type ℓ} → (A → Bool) → (A → String) → List A → List String
selected test name [] = []
selected test name (r ∷ rows) =
    let rest = selected test name rows in if test r then name r ∷ rest else rest

-- The rows that a test selects are changed, and named.
abbrev pub sweep {ℓ} :
    {A : Type ℓ} → (A → Bool) → (A → A) → (A → String) → List A → List A × List String
sweep test set name rows = (map (λ r. if test r then set r else r) rows, selected test name rows)

-- `disableNoKeyChannels`
unfoldable pub disable_no_key_channels : ℕ → RouteDb → RouteDb × List String
disable_no_key_channels now db =
    let r =
      sweep (λ c. c.status == 1 && not (has_usable_key db c))
        (λ c. record c { status = 0; nokey_disabled_at = now; updated_at = now }) (λ c. c.name)
        db.channels in
    (record db { channels = r.0 }, r.1)

-- `recoverKeyedChannels`
unfoldable pub recover_keyed_channels : ℕ → RouteDb → RouteDb × List String
recover_keyed_channels now db =
    let r =
      sweep (λ c. c.status == 0 && ltb 0 c.nokey_disabled_at && has_usable_key db c)
        (λ c. record c { status = 1; nokey_disabled_at = 0; updated_at = now }) (λ c. c.name)
        db.channels in
    (record db { channels = r.0 }, r.1)

-- `SyncChannelKeyState`
unfoldable pub sync_channel_key_state : ℕ → RouteDb → RouteDb × List String × List String
sync_channel_key_state now db =
    let d = disable_no_key_channels now db in
    let r = recover_keyed_channels now d.0 in (r.0, d.1, r.1)

abbrev pub disable_models : ℕ → RouteDb → RouteDb × List String
disable_models now db =
    let r =
      sweep (λ (m : ModelRow). m.status == 1 && not (has_live_upstream db m.name))
        (λ m. record m { status = 0; auto_disabled_at = now; updated_at = now }) (λ m. m.name)
        db.models in
    (record db { models = r.0 }, r.1)

abbrev pub recover_models : ℕ → RouteDb → RouteDb × List String
recover_models now db =
    let r =
      sweep
        (λ (m : ModelRow). m.status == 0 && ltb 0 m.auto_disabled_at && has_live_upstream db m.name)
        (λ m. record m { status = 1; auto_disabled_at = 0; updated_at = now }) (λ m. m.name)
        db.models in
    (record db { models = r.0 }, r.1)

-- `SyncModelRoutableStatus`
unfoldable pub sync_model_routable_status : ℕ → RouteDb → RouteDb × List String × List String
sync_model_routable_status now db =
    let d = disable_models now db in let r = recover_models now d.0 in (r.0, d.1, r.1)

-- What a call has changed: channels and models that were disabled and recovered.
pub record Synced : Type 0 where
  pub db : RouteDb
  pub channels_disabled : List String
  pub channels_recovered : List String
  pub disabled : List String
  pub recovered : List String

-- `SyncModelsAndNotify`: the channels first, the models then.
unfoldable pub sync_models : ℕ → RouteDb → Synced
sync_models now db =
    let c = sync_channel_key_state now db in
    let m = sync_model_routable_status now c.0 in
    record {
      db = m.0;
      channels_disabled = c.1;
      channels_recovered = c.2;
      disabled = m.1;
      recovered = m.2;
    }

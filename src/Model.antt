-- ===== src/Model.antt =====
-- Rows of the database: internal/model, with the columns that the modelled code reads or writes.
use general_api.Base.{ℤ, ℕ, String, Bool, Option}

-- usage_log.go. A price or a count is an int64; identifiers are positive.
pub record UsageLog : Type 0 where
  pub request_id : String
  pub org_id : ℕ
  pub user_id : ℕ
  pub api_key_id : ℕ
  pub channel_id : Option ℕ
  pub cost_center_id : Option ℕ
  pub model_name : String
  pub is_stream : Bool
  pub prompt_tokens : ℤ
  pub completion_tokens : ℤ
  pub cached_tokens : ℤ
  pub input_price : ℤ
  pub output_price : ℤ
  pub input_cache_hit_price : ℤ
  pub cost_input_price : ℤ
  pub cost_output_price : ℤ
  pub cost_input_cache_hit_price : ℤ
  pub vendor_cost : ℤ
  pub cost : ℤ
  pub no_usage : Bool
  pub status : ℕ
  pub error : String
  pub created_at : ℕ

-- mlmodel.go, the prices of a model.
pub record ModelPrices : Type 0 where
  pub input_price : ℤ
  pub output_price : ℤ
  pub input_cache_hit_price : ℤ
  pub cost_input_price : ℤ
  pub cost_output_price : ℤ
  pub cost_input_cache_hit_price : ℤ

-- org.go
pub record Org : Type 0 where
  pub quota_limit : ℤ
  pub quota_used : ℤ
  pub monthly_quota : ℤ
  pub monthly_cost : ℤ
  pub monthly_period : String
  pub status : ℕ
  pub updated_at : ℕ

-- user.go. `org_id` is `none` for a platform administrator, `quota_limit` for an unlimited account.
pub record User : Type 0 where
  pub org_id : Option ℕ
  pub quota_limit : Option ℤ
  pub quota_used : ℤ
  pub monthly_quota : ℤ
  pub monthly_cost : ℤ
  pub monthly_period : String
  pub status : ℕ
  pub updated_at : ℕ

-- The column `subject_type` of a grant.
pub data Subject : Type 0 where
  org user : ℕ → Subject

-- grant.go
pub record QuotaGrant : Type 0 where
  pub subject : Subject
  pub amount : ℤ
  pub remark : String
  pub operator_id : Option ℕ
  pub created_at : ℕ

-- videotask.go. `task_id` is unique.
pub record VideoTask : Type 0 where
  pub task_id : String
  pub org_id : ℕ
  pub user_id : ℕ
  pub api_key_id : ℕ
  pub cost_center_id : Option ℕ
  pub channel_id : ℕ
  pub model_name : String
  pub status : String
  pub billed : ℕ
  pub completion_tokens : ℤ
  pub output_price : ℤ
  pub cost_output_price : ℤ
  pub create_request_id : String
  pub created_at : ℕ
  pub updated_at : ℕ

-- ===== src/Candidate.antt =====
-- `Candidate` of internal/gateway/selector.go: a channel with a key of its vendor.
use general_api.Base.{ℤ, ℕ, String}
use general_api.Coord.{Scope, ck, ch}

pub record Candidate : Type 0 where
  pub channel_id : ℕ
  pub channel_name : String
  pub vendor_id : ℕ
  pub vendor_name : String
  pub base_url : String
  pub path : String
  pub upstream_key : String
  pub upstream_model : String
  pub weight : ℤ
  pub priority : ℤ
  pub key_id : ℕ

abbrev pub key_scope : Candidate → Scope
key_scope c = ck c.vendor_id c.key_id

abbrev pub slot_scope : Candidate → Scope
slot_scope c = ch c.channel_id

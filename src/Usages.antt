-- ===== src/Usages.antt =====
-- The usage in the shapes of the two protocols and back: respUsage and responsesUsageFrom of
-- internal/gateway/responses.go, anthUsage and anthropicUsageFrom of internal/gateway/anthropic.go.
-- A JSON object is a record of its fields; a number that is missing is read as 0.
pub mod Replay
use general_api.Base.{
  ltb, leb, ◌==◌, if◌then◌else◌, ltb→lt, lt→ltb, leb→le, ==_iff, Bool-cases, Option-cases, if_intro,
  length, length-append, All, All-append, ℤ, pos_part, neg_part, sub_ℕ, ◌+ℤ◌, ◌-ℤ◌, ◌≤ℤ◌, ◌<ℤ◌,
  ltb_ℤ, leb_ℤ, eqb_ℤ, +ℤ_parts, -ℤ_parts, eq_of_parts, int_laws, +ℤ_comm, +ℤ_assoc, +ℤ_zero,
  InRange, in_range, bits64, signed64, wrap64, wrap64-InRange, eqb_ℤ→eq, pos, negsuc, ℕ, zero, suc,
  ◌+◌, ◌-◌, ◌*◌, ◌/◌, ◌%◌, ◌^◌, ◌≤◌, ◌<◌, min, max, String, ◌≡◌, refl, sym, ap, subst, ◌∙◌, ◌≢◌,
  ◌↔◌, ◌⊎◌, inl, inr, Bool, true, false, ◌&&◌, ◌||◌, not, Option, none, some, List, [], ◌∷◌, ◌++◌,
  map, filter, append_assoc, append-nil, arith, str_eq, eq_iff, dec_lt, dec_le, ℕ_discrete,
}
use general_api.Cost.Usage.{Usage, cached_tokens}

-- min and max on int64.
abbrev pub at_most : ℤ → ℤ → ℤ
at_most bound x = if ltb_ℤ bound x then bound else x

abbrev pub larger : ℤ → ℤ → ℤ
larger x y = if ltb_ℤ x y then y else x

pub record RespDetails : Type 0 where
  pub cached_tokens : ℤ
  pub cache_read_input_tokens : ℤ

pub record RespUsage : Type 0 where
  pub input_tokens : ℤ
  pub output_tokens : ℤ
  pub total_tokens : ℤ
  pub input_tokens_details : Option RespDetails

-- `respUsage`; it writes no cache_read_input_tokens.
unfoldable pub resp_usage : Option Usage → RespUsage
resp_usage none = record {
  input_tokens = pos 0;
  output_tokens = pos 0;
  total_tokens = pos 0;
  input_tokens_details = some (record { cached_tokens = pos 0; cache_read_input_tokens = pos 0 });
}
resp_usage (some u) = record {
  input_tokens = u.prompt_tokens;
  output_tokens = u.completion_tokens;
  total_tokens = wrap64 (u.prompt_tokens +ℤ u.completion_tokens);
  input_tokens_details = some (record {
    cached_tokens = at_most u.prompt_tokens (cached_tokens u);
    cache_read_input_tokens = pos 0;
  });
}

abbrev pub hits_of : Option RespDetails → ℤ
hits_of none = pos 0
hits_of (some d) = larger d.cached_tokens d.cache_read_input_tokens

-- `responsesUsageFrom` of a body that parses.
unfoldable pub responses_usage_from : Option RespUsage → Option Usage
responses_usage_from none = none
responses_usage_from (some r) = some (record {
  prompt_tokens = r.input_tokens;
  completion_tokens = r.output_tokens;
  prompt_cache_hit_tokens = hits_of r.input_tokens_details;
  prompt_tokens_details = none;
})

pub record AnthUsage : Type 0 where
  pub input_tokens : ℤ
  pub output_tokens : ℤ
  pub cache_creation_input_tokens : ℤ
  pub cache_read_input_tokens : ℤ

-- `anthUsage`
unfoldable pub anth_usage : Option Usage → AnthUsage
anth_usage none = record {
  input_tokens = pos 0;
  output_tokens = pos 0;
  cache_creation_input_tokens = pos 0;
  cache_read_input_tokens = pos 0;
}
anth_usage (some u) = record {
  input_tokens = u.prompt_tokens;
  output_tokens = u.completion_tokens;
  cache_creation_input_tokens = pos 0;
  cache_read_input_tokens = at_most u.prompt_tokens (cached_tokens u);
}

-- `anthropicUsageFrom` of a body that parses.
unfoldable pub anthropic_usage_from : Option AnthUsage → Option Usage
anthropic_usage_from none = none
anthropic_usage_from (some r) = some (record {
  prompt_tokens = r.input_tokens;
  completion_tokens = r.output_tokens;
  prompt_cache_hit_tokens = r.cache_read_input_tokens;
  prompt_tokens_details = none;
})

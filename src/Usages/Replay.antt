-- ===== src/Usages/Replay.antt =====
-- A usage that is read back from an answer costs what it did.
use general_api.Base.{ℤ, pos, ◌≡◌, ap, ◌∙◌, some, arith}
use general_api.Model.{UsageLog, ModelPrices}
use general_api.Cost.{clamp_tokens}
use general_api.Cost.Usage.{Usage, cached_tokens, snapshot, apply_usage, price_snapshot}
use general_api.Usages.{
  at_most, larger, resp_usage, responses_usage_from, anth_usage, anthropic_usage_from,
}

-- The bound by the prompt, before the clamp or after it.
bound_cached :
    (p c : ℤ)
    → at_most (clamp_tokens p) (clamp_tokens (at_most p c))
      ≡ at_most (clamp_tokens p) (clamp_tokens c)
unfolding clamp_tokens
bound_cached p c = ground arith

clamp_positive : (x : ℤ) → clamp_tokens (larger x (pos 0)) ≡ clamp_tokens x
unfolding clamp_tokens
clamp_positive x = ground arith

-- A usage that is written into an answer of the Responses or of the Anthropic protocol and read
-- back from it costs what it did: the record is the same in all its fields.
pub responses_usage-roundtrip :
    (rec : UsageLog) (u : Usage) (m : ModelPrices)
    → (apply_usage rec (responses_usage_from (some (resp_usage (some u)))) m
        ≡ apply_usage rec (some u) m)
      × (apply_usage rec (anthropic_usage_from (some (anth_usage (some u)))) m
          ≡ apply_usage rec (some u) m)
unfolding responses_usage_from resp_usage anthropic_usage_from anth_usage apply_usage snapshot
    cached_tokens
responses_usage-roundtrip rec u m =
    let c = cached_tokens u in
    let p = u.prompt_tokens in
    let at = λ (x : ℤ). price_snapshot (record (snapshot rec u m) { cached_tokens = x }) in
    (
      ap at (ap (at_most (clamp_tokens p)) (clamp_positive (at_most p c)) ∙ bound_cached p c),
      ap at (bound_cached p c),
    )

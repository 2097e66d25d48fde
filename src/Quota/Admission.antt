-- ===== src/Quota/Admission.antt =====
-- Admission by `Precheck`, and how far concurrent calls can overdraw an organisation.
use general_api.Base.{ℤ, ◌<ℤ◌, pos, String, ◌≡◌, refl, ◌↔◌, false, Option, none, some, arith}
use general_api.Model.{Org, User}
use general_api.Quota.Store.{ok}
use general_api.Quota.{precheck_row, month_cost, limit_reached, month_reached}

-- What a call may still use.
pub record HasQuota (period : String) (u : User) (o : Org) : Type 0 where
  pub user_total : (limit : ℤ) → u.quota_limit ≡ some limit → u.quota_used <ℤ limit
  pub user_month :
      pos 0 <ℤ u.monthly_quota
      → month_cost period u.monthly_period u.monthly_cost <ℤ u.monthly_quota
  pub org_total : o.quota_used <ℤ o.quota_limit
  pub org_month :
      pos 0 <ℤ o.monthly_quota
      → month_cost period o.monthly_period o.monthly_cost <ℤ o.monthly_quota

limit_free :
    (l : Option ℤ) (used : ℤ)
    → ((limit : ℤ) → l ≡ some limit → used <ℤ limit)
    → limit_reached l used ≡ false
limit_free none used h = refl
limit_free (some l) used h = ground (arith, h l refl)

month_free : (quota cost : ℤ) → (pos 0 <ℤ quota → cost <ℤ quota) → month_reached quota cost ≡ false
month_free quota cost h = ground arith

admitted :
    (period : String) (u : User) (o : Org) → precheck_row period u o ≡ ok tt → HasQuota period u o
unfolding precheck_row
admitted period u o h = record {
  user_total = λ limit e. ground arith;
  user_month = λ p. ground arith;
  org_total = ground arith;
  org_month = λ p. ground arith;
}

admits :
    (period : String) (u : User) (o : Org) → HasQuota period u o → precheck_row period u o ≡ ok tt
unfolding precheck_row
admits period u o h =
    rw
      (
        limit_free u.quota_limit u.quota_used h.user_total,
        month_free u.monthly_quota (month_cost period u.monthly_period u.monthly_cost) h.user_month,
        month_free o.monthly_quota (month_cost period o.monthly_period o.monthly_cost) h.org_month,
      )
      (ground (arith, h.org_total))

-- The precheck of a user's row admits a call exactly when both totals and both monthly caps leave
-- room: a missing user limit and a monthly quota of 0 or less are no limits, and the cost of an
-- earlier month counts as 0.
pub precheck_row-iff_HasQuota :
    (period : String) (u : User) (o : Org) → (precheck_row period u o ≡ ok tt) ↔ HasQuota period u o
precheck_row-iff_HasQuota period u o = (admitted period u o, admits period u o)

-- ===== src/Examples/QuotaRuns.antt =====
-- A small database: organisation 1 with one limited user, 7, and one unlimited user, 8.
use general_api.Base.{◌+ℤ◌, ◌≤ℤ◌, pos, ℕ, ◌*◌, ◌≡◌, refl, ◌⊎◌, false, none, some, [], ◌∷◌, arith}
use general_api.Model.{Org, User, UsageLog, QuotaGrant, Subject}
use general_api.Quota.Store.{Db, put, ok, err, db_error}
use general_api.Quota.{stop_in_arrears, precheck_row, charge_org, add_org_quota, settle, scrubbed}
use general_api.Quota.Ledger.{grant_sum, IsBalanced}
use general_api.Quota.Ledger.Histories.{start, after, adds_org, settles, Reach-IsBalanced}
use general_api.Quota.Overdraft.{overdraft_bounded, admits, charges}
use general_api.Quota.Overdraft
use general_api.Quota.Settling.{Fits}
use general_api.Quota.Settling.Cases.{Settled, settle_cases}

abbrev acme : Org
acme = record {
  quota_limit = pos 100;
  quota_used = pos 100;
  monthly_quota = pos 0;
  monthly_cost = pos 10;
  monthly_period = "2026-08";
  status = 2;
  updated_at = 0;
}

abbrev ann : User
ann = record {
  org_id = some 1;
  quota_limit = some (pos 50);
  quota_used = pos 20;
  monthly_quota = pos 0;
  monthly_cost = pos 0;
  monthly_period = "";
  status = 1;
  updated_at = 0;
}

abbrev bob : User
bob = record {
  org_id = some 1;
  quota_limit = none;
  quota_used = pos 80;
  monthly_quota = pos 0;
  monthly_cost = pos 0;
  monthly_period = "";
  status = 1;
  updated_at = 0;
}

abbrev grant_of : Subject → ℕ → QuotaGrant
grant_of s n = record {
  subject = s;
  amount = pos n;
  remark = "";
  operator_id = none;
  created_at = 0;
}

abbrev pub shop : Db
shop = record {
  orgs = put 1 acme (λ id. none);
  users = put 7 ann (put 8 bob (λ id. none));
  grants = grant_of (Subject.org 1) 100 ∷ grant_of (Subject.user 7) 50 ∷ [];
  logs = [];
}

shop-IsBalanced : IsBalanced shop
unfolding grant_sum ◌+ℤ◌
shop-IsBalanced = record { orgs = λ id o e. ground arith; users = λ id u e. ground arith }

abbrev call : ℕ → UsageLog
call n = record {
  request_id = "r";
  org_id = 1;
  user_id = 7;
  api_key_id = 3;
  channel_id = none;
  cost_center_id = none;
  model_name = "m";
  is_stream = false;
  prompt_tokens = pos 0;
  completion_tokens = pos 0;
  cached_tokens = pos 0;
  input_price = pos 0;
  output_price = pos 0;
  input_cache_hit_price = pos 0;
  cost_input_price = pos 0;
  cost_output_price = pos 0;
  cost_input_cache_hit_price = pos 0;
  vendor_cost = pos 0;
  cost = pos n;
  no_usage = false;
  status = 200;
  error = "";
  created_at = 0;
}

Reach-IsBalanced_example :
    IsBalanced
      (settle (λ s. s) 9 "2026-09" (call 30) (add_org_quota 1 (pos 400) 2 "paid" 8 shop).1).1
Reach-IsBalanced_example =
    Reach-IsBalanced
      (after (after start (adds_org shop 1 (pos 400) 2 "paid" 8))
        (settles _ (λ s. s) 9 "2026-09" (call 30)))
      shop-IsBalanced

abbrev pub solvent : Org
solvent = record acme { quota_limit = pos 105; status = 1 }

abbrev charged : Org
charged = record solvent {
  quota_used = pos 130;
  monthly_cost = pos 30;
  monthly_period = "2026-09";
  updated_at = 9;
}

overdraft_bounded_example : pos 130 ≤ℤ pos 105 +ℤ pos (2 * 30)
unfolding stop_in_arrears precheck_row charge_org ◌+ℤ◌
overdraft_bounded_example =
    overdraft_bounded 2 30 solvent
      {t = record { org = record charged { status = 2 }; in_flight = 1 }} (omega arith)
      (Overdraft.Reach.after
        (Overdraft.Reach.after
          (Overdraft.Reach.after Overdraft.Reach.start (admits _ "2026-09" ann refl (omega arith)))
          (admits _ "2026-09" bob refl (omega arith)))
        (charges _ 9 "2026-09" (pos 30) charged (omega arith) (omega arith) refl))

abbrev stopped_shop : Db
stopped_shop = record shop { orgs = put 1 (record acme { status = 0 }) (λ id. none) }

settle_cases_example :
    let r = settle (λ s. s) 9 "2026-09" (call 30) shop in
    let fits =
      Fits "2026-09" (pos 30) (pos 20) "" (pos 0)
      × Fits "2026-09" (pos 30) (pos 100) "2026-08" (pos 10) in
    (fits × (r.0 ≡ ok tt) × Settled 9 "2026-09" (scrubbed (λ s. s) (call 30)) ann acme shop r.1)
    ⊎ ((¬ fits) × (r ≡ (err db_error, shop)))
settle_cases_example =
    settle_cases (λ s. s) 9 "2026-09" (call 30) shop ann acme (omega arith) refl refl

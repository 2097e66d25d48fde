-- ===== src/Quota/Settling.antt =====
-- What `Settle` does to the two accounts and the log.
pub mod Cases
use general_api.Base.{
  Bool-cases, ℤ, ◌+ℤ◌, ◌≤ℤ◌, ◌<ℤ◌, int_laws, InRange, in_range, pos, ℕ, ◌+◌, ◌-◌, ◌≤◌, ◌<◌, String,
  ◌≡◌, ◌≢◌, ◌⊎◌, inl, inr, true, arith, str_eq, eq_iff,
}
use general_api.Model.{Org, User}
use general_api.Quota.Store.{ok}
use general_api.Quota.{db_error, err, charge_user, charge_org, stop_in_arrears, month_cost}

-- What a user is after a call of this cost, and an organisation, which stops in arrears when its
-- limit is positive and used up.
pub record UserCharged (now : ℕ) (period : String) (cost : ℤ) (u u' : User) : Type 0 where
  pub used : u'.quota_used ≡ u.quota_used +ℤ cost
  pub month :
      month_cost period u'.monthly_period u'.monthly_cost
      ≡ month_cost period u.monthly_period u.monthly_cost +ℤ cost
  pub limit : u'.quota_limit ≡ u.quota_limit
  pub status : u'.status ≡ u.status

pub record OrgCharged (now : ℕ) (period : String) (cost : ℤ) (o o' : Org) : Type 0 where
  pub used : o'.quota_used ≡ o.quota_used +ℤ cost
  pub month :
      month_cost period o'.monthly_period o'.monthly_cost
      ≡ month_cost period o.monthly_period o.monthly_cost +ℤ cost
  pub limit : o'.quota_limit ≡ o.quota_limit
  pub stops : o.status ≡ 1 → pos 0 <ℤ o.quota_limit → o.quota_limit ≤ℤ o'.quota_used → o'.status ≡ 2
  pub stays :
      (o.status ≢ 1) ⊎ ((o.quota_limit ≤ℤ pos 0) ⊎ (o'.quota_used <ℤ o.quota_limit))
      → o'.status ≡ o.status

zero_left : (c : ℤ) → c ≡ pos 0 +ℤ c
zero_left c = omega int_laws

charge_user-UserCharged :
    (now : ℕ) (period : String) (cost : ℤ) (u u' : User)
    → charge_user now period cost u ≡ ok u'
    → UserCharged now period cost u u'
unfolding charge_user
charge_user-UserCharged now period cost u u' h =
    ground (arith, zero_left cost, eq_iff u.monthly_period period, eq_iff period period)

charge_org-OrgCharged :
    (now : ℕ) (period : String) (cost : ℤ) (o o' : Org)
    → charge_org now period cost o ≡ ok o'
    → OrgCharged now period cost o (stop_in_arrears now o')
unfolding charge_org stop_in_arrears
charge_org-OrgCharged now period cost o o' h = record {
  used = ground arith;
  month = ground (arith, zero_left cost, eq_iff o.monthly_period period, eq_iff period period);
  limit = ground arith;
  stops = λ a b c. ground arith;
  stays = λ a. ground arith;
}

-- The sums of a charge are int64.
abbrev pub Fits : String → ℤ → ℤ → String → ℤ → Type 0
Fits period cost used stored month =
    InRange (used +ℤ cost) × (stored ≡ period → InRange (month +ℤ cost))

in_range→InRange : (z : ℤ) → in_range z ≡ true → InRange z
in_range→InRange z h = ground arith

charge_user_cases :
    (now : ℕ) (period : String) (cost : ℤ) (u : User)
    → (Fits period cost u.quota_used u.monthly_period u.monthly_cost
        × (u' : User) × (charge_user now period cost u ≡ ok u'))
      ⊎ (¬ (Fits period cost u.quota_used u.monthly_period u.monthly_cost)
          × (charge_user now period cost u ≡ err db_error))
unfolding charge_user
charge_user_cases now period cost u = elim (Bool-cases (in_range (u.quota_used +ℤ cost))) [
  | inr e ↦ inr (λ f. ground (arith, f.0), ground arith)
  | inl e ↦ elim (Bool-cases (str_eq u.monthly_period period)) [
    | inr d ↦ inl (
      (in_range→InRange _ e, λ q. absurd (ground (arith, eq_iff u.monthly_period period))),
      record u {
        quota_used = u.quota_used +ℤ cost;
        monthly_cost = cost;
        monthly_period = period;
        updated_at = now;
      },
      ground arith,
    )
    | inl d ↦ elim (Bool-cases (in_range (u.monthly_cost +ℤ cost))) [
      | inl f ↦ inl (
        (in_range→InRange _ e, λ q. in_range→InRange _ f),
        record u {
          quota_used = u.quota_used +ℤ cost;
          monthly_cost = u.monthly_cost +ℤ cost;
          monthly_period = period;
          updated_at = now;
        },
        ground arith,
      )
      | inr f ↦ inr (λ g. ground (arith, g.1 ((eq_iff u.monthly_period period).0 d)), ground arith)
    ]
  ]
]

charge_org_cases :
    (now : ℕ) (period : String) (cost : ℤ) (o : Org)
    → (Fits period cost o.quota_used o.monthly_period o.monthly_cost
        × (o' : Org) × (charge_org now period cost o ≡ ok o'))
      ⊎ (¬ (Fits period cost o.quota_used o.monthly_period o.monthly_cost)
          × (charge_org now period cost o ≡ err db_error))
unfolding charge_org
charge_org_cases now period cost o = elim (Bool-cases (in_range (o.quota_used +ℤ cost))) [
  | inr e ↦ inr (λ f. ground (arith, f.0), ground arith)
  | inl e ↦ elim (Bool-cases (str_eq o.monthly_period period)) [
    | inr d ↦ inl (
      (in_range→InRange _ e, λ q. absurd (ground (arith, eq_iff o.monthly_period period))),
      record o {
        quota_used = o.quota_used +ℤ cost;
        monthly_cost = cost;
        monthly_period = period;
        updated_at = now;
      },
      ground arith,
    )
    | inl d ↦ elim (Bool-cases (in_range (o.monthly_cost +ℤ cost))) [
      | inl f ↦ inl (
        (in_range→InRange _ e, λ q. in_range→InRange _ f),
        record o {
          quota_used = o.quota_used +ℤ cost;
          monthly_cost = o.monthly_cost +ℤ cost;
          monthly_period = period;
          updated_at = now;
        },
        ground arith,
      )
      | inr f ↦ inr (λ g. ground (arith, g.1 ((eq_iff o.monthly_period period).0 d)), ground arith)
    ]
  ]
]

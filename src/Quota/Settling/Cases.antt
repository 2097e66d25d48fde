-- ===== src/Quota/Settling/Cases.antt =====
-- A settlement either charges both accounts or changes nothing.
use general_api.Base.{
  ◌==◌, if◌then◌else◌, Bool-cases, ◌<ℤ◌, pos, ℕ, String, ◌≡◌, refl, ◌≢◌, ◌⊎◌, inl, inr, some, ◌∷◌,
  arith, str_eq,
}
use general_api.Model.{UsageLog, Org, User}
use general_api.Quota.Store.{put, commit, ok}
use general_api.Quota.{
  scrubbed, settle, put, insert_log, charge, settle_tx, Db, db_error, err, charge_user, charge_org,
  stop_in_arrears,
}
use general_api.Quota.Settling.{
  Fits, UserCharged, OrgCharged, charge_user-UserCharged, charge_org-OrgCharged, charge_user_cases,
  charge_org_cases,
}

-- The effect of a settlement on the database.
pub record Settled (now : ℕ) (period : String) (rec : UsageLog) (u : User) (o : Org) (db db' : Db)
    : Type 0 where
  pub new_user : User
  pub new_org : Org
  pub user_row : db'.users rec.user_id ≡ some new_user
  pub org_row : db'.orgs rec.org_id ≡ some new_org
  pub user_charged : UserCharged now period rec.cost u new_user
  pub org_charged : OrgCharged now period rec.cost o new_org
  pub other_users : (j : ℕ) → j ≢ rec.user_id → db'.users j ≡ db.users j
  pub other_orgs : (j : ℕ) → j ≢ rec.org_id → db'.orgs j ≡ db.orgs j
  pub same_grants : db'.grants ≡ db.grants
  pub logged :
      db'.logs ≡ (if rec.created_at == 0 then record rec { created_at = now } else rec) ∷ db.logs

module _ (now : ℕ) (period : String) (rec : UsageLog) (db : Db) (u : User) (o : Org)
    (paid : pos 0 <ℤ rec.cost) (hu : db.users rec.user_id ≡ some u)
    (ho : db.orgs rec.org_id ≡ some o) where
  settle_tx_ok :
      (u' : User) (o' : Org)
      → charge_user now period rec.cost u ≡ ok u'
      → charge_org now period rec.cost o ≡ ok o'
      → (db' : Db) × (settle_tx now period rec db ≡ ok (tt, db'))
        × Settled now period rec u o db db'
  unfolding settle_tx charge
  settle_tx_ok u' o' e f = (
    insert_log now rec (record db {
      users = put rec.user_id u' db.users;
      orgs = put rec.org_id (stop_in_arrears now o') (put rec.org_id o' db.orgs);
    }),
    ground arith,
    record {
      new_user = u';
      new_org = stop_in_arrears now o';
      user_row = ground arith;
      org_row = ground arith;
      user_charged = charge_user-UserCharged now period rec.cost u u' e;
      org_charged = charge_org-OrgCharged now period rec.cost o o' f;
      other_users = λ j n. ground arith;
      other_orgs = λ j n. ground arith;
      same_grants = refl;
      logged = refl;
    },
  )

  settle_tx_user_fails :
      charge_user now period rec.cost u ≡ err db_error → settle_tx now period rec db ≡ err db_error
  unfolding settle_tx charge
  settle_tx_user_fails e = ground arith

  settle_tx_org_fails :
      (u' : User)
      → charge_user now period rec.cost u ≡ ok u'
      → charge_org now period rec.cost o ≡ err db_error
      → settle_tx now period rec db ≡ err db_error
  unfolding settle_tx charge
  settle_tx_org_fails u' e f = ground arith

  tx_cases :
      let r = commit db (settle_tx now period rec db) in
      let fits =
        Fits period rec.cost u.quota_used u.monthly_period u.monthly_cost
        × Fits period rec.cost o.quota_used o.monthly_period o.monthly_cost in
      (fits × (r.0 ≡ ok tt) × Settled now period rec u o db r.1)
      ⊎ ((¬ fits) × (r ≡ (err db_error, db)))
  tx_cases = elim (charge_user_cases now period rec.cost u) [
    | inr (n, e) ↦ inr (λ f. n f.0, rw (settle_tx_user_fails e))
    | inl (fu, u', e) ↦ elim (charge_org_cases now period rec.cost o) [
      | inr (n, f) ↦ inr (λ g. n g.1, rw (settle_tx_org_fails u' e f))
      | inl (fo, o', f) ↦
          let (db', q, s) = settle_tx_ok u' o' e f in inl ((fu, fo), rw q refl, rw q s)
    ]
  ]

-- Settling a call with a cost either charges the user and the organisation alike, starts a new
-- month's count where the stored month is another, stops the organisation when that uses up a
-- positive limit, and logs the call with its error scrubbed; or, when one of the sums is no int64,
-- it reports that and changes nothing.
pub settle_cases :
    (scrub : String → String) (now : ℕ) (period : String) (rec : UsageLog) (db : Db) (u : User)
    (o : Org)
    → pos 0 <ℤ rec.cost
    → db.users rec.user_id ≡ some u
    → db.orgs rec.org_id ≡ some o
    → let r = settle scrub now period rec db in
      let fits =
        Fits period rec.cost u.quota_used u.monthly_period u.monthly_cost
        × Fits period rec.cost o.quota_used o.monthly_period o.monthly_cost in
      (fits × (r.0 ≡ ok tt) × Settled now period (scrubbed scrub rec) u o db r.1)
      ⊎ ((¬ fits) × (r ≡ (err db_error, db)))
unfolding settle
settle_cases scrub now period rec db u o paid hu ho = elim (Bool-cases (str_eq rec.error "")) [
  | inl e ↦ rw e (tx_cases now period rec db u o paid hu ho)
  | inr e ↦ rw e (tx_cases now period (record rec { error = scrub rec.error }) db u o paid hu ho)
]

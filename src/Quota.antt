-- ===== src/Quota.antt =====
-- internal/service/quota.go: reading and writing quotas. The clock, the billing period of the
-- clock and the text scrubber are arguments.
pub mod Store
pub mod Overflow
pub mod Rate
pub mod Ledger
pub mod Admission
pub mod Overdraft
pub mod Arrears
pub mod Settling
use general_api.Base.{
  ◌==◌, if◌then◌else◌, ℤ, ◌+ℤ◌, ◌-ℤ◌, ltb_ℤ, leb_ℤ, eqb_ℤ, wrap64, pos, ℕ, ◌+◌, ◌-◌, String, Bool,
  true, false, ◌&&◌, Option, none, some, ◌∷◌, str_eq,
}
use general_api.Model.{Org, User, Subject, UsageLog}
use Store.{
  ◌>>=◌, ◌>>◌, not_found, user_quota, org_quota, user_monthly, org_monthly, quota_overflow,
  quota_unlimited, db_error, Result, ok, err, guard, or_fail, Db, put, sql_add, update_org,
  update_user, transaction,
}

-- CASE WHEN monthly_period = ? THEN monthly_cost ELSE 0 END
abbrev pub month_cost : String → String → ℤ → ℤ
month_cost period stored cost = if str_eq stored period then cost else pos 0

-- The tests of `Precheck` on a joined row, in their order.
abbrev pub limit_reached : Option ℤ → ℤ → Bool
limit_reached none used = false
limit_reached (some limit) used = leb_ℤ limit used

abbrev pub month_reached : ℤ → ℤ → Bool
month_reached quota cost = ltb_ℤ (pos 0) quota && leb_ℤ quota cost

unfoldable pub precheck_row : String → User → Org → Result (Unit {0})
precheck_row period u o =
    if limit_reached u.quota_limit u.quota_used
    then err user_quota
    else if month_reached u.monthly_quota (month_cost period u.monthly_period u.monthly_cost)
    then err user_monthly
    else if leb_ℤ o.quota_limit o.quota_used
    then err org_quota
    else if month_reached o.monthly_quota (month_cost period o.monthly_period o.monthly_cost)
    then err org_monthly
    else ok tt

org_of : Db → Option ℕ → Option Org
org_of db none = none
org_of db (some id) = db.orgs id

unfoldable pub precheck : String → ℕ → Db → Result (Unit {0})
unfolding org_of
precheck period user_id db = elim (db.users user_id) [
  | none ↦ err not_found
  | some u ↦ elim (org_of db u.org_id) [ none ↦ err not_found | some o ↦ precheck_row period u o ]
]

-- monthly_cost after a call: the first call of a period starts anew.
abbrev pub month_add : String → String → ℤ → ℤ → Result ℤ
month_add period stored total cost = if str_eq stored period then sql_add total cost else ok cost

unfoldable pub charge_user : ℕ → String → ℤ → User → Result User
charge_user now period cost u = do
  used ← sql_add u.quota_used cost
  month ← month_add period u.monthly_period u.monthly_cost cost
  ok (record u {
    quota_used = used;
    monthly_cost = month;
    monthly_period = period;
    updated_at = now;
  })

unfoldable pub charge_org : ℕ → String → ℤ → Org → Result Org
charge_org now period cost o = do
  used ← sql_add o.quota_used cost
  month ← month_add period o.monthly_period o.monthly_cost cost
  ok (record o {
    quota_used = used;
    monthly_cost = month;
    monthly_period = period;
    updated_at = now;
  })

-- Out of quota: status 1 becomes 2.
unfoldable pub stop_in_arrears : ℕ → Org → Org
stop_in_arrears now o =
    if o.status == 1 && ltb_ℤ (pos 0) o.quota_limit && leb_ℤ o.quota_limit o.quota_used
    then record o { status = 2; updated_at = now }
    else o

-- Quota left again: status 2 becomes 1.
unfoldable pub resume_from_arrears : ℕ → Org → Org
resume_from_arrears now o =
    if o.status == 2 && ltb_ℤ o.quota_used o.quota_limit
    then record o { status = 1; updated_at = now }
    else o

unfoldable pub charge : ℕ → String → UsageLog → Db → Result Db
unfolding charge_user charge_org stop_in_arrears
charge now period rec db = do
  db1 ← update_user rec.user_id (charge_user now period rec.cost) db
  db2 ← update_org rec.org_id (charge_org now period rec.cost) db1
  update_org rec.org_id (λ o. ok (stop_in_arrears now o)) db2

-- autoCreateTime fills in an empty time.
abbrev pub insert_log : ℕ → UsageLog → Db → Db
insert_log now rec db = record db {
  logs = (if rec.created_at == 0 then record rec { created_at = now } else rec) ∷ db.logs;
}

unfoldable pub settle_tx : ℕ → String → UsageLog → Db → Result (Unit {0} × Db)
unfolding charge
settle_tx now period rec db = do
  db' ← (if ltb_ℤ (pos 0) rec.cost then charge now period rec db else ok db)
  ok (tt, insert_log now rec db')

-- The error text of a record without the addresses in it.
abbrev pub scrubbed : (String → String) → UsageLog → UsageLog
scrubbed scrub rec = if str_eq rec.error "" then rec else record rec { error = scrub rec.error }

unfoldable pub settle : (String → String) → ℕ → String → UsageLog → Db → Result (Unit {0}) × Db
unfolding settle_tx
settle scrub now period rec = transaction (settle_tx now period (scrubbed scrub rec))

unfoldable pub add_no_wrap : ℤ → ℤ → Bool
add_no_wrap base amount =
    let sum = wrap64 (base +ℤ amount) in
    if ltb_ℤ (pos 0) amount && ltb_ℤ sum base
    then false
    else if ltb_ℤ amount (pos 0) && ltb_ℤ base sum
    then false
    else true

abbrev pub op_id : ℕ → Option ℕ
op_id id = if id == 0 then none else some id

abbrev pub grant : Subject → ℤ → ℕ → String → ℕ → Db → Db
grant subject amount operator_id remark now db = record db {
  grants =
      record {
        subject = subject;
        amount = amount;
        remark = remark;
        operator_id = op_id operator_id;
        created_at = now;
      }
      ∷ db.grants;
}

unfoldable pub add_org_quota_tx : ℕ → ℤ → ℕ → String → ℕ → Db → Result (Unit {0} × Db)
unfolding resume_from_arrears
add_org_quota_tx org_id amount operator_id remark now db = do
  o ← or_fail (db.orgs org_id) not_found
  guard (add_no_wrap o.quota_limit amount) quota_overflow
  limit ← sql_add o.quota_limit amount
  let o' = resume_from_arrears now (record o { quota_limit = limit; updated_at = now })
  ok (
    tt,
    grant (Subject.org org_id) amount operator_id remark now
        (record db { orgs = put org_id o' db.orgs }),
  )

unfoldable pub add_org_quota : ℕ → ℤ → ℕ → String → ℕ → Db → Result (Unit {0}) × Db
unfolding add_org_quota_tx
add_org_quota org_id amount operator_id remark now =
    transaction (add_org_quota_tx org_id amount operator_id remark now)

unfoldable pub set_org_quota_tx : ℕ → ℤ → ℕ → String → ℕ → Db → Result (ℤ × Db)
unfolding resume_from_arrears
set_org_quota_tx org_id limit operator_id remark now db = do
  o ← or_fail (db.orgs org_id) not_found
  let delta = wrap64 (limit -ℤ o.quota_limit)
  let o' = resume_from_arrears now (record o { quota_limit = limit; updated_at = now })
  let db' = record db { orgs = put org_id o' db.orgs }
  ok (
    delta,
    if eqb_ℤ delta (pos 0)
        then db'
        else grant (Subject.org org_id) delta operator_id remark now db',
  )

unfoldable pub set_org_quota : ℕ → ℤ → ℕ → String → ℕ → Db → Result ℤ × Db
unfolding set_org_quota_tx
set_org_quota org_id limit operator_id remark now db =
    if ltb_ℤ limit (pos 0)
    then (err quota_overflow, db)
    else transaction (set_org_quota_tx org_id limit operator_id remark now) db

-- The row of a user, of this organisation only.
abbrev pub same_org : ℕ → Option ℕ → Bool
same_org org_id none = false
same_org org_id (some id) = id == org_id

unfoldable pub add_user_quota_tx : ℕ → ℕ → ℤ → ℕ → String → ℕ → Db → Result (Unit {0} × Db)
add_user_quota_tx org_id user_id amount operator_id remark now db = do
  u ← or_fail (db.users user_id) not_found
  guard (same_org org_id u.org_id) not_found
  base ← or_fail u.quota_limit quota_unlimited
  guard (add_no_wrap base amount) quota_overflow
  limit ← sql_add base amount
  ok (
    tt,
    grant (Subject.user user_id) amount operator_id remark now (record db {
      users = put user_id (record u { quota_limit = some limit; updated_at = now }) db.users;
    }),
  )

unfoldable pub add_user_quota : ℕ → ℕ → ℤ → ℕ → String → ℕ → Db → Result (Unit {0}) × Db
unfolding add_user_quota_tx
add_user_quota org_id user_id amount operator_id remark now =
    transaction (add_user_quota_tx org_id user_id amount operator_id remark now)

-- The new limit, the difference and the remark of a switch; `none` where nothing switches.
abbrev pub switch : Bool → Option ℤ → ℤ → Option (Option ℤ × ℤ × String)
switch true (some limit) used = some (none, wrap64 (pos 0 -ℤ limit), "设值调整：转不限额")
switch true none used = none
switch false none used = some (some used, used, "设值调整：转限额")
switch false (some limit) used = none

set_user_quota_unlimited_tx : ℕ → ℕ → Bool → ℕ → ℕ → Db → Result (Unit {0} × Db)
set_user_quota_unlimited_tx org_id user_id unlimited operator_id now db = do
  u ← or_fail (db.users user_id) not_found
  guard (same_org org_id u.org_id) not_found
  elim (switch unlimited u.quota_limit u.quota_used) [
    | none ↦ ok (tt, db)
    | some (limit, delta, remark) ↦
        let db' = record db {
          users = put user_id (record u { quota_limit = limit; updated_at = now }) db.users;
        } in
        ok (
          tt,
          if eqb_ℤ delta (pos 0)
              then db'
              else grant (Subject.user user_id) delta operator_id remark now db',
        )
  ]

unfoldable pub set_user_quota_unlimited : ℕ → ℕ → Bool → ℕ → ℕ → Db → Result (Unit {0}) × Db
unfolding set_user_quota_unlimited_tx
set_user_quota_unlimited org_id user_id unlimited operator_id now =
    transaction (set_user_quota_unlimited_tx org_id user_id unlimited operator_id now)

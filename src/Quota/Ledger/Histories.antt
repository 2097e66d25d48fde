-- ===== src/Quota/Ledger/Histories.antt =====
-- The audit invariant over any history of operations.
use general_api.Base.{ℤ, ◌-ℤ◌, InRange, pos, ℕ, String, ◌≡◌, Bool, some}
use general_api.Model.{Org, User, UsageLog}
use general_api.Quota.Store.{Db}
use general_api.Quota.{
  add_org_quota, set_org_quota, add_user_quota, set_user_quota_unlimited, settle,
}
use general_api.Quota.Ledger.{IsBalanced, coalesce}
use general_api.Quota.Ledger.Operations.{
  add_org_quota-IsBalanced, set_org_quota-IsBalanced, add_user_quota-IsBalanced,
}
use general_api.Quota.Ledger.Settlement.{set_user_quota_unlimited-IsBalanced, settle-IsBalanced}

-- One operation, with any arguments. Setting a limit and switching need a difference that an int64
-- can hold.
pub data Step : Db → Db → Type 0 where
  adds_org :
      (db : Db) (org_id : ℕ) (amount : ℤ) (operator_id : ℕ) (remark : String) (now : ℕ)
      → Step db (add_org_quota org_id amount operator_id remark now db).1
  sets_org :
      (db : Db) (org_id : ℕ) (limit : ℤ) (operator_id : ℕ) (remark : String) (now : ℕ)
      → ((o : Org) → db.orgs org_id ≡ some o → InRange (limit -ℤ o.quota_limit))
      → Step db (set_org_quota org_id limit operator_id remark now db).1
  adds_user :
      (db : Db) (org_id user_id : ℕ) (amount : ℤ) (operator_id : ℕ) (remark : String) (now : ℕ)
      → Step db (add_user_quota org_id user_id amount operator_id remark now db).1
  switches :
      (db : Db) (org_id user_id : ℕ) (unlimited : Bool) (operator_id now : ℕ)
      → ((u : User) → db.users user_id ≡ some u → InRange (pos 0 -ℤ coalesce u.quota_limit))
      → Step db (set_user_quota_unlimited org_id user_id unlimited operator_id now db).1
  settles :
      (db : Db) (scrub : String → String) (now : ℕ) (period : String) (rec : UsageLog)
      → Step db (settle scrub now period rec db).1

pub data Reach (db : Db) : Db → Type 0 where
  start : Reach db db
  after : {db' db'' : Db} → Reach db db' → Step db' db'' → Reach db db''

pub Step-IsBalanced : {db db' : Db} → Step db db' → IsBalanced db → IsBalanced db'
Step-IsBalanced (adds_org db i a o r n) v = add_org_quota-IsBalanced i a o r n db v
Step-IsBalanced (sets_org db i a o r n range) v = set_org_quota-IsBalanced i a o r n db v range
Step-IsBalanced (adds_user db i u a o r n) v = add_user_quota-IsBalanced i u a o r n db v
Step-IsBalanced (switches db i u b o n range) v =
    set_user_quota_unlimited-IsBalanced i u b o n db v range
Step-IsBalanced (settles db s n p r) v = settle-IsBalanced s n p r db v

-- From a balanced database, any history of the five operations, failed ones included, leaves every
-- organisation's and every user's grants summing to its limit (an unlimited user's to 0), as long
-- as each limit that is set or switched differs from the old one by an int64.
pub Reach-IsBalanced : {db db' : Db} → Reach db db' → IsBalanced db → IsBalanced db'
Reach-IsBalanced start v = v
Reach-IsBalanced (after r s) v = Step-IsBalanced s (Reach-IsBalanced r v)

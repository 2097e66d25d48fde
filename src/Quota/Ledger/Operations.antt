-- ===== src/Quota/Ledger/Operations.antt =====
-- Every operation on quotas keeps the audit invariant.
use general_api.Base.{
  Bool-cases, Option-cases, ℤ, ◌+ℤ◌, ◌-ℤ◌, ltb_ℤ, eqb_ℤ, int_laws, +ℤ_zero, InRange, wrap64,
  wrap64-InRange, eqb_ℤ→eq, pos, ℕ, String, ◌≡◌, refl, ap, ◌∙◌, inl, inr, true, some, arith,
}
use general_api.Model.{User, Org, Subject}
use general_api.Quota.Store.{commit_cases, ok, Db, put}
use general_api.Quota.{
  add_user_quota, add_user_quota_tx, add_org_quota, set_org_quota_tx, set_org_quota,
  resume_from_arrears, add_org_quota_tx, grant,
}
use general_api.Quota.Ledger.{move_user, keep_org, IsBalanced, move_org}

resume-limit : (now : ℕ) (o : Org) → (resume_from_arrears now o).quota_limit ≡ o.quota_limit
unfolding resume_from_arrears
resume-limit now o = ground arith

add_org_quota_tx-IsBalanced :
    (org_id : ℕ) (amount : ℤ) (operator_id : ℕ) (remark : String) (now : ℕ) (db : Db) (a : Unit {0})
    (db' : Db)
    → IsBalanced db
    → add_org_quota_tx org_id amount operator_id remark now db ≡ ok (a, db')
    → IsBalanced db'
unfolding add_org_quota_tx
add_org_quota_tx-IsBalanced org_id amount operator_id remark now db a db' v h =
    elim (Option-cases (db.orgs org_id)) [
      | inl e ↦ absurd (ground arith)
      | inr (o, e) ↦
          let s : o.quota_limit +ℤ amount ≡ o.quota_limit +ℤ amount = refl in
          let o' : Org =
            resume_from_arrears now
              (record o { quota_limit = o.quota_limit +ℤ amount; updated_at = now }) in
          let q : db'
              ≡ grant (Subject.org org_id) amount operator_id remark now
                  (record db { orgs = put org_id o' db.orgs }) =
            ground arith in
          rw q (
            move_org db v org_id o o' amount operator_id remark now e (
              resume-limit now
                (record o { quota_limit = o.quota_limit +ℤ amount; updated_at = now })))
    ]

-- Adding to an organisation's quota keeps every ledger balanced, whatever the outcome.
pub add_org_quota-IsBalanced :
    (org_id : ℕ) (amount : ℤ) (operator_id : ℕ) (remark : String) (now : ℕ) (db : Db)
    → IsBalanced db
    → IsBalanced (add_org_quota org_id amount operator_id remark now db).1
unfolding add_org_quota
add_org_quota-IsBalanced org_id amount operator_id remark now db v =
    commit_cases IsBalanced db (add_org_quota_tx org_id amount operator_id remark now db) v
      (λ a db' h. add_org_quota_tx-IsBalanced org_id amount operator_id remark now db a db' v h)

-- Adding to a user's quota does too.
add_user_quota_tx-IsBalanced :
    (org_id user_id : ℕ) (amount : ℤ) (operator_id : ℕ) (remark : String) (now : ℕ) (db : Db)
    (a : Unit {0}) (db' : Db)
    → IsBalanced db
    → add_user_quota_tx org_id user_id amount operator_id remark now db ≡ ok (a, db')
    → IsBalanced db'
unfolding add_user_quota_tx
add_user_quota_tx-IsBalanced org_id user_id amount operator_id remark now db a db' v h =
    elim (Option-cases (db.users user_id)) [
      | inl e ↦ absurd (ground arith)
      | inr (u, e) ↦ elim (Option-cases u.quota_limit) [
        | inl n ↦ absurd (ground arith)
        | inr (base, l) ↦
            let u' : User = record u { quota_limit = some (base +ℤ amount); updated_at = now } in
            let q : db'
                ≡ grant (Subject.user user_id) amount operator_id remark now
                    (record db { users = put user_id u' db.users }) =
              ground arith in
            rw q (move_user db v user_id u u' amount operator_id remark now e (rw l))
      ]
    ]

pub add_user_quota-IsBalanced :
    (org_id user_id : ℕ) (amount : ℤ) (operator_id : ℕ) (remark : String) (now : ℕ) (db : Db)
    → IsBalanced db
    → IsBalanced (add_user_quota org_id user_id amount operator_id remark now db).1
unfolding add_user_quota
add_user_quota-IsBalanced org_id user_id amount operator_id remark now db v =
    commit_cases IsBalanced db (add_user_quota_tx org_id user_id amount operator_id remark now db) v
      (λ a db' h.
        add_user_quota_tx-IsBalanced org_id user_id amount operator_id remark now db a db' v h)

difference : (a b : ℤ) → a ≡ b +ℤ (a -ℤ b)
difference a b = omega int_laws

difference_zero : (a b : ℤ) → eqb_ℤ (a -ℤ b) (pos 0) ≡ true → a ≡ b
difference_zero a b h = difference a b ∙ ap (λ c. b +ℤ c) (eqb_ℤ→eq (a -ℤ b) (pos 0) h) ∙ +ℤ_zero b

set_org_quota_tx-IsBalanced :
    (org_id : ℕ) (limit : ℤ) (operator_id : ℕ) (remark : String) (now : ℕ) (db : Db) (a : ℤ)
    (db' : Db)
    → IsBalanced db
    → ((o : Org) → db.orgs org_id ≡ some o → InRange (limit -ℤ o.quota_limit))
    → set_org_quota_tx org_id limit operator_id remark now db ≡ ok (a, db')
    → IsBalanced db'
unfolding set_org_quota_tx
set_org_quota_tx-IsBalanced org_id limit operator_id remark now db a db' v range h =
    elim (Option-cases (db.orgs org_id)) [
      | inl e ↦ absurd (ground arith)
      | inr (o, e) ↦
          let exact : wrap64 (limit -ℤ o.quota_limit) ≡ limit -ℤ o.quota_limit =
            wrap64-InRange (limit -ℤ o.quota_limit) (range o e) in
          let delta = limit -ℤ o.quota_limit in
          let o' : Org =
            resume_from_arrears now (record o { quota_limit = limit; updated_at = now }) in
          let l : o'.quota_limit ≡ limit =
            resume-limit now (record o { quota_limit = limit; updated_at = now }) in
          elim (Bool-cases (eqb_ℤ delta (pos 0))) [
            | inl z ↦
                let q : db' ≡ record db { orgs = put org_id o' db.orgs } = ground arith in
                rw q (keep_org db v org_id o o' e (l ∙ difference_zero limit o.quota_limit z))
            | inr z ↦
                let q : db'
                    ≡ grant (Subject.org org_id) delta operator_id remark now
                        (record db { orgs = put org_id o' db.orgs }) =
                  ground arith in
                rw q (
                  move_org db v org_id o o' delta operator_id remark now e
                    (l ∙ difference limit o.quota_limit))
          ]
    ]

pub set_org_quota-IsBalanced :
    (org_id : ℕ) (limit : ℤ) (operator_id : ℕ) (remark : String) (now : ℕ) (db : Db)
    → IsBalanced db
    → ((o : Org) → db.orgs org_id ≡ some o → InRange (limit -ℤ o.quota_limit))
    → IsBalanced (set_org_quota org_id limit operator_id remark now db).1
unfolding set_org_quota
set_org_quota-IsBalanced org_id limit operator_id remark now db v range =
    elim (Bool-cases (ltb_ℤ limit (pos 0))) [
      | inl e ↦ rw e v
      | inr e ↦ rw e (
          commit_cases IsBalanced db (set_org_quota_tx org_id limit operator_id remark now db) v
            (λ a db' h.
              set_org_quota_tx-IsBalanced org_id limit operator_id remark now db a db' v range h))
    ]

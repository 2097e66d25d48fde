-- ===== src/Quota/Arrears.antt =====
-- The status of an organisation (1 enabled, 0 stopped by hand, 2 stopped in arrears) under the
-- operations on its quota.
use general_api.Quota.Overflow.{add_no_wrap-in_range, in_range_lem}
use general_api.Base.{
  Bool-cases, Option-cases, ℤ, ◌+ℤ◌, ◌≤ℤ◌, ◌<ℤ◌, ltb_ℤ, InRange, in_range, pos, ℕ, String, ◌≡◌, ◌∙◌,
  ◌≢◌, inl, inr, Bool, true, Option, none, some, arith,
}
use general_api.Model.{Org, User, UsageLog}
use general_api.Quota.Store.{
  commit_cases, Result-cases, >>=-eq-ok, ok, Result, Db, update_org, update_user,
}
use general_api.Quota.{
  charge_user, insert_log, add_no_wrap, stop_in_arrears, resume_from_arrears, charge_org, charge,
  settle, settle_tx, scrubbed, add_org_quota, add_org_quota_tx, set_org_quota, set_org_quota_tx,
  add_user_quota, set_user_quota_unlimited, add_user_quota_tx, set_user_quota_unlimited_tx,
}
use general_api.Quota.Ledger.Histories.{
  Step, Reach, adds_org, sets_org, adds_user, switches, settles, start, after,
}

-- The status of a row.
abbrev pub status_of : Option Org → Option ℕ
status_of none = none
status_of (some o) = some o.status

resume-stopped : (now : ℕ) (o : Org) → o.status ≡ 0 → (resume_from_arrears now o).status ≡ 0
unfolding resume_from_arrears
resume-stopped now o h = ground arith

stopped_again :
    (now : ℕ) (o o' : Org)
    → ◌≡◌ {A = Result Org} (ok (stop_in_arrears now o)) (ok o')
    → o.status ≡ 0
    → o'.status ≡ 0
unfolding stop_in_arrears
stopped_again now o o' e z = ground arith

charge-status :
    (now : ℕ) (period : String) (cost : ℤ) (o o' : Org)
    → charge_org now period cost o ≡ ok o'
    → o'.status ≡ o.status
unfolding charge_org
charge-status now period cost o o' h = ground arith

resume_cases :
    (now : ℕ) (o : Org)
    → let o' = resume_from_arrears now o in
      (o'.quota_limit ≡ o.quota_limit)
      × (o.status ≡ 2 → o.quota_used <ℤ o'.quota_limit → o'.status ≡ 1)
      × (o.status ≡ 2 → o'.quota_limit ≤ℤ o.quota_used → o'.status ≡ 2)
      × (o.status ≢ 2 → o'.status ≡ o.status)
unfolding resume_from_arrears
resume_cases now o = (ground arith, λ h k. ground arith, λ h k. ground arith, λ h. ground arith)

-- After adding to an organisation in arrears it is enabled exactly when the new limit leaves room;
-- otherwise it stays in arrears, and a status other than 2 stays what it is.
pub add_org_quota-resumes :
    (org_id : ℕ) (amount : ℤ) (operator_id : ℕ) (remark : String) (now : ℕ) (db : Db) (o : Org)
    → db.orgs org_id ≡ some o
    → InRange o.quota_limit
    → InRange amount
    → InRange (o.quota_limit +ℤ amount)
    → let r = add_org_quota org_id amount operator_id remark now db in
      (r.0 ≡ ok tt)
      × (o' : Org) × (r.1.orgs org_id ≡ some o')
      × (o'.quota_limit ≡ o.quota_limit +ℤ amount)
      × (o.status ≡ 2 → o.quota_used <ℤ o'.quota_limit → o'.status ≡ 1)
      × (o.status ≡ 2 → o'.quota_limit ≤ℤ o.quota_used → o'.status ≡ 2)
      × (o.status ≢ 2 → o'.status ≡ o.status)
unfolding add_org_quota add_org_quota_tx
add_org_quota-resumes org_id amount operator_id remark now db o e a b c =
    let o' : Org =
      resume_from_arrears now
        (record o { quota_limit = o.quota_limit +ℤ amount; updated_at = now }) in
    let pass : add_no_wrap o.quota_limit amount ≡ true =
      add_no_wrap-in_range o.quota_limit amount a b ∙ in_range_lem _ c in
    let fits : in_range (o.quota_limit +ℤ amount) ≡ true = in_range_lem _ c in
    let after =
      resume_cases now (record o { quota_limit = o.quota_limit +ℤ amount; updated_at = now }) in
    (ground arith, o', ground arith, after.0, after.1, after.2, after.3)

update_org-stopped :
    (id : ℕ) (f : Org → Result Org) (db db' : Db) (j : ℕ)
    → ((o o' : Org) → f o ≡ ok o' → o.status ≡ 0 → o'.status ≡ 0)
    → update_org id f db ≡ ok db'
    → status_of (db.orgs j) ≡ some 0
    → status_of (db'.orgs j) ≡ some 0
update_org-stopped id f db db' j same h k = elim (Option-cases (db.orgs id)) [
  | inl e ↦ ground arith
  | inr (o, e) ↦ elim (Result-cases (f o)) [
    | inl (o', r) ↦ ground (arith, same o o' r)
    | inr (x, r) ↦ absurd (ground arith)
  ]
]

update_user-orgs :
    (id : ℕ) (f : User → Result User) (db db' : Db)
    → update_user id f db ≡ ok db'
    → db'.orgs ≡ db.orgs
update_user-orgs id f db db' h = elim (Option-cases (db.users id)) [
  | inl e ↦ ground arith
  | inr (u, e) ↦ elim (Result-cases (f u)) [
    | inl (u', r) ↦ ground arith
    | inr (x, r) ↦ absurd (ground arith)
  ]
]

charge-stopped :
    (now : ℕ) (period : String) (rec : UsageLog) (db db' : Db) (j : ℕ)
    → charge now period rec db ≡ ok db'
    → status_of (db.orgs j) ≡ some 0
    → status_of (db'.orgs j) ≡ some 0
unfolding charge
charge-stopped now period rec db db' j h k =
    let (db1, p, r) =
      >>=-eq-ok (update_user rec.user_id (charge_user now period rec.cost) db) _ h in
    let (db2, q, s) = >>=-eq-ok (update_org rec.org_id (charge_org now period rec.cost) db1) _ r in
    let k1 : status_of (db1.orgs j) ≡ some 0 = rw (update_user-orgs rec.user_id _ db db1 p) k in
    let k2 =
      update_org-stopped rec.org_id _ db1 db2 j
        (λ o o' e z. charge-status now period rec.cost o o' e ∙ z) q k1 in
    update_org-stopped rec.org_id _ db2 db' j (stopped_again now) s k2

settle_tx-stopped :
    (now : ℕ) (period : String) (rec : UsageLog) (db : Db) (a : Unit {0}) (db' : Db) (j : ℕ)
    → settle_tx now period rec db ≡ ok (a, db')
    → status_of (db.orgs j) ≡ some 0
    → status_of (db'.orgs j) ≡ some 0
unfolding settle_tx
settle_tx-stopped now period rec db a db' j h k = elim (Bool-cases (ltb_ℤ (pos 0) rec.cost)) [
  | inl t ↦
      let (db1, p, r) =
        >>=-eq-ok (charge now period rec db) (λ d. ok (tt, insert_log now rec d)) {out = (a, db')}
          (rw t at h) in
      ground (arith, charge-stopped now period rec db db1 j p k)
  | inr t ↦ ground arith
]

settle-stopped :
    (scrub : String → String) (now : ℕ) (period : String) (rec : UsageLog) (db : Db) (id : ℕ)
    → status_of (db.orgs id) ≡ some 0
    → status_of ((settle scrub now period rec db).1.orgs id) ≡ some 0
unfolding settle
settle-stopped scrub now period rec db id h =
    commit_cases (λ d. status_of (d.orgs id) ≡ some 0) db
      (settle_tx now period (scrubbed scrub rec) db) h
      (λ a db' e. settle_tx-stopped now period (scrubbed scrub rec) db a db' id e h)

add_org_quota-stopped :
    (org_id : ℕ) (amount : ℤ) (operator_id : ℕ) (remark : String) (now : ℕ) (db : Db) (id : ℕ)
    → status_of (db.orgs id) ≡ some 0
    → status_of ((add_org_quota org_id amount operator_id remark now db).1.orgs id) ≡ some 0
unfolding add_org_quota add_org_quota_tx resume_from_arrears
add_org_quota-stopped org_id amount operator_id remark now db id h = ground arith

set_org_quota-stopped :
    (org_id : ℕ) (amount : ℤ) (operator_id : ℕ) (remark : String) (now : ℕ) (db : Db) (id : ℕ)
    → status_of (db.orgs id) ≡ some 0
    → status_of ((set_org_quota org_id amount operator_id remark now db).1.orgs id) ≡ some 0
unfolding set_org_quota set_org_quota_tx
set_org_quota-stopped org_id amount operator_id remark now db id h = ground arith

add_user_quota-orgs :
    (org_id user_id : ℕ) (amount : ℤ) (operator_id : ℕ) (remark : String) (now : ℕ) (db : Db)
    (id : ℕ)
    → (add_user_quota org_id user_id amount operator_id remark now db).1.orgs id ≡ db.orgs id
unfolding add_user_quota add_user_quota_tx
add_user_quota-orgs org_id user_id amount operator_id remark now db id = ground arith

switch-orgs :
    (org_id user_id : ℕ) (unlimited : Bool) (operator_id now : ℕ) (db : Db) (id : ℕ)
    → (set_user_quota_unlimited org_id user_id unlimited operator_id now db).1.orgs id ≡ db.orgs id
unfolding set_user_quota_unlimited set_user_quota_unlimited_tx
switch-orgs org_id user_id unlimited operator_id now db id = ground arith

stopped-Step :
    {db db' : Db} (id : ℕ)
    → Step db db'
    → status_of (db.orgs id) ≡ some 0
    → status_of (db'.orgs id) ≡ some 0
stopped-Step id (adds_org db i a o r n) h = add_org_quota-stopped i a o r n db id h
stopped-Step id (sets_org db i a o r n range) h = set_org_quota-stopped i a o r n db id h
stopped-Step id (adds_user db i u a o r n) h = rw (add_user_quota-orgs i u a o r n db id) h
stopped-Step id (switches db i u b o n range) h = rw (switch-orgs i u b o n db id) h
stopped-Step id (settles db s n p r) h = settle-stopped s n p r db id h

-- No history of quota operations enables an organisation that was stopped by hand.
pub stopped_by_hand_stays :
    {db db' : Db} (id : ℕ)
    → Reach db db'
    → status_of (db.orgs id) ≡ some 0
    → status_of (db'.orgs id) ≡ some 0
stopped_by_hand_stays id start h = h
stopped_by_hand_stays id (after r s) h = stopped-Step id s (stopped_by_hand_stays id r h)

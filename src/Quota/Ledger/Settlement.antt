-- ===== src/Quota/Ledger/Settlement.antt =====
-- Switching a user between limited and unlimited, and settling a call, keep the audit invariant.
use general_api.Base.{
  Bool-cases, Option-cases, ℤ, ◌+ℤ◌, ◌-ℤ◌, ltb_ℤ, eqb_ℤ, int_laws, +ℤ_zero, InRange, wrap64,
  wrap64-InRange, eqb_ℤ→eq, pos, ℕ, String, ◌≡◌, ap, ◌∙◌, inl, inr, Bool, true, false, Option, none,
  some, arith,
}
use general_api.Model.{Org, User, Subject, UsageLog}
use general_api.Quota.Store.{
  commit_cases, Result-cases, >>=-eq-ok, Result, ok, Db, put, update_org, update_user,
}
use general_api.Quota.{
  scrubbed, set_user_quota_unlimited_tx, set_user_quota_unlimited, grant, switch, settle, settle_tx,
  stop_in_arrears, charge, charge_org, charge_user, insert_log,
}
use general_api.Quota.Ledger.{IsBalanced, coalesce, keep_org, move_user, keep_user}

-- The limits that a switch records, with its difference exact.
switch_exact :
    (unlimited : Bool) (old : Option ℤ) (used : ℤ) (limit : Option ℤ) (delta : ℤ) (remark : String)
    → InRange (pos 0 -ℤ coalesce old)
    → switch unlimited old used ≡ some (limit, delta, remark)
    → coalesce limit ≡ coalesce old +ℤ delta
switch_exact true none used limit delta remark r h = cc
switch_exact false (some l) used limit delta remark r h = cc
switch_exact false none used limit delta remark r h =
    let e : limit ≡ some used = ground arith in
    let d : delta ≡ used = ground arith in rw (e, d) (omega int_laws)
switch_exact true (some l) used limit delta remark r h =
    let e : limit ≡ none = ground arith in
    let d : delta ≡ wrap64 (pos 0 -ℤ l) = ground arith in
    rw (e, d, wrap64-InRange (pos 0 -ℤ l) r) (omega int_laws)

module _ (org_id user_id : ℕ) (unlimited : Bool) (operator_id now : ℕ) (db : Db) (v : IsBalanced db)
    (range : (u : User)
      → db.users user_id ≡ some u
      → InRange (pos 0 -ℤ coalesce u.quota_limit)) where
  set_user_quota_unlimited_tx-IsBalanced :
      (a : Unit {0}) (db' : Db)
      → set_user_quota_unlimited_tx org_id user_id unlimited operator_id now db ≡ ok (a, db')
      → IsBalanced db'
  unfolding set_user_quota_unlimited_tx
  set_user_quota_unlimited_tx-IsBalanced a db' h = elim (Option-cases (db.users user_id)) [
    | inl e ↦ absurd (ground arith)
    | inr (u, e) ↦ elim (Option-cases (switch unlimited u.quota_limit u.quota_used)) [
      | inl n ↦ let q : db' ≡ db = ground arith in rw q v
      | inr ((limit, delta, remark), s) ↦
          let exact =
            switch_exact unlimited u.quota_limit u.quota_used limit delta remark (range u e) s in
          let u' : User = record u { quota_limit = limit; updated_at = now } in
          let rows : ℕ → Option User = put user_id u' db.users in
          elim (Bool-cases (eqb_ℤ delta (pos 0))) [
            | inl z ↦
                let q : db' ≡ record db { users = rows } = ground arith in
                rw q (
                  keep_user db v user_id u u' e (
                    exact
                    ∙ ap (λ c. coalesce u.quota_limit +ℤ c) (eqb_ℤ→eq delta (pos 0) z)
                    ∙ +ℤ_zero (coalesce u.quota_limit)))
            | inr z ↦
                let q : db'
                    ≡ grant (Subject.user user_id) delta operator_id remark now
                        (record db { users = rows }) =
                  ground arith in
                rw q (move_user db v user_id u u' delta operator_id remark now e exact)
          ]
    ]
  ]

  pub set_user_quota_unlimited-IsBalanced :
      IsBalanced (set_user_quota_unlimited org_id user_id unlimited operator_id now db).1
  unfolding set_user_quota_unlimited
  set_user_quota_unlimited-IsBalanced =
      commit_cases IsBalanced db
        (set_user_quota_unlimited_tx org_id user_id unlimited operator_id now db) v
        set_user_quota_unlimited_tx-IsBalanced

-- An update that leaves the limits alone.
update_org-IsBalanced :
    (id : ℕ) (f : Org → Result Org) (db db' : Db)
    → ((o o' : Org) → f o ≡ ok o' → o'.quota_limit ≡ o.quota_limit)
    → IsBalanced db
    → update_org id f db ≡ ok db'
    → IsBalanced db'
update_org-IsBalanced id f db db' same v h = elim (Option-cases (db.orgs id)) [
  | inl e ↦ let q : db' ≡ db = ground arith in rw q v
  | inr (o, e) ↦ elim (Result-cases (f o)) [
    | inl (o', r) ↦
        let q : db' ≡ record db { orgs = put id o' db.orgs } = ground arith in
        rw q (keep_org db v id o o' e (same o o' r))
    | inr (x, r) ↦ absurd (ground arith)
  ]
]

update_user-IsBalanced :
    (id : ℕ) (f : User → Result User) (db db' : Db)
    → ((u u' : User) → f u ≡ ok u' → u'.quota_limit ≡ u.quota_limit)
    → IsBalanced db
    → update_user id f db ≡ ok db'
    → IsBalanced db'
update_user-IsBalanced id f db db' same v h = elim (Option-cases (db.users id)) [
  | inl e ↦ let q : db' ≡ db = ground arith in rw q v
  | inr (u, e) ↦ elim (Result-cases (f u)) [
    | inl (u', r) ↦
        let q : db' ≡ record db { users = put id u' db.users } = ground arith in
        rw q (keep_user db v id u u' e (ap coalesce (same u u' r)))
    | inr (x, r) ↦ absurd (ground arith)
  ]
]

charge_user-limit :
    (now : ℕ) (period : String) (cost : ℤ) (u u' : User)
    → charge_user now period cost u ≡ ok u'
    → u'.quota_limit ≡ u.quota_limit
unfolding charge_user
charge_user-limit now period cost u u' h = ground arith

charge_org-limit :
    (now : ℕ) (period : String) (cost : ℤ) (o o' : Org)
    → charge_org now period cost o ≡ ok o'
    → o'.quota_limit ≡ o.quota_limit
unfolding charge_org
charge_org-limit now period cost o o' h = ground arith

stop-limit :
    (now : ℕ) (o o' : Org)
    → ◌≡◌ {A = Result Org} (ok (stop_in_arrears now o)) (ok o')
    → o'.quota_limit ≡ o.quota_limit
unfolding stop_in_arrears
stop-limit now o o' h = ground arith

charge-IsBalanced :
    (now : ℕ) (period : String) (rec : UsageLog) (db db' : Db)
    → IsBalanced db
    → charge now period rec db ≡ ok db'
    → IsBalanced db'
unfolding charge
charge-IsBalanced now period rec db db' v h =
    let (db1, p, r) =
      >>=-eq-ok (update_user rec.user_id (charge_user now period rec.cost) db) _ h in
    let (db2, q, s) = >>=-eq-ok (update_org rec.org_id (charge_org now period rec.cost) db1) _ r in
    let v1 =
      update_user-IsBalanced rec.user_id _ db db1 (charge_user-limit now period rec.cost) v p in
    let v2 =
      update_org-IsBalanced rec.org_id _ db1 db2 (charge_org-limit now period rec.cost) v1 q in
    update_org-IsBalanced rec.org_id _ db2 db' (stop-limit now) v2 s

insert_log-IsBalanced :
    (now : ℕ) (rec : UsageLog) (db : Db) → IsBalanced db → IsBalanced (insert_log now rec db)
insert_log-IsBalanced now rec db v = record { orgs = v.orgs; users = v.users }

settle_tx-IsBalanced :
    (now : ℕ) (period : String) (rec : UsageLog) (db : Db) (a : Unit {0}) (db' : Db)
    → IsBalanced db
    → settle_tx now period rec db ≡ ok (a, db')
    → IsBalanced db'
unfolding settle_tx
settle_tx-IsBalanced now period rec db a db' v h = elim (Bool-cases (ltb_ℤ (pos 0) rec.cost)) [
  | inl t ↦
      let (db1, p, r) =
        >>=-eq-ok (charge now period rec db) (λ d. ok (tt, insert_log now rec d)) {out = (a, db')}
          (rw t at h) in
      let q : db' ≡ insert_log now rec db1 = ground arith in
      rw q (insert_log-IsBalanced now rec db1 (charge-IsBalanced now period rec db db1 v p))
  | inr t ↦
      let q : db' ≡ insert_log now rec db = ground arith in
      rw q (insert_log-IsBalanced now rec db v)
]

pub settle-IsBalanced :
    (scrub : String → String) (now : ℕ) (period : String) (rec : UsageLog) (db : Db)
    → IsBalanced db
    → IsBalanced (settle scrub now period rec db).1
unfolding settle
settle-IsBalanced scrub now period rec db v =
    commit_cases IsBalanced db (settle_tx now period (scrubbed scrub rec) db) v
      (λ a db' h. settle_tx-IsBalanced now period (scrubbed scrub rec) db a db' v h)

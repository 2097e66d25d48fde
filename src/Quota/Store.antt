-- ===== src/Quota/Store.antt =====
-- The tables that internal/service/quota.go reads and writes, its errors, and gorm's transaction.
-- A statement whose 64-bit sum leaves the range fails, as PostgreSQL's does.
use general_api.Base.{
  ◌==◌, if◌then◌else◌, ℤ, ◌+ℤ◌, in_range, ℕ, ◌≡◌, refl, ◌⊎◌, inl, inr, Bool, true, false, Option,
  none, some, List,
}
use general_api.Model.{Org, User, QuotaGrant, UsageLog}

pub data Error : Type 0 where
  not_found user_quota org_quota user_monthly org_monthly : Error
  quota_overflow quota_unlimited db_error : Error

pub data Result {ℓ} (Val : Type ℓ) : Type ℓ where
  err : Error → Result Val
  ok : Val → Result Val

-- The error returns of a Go function, chained.
infixl 5 ◌>>=◌ ◌>>◌
abbrev pub ◌>>=◌ {ℓ κ} :
    {Val : Type ℓ} {Out : Type κ} → Result Val → (Val → Result Out) → Result Out
err problem >>= next = err problem
ok val >>= next = next val

abbrev pub ◌>>◌ {ℓ} : {Out : Type ℓ} → Result (Unit {0}) → Result Out → Result Out
check >> rest = check >>= λ done. rest

-- `if !cond { return problem }`
abbrev pub guard : Bool → Error → Result (Unit {0})
guard false problem = err problem
guard true problem = ok tt

abbrev pub or_fail {ℓ} : {A : Type ℓ} → Option A → Error → Result A
or_fail none e = err e
or_fail (some a) e = ok a

pub record Db : Type 0 where
  pub orgs : ℕ → Option Org
  pub users : ℕ → Option User
  pub grants : List QuotaGrant
  pub logs : List UsageLog

abbrev pub put {ℓ} : {V : Type ℓ} → ℕ → V → (ℕ → Option V) → ℕ → Option V
put id v m j = if j == id then some v else m j

-- a + b in SQL, on two bigint.
abbrev pub sql_add : ℤ → ℤ → Result ℤ
sql_add a b = if in_range (a +ℤ b) then ok (a +ℤ b) else err db_error

-- UPDATE … WHERE id = ?: a missing row is no error.
abbrev pub update_org : ℕ → (Org → Result Org) → Db → Result Db
update_org id f db = elim (db.orgs id) [
  | none ↦ ok db
  | some o ↦ f o >>= λ o'. ok (record db { orgs = put id o' db.orgs })
]

abbrev pub update_user : ℕ → (User → Result User) → Db → Result Db
update_user id f db = elim (db.users id) [
  | none ↦ ok db
  | some u ↦ f u >>= λ u'. ok (record db { users = put id u' db.users })
]

-- db.Transaction: an error rolls everything back.
abbrev pub commit {ℓ} : {A : Type ℓ} → Db → Result (A × Db) → Result A × Db
commit db (ok (a, db')) = (ok a, db')
commit db (err e) = (err e, db)

abbrev pub transaction {ℓ} : {A : Type ℓ} → (Db → Result (A × Db)) → Db → Result A × Db
transaction body db = commit db (body db)

pub Result-cases {ℓ} :
    {A : Type ℓ} (r : Result A) → ((a : A) × (r ≡ ok a)) ⊎ ((e : Error) × (r ≡ err e))
Result-cases (ok a) = inl (a, refl)
Result-cases (err e) = inr (e, refl)

-- What a successful chain went through.
pub >>=-eq-ok {ℓ κ} :
    {Val : Type ℓ} {Out : Type κ} (r : Result Val) (next : Val → Result Out) {out : Out}
    → (r >>= next) ≡ ok out
    → (val : Val) × (r ≡ ok val) × (next val ≡ ok out)
>>=-eq-ok (err problem) next h = cc
>>=-eq-ok (ok val) next h = (val, refl, h)

-- A property that a transaction's commit keeps, and its rollback has.
pub commit_cases {ℓ κ} :
    {A : Type κ} (P : Db → Type ℓ) (db : Db) (r : Result (A × Db))
    → P db
    → ((a : A) (db' : Db) → r ≡ ok (a, db') → P db')
    → P (commit db r).1
commit_cases P db (ok (a, db')) h k = k a db' refl
commit_cases P db (err e) h k = h

-- ===== src/Quota/Ledger.antt =====
-- The audit invariant of internal/service/quota.go: the grants of a subject sum to its limit.
pub mod Operations
pub mod Settlement
pub mod Histories
use general_api.Base.{
  ◌==◌, if◌then◌else◌, Bool-cases, ℤ, ◌+ℤ◌, +ℤ_comm, pos, ℕ, String, ◌≡◌, ◌≢◌, ◌⊎◌, inl, inr, Bool,
  false, Option, none, some, List, [], ◌∷◌, arith,
}
use general_api.Model.{Org, User, QuotaGrant, Subject}
use general_api.Quota.Store.{Db, put}
use general_api.Quota.{grant}

abbrev pub same_subject : Subject → Subject → Bool
same_subject (Subject.org a) (Subject.org b) = a == b
same_subject (Subject.user a) (Subject.user b) = a == b
same_subject _ _ = false

-- The exact sum of a subject's grants.
unfoldable pub grant_sum : Subject → List QuotaGrant → ℤ
grant_sum s [] = pos 0
grant_sum s (g ∷ gs) =
    if same_subject g.subject s then g.amount +ℤ grant_sum s gs else grant_sum s gs

-- COALESCE(quota_limit, 0)
abbrev pub coalesce : Option ℤ → ℤ
coalesce none = pos 0
coalesce (some n) = n

pub record IsBalanced (db : Db) : Type 0 where
  pub orgs :
      (id : ℕ) (o : Org)
      → db.orgs id ≡ some o
      → grant_sum (Subject.org id) db.grants ≡ o.quota_limit
  pub users :
      (id : ℕ) (u : User)
      → db.users id ≡ some u
      → grant_sum (Subject.user id) db.grants ≡ coalesce u.quota_limit

put-some {ℓ} :
    {V : Type ℓ} (id : ℕ) (v : V) (m : ℕ → Option V) (j : ℕ) (w : V)
    → put id v m j ≡ some w
    → ((j ≡ id) × (v ≡ w)) ⊎ ((j ≢ id) × (m j ≡ some w))
put-some id v m j w h = elim (Bool-cases (j == id)) [
  | inl e ↦ inl (ground arith, ground arith)
  | inr e ↦ inr (ground arith, ground arith)
]

module _ (db : Db) (v : IsBalanced db) (id : ℕ) where
  -- A row that changes with its grant.
  move_org :
      (o o' : Org) (amount : ℤ) (operator_id : ℕ) (remark : String) (now : ℕ)
      → db.orgs id ≡ some o
      → o'.quota_limit ≡ o.quota_limit +ℤ amount
      → IsBalanced (
          grant
            (Subject.org id)
            amount
            operator_id
            remark
            now
            (record db { orgs = put id o' db.orgs }))
  unfolding grant_sum
  move_org o o' amount operator_id remark now h e = record {
    orgs = λ j w p. elim (put-some id o' db.orgs j w p) [
      | inl (a, b) ↦ ground (arith, v.orgs id o h, +ℤ_comm amount o.quota_limit)
      | inr (a, b) ↦ ground (arith, v.orgs j w b)
    ];
    users = λ j w p. ground (arith, v.users j w p);
  }

  -- A row whose limit stays.
  keep_org :
      (o o' : Org)
      → db.orgs id ≡ some o
      → o'.quota_limit ≡ o.quota_limit
      → IsBalanced (record db { orgs = put id o' db.orgs })
  keep_org o o' h e = record {
    orgs = λ j w p. elim (put-some id o' db.orgs j w p) [
      | inl (a, b) ↦ ground (arith, v.orgs id o h)
      | inr (a, b) ↦ v.orgs j w b
    ];
    users = v.users;
  }

  move_user :
      (u u' : User) (amount : ℤ) (operator_id : ℕ) (remark : String) (now : ℕ)
      → db.users id ≡ some u
      → coalesce u'.quota_limit ≡ coalesce u.quota_limit +ℤ amount
      → IsBalanced (
          grant
            (Subject.user id)
            amount
            operator_id
            remark
            now
            (record db { users = put id u' db.users }))
  unfolding grant_sum
  move_user u u' amount operator_id remark now h e = record {
    orgs = λ j w p. ground (arith, v.orgs j w p);
    users = λ j w p. elim (put-some id u' db.users j w p) [
      | inl (a, b) ↦ ground (arith, v.users id u h, +ℤ_comm amount (coalesce u.quota_limit))
      | inr (a, b) ↦ ground (arith, v.users j w b)
    ];
  }

  keep_user :
      (u u' : User)
      → db.users id ≡ some u
      → coalesce u'.quota_limit ≡ coalesce u.quota_limit
      → IsBalanced (record db { users = put id u' db.users })
  keep_user u u' h e = record {
    orgs = v.orgs;
    users = λ j w p. elim (put-some id u' db.users j w p) [
      | inl (a, b) ↦ ground (arith, v.users id u h)
      | inr (a, b) ↦ v.users j w b
    ];
  }

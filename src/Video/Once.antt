-- ===== src/Video/Once.antt =====
-- A video task is billed once.
use general_api.Base.{
  ◌==◌, ==_iff, Bool-cases, if_intro, All, ℤ, InRange, pos, ℕ, String, ◌≡◌, refl, sym, ap, subst,
  ◌∙◌, ◌⊎◌, inl, inr, Bool, true, false, ◌&&◌, not, Option, none, some, List, [], ◌∷◌, arith,
  str_eq, eq_iff,
}
use general_api.Model.{UsageLog, VideoTask}
use general_api.Cost.{clamp_tokens, calc_cost_cached}
use general_api.Cost.Exact.{calc_cost_cached_exact}
use general_api.Cost.Usage.{Usage}
use general_api.Quota.Store.{Db, Result, ok, err}
use general_api.Quota.{settle_tx}
use general_api.Video.{
  settle_video_task, observe_all, observe_video_task, observe_success, VideoDb, put_task, unpriced,
  video_record, billed_row, settled_with, claim_task, Upstream, set_status, Observation,
}

-- An observation that bills: it finds the task done, with a usage, and the settlement succeeds.
pub record Bills (o : Observation) (db db' : Db) : Type 0 where
  up : Upstream
  is_up : o.upstream ≡ some up
  done : str_eq up.status "succeeded" ≡ true
  used : Usage
  is_used : up.usage ≡ some used
  rec : UsageLog
  is_rec : video_record o.task (clamp_tokens used.completion_tokens) ≡ some rec
  settles : settle_tx o.now o.period rec db ≡ ok (tt, db')

abbrev pub Among : Observation → List Observation → Type 0
Among o [] = ⊥
Among o (x ∷ xs) = (o ≡ x) ⊎ Among o xs

-- An observation of one task, whose prices are int64.
pub record Concerns (id : String) (o : Observation) : Type 0 where
  pub same_task : o.task.task_id ≡ id
  pub price : InRange o.task.output_price
  pub vendor_price : InRange o.task.cost_output_price

priced_at :
    (task : VideoTask) (tokens cost vendor_cost : ℤ)
    → calc_cost_cached (pos 0) (pos 0) tokens (pos 0) (pos 0) task.output_price ≡ some cost
    → calc_cost_cached (pos 0) (pos 0) tokens (pos 0) (pos 0) task.cost_output_price
      ≡ some vendor_cost
    → (rec : UsageLog) × (video_record task tokens ≡ some rec)
unfolding video_record
priced_at task tokens cost vendor_cost e f = elim (Bool-cases (task.org_id == 0)) [
  | inl z ↦ (unpriced task tokens, rw z)
  | inr z ↦ (record (unpriced task tokens) { cost = cost; vendor_cost = vendor_cost }, rw (z, e, f))
]

priced :
    (task : VideoTask) (tokens : ℤ)
    → InRange task.output_price
    → InRange task.cost_output_price
    → (rec : UsageLog) × (video_record task tokens ≡ some rec)
priced task tokens a b =
    let z : InRange (pos 0) = omega arith in
    priced_at task tokens _ _
      (calc_cost_cached_exact (pos 0) (pos 0) tokens (pos 0) (pos 0) task.output_price z z a)
      (calc_cost_cached_exact (pos 0) (pos 0) tokens (pos 0) (pos 0) task.cost_output_price z z b)

-- What one observation does to the row of its task.
data Effect (o : Observation) (row : VideoTask) (db : Db) (id : String) : VideoDb → Type 0 where
  keeps :
      (v : VideoDb) (row' : VideoTask)
      → v.db ≡ db
      → v.tasks id ≡ some row'
      → row'.billed ≡ row.billed
      → (row.billed ≡ 0 → (db' : Db) → ¬ Bills o db db')
      → Effect o row db id v
  bills :
      (v : VideoDb) (row' : VideoTask)
      → row.billed ≡ 0
      → v.tasks id ≡ some row'
      → row'.billed ≡ 1
      → Bills o db v.db
      → Effect o row db id v

status_kept :
    (o : Observation) (row : VideoTask) (id : String) (now : ℕ) (status : String) (unbilled : Bool)
    (v : VideoDb)
    → v.tasks id ≡ some row
    → ((db' : Db) → ¬ Bills o v.db db')
    → Effect o row v.db id (set_status now status unbilled id v)
unfolding set_status
status_kept o row id now status unbilled v e n =
    rw (e, set_status)
      (if_intro (Effect o row v.db id) (unbilled && not (row.billed == 0)) _ _
        (λ b. keeps v row refl e refl (λ z. n))
        (λ b.
          keeps _ (record row { status = status; updated_at = now }) refl
            (ground (arith, eq_iff id id)) refl (λ z. n)))

abbrev Step :
    Observation → VideoTask → VideoDb → String → Option (Result (Unit {0}) × VideoDb) → Type 0
Step o row v id r =
    (res : Result (Unit {0}) × VideoDb) × (r ≡ some res) × Effect o row v.db id res.1

settled_step :
    (o : Observation) (row : VideoTask) (id status : String) (tokens : ℤ) (v : VideoDb)
    (r : Result (Unit {0} × Db))
    → row.billed ≡ 0
    → v.tasks id ≡ some row
    → ((db' : Db) → r ≡ ok (tt, db') → Bills o v.db db')
    → ((db' : Db) → Bills o v.db db' → r ≡ ok (tt, db'))
    → Effect o row v.db id (settled_with id (billed_row o.now status tokens row) v r).1
unfolding settled_with
settled_step o row id status tokens v (err e) z h k n =
    keeps v row refl h refl (λ b db' x. absurd (ground (arith, n db' x)))
settled_step o row id status tokens v (ok (tt, db')) z h k n =
    bills (record { tasks = put_task id (billed_row o.now status tokens row) v.tasks; db = db' })
      (billed_row o.now status tokens row) z (ground (arith, eq_iff id id)) refl (k db' refl)

claim_step :
    (o : Observation) (row : VideoTask) (id : String) (tokens : ℤ) (rec : UsageLog) (v : VideoDb)
    → v.tasks id ≡ some row
    → ((db' : Db) → settle_tx o.now o.period rec v.db ≡ ok (tt, db') → Bills o v.db db')
    → ((db' : Db) → Bills o v.db db' → settle_tx o.now o.period rec v.db ≡ ok (tt, db'))
    → Effect o row v.db id (claim_task id o.now o.period "succeeded" tokens rec v (some row)).1
unfolding claim_task
claim_step o row id tokens rec v h k n = elim (Bool-cases (row.billed == 0)) [
  | inl z ↦ rw z (
      settled_step o row id "succeeded" tokens v (settle_tx o.now o.period rec v.db)
        ((==_iff row.billed 0).0 z) h k n)
  | inr z ↦ rw z (keeps v row refl h refl (λ b. absurd (ground arith)))
]

not_done :
    (o : Observation) (up : Upstream) (db db' : Db)
    → o.upstream ≡ some up
    → str_eq up.status "succeeded" ≡ false
    → ¬ Bills o db db'
not_done o up db db' e f b =
    let s : up ≡ b.up = ground (arith, b.is_up) in
    ground (arith, ap (λ (u : Upstream). str_eq u.status "succeeded") s, b.done)

settle_claims :
    (now : ℕ) (period : String) (task : VideoTask) (status : String) (tokens : ℤ) (v : VideoDb)
    (rec : UsageLog)
    → video_record task (clamp_tokens tokens) ≡ some rec
    → settle_video_task now period task status tokens v
      ≡ some (
          claim_task task.task_id now period status
            (clamp_tokens tokens)
            rec
            v
            (v.tasks task.task_id))
unfolding settle_video_task
settle_claims now period task status tokens v rec e =
    ap
      (λ (r : Option UsageLog). elim r as (λ x. Option (Result (Unit {0}) × VideoDb)) [
        | none ↦ none
        | some p ↦ some (
            claim_task task.task_id now period status (clamp_tokens tokens) p v
              (v.tasks task.task_id))
      ])
      e

observe_success-Step :
    (o : Observation) (row : VideoTask) (v : VideoDb) (up : Upstream) (usage : Option Usage)
    → o.upstream ≡ some up
    → str_eq up.status "succeeded" ≡ true
    → up.usage ≡ usage
    → InRange o.task.output_price
    → InRange o.task.cost_output_price
    → v.tasks o.task.task_id ≡ some row
    → Step o row v o.task.task_id (observe_success o.now o.period o.task usage v)
unfolding observe_success
observe_success-Step o row v up none e d u a b h = (
  _,
  refl,
  status_kept o row o.task.task_id o.now "succeeded" false v h (λ db' x.
      let s : up ≡ x.up = ground (arith, x.is_up) in
      ground (arith, x.is_used, ap (λ (y : Upstream). y.usage) s)),
)
observe_success-Step o row v up (some w) e d u a b h =
    let (rec, p) = priced o.task (clamp_tokens w.completion_tokens) a b in
    (
      claim_task o.task.task_id o.now o.period "succeeded" (clamp_tokens w.completion_tokens) rec v
          (some row),
      settle_claims o.now o.period o.task "succeeded" w.completion_tokens v rec p
          ∙ ap
              (λ r. some (
                claim_task o.task.task_id o.now o.period "succeeded"
                  (clamp_tokens w.completion_tokens) rec v r))
              h,
      claim_step o row o.task.task_id (clamp_tokens w.completion_tokens) rec v h
          (λ db' s. record {
            up = up;
            is_up = e;
            done = d;
            used = w;
            is_used = u;
            rec = rec;
            is_rec = p;
            settles = s;
          })
          (λ db' x.
            let s : up ≡ x.up = ground (arith, x.is_up) in
            let t : w ≡ x.used = ground (arith, x.is_used, ap (λ (y : Upstream). y.usage) s) in
            let q : rec ≡ x.rec = ground (
              arith,
              x.is_rec,
              p,
              ap (λ (y : Usage). video_record o.task (clamp_tokens y.completion_tokens)) t,
            ) in
            subst (λ r. settle_tx o.now o.period r v.db ≡ ok (tt, db')) (sym q) x.settles),
    )

observe_video_task-Step :
    (o : Observation) (row : VideoTask) (v : VideoDb) (upstream : Option Upstream)
    → o.upstream ≡ upstream
    → InRange o.task.output_price
    → InRange o.task.cost_output_price
    → v.tasks o.task.task_id ≡ some row
    → Step o row v o.task.task_id (observe_video_task o.now o.period o.task upstream v)
unfolding observe_video_task
observe_video_task-Step o row v none e a b h =
    (_, refl, keeps v row refl h refl (λ z db' x. absurd (ground (arith, x.is_up))))
observe_video_task-Step o row v (some up) e a b h =
    if_intro (Step o row v o.task.task_id) (str_eq up.status "succeeded") _ _
      (λ d. observe_success-Step o row v up up.usage e d refl a b h)
      (λ d.
        if_intro (Step o row v o.task.task_id) (str_eq up.status "failed") _ _
          (λ f. (
            _,
            refl,
            status_kept o row o.task.task_id o.now "failed" true v h
                (λ db'. not_done o up v.db db' e d),
          ))
          (λ f. (
            _,
            refl,
            status_kept o row o.task.task_id o.now up.status false v h
                (λ db'. not_done o up v.db db' e d),
          )))

observation-Step :
    (o : Observation) (id : String) (row : VideoTask) (v : VideoDb)
    → Concerns id o
    → v.tasks id ≡ some row
    → Step o row v id (observe_video_task o.now o.period o.task o.upstream v)
observation-Step o id row v c =
    subst
      (λ i.
        v.tasks i ≡ some row
        → Step o row v i (observe_video_task o.now o.period o.task o.upstream v))
      c.same_task (observe_video_task-Step o row v o.upstream refl c.price c.vendor_price)

-- The accounts after a history of a task: untouched, or charged by one observation of it.
pub data Billing (os : List Observation) (row : VideoTask) (db : Db) (row' : VideoTask) (db' : Db)
    : Type 0 where
  unbilled :
      db' ≡ db
      → row'.billed ≡ row.billed
      → (row.billed ≡ 0 → All (λ o. (d : Db) → ¬ Bills o db d) os)
      → Billing os row db row' db'
  billed_by :
      (o : Observation)
      → Among o os
      → row.billed ≡ 0
      → row'.billed ≡ 1
      → Bills o db db'
      → Billing os row db row' db'

abbrev pub Ends : List Observation → String → VideoTask → Db → Option VideoDb → Type 0
Ends os id row db r =
    (v' : VideoDb) × (row' : VideoTask) × (r ≡ some v')
    × (v'.tasks id ≡ some row')
    × Billing os row db row' v'.db

join :
    (o : Observation) (os : List Observation) (row row1 row' : VideoTask) (db db1 db' : Db)
    → db1 ≡ db
    → row1.billed ≡ row.billed
    → (row.billed ≡ 0 → (d : Db) → ¬ Bills o db d)
    → Billing os row1 db1 row' db'
    → Billing (o ∷ os) row db row' db'
join o os row row1 row' db db1 db' e b n (unbilled x y z) =
    unbilled (x ∙ e) (y ∙ b)
      (λ w. (n w, subst (λ d. All (λ p. (d' : Db) → ¬ Bills p d d') os) e (z (b ∙ w))))
join o os row row1 row' db db1 db' e b n (billed_by p m z y x) =
    billed_by p (inr m) (sym b ∙ z) y (subst (λ d. Bills p d db') e x)

already :
    (o : Observation) (os : List Observation) (row row1 row' : VideoTask) (db db1 db' : Db)
    → row.billed ≡ 0
    → row1.billed ≡ 1
    → Bills o db db1
    → Billing os row1 db1 row' db'
    → Billing (o ∷ os) row db row' db'
already o os row row1 row' db db1 db' z b x (unbilled e y w) =
    billed_by o (inl refl) z (y ∙ b) (subst (λ d. Bills o db d) (sym e) x)
already o os row row1 row' db db1 db' z b x (billed_by p m y w q) = absurd (ground arith)

after :
    (o : Observation) (os : List Observation) (row : VideoTask) (db : Db) (id : String)
    (v1 : VideoDb)
    → Effect o row db id v1
    → ((row1 : VideoTask) → v1.tasks id ≡ some row1 → Ends os id row1 v1.db (observe_all os v1))
    → Ends (o ∷ os) id row db (observe_all os v1)
after o os row db id _ (keeps v row1 e t b n) ih =
    let (v', row', r, t', bl) = ih row1 t in
    (v', row', r, t', join o os row row1 row' db v.db v'.db e b n bl)
after o os row db id _ (bills v row1 z t b x) ih =
    let (v', row', r, t', bl) = ih row1 t in
    (v', row', r, t', already o os row row1 row' db v.db v'.db z b x bl)

-- Whatever observations of a registered task are made, in any order, by queries and sweeps, with
-- whatever rows they read and int64 prices: none panics, and the accounts change by one settlement,
-- that of an observation that found the task done while it was not billed, which marks it as
-- billed; or not at all, and then none of them could have settled it.
pub observe_all-once :
    (id : String) (os : List Observation) (row : VideoTask) (v : VideoDb)
    → All (Concerns id) os
    → v.tasks id ≡ some row
    → Ends os id row v.db (observe_all os v)
unfolding observe_all
observe_all-once id [] row v c h = (v, row, refl, h, unbilled refl refl (λ z. tt))
observe_all-once id (o ∷ os) row v c h =
    let s = observation-Step o id row v c.0 h in
    subst (λ r. Ends (o ∷ os) id row v.db (elim r [ none ↦ none | some w ↦ observe_all os w.1 ]))
      (sym s.1)
      (after o os row v.db id s.0.1 s.2 (λ row1 t. observe_all-once id os row1 s.0.1 c.1 t))

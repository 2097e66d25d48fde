-- ===== src/Alerts.antt =====
-- internal/service/alerts.go: the two alert states of an account, and the throttle of their checks.
-- The JSON of the levels, sorting and the clock are arguments; mails are data.
pub mod Levels
pub mod Checks
pub mod Recheck
use general_api.Base.{
  ltb, leb, ◌==◌, if◌then◌else◌, ltb→lt, lt→ltb, leb→le, ==_iff, Bool-cases, Option-cases, if_intro,
  length, length-append, All, All-append, ℤ, pos_part, neg_part, sub_ℕ, ◌+ℤ◌, ◌-ℤ◌, ◌≤ℤ◌, ◌<ℤ◌,
  ltb_ℤ, leb_ℤ, eqb_ℤ, +ℤ_parts, -ℤ_parts, eq_of_parts, int_laws, +ℤ_comm, +ℤ_assoc, +ℤ_zero,
  InRange, in_range, bits64, signed64, wrap64, wrap64-InRange, eqb_ℤ→eq, pos, negsuc, ℕ, zero, suc,
  ◌+◌, ◌-◌, ◌*◌, ◌/◌, ◌%◌, ◌^◌, ◌≤◌, ◌<◌, min, max, String, ◌≡◌, refl, sym, ap, subst, ◌∙◌, ◌≢◌,
  ◌↔◌, ◌⊎◌, inl, inr, Bool, true, false, ◌&&◌, ◌||◌, not, Option, none, some, List, [], ◌∷◌, ◌++◌,
  map, filter, append_assoc, append-nil, arith, str_eq, eq_iff, dec_lt, dec_le, ℕ_discrete,
}
use general_api.Cost.{mul64}

-- a * sa >= b * sb of the 128-bit products.
pub mul_ge128 : ℤ → ℤ → ℤ → ℤ → Bool
mul_ge128 a sa b sb =
    let (hi1, lo1) = mul64 (bits64 a) (bits64 sa) in
    let (hi2, lo2) = mul64 (bits64 b) (bits64 sb) in
    if not (hi1 == hi2) then ltb hi2 hi1 else leb lo2 lo1

pub bracket_from : ℤ → ℤ → ℕ → ℕ → List ℤ → ℕ
unfolding mul_ge128
bracket_from used limit i lv [] = lv
bracket_from used limit i lv (t ∷ levels) =
    bracket_from used limit (i + 1) (if mul_ge128 used (pos 100) limit t then i + 1 else lv) levels

-- `bracket`: the highest level reached, from 1; 0 is none.
unfoldable pub bracket : ℤ → ℤ → List ℤ → ℕ
unfolding bracket_from
bracket used limit levels = bracket_from used limit 0 0 levels

-- Repeated and non-positive levels are dropped from the sorted list. `last` is the one before.
pub keep_levels : Option ℤ → List ℤ → List ℤ
keep_levels last [] = []
keep_levels last (v ∷ levels) =
    let rest = keep_levels (some v) levels in
    if ltb_ℤ (pos 0) v && not (elim last [ none ↦ false | some w ↦ eqb_ℤ v w ])
    then v ∷ rest
    else rest

unfoldable pub parse_levels : (String → Option (List ℤ)) → (List ℤ → List ℤ) → String → List ℤ
unfolding keep_levels
parse_levels json sort raw = elim (json raw) [
  | none ↦ []
  | some levels ↦ keep_levels none (sort levels)
]

pub data Mail : Type 0 where
  percent_mail balance_mail : ℤ → Mail

-- The columns of orgs or users; the limit of an organisation is always there.
pub record AlertRow : Type 0 where
  pub quota_limit : Option ℤ
  pub quota_used : ℤ
  pub levels : List ℤ  -- `parseLevels` of alert_levels
  pub alert_level : ℕ
  pub alert_since : ℕ
  pub alert_balance : ℤ
  pub alert_balance_hit : ℕ

abbrev pub level_at : ℕ → List ℤ → ℤ
level_at n [] = pos 0
level_at zero (t ∷ levels) = t
level_at (suc n) (t ∷ levels) = level_at n levels

-- The level, from what the check has read of it; the conditions of an UPDATE see the row of now.
pub check_level : ℕ → ℕ → ℕ → List ℤ → AlertRow → AlertRow × List Mail
check_level now seen new levels row =
    if ltb seen new
    then (if ltb row.alert_level new
        then (
          record row { alert_level = new; alert_since = now },
          percent_mail (level_at (new - 1) levels) ∷ [],
        )
        else (row, []))
    else if ltb new seen
    then (record row { alert_level = new; alert_since = now }, [])
    else (row, [])

pub check_balance : ℕ → ℤ → ℤ → ℤ → AlertRow → AlertRow × List Mail
check_balance now limit used balance row =
    if not (ltb_ℤ (pos 0) balance)
    then (row, [])
    else if ltb_ℤ (wrap64 (limit -ℤ used)) balance
    then (if row.alert_balance_hit == 0
        then (record row { alert_balance_hit = now }, balance_mail balance ∷ [])
        else (row, []))
    else (if ltb 0 row.alert_balance_hit then record row { alert_balance_hit = 0 } else row, [])

abbrev pub is_empty : List ℤ → Bool
is_empty [] = true
is_empty (t ∷ levels) = false

pub check_limit : ℕ → ℤ → AlertRow → AlertRow → AlertRow × List Mail
unfolding check_level check_balance bracket
check_limit now limit seen row =
    if leb_ℤ limit (pos 0)
    then (row, [])
    else if is_empty seen.levels && not (ltb_ℤ (pos 0) seen.alert_balance)
    then (row, [])
    else (let l =
          check_level now seen.alert_level (bracket seen.quota_used limit seen.levels) seen.levels
            row in
        let b = check_balance now limit seen.quota_used seen.alert_balance l.0 in (b.0, l.1 ++ b.1))

-- `checkAlert` after the throttle: `seen` is the row as it was read, `row` the row of now.
unfoldable pub check_alert : ℕ → AlertRow → AlertRow → AlertRow × List Mail
unfolding check_limit
check_alert now seen row = elim seen.quota_limit [
  | none ↦ (row, [])
  | some limit ↦ check_limit now limit seen row
]

-- `RecomputeAlertLevel`: the silent change after a change of the thresholds.
unfoldable pub recompute_alert_level : ℕ → AlertRow → AlertRow
unfolding bracket
recompute_alert_level now row =
    let limit = elim row.quota_limit as (λ x. ℤ) [ none ↦ pos 0 | some l ↦ l ] in
    record row {
      alert_level =
          (if not (is_empty row.levels) && ltb_ℤ (pos 0) limit
            then bracket row.quota_used limit row.levels
            else 0);
      alert_since = now;
      alert_balance_hit =
          (if ltb_ℤ (pos 0) row.alert_balance
              && ltb_ℤ (pos 0) limit
              && ltb_ℤ (wrap64 (limit -ℤ row.quota_used)) row.alert_balance
            then now
            else 0);
    }

-- alertThrottleSeconds, in nanoseconds.
abbrev pub alert_throttle : ℕ
alert_throttle = 60000000000

-- The entries of an account in alertLastCheck and alertRecheckPending, the latter with the time of
-- its timer.
pub record Throttle : Type 0 where
  pub last : Option ℕ
  pub pending : Option ℕ

abbrev pub new_throttle : Throttle
new_throttle = record { last = none; pending = none }

-- `throttleWindow`: the end of the window, where the check is throttled.
pub throttle_window : ℕ → Throttle → Throttle × Option ℕ
throttle_window now g =
    let pass : Throttle × Option ℕ = (record g { last = some now }, none) in
    elim g.last [
      | none ↦ pass
      | some t ↦ if ltb now (t + alert_throttle) then (g, some (t + alert_throttle)) else pass
    ]

-- `scheduleAlertRecheck`: one timer at most.
pub schedule_alert_recheck : ℕ → Throttle → Throttle
schedule_alert_recheck due g = elim g.pending [
  | none ↦ record g { pending = some due }
  | some d ↦ g
]

-- The head of `checkAlert`; true where the check goes on.
unfoldable pub try_check : ℕ → Throttle → Throttle × Bool
unfolding throttle_window schedule_alert_recheck
try_check now g =
    let w = throttle_window now g in
    elim w.1 [ none ↦ (w.0, true) | some due ↦ (schedule_alert_recheck due w.0, false) ]

-- The end of a settlement, and the timer.
pub data ThrottleEvent : Type 0 where
  settled_at fired_at : ℕ → ThrottleEvent

pub throttle_step : ThrottleEvent → Throttle → Throttle × Bool
unfolding try_check
throttle_step (settled_at now) g = try_check now g
throttle_step (fired_at now) g = try_check now (record g { pending = none })

-- Events in their order; true where one of them led to a check.
unfoldable pub throttle_run : List ThrottleEvent → Throttle → Throttle × Bool
unfolding throttle_step
throttle_run [] g = (g, false)
throttle_run (e ∷ events) g =
    let s = throttle_step e g in let rest = throttle_run events s.0 in (rest.0, s.1 || rest.1)

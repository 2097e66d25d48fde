-- ===== src/Alerts/Checks.antt =====
-- A check of an account's alerts, and the same check made twice.
use general_api.Base.{
  ltb, ◌==◌, if◌then◌else◌, ℤ, ◌-ℤ◌, ltb_ℤ, leb_ℤ, int_laws, wrap64, wrap64-InRange, pos, ℕ, ◌-◌,
  ◌^◌, ◌<◌, ◌≡◌, refl, ◌∙◌, Bool, false, ◌&&◌, not, some, List, [], ◌∷◌, ◌++◌, arith,
}
use general_api.Alerts.{
  percent_mail, balance_mail, AlertRow, level_at, check_level, check_balance, check_limit,
  check_alert, is_empty,
}
use general_api.Alerts.Levels.{reached, Rising, bracket-reached}

-- What is left is below the threshold of the account.
abbrev pub is_low : ℕ → ℕ → ℤ → Bool
is_low l u balance = ltb_ℤ (pos 0) balance && ltb_ℤ (pos l -ℤ pos u) balance

level_checked :
    (now seen n : ℕ) (levels : List ℤ) (row : AlertRow)
    → row.alert_level ≡ seen
    → let r = check_level now seen n levels row in
      (r.0.alert_level ≡ n)
      × (r.0.alert_balance_hit ≡ row.alert_balance_hit)
      × (r.1 ≡ (if ltb seen n then percent_mail (level_at (n - 1) levels) ∷ [] else []))
unfolding check_level
level_checked now seen n levels row e = ground arith

level_again :
    (now seen n : ℕ) (levels : List ℤ) (row : AlertRow)
    → row.alert_level ≡ n
    → (check_level now seen n levels row).1 ≡ []
unfolding check_level
level_again now seen n levels row e = ground arith

left_fits : (l u : ℕ) → l < 2 ^ 63 → u < 2 ^ 63 → wrap64 (pos l -ℤ pos u) ≡ pos l -ℤ pos u
left_fits l u h k = wrap64-InRange (pos l -ℤ pos u) (grind (int_laws))

balance_checked :
    (now l u : ℕ) (balance : ℤ) (row : AlertRow)
    → 0 < now
    → l < 2 ^ 63
    → u < 2 ^ 63
    → let r = check_balance now (pos l) (pos u) balance row in
      (r.0.alert_level ≡ row.alert_level)
      × (ltb_ℤ (pos 0) balance && ltb 0 r.0.alert_balance_hit ≡ is_low l u balance)
      × (r.1 ≡ (
          if is_low l u balance && row.alert_balance_hit == 0
          then balance_mail balance ∷ []
          else []))
unfolding check_balance
balance_checked now l u balance row p h k = rw (left_fits l u h k) (ground arith)

balance_again :
    (now l u : ℕ) (balance : ℤ) (row : AlertRow)
    → l < 2 ^ 63
    → u < 2 ^ 63
    → ltb_ℤ (pos 0) balance && ltb 0 row.alert_balance_hit ≡ is_low l u balance
    → (check_balance now (pos l) (pos u) balance row).1 ≡ []
unfolding check_balance
balance_again now l u balance row h k e = rw (left_fits l u h k) (ground arith)

-- The columns that a check reads and never writes.
abbrev Same : AlertRow → AlertRow → Type 0
Same a b =
    (a.quota_limit ≡ b.quota_limit)
    × (a.quota_used ≡ b.quota_used)
    × (a.levels ≡ b.levels)
    × (a.alert_balance ≡ b.alert_balance)

level_keeps :
    (now seen n : ℕ) (levels : List ℤ) (row : AlertRow)
    → Same (check_level now seen n levels row).0 row
unfolding check_level
level_keeps now seen n levels row = ground arith

balance_keeps :
    (now : ℕ) (l u balance : ℤ) (row : AlertRow) → Same (check_balance now l u balance row).0 row
unfolding check_balance
balance_keeps now l u balance row = ground arith

-- What a check has read: a positive limit, both numbers int64, levels as they are parsed, and
-- alerts switched on.
unfoldable pub Watched : ℕ → ℕ → AlertRow → Type 0
Watched l u seen =
    (seen.quota_limit ≡ some (pos l))
    × (seen.quota_used ≡ pos u)
    × (0 < l)
    × (l < 2 ^ 63)
    × (u < 2 ^ 63)
    × Rising 0 seen.levels
    × (is_empty seen.levels && not (ltb_ℤ (pos 0) seen.alert_balance) ≡ false)

check_runs :
    (now l u : ℕ) (seen row : AlertRow)
    → Watched l u seen
    → check_alert now seen row ≡ (
        let a = check_level now seen.alert_level (reached u l seen.levels) seen.levels row in
        let b = check_balance now (pos l) (pos u) seen.alert_balance a.0 in (b.0, a.1 ++ b.1))
unfolding check_alert check_limit Watched
check_runs now l u seen row (lim, used, lo, hl, hu, up, on) =
    let p : leb_ℤ (pos l) (pos 0) ≡ false = ground arith in
    rw (lim, used, bracket-reached u l seen.levels hu hl up, on, p) refl

level_hit :
    (now seen n : ℕ) (levels : List ℤ) (row : AlertRow)
    → (check_level now seen n levels row).0.alert_balance_hit ≡ row.alert_balance_hit
unfolding check_level
level_hit now seen n levels row = ground arith

-- Nothing is left to mail.
Settled : ℕ → ℕ → AlertRow → AlertRow → Type 0
Settled l u seen row =
    (row.alert_level ≡ reached u l seen.levels)
    × (ltb_ℤ (pos 0) seen.alert_balance && ltb 0 row.alert_balance_hit
        ≡ is_low l u seen.alert_balance)

silent :
    (now l u : ℕ) (seen row : AlertRow)
    → Watched l u seen
    → Settled l u seen row
    → (check_alert now seen row).1 ≡ []
unfolding Watched Settled
silent now l u seen row w s =
    let n = reached u l seen.levels in
    let a = check_level now seen.alert_level n seen.levels row in
    let b =
      balance_again now l u seen.alert_balance a.0 w.3 w.4
        (rw (level_hit now seen.alert_level n seen.levels row) s.1) in
    rw (check_runs now l u seen row w, level_again now seen.alert_level n seen.levels row s.0, b)
      refl

check_alert-Same :
    (now l u : ℕ) (row : AlertRow) → Watched l u row → Same (check_alert now row row).0 row
unfolding Watched
check_alert-Same now l u row w =
    let n = reached u l row.levels in
    let a = check_level now row.alert_level n row.levels row in
    let p = level_keeps now row.alert_level n row.levels row in
    let q = balance_keeps now (pos l) (pos u) row.alert_balance a.0 in
    rw (check_runs now l u row row w) (q.0 ∙ p.0, q.1 ∙ p.1, q.2 ∙ p.2, q.3 ∙ p.3)

settles :
    (now l u : ℕ) (row : AlertRow)
    → Watched l u row
    → 0 < now
    → Settled l u row (check_alert now row row).0
unfolding Watched Settled
settles now l u row w p =
    let n = reached u l row.levels in
    let a = check_level now row.alert_level n row.levels row in
    let la = level_checked now row.alert_level n row.levels row refl in
    let ba = balance_checked now l u row.alert_balance a.0 p w.3 w.4 in
    rw (check_runs now l u row row w) (ba.0 ∙ la.0, ba.1)

Same-Watched : (l u : ℕ) (a b : AlertRow) → Same a b → Watched l u b → Watched l u a
unfolding Watched
Same-Watched l u a b (lim, used, lev, bal) w = rw (lim, used, lev, bal) w

Same-Settled : (l u : ℕ) (a b row : AlertRow) → Same a b → Settled l u b row → Settled l u a row
unfolding Settled
Same-Settled l u a b row (lim, used, lev, bal) w = rw (lev, bal) w

mails :
    (now l u : ℕ) (row : AlertRow)
    → Watched l u row
    → 0 < now
    → (check_alert now row row).1
      ≡ (if ltb row.alert_level (reached u l row.levels)
          then percent_mail (level_at (reached u l row.levels - 1) row.levels) ∷ []
          else [])
        ++ (if is_low l u row.alert_balance && row.alert_balance_hit == 0
            then balance_mail row.alert_balance ∷ []
            else [])
unfolding Watched
mails now l u row w p =
    let n = reached u l row.levels in
    let a = check_level now row.alert_level n row.levels row in
    let la = level_checked now row.alert_level n row.levels row refl in
    let ba = balance_checked now l u row.alert_balance a.0 p w.3 w.4 in
    rw (check_runs now l u row row w, la.2, ba.2, la.1) refl

-- With a positive limit, an int64 usage, rising levels and alerts switched on, a check that sees
-- the row as it is sets the level to the one that the usage has reached and, under a threshold, the
-- flag to whether less is left than the threshold; it mails a level that is above the old one, and
-- a threshold that was not flagged. Neither another check that saw the same row nor one that reads
-- the row anew sends a mail after it.
pub check_alert-edges :
    (now later l u : ℕ) (row : AlertRow)
    → Watched l u row
    → 0 < now
    → let r = check_alert now row row in
      let n = reached u l row.levels in
      (r.0.alert_level ≡ n)
      × (ltb_ℤ (pos 0) row.alert_balance && ltb 0 r.0.alert_balance_hit
          ≡ is_low l u row.alert_balance)
      × (r.1
          ≡ (if ltb row.alert_level n then percent_mail (level_at (n - 1) row.levels) ∷ [] else [])
            ++ (if is_low l u row.alert_balance && row.alert_balance_hit == 0
                then balance_mail row.alert_balance ∷ []
                else []))
      × ((check_alert later row r.0).1 ≡ [])
      × ((check_alert later r.0 r.0).1 ≡ [])
unfolding Settled
check_alert-edges now later l u row w p =
    let s = settles now l u row w p in
    let k = check_alert-Same now l u row w in
    let r = (check_alert now row row).0 in
    (
      s.0,
      s.1,
      mails now l u row w p,
      silent later l u row r w s,
      silent later l u r r (Same-Watched l u r row k w) (Same-Settled l u r row r k s),
    )

-- ===== src/Alerts/Recheck.antt =====
-- The throttle of the checks: a check in the window of the one before is put off, and not lost.
use general_api.Base.{
  leb, Bool-cases, ℕ, ◌+◌, ◌≤◌, ◌≡◌, refl, inl, inr, Bool, true, false, ◌&&◌, ◌||◌, none, some,
  List, [], ◌∷◌, arith,
}
use general_api.Alerts.{
  new_throttle, Throttle, ThrottleEvent, settled_at, fired_at, alert_throttle, throttle_window,
  schedule_alert_recheck, try_check, throttle_step, throttle_run,
}

-- A pending timer is due by the end of the window.
abbrev is_due_by : ℕ → Throttle → Bool
is_due_by end g = elim g.pending [ none ↦ false | some due ↦ leb due end ]

-- The last check was at `t`, and a timer is pending that is due by the end of its window.
Held : ℕ → Throttle → Type 0
Held t g = (g.last ≡ some t) × (is_due_by (t + alert_throttle) g ≡ true)

Timely : Throttle → Type 0
Timely g = elim g.last [
  | none ↦ g.pending ≡ none
  | some t ↦ (elim g.pending [ none ↦ true | some due ↦ leb due (t + alert_throttle) ]) ≡ true
]

fresh-Timely : Timely new_throttle
unfolding Timely
fresh-Timely = refl

step-Timely : (e : ThrottleEvent) (g : Throttle) → Timely g → Timely (throttle_step e g).0
unfolding Timely throttle_step try_check throttle_window schedule_alert_recheck
step-Timely (settled_at now) g h = ground arith
step-Timely (fired_at now) g h = ground arith

run-Timely :
    (events : List ThrottleEvent) (g : Throttle) → Timely g → Timely (throttle_run events g).0
unfolding throttle_run
run-Timely [] g h = h
run-Timely (e ∷ events) g h = run-Timely events (throttle_step e g).0 (step-Timely e g h)

-- A throttled check leaves a timer.
throttled-Held :
    (now t : ℕ) (g : Throttle)
    → Timely g
    → g.last ≡ some t
    → (try_check now g).1 ≡ false
    → Held t (try_check now g).0
unfolding Timely Held try_check throttle_window schedule_alert_recheck
throttled-Held now t g h l e = ground arith

step-Held :
    (e : ThrottleEvent) (t : ℕ) (g : Throttle)
    → Held t g
    → (throttle_step e g).1 ≡ false
    → Held t (throttle_step e g).0
unfolding Held throttle_step try_check throttle_window schedule_alert_recheck
step-Held (settled_at now) t g h p = ground arith
step-Held (fired_at now) t g h p = ground arith

fires :
    (t end : ℕ) (g : Throttle)
    → Held t g
    → t + alert_throttle ≤ end
    → is_due_by (t + alert_throttle) g && (throttle_step (fired_at end) g).1 ≡ true
unfolding Held throttle_step try_check throttle_window schedule_alert_recheck
fires t end g h p = ground arith

run-Held :
    (events : List ThrottleEvent) (t end : ℕ) (g : Throttle)
    → Held t g
    → t + alert_throttle ≤ end
    → (let r = throttle_run events g in
        r.1 || (is_due_by (t + alert_throttle) r.0 && (throttle_step (fired_at end) r.0).1))
      ≡ true
unfolding throttle_run
run-Held [] t end g h p = fires t end g h p
run-Held (e ∷ events) t end g h p = elim (Bool-cases (throttle_step e g).1) [
  | inl y ↦ rw y refl
  | inr n ↦ rw n (run-Held events t end (throttle_step e g).0 (step-Held e t g h n) p)
]

-- After any events, a check that is throttled by one of the time `t` is not lost: through any
-- further events, either one of them leads to a check, or a timer is pending that is due by the end
-- of the window of `t`, and a timer that fires at that end or later leads to a check.
pub try_check-recheck :
    (before after : List ThrottleEvent) (now t end : ℕ)
    → (throttle_run before new_throttle).0.last ≡ some t
    → (try_check now (throttle_run before new_throttle).0).1 ≡ false
    → t + alert_throttle ≤ end
    → (let r = throttle_run after (try_check now (throttle_run before new_throttle).0).0 in
        r.1 || (is_due_by (t + alert_throttle) r.0 && (throttle_step (fired_at end) r.0).1))
      ≡ true
try_check-recheck before after now t end l e p =
    let g = (throttle_run before new_throttle).0 in
    run-Held after t end (try_check now g).0
      (throttled-Held now t g (run-Timely before new_throttle fresh-Timely) l e) p

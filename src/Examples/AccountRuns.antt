-- ===== src/Examples/AccountRuns.antt =====
-- A video task, a code that is guessed, and the alerts of an account.
use general_api.Base.{
  ltb, leb, ◌-ℤ◌, pos, ◌≤◌, ◌≡◌, refl, ◌↔◌, true, false, ◌&&◌, ◌||◌, none, some, List, [], ◌∷◌,
  arith, eq_iff,
}
use general_api.Model.{VideoTask}
use general_api.Video.{VideoDb, put_task, Observation, observe_all}
use general_api.Video.Once.{Concerns, Ends, observe_all-once}
use general_api.Verification.{
  VerifyRow, Codes, put_code, Guess, verify, verify_all, voided, new_row, send_code, too_soon,
  mail_sent, delivers,
}
use general_api.Verification.Guesses.{Opens, count_accepted, verify_all-Opens}
use general_api.Verification.Resend.{send_code-voided}
use general_api.Alerts.{
  AlertRow, check_alert, percent_mail, balance_mail, settled_at, fired_at, throttle_run,
  throttle_step, new_throttle, try_check,
}
use general_api.Alerts.Checks.{Watched, check_alert-edges}
use general_api.Alerts.Recheck.{try_check-recheck}
use general_api.Examples.QuotaRuns.{shop}

abbrev clip : VideoTask
clip = record {
  task_id = "t";
  org_id = 1;
  user_id = 7;
  api_key_id = 3;
  cost_center_id = none;
  channel_id = 2;
  model_name = "m";
  status = "";
  billed = 0;
  completion_tokens = pos 0;
  output_price = pos 1000000;
  cost_output_price = pos 500000;
  create_request_id = "r";
  created_at = 5;
  updated_at = 5;
}

abbrev studio : VideoDb
studio = record { tasks = put_task "t" clip (λ id. none); db = shop }

abbrev done : Observation
done = record {
  now = 9;
  period = "2026-09";
  task = clip;
  upstream = some (record {
    status = "succeeded";
    usage = some (record {
      prompt_tokens = pos 0;
      completion_tokens = pos 4;
      prompt_cache_hit_tokens = pos 0;
      prompt_tokens_details = none;
    });
  });
}

-- A query and a sweep both find the task done.
observe_all-once_example :
    Ends (done ∷ done ∷ []) "t" clip shop (observe_all (done ∷ done ∷ []) studio)
observe_all-once_example =
    let c : Concerns "t" done = record {
      same_task = refl;
      price = omega arith;
      vendor_price = omega arith;
    } in
    observe_all-once "t" (done ∷ done ∷ []) clip studio (c, (c, tt)) refl

abbrev mailbox : Codes
mailbox = put_code "ann@acme.com" (some (new_row 100 "123456")) (λ e. none)

abbrev guesses : List Guess
guesses =
    record { at = 110; code = "000000" }
    ∷ record { at = 120; code = "123456" }
    ∷ record { at = 121; code = "123456" }
    ∷ []

verify_all-Opens_example :
    let n = count_accepted (verify_all "ann@acme.com" guesses mailbox).0 in
    (n ≤ 1) × ((n ≡ 1) ↔ Opens 5 (new_row 100 "123456") guesses)
verify_all-Opens_example = verify_all-Opens "ann@acme.com" 100 "123456" guesses mailbox refl

abbrev four_wrong : VerifyRow
four_wrong = record (new_row 100 "123456") { attempts = 4 }

abbrev guessed : Codes
guessed = put_code "ann@acme.com" (some four_wrong) (λ e. none)

send_code-voided_example :
    let voided_table = (verify 109 "ann@acme.com" "000000" guessed).1 in
    let resent = send_code (λ e. true) delivers 110 "ann@acme.com" "654321" voided_table in
    ((send_code (λ e. true) delivers 110 "ann@acme.com" "654321" guessed).0 ≡ too_soon 51)
    × ((verify 109 "ann@acme.com" "000000" guessed).0 ≡ voided)
    × (resent.0 ≡ mail_sent)
    × (resent.1 "ann@acme.com" ≡ some (new_row 110 "654321"))
send_code-voided_example =
    send_code-voided (λ e. true) 110 109 "ann@acme.com" "654321" "000000" guessed four_wrong refl
      refl (omega arith) refl (omega arith)
      (λ e. absurd (ground (arith, (eq_iff "123456" "000000").1 e)))

abbrev watched : AlertRow
watched = record {
  quota_limit = some (pos 1000);
  quota_used = pos 850;
  levels = pos 80 ∷ pos 100 ∷ [];
  alert_level = 0;
  alert_since = 0;
  alert_balance = pos 200;
  alert_balance_hit = 0;
}

watched-Watched : Watched 1000 850 watched
unfolding Watched
watched-Watched = (refl, refl, omega arith, omega arith, omega arith, ground arith, refl)

check_alert-edges_example :
    let r = check_alert 7 watched watched in
    (r.0.alert_level ≡ 1)
    × (ltb 0 r.0.alert_balance_hit ≡ true)
    × (r.1 ≡ percent_mail (pos 80) ∷ balance_mail (pos 200) ∷ [])
    × ((check_alert 8 watched r.0).1 ≡ [])
    × ((check_alert 8 r.0 r.0).1 ≡ [])
unfolding ◌-ℤ◌
check_alert-edges_example = check_alert-edges 7 8 1000 850 watched watched-Watched (omega arith)

try_check-recheck_example :
    let r =
      throttle_run
        (settled_at 20 ∷ [])
        (try_check 10 (throttle_run (settled_at 5 ∷ []) new_throttle).0).0 in
    r.1
      || ((elim r.0.pending [ none ↦ false | some due ↦ leb due 60000000005 ])
          && (throttle_step (fired_at 60000000006) r.0).1)
    ≡ true
unfolding try_check throttle_run
try_check-recheck_example =
    try_check-recheck (settled_at 5 ∷ []) (settled_at 20 ∷ []) 10 5 60000000006 refl refl
      (omega arith)

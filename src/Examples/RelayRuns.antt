-- ===== src/Examples/RelayRuns.antt =====
-- A request over two keys, and a breaker.
use general_api.Base.{
  ◌==◌, if◌then◌else◌, length, ℤ, pos, ℕ, ◌+◌, ◌-◌, ◌*◌, ◌≤◌, ◌<◌, ◌≡◌, refl, ◌↔◌, inl, true, false,
  Option, none, some, List, [], ◌∷◌, arith,
}
use mathlib.Core.List.{Sublist}
use general_api.Coord.{is_cooling, is_quota_cooling, set_cooldown, ck, put, new_mem}
use general_api.Breaker.{new_breaker}
use general_api.Breaker.Trips.{succeeds, fails, replay, run_of, replay-trips}
use general_api.Codes.{Strings, parse_code_set, code_match}
use general_api.Codes.Denoted.{Lists, parse_code_set-Lists}
use general_api.Candidate.{Candidate}
use general_api.Relay.{
  try_reply, on_answer, on_retry_key, cool_keys, minute_aligned_cooldown, on_net_error, Body,
  Config, Turn, World, answer, net_error,
}
use general_api.Relay.Loop.{run, start_flags, conclude, status_code, failed}
use general_api.Relay.Loop.Failures.{failure_of, run-failure_of, run_all_cooling}
use general_api.Relay.Loop.Limits.{run_counts}
use general_api.Relay.Loop.Billing.{SameBill, run_unanswered_free}
use general_api.Examples.CostRuns.{prices, blank}

abbrev pub config : Config
config = record {
  key_cooldown = pos 60000000000;
  vendor_wide = false;
  max_candidates = 3;
  retry_key_codes = λ c. c == 429;
  disable_key_codes = λ c. c == 401;
  retry_channel_codes = λ c. c == 500;
}

abbrev first_key : Candidate
first_key = record {
  channel_id = 1;
  channel_name = "a";
  vendor_id = 1;
  vendor_name = "v";
  base_url = "";
  path = "";
  upstream_key = "k";
  upstream_model = "m";
  weight = pos 1;
  priority = pos 0;
  key_id = 1;
}

abbrev second_key : Candidate
second_key = record first_key { key_id = 2 }

abbrev limited : Body
limited = record {
  quota_code = false;
  retry_after = pos 0;
  usage = none;
  gone = false;
  read_error = false;
  translate_error = false;
}

-- The first key is limited by rate, the second times out.
abbrev pub turns : ℕ → Turn
turns i = record {
  now = 1000;
  gone_before = false;
  client_gone = false;
  reply = if i == 0 then answer 429 limited else net_error true;
}

abbrev world : World
world = record {
  mem = new_mem;
  breaker = new_breaker 3;
  effects = [];
  flags = start_flags;
  rec = blank;
}

-- Both keys cool, for a rate limit.
abbrev cooling_world : World
cooling_world = record world {
  mem =
      put (ck 1 1) (some (record { until = pos 5000; hits = 1; quota = false }))
        (put (ck 1 2) (some (record { until = pos 5000; hits = 1; quota = false })) new_mem);
}

abbrev keys : List Candidate
keys = first_key ∷ second_key ∷ []

-- Both attempts fail.
both_fail : (run config false prices keys turns world).ending ≡ failed
unfolding run is_cooling try_reply on_answer on_retry_key cool_keys set_cooldown
    minute_aligned_cooldown on_net_error
both_fail = refl

none_tried :
    let o = run config false prices keys turns cooling_world in
    (o.ending ≡ failed) × (o.progress.tries ≡ []) × (o.progress.skipped_quota < o.progress.skipped)
unfolding run is_cooling is_quota_cooling
none_tried = (refl, refl, omega arith)

run-failure_of_example :
    let o = run config false prices keys turns world in
    conclude o.world.flags o.progress ≡ failure_of config o.progress
run-failure_of_example = run-failure_of config false prices keys turns world refl both_fail

run_all_cooling_example :
    let o = run config false prices keys turns cooling_world in
    status_code (conclude o.world.flags o.progress) ≡ 504
run_all_cooling_example =
    run_all_cooling config false prices keys turns cooling_world refl none_tried.0 none_tried.1
      none_tried.2

run_counts_example :
    let p = (run config false prices keys turns world).progress in
    (Sublist p.visited (first_key ∷ second_key ∷ []))
    × (length p.visited ≡ p.tried + p.skipped)
    × (length p.tries ≡ p.tried)
    × (0 < 3 → p.tried ≤ 3)
    × (p.tried + p.skipped ≤ 2)
    × (p.skipped_quota ≤ p.skipped)
run_counts_example = run_counts config false prices keys turns world

run_unanswered_free_example : SameBill blank (run config false prices keys turns world).world.rec
run_unanswered_free_example =
    run_unanswered_free config false prices keys turns world (inl both_fail)

replay-trips_example :
    ((replay (new_breaker 2) (fails 7 ∷ fails 8 ∷ fails 7 ∷ succeeds 7 ∷ [])).0 ≡ true)
    ↔ (2 ≤ run_of 7 (fails 8 ∷ fails 7 ∷ succeeds 7 ∷ []) + 1)
replay-trips_example = replay-trips 2 7 (fails 8 ∷ fails 7 ∷ succeeds 7 ∷ []) (omega arith)

-- The numbers that the tokens below hold.
abbrev digits : List ℕ → Option ℤ
digits (a ∷ b ∷ c ∷ []) = some (pos ((a - 48) * 100 + (b - 48) * 10 + (c - 48)))
digits s = none

abbrev plain_strings : Strings
plain_strings = record { trim_space = λ s. s; atoi = digits }

-- 429 and 5xx
abbrev items : List (List ℕ)
items = (52 ∷ 50 ∷ 57 ∷ []) ∷ (53 ∷ 120 ∷ 120 ∷ []) ∷ []

parse_code_set-Lists_example :
    (code_match (some (parse_code_set plain_strings items)) 503 ≡ true)
    ↔ Lists plain_strings 503 items
parse_code_set-Lists_example = parse_code_set-Lists plain_strings 503 items

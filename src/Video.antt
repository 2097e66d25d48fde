-- ===== src/Video.antt =====
-- internal/gateway/video.go: a video task is registered when the upstream accepts it and billed
-- when an observation, by a query or by the sweep, first finds it done. The answers of the upstream
-- are arguments; error texts, metrics and the latency are left out.
pub mod Once
use general_api.Base.{
  ltb, leb, ◌==◌, if◌then◌else◌, ltb→lt, lt→ltb, leb→le, ==_iff, Bool-cases, Option-cases, if_intro,
  length, length-append, All, All-append, ℤ, pos_part, neg_part, sub_ℕ, ◌+ℤ◌, ◌-ℤ◌, ◌≤ℤ◌, ◌<ℤ◌,
  ltb_ℤ, leb_ℤ, eqb_ℤ, +ℤ_parts, -ℤ_parts, eq_of_parts, int_laws, +ℤ_comm, +ℤ_assoc, +ℤ_zero,
  InRange, in_range, bits64, signed64, wrap64, wrap64-InRange, eqb_ℤ→eq, pos, negsuc, ℕ, zero, suc,
  ◌+◌, ◌-◌, ◌*◌, ◌/◌, ◌%◌, ◌^◌, ◌≤◌, ◌<◌, min, max, String, ◌≡◌, refl, sym, ap, subst, ◌∙◌, ◌≢◌,
  ◌↔◌, ◌⊎◌, inl, inr, Bool, true, false, ◌&&◌, ◌||◌, not, Option, none, some, List, [], ◌∷◌, ◌++◌,
  map, filter, append_assoc, append-nil, arith, str_eq, eq_iff, dec_lt, dec_le, ℕ_discrete,
}
use general_api.Model.{UsageLog, ModelPrices, VideoTask}
use general_api.Cost.{clamp_tokens, calc_cost_cached}
use general_api.Cost.Usage.{Usage}
use general_api.Quota.Store.{Db, Result, ok, err}
use general_api.Quota.{settle_tx}

-- The table video_tasks beside those of the accounts.
pub record VideoDb : Type 0 where
  pub tasks : String → Option VideoTask
  pub db : Db

abbrev pub put_task : String → VideoTask → (String → Option VideoTask) → String → Option VideoTask
put_task id row m j = if str_eq j id then some row else m j

-- `captureVideoTask`: `id` is that of the upstream's answer, if it has one. A second row with the
-- id is refused by the table.
unfoldable pub capture_video_task : Option String → UsageLog → ModelPrices → ℕ → VideoDb → VideoDb
capture_video_task none rec m now v = v
capture_video_task (some id) rec m now v = if str_eq id "" then v else elim rec.channel_id [
  | none ↦ v
  | some ch ↦ if ch == 0 then v else elim (v.tasks id) [
    | some row ↦ v
    | none ↦ record v {
      tasks =
          put_task id
            (record {
              task_id = id;
              org_id = rec.org_id;
              user_id = rec.user_id;
              api_key_id = rec.api_key_id;
              cost_center_id = rec.cost_center_id;
              channel_id = ch;
              model_name = rec.model_name;
              status = "";
              billed = 0;
              completion_tokens = pos 0;
              output_price = m.output_price;
              cost_output_price = m.cost_output_price;
              create_request_id = rec.request_id;
              created_at = now;
              updated_at = now;
            })
            v.tasks;
    }
  ]
]

-- The log of a settlement, without its two costs.
abbrev pub unpriced : VideoTask → ℤ → UsageLog
unpriced task tokens = record {
  request_id = task.task_id;
  org_id = task.org_id;
  user_id = task.user_id;
  api_key_id = task.api_key_id;
  channel_id = some task.channel_id;
  cost_center_id = task.cost_center_id;
  model_name = task.model_name;
  is_stream = false;
  prompt_tokens = pos 0;
  completion_tokens = tokens;
  cached_tokens = pos 0;
  input_price = pos 0;
  output_price = task.output_price;
  input_cache_hit_price = pos 0;
  cost_input_price = pos 0;
  cost_output_price = task.cost_output_price;
  cost_input_cache_hit_price = pos 0;
  vendor_cost = pos 0;
  cost = pos 0;
  no_usage = false;
  status = 200;
  error = "";
  created_at = 0;
}

-- `none` would be a panic of the billing kernel.
pub video_record : VideoTask → ℤ → Option UsageLog
video_record task tokens =
    if task.org_id == 0
    then some (unpriced task tokens)
    else elim (calc_cost_cached (pos 0) (pos 0) tokens (pos 0) (pos 0) task.output_price) [
      | none ↦ none
      | some cost ↦
          elim (calc_cost_cached (pos 0) (pos 0) tokens (pos 0) (pos 0) task.cost_output_price) [
            | none ↦ none
            | some vendor_cost ↦
                some (record (unpriced task tokens) { cost = cost; vendor_cost = vendor_cost })
          ]
    ]

-- The row that `UPDATE … SET billed = 1 … WHERE billed = 0` leaves.
abbrev pub billed_row : ℕ → String → ℤ → VideoTask → VideoTask
billed_row now status tokens row = record row {
  billed = 1;
  status = status;
  completion_tokens = tokens;
  updated_at = now;
}

-- The settlement in the same transaction; an error rolls both back.
pub settled_with :
    String → VideoTask → VideoDb → Result (Unit {0} × Db) → Result (Unit {0}) × VideoDb
settled_with id row v (err e) = (err e, v)
settled_with id row v (ok (a, db)) = (ok tt, record { tasks = put_task id row v.tasks; db = db })

-- Without a row that is not billed, another one has settled, which is no error.
pub claim_task :
    String
    → ℕ
    → String
    → String
    → ℤ
    → UsageLog
    → VideoDb
    → Option VideoTask
    → Result (Unit {0}) × VideoDb
unfolding settled_with
claim_task id now period status tokens rec v none = (ok tt, v)
claim_task id now period status tokens rec v (some row) =
    if row.billed == 0
    then settled_with id (billed_row now status tokens row) v (settle_tx now period rec v.db)
    else (ok tt, v)

-- `settleVideoTask`
pub settle_video_task :
    ℕ → String → VideoTask → String → ℤ → VideoDb → Option (Result (Unit {0}) × VideoDb)
unfolding video_record claim_task
settle_video_task now period task status tokens v = elim (video_record task (clamp_tokens tokens)) [
  | none ↦ none
  | some rec ↦
      some (
        claim_task task.task_id now period status (clamp_tokens tokens) rec v
          (v.tasks task.task_id))
]

pub record Upstream : Type 0 where
  pub status : String
  pub usage : Option Usage

-- UPDATE video_tasks SET status = ? WHERE task_id = ?, with or without `AND billed = 0`.
pub set_status : ℕ → String → Bool → String → VideoDb → VideoDb
set_status now status unbilled id v = elim (v.tasks id) [
  | none ↦ v
  | some row ↦ if unbilled && not (row.billed == 0) then v else record v {
    tasks = put_task id (record row { status = status; updated_at = now }) v.tasks;
  }
]

pub observe_success :
    ℕ → String → VideoTask → Option Usage → VideoDb → Option (Result (Unit {0}) × VideoDb)
unfolding set_status settle_video_task
observe_success now period task none v =
    some (ok tt, set_status now "succeeded" false task.task_id v)
observe_success now period task (some u) v =
    settle_video_task now period task "succeeded" u.completion_tokens v

-- `observeVideoTask`
pub observe_video_task :
    ℕ → String → VideoTask → Option Upstream → VideoDb → Option (Result (Unit {0}) × VideoDb)
unfolding observe_success set_status
observe_video_task now period task none v = some (ok tt, v)
observe_video_task now period task (some up) v =
    if str_eq up.status "succeeded"
    then observe_success now period task up.usage v
    else if str_eq up.status "failed"
    then some (ok tt, set_status now "failed" true task.task_id v)
    else some (ok tt, set_status now up.status false task.task_id v)

-- One observation: the row as it was read, and what the upstream says of it.
pub record Observation : Type 0 where
  pub now : ℕ
  pub period : String
  pub task : VideoTask
  pub upstream : Option Upstream

-- Observations one after another, of queries and sweeps alike; their errors are logged only.
unfoldable pub observe_all : List Observation → VideoDb → Option VideoDb
unfolding observe_video_task
observe_all [] v = some v
observe_all (o ∷ os) v = elim (observe_video_task o.now o.period o.task o.upstream v) [
  | none ↦ none
  | some r ↦ observe_all os r.1
]

-- The rows of a sweep: not billed, not failed, and created within a day.
unfoldable pub is_due : ℕ → VideoTask → Bool
is_due now task =
    task.billed == 0 && not (str_eq task.status "failed") && leb now (task.created_at + 86400)

pub due : ℕ → List VideoTask → List VideoTask
unfolding is_due
due now [] = []
due now (row ∷ rows) = if is_due now row then row ∷ due now rows else due now rows

abbrev pub take : ℕ → List VideoTask → List VideoTask
take zero rows = []
take (suc n) [] = []
take (suc n) (row ∷ rows) = row ∷ take n rows

pub observations : ℕ → String → (VideoTask → Option Upstream) → List VideoTask → List Observation
observations now period fetch [] = []
observations now period fetch (row ∷ rows) =
    record { now = now; period = period; task = row; upstream = fetch row }
    ∷ observations now period fetch rows

-- `VideoTaskSweepOnce` over the rows in the order of their creation. A failed fetch is `none`, as
-- is an answer without a status: neither changes a row.
unfoldable pub sweep_once :
    ℕ → String → (VideoTask → Option Upstream) → List VideoTask → VideoDb → Option VideoDb
unfolding due observations observe_all
sweep_once now period fetch rows v =
    observe_all (observations now period fetch (take 100 (due now rows))) v

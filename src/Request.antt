-- ===== src/Request.antt =====
-- The first half of `relay` in internal/gateway/handler.go, from the record to the candidates, and
-- the whole of it: the checks, the loop of Relay over the candidates, and the settlement at the
-- end. The parsing of a body, the limiter's answer and the cutting of long names are arguments;
-- texts, headers and metrics are left out.
pub mod Tables
pub mod Refused
pub mod Allowed
pub mod Bill
pub mod Pricing
use general_api.Base.{
  ltb, leb, ◌==◌, if◌then◌else◌, ltb→lt, lt→ltb, leb→le, ==_iff, Bool-cases, Option-cases, if_intro,
  length, length-append, All, All-append, ℤ, pos_part, neg_part, sub_ℕ, ◌+ℤ◌, ◌-ℤ◌, ◌≤ℤ◌, ◌<ℤ◌,
  ltb_ℤ, leb_ℤ, eqb_ℤ, +ℤ_parts, -ℤ_parts, eq_of_parts, int_laws, +ℤ_comm, +ℤ_assoc, +ℤ_zero,
  InRange, in_range, bits64, signed64, wrap64, wrap64-InRange, eqb_ℤ→eq, pos, negsuc, ℕ, zero, suc,
  ◌+◌, ◌-◌, ◌*◌, ◌/◌, ◌%◌, ◌^◌, ◌≤◌, ◌<◌, min, max, String, ◌≡◌, refl, sym, ap, subst, ◌∙◌, ◌≢◌,
  ◌↔◌, ◌⊎◌, inl, inr, Bool, true, false, ◌&&◌, ◌||◌, not, Option, none, some, List, [], ◌∷◌, ◌++◌,
  map, filter, append_assoc, append-nil, arith, str_eq, eq_iff, dec_lt, dec_le, ℕ_discrete,
}
use general_api.Model.{UsageLog, ModelPrices}
use general_api.Quota.Store.{
  Db, Result, ok, err, user_quota, org_quota, user_monthly, org_monthly, not_found, Error,
}
use general_api.Quota.{precheck, settle}
use general_api.Coord.{Mem}
use general_api.Breaker.{Breaker}
use general_api.Candidate.{Candidate}
use general_api.Selector.{CandRow, KeyRow, SelectStats}
use general_api.Selector.Query.{
  Selection, select_candidates, Unavailable, no_candidate, unavailable_code,
}
use Tables.{KeyInfo, Catalog, ModelRow, request_prices, is_granted}
use general_api.Relay.{Config, Turn, World, Effect}
use general_api.Relay.Loop.{Outcome, Ending, failed, run, start_flags, conclude, status_code}

-- `relaySpec`
pub record RelaySpec : Type 0 where
  pub allow_stream : Bool
  pub require : List String
  pub video : Bool  -- modelType == "video"

-- The endpoints that relay serves; `messages` and `responses` differ from `chat_completions` in the
-- parsing of the body alone.
abbrev pub chat_completions : RelaySpec
chat_completions = record { allow_stream = true; require = []; video = false }

abbrev pub embeddings : RelaySpec
embeddings = record { allow_stream = false; require = "input" ∷ []; video = false }

abbrev pub video_create_task : RelaySpec
video_create_task = record { allow_stream = false; require = "content" ∷ []; video = true }

-- A body that parses: its keys, and what is read of `model` and `stream`.
pub record Parsed : Type 0 where
  pub keys : List String
  pub model : String
  pub stream : Bool

-- What arrives: whether the limiter lets it pass, whether it is cut short, and its parsing.
pub record Inbound : Type 0 where
  pub request_id : String
  pub allowed : Bool
  pub too_large : Bool
  pub parsed : Option Parsed

pub record Env : Type 0 where
  pub now : ℕ  -- in nanoseconds
  pub seconds : ℕ
  pub period : String
  pub decrypt : String → Option String
  pub intn : ℕ → ℕ → ℕ
  pub truncate : String → String  -- to 190 bytes
  pub scrub : String → String

-- The answers that a request may get before it is forwarded.
pub data Refusal : Type 0 where
  rate_limit_error request_too_large invalid_body missing_model missing_field : Refusal
  model_not_found not_a_video_model is_a_video_model model_not_allowed : Refusal
  insufficient_balance monthly_limit_exceeded precheck_failed : Refusal
  unavailable : Unavailable → Refusal

abbrev pub refusal_code : Refusal → ℕ
refusal_code rate_limit_error = 429
refusal_code request_too_large = 413
refusal_code model_not_found = 404
refusal_code model_not_allowed = 403
refusal_code insufficient_balance = 402
refusal_code monthly_limit_exceeded = 402
refusal_code precheck_failed = 500
refusal_code (unavailable u) = unavailable_code u
refusal_code _ = 400

abbrev pub has_key : String → List String → Bool
has_key k [] = false
has_key k (x ∷ xs) = str_eq k x || has_key k xs

-- The fields that an endpoint requires.
pub has_fields : List String → List String → Bool
has_fields [] keys = true
has_fields (f ∷ fs) keys = has_key f keys && has_fields fs keys

-- The answer to an error of `Precheck`.
abbrev pub precheck_refusal : Error → Refusal
precheck_refusal user_quota = insufficient_balance
precheck_refusal org_quota = insufficient_balance
precheck_refusal user_monthly = monthly_limit_exceeded
precheck_refusal org_monthly = monthly_limit_exceeded
precheck_refusal _ = precheck_failed

abbrev pub is_empty {ℓ} : {A : Type ℓ} → List A → Bool
is_empty [] = true
is_empty (x ∷ xs) = false

pub data Checked : Type 0 where
  refused : Refusal → UsageLog → Mem → Checked
  admitted : ModelPrices → Bool → Selection → UsageLog → Checked

abbrev pub refuse : Refusal → UsageLog → Mem → Checked
refuse r rec mem = refused r (record rec { status = refusal_code r }) mem

-- The record that a request begins with.
abbrev pub start_record : KeyInfo → Inbound → UsageLog
start_record ki inb = record {
  request_id = inb.request_id;
  org_id = ki.org_id;
  user_id = ki.user_id;
  api_key_id = ki.key_id;
  channel_id = none;
  cost_center_id = ki.cost_center_id;
  model_name = "";
  is_stream = false;
  prompt_tokens = pos 0;
  completion_tokens = pos 0;
  cached_tokens = pos 0;
  input_price = pos 0;
  output_price = pos 0;
  input_cache_hit_price = pos 0;
  cost_input_price = pos 0;
  cost_output_price = pos 0;
  cost_input_cache_hit_price = pos 0;
  vendor_cost = pos 0;
  cost = pos 0;
  no_usage = false;
  status = 0;
  error = "";
  created_at = 0;
}

module _ (env : Env) (cat : Catalog) (spec : RelaySpec) (ki : KeyInfo) (db : Db) (mem : Mem) where
  pub choose : ModelPrices → Bool → UsageLog → Selection → List Candidate → Checked
  choose m stream rec s [] = refuse (unavailable (no_candidate s.stats)) rec s.mem
  choose m stream rec s (c ∷ cs) = admitted m stream s rec

  pub select : ModelPrices → Bool → String → UsageLog → Checked
  unfolding choose
  select m stream name rec =
      let s =
        select_candidates (pos env.now) env.decrypt env.intn cat.key_rows (cat.cand_rows name)
          mem in
      choose m stream rec s s.cands

  pub check_quota : ModelPrices → Bool → String → UsageLog → Result (Unit {0}) → Checked
  unfolding select
  check_quota m stream name rec (err e) = refuse (precheck_refusal e) rec mem
  check_quota m stream name rec (ok x) = select m stream name rec

  pub check_row : ModelRow → Bool → String → UsageLog → Checked
  unfolding check_quota
  check_row row stream name rec =
      if not row.enabled
      then refuse model_not_found rec mem
      else if spec.video && not row.video
      then refuse not_a_video_model rec mem
      else if not spec.video && row.video
      then refuse is_a_video_model rec mem
      else if not ki.playground && not (is_granted cat ki.user_id name)
      then refuse model_not_allowed rec mem
      else check_quota (request_prices cat ki name row) stream name rec
          (if ltb 0 ki.org_id then precheck env.period ki.user_id db else ok tt)

  pub check_model : Bool → String → UsageLog → Option ModelRow → Checked
  unfolding check_row
  check_model stream name rec none = refuse model_not_found rec mem
  check_model stream name rec (some row) = check_row row stream name rec

  pub check_parsed : UsageLog → Option Parsed → Checked
  unfolding has_fields check_model
  check_parsed rec none = refuse invalid_body rec mem
  check_parsed rec (some p) =
      if is_empty p.keys
      then refuse invalid_body rec mem
      else if str_eq p.model ""
      then refuse missing_model rec mem
      else (let rec1 = record rec { model_name = env.truncate p.model } in
          let stream = p.stream && spec.allow_stream in
          if not (has_fields spec.require p.keys)
          then refuse missing_field rec1 mem
          else check_model stream p.model (record rec1 { is_stream = stream }) (cat.models p.model))

  -- `relay` up to the candidates.
  unfoldable pub preflight : Inbound → Checked
  unfolding check_parsed
  preflight inb =
      let rec = start_record ki inb in
      if not inb.allowed
      then refuse rate_limit_error rec mem
      else if inb.too_large
      then refuse request_too_large rec mem
      else check_parsed rec inb.parsed

pub record State : Type 0 where
  pub mem : Mem
  pub breaker : Breaker
  pub db : Db

-- A request that has ended: its record as it is settled, and what it started outside.
pub record Ended : Type 0 where
  pub rec : UsageLog
  pub effects : List Effect
  pub state : State

-- The record after the loop.
pub concluded : Outcome → UsageLog
concluded o = elim o.ending [
  | failed ↦ record o.world.rec { status = status_code (conclude o.world.flags o.progress) }
  | _ ↦ o.world.rec
]

-- The deferred settlement. The trial of a platform administrator is free.
pub settled : Env → KeyInfo → UsageLog → List Effect → State → Ended
settled env ki rec effects st =
    let rec' = (if ki.playground && ki.org_id == 0 then record rec { cost = pos 0 } else rec) in
    record {
      rec = rec';
      effects = effects;
      state = record st { db = (settle env.scrub env.seconds env.period rec' st.db).1 };
    }

-- What follows the checks.
pub proceed : Env → Config → KeyInfo → (ℕ → Turn) → State → Checked → Ended
unfolding concluded settled
proceed env cfg ki turns st (refused r rec mem) = settled env ki rec [] (record st { mem = mem })
proceed env cfg ki turns st (admitted m stream s rec) =
    let o = run cfg stream m s.cands turns (record {
      mem = s.mem;
      breaker = st.breaker;
      effects = [];
      flags = start_flags;
      rec = rec;
    }) in
    settled env ki (concluded o) o.world.effects
      (record st { mem = o.world.mem; breaker = o.world.breaker })

-- `relay`: one request from its arrival to its settlement, with what happens at each candidate.
unfoldable pub relay :
    Env → Config → Catalog → RelaySpec → KeyInfo → (ℕ → Turn) → Inbound → State → Ended
unfolding preflight proceed
relay env cfg cat spec ki turns inb st =
    proceed env cfg ki turns st (preflight env cat spec ki st.db st.mem inb)

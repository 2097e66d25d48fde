-- ===== src/Relay.antt =====
-- The forwarding half of `relay` in internal/gateway/handler.go: one attempt at a candidate, the
-- loop over the candidates, and the answer when all of them failed. What the network, the clock and
-- the client do is given for each attempt as a `Turn`. The texts of errors are left out.
pub mod Cooldown
pub mod Loop
use general_api.Base.{
  ltb, leb, ◌==◌, if◌then◌else◌, ℤ, ltb_ℤ, leb_ℤ, pos, ℕ, ◌-◌, ◌*◌, ◌%◌, Bool, false, ◌&&◌, ◌||◌,
  not, Option, none, some, List, [], ◌∷◌,
}
use general_api.Model.{UsageLog, ModelPrices}
use general_api.Cost.Usage.{Usage, apply_usage}
use general_api.Coord.{Mem, set_cooldown, backoff, mark_quota_cooling}
use general_api.Breaker.{Breaker, record_success, record_failure}
use general_api.Candidate.{Candidate, key_scope}

pub record Config : Type 0 where
  pub key_cooldown : ℤ
  pub vendor_wide : Bool  -- KeyCooldownScope == "channel"
  pub max_candidates : ℕ  -- 0: no limit
  pub retry_key_codes : ℕ → Bool
  pub disable_key_codes : ℕ → Bool
  pub retry_channel_codes : ℕ → Bool

-- What follows the header of an answer.
pub record Body : Type 0 where
  pub quota_code : Bool  -- Quota429Code of the error body is not empty
  pub retry_after : ℤ  -- parseRetryAfter of the header
  pub usage : Option Usage
  pub gone : Bool  -- the stream writer saw the client go
  pub read_error : Bool
  pub translate_error : Bool

pub data Reply : Type 0 where
  queue_timeout build_error : Reply
  net_error : Bool → Reply  -- whether it is a timeout
  answer : ℕ → Body → Reply

pub record Turn : Type 0 where
  pub now : ℕ
  pub gone_before : Bool  -- the client has gone when the loop reaches the candidate
  pub client_gone : Bool  -- the client has gone when the attempt ends
  pub reply : Reply

pub record Flags : Type 0 where
  pub only_rate_limited : Bool
  pub auth_only : Bool
  pub quota_only : Bool
  pub timeout_only : Bool
  pub cool_applied : ℤ

-- What an attempt starts outside the request.
pub data Effect : Type 0 where
  disable_key : ℕ → ℕ → ℕ → Effect
  disable_channel : ℕ → Effect

pub record World : Type 0 where
  pub mem : Mem
  pub breaker : Breaker
  pub effects : List Effect
  pub flags : Flags
  pub rec : UsageLog

pub data AttemptResult : Type 0 where
  done next_key next_channel panicked : AttemptResult

abbrev pub second : ℕ
second = 1000000000

-- `minuteAlignedCooldown`
unfoldable pub minute_aligned_cooldown : ℕ → ℤ → ℤ
minute_aligned_cooldown now cap =
    let d = pos (60 * second - now % (60 * second)) in
    if ltb_ℤ cap d then cap else if ltb_ℤ d (pos second) then pos second else d

abbrev pub max_cooldown : ℤ → ℤ → ℤ
max_cooldown a d = if ltb_ℤ a d then d else a

-- `coolKeys`: the key itself and, vendor-wide, the vendor's other keys among the candidates.
unfoldable pub cool_others : ℤ → Candidate → ℤ → List Candidate → Mem → Mem
cool_others now cur d [] m = m
cool_others now cur d (c ∷ cs) m = cool_others now cur d cs (
    if c.vendor_id == cur.vendor_id && not (c.key_id == cur.key_id)
    then set_cooldown now (key_scope c) d m
    else m)

unfoldable pub cool_keys : Config → ℤ → List Candidate → Candidate → ℤ → Mem → Mem
unfolding cool_others
cool_keys cfg now cands cur d m =
    let m' = set_cooldown now (key_scope cur) d m in
    if cfg.vendor_wide then cool_others now cur d cands m' else m'

-- `noteChannelFailure`
unfoldable pub note_channel_failure : Candidate → World → World
note_channel_failure c w =
    let r = record_failure c.channel_id w.breaker in
    record w {
      breaker = r.1;
      effects = (if r.0 then disable_channel c.channel_id ∷ w.effects else w.effects);
    }

abbrev pub no_cause : Flags → Flags
no_cause f = record f {
  only_rate_limited = false;
  auth_only = false;
  quota_only = false;
  timeout_only = false;
}

-- 24 hours
abbrev pub quota_cooldown_max : ℤ
quota_cooldown_max = pos (86400 * second)

-- A 429 (or another code of its table): the quota of the key's account, or a rate limit.
unfoldable pub on_retry_key : Config → List Candidate → Candidate → ℕ → Body → World → World
on_retry_key cfg cands cand now body w =
    if body.quota_code
    then (let r = backoff (pos now) (key_scope cand) cfg.key_cooldown quota_cooldown_max w.mem in
        record w {
          mem = mark_quota_cooling (pos now) (key_scope cand) r.0 r.1;
          flags = record w.flags {
            auth_only = false;
            timeout_only = false;
            cool_applied = max_cooldown w.flags.cool_applied r.0;
          };
        })
    else (let cd =
          (if leb_ℤ body.retry_after (pos 0)
            then minute_aligned_cooldown now cfg.key_cooldown
            else body.retry_after) in
        record w {
          mem = cool_keys cfg (pos now) cands cand cd w.mem;
          flags = record w.flags {
            auth_only = false;
            quota_only = false;
            timeout_only = false;
            cool_applied = max_cooldown w.flags.cool_applied cd;
          };
        })

-- The costs of a delivered answer; a panic of the billing kernel ends the request.
abbrev pub charge : Option Usage → ModelPrices → World → AttemptResult × World
charge usage m w = elim (apply_usage w.rec usage m) [
  | none ↦ (panicked, w)
  | some rec ↦ (done, record w { rec = rec })
]

abbrev pub client_left : Bool → UsageLog → UsageLog
client_left gone rec = if gone then record rec { status = 499 } else rec

-- A stream is passed on block by block.
unfoldable pub deliver_stream :
    Candidate → ℕ → Bool → Body → ModelPrices → World → AttemptResult × World
deliver_stream cand code client_gone body m w =
    let w1 =
      (if body.read_error && not body.gone && not client_gone
        then note_channel_failure cand w
        else w) in
    let w2 = record w1 { rec = client_left (body.gone || client_gone) w1.rec } in
    let w3 =
      (if not body.read_error && ltb code 300
        then record w2 { breaker = record_success cand.channel_id w2.breaker }
        else w2) in
    charge body.usage m w3

unfoldable pub give_up_channel : Candidate → World → AttemptResult × World
give_up_channel cand w =
    (next_channel, note_channel_failure cand (record w { flags = no_cause w.flags }))

-- Anything else is read whole first.
unfoldable pub deliver_whole :
    Candidate → ℕ → Bool → Body → ModelPrices → World → AttemptResult × World
deliver_whole cand code client_gone body m w =
    if body.read_error
    then (if client_gone
        then (done, record w { rec = record w.rec { status = 499 } })
        else give_up_channel cand w)
    else if leb 400 code
    then (done, w)
    else if body.translate_error
    then give_up_channel cand w
    else (let w1 = record w {
      rec = client_left client_gone w.rec;
      breaker = record_success cand.channel_id w.breaker;
    } in
        charge body.usage m w1)

unfoldable pub on_answer :
    Config
    → Bool
    → ModelPrices
    → List Candidate
    → Candidate
    → Turn
    → ℕ
    → Body
    → World
    → AttemptResult × World
on_answer cfg stream m cands cand turn code body w =
    if cfg.retry_key_codes code
    then (next_key, on_retry_key cfg cands cand turn.now body w)
    else if cfg.disable_key_codes code
    then (
      next_key,
      record w {
        effects = disable_key cand.vendor_id cand.key_id code ∷ w.effects;
        flags = record w.flags {
          only_rate_limited = false;
          quota_only = false;
          timeout_only = false;
        };
      },
    )
    else if cfg.retry_channel_codes code
    then give_up_channel cand w
    else (let w1 = record w {
      rec = record w.rec { channel_id = some cand.channel_id; status = code };
    } in
        if stream
        then deliver_stream cand code turn.client_gone body m w1
        else deliver_whole cand code turn.client_gone body m w1)

-- A connection that fails: the client's doing, or the channel's.
unfoldable pub on_net_error : Candidate → Bool → Bool → World → AttemptResult × World
on_net_error cand client_gone timeout w =
    if client_gone then (done, record w { rec = record w.rec { status = 499 } }) else (
      next_channel,
      note_channel_failure cand (record w {
        flags = record w.flags {
          only_rate_limited = false;
          auth_only = false;
          quota_only = false;
          timeout_only = w.flags.timeout_only && timeout;
        };
      }),
    )

-- `tryCandidate`
unfoldable pub try_reply :
    Config
    → Bool
    → ModelPrices
    → List Candidate
    → Candidate
    → Turn
    → Reply
    → World
    → AttemptResult × World
try_reply cfg stream m cands cand turn queue_timeout w =
    (next_channel, record w { flags = no_cause w.flags })
try_reply cfg stream m cands cand turn build_error w =
    (next_key, record w { flags = no_cause w.flags })
try_reply cfg stream m cands cand turn (net_error timeout) w =
    on_net_error cand turn.client_gone timeout w
try_reply cfg stream m cands cand turn (answer code body) w =
    on_answer cfg stream m cands cand turn code body w

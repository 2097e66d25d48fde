-- ===== src/Relay/Loop/Causes.antt =====
-- Why a request failed: the answer is determined by the attempts that were made.
use general_api.Base.{
  if◌then◌else◌, ℕ, ◌≡◌, refl, Bool, true, false, ◌&&◌, Option, some, List, [], ◌∷◌, arith,
}
use general_api.Model.{ModelPrices}
use general_api.Candidate.{Candidate}
use general_api.Cost.Usage.{Usage}
use general_api.Breaker.{record_success}
use general_api.Relay.{
  charge, client_left, no_cause, Config, Turn, Reply, Body, World, Flags, AttemptResult, next_key,
  next_channel, try_reply, queue_timeout, build_error, net_error, answer, on_answer, on_net_error,
  on_retry_key, give_up_channel, deliver_stream, deliver_whole, note_channel_failure,
}

-- Why an attempt failed, read off its reply alone.
pub data Cause : Type 0 where
  quota rate auth timeout other : Cause

unfoldable pub cause_of : Config → Reply → Cause
cause_of cfg queue_timeout = other
cause_of cfg build_error = other
cause_of cfg (net_error t) = if t then timeout else other
cause_of cfg (answer code body) =
    if cfg.retry_key_codes code
    then (if body.quota_code then quota else rate)
    else if cfg.disable_key_codes code
    then auth
    else other

abbrev pub is_quota : Cause → Bool
is_quota quota = true
is_quota _ = false

abbrev pub is_timeout : Cause → Bool
is_timeout timeout = true
is_timeout _ = false

abbrev pub is_auth : Cause → Bool
is_auth auth = true
is_auth _ = false

abbrev pub is_rate : Cause → Bool
is_rate rate = true
is_rate quota = true
is_rate _ = false

-- Every attempt failed for such a cause.
abbrev pub every : Config → (Cause → Bool) → List Turn → Bool
every cfg p [] = true
every cfg p (t ∷ ts) = p (cause_of cfg t.reply) && every cfg p ts

pub record Agrees (cfg : Config) (f : Flags) (tries : List Turn) : Type 0 where
  pub quota_flag : f.quota_only ≡ every cfg is_quota tries
  pub timeout_flag : f.timeout_only ≡ every cfg is_timeout tries
  pub rate_flag : f.only_rate_limited ≡ every cfg is_rate tries
  pub auth_flag : f.auth_only ≡ every cfg is_auth tries

abbrev pub moves_on : AttemptResult → Bool
moves_on next_key = true
moves_on next_channel = true
moves_on _ = false

note-flags : (c : Candidate) (w : World) → (note_channel_failure c w).flags ≡ w.flags
unfolding note_channel_failure
note-flags c w = refl

retry_key-flags :
    (cfg : Config) (cands : List Candidate) (cand : Candidate) (now : ℕ) (body : Body) (w : World)
    → let f = (on_retry_key cfg cands cand now body w).flags in
      (f.quota_only ≡ (w.flags.quota_only && body.quota_code))
      × (f.timeout_only ≡ false)
      × (f.only_rate_limited ≡ w.flags.only_rate_limited)
      × (f.auth_only ≡ false)
unfolding on_retry_key
retry_key-flags cfg cands cand now body w = ground arith

charge_stays :
    (usage : Option Usage) (m : ModelPrices) (w : World) → moves_on (charge usage m w).0 ≡ false
charge_stays usage m w = ground arith

stream_stays :
    (cand : Candidate) (code : ℕ) (gone : Bool) (body : Body) (m : ModelPrices) (w : World)
    → moves_on (deliver_stream cand code gone body m w).0 ≡ false
unfolding deliver_stream
stream_stays cand code gone body m w = charge_stays _ m _

give_up-flags : (cand : Candidate) (w : World) → (give_up_channel cand w).1.flags ≡ no_cause w.flags
unfolding give_up_channel
give_up-flags cand w = note-flags cand (record w { flags = no_cause w.flags })

whole-flags :
    (cand : Candidate) (code : ℕ) (gone : Bool) (body : Body) (m : ModelPrices) (w : World)
    → moves_on (deliver_whole cand code gone body m w).0 ≡ true
    → (deliver_whole cand code gone body m w).1.flags ≡ no_cause w.flags
unfolding deliver_whole
whole-flags cand code gone body m w h = ground (
  arith,
  give_up-flags cand w,
  charge_stays body.usage m (record w {
    rec = client_left gone w.rec;
    breaker = record_success cand.channel_id w.breaker;
  }),
)

module _ (cfg : Config) (stream : Bool) (m : ModelPrices) (cands : List Candidate) where
  answer-flags :
      (cand : Candidate) (turn : Turn) (code : ℕ) (body : Body) (w : World)
      → moves_on (on_answer cfg stream m cands cand turn code body w).0 ≡ true
      → let f = (on_answer cfg stream m cands cand turn code body w).1.flags in
        let c = cause_of cfg (answer code body) in
        (f.quota_only ≡ (is_quota c && w.flags.quota_only))
        × (f.timeout_only ≡ (is_timeout c && w.flags.timeout_only))
        × (f.only_rate_limited ≡ (is_rate c && w.flags.only_rate_limited))
        × (f.auth_only ≡ (is_auth c && w.flags.auth_only))
  unfolding on_answer cause_of
  answer-flags cand turn code body w h =
      let w1 : World = record w {
        rec = record w.rec { channel_id = some cand.channel_id; status = code };
      } in
      ground (
        arith,
        retry_key-flags cfg cands cand turn.now body w,
        give_up-flags cand w,
        stream_stays cand code turn.client_gone body m w1,
        whole-flags cand code turn.client_gone body m w1,
      )

  pub try-Agrees :
      (cand : Candidate) (turn : Turn) (reply : Reply) (w : World)
      → moves_on (try_reply cfg stream m cands cand turn reply w).0 ≡ true
      → let f = (try_reply cfg stream m cands cand turn reply w).1.flags in
        let c = cause_of cfg reply in
        (f.quota_only ≡ (is_quota c && w.flags.quota_only))
        × (f.timeout_only ≡ (is_timeout c && w.flags.timeout_only))
        × (f.only_rate_limited ≡ (is_rate c && w.flags.only_rate_limited))
        × (f.auth_only ≡ (is_auth c && w.flags.auth_only))
  unfolding try_reply cause_of on_net_error
  try-Agrees cand turn queue_timeout w h = ground arith
  try-Agrees cand turn build_error w h = ground arith
  try-Agrees cand turn (net_error t) w h = ground (
    arith,
    note-flags cand (record w {
      flags = record w.flags {
        only_rate_limited = false;
        auth_only = false;
        quota_only = false;
        timeout_only = w.flags.timeout_only && t;
      };
    }),
  )
  try-Agrees cand turn (answer code body) w h = answer-flags cand turn code body w h

-- ===== src/Relay/Loop.antt =====
-- The loop of `relay` over its candidates, and the answer when none of them could serve.
pub mod Billing
pub mod Bills
pub mod Causes
pub mod Failures
pub mod Limits
pub mod Payers
use general_api.Base.{
  ltb, leb, ◌==◌, if◌then◌else◌, ltb→lt, lt→ltb, leb→le, ==_iff, Bool-cases, Option-cases, if_intro,
  length, length-append, All, All-append, ℤ, pos_part, neg_part, sub_ℕ, ◌+ℤ◌, ◌-ℤ◌, ◌≤ℤ◌, ◌<ℤ◌,
  ltb_ℤ, leb_ℤ, eqb_ℤ, +ℤ_parts, -ℤ_parts, eq_of_parts, int_laws, +ℤ_comm, +ℤ_assoc, +ℤ_zero,
  InRange, in_range, bits64, signed64, wrap64, wrap64-InRange, eqb_ℤ→eq, pos, negsuc, ℕ, zero, suc,
  ◌+◌, ◌-◌, ◌*◌, ◌/◌, ◌%◌, ◌^◌, ◌≤◌, ◌<◌, min, max, String, ◌≡◌, refl, sym, ap, subst, ◌∙◌, ◌≢◌,
  ◌↔◌, ◌⊎◌, inl, inr, Bool, true, false, ◌&&◌, ◌||◌, not, Option, none, some, List, [], ◌∷◌, ◌++◌,
  map, filter, append_assoc, append-nil, arith, str_eq, eq_iff, dec_lt, dec_le, ℕ_discrete,
}
use general_api.Model.{ModelPrices}
use general_api.Coord.{is_cooling, is_quota_cooling}
use general_api.Candidate.{Candidate, key_scope}
use general_api.Relay.{
  Config, Turn, World, Flags, AttemptResult, done, next_key, next_channel, panicked, try_reply,
  second,
}

-- The counters of the loop, with two traces that the code does not keep: `tries` holds the turns at
-- which an attempt was made, the newest first, and `visited` the candidates that were tried or
-- passed over, the oldest first.
pub record Progress : Type 0 where
  pub tried : ℕ
  pub skipped : ℕ
  pub skipped_quota : ℕ
  pub tries : List Turn
  pub visited : List Candidate

pub data Ending : Type 0 where
  answered left failed crashed : Ending

pub record Outcome : Type 0 where
  pub ending : Ending
  pub progress : Progress
  pub world : World

-- Where one round of the loop leaves it: at an end, or at the next candidate, skipping those of a
-- channel.
pub data Move : Type 0 where
  stop : Ending → Progress → World → Move
  go : Option ℕ → Progress → World → Move

abbrev after_move : Move → (Option ℕ → Progress → World → Outcome) → Outcome
after_move (stop e p w) rest = record { ending = e; progress = p; world = w }
after_move (go skip p w) rest = rest skip p w

skips : Option ℕ → Candidate → Bool
skips none c = false
skips (some ch) c = c.channel_id == ch

after_try : Candidate → Progress → AttemptResult × World → Move
after_try cand p (done, w) = stop answered p w
after_try cand p (panicked, w) = stop crashed p w
after_try cand p (next_key, w) = go none p w
after_try cand p (next_channel, w) = go (some cand.channel_id) p w

abbrev pub no_progress : Progress
no_progress = record { tried = 0; skipped = 0; skipped_quota = 0; tries = []; visited = [] }

module _ (cfg : Config) (stream : Bool) (m : ModelPrices) (cands : List Candidate) where
  -- A key that cools meanwhile is passed over.
  pass_over : Candidate → Turn → Progress → World → Move
  pass_over cand turn p w =
      let r =
        is_quota_cooling (pos turn.now) (key_scope cand)
          (is_cooling (pos turn.now) (key_scope cand) w.mem).1 in
      go none
        (record p {
          skipped = p.skipped + 1;
          skipped_quota = (if r.0 then p.skipped_quota + 1 else p.skipped_quota);
          visited = p.visited ++ (cand ∷ []);
        })
        (record w { mem = r.1 })

  attempt : Candidate → Turn → Progress → World → Move
  attempt cand turn p w =
      after_try cand
        (record p {
          tried = p.tried + 1;
          tries = turn ∷ p.tries;
          visited = p.visited ++ (cand ∷ []);
        })
        (try_reply cfg stream m cands cand turn turn.reply w)

  pub visit : Candidate → Turn → Option ℕ → Progress → World → Move
  unfolding skips after_try pass_over attempt
  visit cand turn skip p w =
      if skips skip cand
      then go skip p w
      else if turn.gone_before
      then stop left p (record w { rec = record w.rec { status = 499 } })
      else (let r = is_cooling (pos turn.now) (key_scope cand) w.mem in
          if r.0
          then pass_over cand turn p w
          else (let w1 = record w { mem = r.1 } in
              if ltb 0 cfg.max_candidates && leb cfg.max_candidates p.tried
              then stop failed p w1
              else attempt cand turn p w1))

  -- `turns i` is what happens at the i-th candidate.
  pub loop : List Candidate → ℕ → (ℕ → Turn) → Option ℕ → Progress → World → Outcome
  unfolding visit
  loop [] i turns skip p w = record { ending = failed; progress = p; world = w }
  loop (c ∷ cs) i turns skip p w =
      after_move (visit c (turns i) skip p w) (λ skip' p' w'. loop cs (i + 1) turns skip' p' w')

  unfoldable pub run : (ℕ → Turn) → World → Outcome
  unfolding loop
  run turns w = loop cands 0 turns none no_progress w

abbrev pub start_flags : Flags
start_flags = record {
  only_rate_limited = true;
  auth_only = true;
  quota_only = true;
  timeout_only = true;
  cool_applied = pos 0;
}

-- The five answers to a request that no candidate could serve.
pub data Failure : Type 0 where
  upstream_quota_exceeded upstream_timeout upstream_busy channel_key_invalid upstream_error :
      Failure

abbrev pub status_code : Failure → ℕ
status_code upstream_quota_exceeded = 402
status_code upstream_timeout = 504
status_code upstream_busy = 429
status_code channel_key_invalid = 503
status_code upstream_error = 502

unfoldable pub conclude : Flags → Progress → Failure
conclude f p =
    if f.quota_only && p.skipped == p.skipped_quota && (ltb 0 p.tried || ltb 0 p.skipped)
    then upstream_quota_exceeded
    else if f.timeout_only
    then upstream_timeout
    else if f.only_rate_limited
    then upstream_busy
    else if f.auth_only
    then channel_key_invalid
    else upstream_error

-- The seconds of the Retry-After header of a 429: `ra` and `writeRetryAfter`.
unfoldable pub retry_after : Config → Flags → ℕ
retry_after cfg f =
    let d = (if leb_ℤ f.cool_applied (pos 0) then cfg.key_cooldown else f.cool_applied) in
    max 1 ((pos_part d + (second - 1)) / second)

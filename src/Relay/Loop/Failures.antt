-- ===== src/Relay/Loop/Failures.antt =====
-- The answer to a request that no candidate served is determined by its attempts.
use general_api.Base.{
  ltb, leb, ◌==◌, if◌then◌else◌, if_intro, pos, ℕ, ◌+◌, ◌<◌, ◌≡◌, refl, ap, ◌∙◌, Bool, true, ◌&&◌,
  ◌||◌, Option, none, List, [], ◌∷◌, ◌++◌, arith,
}
use general_api.Model.{ModelPrices}
use general_api.Coord.{is_cooling}
use general_api.Candidate.{Candidate, key_scope}
use general_api.Relay.{
  Config, Turn, World, Flags, AttemptResult, done, next_key, next_channel, panicked, try_reply,
}
use general_api.Relay.Loop.{
  upstream_error, channel_key_invalid, upstream_busy, upstream_timeout, upstream_quota_exceeded,
  no_progress, status_code, Failure, run, conclude, start_flags, after_move, Progress, Outcome,
  answered, left, failed, crashed, Move, stop, go, visit, loop, after_try, attempt, skips,
}
use general_api.Relay.Loop.Causes.{
  Agrees, every, is_quota, is_timeout, is_rate, is_auth, moves_on, try-Agrees,
}

module _ (cfg : Config) (stream : Bool) (m : ModelPrices) (cands : List Candidate) where
  -- What a round keeps, where the request goes on or fails.
  Kept : Move → Type 0
  Kept (stop answered p w) = Unit
  Kept (stop crashed p w) = Unit
  Kept (stop left p w) = Unit
  Kept (stop failed p w) = Agrees cfg w.flags p.tries
  Kept (go s p w) = Agrees cfg w.flags p.tries

  after_try-Kept :
      (cand : Candidate) (p : Progress) (r : AttemptResult × World)
      → (moves_on r.0 ≡ true → Agrees cfg r.1.flags p.tries)
      → Kept (after_try cand p r)
  unfolding after_try Kept
  after_try-Kept cand p (done, w) h = tt
  after_try-Kept cand p (panicked, w) h = tt
  after_try-Kept cand p (next_key, w) h = h refl
  after_try-Kept cand p (next_channel, w) h = h refl

  attempt-Kept :
      (cand : Candidate) (turn : Turn) (p : Progress) (w : World)
      → Agrees cfg w.flags p.tries
      → Kept (attempt cfg stream m cands cand turn p w)
  unfolding attempt
  attempt-Kept cand turn p w a =
      after_try-Kept cand
        (record p {
          tried = p.tried + 1;
          tries = turn ∷ p.tries;
          visited = p.visited ++ (cand ∷ []);
        })
        (try_reply cfg stream m cands cand turn turn.reply w)
        (λ h.
          let (q, t, r, u) = try-Agrees cfg stream m cands cand turn turn.reply w h in
          record {
            quota_flag = ground arith;
            timeout_flag = ground arith;
            rate_flag = ground arith;
            auth_flag = ground arith;
          })

  visit-Kept :
      (cand : Candidate) (turn : Turn) (skip : Option ℕ) (p : Progress) (w : World)
      → Agrees cfg w.flags p.tries
      → Kept (visit cfg stream m cands cand turn skip p w)
  unfolding visit Kept
  visit-Kept cand turn skip p w a =
      let mem1 = (is_cooling (pos turn.now) (key_scope cand) w.mem).1 in
      if_intro Kept (skips skip cand) _ _ (λ e. a)
        (λ e.
          if_intro Kept turn.gone_before _ _ (λ f. tt)
            (λ f.
              if_intro Kept (is_cooling (pos turn.now) (key_scope cand) w.mem).0 _ _
                (λ g. record {
                  quota_flag = a.quota_flag;
                  timeout_flag = a.timeout_flag;
                  rate_flag = a.rate_flag;
                  auth_flag = a.auth_flag;
                })
                (λ g.
                  if_intro Kept (ltb 0 cfg.max_candidates && leb cfg.max_candidates p.tried) _ _
                    (λ b. a) (λ b. attempt-Kept cand turn p (record w { mem = mem1 }) a))))

  -- One round, and the rest of the loop.
  ended :
      (mv : Move) (rest : Option ℕ → Progress → World → Outcome)
      → Kept mv
      → ((skip : Option ℕ) (p : Progress) (w : World)
          → Agrees cfg w.flags p.tries
          → (rest skip p w).ending ≡ failed
          → Agrees cfg (rest skip p w).world.flags (rest skip p w).progress.tries)
      → let o = after_move mv rest in o.ending ≡ failed → Agrees cfg o.world.flags o.progress.tries
  unfolding Kept
  ended (stop answered p w) rest k ih h = absurd (ground arith)
  ended (stop crashed p w) rest k ih h = absurd (ground arith)
  ended (stop left p w) rest k ih h = absurd (ground arith)
  ended (stop failed p w) rest k ih h = k
  ended (go skip p w) rest k ih h = ih skip p w k h

  -- A loop that ends without an answer has flags that agree with its attempts.
  loop-Agrees :
      (cs : List Candidate) (i : ℕ) (turns : ℕ → Turn) (skip : Option ℕ) (p : Progress) (w : World)
      → Agrees cfg w.flags p.tries
      → let o = loop cfg stream m cands cs i turns skip p w in
        o.ending ≡ failed → Agrees cfg o.world.flags o.progress.tries
  unfolding loop
  loop-Agrees [] i turns skip p w a h = a
  loop-Agrees (c ∷ cs) i turns skip p w a h =
      ended (visit cfg stream m cands c (turns i) skip p w)
        (loop cfg stream m cands cs (i + 1) turns) (visit-Kept c (turns i) skip p w a)
        (λ skip' p' w' a' h'. loop-Agrees cs (i + 1) turns skip' p' w' a' h') h

-- The answer that the attempts call for: 402 if each failed for its quota and each key that was
-- passed over cooled for its quota, 504 if each timed out, 429 if each was limited by rate or
-- quota, 503 if each was refused for its key, and else 502.
abbrev pub failure_of : Config → Progress → Failure
failure_of cfg p =
    if every cfg is_quota p.tries
      && p.skipped == p.skipped_quota
      && (ltb 0 p.tried || ltb 0 p.skipped)
    then upstream_quota_exceeded
    else if every cfg is_timeout p.tries
    then upstream_timeout
    else if every cfg is_rate p.tries
    then upstream_busy
    else if every cfg is_auth p.tries
    then channel_key_invalid
    else upstream_error

conclude-Agrees :
    (cfg : Config) (f : Flags) (p : Progress)
    → Agrees cfg f p.tries
    → conclude f p ≡ failure_of cfg p
unfolding conclude
conclude-Agrees cfg f p a = rw (a.quota_flag, a.timeout_flag, a.rate_flag, a.auth_flag)

-- When no candidate served a request that began with all four flags set, the answer is the one that
-- the replies to its attempts call for: the flags that the attempts clear one by one amount to
-- that.
pub run-failure_of :
    (cfg : Config) (stream : Bool) (m : ModelPrices) (cands : List Candidate) (turns : ℕ → Turn)
    (w : World)
    → w.flags ≡ start_flags
    → let o = run cfg stream m cands turns w in
      o.ending ≡ failed → conclude o.world.flags o.progress ≡ failure_of cfg o.progress
unfolding run
run-failure_of cfg stream m cands turns w s h = conclude-Agrees cfg _ _ (
    loop-Agrees cfg stream m cands cands 0 turns none no_progress w
      (record {
        quota_flag = ap (λ f. f.quota_only) s;
        timeout_flag = ap (λ f. f.timeout_only) s;
        rate_flag = ap (λ f. f.only_rate_limited) s;
        auth_flag = ap (λ f. f.auth_only) s;
      })
      h)

timed_out :
    (cfg : Config) (p : Progress)
    → p.tries ≡ []
    → p.skipped_quota < p.skipped
    → status_code (failure_of cfg p) ≡ 504
timed_out cfg p e h = ground arith

-- A request that found every key cooling, not each for its quota, and so made no attempt, is
-- answered 504 as if it had timed out.
pub run_all_cooling :
    (cfg : Config) (stream : Bool) (m : ModelPrices) (cands : List Candidate) (turns : ℕ → Turn)
    (w : World)
    → w.flags ≡ start_flags
    → let o = run cfg stream m cands turns w in
      o.ending ≡ failed
      → o.progress.tries ≡ []
      → o.progress.skipped_quota < o.progress.skipped
      → status_code (conclude o.world.flags o.progress) ≡ 504
run_all_cooling cfg stream m cands turns w s h t k =
    let e = run-failure_of cfg stream m cands turns w s h in
    ap status_code e ∙ timed_out cfg (run cfg stream m cands turns w).progress t k

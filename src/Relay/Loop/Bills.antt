-- ===== src/Relay/Loop/Bills.antt =====
-- The bill of a request, however the loop ends.
use general_api.Base.{
  ltb, leb, if_intro, pos, ℕ, ◌+◌, refl, Bool, true, ◌&&◌, Option, none, some, List, [], ◌∷◌, ◌++◌,
}
use general_api.Model.{UsageLog, ModelPrices}
use general_api.Coord.{is_cooling}
use general_api.Candidate.{Candidate, key_scope}
use general_api.Relay.{
  Reply, answer, queue_timeout, build_error, net_error, Config, Turn, World, Body, AttemptResult,
  done, next_key, next_channel, panicked, try_reply, on_answer, on_net_error, on_retry_key,
}
use general_api.Relay.Loop.{
  Ending, answered, left, crashed, failed, Progress, visit, after_try, skips, run, no_progress,
}
use general_api.Relay.Loop.Billing.{on_retry_key-rec}
use general_api.Relay.Loop.Limits.{Holds, loop_inv}
use general_api.Relay.Loop.Payers.{
  SamePayer, Billed, unpriced, Carries, Result-Billed, same_rec, noted, left-Carries, restamped,
  stream-Billed, gives_up, whole-Billed,
}

module _ (cfg : Config) (stream : Bool) (m : ModelPrices) (cands : List Candidate)
    (old : UsageLog) where
  retry-Carries :
      (cand : Candidate) (now : ℕ) (body : Body) (w : World)
      → Carries old w
      → Carries old (on_retry_key cfg cands cand now body w)
  retry-Carries cand now body w c = same_rec old w _ (on_retry_key-rec cfg cands cand now body w) c

  answer-Billed :
      (cand : Candidate) (turn : Turn) (code : ℕ) (body : Body) (w : World)
      → Carries old w
      → Result-Billed old m (on_answer cfg stream m cands cand turn code body w)
  unfolding on_answer
  answer-Billed cand turn code body w c =
      let R = Result-Billed old m in
      let c1 = restamped old code (some cand.channel_id) w c in
      if_intro R (cfg.retry_key_codes code) _ _ (λ e. retry-Carries cand turn.now body w c)
        (λ e.
          if_intro R (cfg.disable_key_codes code) _ _ (λ e. same_rec old w _ refl c)
            (λ e.
              if_intro R (cfg.retry_channel_codes code) _ _ (λ e. gives_up old cand m w c)
                (λ e.
                  if_intro R stream _ _
                    (λ e. stream-Billed old cand code turn.client_gone body m _ c1)
                    (λ e. whole-Billed old cand code turn.client_gone body m _ c1))))

  net-Billed :
      (cand : Candidate) (gone timeout : Bool) (w : World)
      → Carries old w
      → Result-Billed old m (on_net_error cand gone timeout w)
  unfolding on_net_error
  net-Billed cand gone timeout w c =
      if_intro (Result-Billed old m) gone _ _
        (λ e. (let c1 = left-Carries old true w c in (c1.payer, unpriced c1.same_cost)))
        (λ e. noted old cand _ (same_rec old w _ refl c))

  try-Billed :
      (cand : Candidate) (turn : Turn) (reply : Reply) (w : World)
      → Carries old w
      → Result-Billed old m (try_reply cfg stream m cands cand turn reply w)
  unfolding try_reply
  try-Billed cand turn queue_timeout w c = same_rec old w _ refl c
  try-Billed cand turn build_error w c = same_rec old w _ refl c
  try-Billed cand turn (net_error timeout) w c = net-Billed cand turn.client_gone timeout w c
  try-Billed cand turn (answer code body) w c = answer-Billed cand turn code body w c

  abbrev Under : List Candidate → Progress → World → Type 0
  Under cs p w = Carries old w

  abbrev UnderEnd : Ending → Progress → World → Type 0
  UnderEnd answered p w = SamePayer old w.rec × Billed old m w.rec
  UnderEnd e p w = Carries old w

  after_try-Under :
      (cs : List Candidate) (cand : Candidate) (p : Progress) (r : AttemptResult × World)
      → Result-Billed old m r
      → Holds cfg stream m cands Under UnderEnd cs (after_try cand p r)
  unfolding after_try
  after_try-Under cs cand p (done, w) h = h
  after_try-Under cs cand p (panicked, w) h = h
  after_try-Under cs cand p (next_key, w) h = h
  after_try-Under cs cand p (next_channel, w) h = h

  visit-Under :
      (c : Candidate) (cs : List Candidate) (turn : Turn) (skip : Option ℕ) (p : Progress)
      (w : World)
      → Carries old w
      → Holds cfg stream m cands Under UnderEnd cs (visit cfg stream m cands c turn skip p w)
  unfolding visit
  visit-Under c cs turn skip p w h =
      let H = Holds cfg stream m cands Under UnderEnd cs in
      let w1 : World = record w { mem = (is_cooling (pos turn.now) (key_scope c) w.mem).1 } in
      let h1 = same_rec old w w1 refl h in
      if_intro H (skips skip c) _ _ (λ e. h)
        (λ e.
          if_intro H turn.gone_before _ _ (λ f. left-Carries old true w h)
            (λ f.
              if_intro H (is_cooling (pos turn.now) (key_scope c) w.mem).0 _ _
                (λ g. same_rec old w _ refl h)
                (λ g.
                  if_intro H (ltb 0 cfg.max_candidates && leb cfg.max_candidates p.tried) _ _
                    (λ b. h1)
                    (λ b.
                      after_try-Under cs c
                        (record p {
                          tried = p.tried + 1;
                          tries = turn ∷ p.tries;
                          visited = p.visited ++ (c ∷ []);
                        })
                        (try_reply cfg stream m cands c turn turn.reply w1)
                        (try-Billed c turn turn.reply w1 h1)))))

-- However the loop ends, the payer is that of its beginning, and the cost that of its beginning or
-- of a delivered usage at the given prices.
pub run-Billed :
    (cfg : Config) (stream : Bool) (m : ModelPrices) (cands : List Candidate) (turns : ℕ → Turn)
    (w : World)
    → let o = run cfg stream m cands turns w in
      SamePayer w.rec o.world.rec × Billed w.rec m o.world.rec
unfolding run
run-Billed cfg stream m cands turns w =
    let o = run cfg stream m cands turns w in
    ended o.ending (
      loop_inv cfg stream m cands (Under cfg stream m cands w.rec)
        (UnderEnd cfg stream m cands w.rec) (visit-Under cfg stream m cands w.rec) (λ p w h. h)
        cands 0 turns none no_progress w
        (record {
          payer = record { same_org = refl; same_user = refl; same_key = refl };
          same_cost = refl;
        }))
  where
    ended :
        (e : Ending)
        → UnderEnd cfg stream m cands w.rec e
            (run cfg stream m cands turns w).progress
            (run cfg stream m cands turns w).world
        → SamePayer w.rec (run cfg stream m cands turns w).world.rec
          × Billed w.rec m (run cfg stream m cands turns w).world.rec
    ended answered h = h
    ended left h = (h.payer, unpriced h.same_cost)
    ended crashed h = (h.payer, unpriced h.same_cost)
    ended failed h = (h.payer, unpriced h.same_cost)

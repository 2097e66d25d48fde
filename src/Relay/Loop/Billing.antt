-- ===== src/Relay/Loop/Billing.antt =====
-- The bill of a request along the loop.
use general_api.Base.{
  ltb, leb, if_intro, pos, ℕ, ◌+◌, ◌≡◌, refl, ◌⊎◌, Bool, true, false, ◌&&◌, Option, none, some,
  List, [], ◌∷◌, ◌++◌, arith,
}
use general_api.Model.{UsageLog, ModelPrices}
use general_api.Coord.{is_cooling}
use general_api.Candidate.{Candidate, key_scope}
use general_api.Breaker.{record_success}
use general_api.Cost.Usage.{Usage}
use general_api.Relay.{
  answer, queue_timeout, build_error, net_error, Reply, client_left, Body, no_cause, charge,
  on_answer, deliver_whole, on_net_error, give_up_channel, note_channel_failure, on_retry_key,
  deliver_stream, Config, Turn, World, AttemptResult, done, next_key, next_channel, panicked,
  try_reply,
}
use general_api.Relay.Loop.{
  no_progress, answered, left, crashed, run, Progress, Ending, failed, visit, after_try, skips,
}
use general_api.Relay.Loop.Limits.{Holds, loop_inv}

-- The bill in a record.
pub record SameBill (old new : UsageLog) : Type 0 where
  pub same_cost : new.cost ≡ old.cost
  pub same_vendor_cost : new.vendor_cost ≡ old.vendor_cost
  pub same_usage : new.no_usage ≡ old.no_usage
  pub same_prompt : new.prompt_tokens ≡ old.prompt_tokens
  pub same_completion : new.completion_tokens ≡ old.completion_tokens

note-rec : (c : Candidate) (w : World) → (note_channel_failure c w).rec ≡ w.rec
unfolding note_channel_failure
note-rec c w = refl

pub on_retry_key-rec :
    (cfg : Config) (cands : List Candidate) (cand : Candidate) (now : ℕ) (body : Body) (w : World)
    → (on_retry_key cfg cands cand now body w).rec ≡ w.rec
unfolding on_retry_key
on_retry_key-rec cfg cands cand now body w = ground arith

give_up-rec : (cand : Candidate) (w : World) → (give_up_channel cand w).1.rec ≡ w.rec
unfolding give_up_channel
give_up-rec cand w = note-rec cand (record w { flags = no_cause w.flags })

-- An attempt that moves on.
abbrev moves_on : AttemptResult → Bool
moves_on next_key = true
moves_on next_channel = true
moves_on _ = false

charge_stays :
    (usage : Option Usage) (m : ModelPrices) (w : World) → moves_on (charge usage m w).0 ≡ false
charge_stays usage m w = ground arith

whole-bill :
    (cand : Candidate) (code : ℕ) (gone : Bool) (body : Body) (m : ModelPrices) (w : World)
    → moves_on (deliver_whole cand code gone body m w).0 ≡ true
    → (deliver_whole cand code gone body m w).1.rec ≡ w.rec
unfolding deliver_whole
whole-bill cand code gone body m w h = ground (
  arith,
  give_up-rec cand w,
  charge_stays body.usage m (record w {
    rec = client_left gone w.rec;
    breaker = record_success cand.channel_id w.breaker;
  }),
)

stream_stays :
    (cand : Candidate) (code : ℕ) (gone : Bool) (body : Body) (m : ModelPrices) (w : World)
    → moves_on (deliver_stream cand code gone body m w).0 ≡ false
unfolding deliver_stream
stream_stays cand code gone body m w = charge_stays _ m _

module _ (cfg : Config) (stream : Bool) (m : ModelPrices) (cands : List Candidate) where
  try-bill :
      (cand : Candidate) (turn : Turn) (reply : Reply) (w : World)
      → moves_on (try_reply cfg stream m cands cand turn reply w).0 ≡ true
      → SameBill w.rec (try_reply cfg stream m cands cand turn reply w).1.rec
  unfolding try_reply on_net_error on_answer
  try-bill cand turn queue_timeout w h = ground arith
  try-bill cand turn build_error w h = ground arith
  try-bill cand turn (net_error t) w h = ground (
    arith,
    note-rec cand (record w {
      flags = record w.flags {
        only_rate_limited = false;
        auth_only = false;
        quota_only = false;
        timeout_only = w.flags.timeout_only && t;
      };
    }),
  )
  try-bill cand turn (answer code body) w h =
      let w1 : World = record w {
        rec = record w.rec { channel_id = some cand.channel_id; status = code };
      } in
      ground (
        arith,
        on_retry_key-rec cfg cands cand turn.now body w,
        give_up-rec cand w,
        stream_stays cand code turn.client_gone body m w1,
        whole-bill cand code turn.client_gone body m w1,
      )

  module _ (old : UsageLog) where
    -- Nothing is charged on the way.
    abbrev Unbilled : List Candidate → Progress → World → Type 0
    Unbilled cs p w = SameBill old w.rec

    abbrev UnbilledEnd : Ending → Progress → World → Type 0
    UnbilledEnd answered p w = Unit {0}
    UnbilledEnd crashed p w = Unit {0}
    UnbilledEnd left p w = SameBill old w.rec
    UnbilledEnd failed p w = SameBill old w.rec

    after_try-Unbilled :
        (cs : List Candidate) (cand : Candidate) (p : Progress) (r : AttemptResult × World)
        → (moves_on r.0 ≡ true → SameBill old r.1.rec)
        → Holds cfg stream m cands Unbilled UnbilledEnd cs (after_try cand p r)
    unfolding after_try
    after_try-Unbilled cs cand p (done, w) h = tt
    after_try-Unbilled cs cand p (panicked, w) h = tt
    after_try-Unbilled cs cand p (next_key, w) h = h refl
    after_try-Unbilled cs cand p (next_channel, w) h = h refl

    visit-Unbilled :
        (c : Candidate) (cs : List Candidate) (turn : Turn) (skip : Option ℕ) (p : Progress)
        (w : World)
        → SameBill old w.rec
        → Holds cfg stream m cands Unbilled UnbilledEnd cs
            (visit cfg stream m cands c turn skip p w)
    unfolding visit
    visit-Unbilled c cs turn skip p w h =
        let H = Holds cfg stream m cands Unbilled UnbilledEnd cs in
        let w1 : World = record w { mem = (is_cooling (pos turn.now) (key_scope c) w.mem).1 } in
        if_intro H (skips skip c) _ _ (λ e. h)
          (λ e.
            if_intro H turn.gone_before _ _ (λ f. ground arith)
              (λ f.
                if_intro H (is_cooling (pos turn.now) (key_scope c) w.mem).0 _ _ (λ g. h)
                  (λ g.
                    if_intro H (ltb 0 cfg.max_candidates && leb cfg.max_candidates p.tried) _ _
                      (λ b. h)
                      (λ b.
                        after_try-Unbilled cs c
                          (record p {
                            tried = p.tried + 1;
                            tries = turn ∷ p.tries;
                            visited = p.visited ++ (c ∷ []);
                          })
                          (try_reply cfg stream m cands c turn turn.reply w1)
                          (λ k. let s = try-bill c turn turn.reply w1 k in ground arith)))))

unbilled_free :
    (old : UsageLog) (cfg : Config) (stream : Bool) (m : ModelPrices) (cands : List Candidate)
    (e : Ending) (p : Progress) (w : World)
    → UnbilledEnd cfg stream m cands old e p w
    → (e ≡ failed) ⊎ (e ≡ left)
    → SameBill old w.rec
unbilled_free old cfg stream m cands answered p w k h = absurd (ground arith)
unbilled_free old cfg stream m cands crashed p w k h = absurd (ground arith)
unbilled_free old cfg stream m cands left p w k h = k
unbilled_free old cfg stream m cands failed p w k h = k

-- A request that no candidate answered, or whose client left before an attempt, is not charged: the
-- costs, the counts and the mark of a missing usage are those it began with, whatever the failed
-- attempts returned.
pub run_unanswered_free :
    (cfg : Config) (stream : Bool) (m : ModelPrices) (cands : List Candidate) (turns : ℕ → Turn)
    (w : World)
    → let o = run cfg stream m cands turns w in
      (o.ending ≡ failed) ⊎ (o.ending ≡ left) → SameBill w.rec o.world.rec
unfolding run
run_unanswered_free cfg stream m cands turns w h =
    let o = run cfg stream m cands turns w in
    unbilled_free w.rec cfg stream m cands o.ending o.progress o.world
      (loop_inv cfg stream m cands (Unbilled cfg stream m cands w.rec)
        (UnbilledEnd cfg stream m cands w.rec) (visit-Unbilled cfg stream m cands w.rec)
        (λ p w h. h) cands 0 turns none no_progress w
        (record {
          same_cost = refl;
          same_vendor_cost = refl;
          same_usage = refl;
          same_prompt = refl;
          same_completion = refl;
        }))
      h

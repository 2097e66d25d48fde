-- ===== src/Relay/Loop/Limits.antt =====
-- The rule by which a fact of every round is a fact of the loop, the counters it keeps and the
-- candidates it visits.
use general_api.Base.{
  ltb, leb, if_intro, length, length-append, pos, ℕ, ◌+◌, ◌≤◌, ◌<◌, ◌≡◌, refl, sym, ◌∙◌, Bool, ◌&&◌,
  Option, none, List, [], ◌∷◌, ◌++◌, append_assoc, arith,
}
use mathlib.Core.List.{sublist-append_left, Sublist, append_assoc}
use mathlib.Core.List.Sublist
use general_api.Model.{ModelPrices}
use general_api.Coord.{is_cooling}
use general_api.Candidate.{Candidate, key_scope}
use general_api.Relay.{
  Config, Turn, World, AttemptResult, done, next_key, next_channel, panicked, try_reply,
}
use general_api.Relay.Loop.{
  no_progress, run, after_move, Progress, Outcome, Ending, failed, Move, stop, go, visit, loop,
  after_try, skips,
}

module _ (cfg : Config) (stream : Bool) (m : ModelPrices) (cands : List Candidate)
    (P : List Candidate → Progress → World → Type 0) (Q : Ending → Progress → World → Type 0) where
  abbrev pub Holds : List Candidate → Move → Type 0
  Holds cs (stop e p w) = Q e p w
  Holds cs (go skip p w) = P cs p w

  ended :
      (cs : List Candidate) (mv : Move) (rest : Option ℕ → Progress → World → Outcome)
      → Holds cs mv
      → ((skip : Option ℕ) (p : Progress) (w : World)
          → P cs p w
          → Q (rest skip p w).ending (rest skip p w).progress (rest skip p w).world)
      → let o = after_move mv rest in Q o.ending o.progress o.world
  ended cs (stop e p w) rest k ih = k
  ended cs (go skip p w) rest k ih = ih skip p w k

  -- The rule of the loop.
  pub loop_inv :
      ((c : Candidate) (cs : List Candidate) (turn : Turn) (skip : Option ℕ) (p : Progress)
          (w : World)
        → P (c ∷ cs) p w
        → Holds cs (visit cfg stream m cands c turn skip p w))
      → ((p : Progress) (w : World) → P [] p w → Q failed p w)
      → (cs : List Candidate) (i : ℕ) (turns : ℕ → Turn) (skip : Option ℕ) (p : Progress)
        (w : World)
      → P cs p w
      → let o = loop cfg stream m cands cs i turns skip p w in Q o.ending o.progress o.world
  unfolding loop
  loop_inv step end [] i turns skip p w h = end p w h
  loop_inv step end (c ∷ cs) i turns skip p w h =
      ended cs (visit cfg stream m cands c (turns i) skip p w)
        (loop cfg stream m cands cs (i + 1) turns) (step c cs (turns i) skip p w h)
        (λ skip' p' w' h'. loop_inv step end cs (i + 1) turns skip' p' w' h')

-- The counters, with the candidates still to come.
record Counted (cfg : Config) (total : ℕ) (cs : List Candidate) (p : Progress) (w : World)
    : Type 0 where
  made : length p.tries ≡ p.tried
  budget : 0 < cfg.max_candidates → p.tried ≤ cfg.max_candidates
  each_once : p.tried + p.skipped + length cs ≤ total
  part : p.skipped_quota ≤ p.skipped
  visits : length p.visited ≡ p.tried + p.skipped

module _ (cfg : Config) (stream : Bool) (m : ModelPrices) (cands : List Candidate) (total : ℕ) where
  after_try-Counted :
      (cs : List Candidate) (cand : Candidate) (p : Progress) (r : AttemptResult × World)
      → ((w : World) → Counted cfg total cs p w)
      → Holds cfg stream m cands
          (Counted cfg total)
          (λ e. Counted cfg total [])
          cs
          (after_try cand p r)
  unfolding after_try
  after_try-Counted cs cand p (done, w) h = ground (arith, h w)
  after_try-Counted cs cand p (panicked, w) h = ground (arith, h w)
  after_try-Counted cs cand p (next_key, w) h = h w
  after_try-Counted cs cand p (next_channel, w) h = h w

  visit-Counted :
      (c : Candidate) (cs : List Candidate) (turn : Turn) (skip : Option ℕ) (p : Progress)
      (w : World)
      → Counted cfg total (c ∷ cs) p w
      → Holds cfg stream m cands
          (Counted cfg total)
          (λ e. Counted cfg total [])
          cs
          (visit cfg stream m cands c turn skip p w)
  unfolding visit
  visit-Counted c cs turn skip p w h =
      let one = length-append p.visited (c ∷ []) in
      let H = Holds cfg stream m cands (Counted cfg total) (λ e. Counted cfg total []) cs in
      if_intro H (skips skip c) _ _ (λ e. ground arith)
        (λ e.
          if_intro H turn.gone_before _ _ (λ f. ground arith)
            (λ f.
              if_intro H (is_cooling (pos turn.now) (key_scope c) w.mem).0 _ _
                (λ g. ground (arith, one))
                (λ g.
                  if_intro H (ltb 0 cfg.max_candidates && leb cfg.max_candidates p.tried) _ _
                    (λ b. ground arith)
                    (λ b.
                      after_try-Counted cs c
                        (record p {
                          tried = p.tried + 1;
                          tries = turn ∷ p.tries;
                          visited = p.visited ++ (c ∷ []);
                        })
                        (try_reply cfg stream m cands c turn turn.reply _)
                        (λ w'. ground (arith, one))))))

-- The candidates visited are some of those that are done, in their order; the rest are still to
-- come.
record Ordered (all : List Candidate) (cs : List Candidate) (p : Progress) (w : World)
    : Type 0 where
  past : List Candidate
  split : all ≡ past ++ cs
  among : Sublist p.visited past

Ordered-step :
    {all : List Candidate} (c : Candidate) (cs : List Candidate) (p q : Progress) (w v : World)
    → Ordered all (c ∷ cs) p w
    → Sublist q.visited (p.visited ++ (c ∷ []))
    → Ordered all cs q v
Ordered-step c cs p q w v h s = record {
  past = h.past ++ (c ∷ []);
  split = h.split ∙ sym (append_assoc h.past (c ∷ []) cs);
  among = Sublist.trans s (Sublist.append h.among (Sublist.refl (c ∷ [])));
}

Ordered-end :
    {all : List Candidate} (cs : List Candidate) (p : Progress) (w : World)
    → Ordered all cs p w
    → Sublist p.visited all
Ordered-end cs p w h = rw h.split (Sublist.trans h.among (sublist-append_left h.past cs))

module _ (cfg : Config) (stream : Bool) (m : ModelPrices) (cands : List Candidate)
    (all : List Candidate) where
  after_try-Ordered :
      (cs : List Candidate) (cand : Candidate) (p : Progress) (r : AttemptResult × World)
      → ((w : World) → Ordered all cs p w)
      → Holds cfg stream m cands
          (Ordered all)
          (λ e q v. Sublist q.visited all)
          cs
          (after_try cand p r)
  unfolding after_try
  after_try-Ordered cs cand p (done, w) h = Ordered-end cs p w (h w)
  after_try-Ordered cs cand p (panicked, w) h = Ordered-end cs p w (h w)
  after_try-Ordered cs cand p (next_key, w) h = h w
  after_try-Ordered cs cand p (next_channel, w) h = h w

  visit-Ordered :
      (c : Candidate) (cs : List Candidate) (turn : Turn) (skip : Option ℕ) (p : Progress)
      (w : World)
      → Ordered all (c ∷ cs) p w
      → Holds cfg stream m cands
          (Ordered all)
          (λ e q v. Sublist q.visited all)
          cs
          (visit cfg stream m cands c turn skip p w)
  unfolding visit
  visit-Ordered c cs turn skip p w h =
      let H = Holds cfg stream m cands (Ordered all) (λ e q v. Sublist q.visited all) cs in
      let over = Ordered-end (c ∷ cs) p w h in
      if_intro H (skips skip c) _ _
        (λ e. Ordered-step c cs p p w w h (sublist-append_left p.visited (c ∷ [])))
        (λ e.
          if_intro H turn.gone_before _ _ (λ f. over)
            (λ f.
              if_intro H (is_cooling (pos turn.now) (key_scope c) w.mem).0 _ _
                (λ g. Ordered-step c cs p _ w _ h (Sublist.refl _))
                (λ g.
                  if_intro H (ltb 0 cfg.max_candidates && leb cfg.max_candidates p.tried) _ _
                    (λ b. over)
                    (λ b.
                      after_try-Ordered cs c
                        (record p {
                          tried = p.tried + 1;
                          tries = turn ∷ p.tries;
                          visited = p.visited ++ (c ∷ []);
                        })
                        (try_reply cfg stream m cands c turn turn.reply _)
                        (λ w'. Ordered-step c cs p _ w w' h (Sublist.refl _))))))

-- However a request ends, the candidates that it tried or passed over are a sublist of its
-- candidates, so that it visits each at most once and in their order; there are as many as the
-- counters of both say; it makes at most max_candidates attempts where that is positive; and of
-- the keys passed over at most all cool for their quota.
pub run_counts :
    (cfg : Config) (stream : Bool) (m : ModelPrices) (cands : List Candidate) (turns : ℕ → Turn)
    (w : World)
    → let p = (run cfg stream m cands turns w).progress in
      (Sublist p.visited cands)
      × (length p.visited ≡ p.tried + p.skipped)
      × (length p.tries ≡ p.tried)
      × (0 < cfg.max_candidates → p.tried ≤ cfg.max_candidates)
      × (p.tried + p.skipped ≤ length cands)
      × (p.skipped_quota ≤ p.skipped)
unfolding run
run_counts cfg stream m cands turns w =
    let c =
      loop_inv cfg stream m cands (Counted cfg (length cands)) (λ e. Counted cfg (length cands) [])
        (visit-Counted cfg stream m cands (length cands)) (λ p w h. h) cands 0 turns none
        no_progress w
        (record {
          made = refl;
          budget = λ h. omega arith;
          each_once = omega arith;
          part = omega arith;
          visits = refl;
        }) in
    (ordered, c.visits, c.made, c.budget, omega (arith, c.each_once), c.part)
  where
    ordered : Sublist (run cfg stream m cands turns w).progress.visited cands
    ordered =
        loop_inv cfg stream m cands (Ordered cands) (λ e p w. Sublist p.visited cands)
          (visit-Ordered cfg stream m cands cands) (Ordered-end []) cands 0 turns none no_progress w
          (record { past = []; split = refl; among = Sublist.refl [] })

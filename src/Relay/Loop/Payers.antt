-- ===== src/Relay/Loop/Payers.antt =====
-- What a forwarded request is charged.
use general_api.Base.{
  ltb, leb, if◌then◌else◌, if_intro, ℤ, ℕ, ◌≡◌, refl, sym, ap, ◌∙◌, Bool, true, false, ◌&&◌, ◌||◌,
  not, Option, none, some, arith,
}
use general_api.Model.{UsageLog, ModelPrices}
use general_api.Candidate.{Candidate}
use general_api.Cost.Usage.{Usage, apply_usage, snapshot, price_snapshot}
use general_api.Breaker.{record_success}
use general_api.Relay.{
  World, Body, AttemptResult, done, give_up_channel, note_channel_failure, deliver_stream,
  deliver_whole, charge, client_left,
}

-- The same payer.
pub record SamePayer (old new : UsageLog) : Type 0 where
  pub same_org : new.org_id ≡ old.org_id
  pub same_user : new.user_id ≡ old.user_id
  pub same_key : new.api_key_id ≡ old.api_key_id

-- The bill of a record: the old one, or that of a usage at the prices of the request.
pub data Billed (old : UsageLog) (m : ModelPrices) (rec : UsageLog) : Type 0 where
  unpriced : rec.cost ≡ old.cost → Billed old m rec
  priced :
      (u : Usage) (base : UsageLog)
      → SamePayer old base
      → apply_usage base (some u) m ≡ some rec
      → Billed old m rec

-- The payer is that of the beginning, and the bill too as long as nothing is delivered.
pub record Carries (old : UsageLog) (w : World) : Type 0 where
  pub payer : SamePayer old w.rec
  pub same_cost : w.rec.cost ≡ old.cost

abbrev pub Result-Billed : UsageLog → ModelPrices → AttemptResult × World → Type 0
Result-Billed old m (done, w) = SamePayer old w.rec × Billed old m w.rec
Result-Billed old m (_, w) = Carries old w

costed-payer :
    (r rec' : UsageLog) (a b : Option ℤ)
    → elim a as (λ x. Option UsageLog) [
      | none ↦ none
      | some cost ↦ elim b [
        | none ↦ none
        | some vendor_cost ↦ some (record r { cost = cost; vendor_cost = vendor_cost })
      ]
    ]
      ≡ some rec'
    → SamePayer r rec'
costed-payer r rec' none b e = absurd (ground (arith, e))
costed-payer r rec' (some a) none e = absurd (ground (arith, e))
costed-payer r rec' (some a) (some b) e =
    let q : (f : UsageLog → ℕ) → f (record r { cost = a; vendor_cost = b }) ≡ f rec' =
      λ f. ap (λ (o : Option UsageLog). elim o [ none ↦ f rec' | some x ↦ f x ]) e in
    record {
      same_org = sym (q (λ x. x.org_id));
      same_user = sym (q (λ x. x.user_id));
      same_key = sym (q (λ x. x.api_key_id));
    }

priced-payer :
    (rec rec' : UsageLog) (u : Usage) (m : ModelPrices)
    → apply_usage rec (some u) m ≡ some rec'
    → SamePayer rec rec'
unfolding apply_usage price_snapshot snapshot
priced-payer rec rec' u m e =
    let s = costed-payer (snapshot rec u m) rec' _ _ e in
    record { same_org = s.same_org; same_user = s.same_user; same_key = s.same_key }

pub trans-payer : {a b c : UsageLog} → SamePayer a b → SamePayer b c → SamePayer a c
trans-payer p q = record {
  same_org = q.same_org ∙ p.same_org;
  same_user = q.same_user ∙ p.same_user;
  same_key = q.same_key ∙ p.same_key;
}

-- Delivering charges the usage, if there is one.
charge-Billed :
    (old : UsageLog) (m : ModelPrices) (usage : Option Usage) (w : World)
    → Carries old w
    → Result-Billed old m (charge usage m w)
unfolding apply_usage
charge-Billed old m none w c = (
  record {
    same_org = c.payer.same_org;
    same_user = c.payer.same_user;
    same_key = c.payer.same_key;
  },
  unpriced c.same_cost,
)
charge-Billed old m (some u) w c = go (apply_usage w.rec (some u) m) refl
  where
    go :
        (o : Option UsageLog)
        → apply_usage w.rec (some u) m ≡ o
        → Result-Billed old m (charge (some u) m w)
    go none e = rw (charge, e) c
    go (some rec) e =
        rw (charge, e)
          (trans-payer c.payer (priced-payer w.rec rec u m e), priced u w.rec c.payer e)

-- Changes of a record that leave its payer and its cost.
kept :
    {old a b : UsageLog}
    → SamePayer a b
    → b.cost ≡ a.cost
    → SamePayer old a × (a.cost ≡ old.cost)
    → SamePayer old b × (b.cost ≡ old.cost)
kept p e (q, f) = (trans-payer q p, e ∙ f)

pub same_rec : (old : UsageLog) (w w' : World) → w'.rec ≡ w.rec → Carries old w → Carries old w'
same_rec old w w' e c = record { payer = rw e c.payer; same_cost = rw e c.same_cost }

pub noted :
    (old : UsageLog) (cand : Candidate) (w : World)
    → Carries old w
    → Carries old (note_channel_failure cand w)
unfolding note_channel_failure
noted old cand w c = same_rec old w _ refl c

pub left-Carries :
    (old : UsageLog) (b : Bool) (w : World)
    → Carries old w
    → Carries old (record w { rec = client_left b w.rec })
left-Carries old true w c = record {
  payer = record {
    same_org = c.payer.same_org;
    same_user = c.payer.same_user;
    same_key = c.payer.same_key;
  };
  same_cost = c.same_cost;
}
left-Carries old false w c = same_rec old w _ refl c

failing :
    (old : UsageLog) (cand : Candidate) (b : Bool) (w : World)
    → Carries old w
    → Carries old (if b then note_channel_failure cand w else w)
failing old cand b w c = if_intro (Carries old) b _ _ (λ e. noted old cand w c) (λ e. c)

succeeding :
    (old : UsageLog) (cand : Candidate) (b : Bool) (w : World)
    → Carries old w
    → Carries old (if b then record w { breaker = record_success cand.channel_id w.breaker } else w)
succeeding old cand b w c = if_intro (Carries old) b _ _ (λ e. same_rec old w _ refl c) (λ e. c)

pub stream-Billed :
    (old : UsageLog) (cand : Candidate) (code : ℕ) (gone : Bool) (body : Body) (m : ModelPrices)
    (w : World)
    → Carries old w
    → Result-Billed old m (deliver_stream cand code gone body m w)
unfolding deliver_stream
stream-Billed old cand code gone body m w c = charge-Billed old m body.usage _ (
    succeeding old cand (not body.read_error && ltb code 300) _ (
      left-Carries old (body.gone || gone) _
        (failing old cand (body.read_error && not body.gone && not gone) w c)))

pub gives_up :
    (old : UsageLog) (cand : Candidate) (m : ModelPrices) (w : World)
    → Carries old w
    → Result-Billed old m (give_up_channel cand w)
unfolding give_up_channel
gives_up old cand m w c = noted old cand _ (same_rec old w _ refl c)

pub whole-Billed :
    (old : UsageLog) (cand : Candidate) (code : ℕ) (gone : Bool) (body : Body) (m : ModelPrices)
    (w : World)
    → Carries old w
    → Result-Billed old m (deliver_whole cand code gone body m w)
unfolding deliver_whole
whole-Billed old cand code gone body m w c =
    let R = Result-Billed old m in
    if_intro R body.read_error _ _
      (λ e.
        if_intro R gone _ _
          (λ g. (
            record {
              same_org = c.payer.same_org;
              same_user = c.payer.same_user;
              same_key = c.payer.same_key;
            },
            unpriced c.same_cost,
          ))
          (λ g. gives_up old cand m w c))
      (λ e.
        if_intro R (leb 400 code) _ _ (λ f. (c.payer, unpriced c.same_cost))
          (λ f.
            if_intro R body.translate_error _ _ (λ t. gives_up old cand m w c)
              (λ t.
                charge-Billed old m body.usage _
                  (same_rec old _ _ refl (left-Carries old gone w c)))))

-- The status and the channel of a record are no part of its bill.
pub restamped :
    (old : UsageLog) (code : ℕ) (ch : Option ℕ) (w : World)
    → Carries old w
    → Carries old (record w { rec = record w.rec { channel_id = ch; status = code } })
restamped old code ch w c = record {
  payer = record {
    same_org = c.payer.same_org;
    same_user = c.payer.same_user;
    same_key = c.payer.same_key;
  };
  same_cost = c.same_cost;
}

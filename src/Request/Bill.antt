-- ===== src/Request/Bill.antt =====
-- What a request is charged: the prices of the catalogue, the loop and the settlement taken
-- together.
use general_api.Base.{
  ◌==◌, if◌then◌else◌, if_intro, pos, ℕ, ◌≡◌, refl, ◌∙◌, Bool, false, ◌&&◌, some, [],
}
use general_api.Model.{UsageLog, ModelPrices}
use general_api.Cost.Usage.{Usage, apply_usage}
use general_api.Quota.{settle}
use general_api.Selector.Query.{Selection}
use general_api.Relay.{Config, Turn, World}
use general_api.Relay.Loop.{Ending, answered, left, crashed, failed, Outcome, run, start_flags}
use general_api.Relay.Loop.Payers.{SamePayer, Billed, unpriced, priced}
use general_api.Relay.Loop.Bills.{run-Billed}
use general_api.Request.Tables.{KeyInfo, Catalog}
use general_api.Request.{
  Env, RelaySpec, Inbound, State, Checked, refused, admitted, preflight, proceed, concluded,
  settled, relay,
}
use general_api.Request.Refused.{Fresh, FreshIn, preflight-FreshIn}
use general_api.Request.Allowed.{Allowed, preflight-Allowed}

-- The caller pays.
pub record PaidBy (ki : KeyInfo) (rec : UsageLog) : Type 0 where
  pub payer_org : rec.org_id ≡ ki.org_id
  pub payer_user : rec.user_id ≡ ki.user_id
  pub payer_key : rec.api_key_id ≡ ki.key_id

-- The cost is that of a usage at the prices by which the request was let pass.
pub record ChargedAt (env : Env) (cat : Catalog) (spec : RelaySpec) (ki : KeyInfo) (inb : Inbound)
    (st : State) (rec : UsageLog) : Type 0 where
  pub m : ModelPrices
  pub stream : Bool
  pub s : Selection
  pub allowed : Allowed env cat spec ki st.db st.mem inb m stream s
  pub usage : Usage
  pub base : UsageLog
  pub bill : UsageLog
  pub is_bill : apply_usage base (some usage) m ≡ some bill
  pub same_cost : rec.cost ≡ bill.cost
  pub no_trial : ki.playground && ki.org_id == 0 ≡ false

pub data Charge (env : Env) (cat : Catalog) (spec : RelaySpec) (ki : KeyInfo) (inb : Inbound)
    (st : State) (rec : UsageLog) : Type 0 where
  free : rec.cost ≡ pos 0 → Charge env cat spec ki inb st rec
  charged : ChargedAt env cat spec ki inb st rec → Charge env cat spec ki inb st rec

module _ (env : Env) (cat : Catalog) (spec : RelaySpec) (ki : KeyInfo) (inb : Inbound)
    (st : State) where
  abbrev Owed : UsageLog → Type 0
  Owed rec = PaidBy ki rec × Charge env cat spec ki inb st rec

  paid : (old new : UsageLog) → Fresh ki old → SamePayer old new → PaidBy ki new
  paid old new f p = record {
    payer_org = p.same_org ∙ f.same_org;
    payer_user = p.same_user ∙ f.same_user;
    payer_key = p.same_key ∙ f.same_key;
  }

  -- The trial of a platform administrator is free.
  settled-Owed :
      (rec : UsageLog)
      → PaidBy ki rec
      → (ki.playground && ki.org_id == 0 ≡ false → Charge env cat spec ki inb st rec)
      → Owed (if ki.playground && ki.org_id == 0 then record rec { cost = pos 0 } else rec)
  settled-Owed rec p c =
      if_intro Owed (ki.playground && ki.org_id == 0) _ _
        (λ e. (
          record { payer_org = p.payer_org; payer_user = p.payer_user; payer_key = p.payer_key },
          free refl,
        ))
        (λ e. (p, c e))

  concluded-Charge :
      (o : Outcome)
      → PaidBy ki o.world.rec
      → (ki.playground && ki.org_id == 0 ≡ false → Charge env cat spec ki inb st o.world.rec)
      → Owed
          (settled env ki
            (concluded o)
            o.world.effects
            (record st { mem = o.world.mem; breaker = o.world.breaker })).rec
  unfolding settled concluded
  concluded-Charge o p c = go o.ending
    where
      restamp :
          {code : ℕ}
          → Charge env cat spec ki inb st o.world.rec
          → Charge env cat spec ki inb st (record o.world.rec { status = code })
      restamp (free e) = free e
      restamp (charged a) = charged (record {
        m = a.m;
        stream = a.stream;
        s = a.s;
        allowed = a.allowed;
        usage = a.usage;
        base = a.base;
        bill = a.bill;
        is_bill = a.is_bill;
        same_cost = a.same_cost;
        no_trial = a.no_trial;
      })

      go :
          (e : Ending)
          → Owed
              (settled env ki
                (concluded (record o { ending = e }))
                o.world.effects
                (record st { mem = o.world.mem; breaker = o.world.breaker })).rec
      go answered = settled-Owed _ p c
      go left = settled-Owed _ p c
      go crashed = settled-Owed _ p c
      go failed =
          settled-Owed _
            (record { payer_org = p.payer_org; payer_user = p.payer_user; payer_key = p.payer_key })
            (λ e. restamp (c e))

  proceed-Owed :
      (cfg : Config) (turns : ℕ → Turn) (c : Checked)
      → preflight env cat spec ki st.db st.mem inb ≡ c
      → FreshIn ki c
      → Owed (proceed env cfg ki turns st c).rec
  unfolding proceed
  proceed-Owed cfg turns (refused r rec mem) e f =
      settled-Owed rec
        (record { payer_org = f.0.same_org; payer_user = f.0.same_user; payer_key = f.0.same_key })
        (λ t. free f.0.cost_free)
  proceed-Owed cfg turns (admitted m stream s rec) e f =
      let w : World = record {
        mem = s.mem;
        breaker = st.breaker;
        effects = [];
        flags = start_flags;
        rec = rec;
      } in
      let b = run-Billed cfg stream m s.cands turns w in
      let a = preflight-Allowed env cat spec ki st.db st.mem inb m stream s rec e in
      concluded-Charge (run cfg stream m s.cands turns w) (paid rec _ f b.0)
        (λ t. bill_of t _ a b.1)
    where
      bill_of :
          (t : ki.playground && ki.org_id == 0 ≡ false) (rec' : UsageLog)
          → Allowed env cat spec ki st.db st.mem inb m stream s
          → Billed rec m rec'
          → Charge env cat spec ki inb st rec'
      bill_of t rec' a (unpriced z) = free (z ∙ f.cost_free)
      bill_of t rec' a (priced u base p z) = charged (record {
        m = m;
        stream = stream;
        s = s;
        allowed = a;
        usage = u;
        base = base;
        bill = rec';
        is_bill = z;
        same_cost = refl;
        no_trial = t;
      })

-- However a request ends, the record that is settled names the organisation, the user and the key
-- of its caller, and its cost is zero or, for a request that has passed the checks and is no
-- platform trial, the cost of a usage at the catalogue's prices for it.
pub relay-Charge :
    (env : Env) (cfg : Config) (cat : Catalog) (spec : RelaySpec) (ki : KeyInfo) (turns : ℕ → Turn)
    (inb : Inbound) (st : State)
    → let e = relay env cfg cat spec ki turns inb st in
      PaidBy ki e.rec
      × Charge env cat spec ki inb st e.rec
      × (e.state.db ≡ (settle env.scrub env.seconds env.period e.rec st.db).1)
unfolding relay
relay-Charge env cfg cat spec ki turns inb st =
    let o =
      proceed-Owed env cat spec ki inb st cfg turns _ refl
        (preflight-FreshIn env cat spec ki st.db st.mem inb) in
    (o.0, o.1, settles _)
  where
    settles :
        (c : Checked)
        → let e = proceed env cfg ki turns st c in
          e.state.db ≡ (settle env.scrub env.seconds env.period e.rec st.db).1
    settles (refused r rec mem) = refl
    settles (admitted m stream s rec) = refl

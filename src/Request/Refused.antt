-- ===== src/Request/Refused.antt =====
-- A request that is refused before it is forwarded.
use general_api.Base.{
  ◌==◌, if◌then◌else◌, Bool-cases, if_intro, pos, ℕ, String, ◌≡◌, refl, ap, subst, inl, inr, Bool,
  ◌&&◌, not, Option, none, some, List, [], ◌∷◌, str_eq,
}
use general_api.Model.{UsageLog, ModelPrices}
use general_api.Coord.{Mem}
use general_api.Candidate.{Candidate}
use general_api.Quota.Store.{Db, Result, ok, err}
use general_api.Quota.{settle, settle_tx, scrubbed, insert_log}
use general_api.Selector.Query.{Selection}
use general_api.Relay.{Config, Turn}
use general_api.Request.Tables.{KeyInfo, Catalog, ModelRow, is_granted}
use general_api.Request.{
  Refusal, is_empty, RelaySpec, Parsed, Inbound, Env, refusal_code, Checked, refused, admitted,
  start_record, select, choose, check_quota, check_row, check_model, check_parsed, preflight,
  has_fields, State, settled, relay, proceed,
}

-- Who pays, and that nothing is to be paid yet.
pub record Fresh (ki : KeyInfo) (rec : UsageLog) : Type 0 where
  pub same_org : rec.org_id ≡ ki.org_id
  pub same_user : rec.user_id ≡ ki.user_id
  pub same_key : rec.api_key_id ≡ ki.key_id
  pub cost_free : rec.cost ≡ pos 0
  pub vendor_free : rec.vendor_cost ≡ pos 0

abbrev pub FreshIn : KeyInfo → Checked → Type 0
FreshIn ki (refused r rec mem) = Fresh ki rec × (rec.status ≡ refusal_code r)
FreshIn ki (admitted m stream s rec) = Fresh ki rec

stamped :
    {ki : KeyInfo} {code : ℕ} (rec : UsageLog)
    → Fresh ki rec
    → Fresh ki (record rec { status = code })
stamped rec f = record {
  same_org = f.same_org;
  same_user = f.same_user;
  same_key = f.same_key;
  cost_free = f.cost_free;
  vendor_free = f.vendor_free;
}

module _ (env : Env) (cat : Catalog) (spec : RelaySpec) (ki : KeyInfo) (db : Db) (mem : Mem) where
  choose-FreshIn :
      (m : ModelPrices) (stream : Bool) (rec : UsageLog) (s : Selection) (cs : List Candidate)
      → Fresh ki rec
      → FreshIn ki (choose env cat spec ki db mem m stream rec s cs)
  unfolding choose
  choose-FreshIn m stream rec s [] f = (stamped rec f, refl)
  choose-FreshIn m stream rec s (c ∷ cs) f = f

  quota-FreshIn :
      (m : ModelPrices) (stream : Bool) (name : String) (rec : UsageLog) (r : Result (Unit {0}))
      → Fresh ki rec
      → FreshIn ki (check_quota env cat spec ki db mem m stream name rec r)
  unfolding check_quota select
  quota-FreshIn m stream name rec (err e) f = (stamped rec f, refl)
  quota-FreshIn m stream name rec (ok x) f = choose-FreshIn m stream rec _ _ f

  row-FreshIn :
      (row : ModelRow) (stream : Bool) (name : String) (rec : UsageLog)
      → Fresh ki rec
      → FreshIn ki (check_row env cat spec ki db mem row stream name rec)
  unfolding check_row
  row-FreshIn row stream name rec f =
      let P = FreshIn ki in
      if_intro P (not row.enabled) _ _ (λ e. (stamped rec f, refl))
        (λ e.
          if_intro P (spec.video && not row.video) _ _ (λ e. (stamped rec f, refl))
            (λ e.
              if_intro P (not spec.video && row.video) _ _ (λ e. (stamped rec f, refl))
                (λ e.
                  if_intro P (not ki.playground && not (is_granted cat ki.user_id name)) _ _
                    (λ e. (stamped rec f, refl)) (λ e. quota-FreshIn _ stream name rec _ f))))

  model-FreshIn :
      (stream : Bool) (name : String) (rec : UsageLog) (row : Option ModelRow)
      → Fresh ki rec
      → FreshIn ki (check_model env cat spec ki db mem stream name rec row)
  unfolding check_model
  model-FreshIn stream name rec none f = (stamped rec f, refl)
  model-FreshIn stream name rec (some row) f = row-FreshIn row stream name rec f

  parsed-FreshIn :
      (rec : UsageLog) (p : Option Parsed)
      → Fresh ki rec
      → FreshIn ki (check_parsed env cat spec ki db mem rec p)
  unfolding check_parsed
  parsed-FreshIn rec none f = (stamped rec f, refl)
  parsed-FreshIn rec (some p) f =
      let P = FreshIn ki in
      let f1 : Fresh ki (record rec { model_name = env.truncate p.model }) = renamed rec f in
      if_intro P (is_empty p.keys) _ _ (λ e. (stamped rec f, refl))
        (λ e.
          if_intro P (str_eq p.model "") _ _ (λ e. (stamped rec f, refl))
            (λ e.
              if_intro P (not (has_fields spec.require p.keys)) _ _ (λ e. (stamped _ f1, refl))
                (λ e. model-FreshIn _ _ _ _ (streamed _ f1))))
    where
      renamed :
          {name : String} (rec : UsageLog)
          → Fresh ki rec
          → Fresh ki (record rec { model_name = name })
      renamed rec f = record {
        same_org = f.same_org;
        same_user = f.same_user;
        same_key = f.same_key;
        cost_free = f.cost_free;
        vendor_free = f.vendor_free;
      }

      streamed :
          {b : Bool} (rec : UsageLog) → Fresh ki rec → Fresh ki (record rec { is_stream = b })
      streamed rec f = record {
        same_org = f.same_org;
        same_user = f.same_user;
        same_key = f.same_key;
        cost_free = f.cost_free;
        vendor_free = f.vendor_free;
      }

  pub preflight-FreshIn : (inb : Inbound) → FreshIn ki (preflight env cat spec ki db mem inb)
  unfolding preflight
  preflight-FreshIn inb =
      let P = FreshIn ki in
      let f : Fresh ki (start_record ki inb) = record {
        same_org = refl;
        same_user = refl;
        same_key = refl;
        cost_free = refl;
        vendor_free = refl;
      } in
      if_intro P (not inb.allowed) _ _ (λ e. (stamped _ f, refl))
        (λ e.
          if_intro P inb.too_large _ _ (λ e. (stamped _ f, refl))
            (λ e. parsed-FreshIn _ inb.parsed f))

settle_free :
    (scrub : String → String) (now : ℕ) (period : String) (rec : UsageLog) (db : Db)
    → rec.cost ≡ pos 0
    → settle scrub now period rec db ≡ (ok tt, insert_log now (scrubbed scrub rec) db)
unfolding settle settle_tx
settle_free scrub now period rec db e = elim (Bool-cases (str_eq rec.error "")) [
  | inl z ↦ rw (z, e) refl
  | inr z ↦ rw (z, e) refl
]

pub zero_cost :
    (ki : KeyInfo) (rec : UsageLog)
    → rec.cost ≡ pos 0
    → (if ki.playground && ki.org_id == 0 then record rec { cost = pos 0 } else rec).cost ≡ pos 0
zero_cost ki rec e =
    if_intro (λ (r : UsageLog). r.cost ≡ pos 0) (ki.playground && ki.org_id == 0) _ rec (λ z. refl)
      (λ z. e)

-- A request that is refused before it is forwarded gets the code of the refusal, costs nothing,
-- starts nothing outside, and changes neither the breaker nor any table but the log, which gets
-- its record.
pub relay-refused :
    (env : Env) (cfg : Config) (cat : Catalog) (spec : RelaySpec) (ki : KeyInfo) (turns : ℕ → Turn)
    (inb : Inbound) (st : State) (r : Refusal) (rec : UsageLog) (mem : Mem)
    → preflight env cat spec ki st.db st.mem inb ≡ refused r rec mem
    → let e = relay env cfg cat spec ki turns inb st in
      (e.rec.status ≡ refusal_code r)
      × (e.rec.cost ≡ pos 0)
      × (e.state.db ≡ insert_log env.seconds (scrubbed env.scrub e.rec) st.db)
      × (e.state.breaker ≡ st.breaker)
      × (e.effects ≡ [])
unfolding relay proceed settled
relay-refused env cfg cat spec ki turns inb st r rec mem e =
    let f = subst (FreshIn ki) e (preflight-FreshIn env cat spec ki st.db st.mem inb) in
    let z = zero_cost ki rec f.0.cost_free in
    rw e (
      if_intro (λ (x : UsageLog). x.status ≡ refusal_code r) (ki.playground && ki.org_id == 0) _ rec
          (λ y. f.1) (λ y. f.1),
      z,
      ap (λ (x : Result (Unit {0}) × Db). x.1)
          (settle_free env.scrub env.seconds env.period _ st.db z),
      refl,
      refl,
    )

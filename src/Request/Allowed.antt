-- ===== src/Request/Allowed.antt =====
-- What a request that is forwarded has passed.
use general_api.Base.{
  ltb, if◌then◌else◌, if_intro, pos, String, ◌≡◌, refl, sym, subst, Bool, true, false, ◌&&◌, ◌||◌,
  not, Option, none, some, List, [], ◌∷◌, arith, str_eq,
}
use general_api.Model.{UsageLog, ModelPrices}
use general_api.Coord.{Mem}
use general_api.Candidate.{Candidate}
use general_api.Quota.Store.{Db, Result, ok, err}
use general_api.Quota.{precheck}
use general_api.Selector.Query.{Selection, select_candidates}
use general_api.Request.Tables.{KeyInfo, Catalog, ModelRow, request_prices, is_granted}
use general_api.Request.{
  check_parsed, preflight, check_model, RelaySpec, Parsed, Inbound, Env, Checked, refused, admitted,
  choose, select, check_quota, check_row, has_fields, is_empty,
}

-- The row of the model lets the caller use it.
pub record RowAllowed (env : Env) (cat : Catalog) (spec : RelaySpec) (ki : KeyInfo) (db : Db)
    (mem : Mem) (name : String) (row : ModelRow) (m : ModelPrices) (s : Selection) : Type 0 where
  pub enabled : row.enabled ≡ true
  pub same_kind : row.video ≡ spec.video
  pub granted : ki.playground || is_granted cat ki.user_id name ≡ true
  pub has_quota : (if ltb 0 ki.org_id then precheck env.period ki.user_id db else ok tt) ≡ ok tt
  pub priced : m ≡ request_prices cat ki name row
  pub selected :
      s ≡ select_candidates (pos env.now) env.decrypt env.intn cat.key_rows (cat.cand_rows name) mem
  pub some_candidate : is_empty s.cands ≡ false

pub record Allowed (env : Env) (cat : Catalog) (spec : RelaySpec) (ki : KeyInfo) (db : Db)
    (mem : Mem) (inb : Inbound) (m : ModelPrices) (stream : Bool) (s : Selection) : Type 0 where
  pub in_rate : inb.allowed ≡ true
  pub fits : inb.too_large ≡ false
  pub p : Parsed
  pub is_parsed : inb.parsed ≡ some p
  pub named : str_eq p.model "" ≡ false
  pub has_required : has_fields spec.require p.keys ≡ true
  pub may_stream : stream ≡ (p.stream && spec.allow_stream)
  pub row : ModelRow
  pub is_row : cat.models p.model ≡ some row
  pub row_allowed : RowAllowed env cat spec ki db mem p.model row m s

module _ (env : Env) (cat : Catalog) (spec : RelaySpec) (ki : KeyInfo) (db : Db) (mem : Mem) where
  abbrev RowIn : String → ModelRow → Bool → Checked → Type 0
  RowIn name row stream (refused r rec mem') = Unit {0}
  RowIn name row stream (admitted m stream' s rec) =
      (stream' ≡ stream) × RowAllowed env cat spec ki db mem name row m s

  same : (a b : Bool) → a && not b ≡ false → not a && b ≡ false → b ≡ a
  same true true h k = refl
  same false false h k = refl
  same true false h k = sym h
  same false true h k = k

  module _ (name : String) (row : ModelRow) (stream : Bool) (rec : UsageLog)
      (on : not row.enabled ≡ false) (a : spec.video && not row.video ≡ false)
      (b : not spec.video && row.video ≡ false)
      (g : not ki.playground && not (is_granted cat ki.user_id name) ≡ false) where
    choose-RowIn :
        (q : (if ltb 0 ki.org_id then precheck env.period ki.user_id db else ok tt) ≡ ok tt)
        (cs : List Candidate)
        → (select_candidates
            (pos env.now)
            env.decrypt
            env.intn
            cat.key_rows
            (cat.cand_rows name)
            mem).cands
          ≡ cs
        → RowIn name row stream (
            choose env cat spec ki db mem
              (request_prices cat ki name row)
              stream
              rec
              (select_candidates
                (pos env.now)
                env.decrypt
                env.intn
                cat.key_rows
                (cat.cand_rows name)
                mem)
              cs)
    unfolding choose
    choose-RowIn q [] e = tt
    choose-RowIn q (c ∷ cs) e = (
      refl,
      record {
        enabled = ground arith;
        same_kind = same spec.video row.video a b;
        granted = ground arith;
        has_quota = q;
        priced = refl;
        selected = refl;
        some_candidate = rw e refl;
      },
    )

    quota-RowIn :
        (r : Result (Unit {0}))
        → (if ltb 0 ki.org_id then precheck env.period ki.user_id db else ok tt) ≡ r
        → RowIn name row stream
            (check_quota env cat spec ki db mem (request_prices cat ki name row) stream name rec r)
    unfolding check_quota select
    quota-RowIn (err e) q = tt
    quota-RowIn (ok tt) q = choose-RowIn q _ refl

  row-RowIn :
      (name : String) (row : ModelRow) (stream : Bool) (rec : UsageLog)
      → RowIn name row stream (check_row env cat spec ki db mem row stream name rec)
  unfolding check_row
  row-RowIn name row stream rec =
      let P = RowIn name row stream in
      if_intro P (not row.enabled) _ _ (λ e. tt)
        (λ on.
          if_intro P (spec.video && not row.video) _ _ (λ e. tt)
            (λ a.
              if_intro P (not spec.video && row.video) _ _ (λ e. tt)
                (λ b.
                  if_intro P (not ki.playground && not (is_granted cat ki.user_id name)) _ _
                    (λ e. tt) (λ g. quota-RowIn name row stream rec on a b g _ refl))))

  abbrev AllowedIn : Inbound → Checked → Type 0
  AllowedIn inb (refused r rec mem') = Unit {0}
  AllowedIn inb (admitted m stream s rec) = Allowed env cat spec ki db mem inb m stream s

  module _ (inb : Inbound) (in_rate : inb.allowed ≡ true) (fits : inb.too_large ≡ false)
      (p : Parsed) (is_parsed : inb.parsed ≡ some p) (named : str_eq p.model "" ≡ false)
      (req : has_fields spec.require p.keys ≡ true) where
    widened :
        (row : ModelRow)
        → cat.models p.model ≡ some row
        → (c : Checked) → RowIn p.model row (p.stream && spec.allow_stream) c
        → AllowedIn inb c
    widened row e (refused r rec mem') a = tt
    widened row e (admitted m stream s rec) a = record {
      in_rate = in_rate;
      fits = fits;
      p = p;
      is_parsed = is_parsed;
      named = named;
      has_required = req;
      may_stream = a.0;
      row = row;
      is_row = e;
      row_allowed = a.1;
    }

    model-AllowedIn :
        (rec : UsageLog) (row : Option ModelRow)
        → cat.models p.model ≡ row
        → AllowedIn inb
            (check_model env cat spec ki db mem (p.stream && spec.allow_stream) p.model rec row)
    unfolding check_model
    model-AllowedIn rec none e = tt
    model-AllowedIn rec (some row) e =
        widened row e _ (row-RowIn p.model row (p.stream && spec.allow_stream) rec)

  parsed-AllowedIn :
      (inb : Inbound) (rec : UsageLog) (p : Option Parsed)
      → inb.allowed ≡ true
      → inb.too_large ≡ false
      → inb.parsed ≡ p
      → AllowedIn inb (check_parsed env cat spec ki db mem rec p)
  unfolding check_parsed
  parsed-AllowedIn inb rec none a b e = tt
  parsed-AllowedIn inb rec (some p) a b e =
      let P = AllowedIn inb in
      if_intro P (is_empty p.keys) _ _ (λ z. tt)
        (λ z.
          if_intro P (str_eq p.model "") _ _ (λ z. tt)
            (λ named.
              if_intro P (not (has_fields spec.require p.keys)) _ _ (λ z. tt)
                (λ req. model-AllowedIn inb a b p e named (ground arith) _ _ refl)))

  pub preflight-AllowedIn : (inb : Inbound) → AllowedIn inb (preflight env cat spec ki db mem inb)
  unfolding preflight
  preflight-AllowedIn inb =
      let P = AllowedIn inb in
      if_intro P (not inb.allowed) _ _ (λ z. tt)
        (λ a.
          if_intro P inb.too_large _ _ (λ z. tt)
            (λ b. parsed-AllowedIn inb _ inb.parsed (ground arith) b refl))

-- A request is forwarded only when the limiter lets it pass, its body fits, parses, names a model
-- and has the fields of its endpoint; the model is enabled and of the endpoint's kind; the caller
-- is granted it or is a trial; the precheck of a caller with an organisation admits it; and the
-- candidates, one at least, are those selected for the model. It is then priced by the catalogue.
pub preflight-Allowed :
    (env : Env) (cat : Catalog) (spec : RelaySpec) (ki : KeyInfo) (db : Db) (mem : Mem)
    (inb : Inbound) (m : ModelPrices) (stream : Bool) (s : Selection) (rec : UsageLog)
    → preflight env cat spec ki db mem inb ≡ admitted m stream s rec
    → Allowed env cat spec ki db mem inb m stream s
preflight-Allowed env cat spec ki db mem inb m stream s rec e =
    subst (AllowedIn env cat spec ki db mem inb) e (preflight-AllowedIn env cat spec ki db mem inb)

-- ===== src/Selector/Query/Selected.antt =====
-- What each candidate of a whole selection has.
use general_api.Base.{
  ◌==◌, ==_iff, if_intro, All, All-append, ℤ, eqb_ℤ, ℕ, String, ◌≡◌, refl, sym, ◌∙◌, false, ◌||◌,
  Option, List, [], ◌∷◌, str_eq,
}
use general_api.Coord.{Scope, Mem, is_cooling}
use general_api.Candidate.{key_scope, Candidate}
use general_api.Selector.{KeyRow, CandRow, channel_candidates}
use general_api.Selector.Keeps.{weighted_shuffle-All}
use general_api.Selector.Servable.{
  IsServable, channel_candidates-IsServable, channel_candidates-same_cooling,
}
use general_api.Selector.Query.{
  Selection, pool_of, valid_rows, join_run, runs, add_channel, add_channels, add_group, add_groups,
  select_candidates,
}

-- A candidate of one of the rows: of a row that has an address.
pub record IsSelected {κ μ} (now : ℤ) (decrypt : String → Option String) (P : KeyRow → Type κ)
    (R : CandRow → Type μ) (mem : Mem) (c : Candidate) : Type (κ ⊔ μ) where
  row : CandRow
  is_row : R row
  has_address : (str_eq row.base_url "" || str_eq row.path "") ≡ false
  servable : IsServable now decrypt (λ kr. P kr × (kr.vendor_id ≡ c.vendor_id)) row mem c

module _ {κ μ} (now : ℤ) (decrypt : String → Option String) (intn : ℕ → ℕ → ℕ) (keys : List KeyRow)
    (P : KeyRow → Type κ) (R : CandRow → Type μ) (mem : Mem) (all_keys : All P keys) where
  Selected : Candidate → Type (κ ⊔ μ)
  Selected = IsSelected now decrypt P R mem

  Usable : CandRow → Type μ
  Usable r = R r × ((str_eq r.base_url "" || str_eq r.path "") ≡ false)

  record Chosen (s : Selection) : Type (κ ⊔ μ) where
    all_selected : All Selected s.cands
    same_cooling : (t : Scope) → (is_cooling now t s.mem).0 ≡ (is_cooling now t mem).0

  pool_of-All :
      (v : ℕ) (ks : List KeyRow) → All P ks → All (λ kr. P kr × (kr.vendor_id ≡ v)) (pool_of v ks)
  unfolding pool_of
  pool_of-All v [] a = tt
  pool_of-All v (kr ∷ ks) a =
      if_intro (All (λ kr. P kr × (kr.vendor_id ≡ v))) (kr.vendor_id == v) _ _
        (λ e. ((a.0, (==_iff kr.vendor_id v).0 e), pool_of-All v ks a.1))
        (λ e. pool_of-All v ks a.1)

  selected :
      (r : CandRow) (m : Mem)
      → ((t : Scope) → (is_cooling now t m).0 ≡ (is_cooling now t mem).0)
      → Usable r
      → (cs : List Candidate)
      → All (IsServable now decrypt (λ kr. P kr × (kr.vendor_id ≡ r.vendor_id)) r m) cs
      → All Selected cs
  unfolding Selected Usable
  selected r m same u [] a = tt
  selected r m same u (c ∷ cs) a =
      let (kr, p, i, d) = a.0.source in
      (
        record {
          row = r;
          is_row = u.0;
          has_address = u.1;
          servable = record {
            channel = a.0.channel;
            vendor = a.0.vendor;
            not_cooling = sym (same (key_scope c)) ∙ a.0.not_cooling;
            source = (kr, (p.0, p.1 ∙ sym a.0.vendor), i, d);
            not_empty = a.0.not_empty;
          };
        },
        selected r m same u cs a.1,
      )

  add_channel-Chosen :
      (r : CandRow) (s : Selection)
      → Usable r
      → Chosen s
      → Chosen (add_channel now decrypt intn keys r s)
  unfolding add_channel
  add_channel-Chosen r s u h =
      let pool = pool_of r.vendor_id keys in
      let e = channel_candidates now decrypt intn s.draws r pool s.mem in
      record {
        all_selected = All-append Selected s.cands e.cands h.all_selected (
            selected r s.mem h.same_cooling u e.cands (
              channel_candidates-IsServable now decrypt intn s.draws _ r pool s.mem
                (pool_of-All r.vendor_id keys all_keys)));
        same_cooling = λ t.
            channel_candidates-same_cooling now decrypt intn s.draws r pool s.mem t
            ∙ h.same_cooling t;
      }

  add_channels-Chosen :
      (rows : List CandRow) (s : Selection)
      → All Usable rows
      → Chosen s
      → Chosen (add_channels now decrypt intn keys rows s)
  unfolding add_channels
  add_channels-Chosen [] s a h = h
  add_channels-Chosen (r ∷ rows) s a h =
      add_channels-Chosen rows (add_channel now decrypt intn keys r s) a.1
        (add_channel-Chosen r s a.0 h)

  add_group-Chosen :
      (cs : List Candidate) (group : List CandRow) (s : Selection)
      → All Usable group
      → Chosen (record s { cands = cs })
      → Chosen (add_group now decrypt intn keys group (record s { cands = cs }))
  unfolding add_group
  add_group-Chosen [] group s a h =
      add_channels-Chosen _ _ (weighted_shuffle-All (λ r. r.weight) Usable intn s.draws group a)
        (record { all_selected = tt; same_cooling = h.same_cooling })
  add_group-Chosen (c ∷ cs) group s a h = add_channels-Chosen group _ a h

  add_groups-Chosen :
      (gs : List (List CandRow)) (s : Selection)
      → All (All Usable) gs
      → Chosen s
      → Chosen (add_groups now decrypt intn keys gs s)
  unfolding add_groups
  add_groups-Chosen [] s a h = h
  add_groups-Chosen (g ∷ gs) s a h =
      add_groups-Chosen gs (add_group now decrypt intn keys g s) a.1
        (add_group-Chosen s.cands g s a.0 h)

  valid_rows-All : (rows : List CandRow) → All R rows → All Usable (valid_rows rows)
  unfolding valid_rows Usable
  valid_rows-All [] a = tt
  valid_rows-All (r ∷ rows) a =
      if_intro (All Usable) (str_eq r.base_url "" || str_eq r.path "") _ _
        (λ e. valid_rows-All rows a.1) (λ e. ((a.0, e), valid_rows-All rows a.1))

  join_run-All :
      (r : CandRow) (gs : List (List CandRow))
      → Usable r
      → All (All Usable) gs
      → All (All Usable) (join_run r gs)
  unfolding join_run
  join_run-All r [] u a = ((u, tt), tt)
  join_run-All r ([] ∷ rest) u a = ((u, tt), a.1)
  join_run-All r ((g ∷ gs) ∷ rest) u a =
      if_intro (All (All Usable)) (eqb_ℤ r.priority g.priority) _ _ (λ e. ((u, a.0), a.1))
        (λ e. ((u, tt), a))

  runs-All : (rows : List CandRow) → All Usable rows → All (All Usable) (runs rows)
  unfolding runs
  runs-All [] a = tt
  runs-All (r ∷ rows) a = join_run-All r (runs rows) a.0 (runs-All rows a.1)

  selection :
      (rows : List CandRow)
      → All R rows
      → All Selected (select_candidates now decrypt intn keys rows mem).cands
  unfolding select_candidates
  selection rows a =
      (add_groups-Chosen (runs (valid_rows rows)) _
        (runs-All (valid_rows rows) (valid_rows-All rows a))
        (record { all_selected = tt; same_cooling = λ t. refl })).all_selected

-- Each candidate of a selection belongs to one of the rows of the model's channels, one with an
-- address, and its key, which does not cool, decrypts from a row of its vendor to a text that is
-- not empty. (What holds of all rows holds of the two.)
pub select_candidates-IsSelected {κ μ} :
    (now : ℤ) (decrypt : String → Option String) (intn : ℕ → ℕ → ℕ) (keys : List KeyRow)
    (P : KeyRow → Type κ) (R : CandRow → Type μ) (rows : List CandRow) (mem : Mem)
    → All P keys
    → All R rows
    → All (IsSelected now decrypt P R mem) (select_candidates now decrypt intn keys rows mem).cands
unfolding Selected
select_candidates-IsSelected now decrypt intn keys P R rows mem a b =
    selection now decrypt intn keys P R mem a rows b

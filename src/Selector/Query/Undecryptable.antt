-- ===== src/Selector/Query/Undecryptable.antt =====
-- A model whose vendors' keys cannot be decrypted.
use general_api.Base.{
  ◌==◌, if◌then◌else◌, if_intro, length, All, ℤ, eqb_ℤ, ℕ, ◌+◌, ◌<◌, String, ◌≡◌, refl, sym, ap,
  subst, ◌∙◌, true, ◌||◌, Option, none, List, [], ◌∷◌, ◌++◌, arith,
}
use general_api.Coord.{new_mem, is_cooling}
use general_api.Selector.{
  KeyRow, CandRow, Scan, Expanded, usable_key, scan_key, scan, finish, channel_candidates,
}
use general_api.Selector.Shuffle.{weighted_shuffle}
use general_api.Selector.Keeps.{weighted_shuffle-All}
use general_api.Selector.Permutes.{length-weighted_shuffle}
use general_api.Selector.Query.{
  Selection, valid_rows, select_candidates, keyed, unavailable_code, no_candidate, pool_of,
  join_run, runs, add_channel, add_channels, add_group, add_groups, draws_of,
}

abbrev nothing_yet : Scan
nothing_yet = record { usable = []; cooling = 0; quota = 0; mem = new_mem }

abbrev failed_channel : Expanded
failed_channel = record { cands = []; cooling = 0; quota = 0; decrypt_failed = true; mem = new_mem }

-- A selection that has found nothing.
abbrev fruitless : ℕ → ℕ → ℕ → ℕ → Selection
fruitless channels keyed failures draws = record {
  cands = [];
  stats = record {
    channels = channels;
    keyed_vendors = keyed;
    cooling_keys = 0;
    quota_cooling_keys = 0;
    decrypt_failed = failures;
  };
  draws = draws;
  mem = new_mem;
}

module _ (now : ℤ) (decrypt : String → Option String) (intn : ℕ → ℕ → ℕ) (keys : List KeyRow)
    (broken : (text : String) → decrypt text ≡ none) where
  scan_nothing : (v : ℕ) (pool : List KeyRow) → scan now decrypt v pool nothing_yet ≡ nothing_yet
  unfolding scan scan_key usable_key is_cooling
  scan_nothing v [] = refl
  scan_nothing v (kr ∷ pool) =
      ap (λ o. scan now decrypt v pool (record nothing_yet { usable = usable_key o kr }))
        (broken kr.key_enc)
      ∙ scan_nothing v pool

  channel_fails :
      (d : ℕ) (r : CandRow) (pool : List KeyRow)
      → 0 < length pool
      → channel_candidates now decrypt intn d r pool new_mem ≡ failed_channel
  unfolding channel_candidates finish
  channel_fails d r [] h = absurd (omega arith)
  channel_fails d r (kr ∷ pool) h = ap (finish intn d r) (scan_nothing r.vendor_id (kr ∷ pool))

  Keyed : CandRow → Type 0
  Keyed r = 0 < length (pool_of r.vendor_id keys)

  add_channel_fails :
      (c k n d : ℕ) (r : CandRow)
      → Keyed r
      → (d' : ℕ) × (add_channel now decrypt intn keys r (fruitless c k n d)
          ≡ fruitless c k (n + 1) d')
  unfolding add_channel Keyed
  add_channel_fails c k n d r h = (
    d + 0,
    ap
        (λ e. record {
          cands = [] ++ e.cands;
          stats = record {
            channels = c;
            keyed_vendors = k;
            cooling_keys = 0 + e.cooling;
            quota_cooling_keys = 0 + e.quota;
            decrypt_failed = if e.decrypt_failed then n + 1 else n;
          };
          draws = d + draws_of e.cands;
          mem = e.mem;
        })
        (channel_fails d r (pool_of r.vendor_id keys) h),
  )

  add_channels_fail :
      (c k n d : ℕ) (rows : List CandRow)
      → All Keyed rows
      → (d' : ℕ) × (add_channels now decrypt intn keys rows (fruitless c k n d)
          ≡ fruitless c k (n + length rows) d')
  unfolding add_channels
  add_channels_fail c k n d [] a = (d, ap (λ m. fruitless c k m d) (omega arith))
  add_channels_fail c k n d (r ∷ rows) a =
      let (d1, e1) = add_channel_fails c k n d r a.0 in
      let (d2, e2) = add_channels_fail c k (n + 1) d1 rows a.1 in
      (
        d2,
        ap (add_channels now decrypt intn keys rows) e1
            ∙ e2
            ∙ ap (λ m. fruitless c k m d2) (omega arith),
      )

  rows_of : List (List CandRow) → ℕ
  rows_of [] = 0
  rows_of (g ∷ gs) = length g + rows_of gs

  add_groups_fail :
      (c k n d : ℕ) (gs : List (List CandRow))
      → All (All Keyed) gs
      → (d' : ℕ) × (add_groups now decrypt intn keys gs (fruitless c k n d)
          ≡ fruitless c k (n + rows_of gs) d')
  unfolding add_groups add_group rows_of
  add_groups_fail c k n d [] a = (d, ap (λ m. fruitless c k m d) (omega arith))
  add_groups_fail c k n d (g ∷ gs) a =
      let order = weighted_shuffle (λ r. r.weight) intn d g in
      let (d1, e1) =
        add_channels_fail c k n (d + draws_of g) order
          (weighted_shuffle-All (λ r. r.weight) Keyed intn d g a.0) in
      let (d2, e2) = add_groups_fail c k (n + length order) d1 gs a.1 in
      (
        d2,
        ap (add_groups now decrypt intn keys gs) e1
            ∙ e2
            ∙ ap (λ m. fruitless c k m d2)
                (omega (arith, length-weighted_shuffle (λ r. r.weight) intn d g)),
      )

  join_run-rows :
      (r : CandRow) (gs : List (List CandRow))
      → Keyed r
      → All (All Keyed) gs
      → (rows_of (join_run r gs) ≡ rows_of gs + 1) × All (All Keyed) (join_run r gs)
  unfolding join_run rows_of
  join_run-rows r [] u a = (refl, ((u, tt), tt))
  join_run-rows r ([] ∷ rest) u a = (omega arith, ((u, tt), a.1))
  join_run-rows r ((g ∷ gs) ∷ rest) u a =
      if_intro (λ o. (rows_of o ≡ rows_of ((g ∷ gs) ∷ rest) + 1) × All (All Keyed) o)
        (eqb_ℤ r.priority g.priority) _ _ (λ e. (omega arith, ((u, a.0), a.1)))
        (λ e. (omega arith, ((u, tt), a)))

  runs-rows :
      (rows : List CandRow)
      → All Keyed rows
      → (rows_of (runs rows) ≡ length rows) × All (All Keyed) (runs rows)
  unfolding runs rows_of
  runs-rows [] a = (refl, tt)
  runs-rows (r ∷ rows) a =
      let (e, b) = runs-rows rows a.1 in
      let (f, c) = join_run-rows r (runs rows) a.0 b in (omega (arith, e, f), c)

  selection_fails :
      (rows : List CandRow)
      → All Keyed (valid_rows rows)
      → (d : ℕ) × (select_candidates now decrypt intn keys rows new_mem
          ≡ fruitless
              (length (valid_rows rows))
              (length (keyed keys (valid_rows rows) []))
              (length (valid_rows rows))
              d)
  unfolding select_candidates
  selection_fails rows a =
      let valid = valid_rows rows in
      let (e, b) = runs-rows valid a in
      let (d, f) =
        add_groups_fail (length valid) (length (keyed keys valid [])) 0 0 (runs valid) b in
      (
        d,
        f
            ∙ ap (λ m. fruitless (length valid) (length (keyed keys valid [])) m d)
                (omega (arith, e)),
      )

fruitless_code :
    (c k d : ℕ)
    → 0 < c
    → unavailable_code (no_candidate (fruitless c k c d).stats)
      ≡ (if k == 0 || k == c then 503 else 429)
unfolding no_candidate
fruitless_code c k d h = ground arith

-- When no cooldown is on record, nothing decrypts, and a model has channels whose vendors all have
-- a key, the failures are counted by channel, and the answer is 503 where the vendors with a key
-- are none or as many as the channels, and else 429.
pub select_candidates_undecryptable :
    (now : ℤ) (decrypt : String → Option String) (intn : ℕ → ℕ → ℕ) (keys : List KeyRow)
    (rows : List CandRow)
    → ((text : String) → decrypt text ≡ none)
    → All (λ r. 0 < length (pool_of r.vendor_id keys)) (valid_rows rows)
    → 0 < length (valid_rows rows)
    → let s = (select_candidates now decrypt intn keys rows new_mem).stats in
      (s.decrypt_failed ≡ length (valid_rows rows))
      × (unavailable_code (no_candidate s) ≡ (
          if s.keyed_vendors == 0 || s.keyed_vendors == length (valid_rows rows) then 503 else 429))
unfolding Keyed
select_candidates_undecryptable now decrypt intn keys rows broken a h =
    let (d, e) = selection_fails now decrypt intn keys broken rows a in
    let c = length (valid_rows rows) in
    let k = length (keyed keys (valid_rows rows) []) in
    subst
      (λ s.
        (s.stats.decrypt_failed ≡ c)
        × (unavailable_code (no_candidate s.stats)
            ≡ (if s.stats.keyed_vendors == 0 || s.stats.keyed_vendors == c then 503 else 429)))
      (sym e) (refl, fruitless_code c k d h)

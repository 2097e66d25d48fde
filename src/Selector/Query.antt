-- ===== src/Selector/Query.antt =====
-- The whole of `SelectCandidates`, and what `relay` answers when it finds nothing.
pub mod Selected
pub mod Undecryptable
use general_api.Base.{
  ltb, leb, ◌==◌, if◌then◌else◌, ltb→lt, lt→ltb, leb→le, ==_iff, Bool-cases, Option-cases, if_intro,
  length, length-append, All, All-append, ℤ, pos_part, neg_part, sub_ℕ, ◌+ℤ◌, ◌-ℤ◌, ◌≤ℤ◌, ◌<ℤ◌,
  ltb_ℤ, leb_ℤ, eqb_ℤ, +ℤ_parts, -ℤ_parts, eq_of_parts, int_laws, +ℤ_comm, +ℤ_assoc, +ℤ_zero,
  InRange, in_range, bits64, signed64, wrap64, wrap64-InRange, eqb_ℤ→eq, pos, negsuc, ℕ, zero, suc,
  ◌+◌, ◌-◌, ◌*◌, ◌/◌, ◌%◌, ◌^◌, ◌≤◌, ◌<◌, min, max, String, ◌≡◌, refl, sym, ap, subst, ◌∙◌, ◌≢◌,
  ◌↔◌, ◌⊎◌, inl, inr, Bool, true, false, ◌&&◌, ◌||◌, not, Option, none, some, List, [], ◌∷◌, ◌++◌,
  map, filter, append_assoc, append-nil, arith, str_eq, eq_iff, dec_lt, dec_le, ℕ_discrete,
}
use general_api.Coord.{Mem}
use general_api.Candidate.{Candidate}
use general_api.Selector.{CandRow, KeyRow, SelectStats, channel_candidates}
use general_api.Selector.Shuffle.{weighted_shuffle}

-- The enabled keys of a vendor, in the order of their ids.
unfoldable pub pool_of : ℕ → List KeyRow → List KeyRow
pool_of vendor [] = []
pool_of vendor (kr ∷ keys) =
    if kr.vendor_id == vendor then kr ∷ pool_of vendor keys else pool_of vendor keys

unfoldable pub valid_rows : List CandRow → List CandRow
valid_rows [] = []
valid_rows (r ∷ rows) =
    if str_eq r.base_url "" || str_eq r.path "" then valid_rows rows else r ∷ valid_rows rows

member : ℕ → List ℕ → Bool
member n [] = false
member n (x ∷ xs) = n == x || member n xs

-- The vendors of the rows that have a key.
keyed : List KeyRow → List CandRow → List ℕ → List ℕ
unfolding pool_of member
keyed keys [] seen = seen
keyed keys (r ∷ rows) seen = keyed keys rows (
    if ltb 0 (length (pool_of r.vendor_id keys)) && not (member r.vendor_id seen)
    then r.vendor_id ∷ seen
    else seen)

-- The rows come with the highest priority first; the groups are the runs of one priority.
join_run : CandRow → List (List CandRow) → List (List CandRow)
join_run r [] = (r ∷ []) ∷ []
join_run r ([] ∷ rest) = (r ∷ []) ∷ rest
join_run r ((g ∷ gs) ∷ rest) =
    if eqb_ℤ r.priority g.priority then (r ∷ g ∷ gs) ∷ rest else (r ∷ []) ∷ (g ∷ gs) ∷ rest

runs : List CandRow → List (List CandRow)
unfolding join_run
runs [] = []
runs (r ∷ rows) = join_run r (runs rows)

-- How many random numbers a shuffle draws.
abbrev draws_of {ℓ} : {A : Type ℓ} → List A → ℕ
draws_of items = if leb (length items) 1 then 0 else length items

pub record Selection : Type 0 where
  pub cands : List Candidate
  pub stats : SelectStats
  pub draws : ℕ
  pub mem : Mem

module _ (now : ℤ) (decrypt : String → Option String) (intn : ℕ → ℕ → ℕ) (keys : List KeyRow) where
  -- One channel of a group.
  add_channel : CandRow → Selection → Selection
  unfolding pool_of
  add_channel r s =
      let e = channel_candidates now decrypt intn s.draws r (pool_of r.vendor_id keys) s.mem in
      record {
        cands = s.cands ++ e.cands;
        stats = record s.stats {
          cooling_keys = s.stats.cooling_keys + e.cooling;
          quota_cooling_keys = s.stats.quota_cooling_keys + e.quota;
          decrypt_failed =
              (if e.decrypt_failed then s.stats.decrypt_failed + 1 else s.stats.decrypt_failed);
        };
        draws = s.draws + draws_of e.cands;
        mem = e.mem;
      }

  add_channels : List CandRow → Selection → Selection
  unfolding add_channel
  add_channels [] s = s
  add_channels (r ∷ rows) s = add_channels rows (add_channel r s)

  -- A group is shuffled as long as there is no candidate yet.
  add_group : List CandRow → Selection → Selection
  unfolding add_channels
  add_group group s = elim s.cands [
    | [] ↦
        add_channels (weighted_shuffle (λ r. r.weight) intn s.draws group)
          (record s { draws = s.draws + draws_of group })
    | c ∷ cs ↦ add_channels group s
  ]

  add_groups : List (List CandRow) → Selection → Selection
  unfolding add_group
  add_groups [] s = s
  add_groups (g ∷ gs) s = add_groups gs (add_group g s)

  unfoldable pub select_candidates : List CandRow → Mem → Selection
  unfolding valid_rows keyed runs add_groups
  select_candidates rows mem =
      let valid = valid_rows rows in
      add_groups (runs valid) (record {
        cands = [];
        stats = record {
          channels = length valid;
          keyed_vendors = length (keyed keys valid []);
          cooling_keys = 0;
          quota_cooling_keys = 0;
          decrypt_failed = 0;
        };
        draws = 0;
        mem = mem;
      })

-- The answer of `relay` to a selection without candidates.
pub data Unavailable : Type 0 where
  no_available_channel channel_key_missing keys_undecryptable all_quota_cooling all_cooling :
      Unavailable

abbrev pub unavailable_code : Unavailable → ℕ
unavailable_code no_available_channel = 503
unavailable_code channel_key_missing = 503
unavailable_code keys_undecryptable = 503
unavailable_code all_quota_cooling = 402
unavailable_code all_cooling = 429

unfoldable pub no_candidate : SelectStats → Unavailable
no_candidate s =
    if s.channels == 0
    then no_available_channel
    else if s.keyed_vendors == 0
    then channel_key_missing
    else if ltb 0 s.decrypt_failed && s.decrypt_failed == s.keyed_vendors
    then keys_undecryptable
    else if ltb 0 s.quota_cooling_keys && s.quota_cooling_keys == s.cooling_keys
    then all_quota_cooling
    else all_cooling

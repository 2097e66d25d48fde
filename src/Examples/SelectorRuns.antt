-- ===== src/Examples/SelectorRuns.antt =====
-- A model that two channels of one vendor serve.
use general_api.Base.{
  ◌==◌, if◌then◌else◌, All, pos, ℕ, ◌*◌, ◌%◌, String, ◌≡◌, refl, ◌||◌, Option, none, some, [], ◌∷◌,
  arith,
}
use general_api.Coord.{is_cooling, new_mem}
use general_api.Selector.{KeyRow, CandRow, channel_candidates}
use general_api.Selector.Query.Selected.{IsSelected, select_candidates-IsSelected}
use general_api.Selector.Query.Undecryptable.{select_candidates_undecryptable}
use general_api.Selector.Query.{
  pool_of, valid_rows, select_candidates, no_candidate, unavailable_code,
}
use general_api.Selector.Shuffle.{int_weight, weighted_shuffle}
use general_api.Selector.Servable.{IsServable, channel_candidates-IsServable}

abbrev pub random : ℕ → ℕ → ℕ
random i n = 7 * i % n

abbrev pub row : CandRow
row = record {
  channel_id = 1;
  name = "a";
  vendor_id = 1;
  vendor_name = "v";
  base_url = "u";
  path = "p";
  upstream_model_name = none;
  weight = pos 3;
  priority = pos 0;
}

abbrev other_row : CandRow
other_row = record row { channel_id = 2 }

abbrev pub key : KeyRow
key = record { vendor_id = 1; id = 1; key_enc = "x"; weight = pos 2 }

abbrev other_key : KeyRow
other_key = record key { id = 2 }

abbrev broken : String → Option String
broken text = none

abbrev pub plain : String → Option String
plain text = some text

-- A vendor whose keys cannot be decrypted counts once for each of its channels, and the answer is
-- 429 in place of 503.
undecryptable :
    unavailable_code (
      no_candidate
        (select_candidates (pos 5) broken random (key ∷ []) (row ∷ other_row ∷ []) new_mem).stats)
    ≡ 429
unfolding select_candidates no_candidate channel_candidates weighted_shuffle int_weight is_cooling
undecryptable = refl

-- With one channel it is 503.
undecryptable_once :
    unavailable_code
      (no_candidate (select_candidates (pos 5) broken random (key ∷ []) (row ∷ []) new_mem).stats)
    ≡ 503
unfolding select_candidates no_candidate channel_candidates weighted_shuffle int_weight is_cooling
undecryptable_once = refl

channel_candidates-IsServable_example :
    All
      (IsServable (pos 5) plain (λ k. k.vendor_id ≡ 1) row new_mem)
      (channel_candidates (pos 5) plain random 0 row (key ∷ other_key ∷ []) new_mem).cands
channel_candidates-IsServable_example =
    channel_candidates-IsServable (pos 5) plain random 0 (λ k. k.vendor_id ≡ 1) row
      (key ∷ other_key ∷ []) new_mem (refl, (refl, tt))

select_candidates-IsSelected_example :
    All
      (IsSelected (pos 5) plain (λ k. k.vendor_id ≡ 1) (λ r. r.priority ≡ pos 0) new_mem)
      (select_candidates
        (pos 5)
        plain
        random
        (key ∷ other_key ∷ [])
        (row ∷ other_row ∷ [])
        new_mem).cands
select_candidates-IsSelected_example =
    select_candidates-IsSelected (pos 5) plain random (key ∷ other_key ∷ []) (λ k. k.vendor_id ≡ 1)
      (λ r. r.priority ≡ pos 0) (row ∷ other_row ∷ []) new_mem (refl, (refl, tt)) (refl, (refl, tt))

select_candidates_undecryptable_example :
    let s =
      (select_candidates (pos 5) broken random (key ∷ []) (row ∷ other_row ∷ []) new_mem).stats in
    (s.decrypt_failed ≡ 2)
    × (unavailable_code (no_candidate s)
        ≡ (if s.keyed_vendors == 0 || s.keyed_vendors == 2 then 503 else 429))
unfolding pool_of valid_rows
select_candidates_undecryptable_example =
    select_candidates_undecryptable (pos 5) broken random (key ∷ []) (row ∷ other_row ∷ [])
      (λ text. refl) (omega arith, (omega arith, tt)) (omega arith)

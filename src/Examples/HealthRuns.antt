-- ===== src/Examples/HealthRuns.antt =====
-- Rounds of channel tests and probes.
use general_api.Base.{
  ◌==◌, if◌then◌else◌, pos, ℕ, ◌≡◌, refl, Bool, true, false, Option, none, some, List, [], ◌∷◌,
  arith,
}
use general_api.Breaker.{new_breaker}
use general_api.Prober.{Verdict, Probed, Health, is_enabled}
use general_api.Prober.Hand.{tests, probes, play_all, play_all-disabled_by_hand}
use general_api.Coord.{new_mem, is_cooling}
use general_api.Prober.Keys.{Reply, probe_chat, probe_channel, pick_keys, not_cooling}
use general_api.Prober.Keys.Fates.{judged, probe_channel-judged}
use general_api.Prober.Streaks.{Tests, test_rounds, test_rounds-is_sound}
use general_api.Routes.{VendorRow, VendorKey, ChannelRow, Ability, ModelRow, RouteDb, sync_models}
use general_api.Routes.Aligned.{Agrees, sync_models-Agrees}
use general_api.Routes.Recovery.{Waits, sync_models-recovers}
use mathlib.Core.List.{Mem, mem-cons_self}

abbrev up : Probed
up = record { status = 1; auto_disabled_at = 0; last_test_at = 0; last_test_ok = 1 }

abbrev by_hand : Probed
by_hand = record { status = 0; auto_disabled_at = 0; last_test_at = 0; last_test_ok = 1 }

abbrev table : Health
table = record {
  channels = λ id. if id == 1 then some up else if id == 2 then some by_hand else none;
  failures = λ id. 0;
  breaker = new_breaker 5;
}

abbrev all_of : Bool → Bool → ℕ → Verdict
all_of ok quota id = record { ok = ok; quota = quota }

-- A failure, one of quota, and a second failure, the newest first.
abbrev rounds : List Tests
rounds =
    record { at = 30; verdicts = all_of false false }
    ∷ record { at = 20; verdicts = all_of false true }
    ∷ record { at = 10; verdicts = all_of false false }
    ∷ []

test_rounds-is_sound_example :
    is_enabled ((test_rounds 2 (1 ∷ 2 ∷ []) rounds table).channels 1) ≡ false
test_rounds-is_sound_example =
    test_rounds-is_sound 2 (1 ∷ 2 ∷ []) 1 rounds up table (omega arith) refl refl refl refl

play_all-disabled_by_hand_example :
    (play_all
        (1 ∷ 2 ∷ [])
        (tests 1 10 (all_of true false) ∷ probes 20 (all_of true false) ∷ [])
        table).channels
      2
    ≡ some by_hand
play_all-disabled_by_hand_example =
    play_all-disabled_by_hand (1 ∷ 2 ∷ [])
      (tests 1 10 (all_of true false) ∷ probes 20 (all_of true false) ∷ []) 2 by_hand table refl
      refl refl

abbrev with_status : ℕ → Option Reply
with_status status =
    some (record { status = status; event_stream = false; first_chunk = false; quota_code = true })

-- The first key is short of quota, the second refused, and the third works.
abbrev replies : ℕ → Option Reply
replies id =
    if id == 1 then with_status 429 else if id == 2 then with_status 401 else with_status 200

abbrev tried : List (ℕ × Option Reply)
tried = (1, with_status 429) ∷ (2, with_status 401) ∷ (3, with_status 200) ∷ []

probe_channel-judged_example :
    let r =
      probe_channel (pos 100) (pos 0) probe_chat 4 (λ id. true) (1 ∷ 2 ∷ 3 ∷ []) replies new_mem in
    (r.0.verdict ≡ judged probe_chat true tried) × (r.2 ≡ 2 ∷ [])
unfolding pick_keys not_cooling is_cooling
probe_channel-judged_example =
    probe_channel-judged (pos 100) (pos 0) probe_chat 4 (λ id. true) (1 ∷ 2 ∷ 3 ∷ []) replies
      new_mem 1 (2 ∷ 3 ∷ []) refl

abbrev vendor : VendorRow
vendor = record { id = 1; status = 1 }

abbrev new_key : VendorKey
new_key = record { vendor_id = 1; status = 1 }

abbrev keyless : ChannelRow
keyless = record {
  id = 4;
  name = "a";
  vendor_id = 1;
  status = 0;
  base_url = "u";
  path = "p";
  auto_disabled_at = 0;
  nokey_disabled_at = 7;
  updated_at = 7;
}

abbrev ability : Ability
ability = record { model_name = "m"; channel_id = 4 }

abbrev stopped : ModelRow
stopped = record { name = "m"; status = 0; auto_disabled_at = 7; updated_at = 7 }

-- A key was added to the vendor.
abbrev rekeyed : RouteDb
rekeyed = record {
  vendors = vendor ∷ [];
  vendor_keys = new_key ∷ [];
  channels = keyless ∷ [];
  abilities = ability ∷ [];
  models = stopped ∷ [];
}

rekeyed-Waits : Waits rekeyed vendor new_key keyless ability stopped
rekeyed-Waits = record {
  vendor_in = mem-cons_self;
  vendor_is_on = refl;
  key_in = mem-cons_self;
  key_of = refl;
  key_is_on = refl;
  channel_in = mem-cons_self;
  channel_of = refl;
  channel_off = refl;
  for_no_key = refl;
  has_url = refl;
  has_path = refl;
  ability_in = mem-cons_self;
  by_channel = refl;
  of_model = refl;
  model_in = mem-cons_self;
  model_off = refl;
  automatically = refl;
}

sync_models-recovers_example :
    Mem
      (record keyless { status = 1; nokey_disabled_at = 0; updated_at = 9 })
      (sync_models 9 rekeyed).db.channels
    × Mem
        (record stopped { status = 1; auto_disabled_at = 0; updated_at = 9 })
        (sync_models 9 rekeyed).db.models
sync_models-recovers_example =
    sync_models-recovers 9 rekeyed vendor new_key keyless ability stopped rekeyed-Waits

sync_models-Agrees_example :
    let s = sync_models 9 rekeyed in
    Agrees s.db
    × (sync_models 11 s.db ≡ record {
      db = s.db;
      channels_disabled = [];
      channels_recovered = [];
      disabled = [];
      recovered = [];
    })
sync_models-Agrees_example = sync_models-Agrees 9 11 rekeyed

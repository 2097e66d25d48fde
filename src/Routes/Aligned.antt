-- ===== src/Routes/Aligned.antt =====
-- After a synchronisation the states agree with the keys, and another one finds nothing to do.
use general_api.Base.{
  ltb, ◌==◌, if◌then◌else◌, All, ℕ, String, ◌≡◌, refl, ap, ◌∙◌, Bool, true, false, ◌&&◌, not, List,
  [], ◌∷◌, arith,
}
use general_api.Routes.{
  ChannelRow, ModelRow, RouteDb, has_usable_key, has_live_upstream, sweep, sync_channel_key_state,
  sync_model_routable_status, disable_no_key_channels, recover_keyed_channels, disable_models,
  recover_models, Synced, sync_models,
}

-- A channel that is on has a key, and one that was switched off for want of a key has none.
abbrev pub channel_agrees : RouteDb → ChannelRow → Bool
channel_agrees db c =
    if c.status == 1
    then has_usable_key db c
    else not (c.status == 0 && ltb 0 c.nokey_disabled_at && has_usable_key db c)

-- A model that is on has an upstream, and one that was switched off automatically has none.
abbrev pub model_agrees : RouteDb → ModelRow → Bool
model_agrees db m =
    if m.status == 1
    then has_live_upstream db m.name
    else not (m.status == 0 && ltb 0 m.auto_disabled_at && has_live_upstream db m.name)

abbrev pub Agrees : RouteDb → Type 0
Agrees db =
    All (λ c. channel_agrees db c ≡ true) db.channels
    × All (λ m. model_agrees db m ≡ true) db.models

-- Two sweeps whose tests are those of one state.
module _ {ℓ} {A : Type ℓ} (off on : A → Bool) (set_off set_on : A → A) (name : A → String)
    (agrees : A → Bool) where
  swept : List A → List A
  swept rows = (sweep on set_on name (sweep off set_off name rows).0).0

  abbrev Settles : Type ℓ
  Settles =
      (r : A)
      → agrees (
          if on (if off r then set_off r else r)
          then set_on (if off r then set_off r else r)
          else if off r
          then set_off r
          else r)
        ≡ true

  swept-agrees : Settles → (rows : List A) → All (λ r. agrees r ≡ true) (swept rows)
  unfolding swept
  swept-agrees s [] = tt
  swept-agrees s (r ∷ rows) = (s r, swept-agrees s rows)

  -- Rows that agree are left alone.
  still :
      ((r : A) → agrees r ≡ true → (off r ≡ false) × (on r ≡ false))
      → (rows : List A) → All (λ r. agrees r ≡ true) rows
      → (sweep off set_off name rows ≡ (rows, [])) × (sweep on set_on name rows ≡ (rows, []))
  still k [] a = (refl, refl)
  still k (r ∷ rows) a =
      let e = k r a.0 in
      let h = still k rows a.1 in
      (
        rw e.0 (ap (λ (x : List A × List String). (r ∷ x.0, x.1)) h.0),
        rw e.1 (ap (λ (x : List A × List String). (r ∷ x.0, x.1)) h.1),
      )

module _ (now : ℕ) (db : RouteDb) where
  channel_settles :
      (c : ChannelRow)
      → let c1 =
          (if c.status == 1 && not (has_usable_key db c)
            then record c { status = 0; nokey_disabled_at = now; updated_at = now }
            else c) in
        let c2 =
          (if c1.status == 0 && ltb 0 c1.nokey_disabled_at && has_usable_key db c1
            then record c1 { status = 1; nokey_disabled_at = 0; updated_at = now }
            else c1) in
        channel_agrees db c2 ≡ true
  unfolding has_usable_key
  channel_settles c = ground arith

  model_settles :
      (m : ModelRow)
      → let m1 =
          (if m.status == 1 && not (has_live_upstream db m.name)
            then record m { status = 0; auto_disabled_at = now; updated_at = now }
            else m) in
        let m2 =
          (if m1.status == 0 && ltb 0 m1.auto_disabled_at && has_live_upstream db m1.name
            then record m1 { status = 1; auto_disabled_at = 0; updated_at = now }
            else m1) in
        model_agrees db m2 ≡ true
  model_settles m = ground arith

  synced_channels : All (λ c. channel_agrees db c ≡ true) (sync_channel_key_state now db).0.channels
  unfolding sync_channel_key_state disable_no_key_channels recover_keyed_channels swept
      has_usable_key
  synced_channels =
      swept-agrees (λ c. c.status == 1 && not (has_usable_key db c))
        (λ c. c.status == 0 && ltb 0 c.nokey_disabled_at && has_usable_key db c)
        (λ c. record c { status = 0; nokey_disabled_at = now; updated_at = now })
        (λ c. record c { status = 1; nokey_disabled_at = 0; updated_at = now }) (λ c. c.name)
        (channel_agrees db) channel_settles db.channels

  synced_models : All (λ m. model_agrees db m ≡ true) (sync_model_routable_status now db).0.models
  unfolding sync_model_routable_status swept has_live_upstream
  synced_models =
      swept-agrees (λ (m : ModelRow). m.status == 1 && not (has_live_upstream db m.name))
        (λ m. m.status == 0 && ltb 0 m.auto_disabled_at && has_live_upstream db m.name)
        (λ m. record m { status = 0; auto_disabled_at = now; updated_at = now })
        (λ m. record m { status = 1; auto_disabled_at = 0; updated_at = now }) (λ m. m.name)
        (model_agrees db) model_settles db.models

  still_channels :
      All (λ c. channel_agrees db c ≡ true) db.channels
      → sync_channel_key_state now db ≡ (db, [], [])
  unfolding sync_channel_key_state disable_no_key_channels recover_keyed_channels
  still_channels a =
      let k =
        still (λ c. c.status == 1 && not (has_usable_key db c))
          (λ c. c.status == 0 && ltb 0 c.nokey_disabled_at && has_usable_key db c)
          (λ c. record c { status = 0; nokey_disabled_at = now; updated_at = now })
          (λ c. record c { status = 1; nokey_disabled_at = 0; updated_at = now }) (λ c. c.name)
          (channel_agrees db) (λ c e. (ground arith, ground arith)) db.channels a in
      let d : disable_no_key_channels now db ≡ (db, []) =
        ap (λ (x : List ChannelRow × List String). (record db { channels = x.0 }, x.1)) k.0 in
      let r : recover_keyed_channels now db ≡ (db, []) =
        ap (λ (x : List ChannelRow × List String). (record db { channels = x.0 }, x.1)) k.1 in
      ap (λ (x : RouteDb × List String). let y = recover_keyed_channels now x.0 in (y.0, x.1, y.1))
        d
      ∙ ap (λ (x : RouteDb × List String). (x.0, [], x.1)) r

  still_models :
      All (λ m. model_agrees db m ≡ true) db.models
      → sync_model_routable_status now db ≡ (db, [], [])
  unfolding sync_model_routable_status
  still_models a =
      let k =
        still (λ (m : ModelRow). m.status == 1 && not (has_live_upstream db m.name))
          (λ m. m.status == 0 && ltb 0 m.auto_disabled_at && has_live_upstream db m.name)
          (λ m. record m { status = 0; auto_disabled_at = now; updated_at = now })
          (λ m. record m { status = 1; auto_disabled_at = 0; updated_at = now }) (λ m. m.name)
          (model_agrees db) (λ m e. (ground arith, ground arith)) db.models a in
      let d : disable_models now db ≡ (db, []) =
        ap (λ (x : List ModelRow × List String). (record db { models = x.0 }, x.1)) k.0 in
      let r : recover_models now db ≡ (db, []) =
        ap (λ (x : List ModelRow × List String). (record db { models = x.0 }, x.1)) k.1 in
      ap (λ (x : RouteDb × List String). let y = recover_models now x.0 in (y.0, x.1, y.1)) d
      ∙ ap (λ (x : RouteDb × List String). (x.0, [], x.1)) r

synced-Agrees : (now : ℕ) (db : RouteDb) → Agrees (sync_models now db).db
unfolding sync_models sync_channel_key_state sync_model_routable_status disable_no_key_channels
    recover_keyed_channels has_usable_key has_live_upstream
synced-Agrees now db = (synced_channels now db, synced_models now (sync_channel_key_state now db).0)

abbrev unchanged : RouteDb → Synced
unchanged db = record {
  db = db;
  channels_disabled = [];
  channels_recovered = [];
  disabled = [];
  recovered = [];
}

abbrev with_models : ℕ → RouteDb × List String × List String → Synced
with_models now c =
    let m = sync_model_routable_status now c.0 in
    record {
      db = m.0;
      channels_disabled = c.1;
      channels_recovered = c.2;
      disabled = m.1;
      recovered = m.2;
    }

still-synced : (now : ℕ) (db : RouteDb) → Agrees db → sync_models now db ≡ unchanged db
unfolding sync_models
still-synced now db (c, m) =
    ap (λ (x : RouteDb × List String × List String). with_models now x) (still_channels now db c)
    ∙ ap
        (λ (x : RouteDb × List String × List String). record {
          db = x.0;
          channels_disabled = [];
          channels_recovered = [];
          disabled = x.1;
          recovered = x.2;
        })
        (still_models now db m)

-- After a synchronisation, whatever the tables held, a channel that is on has a usable key and one
-- that is off for want of a key has none, a model that is on has a live upstream and one that was
-- switched off automatically has none; and another one, at any time, changes nothing and reports
-- nothing.
pub sync_models-Agrees :
    (now later : ℕ) (db : RouteDb)
    → let s = sync_models now db in
      Agrees s.db
      × (sync_models later s.db ≡ record {
        db = s.db;
        channels_disabled = [];
        channels_recovered = [];
        disabled = [];
        recovered = [];
      })
sync_models-Agrees now later db =
    (synced-Agrees now db, still-synced later (sync_models now db).db (synced-Agrees now db))

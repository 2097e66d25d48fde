-- ===== src/Routes/Recovery.antt =====
-- A key that comes back brings its channel and its model back in one synchronisation.
use general_api.Base.{
  ltb, ◌==◌, if◌then◌else◌, ==_iff, ℕ, String, ◌≡◌, refl, sym, subst, ◌∙◌, Bool, true, false, ◌&&◌,
  ◌||◌, not, List, [], ◌∷◌, map, arith, str_eq, eq_iff,
}
use general_api.Routes.{
  VendorRow, VendorKey, ChannelRow, Ability, ModelRow, RouteDb, any, vendor_on, serves,
  has_usable_key, has_live_upstream, sweep, sync_channel_key_state, sync_model_routable_status,
  disable_no_key_channels, recover_keyed_channels, sync_models,
}
use mathlib.Core.List.{Mem, mem-cons, not-mem-nil, mem-map_of_mem}
use mathlib.Core.Logic.Or
use mathlib.Core.Bool.{Bool-set}

-- A model and its channel were switched off for want of a key that is there now.
pub record Waits (db : RouteDb) (v : VendorRow) (k : VendorKey) (c : ChannelRow) (a : Ability)
    (m : ModelRow) : Type 0 where
  pub vendor_in : Mem v db.vendors
  pub vendor_is_on : v.status ≡ 1
  pub key_in : Mem k db.vendor_keys
  pub key_of : k.vendor_id ≡ v.id
  pub key_is_on : k.status ≡ 1
  pub channel_in : Mem c db.channels
  pub channel_of : c.vendor_id ≡ v.id
  pub channel_off : c.status ≡ 0
  pub for_no_key : ltb 0 c.nokey_disabled_at ≡ true
  pub has_url : str_eq c.base_url "" ≡ false
  pub has_path : str_eq c.path "" ≡ false
  pub ability_in : Mem a db.abilities
  pub by_channel : a.channel_id ≡ c.id
  pub of_model : a.model_name ≡ m.name
  pub model_in : Mem m db.models
  pub model_off : m.status ≡ 0
  pub automatically : ltb 0 m.auto_disabled_at ≡ true

any_of_mem {ℓ} :
    {A : Type ℓ} (f : A → Bool) (x : A) (xs : List A) → Mem x xs → f x ≡ true → any f xs ≡ true
any_of_mem f x [] i e = absurd (not-mem-nil i)
any_of_mem f x (y ∷ ys) i e =
    Or.elim (Bool-set _ _) (mem-cons.0 i) (λ p. subst (λ z. f z || any f ys ≡ true) p (rw e refl))
      (λ j. ground (arith, any_of_mem f x ys j e))

-- A row that the second of two sweeps selects, and the first does not.
back {ℓ} :
    {A : Type ℓ} (off on : A → Bool) (set_off set_on : A → A) (name : A → String) (x : A)
    (xs : List A)
    → Mem x xs
    → off x ≡ false
    → on x ≡ true
    → Mem (set_on x) (sweep on set_on name (sweep off set_off name xs).0).0
back {A} off on set_off set_on name x xs i e f =
    let off_row = λ (r : A). if off r then set_off r else r in
    let stays : off_row x ≡ x = rw e refl in
    let turned : (if on x then set_on x else x) ≡ set_on x = rw f refl in
    subst (λ z. Mem z (sweep on set_on name (sweep off set_off name xs).0).0) turned
      (mem-map_of_mem (λ r. if on r then set_on r else r)
        (subst (λ z. Mem z (map off_row xs)) stays (mem-map_of_mem off_row i)))

module _ (now : ℕ) (db : RouteDb) (v : VendorRow) (k : VendorKey) (c : ChannelRow) (a : Ability)
    (m : ModelRow) (w : Waits db v k c a m) where
  abbrev c_on : ChannelRow
  c_on = record c { status = 1; nokey_disabled_at = 0; updated_at = now }

  abbrev m_on : ModelRow
  m_on = record m { status = 1; auto_disabled_at = 0; updated_at = now }

  same_id : {i j : ℕ} → i ≡ j → i == j ≡ true
  same_id {i} {j} e = (==_iff i j).1 e

  vendor_works : vendor_on db c.vendor_id ≡ true
  vendor_works =
      any_of_mem (λ (x : VendorRow). x.id == c.vendor_id && x.status == 1) v db.vendors w.vendor_in
        (rw (same_id (sym w.channel_of), same_id w.vendor_is_on) refl)

  key_works : has_usable_key db c ≡ true
  unfolding has_usable_key
  key_works =
      any_of_mem
        (λ (x : VendorKey). x.vendor_id == c.vendor_id && x.status == 1 && vendor_on db x.vendor_id)
        k db.vendor_keys w.key_in
        (rw (same_id (w.key_of ∙ sym w.channel_of), same_id w.key_is_on)
          (subst (λ i. vendor_on db i ≡ true) (w.channel_of ∙ sym w.key_of) vendor_works))

  channel_back : Mem c_on (sync_channel_key_state now db).0.channels
  unfolding sync_channel_key_state disable_no_key_channels recover_keyed_channels has_usable_key
  channel_back =
      back (λ x. x.status == 1 && not (has_usable_key db x))
        (λ x. x.status == 0 && ltb 0 x.nokey_disabled_at && has_usable_key db x)
        (λ x. record x { status = 0; nokey_disabled_at = now; updated_at = now })
        (λ x. record x { status = 1; nokey_disabled_at = 0; updated_at = now }) (λ x. x.name) c
        db.channels w.channel_in (rw w.channel_off refl)
        (rw (same_id w.channel_off, w.for_no_key, key_works) refl)

  model_lives : has_live_upstream (sync_channel_key_state now db).0 m.name ≡ true
  unfolding has_live_upstream sync_channel_key_state disable_no_key_channels recover_keyed_channels
  model_lives =
      let db1 = (sync_channel_key_state now db).0 in
      let keyed =
        any_of_mem (λ (x : VendorKey). x.vendor_id == c.vendor_id && x.status == 1) k db.vendor_keys
          w.key_in (rw (same_id (w.key_of ∙ sym w.channel_of), same_id w.key_is_on) refl) in
      any_of_mem
        (λ (x : Ability). str_eq x.model_name m.name && any (serves db1 x.channel_id) db1.channels)
        a db.abilities w.ability_in
        (rw ((eq_iff a.model_name m.name).1 w.of_model) (
          any_of_mem (serves db1 a.channel_id) c_on db1.channels channel_back
            (rw (same_id (sym w.by_channel), vendor_works, w.has_url, w.has_path, keyed) refl)))

  -- When the vendor of a channel that was switched off for want of a key has a key again, one
  -- synchronisation switches the channel on, and with it a model that it serves and that was
  -- switched off automatically.
  pub sync_models-recovers :
      Mem c_on (sync_models now db).db.channels × Mem m_on (sync_models now db).db.models
  unfolding sync_models sync_model_routable_status sync_channel_key_state disable_no_key_channels
      recover_keyed_channels has_live_upstream
  sync_models-recovers =
      let db1 = (sync_channel_key_state now db).0 in
      (
        channel_back,
        back (λ (x : ModelRow). x.status == 1 && not (has_live_upstream db1 x.name))
            (λ x. x.status == 0 && ltb 0 x.auto_disabled_at && has_live_upstream db1 x.name)
            (λ x. record x { status = 0; auto_disabled_at = now; updated_at = now })
            (λ x. record x { status = 1; auto_disabled_at = 0; updated_at = now }) (λ x. x.name) m
            db1.models w.model_in (rw w.model_off refl)
            (rw (same_id w.model_off, w.automatically, model_lives) refl),
      )

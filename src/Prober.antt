-- ===== src/Prober.antt =====
-- internal/gateway/prober.go: the rounds that test the enabled channels and probe those that the
-- system has disabled. The verdict on a channel is an argument; notes, mails, metrics and the
-- models of a channel are left out.
pub mod Streaks
pub mod Hand
pub mod Keys
use general_api.Base.{
  ltb, leb, ◌==◌, if◌then◌else◌, ltb→lt, lt→ltb, leb→le, ==_iff, Bool-cases, Option-cases, if_intro,
  length, length-append, All, All-append, ℤ, pos_part, neg_part, sub_ℕ, ◌+ℤ◌, ◌-ℤ◌, ◌≤ℤ◌, ◌<ℤ◌,
  ltb_ℤ, leb_ℤ, eqb_ℤ, +ℤ_parts, -ℤ_parts, eq_of_parts, int_laws, +ℤ_comm, +ℤ_assoc, +ℤ_zero,
  InRange, in_range, bits64, signed64, wrap64, wrap64-InRange, eqb_ℤ→eq, pos, negsuc, ℕ, zero, suc,
  ◌+◌, ◌-◌, ◌*◌, ◌/◌, ◌%◌, ◌^◌, ◌≤◌, ◌<◌, min, max, String, ◌≡◌, refl, sym, ap, subst, ◌∙◌, ◌≢◌,
  ◌↔◌, ◌⊎◌, inl, inr, Bool, true, false, ◌&&◌, ◌||◌, not, Option, none, some, List, [], ◌∷◌, ◌++◌,
  map, filter, append_assoc, append-nil, arith, str_eq, eq_iff, dec_lt, dec_le, ℕ_discrete,
}
use general_api.Breaker.{Breaker, record_success}

-- `ProbeResult`: whether the channel answered, and whether the failure is one of quota.
pub record Verdict : Type 0 where
  pub ok : Bool
  pub quota : Bool

pub record Probed : Type 0 where
  pub status : ℕ
  pub auto_disabled_at : ℕ
  pub last_test_at : ℕ
  pub last_test_ok : ℕ

-- The table of channels, the failures in a row that the tests have counted, and the breaker.
pub record Health : Type 0 where
  pub channels : ℕ → Option Probed
  pub failures : ℕ → ℕ
  pub breaker : Breaker

abbrev pub put_channel : ℕ → Probed → (ℕ → Option Probed) → ℕ → Option Probed
put_channel id c m j = if j == id then some c else m j

abbrev pub put_failures : ℕ → ℕ → (ℕ → ℕ) → ℕ → ℕ
put_failures id n m j = if j == id then n else m j

-- UPDATE channels SET last_test_at = ?, last_test_ok = ?
pub note_test : ℕ → ℕ → ℕ → Health → Health
note_test now result id h = elim (h.channels id) [
  | none ↦ h
  | some c ↦ record h {
    channels = put_channel id (record c { last_test_at = now; last_test_ok = result }) h.channels;
  }
]

-- UPDATE channels SET status = 0, auto_disabled_at = ? … AND status = 1; the failures are forgotten
-- if it hits.
pub switch_off : ℕ → ℕ → Health → Health × Bool
switch_off now id h = elim (h.channels id) [
  | none ↦ (h, false)
  | some c ↦
      if c.status == 1
      then (
        record h {
          channels = put_channel id (record c { status = 0; auto_disabled_at = now }) h.channels;
          failures = put_failures id 0 h.failures;
        },
        true,
      )
      else (h, false)
]

-- The body of the loop of `ChannelTestOnce`, and whether it has disabled the channel.
pub test_channel : ℕ → ℕ → Verdict → ℕ → Health → Health × Bool
unfolding note_test switch_off
test_channel threshold now v id h =
    if v.ok
    then (note_test now 1 id (record h { failures = put_failures id 0 h.failures }), false)
    else if v.quota
    then (note_test now 0 id h, false)
    else (let n = h.failures id + 1 in
        let h1 = note_test now 0 id (record h { failures = put_failures id n h.failures }) in
        if ltb n threshold then (h1, false) else switch_off now id h1)

abbrev pub is_enabled : Option Probed → Bool
is_enabled none = false
is_enabled (some c) = c.status == 1

-- `snap` is the table as the round has read it.
pub test_channels : ℕ → ℕ → (ℕ → Verdict) → (ℕ → Option Probed) → List ℕ → Health → Health × ℕ
unfolding test_channel
test_channels threshold now verdicts snap [] h = (h, 0)
test_channels threshold now verdicts snap (id ∷ ids) h =
    let s =
      (if is_enabled (snap id)
        then test_channel threshold now (verdicts id) id h
        else (h, false)) in
    let rest = test_channels threshold now verdicts snap ids s.0 in
    (rest.0, if s.1 then rest.1 + 1 else rest.1)

-- `ChannelTestOnce` over the identifiers of the table, with the number of channels it disables.
unfoldable pub channel_test_once : ℕ → ℕ → (ℕ → Verdict) → List ℕ → Health → Health × ℕ
unfolding test_channels
channel_test_once threshold now verdicts ids h =
    test_channels (if threshold == 0 then 3 else threshold) now verdicts h.channels ids h

abbrev pub is_auto_disabled : Option Probed → Bool
is_auto_disabled none = false
is_auto_disabled (some c) = c.status == 0 && ltb 0 c.auto_disabled_at

-- UPDATE channels SET status = 1, auto_disabled_at = 0 … AND status = 0 AND auto_disabled_at > 0
pub recover : ℕ → ℕ → Health → Health × Bool
recover now id h = elim (h.channels id) [
  | none ↦ (h, false)
  | some c ↦
      if c.status == 0 && ltb 0 c.auto_disabled_at
      then (
        record h {
          channels =
              put_channel id
                (record { status = 1; auto_disabled_at = 0; last_test_at = now; last_test_ok = 1 })
                h.channels;
          breaker = record_success id h.breaker;
        },
        true,
      )
      else (h, false)
]

pub probe_disabled : ℕ → Verdict → ℕ → Health → Health × Bool
unfolding recover note_test
probe_disabled now v id h = if v.ok then recover now id h else (note_test now 0 id h, false)

pub probe_channels : ℕ → (ℕ → Verdict) → (ℕ → Option Probed) → List ℕ → Health → Health × ℕ
unfolding probe_disabled
probe_channels now verdicts snap [] h = (h, 0)
probe_channels now verdicts snap (id ∷ ids) h =
    let s =
      (if is_auto_disabled (snap id) then probe_disabled now (verdicts id) id h else (h, false)) in
    let rest = probe_channels now verdicts snap ids s.0 in
    (rest.0, if s.1 then rest.1 + 1 else rest.1)

-- `AutoProbeOnce`, with the number of channels it recovers.
unfoldable pub auto_probe_once : ℕ → (ℕ → Verdict) → List ℕ → Health → Health × ℕ
unfolding probe_channels
auto_probe_once now verdicts ids h = probe_channels now verdicts h.channels ids h

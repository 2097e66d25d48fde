-- ===== src/Prober/Keys.antt =====
-- ProbeChannel and probeOnce of internal/gateway/prober.go: the keys of a vendor are tried one
-- after another. What the upstream answers to each key, and whether a key decrypts, are arguments;
-- texts, notes and latencies are left out.
pub mod Fates
use general_api.Base.{
  ltb, leb, ◌==◌, if◌then◌else◌, ltb→lt, lt→ltb, leb→le, ==_iff, Bool-cases, Option-cases, if_intro,
  length, length-append, All, All-append, ℤ, pos_part, neg_part, sub_ℕ, ◌+ℤ◌, ◌-ℤ◌, ◌≤ℤ◌, ◌<ℤ◌,
  ltb_ℤ, leb_ℤ, eqb_ℤ, +ℤ_parts, -ℤ_parts, eq_of_parts, int_laws, +ℤ_comm, +ℤ_assoc, +ℤ_zero,
  InRange, in_range, bits64, signed64, wrap64, wrap64-InRange, eqb_ℤ→eq, pos, negsuc, ℕ, zero, suc,
  ◌+◌, ◌-◌, ◌*◌, ◌/◌, ◌%◌, ◌^◌, ◌≤◌, ◌<◌, min, max, String, ◌≡◌, refl, sym, ap, subst, ◌∙◌, ◌≢◌,
  ◌↔◌, ◌⊎◌, inl, inr, Bool, true, false, ◌&&◌, ◌||◌, not, Option, none, some, List, [], ◌∷◌, ◌++◌,
  map, filter, append_assoc, append-nil, arith, str_eq, eq_iff, dec_lt, dec_le, ℕ_discrete,
}
use general_api.Coord.{
  Mem, Scope, ck, is_cooling, set_cooldown, clear_cooldown, backoff, mark_quota_cooling,
}
use general_api.Prober.{Verdict}

pub data Kind : Type 0 where
  probe_chat probe_embedding probe_video : Kind

-- An answer: whether it is an event stream whose first data comes and is no error, and whether its
-- body has a code of quota.
pub record Reply : Type 0 where
  pub status : ℕ
  pub event_stream : Bool
  pub first_chunk : Bool
  pub quota_code : Bool

pub record ProbeResult : Type 0 where
  pub verdict : Verdict
  pub status : ℕ

abbrev pub failed : ℕ → ProbeResult
failed status = record { verdict = record { ok = false; quota = false }; status = status }

abbrev pub passed : ℕ → ProbeResult
passed status = record { verdict = record { ok = true; quota = false }; status = status }

abbrev pub is_2xx : ℕ → Bool
is_2xx status = leb 200 status && ltb status 300

abbrev pub is_chat : Kind → Bool
is_chat probe_chat = true
is_chat _ = false

abbrev pub is_video : Kind → Bool
is_video probe_video = true
is_video _ = false

-- quota429CooldownMax
abbrev pub quota_backoff_max : ℤ
quota_backoff_max = pos 86400000000000

pub quota_cooled : ℤ → ℤ → Scope → Mem → Mem
quota_cooled now base scope mem =
    let b = backoff now scope base quota_backoff_max mem in mark_quota_cooling now scope b.0 b.1

-- `probeOnce`; `none` is a request that could not be made or was not answered.
pub probe_once : ℤ → ℤ → Kind → Scope → Option Reply → Mem → ProbeResult × Mem
unfolding quota_cooled
probe_once now base kind scope none mem = (failed 0, mem)
probe_once now base kind scope (some r) mem =
    if is_2xx r.status && is_chat kind && r.event_stream
    then (if r.first_chunk
        then (passed r.status, clear_cooldown scope mem)
        else (failed r.status, mem))
    else if is_2xx r.status || is_video kind && (r.status == 404 || r.status == 400)
    then (passed r.status, clear_cooldown scope mem)
    else if r.status == 429 && r.quota_code
    then (
      record { verdict = record { ok = false; quota = true }; status = r.status },
      quota_cooled now base scope mem,
    )
    else (failed r.status, mem)

pub data Next : Type 0 where
  stop out_of_quota bad_key : Next

pub next_of : ProbeResult → Next
next_of r =
    if r.verdict.ok
    then stop
    else if r.verdict.quota
    then out_of_quota
    else if r.status == 401 || r.status == 403 || r.status == 402
    then bad_key
    else stop

-- The result, the coordinator and the keys that are disabled. `n` of the `total` keys were out of
-- quota so far.
pub probe_keys :
    ℤ
    → ℤ
    → Kind
    → ℕ
    → ℕ
    → ℕ
    → ProbeResult
    → List (ℕ × Option Reply)
    → Mem
    → ProbeResult × Mem × List ℕ
unfolding probe_once next_of
probe_keys now base kind vendor total n last [] mem = (
  if n == total
      then last
      else record last { verdict = record { ok = last.verdict.ok; quota = false } },
  mem,
  [],
)
probe_keys now base kind vendor total n last ((id, reply) ∷ keys) mem =
    let r = probe_once now base kind (ck vendor id) reply mem in
    elim (next_of r.0) [
      | stop ↦ (r.0, r.1, [])
      | out_of_quota ↦ probe_keys now base kind vendor total (n + 1) r.0 keys r.1
      | bad_key ↦
          let rest =
            probe_keys now base kind vendor total n r.0 keys
              (set_cooldown now (ck vendor id) base r.1) in
          (rest.0, rest.1, id ∷ rest.2)
    ]

-- The keys of the pool that do not cool. Looking a key up may drop its expired entry.
unfoldable pub not_cooling : ℤ → ℕ → List ℕ → Mem → List ℕ × Mem
not_cooling now vendor [] mem = ([], mem)
not_cooling now vendor (id ∷ ids) mem =
    let c = is_cooling now (ck vendor id) mem in
    let rest = not_cooling now vendor ids c.1 in (if c.0 then rest.0 else id ∷ rest.0, rest.1)

abbrev first_of : List ℕ → List ℕ
first_of [] = []
first_of (id ∷ ids) = id ∷ []

abbrev alive : (ℕ → Bool) → List ℕ → List ℕ
alive decrypts [] = []
alive decrypts (id ∷ ids) = let rest = alive decrypts ids in if decrypts id then id ∷ rest else rest

-- The first key where all cool; those that do not decrypt are left out.
unfoldable pub pick_keys : ℤ → ℕ → (ℕ → Bool) → List ℕ → Mem → List ℕ × Mem
unfolding not_cooling
pick_keys now vendor decrypts pool mem =
    let u = not_cooling now vendor pool mem in
    (alive decrypts (elim u.0 [ [] ↦ first_of pool | id ∷ ids ↦ id ∷ ids ]), u.1)

-- `ProbeChannel` over the keys that it has picked.
unfoldable pub probe_picked :
    ℤ → ℤ → Kind → ℕ → List (ℕ × Option Reply) → Mem → ProbeResult × Mem × List ℕ
unfolding probe_keys
probe_picked now base kind vendor [] mem = (failed 0, mem, [])
probe_picked now base kind vendor (k ∷ ks) mem =
    probe_keys now (if leb_ℤ base (pos 0) then pos 60000000000 else base) kind vendor
      (length (k ∷ ks)) 0 (failed 0) (k ∷ ks) mem

-- `ProbeChannel` over the enabled keys of the vendor.
unfoldable pub probe_channel :
    ℤ → ℤ → Kind → ℕ → (ℕ → Bool) → List ℕ → (ℕ → Option Reply) → Mem → ProbeResult × Mem × List ℕ
unfolding pick_keys probe_picked
probe_channel now base kind vendor decrypts pool replies mem =
    let p = pick_keys now vendor decrypts pool mem in
    probe_picked now base kind vendor (map (λ id. (id, replies id)) p.0) p.1

-- ===== src/Coord.antt =====
-- internal/coord/mem.go, the cooldowns: which key or channel is cooling, until when, and why. Times
-- and durations are nanoseconds; a duration is an int64.
pub mod Cooling
pub mod Backoff
pub mod Slots
use general_api.Base.{
  ◌==◌, if◌then◌else◌, ℤ, ◌+ℤ◌, ltb_ℤ, leb_ℤ, bits64, signed64, pos, ℕ, ◌+◌, ◌-◌, ◌*◌, ◌%◌, ◌^◌,
  min, max, Bool, true, false, ◌&&◌, Option, none, some,
}

-- The scopes of coord.go: `ck:{vendor}:{key}` and `ch:{channel}`.
pub data Scope : Type 0 where
  ck : ℕ → ℕ → Scope
  ch : ℕ → Scope

abbrev pub same_scope : Scope → Scope → Bool
same_scope (ck a b) (ck c d) = a == c && b == d
same_scope (ch a) (ch b) = a == b
same_scope _ _ = false

-- `cdEntry`
pub record Entry : Type 0 where
  pub until : ℤ
  pub hits : ℕ
  pub quota : Bool

-- The map of `Mem`.
abbrev pub Mem : Type 0
Mem = Scope → Option Entry

abbrev pub new_mem : Mem
new_mem scope = none

abbrev pub put : Scope → Option Entry → Mem → Mem
put scope e m s = if same_scope s scope then e else m s

-- time.Now().After(e.until)
abbrev pub expired : ℤ → Entry → Bool
expired now e = ltb_ℤ e.until now

-- An entry that is there and not expired.
abbrev pub live : ℤ → Option Entry → Option Entry
live now none = none
live now (some e) = if expired now e then none else some e

abbrev pub is_some {ℓ} : {A : Type ℓ} → Option A → Bool
is_some none = false
is_some (some a) = true

-- The lookups drop an entry that has expired.
clean : ℤ → Scope → Mem → Mem
clean now scope m = elim (m scope) [
  | none ↦ m
  | some e ↦ if expired now e then put scope none m else m
]

unfoldable pub is_cooling : ℤ → Scope → Mem → Bool × Mem
unfolding clean
is_cooling now scope m = (is_some (live now (m scope)), clean now scope m)

quota_of : Option Entry → Bool
quota_of none = false
quota_of (some e) = e.quota

unfoldable pub is_quota_cooling : ℤ → Scope → Mem → Bool × Mem
unfolding clean quota_of
is_quota_cooling now scope m = (quota_of (live now (m scope)), clean now scope m)

-- A shorter cooldown does not replace a longer one.
longer : ℤ → ℤ → Option Entry → Bool
longer now d none = true
longer now d (some e) = ltb_ℤ e.until (now +ℤ d)

unfoldable pub set_cooldown : ℤ → Scope → ℤ → Mem → Mem
unfolding longer
set_cooldown now scope d m =
    if leb_ℤ d (pos 0)
    then m
    else if longer now d (m scope)
    then put scope (some (record { until = now +ℤ d; hits = 0; quota = false })) m
    else m

-- d << k on an int64.
abbrev pub shift_left : ℤ → ℕ → ℤ
shift_left d k = signed64 (bits64 d * 2 ^ k % 18446744073709551616)

abbrev pub fresh : Entry
fresh = record { until = pos 0; hits = 0; quota = false }

or_fresh : Option Entry → Entry
or_fresh none = fresh
or_fresh (some e) = e

-- base << min(hits - 1, 30), at most `max`, on the n-th trigger in a row (hits = n).
pub duration : ℤ → ℤ → ℕ → ℤ
duration base max hits =
    let d = shift_left base (min (hits - 1) 30) in if ltb_ℤ max d then max else d

unfoldable pub backoff : ℤ → Scope → ℤ → ℤ → Mem → ℤ × Mem
unfolding or_fresh
backoff now scope base max m =
    if leb_ℤ base (pos 0)
    then (pos 0, m)
    else (let e = or_fresh (live now (m scope)) in
        let d = duration base max (e.hits + 1) in
        (d, put scope (some (record e { until = now +ℤ d; hits = e.hits + 1 })) m))

marked : ℤ → ℤ → Option Entry → Entry
marked now ttl none = record { until = now +ℤ ttl; hits = 0; quota = true }
marked now ttl (some e) = record e { quota = true }

unfoldable pub mark_quota_cooling : ℤ → Scope → ℤ → Mem → Mem
unfolding marked
mark_quota_cooling now scope ttl m = put scope (some (marked now ttl (live now (m scope)))) m

unfoldable pub clear_cooldown : Scope → Mem → Mem
clear_cooldown scope = put scope none

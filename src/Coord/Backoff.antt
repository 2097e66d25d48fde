-- ===== src/Coord/Backoff.antt =====
-- The exponential backoff of a key whose quota is exhausted.
use general_api.Base.{
  ℤ, ◌+ℤ◌, ◌≤ℤ◌, ◌<ℤ◌, ltb_ℤ, leb_ℤ, +ℤ_parts, bits64, pos, ℕ, ◌+◌, ◌-◌, ◌*◌, ◌^◌, ◌≤◌, ◌<◌, min,
  ◌≡◌, ◌∙◌, ◌≢◌, false, Option, none, some, arith,
}
use general_api.Coord.{
  duration, Scope, Entry, Mem, live, is_cooling, is_quota_cooling, backoff, mark_quota_cooling,
  shift_left,
}
use general_api.Coord.Cooling.{same_scope_refl, same_scope_iff}

bits64_small : (n : ℕ) → n < 18446744073709551616 → bits64 (pos n) ≡ n
bits64_small n h = omega arith

shift_left_exact :
    (b k : ℕ)
    → b < 9223372036854775808
    → b * 2 ^ k < 9223372036854775808
    → shift_left (pos b) k ≡ pos (b * 2 ^ k)
shift_left_exact b k h l = rw (bits64_small b (omega arith)) (ground arith)

-- The triggers so far of a live entry; an expired or missing one starts again.
abbrev pub hits_of : Option Entry → ℕ
hits_of none = 0
hits_of (some e) = e.hits

abbrev pub streak : ℤ → Scope → Mem → ℕ
streak now s m = hits_of (live now (m s))

duration_exact :
    (b c k : ℕ)
    → b < 9223372036854775808
    → b * 2 ^ min k 30 < 9223372036854775808
    → duration (pos b) (pos c) (k + 1) ≡ pos (min (b * 2 ^ min k 30) c)
unfolding duration
duration_exact b c k h l =
    let e : (k + 1) - 1 ≡ k = omega arith in
    rw (e, shift_left_exact b (min k 30) h l) (ground arith)

duration_overflow :
    (b c : ℕ) → 34359738368 ≤ b → b < 68719476736 → duration (pos b) (pos c) 29 <ℤ pos 0
unfolding duration
duration_overflow b c h l = rw (bits64_small b (omega arith)) (ground arith)

-- A backoff with a positive base, by its duration.
backoff_lem :
    (now t : ℤ) (s s' : Scope) (b c : ℕ) (m : Mem)
    → 0 < b
    → let r = backoff now s (pos b) (pos c) m in
      (r.0 ≡ duration (pos b) (pos c) (streak now s m + 1))
      × ((is_cooling t s r.1).0 ≡ leb_ℤ t (now +ℤ r.0))
      × (pos 0 ≤ℤ r.0 → streak now s r.1 ≡ streak now s m + 1)
      × (s' ≢ s → (is_cooling t s' r.1).0 ≡ (is_cooling t s' m).0)
unfolding backoff is_cooling
backoff_lem now t s s' b c m h = (
  ground arith,
  ground (arith, same_scope_refl s),
  λ p.
      ground
        (arith, same_scope_refl s, +ℤ_parts now (duration (pos b) (pos c) (streak now s m + 1))),
  λ n. ground (arith, same_scope_iff s' s),
)

-- The n-th trigger in a row cools for the base doubled n - 1 times, at most 30 times, and at most
-- the ceiling, as long as that product is an int64; the scope is then cooling up to exactly that
-- time, its streak is one longer, and no other scope is affected.
pub backoff_exact :
    (now t : ℤ) (s s' : Scope) (b c : ℕ) (m : Mem)
    → 0 < b
    → b < 9223372036854775808
    → b * 2 ^ min (streak now s m) 30 < 9223372036854775808
    → let r = backoff now s (pos b) (pos c) m in
      (r.0 ≡ pos (min (b * 2 ^ min (streak now s m) 30) c))
      × ((is_cooling t s r.1).0 ≡ leb_ℤ t (now +ℤ r.0))
      × (streak now s r.1 ≡ streak now s m + 1)
      × (s' ≢ s → (is_cooling t s' r.1).0 ≡ (is_cooling t s' m).0)
backoff_exact now t s s' b c m h l small =
    let (d, cools, longer, others) = backoff_lem now t s s' b c m h in
    let exact = d ∙ duration_exact b c (streak now s m) l small in
    (exact, cools, longer (rw exact (omega arith)), others)

future : (now d : ℤ) → pos 0 ≤ℤ d → ltb_ℤ (now +ℤ d) now ≡ false
future now d h = ground (arith, +ℤ_parts now d)

past : (now d : ℤ) → d <ℤ pos 0 → leb_ℤ now (now +ℤ d) ≡ false
past now d h = ground (arith, +ℤ_parts now d)

-- A base of 2^35 to 2^36 ns (34 to 68 s, the default of 60 s among them) overflows on the 29th
-- trigger in a row: the cooldown comes out negative and the scope is not cooling at all.
pub backoff_overflow :
    (now : ℤ) (s : Scope) (b c : ℕ) (m : Mem)
    → 34359738368 ≤ b
    → b < 68719476736
    → streak now s m ≡ 28
    → let r = backoff now s (pos b) (pos c) m in (r.0 <ℤ pos 0) × ((is_cooling now s r.1).0 ≡ false)
backoff_overflow now s b c m h l k =
    let (d, cools, longer, others) = backoff_lem now now s s b c m (omega arith) in
    let negative : (backoff now s (pos b) (pos c) m).0 <ℤ pos 0 =
      rw (d, k) (duration_overflow b c h l) in
    (negative, cools ∙ past now (backoff now s (pos b) (pos c) m).0 negative)

-- The quota mark that follows a backoff lasts exactly as long as the cooldown.
pub mark_quota_cooling-backoff :
    (now t : ℤ) (s : Scope) (b c : ℕ) (m : Mem)
    → 0 < b
    → b < 9223372036854775808
    → b * 2 ^ min (streak now s m) 30 < 9223372036854775808
    → let r = backoff now s (pos b) (pos c) m in
      let m' = mark_quota_cooling now s r.0 r.1 in
      ((is_quota_cooling t s m').0 ≡ (is_cooling t s r.1).0)
      × ((is_cooling t s m').0 ≡ (is_cooling t s r.1).0)
unfolding backoff mark_quota_cooling is_quota_cooling is_cooling
mark_quota_cooling-backoff now t s b c m h l small =
    let ends =
      future now (duration (pos b) (pos c) (streak now s m + 1))
        (rw (duration_exact b c (streak now s m) l small) (omega arith)) in
    (ground (arith, same_scope_refl s), ground (arith, same_scope_refl s))

-- ===== src/Relay/Cooldown.antt =====
-- Which keys a rate limit cools, and for how long.
use general_api.Base.{
  ◌==◌, ℤ, ◌+ℤ◌, ◌<ℤ◌, leb_ℤ, pos, ℕ, ◌+◌, ◌-◌, ◌*◌, ◌%◌, ◌≤◌, ◌<◌, ◌≡◌, Bool, false, ◌&&◌, ◌||◌,
  not, List, [], ◌∷◌, arith, dec_lt,
}
use general_api.Coord.{Mem, ck, set_cooldown, is_cooling}
use general_api.Candidate.{Candidate, key_scope}
use general_api.Relay.{Config, cool_others, cool_keys, minute_aligned_cooldown, second}

-- The candidate is the key `k` of the vendor `v`.
abbrev is_key : ℕ → ℕ → Candidate → Bool
is_key v k c = v == c.vendor_id && k == c.key_id

abbrev listed : ℕ → ℕ → List Candidate → Bool
listed v k [] = false
listed v k (c ∷ cs) = is_key v k c || listed v k cs

-- Vendor-wide, a rate limit reaches every listed key of the vendor; else the key itself.
abbrev pub reached : Config → List Candidate → Candidate → ℕ → ℕ → Bool
reached cfg cands cur v k =
    is_key v k cur || cfg.vendor_wide && v == cur.vendor_id && listed v k cands

set_one :
    (now t d : ℤ) (c : Candidate) (v k : ℕ) (m : Mem)
    → pos 0 <ℤ d
    → (is_cooling t (ck v k) (set_cooldown now (key_scope c) d m)).0
      ≡ ((is_cooling t (ck v k) m).0 || is_key v k c && leb_ℤ t (now +ℤ d))
unfolding is_cooling set_cooldown
set_one now t d c v k m h = ground arith

others :
    (now t d : ℤ) (cur : Candidate) (v k : ℕ) (cs : List Candidate) (m : Mem)
    → pos 0 <ℤ d
    → (is_cooling t (ck v k) (cool_others now cur d cs m)).0 ≡ (
        (is_cooling t (ck v k) m).0
        || (v == cur.vendor_id && not (k == cur.key_id) && listed v k cs) && leb_ℤ t (now +ℤ d))
unfolding cool_others
others now t d cur v k [] m h = ground arith
others now t d cur v k (c ∷ cs) m h =
    let ih = others now t d cur v k cs m h in
    let jh = others now t d cur v k cs (set_cooldown now (key_scope c) d m) h in
    let s = set_one now t d c v k m h in ground (arith, ih, jh, s)

-- A positive cooldown for a rate limit cools the key itself and, vendor-wide, the keys of its
-- vendor among the candidates, to the later of the old end and the new one, and no other key.
pub cool_keys-reached :
    (cfg : Config) (now t d : ℤ) (cands : List Candidate) (cur : Candidate) (v k : ℕ) (m : Mem)
    → pos 0 <ℤ d
    → (is_cooling t (ck v k) (cool_keys cfg now cands cur d m)).0
      ≡ ((is_cooling t (ck v k) m).0 || reached cfg cands cur v k && leb_ℤ t (now +ℤ d))
unfolding cool_keys
cool_keys-reached cfg now t d cands cur v k m h =
    let s = set_one now t d cur v k m h in
    let o = others now t d cur v k cands (set_cooldown now (key_scope cur) d m) h in
    ground (arith, s, o)

-- With a cap of at least a second, the cooldown of a limit without a Retry-After lasts from a
-- second to the cap and to a minute, and ends with the minute unless the cap or the second decides.
pub minute_aligned_cooldown-bounds :
    (now cap : ℕ)
    → second ≤ cap
    → (d : ℕ) × (minute_aligned_cooldown now (pos cap) ≡ pos d)
      × (second ≤ d)
      × (d ≤ cap)
      × (d ≤ 60 * second)
      × (second < d → d < cap → (now + d) % (60 * second) ≡ 0)
unfolding minute_aligned_cooldown
minute_aligned_cooldown-bounds now cap h = elim (dec_lt cap (60 * second - now % (60 * second))) [
  | yes l ↦ (cap, ground arith, h, omega arith, omega arith, λ a b. absurd (omega arith))
  | no l ↦ elim (dec_lt (60 * second - now % (60 * second)) second) [
    | yes k ↦ (second, ground arith, omega arith, h, omega arith, λ a b. absurd (omega arith))
    | no k ↦ (
      60 * second - now % (60 * second),
      ground arith,
      omega arith,
      omega arith,
      omega arith,
      λ a b. omega arith,
    )
  ]
]

-- ===== src/Coord/Cooling.antt =====
-- What the cooldowns of a key guarantee to the relay.
use general_api.Base.{ℤ, ◌+ℤ◌, ◌≤ℤ◌, ◌<ℤ◌, leb_ℤ, pos, ◌≡◌, ◌≢◌, ◌↔◌, true, false, ◌||◌, arith}
use general_api.Coord.{
  Scope, ck, ch, same_scope, Mem, is_cooling, is_quota_cooling, set_cooldown, clear_cooldown,
}

pub same_scope_refl : (s : Scope) → same_scope s s ≡ true
same_scope_refl (ck a b) = ground arith
same_scope_refl (ch a) = ground arith

pub same_scope_iff : (s t : Scope) → (same_scope s t ≡ true) ↔ (s ≡ t)
same_scope_iff (ck a b) (ck c d) = ground arith
same_scope_iff (ch a) (ch b) = ground arith
same_scope_iff (ck a b) (ch c) = ground arith
same_scope_iff (ch a) (ck b c) = ground arith

-- A key that cools for its quota is cooling: the second set lies in the first.
is_quota_cooling-is_cooling :
    (now : ℤ) (s : Scope) (m : Mem)
    → (is_quota_cooling now s m).0 ≡ true
    → (is_cooling now s m).0 ≡ true
unfolding is_quota_cooling is_cooling
is_quota_cooling-is_cooling now s m h = ground arith

-- Looking a scope up, at a time `now`, changes no later answer for any scope.
pub is_cooling-lazy :
    (now later : ℤ) (s t : Scope) (m : Mem)
    → now ≤ℤ later
    → ((is_cooling later t (is_cooling now s m).1).0 ≡ (is_cooling later t m).0)
      × ((is_quota_cooling later t (is_cooling now s m).1).0 ≡ (is_quota_cooling later t m).0)
unfolding is_quota_cooling is_cooling
is_cooling-lazy now later s t m h = ground (arith, same_scope_iff t s)

-- After a positive cooldown the scope cools until the later of the old end and the new one, and no
-- other scope is affected.
pub set_cooldown_keeps_longer :
    (now t : ℤ) (s s' : Scope) (d : ℤ) (m : Mem)
    → pos 0 <ℤ d
    → ((is_cooling t s (set_cooldown now s d m)).0 ≡ ((is_cooling t s m).0 || leb_ℤ t (now +ℤ d)))
      × (s' ≢ s → (is_cooling t s' (set_cooldown now s d m)).0 ≡ (is_cooling t s' m).0)
unfolding set_cooldown is_cooling
set_cooldown_keeps_longer now t s s' d m h =
    (ground (arith, same_scope_refl s), λ n. ground (arith, same_scope_iff s' s))

-- A cleared scope cools no more, for its quota or otherwise; others are not affected.
pub clear_cooldown-is_cooling :
    (t : ℤ) (s s' : Scope) (m : Mem)
    → ((is_cooling t s (clear_cooldown s m)).0 ≡ false)
      × ((is_quota_cooling t s (clear_cooldown s m)).0 ≡ false)
      × (s' ≢ s → (is_cooling t s' (clear_cooldown s m)).0 ≡ (is_cooling t s' m).0)
unfolding clear_cooldown is_cooling is_quota_cooling
clear_cooldown-is_cooling t s s' m = (
  ground (arith, same_scope_refl s),
  ground (arith, same_scope_refl s),
  λ n. ground (arith, same_scope_iff s' s),
)

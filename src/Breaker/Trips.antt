-- ===== src/Breaker/Trips.antt =====
-- When the breaker of a channel trips.
use general_api.Base.{
  ◌==◌, if◌then◌else◌, ℕ, suc, ◌+◌, ◌≤◌, ◌<◌, ◌≡◌, refl, ◌↔◌, Bool, true, false, List, [], ◌∷◌,
  arith,
}
use general_api.Breaker.{Breaker, new_breaker, record_success, record_failure}

pub data Event : Type 0 where
  succeeds fails : ℕ → Event

-- The breaker after a list of answers, the newest first, and whether the newest tripped it.
unfoldable pub replay : Breaker → List Event → Bool × Breaker
replay b [] = (false, b)
replay b (succeeds id ∷ es) = (false, record_success id (replay b es).1)
replay b (fails id ∷ es) = record_failure id (replay b es).1

-- The failures of a channel since its last success.
abbrev pub run_of : ℕ → List Event → ℕ
run_of id [] = 0
run_of id (succeeds j ∷ es) = if id == j then 0 else run_of id es
run_of id (fails j ∷ es) = if id == j then suc (run_of id es) else run_of id es

pub replay-fails :
    (t : ℕ) (es : List Event) (id : ℕ)
    → 0 < t
    → ((replay (new_breaker t) es).1.fails id ≡ run_of id es)
      × ((replay (new_breaker t) es).1.threshold ≡ t)
unfolding replay new_breaker record_success record_failure
replay-fails t [] id h = (refl, refl)
replay-fails t (succeeds j ∷ es) id h = let (a, b) = replay-fails t es id h in ground arith
replay-fails t (fails j ∷ es) id h =
    let (a, b) = replay-fails t es id h in let (c, d) = replay-fails t es j h in ground arith

-- With a positive threshold a failure trips the breaker exactly when it is at least the
-- threshold-th failure of its channel since the channel's last success, whatever other channels do.
pub replay-trips :
    (t id : ℕ) (es : List Event)
    → 0 < t
    → ((replay (new_breaker t) (fails id ∷ es)).0 ≡ true) ↔ (t ≤ run_of id es + 1)
unfolding replay record_failure
replay-trips t id es h =
    let (a, b) = replay-fails t es id h in (λ e. ground arith, λ e. ground arith)

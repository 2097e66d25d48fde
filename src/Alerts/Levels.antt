-- ===== src/Alerts/Levels.antt =====
-- What a check of an account's alerts does.
use general_api.Base.{
  ltb, leb, ◌==◌, if◌then◌else◌, ℤ, pos_part, ◌≤ℤ◌, ◌<ℤ◌, bits64, pos, negsuc, ℕ, suc, ◌+◌, ◌*◌,
  ◌/◌, ◌%◌, ◌^◌, ◌≤◌, ◌<◌, ◌≡◌, refl, not, List, [], ◌∷◌, arith,
}
use general_api.Alerts.{bracket, mul_ge128, bracket_from}

words :
    (x y : ℕ)
    → (if not (x / 18446744073709551616 == y / 18446744073709551616)
        then ltb (y / 18446744073709551616) (x / 18446744073709551616)
        else leb (y % 18446744073709551616) (x % 18446744073709551616))
      ≡ leb y x
words x y = ground arith

bits64_small : (a : ℕ) → a < 2 ^ 63 → bits64 (pos a) ≡ a
bits64_small a h = omega arith

mul_ge128-leb :
    (a sa b sb : ℕ)
    → a < 2 ^ 63
    → sa < 2 ^ 63
    → b < 2 ^ 63
    → sb < 2 ^ 63
    → mul_ge128 (pos a) (pos sa) (pos b) (pos sb) ≡ leb (b * sb) (a * sa)
unfolding mul_ge128
mul_ge128-leb a sa b sb h i j k =
    rw (bits64_small a h, bits64_small sa i, bits64_small b j, bits64_small sb k)
      (words (a * sa) (b * sb))

-- How many levels a usage has reached, in percent.
abbrev pub reached : ℕ → ℕ → List ℤ → ℕ
reached used limit [] = 0
reached used limit (t ∷ levels) =
    if leb (limit * pos_part t) (used * 100)
    then suc (reached used limit levels)
    else reached used limit levels

-- Positive int64, each above the one before.
abbrev pub Rising : ℕ → List ℤ → Type 0
Rising low [] = Unit
Rising low (t ∷ levels) =
    (pos low <ℤ t) × (t ≤ℤ pos 9223372036854775807) × Rising (pos_part t) levels

none_reached :
    (used limit low : ℕ) (levels : List ℤ)
    → used * 100 < limit * low
    → Rising low levels
    → reached used limit levels ≡ 0
none_reached used limit low [] h r = refl
none_reached used limit low (pos n ∷ levels) h r =
    let m : limit * low ≤ limit * n = grind arith in
    let ih = none_reached used limit n levels (omega arith) r.2 in ground arith
none_reached used limit low (negsuc n ∷ levels) h r = absurd (ground arith)

bracket_from-reached :
    (used limit i lv low : ℕ) (levels : List ℤ)
    → used < 2 ^ 63
    → limit < 2 ^ 63
    → Rising low levels
    → bracket_from (pos used) (pos limit) i lv levels
      ≡ (if reached used limit levels == 0 then lv else i + reached used limit levels)
unfolding bracket_from
bracket_from-reached used limit i lv low [] h k r = refl
bracket_from-reached used limit i lv low (negsuc n ∷ levels) h k r = absurd (ground arith)
bracket_from-reached used limit i lv low (pos n ∷ levels) h k r =
    let m = mul_ge128-leb used 100 limit n h (omega arith) k (omega arith) in
    let ih =
      bracket_from-reached used limit (i + 1) (if leb (limit * n) (used * 100) then i + 1 else lv) n
        levels h k r.2 in
    rw m (ground (arith, ih, none_reached used limit n levels))

pub bracket-reached :
    (used limit : ℕ) (levels : List ℤ)
    → used < 2 ^ 63
    → limit < 2 ^ 63
    → Rising 0 levels
    → bracket (pos used) (pos limit) levels ≡ reached used limit levels
unfolding bracket
bracket-reached used limit levels h k r =
    let e = bracket_from-reached used limit 0 0 0 levels h k r in ground arith

-- ===== src/Quota/Rate.antt =====
-- `PointsPerYuan` of internal/service/quota.go: the rate between points and yuan, read from the
-- row of the table `settings`. The text is the list of its runes.
use general_api.Base.{
  ltb, leb, if◌then◌else◌, Bool-cases, ℤ, ltb_ℤ, leb_ℤ, bits64, signed64, pos, ℕ, ◌+◌, ◌-◌, ◌*◌,
  ◌/◌, ◌%◌, ◌≤◌, ◌<◌, ◌≡◌, refl, ap, ◌∙◌, inl, inr, Bool, ◌&&◌, Option, none, some, List, [], ◌∷◌,
  arith,
}

abbrev pub default_rate : ℤ
default_rate = pos 1000000

abbrev pub is_digit : ℕ → Bool
is_digit ch = leb 48 ch && leb ch 57

-- One round of the loop; `none` is the early return of the default.
unfoldable pub accumulate : ℤ → ℕ → Option ℤ
accumulate n ch =
    if is_digit ch
    then (if ltb_ℤ (pos ((9223372036854775807 - (ch - 48)) / 10)) n
        then none
        else some (signed64 ((bits64 n * 10 + (ch - 48)) % 18446744073709551616)))
    else none

unfoldable pub read_rate : ℤ → List ℕ → Option ℤ
unfolding accumulate
read_rate n [] = some n
read_rate n (ch ∷ s) = elim (accumulate n ch) [ none ↦ none | some m ↦ read_rate m s ]

positive : Option ℤ → ℤ
positive none = default_rate
positive (some n) = if leb_ℤ n (pos 0) then default_rate else n

-- `none` is a failed query.
unfoldable pub points_per_yuan : Option (List ℕ) → ℤ
unfolding read_rate positive
points_per_yuan none = default_rate
points_per_yuan (some []) = default_rate
points_per_yuan (some (ch ∷ s)) = positive (read_rate (pos 0) (ch ∷ s))

-- The number that a text of digits denotes, of any size.
pub decimal : ℕ → List ℕ → Option ℕ
decimal n [] = some n
decimal n (ch ∷ s) = let rest = decimal (n * 10 + (ch - 48)) s in if is_digit ch then rest else none

decimal-ge : (n : ℕ) (s : List ℕ) (v : ℕ) → decimal n s ≡ some v → n ≤ v
unfolding decimal
decimal-ge n [] v h = ground arith
decimal-ge n (ch ∷ s) v h = ground (arith, decimal-ge (n * 10 + (ch - 48)) s v)

abbrev cut : Option ℕ → Option ℤ
cut none = none
cut (some v) = if ltb v 9223372036854775808 then some (pos v) else none

cut_large : (o : Option ℕ) → ((v : ℕ) → o ≡ some v → 9223372036854775808 ≤ v) → cut o ≡ none
cut_large none h = refl
cut_large (some v) h = ground (arith, h v refl)

read_rate-decimal :
    (n : ℕ) (s : List ℕ) → n < 9223372036854775808 → read_rate (pos n) s ≡ cut (decimal n s)
unfolding read_rate decimal
read_rate-decimal n [] h = ground arith
read_rate-decimal n (ch ∷ s) h = elim (Bool-cases (is_digit ch)) [
  | inr e ↦ ground arith
  | inl e ↦ elim (Bool-cases (ltb ((9223372036854775807 - (ch - 48)) / 10) n)) [
    | inl f ↦
        let big : 9223372036854775808 ≤ n * 10 + (ch - 48) = ground arith in
        let gone =
          cut_large (decimal (n * 10 + (ch - 48)) s)
            (λ v p. ground (arith, decimal-ge (n * 10 + (ch - 48)) s v p)) in
        ground arith
    | inr f ↦
        let small : n * 10 + (ch - 48) < 9223372036854775808 = ground arith in
        ground (arith, read_rate-decimal (n * 10 + (ch - 48)) s small)
  ]
]

-- The rate that a number stands for: itself where it is a positive int64, and else the default.
abbrev pub rate_of : Option ℕ → ℤ
rate_of none = default_rate
rate_of (some v) = if ltb 0 v && ltb v 9223372036854775808 then pos v else default_rate

positive-cut : (o : Option ℕ) → positive (cut o) ≡ rate_of o
unfolding positive
positive-cut none = refl
positive-cut (some v) = ground arith

-- The configured rate is the number that the whole text denotes when it is digits alone and that
-- number is a positive int64; in every other case, overlong numbers included, it is the default.
pub points_per_yuan-rate_of : (s : List ℕ) → points_per_yuan (some s) ≡ rate_of (decimal 0 s)
unfolding points_per_yuan decimal
points_per_yuan-rate_of [] = refl
points_per_yuan-rate_of (ch ∷ s) =
    ap positive (read_rate-decimal 0 (ch ∷ s) (omega arith)) ∙ positive-cut (decimal 0 (ch ∷ s))

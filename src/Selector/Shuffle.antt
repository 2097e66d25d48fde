-- ===== src/Selector/Shuffle.antt =====
-- `weightedShuffle`: the items in a random order, drawn by weight without replacement.
use general_api.Base.{
  ltb, leb, if◌then◌else◌, length, ℤ, pos_part, leb_ℤ, pos, ℕ, zero, suc, ◌+◌, ◌-◌, Option, none,
  some, List, [], ◌∷◌,
}

-- `intWeight`: a weight that is not positive counts as 1.
unfoldable pub int_weight : ℤ → ℕ
int_weight w = if leb_ℤ w (pos 0) then 1 else pos_part w

module _ {ℓ} {A : Type ℓ} (weight : A → ℤ) where
  pub total : List A → ℕ
  total [] = 0
  total (x ∷ xs) = int_weight (weight x) + total xs

  -- The item at which the running difference of the pick falls below 0, and the others.
  unfoldable pub take_out : ℕ → List A → Option (A × List A)
  take_out pick [] = none
  take_out pick (x ∷ xs) =
      if ltb pick (int_weight (weight x))
      then some (x, xs)
      else elim (take_out (pick - int_weight (weight x)) xs) [
        | none ↦ none
        | some r ↦ some (r.0, x ∷ r.1)
      ]

  -- Without such an item `pos` stays 0.
  abbrev pub draw : A → List A → ℕ → A × List A
  draw x xs pick = elim (take_out pick (x ∷ xs)) [ none ↦ (x, xs) | some r ↦ r ]

  -- `intn i t` is the i-th call of rand.Intn, on t. One item is drawn in each round.
  unfoldable pub shuffle_rounds : (ℕ → ℕ → ℕ) → ℕ → ℕ → List A → List A
  unfolding take_out total
  shuffle_rounds intn zero i xs = []
  shuffle_rounds intn (suc n) i [] = []
  shuffle_rounds intn (suc n) i (x ∷ xs) =
      let r = draw x xs (intn i (total (x ∷ xs))) in r.0 ∷ shuffle_rounds intn n (i + 1) r.1

  unfoldable pub weighted_shuffle : (ℕ → ℕ → ℕ) → ℕ → List A → List A
  unfolding shuffle_rounds
  weighted_shuffle intn i items =
      if leb (length items) 1 then items else shuffle_rounds intn (length items) i items

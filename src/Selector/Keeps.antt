-- ===== src/Selector/Keeps.antt =====
-- The random order of `weightedShuffle` keeps what holds of every item.
use general_api.Base.{
  ltb, leb, if_intro, length, All, ℤ, ℕ, zero, suc, ◌+◌, ◌-◌, Option, none, some, List, [], ◌∷◌,
}
use general_api.Selector.Shuffle.{
  int_weight, total, take_out, draw, shuffle_rounds, weighted_shuffle,
}

module _ {ℓ κ} {A : Type ℓ} (weight : A → ℤ) (P : A → Type κ) where
  Kept : Option (A × List A) → Type κ
  Kept none = Unit
  Kept (some r) = P r.0 × All P r.1

  below :
      (x : A) (o : Option (A × List A))
      → P x
      → Kept o
      → Kept (elim o [ none ↦ none | some r ↦ some (r.0, x ∷ r.1) ])
  unfolding Kept
  below x none p h = tt
  below x (some r) p h = (h.0, (p, h.1))

  take_out-Kept : (xs : List A) (pick : ℕ) → All P xs → Kept (take_out weight pick xs)
  unfolding Kept take_out
  take_out-Kept [] pick a = tt
  take_out-Kept (x ∷ xs) pick a =
      if_intro Kept (ltb pick (int_weight (weight x))) _ _ (λ e. a)
        (λ e.
          below x (take_out weight (pick - int_weight (weight x)) xs) a.0
            (take_out-Kept xs (pick - int_weight (weight x)) a.1))

  draw-Kept :
      (x : A) (xs : List A) (pick : ℕ) → All P (x ∷ xs) → Kept (some (draw weight x xs pick))
  unfolding Kept
  draw-Kept x xs pick a = pick_one (take_out weight pick (x ∷ xs)) (take_out-Kept (x ∷ xs) pick a)
    where
      pick_one :
          (o : Option (A × List A)) → Kept o → Kept (some (elim o [ none ↦ (x, xs) | some r ↦ r ]))
      pick_one none h = a
      pick_one (some r) h = h

  shuffle_rounds-All :
      (intn : ℕ → ℕ → ℕ) (n i : ℕ) (xs : List A)
      → All P xs
      → All P (shuffle_rounds weight intn n i xs)
  unfolding shuffle_rounds Kept
  shuffle_rounds-All intn zero i xs a = tt
  shuffle_rounds-All intn (suc n) i [] a = tt
  shuffle_rounds-All intn (suc n) i (x ∷ xs) a =
      let pick = intn i (total weight (x ∷ xs)) in
      let d = draw-Kept x xs pick a in
      (d.0, shuffle_rounds-All intn n (i + 1) (draw weight x xs pick).1 d.1)

  pub weighted_shuffle-All :
      (intn : ℕ → ℕ → ℕ) (i : ℕ) (items : List A)
      → All P items
      → All P (weighted_shuffle weight intn i items)
  unfolding weighted_shuffle
  weighted_shuffle-All intn i items a =
      if_intro (All P) (leb (length items) 1) _ _ (λ e. a)
        (λ e. shuffle_rounds-All intn (length items) i items a)

-- ===== src/Selector/Permutes.antt =====
-- The random order of `weightedShuffle` loses and doubles nothing.
use general_api.Base.{
  ltb, leb, if_intro, length, ℤ, ℕ, zero, suc, ◌+◌, ◌-◌, ◌≤◌, ◌≡◌, refl, Option, none, some, List,
  [], ◌∷◌, arith,
}
use general_api.Selector.Shuffle.{
  int_weight, total, take_out, draw, shuffle_rounds, weighted_shuffle,
}
use mathlib.Core.List.{Perm}
use mathlib.Core.List.Perm

module _ {ℓ} {A : Type ℓ} (weight : A → ℤ) where
  -- What was drawn, with the rest.
  Drawn : List A → Option (A × List A) → Type ℓ
  Drawn xs none = Unit
  Drawn xs (some r) = Perm (r.0 ∷ r.1) xs × (length xs ≡ length r.1 + 1)

  below :
      (x : A) (xs : List A) (o : Option (A × List A))
      → Drawn xs o
      → Drawn (x ∷ xs) (elim o [ none ↦ none | some r ↦ some (r.0, x ∷ r.1) ])
  unfolding Drawn
  below x xs none h = tt
  below x xs (some r) h = (Perm.trans (Perm.swap x r.0 r.1) (Perm.cons x h.0), omega (arith, h.1))

  take_out-Drawn : (xs : List A) (pick : ℕ) → Drawn xs (take_out weight pick xs)
  unfolding Drawn take_out
  take_out-Drawn [] pick = tt
  take_out-Drawn (x ∷ xs) pick =
      if_intro (Drawn (x ∷ xs)) (ltb pick (int_weight (weight x))) _ _
        (λ e. (Perm.refl (x ∷ xs), omega arith))
        (λ e.
          below x xs (take_out weight (pick - int_weight (weight x)) xs)
            (take_out-Drawn xs (pick - int_weight (weight x))))

  draw-Drawn : (x : A) (xs : List A) (pick : ℕ) → Drawn (x ∷ xs) (some (draw weight x xs pick))
  unfolding Drawn
  draw-Drawn x xs pick = pick_one (take_out weight pick (x ∷ xs)) (take_out-Drawn (x ∷ xs) pick)
    where
      pick_one :
          (o : Option (A × List A))
          → Drawn (x ∷ xs) o
          → Drawn (x ∷ xs) (some (elim o [ none ↦ (x, xs) | some r ↦ r ]))
      pick_one none h = (Perm.refl (x ∷ xs), omega arith)
      pick_one (some r) h = h

  shuffle_rounds-Perm :
      (intn : ℕ → ℕ → ℕ) (n i : ℕ) (xs : List A)
      → length xs ≤ n
      → Perm (shuffle_rounds weight intn n i xs) xs
  unfolding shuffle_rounds Drawn
  shuffle_rounds-Perm intn zero i [] h = Perm.nil
  shuffle_rounds-Perm intn zero i (x ∷ xs) h = absurd (omega arith)
  shuffle_rounds-Perm intn (suc n) i [] h = Perm.nil
  shuffle_rounds-Perm intn (suc n) i (x ∷ xs) h =
      let pick = intn i (total weight (x ∷ xs)) in
      let d = draw-Drawn x xs pick in
      let r = draw weight x xs pick in
      Perm.trans (Perm.cons r.0 (shuffle_rounds-Perm intn n (i + 1) r.1 (omega (arith, d.1)))) d.0

  -- Whatever the random numbers, the shuffled list is a permutation of the items.
  pub weighted_shuffle-Perm :
      (intn : ℕ → ℕ → ℕ) (i : ℕ) (items : List A)
      → Perm (weighted_shuffle weight intn i items) items
  unfolding weighted_shuffle
  weighted_shuffle-Perm intn i items =
      if_intro (λ out. Perm out items) (leb (length items) 1) _ _ (λ e. Perm.refl items)
        (λ e. shuffle_rounds-Perm intn (length items) i items (omega arith))

  length-shuffle_rounds :
      (intn : ℕ → ℕ → ℕ) (n i : ℕ) (xs : List A)
      → length xs ≤ n
      → length (shuffle_rounds weight intn n i xs) ≡ length xs
  unfolding shuffle_rounds Drawn
  length-shuffle_rounds intn zero i [] h = refl
  length-shuffle_rounds intn zero i (x ∷ xs) h = absurd (omega arith)
  length-shuffle_rounds intn (suc n) i [] h = refl
  length-shuffle_rounds intn (suc n) i (x ∷ xs) h =
      let pick = intn i (total weight (x ∷ xs)) in
      let d = draw-Drawn x xs pick in
      omega (
        arith,
        d.1,
        length-shuffle_rounds intn n (i + 1) (draw weight x xs pick).1 (omega (arith, d.1)),
      )

  pub length-weighted_shuffle :
      (intn : ℕ → ℕ → ℕ) (i : ℕ) (items : List A)
      → length (weighted_shuffle weight intn i items) ≡ length items
  unfolding weighted_shuffle
  length-weighted_shuffle intn i items =
      if_intro {A = List A} (λ out. length out ≡ length items) (leb (length items) 1) _ _
        (λ e. refl) (λ e. length-shuffle_rounds intn (length items) i items (omega arith))

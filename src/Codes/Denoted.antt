-- ===== src/Codes/Denoted.antt =====
-- A table of codes has the codes that its tokens denote.
use general_api.Base.{
  ltb, leb, ◌==◌, if◌then◌else◌, Bool-cases, ℤ, pos, negsuc, ℕ, zero, suc, ◌+◌, ◌-◌, ◌*◌, ◌%◌, ◌≤◌,
  ◌<◌, ◌≡◌, refl, sym, ap, ◌∙◌, ◌↔◌, ◌⊎◌, inl, inr, Bool, true, false, ◌&&◌, ◌||◌, Option, none,
  some, List, [], ◌∷◌, arith,
}
use general_api.Codes.{
  parse_code_set, mark_some, code_match, add_codes, Strings, wildcard, cut, count_up, base_of,
  parse_wildcard, parse_range, parse_single, parse_numbers, parse_either, parse_code_token, mark,
  is_blank,
}

-- A token, of bytes, denotes the hundred of a digit from 1 to 5, the codes between two numbers, or a number; all of them are
-- from 100 to 599.
pub data Denotes (lib : Strings) (tok : List ℕ) (c : ℕ) : Type 0 where
  hundred :
      (d k : ℕ)
      → wildcard tok ≡ some d
      → d % 256 ≡ 48 + k
      → 1 ≤ k
      → k ≤ 5
      → k * 100 ≤ c
      → c < k * 100 + 100
      → Denotes lib tok c
  between :
      (lo hi : List ℕ) (l h : ℕ)
      → wildcard tok ≡ none
      → cut tok ≡ some (lo, hi)
      → lib.atoi lo ≡ some (pos l)
      → lib.atoi hi ≡ some (pos h)
      → 100 ≤ l
      → h ≤ 599
      → l ≤ c
      → c ≤ h
      → Denotes lib tok c
  single :
      wildcard tok ≡ none
      → cut tok ≡ none
      → lib.atoi tok ≡ some (pos c)
      → 100 ≤ c
      → c ≤ 599
      → Denotes lib tok c

pub data Lists (lib : Strings) (c : ℕ) : List (List ℕ) → Type 0 where
  first :
      {raw : List ℕ} {items : List (List ℕ)}
      → is_blank (lib.trim_space raw) ≡ false
      → Denotes lib (lib.trim_space raw) c
      → Lists lib c (raw ∷ items)
  later : {raw : List ℕ} {items : List (List ℕ)} → Lists lib c items → Lists lib c (raw ∷ items)

listed : List ℕ → ℕ → Bool
listed [] x = false
listed (c ∷ cs) x = x == c || listed cs x

mark-listed : (cs : List ℕ) (set : ℕ → Bool) (x : ℕ) → mark cs set x ≡ (listed cs x || set x)
unfolding mark listed
mark-listed [] set x = refl
mark-listed (c ∷ cs) set x = ground (arith, mark-listed cs (λ y. if y == c then true else set y) x)

count_up-listed : (c n x : ℕ) → listed (count_up c n) x ≡ (leb c x && ltb x (c + n))
unfolding listed count_up
count_up-listed c zero x = ground arith
count_up-listed c (suc n) x = ground (arith, count_up-listed (c + 1) n x)

listed_some : Option (List ℕ) → ℕ → Bool
listed_some none x = false
listed_some (some cs) x = listed cs x

module _ (lib : Strings) (tok : List ℕ) (c : ℕ) where
  wildcard-Denotes :
      (d : ℕ) → wildcard tok ≡ some d → listed_some (parse_wildcard d) c ≡ true → Denotes lib tok c
  unfolding parse_wildcard listed_some
  wildcard-Denotes d w e =
      let k = count_up-listed (base_of d) 100 c in
      let digit = (d + 256 - 48) % 256 in
      hundred d digit w (omega (arith, least d e, most d e)) (omega (arith, least d e))
        (omega (arith, most d e)) (ground (arith, k)) (ground (arith, k))
    where
      least : (d : ℕ) → listed_some (parse_wildcard d) c ≡ true → 100 ≤ base_of d
      least d e = ground (arith, e)

      most : (d : ℕ) → listed_some (parse_wildcard d) c ≡ true → base_of d ≤ 500
      most d e = ground (arith, e)

  single-Denotes :
      (a : Option ℤ)
      → wildcard tok ≡ none
      → cut tok ≡ none
      → lib.atoi tok ≡ a
      → listed_some (parse_single a) c ≡ true
      → Denotes lib tok c
  unfolding parse_single listed_some listed
  single-Denotes none w k p e = absurd (ground (arith, e))
  single-Denotes (some (pos n)) w k p e =
      let same : n ≡ c = ground arith in
      single w k (p ∙ ap (λ x. some (pos x)) same) (ground arith) (ground arith)
  single-Denotes (some (negsuc n)) w k p e = absurd (ground (arith, e))

  range-Denotes :
      (lo hi : List ℕ) (a b : Option ℤ)
      → wildcard tok ≡ none
      → cut tok ≡ some (lo, hi)
      → lib.atoi lo ≡ a
      → lib.atoi hi ≡ b
      → listed_some (parse_range a b) c ≡ true
      → Denotes lib tok c
  unfolding parse_range listed_some
  range-Denotes lo hi none b w k p q e = absurd (ground (arith, e))
  range-Denotes lo hi (some a) none w k p q e = absurd (ground (arith, e))
  range-Denotes lo hi (some (negsuc l)) (some h) w k p q e = absurd (ground (arith, e))
  range-Denotes lo hi (some (pos l)) (some (negsuc h)) w k p q e = absurd (ground (arith, e))
  range-Denotes lo hi (some (pos l)) (some (pos h)) w k p q e =
      let z = count_up-listed l (h - l + 1) c in
      between lo hi l h w k p q (ground (arith, z)) (ground (arith, z)) (ground (arith, z))
        (ground (arith, z))

  token-Denotes : listed_some (parse_code_token lib tok) c ≡ true → Denotes lib tok c
  unfolding parse_code_token
  token-Denotes e = at (wildcard tok) refl e
    where
      cut_at :
          wildcard tok ≡ none
          → (k : Option (List ℕ × List ℕ)) → cut tok ≡ k
          → listed_some (parse_numbers lib tok k) c ≡ true
          → Denotes lib tok c
      cut_at w none k e = single-Denotes (lib.atoi tok) w k refl e
      cut_at w (some (lo, hi)) k e = range-Denotes lo hi (lib.atoi lo) (lib.atoi hi) w k refl refl e

      at :
          (w : Option ℕ)
          → wildcard tok ≡ w
          → listed_some (parse_either lib tok w) c ≡ true
          → Denotes lib tok c
      at none w e = cut_at w (cut tok) refl e
      at (some d) w e = wildcard-Denotes d w e

  Denotes-token : Denotes lib tok c → listed_some (parse_code_token lib tok) c ≡ true
  unfolding parse_code_token parse_wildcard parse_range parse_single listed_some listed
  Denotes-token (hundred d k w a b x l h) =
      let base : base_of d ≡ k * 100 = omega arith in
      rw w (ground (arith, count_up-listed (base_of d) 100 c))
  Denotes-token (between lo hi l h w k p q a b x y) =
      rw (w, k, p, q) (ground (arith, count_up-listed l (h - l + 1) c))
  Denotes-token (single w k p a b) = rw (w, k, p) (ground arith)

  mark_some-listed :
      (o : Option (List ℕ)) (set : ℕ → Bool) → mark_some o set c ≡ (listed_some o c || set c)
  unfolding listed_some
  mark_some-listed none set = refl
  mark_some-listed (some cs) set = mark-listed cs set c

module _ (lib : Strings) (c : ℕ) where
  -- What one more token does to the table.
  added : List ℕ → (ℕ → Bool) → ℕ → Bool
  added tok set = if is_blank tok then set else mark_some (parse_code_token lib tok) set

  added_cases :
      (tok : List ℕ) (set : ℕ → Bool)
      → added tok set c ≡ true
      → ((is_blank tok ≡ false) × Denotes lib tok c) ⊎ (set c ≡ true)
  unfolding added
  added_cases [] set e = inr e
  added_cases (b ∷ tok) set e = elim (Bool-cases (listed_some (parse_code_token lib (b ∷ tok)) c)) [
    | inl k ↦ inl (refl, token-Denotes lib (b ∷ tok) c k)
    | inr k ↦ inr (
        sym
          (mark_some-listed lib tok c (parse_code_token lib (b ∷ tok)) set ∙ ap (λ x. x || set c) k)
        ∙ e)
  ]

  old_stays : (tok : List ℕ) (set : ℕ → Bool) → set c ≡ true → added tok set c ≡ true
  unfolding added
  old_stays [] set e = e
  old_stays (b ∷ tok) set e =
      mark_some-listed lib tok c (parse_code_token lib (b ∷ tok)) set
      ∙ ap (λ x. listed_some (parse_code_token lib (b ∷ tok)) c || x) e
      ∙ or_true _
    where
      or_true : (b : Bool) → (b || true) ≡ true
      or_true true = refl
      or_true false = refl

  new_enters :
      (tok : List ℕ) (set : ℕ → Bool)
      → is_blank tok ≡ false
      → Denotes lib tok c
      → added tok set c ≡ true
  unfolding added
  new_enters [] set z d = absurd (ground (arith, z))
  new_enters (b ∷ tok) set z d =
      mark_some-listed lib tok c (parse_code_token lib (b ∷ tok)) set
      ∙ ap (λ x. x || set c) (Denotes-token lib (b ∷ tok) c d)

  codes-Lists :
      (items : List (List ℕ)) (set : ℕ → Bool)
      → add_codes lib items set c ≡ true
      → Lists lib c items ⊎ (set c ≡ true)
  unfolding add_codes added
  codes-Lists [] set e = inr e
  codes-Lists (raw ∷ items) set e = elim (codes-Lists items (added (lib.trim_space raw) set) e) [
    | inl l ↦ inl (later l)
    | inr a ↦ elim (added_cases (lib.trim_space raw) set a) [
      | inl (z, d) ↦ inl (first z d)
      | inr o ↦ inr o
    ]
  ]

  kept : (items : List (List ℕ)) (set : ℕ → Bool) → set c ≡ true → add_codes lib items set c ≡ true
  unfolding add_codes added
  kept [] set e = e
  kept (raw ∷ items) set e =
      kept items (added (lib.trim_space raw) set) (old_stays (lib.trim_space raw) set e)

  Lists-codes :
      {items : List (List ℕ)} (set : ℕ → Bool)
      → Lists lib c items
      → add_codes lib items set c ≡ true
  unfolding add_codes added
  Lists-codes {items = raw ∷ items} set (first z d) =
      kept items _ (new_enters (lib.trim_space raw) set z d)
  Lists-codes set (later l) = Lists-codes _ l

  -- A code is in a table exactly when one of its tokens, trimmed and not empty, denotes it: the
  -- hundred of a digit from 1 to 5 followed by xx or XX, the codes from one number to another
  -- between 100 and 599, or a number from 100 to 599.
  pub parse_code_set-Lists :
      (items : List (List ℕ))
      → (code_match (some (parse_code_set lib items)) c ≡ true) ↔ Lists lib c items
  unfolding code_match parse_code_set
  parse_code_set-Lists items =
      (λ e. only_listed (codes-Lists items (λ x. false) e), λ l. Lists-codes (λ x. false) l)
    where
      only_listed : Lists lib c items ⊎ (◌≡◌ {A = Bool} false true) → Lists lib c items
      only_listed (inl l) = l
      only_listed (inr e) = absurd (ground (arith, e))

-- ===== src/Verification/Guesses.antt =====
-- Which guesses a code admits.
use general_api.Base.{
  ltb, leb, if_intro, ℕ, zero, suc, ◌+◌, ◌≤◌, String, ◌≡◌, refl, sym, subst, ◌≢◌, ◌↔◌, ◌⊎◌, inl,
  inr, not, Option, none, some, List, [], ◌∷◌, arith, str_eq, eq_iff,
}
use general_api.Verification.{
  VerifyRow, Codes, put_code, max_attempts, Answer, no_code, expired, wrong, voided, accepted,
  verify_row, wrong_guess, verify, Guess, verify_all, new_row,
}

-- One of the first `tries` guesses is right, and it and those before it come in time.
abbrev pub Opens : ℕ → VerifyRow → List Guess → Type 0
Opens zero row gs = ⊥
Opens (suc tries) row [] = ⊥
Opens (suc tries) row (g ∷ gs) =
    (g.at ≤ row.expire_at) × ((row.code ≡ g.code) ⊎ ((row.code ≢ g.code) × Opens tries row gs))

abbrev pub count_accepted : List Answer → ℕ
count_accepted [] = 0
count_accepted (accepted ∷ rest) = suc (count_accepted rest)
count_accepted (_ ∷ rest) = count_accepted rest

none_left :
    (email : String) (gs : List Guess) (t : Codes)
    → t email ≡ none
    → (count_accepted (verify_all email gs t).0 ≡ 0) × ((verify_all email gs t).1 email ≡ none)
unfolding verify_all verify verify_row
none_left email [] t h = (refl, h)
none_left email (g ∷ gs) t h = rw h (none_left email gs t h)

-- The answers to guesses, against what the code admits.
record Tally (tries : ℕ) (row : VerifyRow) (gs : List Guess) (answers : List Answer) : Type 0 where
  once : count_accepted answers ≤ 1
  opened : count_accepted answers ≡ 1 → Opens tries row gs
  opens : Opens tries row gs → count_accepted answers ≡ 1

-- A guess that ends the code, rightly or not.
ended :
    (tries : ℕ) (row : VerifyRow) (g : Guess) (gs : List Guess) (email : String) (a : Answer)
    (t : Codes)
    → t email ≡ none
    → ((count_accepted (a ∷ []) ≡ 1) ↔ Opens tries row (g ∷ gs))
    → Tally tries row (g ∷ gs) (a ∷ (verify_all email gs t).0)
ended tries row g gs email no_code t h (k, l) =
    let z = none_left email gs t h in
    record {
      once = omega (arith, z.0);
      opened = λ e. absurd (omega (arith, z.0));
      opens = λ o. absurd (omega (arith, l o));
    }
ended tries row g gs email expired t h (k, l) =
    let z = none_left email gs t h in
    record {
      once = omega (arith, z.0);
      opened = λ e. absurd (omega (arith, z.0));
      opens = λ o. absurd (omega (arith, l o));
    }
ended tries row g gs email wrong t h (k, l) =
    let z = none_left email gs t h in
    record {
      once = omega (arith, z.0);
      opened = λ e. absurd (omega (arith, z.0));
      opens = λ o. absurd (omega (arith, l o));
    }
ended tries row g gs email voided t h (k, l) =
    let z = none_left email gs t h in
    record {
      once = omega (arith, z.0);
      opened = λ e. absurd (omega (arith, z.0));
      opens = λ o. absurd (omega (arith, l o));
    }
ended tries row g gs email accepted t h (k, l) =
    let z = none_left email gs t h in
    record { once = omega (arith, z.0); opened = λ e. k refl; opens = λ o. omega (arith, z.0) }

-- The row after one more wrong guess admits the same.
same_opens :
    (n a : ℕ) (row : VerifyRow) (gs : List Guess)
    → Opens n (record row { attempts = a }) gs ↔ Opens n row gs
same_opens zero a row gs = (λ h. h, λ h. h)
same_opens (suc n) a row [] = (λ h. h, λ h. h)
same_opens (suc n) a row (g ∷ gs) =
    let ih = same_opens n a row gs in
    (
      λ h. (h.0, elim h.1 [ inl e ↦ inl e | inr (e, o) ↦ inr (e, ih.0 o) ]),
      λ h. (h.0, elim h.1 [ inl e ↦ inl e | inr (e, o) ↦ inr (e, ih.1 o) ]),
    )

put_same : (email : String) (o : Option VerifyRow) (t : Codes) → put_code email o t email ≡ o
put_same email o t = ground (arith, eq_iff email email)

-- A wrong guess, when another may follow.
wronged :
    (email : String) (m : ℕ) (row : VerifyRow) (g : Guess) (gs : List Guess) (answers : List Answer)
    → g.at ≤ row.expire_at
    → row.code ≢ g.code
    → Tally (suc m) (record row { attempts = row.attempts + 1 }) gs answers
    → Tally (suc (suc m)) row (g ∷ gs) (wrong ∷ answers)
wronged email m row g gs answers b n y =
    let s = same_opens (suc m) (row.attempts + 1) row gs in
    record {
      once = y.once;
      opened = λ e. (b, inr (n, s.0 (y.opened e)));
      opens = λ o. elim o.1 [ inl e ↦ absurd (n e) | inr (k, q) ↦ y.opens (s.1 q) ];
    }

module _ (email : String) (row : VerifyRow) (g : Guess) (gs : List Guess) (t : Codes) where
  abbrev Tallied : ℕ → Answer × Codes → Type 0
  Tallied n r = Tally (suc n) row (g ∷ gs) (r.0 ∷ (verify_all email gs r.1).0)

  guess_wrong :
      (n : ℕ)
      → row.attempts + suc n ≡ 5
      → g.at ≤ row.expire_at
      → row.code ≢ g.code
      → ((m : ℕ) (t' : Codes)
          → n ≡ suc m
          → t' email ≡ some (record row { attempts = row.attempts + 1 })
          → Tally
              (suc m)
              (record row { attempts = row.attempts + 1 })
              gs
              (verify_all email gs t').0)
      → Tallied n (wrong_guess email row t)
  unfolding wrong_guess
  guess_wrong zero s b k ih =
      if_intro (Tallied zero) (ltb row.attempts max_attempts) _ _
        (λ e.
          if_intro (Tallied zero) (leb max_attempts (row.attempts + 1)) _ _
            (λ f. ended 1 row g gs email voided (put_code email none t) (put_same email none t) (
              λ x. absurd (omega arith),
              λ o. elim o.1 [ inl q ↦ absurd (k q) | inr (q, x) ↦ absurd x ],
            ))
            (λ f. absurd (ground arith)))
        (λ e. absurd (ground arith))
  guess_wrong (suc m) s b k ih =
      if_intro (Tallied (suc m)) (ltb row.attempts max_attempts) _ _
        (λ e.
          if_intro (Tallied (suc m)) (leb max_attempts (row.attempts + 1)) _ _
            (λ f. absurd (ground arith))
            (λ f.
              let row' : VerifyRow = record row { attempts = row.attempts + 1 } in
              wronged email m row g gs _ b k
                (ih m (put_code email (some row') t) refl (put_same email (some row') t))))
        (λ e. absurd (ground arith))

  guess_step :
      (n : ℕ)
      → row.attempts + suc n ≡ 5
      → ((m : ℕ) (t' : Codes)
          → n ≡ suc m
          → t' email ≡ some (record row { attempts = row.attempts + 1 })
          → Tally
              (suc m)
              (record row { attempts = row.attempts + 1 })
              gs
              (verify_all email gs t').0)
      → Tallied n (verify_row g.at email g.code (some row) t)
  unfolding verify_row
  guess_step n s ih =
      if_intro (Tallied n) (ltb row.expire_at g.at) _ _
        (λ e.
          ended (suc n) row g gs email expired (put_code email none t) (put_same email none t)
            (λ x. absurd (omega arith), λ o. absurd (ground (arith, o.0))))
        (λ e.
          if_intro (Tallied n) (not (str_eq row.code g.code)) _ _
            (λ f. guess_wrong n s (ground arith) (λ q. ground (arith, eq_iff row.code g.code)) ih)
            (λ f.
              ended (suc n) row g gs email accepted (put_code email none t) (put_same email none t)
                (λ x. (ground arith, inl (ground (arith, eq_iff row.code g.code))), λ o. refl)))

tally :
    (email : String) (n : ℕ) (row : VerifyRow) (gs : List Guess) (t : Codes)
    → t email ≡ some row
    → row.attempts + suc n ≡ 5
    → Tally (suc n) row gs (verify_all email gs t).0
unfolding verify_all verify
tally email n row [] t h s = record {
  once = omega arith;
  opened = λ e. absurd (omega arith);
  opens = λ o. absurd o;
}
tally email n row (g ∷ gs) t h s =
    subst (λ (o : Option VerifyRow). Tallied email row g gs t n (verify_row g.at email g.code o t))
      (sym h)
      (guess_step email row g gs t n s (λ m t' e h'.
        tally email m (record row { attempts = row.attempts + 1 }) gs t' h' (omega arith)))

-- Of the guesses at a code that has just been stored, one at most is accepted, and one is exactly
-- when the first right guess is among the first five and it and those before it come within five
-- minutes.
pub verify_all-Opens :
    (email : String) (now : ℕ) (code : String) (gs : List Guess) (t : Codes)
    → t email ≡ some (new_row now code)
    → let n = count_accepted (verify_all email gs t).0 in
      (n ≤ 1) × ((n ≡ 1) ↔ Opens 5 (new_row now code) gs)
verify_all-Opens email now code gs t h =
    let y = tally email 4 (new_row now code) gs t h refl in (y.once, (y.opened, y.opens))

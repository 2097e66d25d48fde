-- ===== src/Prober/Streaks.antt =====
-- How many failures in a row disable a channel.
use general_api.Base.{
  ltb, ◌==◌, if◌then◌else◌, ==_iff, Bool-cases, ℕ, ◌+◌, ◌<◌, ◌≡◌, refl, sym, ap, subst, ◌∙◌, inl,
  inr, Bool, true, false, ◌&&◌, Option, some, List, [], ◌∷◌, arith,
}
use general_api.Prober.{
  Verdict, Probed, Health, channel_test_once, test_channels, test_channel, note_test, switch_off,
  is_enabled,
}
use general_api.Prober.Hand.{tests_other}

-- Rounds of tests, the newest first, each with its time and its verdicts.
pub record Tests : Type 0 where
  pub at : ℕ
  pub verdicts : ℕ → Verdict

unfoldable pub test_rounds : ℕ → List ℕ → List Tests → Health → Health
test_rounds threshold ids [] h = h
test_rounds threshold ids (r ∷ rs) h =
    (channel_test_once threshold r.at r.verdicts ids (test_rounds threshold ids rs h)).0

-- The failures of a channel since its last success, those of quota left out.
abbrev pub streak : ℕ → List Tests → ℕ
streak id [] = 0
streak id (r ∷ rs) =
    if (r.verdicts id).ok
    then 0
    else if (r.verdicts id).quota
    then streak id rs
    else streak id rs + 1

-- It never reached the threshold.
abbrev pub is_sound : ℕ → ℕ → List Tests → Bool
is_sound threshold id [] = true
is_sound threshold id (r ∷ rs) = ltb (streak id (r ∷ rs)) threshold && is_sound threshold id rs

-- The columns of a channel that the counts depend on, and its count.
record Stands (id status failures : ℕ) (h : Health) : Type 0 where
  row : Probed
  is_row : h.channels id ≡ some row
  has_status : row.status ≡ status
  counted : status ≡ 1 → h.failures id ≡ failures

other-Stands :
    (threshold now : ℕ) (v : Verdict) (j id status n : ℕ) (h : Health)
    → (id == j) ≡ false
    → Stands id status n h
    → Stands id status n (test_channel threshold now v j h).0
unfolding test_channel note_test switch_off
other-Stands threshold now v j id status n h e s = record {
  row = s.row;
  is_row = ground (arith, s.is_row);
  has_status = s.has_status;
  counted = λ z. ground (arith, s.counted z);
}

abbrev next : Verdict → ℕ → ℕ
next v n = if v.ok then 0 else if v.quota then n else n + 1

same_id : (id : ℕ) → (id == id) ≡ true
same_id id = ground arith

self-Stands :
    (threshold now : ℕ) (v : Verdict) (id n : ℕ) (h : Health)
    → n < threshold
    → Stands id 1 n h
    → Stands id
        (if ltb (next v n) threshold then 1 else 0)
        (next v n)
        (test_channel threshold now v id h).0
unfolding test_channel note_test switch_off
self-Stands threshold now v id n h k s =
    let z : ltb 0 threshold ≡ true = ground arith in
    let l : ltb n threshold ≡ true = ground arith in
    let c = s.counted refl in
    let i = same_id id in
    elim (Bool-cases v.ok) [
      | inl e ↦
          rw (e, note_test, s.is_row, z)
            (record {
              row = record s.row { last_test_at = now; last_test_ok = 1 };
              is_row = rw i refl;
              has_status = s.has_status;
              counted = λ y. rw i refl;
            })
      | inr e ↦ elim (Bool-cases v.quota) [
        | inl q ↦
            rw (e, q, note_test, s.is_row, l)
              (record {
                row = record s.row { last_test_at = now; last_test_ok = 0 };
                is_row = rw i refl;
                has_status = s.has_status;
                counted = λ y. c;
              })
        | inr q ↦ elim (Bool-cases (ltb (n + 1) threshold)) [
          | inl m ↦
              rw (e, q, c, m, note_test, s.is_row)
                (record {
                  row = record s.row { last_test_at = now; last_test_ok = 0 };
                  is_row = rw i refl;
                  has_status = s.has_status;
                  counted = λ y. rw (i, c) refl;
                })
          | inr m ↦
              rw (e, q, c, m, note_test, s.is_row, switch_off, i, s.has_status)
                (record {
                  row = record {
                    status = 0;
                    auto_disabled_at = now;
                    last_test_at = now;
                    last_test_ok = 0;
                  };
                  is_row = rw i refl;
                  has_status = refl;
                  counted = λ y. absurd (ground (arith, y));
                })
        ]
      ]
    ]

abbrev pub count_of : ℕ → List ℕ → ℕ
count_of id [] = 0
count_of id (j ∷ js) = if id == j then count_of id js + 1 else count_of id js

none-Stands :
    (threshold now : ℕ) (verdicts : ℕ → Verdict) (snap : ℕ → Option Probed) (ids : List ℕ)
    (id status n : ℕ) (h : Health)
    → count_of id ids ≡ 0
    → Stands id status n h
    → Stands id status n (test_channels threshold now verdicts snap ids h).0
unfolding test_channels
none-Stands threshold now verdicts snap [] id status n h c s = s
none-Stands threshold now verdicts snap (j ∷ js) id status n h c s =
    let a : (id == j) ≡ false = ground arith in
    let b : count_of id js ≡ 0 = ground arith in
    elim (Bool-cases (is_enabled (snap j))) [
      | inl e ↦ rw e (
          none-Stands threshold now verdicts snap js id status n _ b
            (other-Stands threshold now (verdicts j) j id status n h a s))
      | inr e ↦ rw e (none-Stands threshold now verdicts snap js id status n h b s)
    ]

one-Stands :
    (threshold now : ℕ) (verdicts : ℕ → Verdict) (snap : ℕ → Option Probed) (ids : List ℕ)
    (id n : ℕ) (h : Health)
    → count_of id ids ≡ 1
    → is_enabled (snap id) ≡ true
    → n < threshold
    → Stands id 1 n h
    → Stands id
        (if ltb (next (verdicts id) n) threshold then 1 else 0)
        (next (verdicts id) n)
        (test_channels threshold now verdicts snap ids h).0
unfolding test_channels
one-Stands threshold now verdicts snap [] id n h c o k s = absurd (ground arith)
one-Stands threshold now verdicts snap (j ∷ js) id n h c o k s = elim (Bool-cases (id == j)) [
  | inl y ↦
      let i : id ≡ j = (==_iff id j).0 y in
      subst
        (λ x.
          Stands id (if ltb (next (verdicts id) n) threshold then 1 else 0) (next (verdicts id) n)
            (test_channels threshold now verdicts snap (x ∷ js) h).0)
        i
        (rw o (
          none-Stands threshold now verdicts snap js id _ _ _ (ground arith)
            (self-Stands threshold now (verdicts id) id n h k s)))
  | inr y ↦
      let b : count_of id js ≡ 1 = ground arith in
      elim (Bool-cases (is_enabled (snap j))) [
        | inl e ↦ rw e (
            one-Stands threshold now verdicts snap js id n _ b o k
              (other-Stands threshold now (verdicts j) j id 1 n h y s))
        | inr e ↦ rw e (one-Stands threshold now verdicts snap js id n h b o k s)
      ]
]

sound-below :
    (threshold id : ℕ) (rs : List Tests)
    → 0 < threshold
    → is_sound threshold id rs ≡ true
    → streak id rs < threshold
sound-below threshold id [] p e = p
sound-below threshold id (r ∷ rs) p e = ground arith

and_true : (b : Bool) → b && true ≡ b
and_true true = refl
and_true false = refl

and_false : (b : Bool) → b && false ≡ false
and_false true = refl
and_false false = refl

kept_threshold :
    (threshold : ℕ) → 0 < threshold → (if threshold == 0 then 3 else threshold) ≡ threshold
kept_threshold threshold p = ground arith

round_is :
    (threshold now : ℕ) (verdicts : ℕ → Verdict) (ids : List ℕ) (h : Health)
    → 0 < threshold
    → (test_channels threshold now verdicts h.channels ids h).0
      ≡ (channel_test_once threshold now verdicts ids h).0
unfolding channel_test_once
round_is threshold now verdicts ids h p =
    ap (λ t. (test_channels t now verdicts h.channels ids h).0) (sym (kept_threshold threshold p))

as_round :
    (threshold : ℕ) (r : Tests) (ids : List ℕ) (id n : ℕ) (g : Health) (b b' : Bool)
    → 0 < threshold
    → b ≡ b'
    → Stands id (if b then 1 else 0) n (test_channels threshold r.at r.verdicts g.channels ids g).0
    → Stands id (if b' then 1 else 0) n (channel_test_once threshold r.at r.verdicts ids g).0
as_round threshold r ids id n g b b' p e t =
    subst
      (λ x. Stands id (if x then 1 else 0) n (channel_test_once threshold r.at r.verdicts ids g).0)
      e (subst (Stands id (if b then 1 else 0) n) (round_is threshold r.at r.verdicts ids g p) t)

rounds-Stands :
    (threshold : ℕ) (ids : List ℕ) (id : ℕ) (rs : List Tests) (h : Health)
    → 0 < threshold
    → count_of id ids ≡ 1
    → Stands id 1 0 h
    → Stands id
        (if is_sound threshold id rs then 1 else 0)
        (streak id rs)
        (test_rounds threshold ids rs h)
unfolding test_rounds channel_test_once
rounds-Stands threshold ids id [] h p c s = s
rounds-Stands threshold ids id (r ∷ rs) h p c s =
    let ih = rounds-Stands threshold ids id rs h p c s in
    let g = test_rounds threshold ids rs h in
    let n = streak id rs in
    let v = r.verdicts id in
    let at : (b : Bool) → is_sound threshold id rs ≡ b → Stands id (if b then 1 else 0) n g =
      λ b e. subst (λ x. Stands id (if x then 1 else 0) n g) e ih in
    elim (Bool-cases (is_sound threshold id rs)) [
      | inl y ↦
          let t = at true y in
          as_round threshold r ids id (next v n) g _ (is_sound threshold id (r ∷ rs)) p
            (sym (ap (λ b. ltb (next v n) threshold && b) y ∙ and_true (ltb (next v n) threshold)))
            (one-Stands threshold r.at r.verdicts g.channels ids id n g c
              (rw (t.is_row, t.has_status) refl) (sound-below threshold id rs p y) t)
      | inr y ↦
          let t = at false y in
          as_round threshold r ids id (next v n) g false (is_sound threshold id (r ∷ rs)) p
            (sym (ap (λ b. ltb (next v n) threshold && b) y ∙ and_false (ltb (next v n) threshold)))
            (record {
              row = t.row;
              is_row =
                  tests_other threshold r.at r.verdicts g.channels ids id g
                    (rw (t.is_row, t.has_status) refl)
                  ∙ t.is_row;
              has_status = t.has_status;
              counted = λ w. absurd (ground (arith, w));
            })
    ]

-- Rounds of tests over a table that has an enabled channel once, with no failures counted, disable
-- the channel exactly when it came to as many failures in a row as the positive threshold; a
-- success ends a row, and a failure of quota does not count.
pub test_rounds-is_sound :
    (threshold : ℕ) (ids : List ℕ) (id : ℕ) (rs : List Tests) (row : Probed) (h : Health)
    → 0 < threshold
    → count_of id ids ≡ 1
    → h.channels id ≡ some row
    → row.status ≡ 1
    → h.failures id ≡ 0
    → is_enabled ((test_rounds threshold ids rs h).channels id) ≡ is_sound threshold id rs
test_rounds-is_sound threshold ids id rs row h p c e s f =
    let t =
      rounds-Stands threshold ids id rs h p c
        (record { row = row; is_row = e; has_status = s; counted = λ w. f }) in
    rw (t.is_row, t.has_status) (one_if (is_sound threshold id rs))
  where
    one_if : (b : Bool) → ((if b then 1 else 0) == 1) ≡ b
    one_if true = refl
    one_if false = refl

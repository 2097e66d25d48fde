-- ===== src/Prober/Hand.antt =====
-- A channel that was disabled by hand.
use general_api.Base.{
  ◌==◌, if◌then◌else◌, ==_iff, Bool-cases, ℕ, ◌≡◌, refl, sym, ap, ◌∙◌, inl, inr, Bool, true, false,
  Option, some, List, [], ◌∷◌, arith,
}
use general_api.Prober.{
  is_auto_disabled, is_enabled, Probed, probe_channels, test_channels, Verdict, Health,
  channel_test_once, test_channel, note_test, switch_off, auto_probe_once, probe_disabled, recover,
}

-- What the system does of itself: a round of tests, or a round of probes.
pub data Round : Type 0 where
  tests : ℕ → ℕ → (ℕ → Verdict) → Round
  probes : ℕ → (ℕ → Verdict) → Round

unfoldable pub play : List ℕ → Round → Health → Health
play ids (tests threshold now verdicts) h = (channel_test_once threshold now verdicts ids h).0
play ids (probes now verdicts) h = (auto_probe_once now verdicts ids h).0

unfoldable pub play_all : List ℕ → List Round → Health → Health
play_all ids [] h = h
play_all ids (r ∷ rs) h = play_all ids rs (play ids r h)

test_other :
    (threshold now : ℕ) (v : Verdict) (id j : ℕ) (h : Health)
    → (j == id) ≡ false
    → (test_channel threshold now v id h).0.channels j ≡ h.channels j
unfolding test_channel note_test switch_off
test_other threshold now v id j h n = ground arith

probe_other :
    (now : ℕ) (v : Verdict) (id j : ℕ) (h : Health)
    → (j == id) ≡ false
    → (probe_disabled now v id h).0.channels j ≡ h.channels j
unfolding probe_disabled note_test recover
probe_other now v id j h n = ground arith

-- A channel that a table passes over is not one that it has.
apart : (f : ℕ → Bool) (j id : ℕ) → f j ≡ false → f id ≡ true → (j == id) ≡ false
apart f j id a b = elim (Bool-cases (j == id)) [
  | inl e ↦ absurd (ground (arith, b, sym (ap f ((==_iff j id).0 e)) ∙ a))
  | inr e ↦ e
]

pub tests_other :
    (threshold now : ℕ) (verdicts : ℕ → Verdict) (snap : ℕ → Option Probed) (ids : List ℕ) (j : ℕ)
    (h : Health)
    → is_enabled (snap j) ≡ false
    → (test_channels threshold now verdicts snap ids h).0.channels j ≡ h.channels j
unfolding test_channels
tests_other threshold now verdicts snap [] j h n = refl
tests_other threshold now verdicts snap (id ∷ ids) j h n =
    elim (Bool-cases (is_enabled (snap id))) [
      | inl e ↦ rw e (
          tests_other threshold now verdicts snap ids j
            (test_channel threshold now (verdicts id) id h).0 n
          ∙ test_other threshold now (verdicts id) id j h
              (apart (λ i. is_enabled (snap i)) j id n e))
      | inr e ↦ rw e (tests_other threshold now verdicts snap ids j h n)
    ]

probes_other :
    (now : ℕ) (verdicts : ℕ → Verdict) (snap : ℕ → Option Probed) (ids : List ℕ) (j : ℕ)
    (h : Health)
    → is_auto_disabled (snap j) ≡ false
    → (probe_channels now verdicts snap ids h).0.channels j ≡ h.channels j
unfolding probe_channels
probes_other now verdicts snap [] j h n = refl
probes_other now verdicts snap (id ∷ ids) j h n = elim (Bool-cases (is_auto_disabled (snap id))) [
  | inl e ↦ rw e (
      probes_other now verdicts snap ids j (probe_disabled now (verdicts id) id h).0 n
      ∙ probe_other now (verdicts id) id j h (apart (λ i. is_auto_disabled (snap i)) j id n e))
  | inr e ↦ rw e (probes_other now verdicts snap ids j h n)
]

play_keeps :
    (ids : List ℕ) (r : Round) (j : ℕ) (c : Probed) (h : Health)
    → h.channels j ≡ some c
    → c.status ≡ 0
    → c.auto_disabled_at ≡ 0
    → (play ids r h).channels j ≡ some c
unfolding play channel_test_once auto_probe_once
play_keeps ids (tests threshold now verdicts) j c h e s a =
    tests_other (if threshold == 0 then 3 else threshold) now verdicts h.channels ids j h
      (rw (e, s) refl)
    ∙ e
play_keeps ids (probes now verdicts) j c h e s a =
    probes_other now verdicts h.channels ids j h (rw (e, s, a) refl) ∙ e

-- No rounds of tests and probes touch a channel that was disabled by hand.
pub play_all-disabled_by_hand :
    (ids : List ℕ) (rs : List Round) (j : ℕ) (c : Probed) (h : Health)
    → h.channels j ≡ some c
    → c.status ≡ 0
    → c.auto_disabled_at ≡ 0
    → (play_all ids rs h).channels j ≡ some c
unfolding play_all
play_all-disabled_by_hand ids [] j c h e s a = e
play_all-disabled_by_hand ids (r ∷ rs) j c h e s a =
    play_all-disabled_by_hand ids rs j c (play ids r h) (play_keeps ids r j c h e s a) s a

-- ===== src/Coord/Slots/Bounds.antt =====
-- The gate never gives out more slots of a channel than its capacity.
use general_api.Base.{
  ◌==◌, if◌then◌else◌, Bool-cases, Option-cases, ℕ, zero, suc, ◌+◌, ◌≤◌, ◌<◌, max, ◌≡◌, refl, inl,
  inr, true, false, ◌&&◌, not, some, List, [], ◌∷◌, arith,
}
use general_api.Coord.{Scope}
use general_api.Coord.Slots.{
  Slot, Gate, make_chan, channel_of, send, slot_at, mark_released, release, new_gate, Reach, opens,
  takes, releases, start, after,
}

-- The slots of a channel that are not released.
abbrev pub held : ℕ → List Slot → ℕ
held i [] = 0
held i (s ∷ ss) = if s.chan == i && not s.released then suc (held i ss) else held i ss

abbrev pub Below : ℕ → List Slot → Type 0
Below n [] = Unit {0}
Below n (s ∷ ss) = (s.chan < n) × Below n ss

pub record IsValid (g : Gate) : Type 0 where
  pub counted : (i : ℕ) → (g.chans i).tokens ≡ held i g.given
  pub capped : (i : ℕ) → (g.chans i).tokens ≤ (g.chans i).cap
  pub known : Below g.next g.given

Below-suc : (n : ℕ) (ss : List Slot) → Below n ss → Below (n + 1) ss
Below-suc n [] h = tt
Below-suc n (s ∷ ss) h = (omega arith, Below-suc n ss h.1)

held_above : (n : ℕ) (ss : List Slot) → Below n ss → held n ss ≡ 0
held_above n [] h = refl
held_above n (s ∷ ss) h = ground (arith, held_above n ss h.1)

make_chan-IsValid :
    (scope : Scope) (max : ℕ) (g : Gate) → IsValid g → IsValid (make_chan scope max g)
unfolding make_chan
make_chan-IsValid scope max g v = record {
  counted = λ i. ground (arith, v.counted i, held_above g.next g.given v.known);
  capped = λ i. ground (arith, v.capped i);
  known = Below-suc g.next g.given v.known;
}

channel_of-IsValid :
    (scope : Scope) (max : ℕ) (g : Gate) → IsValid g → IsValid (channel_of scope max g).1
unfolding channel_of
channel_of-IsValid scope max g v = elim (Option-cases (g.slots scope)) [
  | inl e ↦ rw (e, channel_of) (make_chan-IsValid scope max g v)
  | inr (i, e) ↦ elim (Bool-cases ((g.chans i).cap == max)) [
    | inl f ↦ rw (e, channel_of) (rw f v)
    | inr f ↦ rw (e, channel_of) (rw f (make_chan-IsValid scope max g v))
  ]
]

send-IsValid : (g g' : Gate) (i : ℕ) → i < g.next → send i g ≡ some g' → IsValid g → IsValid g'
unfolding send
send-IsValid g g' i h e v = record {
  counted = λ j. ground (arith, v.counted j, v.counted i);
  capped = λ j. ground (arith, v.capped j);
  known = known;
}
  where
    known : Below g'.next g'.given
    known = ground (arith, v.known)

-- Releasing a held slot takes one from its channel's count and no other's.
held-mark :
    (ss : List Slot) (n : ℕ) (s : Slot) (i : ℕ)
    → slot_at ss n ≡ some s
    → s.released ≡ false
    → held i ss ≡ held i (mark_released ss n) + (if s.chan == i then 1 else 0)
held-mark [] n s i e f = absurd (ground arith)
held-mark (t ∷ ss) zero s i e f = ground arith
held-mark (t ∷ ss) (suc n) s i e f = ground (arith, held-mark ss n s i e f)

Below-mark : (m : ℕ) (ss : List Slot) (n : ℕ) → Below m ss → Below m (mark_released ss n)
Below-mark m [] n h = tt
Below-mark m (t ∷ ss) zero h = h
Below-mark m (t ∷ ss) (suc n) h = (h.0, Below-mark m ss n h.1)

release-IsValid : (g : Gate) (n : ℕ) → IsValid g → IsValid (release n g)
unfolding release
release-IsValid g n v = elim (Option-cases (slot_at g.given n)) [
  | inl e ↦ rw (e, release) v
  | inr (s, e) ↦ elim (Bool-cases s.released) [
    | inl f ↦ rw (e, release) (rw f v)
    | inr f ↦
        rw (e, release)
          (rw f (record {
            counted =
                λ j. ground (arith, v.counted j, v.counted s.chan, held-mark g.given n s j e f);
            capped = λ j. ground (arith, v.capped j);
            known = Below-mark g.next g.given n v.known;
          }))
  ]
]

new_gate-IsValid : IsValid new_gate
unfolding new_gate
new_gate-IsValid = record { counted = λ i. refl; capped = λ i. omega arith; known = tt }

Reach-IsValid : {g : Gate} → Reach g → IsValid g
Reach-IsValid start = new_gate-IsValid
Reach-IsValid (after r (opens g scope max)) = channel_of-IsValid scope max g (Reach-IsValid r)
Reach-IsValid (after r (takes g g' i h e)) = send-IsValid g g' i h e (Reach-IsValid r)
Reach-IsValid (after r (releases g n)) = release-IsValid g n (Reach-IsValid r)

-- However calls open, wait, take and release, no channel ever has more slots held than its
-- capacity, and the receive of a release never blocks: a slot that is not released has its token.
pub held-le-cap :
    {g : Gate}
    → Reach g
    → (i : ℕ) → (held i g.given ≤ (g.chans i).cap) × (held i g.given ≡ (g.chans i).tokens)
held-le-cap r i = let v = Reach-IsValid r in ground (arith, v.counted i, v.capped i)

slot_at-mark :
    (ss : List Slot) (n : ℕ) (s : Slot)
    → slot_at ss n ≡ some s
    → slot_at (mark_released ss n) n ≡ some (record s { released = true })
slot_at-mark [] n s e = absurd (ground arith)
slot_at-mark (t ∷ ss) zero s e = ground arith
slot_at-mark (t ∷ ss) (suc n) s e = slot_at-mark ss n s e

-- A second release of the same slot does nothing.
release_twice : (n : ℕ) (g : Gate) → release n (release n g) ≡ release n g
unfolding release
release_twice n g = elim (Option-cases (slot_at g.given n)) [
  | inl e ↦ ground arith
  | inr (s, e) ↦ ground (arith, slot_at-mark g.given n s e)
]

-- ===== src/Coord/Slots.antt =====
-- The concurrency gate of internal/coord/mem.go: `AcquireSlot` and the release that it returns. A
-- Go channel is its capacity and the number of tokens in it; a map entry names a channel. A waiting
-- call is not part of the state: it takes its slot, or gives up, at a later step.
pub mod Bounds
use general_api.Base.{
  ltb, ◌==◌, if◌then◌else◌, ℕ, zero, suc, ◌+◌, ◌-◌, ◌<◌, max, ◌≡◌, Bool, true, false, Option, none,
  some, List, [], ◌∷◌,
}
use general_api.Coord.{Scope, same_scope}

pub record Chan : Type 0 where
  pub cap : ℕ
  pub tokens : ℕ

-- A slot that was given out: its channel, and whether the `sync.Once` of its release has run.
pub record Slot : Type 0 where
  pub chan : ℕ
  pub released : Bool

pub record Gate : Type 0 where
  pub slots : Scope → Option ℕ
  pub chans : ℕ → Chan
  pub next : ℕ
  pub given : List Slot

abbrev pub put_chan : ℕ → Chan → (ℕ → Chan) → ℕ → Chan
put_chan i c m j = if j == i then c else m j

-- make(chan struct{}, max), in the map.
make_chan : Scope → ℕ → Gate → Gate
make_chan scope max g = record g {
  slots = (λ s. if same_scope s scope then some g.next else g.slots s);
  chans = put_chan g.next (record { cap = max; tokens = 0 }) g.chans;
  next = g.next + 1;
}

-- The channel of a scope, remade where the configured capacity has changed.
unfoldable pub channel_of : Scope → ℕ → Gate → ℕ × Gate
unfolding make_chan
channel_of scope max g = elim (g.slots scope) [
  | none ↦ (g.next, make_chan scope max g)
  | some i ↦ if (g.chans i).cap == max then (i, g) else (g.next, make_chan scope max g)
]

-- ch <- struct{}{}, where there is room.
unfoldable pub send : ℕ → Gate → Option Gate
send i g =
    let c = g.chans i in
    if ltb c.tokens c.cap
    then some (record g {
      chans = put_chan i (record c { tokens = c.tokens + 1 }) g.chans;
      given = record { chan = i; released = false } ∷ g.given;
    })
    else none

abbrev pub slot_at : List Slot → ℕ → Option Slot
slot_at [] n = none
slot_at (s ∷ ss) zero = some s
slot_at (s ∷ ss) (suc n) = slot_at ss n

abbrev pub mark_released : List Slot → ℕ → List Slot
mark_released [] n = []
mark_released (s ∷ ss) zero = record s { released = true } ∷ ss
mark_released (s ∷ ss) (suc n) = s ∷ mark_released ss n

-- once.Do(func() { <-ch }) of the n-th slot. The receive takes a token out; `Slots-IsValid` shows
-- that there is one, so that it does not block.
receive : ℕ → Slot → Gate → Gate
receive n s g =
    if s.released
    then g
    else (let c = g.chans s.chan in
        record g {
          chans = put_chan s.chan (record c { tokens = c.tokens - 1 }) g.chans;
          given = mark_released g.given n;
        })

unfoldable pub release : ℕ → Gate → Gate
unfolding receive
release n g = elim (slot_at g.given n) [ none ↦ g | some s ↦ receive n s g ]

unfoldable pub new_gate : Gate
new_gate = record {
  slots = λ s. none;
  chans = λ i. record { cap = 0; tokens = 0 };
  next = 0;
  given = [];
}

-- A call looks its channel up; it sends at once or after waiting, or gives up; slots are released
-- at any time, and more than once.
pub data Step : Gate → Gate → Type 0 where
  opens : (g : Gate) (scope : Scope) (max : ℕ) → Step g (channel_of scope max g).1
  takes : (g g' : Gate) (i : ℕ) → i < g.next → send i g ≡ some g' → Step g g'
  releases : (g : Gate) (n : ℕ) → Step g (release n g)

pub data Reach : Gate → Type 0 where
  start : Reach new_gate
  after : {g g' : Gate} → Reach g → Step g g' → Reach g'

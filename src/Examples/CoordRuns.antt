-- ===== src/Examples/CoordRuns.antt =====
-- Cooldowns and slots of one key and one channel.
use general_api.Base.{
  ◌+ℤ◌, ◌<ℤ◌, leb_ℤ, pos, ℕ, ◌+◌, ◌*◌, ◌^◌, ◌≤◌, min, ◌≡◌, refl, ◌≢◌, true, false, some, [], ◌∷◌,
  arith,
}
use general_api.Coord.{ck, ch, Mem, put, new_mem, is_cooling, backoff}
use general_api.Coord.Backoff.{streak, backoff_exact, backoff_overflow}
use general_api.Coord.Slots.{put_chan, Gate, new_gate, channel_of, send, start, after, opens, takes}
use general_api.Coord.Slots.Bounds.{held, held-le-cap}

abbrev minute : ℕ
minute = 60000000000

abbrev day : ℕ
day = 86400000000000

-- A key in the middle of its cooldown, after 28 triggers in a row.
abbrev long_streak : Mem
long_streak = put (ck 1 2) (some (record { until = pos 500; hits = 28; quota = true })) new_mem

backoff_overflow_example :
    let r = backoff (pos 100) (ck 1 2) (pos minute) (pos day) long_streak in
    (r.0 <ℤ pos 0) × ((is_cooling (pos 100) (ck 1 2) r.1).0 ≡ false)
backoff_overflow_example =
    backoff_overflow (pos 100) (ck 1 2) minute day long_streak (omega arith) (omega arith) refl

backoff_exact_example :
    let r = backoff (pos 100) (ck 1 2) (pos minute) (pos day) new_mem in
    (r.0 ≡ pos (min (minute * 2 ^ min 0 30) day))
    × ((is_cooling (pos 200) (ck 1 2) r.1).0 ≡ leb_ℤ (pos 200) (pos 100 +ℤ r.0))
    × (streak (pos 100) (ck 1 2) r.1 ≡ 0 + 1)
    × (ck 1 3 ≢ ck 1 2
        → (is_cooling (pos 200) (ck 1 3) r.1).0 ≡ (is_cooling (pos 200) (ck 1 3) new_mem).0)
backoff_exact_example =
    backoff_exact (pos 100) (pos 200) (ck 1 2) (ck 1 3) minute day new_mem (omega arith)
      (omega arith) (omega arith)

abbrev opened : Gate
unfolding channel_of new_gate
opened = (channel_of (ch 5) 1 new_gate).1

abbrev taken : Gate
taken = record opened {
  chans = put_chan 0 (record { cap = 1; tokens = 1 }) opened.chans;
  given = record { chan = 0; released = false } ∷ [];
}

held-le-cap_example :
    (held 0 taken.given ≤ (taken.chans 0).cap) × (held 0 taken.given ≡ (taken.chans 0).tokens)
unfolding channel_of new_gate send
held-le-cap_example =
    held-le-cap
      (after (after start (opens new_gate (ch 5) 1)) (takes opened taken 0 (omega arith) refl)) 0

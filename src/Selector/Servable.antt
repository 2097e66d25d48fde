-- ===== src/Selector/Servable.antt =====
-- What each candidate of a channel has.
use general_api.Base.{
  if_intro, All, All-append, ℤ, ℕ, String, ◌≡◌, refl, sym, ap, ◌∙◌, false, Option, none, some, List,
  [], ◌∷◌, map, arith, str_eq,
}
use general_api.Coord.{Scope, Mem, ck, is_cooling, is_quota_cooling}
use general_api.Coord.Cooling.{is_cooling-lazy}
use general_api.Candidate.{Candidate, key_scope}
use general_api.Selector.{
  KeyRow, CandRow, Scan, scan, scan_key, usable_key, finish, make_candidate, channel_candidates,
}
use general_api.Selector.Keeps.{weighted_shuffle-All}

-- A candidate of a channel row: its key is that of a row with the property, it decrypts to a text
-- that is not empty, and does not cool.
pub record IsServable {κ} (now : ℤ) (decrypt : String → Option String) (P : KeyRow → Type κ)
    (r : CandRow) (mem : Mem) (c : Candidate) : Type κ where
  pub channel : c.channel_id ≡ r.channel_id
  pub vendor : c.vendor_id ≡ r.vendor_id
  pub not_cooling : (is_cooling now (key_scope c) mem).0 ≡ false
  pub source :
      (kr : KeyRow) × P kr × (kr.id ≡ c.key_id) × (decrypt kr.key_enc ≡ some c.upstream_key)
  pub not_empty : str_eq c.upstream_key "" ≡ false

module _ {κ} (now : ℤ) (decrypt : String → Option String) (P : KeyRow → Type κ) (mem : Mem)
    (vendor : ℕ) where
  -- A decrypted row.
  record Good (k : KeyRow) : Type κ where
    awake : (is_cooling now (ck vendor k.id) mem).0 ≡ false
    origin : (kr : KeyRow) × P kr × (kr.id ≡ k.id) × (decrypt kr.key_enc ≡ some k.key_enc)
    filled : str_eq k.key_enc "" ≡ false

  record Sound (s : Scan) : Type κ where
    all_good : All Good s.usable
    same_cooling : (t : Scope) → (is_cooling now t s.mem).0 ≡ (is_cooling now t mem).0

  usable_key-Good :
      (kr : KeyRow) (o : Option String)
      → decrypt kr.key_enc ≡ o
      → P kr
      → (is_cooling now (ck vendor kr.id) mem).0 ≡ false
      → All Good (usable_key o kr)
  unfolding usable_key
  usable_key-Good kr none e p h = tt
  usable_key-Good kr (some key) e p h =
      if_intro (All Good) (str_eq key "") _ _ (λ f. tt)
        (λ f. (record { awake = h; origin = (kr, p, refl, e); filled = f }, tt))

  quota-mem : (t : Scope) (m : Mem) → (is_quota_cooling now t m).1 ≡ (is_cooling now t m).1
  unfolding is_quota_cooling is_cooling
  quota-mem t m = refl

  looked :
      (s t : Scope) (m : Mem) → (is_cooling now t (is_cooling now s m).1).0 ≡ (is_cooling now t m).0
  looked s t m = (is_cooling-lazy now now s t m (omega arith)).0

  scan_key-Sound :
      (kr : KeyRow) (s : Scan) → P kr → Sound s → Sound (scan_key now decrypt vendor kr s)
  unfolding scan_key
  scan_key-Sound kr s p h =
      let sc = ck vendor kr.id in
      if_intro Sound (is_cooling now sc s.mem).0 _ _
        (λ e. record {
          all_good = h.all_good;
          same_cooling = λ t.
              ap (λ m. (is_cooling now t m).0) (quota-mem sc (is_cooling now sc s.mem).1)
              ∙ looked sc t (is_cooling now sc s.mem).1
              ∙ looked sc t s.mem
              ∙ h.same_cooling t;
        })
        (λ e. record {
          all_good =
              All-append Good s.usable (usable_key (decrypt kr.key_enc) kr) h.all_good
                (usable_key-Good kr (decrypt kr.key_enc) refl p (sym (h.same_cooling sc) ∙ e));
          same_cooling = λ t. looked sc t s.mem ∙ h.same_cooling t;
        })

  scan-Sound :
      (pool : List KeyRow) (s : Scan)
      → All P pool
      → Sound s
      → Sound (scan now decrypt vendor pool s)
  unfolding scan
  scan-Sound [] s a h = h
  scan-Sound (kr ∷ pool) s a h =
      scan-Sound pool (scan_key now decrypt vendor kr s) a.1 (scan_key-Sound kr s a.0 h)

module _ {κ} (now : ℤ) (decrypt : String → Option String) (P : KeyRow → Type κ) (mem : Mem)
    (r : CandRow) where
  made :
      (ks : List KeyRow)
      → All (Good now decrypt P mem r.vendor_id) ks
      → All (IsServable now decrypt P r mem) (map (make_candidate r) ks)
  unfolding make_candidate
  made [] a = tt
  made (k ∷ ks) a = (
    record {
      channel = refl;
      vendor = refl;
      not_cooling = a.0.awake;
      source = a.0.origin;
      not_empty = a.0.filled;
    },
    made ks a.1,
  )

  finish-IsServable :
      (intn : ℕ → ℕ → ℕ) (draws : ℕ) (s : Scan) (us : List KeyRow)
      → All (Good now decrypt P mem r.vendor_id) us
      → All (IsServable now decrypt P r mem) (finish intn draws r (record s { usable = us })).cands
  unfolding finish
  finish-IsServable intn draws s [] a = tt
  finish-IsServable intn draws s (k ∷ ks) a = made _ (
      weighted_shuffle-All (λ kr. kr.weight) (Good now decrypt P mem r.vendor_id) intn draws
        (k ∷ ks) a)

finish-mem :
    (intn : ℕ → ℕ → ℕ) (draws : ℕ) (r : CandRow) (s : Scan) (us : List KeyRow)
    → (finish intn draws r (record s { usable = us })).mem ≡ s.mem
unfolding finish
finish-mem intn draws r s [] = refl
finish-mem intn draws r s (k ∷ ks) = refl

anything : (ks : List KeyRow) → All (λ k. Unit {0}) ks
anything [] = tt
anything (k ∷ ks) = (tt, anything ks)

-- Each candidate of a channel belongs to it and its vendor, and its key does not cool, decrypts
-- from a row of the pool (whatever all of them have, that row has), and is not empty.
pub channel_candidates-IsServable {κ} :
    (now : ℤ) (decrypt : String → Option String) (intn : ℕ → ℕ → ℕ) (draws : ℕ)
    (P : KeyRow → Type κ) (r : CandRow) (pool : List KeyRow) (mem : Mem)
    → All P pool
    → All
        (IsServable now decrypt P r mem)
        (channel_candidates now decrypt intn draws r pool mem).cands
unfolding channel_candidates
channel_candidates-IsServable now decrypt intn draws P r [] mem a = tt
channel_candidates-IsServable now decrypt intn draws P r (kr ∷ pool) mem a =
    let s0 : Scan = record { usable = []; cooling = 0; quota = 0; mem = mem } in
    let s = scan now decrypt r.vendor_id (kr ∷ pool) s0 in
    finish-IsServable now decrypt P mem r intn draws s s.usable
      (scan-Sound now decrypt P mem r.vendor_id (kr ∷ pool) s0 a
        (record { all_good = tt; same_cooling = λ t. refl })).all_good

-- Expanding a channel drops expired entries only.
pub channel_candidates-same_cooling :
    (now : ℤ) (decrypt : String → Option String) (intn : ℕ → ℕ → ℕ) (draws : ℕ) (r : CandRow)
    (pool : List KeyRow) (mem : Mem) (t : Scope)
    → (is_cooling now t (channel_candidates now decrypt intn draws r pool mem).mem).0
      ≡ (is_cooling now t mem).0
unfolding channel_candidates
channel_candidates-same_cooling now decrypt intn draws r [] mem t = refl
channel_candidates-same_cooling now decrypt intn draws r (kr ∷ pool) mem t =
    let s0 : Scan = record { usable = []; cooling = 0; quota = 0; mem = mem } in
    let s = scan now decrypt r.vendor_id (kr ∷ pool) s0 in
    ap (λ m. (is_cooling now t m).0) (finish-mem intn draws r s s.usable)
    ∙ (scan-Sound now decrypt (λ k. Unit {0}) mem r.vendor_id (kr ∷ pool) s0 (anything (kr ∷ pool))
          (record { all_good = tt; same_cooling = λ t. refl })).same_cooling
        t

-- ===== src/Prober/Keys/Fates.antt =====
-- What the answers to its keys say of a channel.
use general_api.Base.{
  ◌==◌, if◌then◌else◌, length, ℤ, leb_ℤ, pos, ℕ, ◌+◌, ◌≤◌, ◌<◌, ◌≡◌, refl, sym, ap, subst, ◌∙◌,
  Bool, true, false, ◌&&◌, ◌||◌, Option, none, some, List, [], ◌∷◌, map, arith,
}
use general_api.Coord.{set_cooldown, Mem, ck}
use general_api.Prober.{Verdict}
use general_api.Prober.Keys.{
  failed, ProbeResult, probe_keys, Kind, Reply, is_2xx, is_chat, is_video, probe_once, Next, stop,
  out_of_quota, bad_key, next_of, probe_picked, pick_keys, probe_channel,
}

pub data Fate : Type 0 where
  works short bad down : Fate

-- An event stream is judged by its first data, a video channel by the refusal of an unknown task.
abbrev pub serves : Kind → Reply → Bool
serves kind r =
    if is_2xx r.status && is_chat kind && r.event_stream
    then r.first_chunk
    else is_2xx r.status || is_video kind && (r.status == 404 || r.status == 400)

abbrev pub fate : Kind → Option Reply → Fate
fate kind none = down
fate kind (some r) =
    if serves kind r
    then works
    else if r.status == 429 && r.quota_code
    then short
    else if r.status == 401 || r.status == 403 || r.status == 402
    then bad
    else down

abbrev pub ok_verdict : Verdict
ok_verdict = record { ok = true; quota = false }

-- The first answer that works, or fails for the channel's own sake, decides; without one the
-- failure is of quota if each key was short of it.
abbrev pub judged : Kind → Bool → List (ℕ × Option Reply) → Verdict
judged kind all_short [] = record { ok = false; quota = all_short }
judged kind all_short ((id, reply) ∷ keys) = elim (fate kind reply) [
  | works ↦ ok_verdict
  | down ↦ record { ok = false; quota = false }
  | short ↦ judged kind all_short keys
  | bad ↦ judged kind false keys
]

-- The keys that were refused before that.
abbrev pub refused : Kind → List (ℕ × Option Reply) → List ℕ
refused kind [] = []
refused kind ((id, reply) ∷ keys) =
    let rest = refused kind keys in
    elim (fate kind reply) [ works ↦ [] | down ↦ [] | short ↦ rest | bad ↦ id ∷ rest ]

abbrev next_fate : Fate → Next
next_fate works = stop
next_fate down = stop
next_fate short = out_of_quota
next_fate bad = bad_key

abbrev fate_verdict : Fate → Verdict
fate_verdict works = ok_verdict
fate_verdict short = record { ok = false; quota = true }
fate_verdict _ = record { ok = false; quota = false }

once-fate :
    (now base : ℤ) (kind : Kind) (vendor id : ℕ) (reply : Option Reply) (mem : Mem)
    → let r = (probe_once now base kind (ck vendor id) reply mem).0 in
      (r.verdict ≡ fate_verdict (fate kind reply)) × (next_of r ≡ next_fate (fate kind reply))
unfolding probe_once next_of
once-fate now base kind vendor id none mem = (refl, refl)
once-fate now base kind vendor id (some r) mem = ground arith

-- So far, `n` of the `seen` keys were short, and `last` is the result of the latest.
record Tried (n seen : ℕ) (last : ProbeResult) : Type 0 where
  at_most : n ≤ seen
  not_ok : last.verdict.ok ≡ false
  last_short : n ≡ seen → 0 < seen → last.verdict.quota ≡ true

-- The rest of the keys after a result.
abbrev after :
    ℤ
    → ℤ
    → Kind
    → ℕ
    → ℕ
    → ℕ
    → ℕ
    → List (ℕ × Option Reply)
    → ProbeResult × Mem
    → Next
    → ProbeResult × Mem × List ℕ
after now base kind vendor total n id keys r stop = (r.0, r.1, [])
after now base kind vendor total n id keys r out_of_quota =
    probe_keys now base kind vendor total (n + 1) r.0 keys r.1
after now base kind vendor total n id keys r bad_key =
    let rest =
      probe_keys now base kind vendor total n r.0 keys (set_cooldown now (ck vendor id) base r.1) in
    (rest.0, rest.1, id ∷ rest.2)

keys_step :
    (now base : ℤ) (kind : Kind) (vendor total n : ℕ) (last : ProbeResult) (id : ℕ)
    (reply : Option Reply) (keys : List (ℕ × Option Reply)) (mem : Mem) (x : Next)
    → next_of (probe_once now base kind (ck vendor id) reply mem).0 ≡ x
    → probe_keys now base kind vendor total n last ((id, reply) ∷ keys) mem
      ≡ after now base kind vendor total n id keys
          (probe_once now base kind (ck vendor id) reply mem)
          x
unfolding probe_keys
keys_step now base kind vendor total n last id reply keys mem stop e = rw (probe_keys, e) refl
keys_step now base kind vendor total n last id reply keys mem out_of_quota e =
    rw (probe_keys, e) refl
keys_step now base kind vendor total n last id reply keys mem bad_key e = rw (probe_keys, e) refl

keys_end :
    (now base : ℤ) (kind : Kind) (vendor total n seen : ℕ) (last : ProbeResult) (mem : Mem)
    → 0 < total
    → seen ≡ total
    → Tried n seen last
    → let r = probe_keys now base kind vendor total n last [] mem in
      (r.0.verdict.quota ≡ (n == seen)) × (r.0.verdict.ok ≡ false) × (r.2 ≡ [])
unfolding probe_keys
keys_end now base kind vendor total n seen last mem p e t = ground (arith, t.last_short)

abbrev Judged : ℤ → ℤ → Kind → ℕ → ℕ → ℕ → ℕ → List (ℕ × Option Reply) → ProbeResult → Mem → Type 0
Judged now base kind vendor total n seen keys last mem =
    let r = probe_keys now base kind vendor total n last keys mem in
    (r.0.verdict ≡ judged kind (n == seen) keys) × (r.2 ≡ refused kind keys)

both_more : (n m : ℕ) → (n + 1 == m + 1) ≡ (n == m)
both_more n m = ground arith

key-Judged :
    (now base : ℤ) (kind : Kind) (vendor total n seen id : ℕ) (reply : Option Reply)
    (last : ProbeResult) (keys : List (ℕ × Option Reply)) (mem : Mem) (f : Fate)
    → fate kind reply ≡ f
    → Tried n seen last
    → ((n' : ℕ) (last' : ProbeResult) (mem' : Mem)
        → Tried n' (seen + 1) last'
        → Judged now base kind vendor total n' (seen + 1) keys last' mem')
    → Judged now base kind vendor total n seen ((id, reply) ∷ keys) last mem
key-Judged now base kind vendor total n seen id reply last keys mem works f t ih =
    let o = once-fate now base kind vendor id reply mem in
    rw
      (
        judged,
        refused,
        f,
        keys_step now base kind vendor total n last id reply keys mem stop (o.1 ∙ ap next_fate f),
      )
      (o.0 ∙ ap fate_verdict f, refl)
key-Judged now base kind vendor total n seen id reply last keys mem down f t ih =
    let o = once-fate now base kind vendor id reply mem in
    rw
      (
        judged,
        refused,
        f,
        keys_step now base kind vendor total n last id reply keys mem stop (o.1 ∙ ap next_fate f),
      )
      (o.0 ∙ ap fate_verdict f, refl)
key-Judged now base kind vendor total n seen id reply last keys mem short f t ih =
    let o = once-fate now base kind vendor id reply mem in
    let r = probe_once now base kind (ck vendor id) reply mem in
    let q : r.0.verdict ≡ fate_verdict short = o.0 ∙ ap fate_verdict f in
    let z = ih (n + 1) r.0 r.1 (record {
      at_most = omega (arith, t.at_most);
      not_ok = ap (λ (v : Verdict). v.ok) q;
      last_short = λ x y. ap (λ (v : Verdict). v.quota) q;
    }) in
    rw
      (
        judged,
        refused,
        f,
        keys_step now base kind vendor total n last id reply keys mem out_of_quota
            (o.1 ∙ ap next_fate f),
      )
      (
        subst
            (λ b.
              (probe_keys now base kind vendor total (n + 1) r.0 keys r.1).0.verdict
              ≡ judged kind b keys)
            (both_more n seen) z.0,
        z.1,
      )
key-Judged now base kind vendor total n seen id reply last keys mem bad f t ih =
    let o = once-fate now base kind vendor id reply mem in
    let r = probe_once now base kind (ck vendor id) reply mem in
    let q : r.0.verdict ≡ fate_verdict bad = o.0 ∙ ap fate_verdict f in
    let c = set_cooldown now (ck vendor id) base r.1 in
    let z = ih n r.0 c (record {
      at_most = omega (arith, t.at_most);
      not_ok = ap (λ (v : Verdict). v.ok) q;
      last_short = λ x y. absurd (omega (arith, x, t.at_most));
    }) in
    let l : (n == seen + 1) ≡ false = ground (arith, t.at_most) in
    rw
      (
        judged,
        refused,
        f,
        keys_step now base kind vendor total n last id reply keys mem bad_key
            (o.1 ∙ ap next_fate f),
      )
      (
        subst
            (λ b.
              (probe_keys now base kind vendor total n r.0 keys c).0.verdict ≡ judged kind b keys)
            l z.0,
        ap (λ (ids : List ℕ). id ∷ ids) z.1,
      )

verdict_eq :
    (v : Verdict) (b : Bool) → v.quota ≡ b → v.ok ≡ false → v ≡ record { ok = false; quota = b }
verdict_eq v b q o = rw (sym q, sym o) refl

keys-Judged :
    (now base : ℤ) (kind : Kind) (vendor total n seen : ℕ) (last : ProbeResult)
    (keys : List (ℕ × Option Reply)) (mem : Mem)
    → 0 < total
    → seen + length keys ≡ total
    → Tried n seen last
    → Judged now base kind vendor total n seen keys last mem
keys-Judged now base kind vendor total n seen last [] mem p e t =
    let z = keys_end now base kind vendor total n seen last mem p (omega (arith, e)) t in
    (verdict_eq _ (n == seen) z.0 z.1, z.2)
keys-Judged now base kind vendor total n seen last ((id, reply) ∷ keys) mem p e t =
    key-Judged now base kind vendor total n seen id reply last keys mem (fate kind reply) refl t
      (λ n' last' mem' t'.
        keys-Judged now base kind vendor total n' (seen + 1) last' keys mem' p (omega (arith, e))
          t')

-- A probe that has keys to try finds the channel good, or short of quota alone, as the answers to
-- its keys say; and it disables exactly the keys that were refused before one decided.
pub probe_channel-judged :
    (now base : ℤ) (kind : Kind) (vendor : ℕ) (decrypts : ℕ → Bool) (pool : List ℕ)
    (replies : ℕ → Option Reply) (mem : Mem) (k : ℕ) (ks : List ℕ)
    → (pick_keys now vendor decrypts pool mem).0 ≡ k ∷ ks
    → let keys = map {B = ℕ × Option Reply} (λ id. (id, replies id)) (k ∷ ks) in
      let r = probe_channel now base kind vendor decrypts pool replies mem in
      (r.0.verdict ≡ judged kind true keys) × (r.2 ≡ refused kind keys)
unfolding probe_channel probe_picked
probe_channel-judged now base kind vendor decrypts pool replies mem k ks e = rw e (
    keys-Judged now (if leb_ℤ base (pos 0) then pos 60000000000 else base) kind vendor _ 0 0
      (failed 0) (map {B = ℕ × Option Reply} (λ id. (id, replies id)) (k ∷ ks))
      (pick_keys now vendor decrypts pool mem).1 (omega arith) (omega arith)
      (record {
        at_most = omega arith;
        not_ok = refl;
        last_short = λ x y. absurd (omega (arith, y));
      }))

-- ===== src/Selector.antt =====
-- `SelectCandidates` of internal/gateway/selector.go, and the answer of `relay` in
-- internal/gateway/handler.go to a selection without candidates. The rows of the two queries, the
-- random numbers and the decryption are arguments; a sum of weights is taken to stay an int.
pub mod Query
pub mod Shuffle
pub mod Keeps
pub mod Servable
pub mod Permutes
use general_api.Base.{
  ◌==◌, if◌then◌else◌, ℤ, ℕ, ◌+◌, String, Bool, false, Option, none, some, List, [], ◌∷◌, ◌++◌, map,
  str_eq,
}
use general_api.Coord.{Mem, ck, is_cooling, is_quota_cooling}
use general_api.Candidate.{Candidate}
use Shuffle.{weighted_shuffle}

pub record KeyRow : Type 0 where
  pub vendor_id : ℕ
  pub id : ℕ
  pub key_enc : String
  pub weight : ℤ

pub record CandRow : Type 0 where
  pub channel_id : ℕ
  pub name : String
  pub vendor_id : ℕ
  pub vendor_name : String
  pub base_url : String
  pub path : String
  pub upstream_model_name : Option String
  pub weight : ℤ
  pub priority : ℤ

pub record SelectStats : Type 0 where
  pub channels : ℕ
  pub keyed_vendors : ℕ
  pub cooling_keys : ℕ
  pub quota_cooling_keys : ℕ
  pub decrypt_failed : ℕ

-- What the loop over a pool has found. A usable row holds the decrypted key.
pub record Scan : Type 0 where
  pub usable : List KeyRow
  pub cooling : ℕ
  pub quota : ℕ
  pub mem : Mem

-- Decrypting fails, or gives the empty text.
pub usable_key : Option String → KeyRow → List KeyRow
usable_key none kr = []
usable_key (some key) kr = if str_eq key "" then [] else record kr { key_enc = key } ∷ []

-- One key of the pool.
pub scan_key : ℤ → (String → Option String) → ℕ → KeyRow → Scan → Scan
unfolding usable_key
scan_key now decrypt vendor kr s =
    let c = is_cooling now (ck vendor kr.id) s.mem in
    if c.0
    then (let q = is_quota_cooling now (ck vendor kr.id) c.1 in
        record s {
          cooling = s.cooling + 1;
          quota = (if q.0 then s.quota + 1 else s.quota);
          mem = q.1;
        })
    else record s { usable = s.usable ++ usable_key (decrypt kr.key_enc) kr; mem = c.1 }

pub scan : ℤ → (String → Option String) → ℕ → List KeyRow → Scan → Scan
unfolding scan_key
scan now decrypt vendor [] s = s
scan now decrypt vendor (kr ∷ pool) s =
    scan now decrypt vendor pool (scan_key now decrypt vendor kr s)

upstream_name : Option String → String
upstream_name none = ""
upstream_name (some name) = name

-- `mk`
pub make_candidate : CandRow → KeyRow → Candidate
unfolding upstream_name
make_candidate r kr = record {
  channel_id = r.channel_id;
  channel_name = r.name;
  vendor_id = r.vendor_id;
  vendor_name = r.vendor_name;
  base_url = r.base_url;
  path = r.path;
  upstream_key = kr.key_enc;
  upstream_model = upstream_name r.upstream_model_name;
  weight = kr.weight;
  priority = r.priority;
  key_id = kr.id;
}

-- What a channel adds to a selection.
pub record Expanded : Type 0 where
  pub cands : List Candidate
  pub cooling : ℕ
  pub quota : ℕ
  pub decrypt_failed : Bool
  pub mem : Mem

pub finish : (ℕ → ℕ → ℕ) → ℕ → CandRow → Scan → Expanded
unfolding make_candidate
finish intn draws r s = elim s.usable [
  | [] ↦ record {
    cands = [];
    cooling = s.cooling;
    quota = s.quota;
    decrypt_failed = s.cooling == 0;
    mem = s.mem;
  }
  | k ∷ ks ↦ record {
    cands = map (make_candidate r) (weighted_shuffle (λ kr. kr.weight) intn draws (k ∷ ks));
    cooling = s.cooling;
    quota = s.quota;
    decrypt_failed = false;
    mem = s.mem;
  }
]

-- `channelCandidates`
unfoldable pub channel_candidates :
    ℤ → (String → Option String) → (ℕ → ℕ → ℕ) → ℕ → CandRow → List KeyRow → Mem → Expanded
unfolding scan finish
channel_candidates now decrypt intn draws r [] mem = record {
  cands = [];
  cooling = 0;
  quota = 0;
  decrypt_failed = false;
  mem = mem;
}
channel_candidates now decrypt intn draws r (kr ∷ pool) mem = finish intn draws r (
    scan now decrypt r.vendor_id (kr ∷ pool)
      (record { usable = []; cooling = 0; quota = 0; mem = mem }))

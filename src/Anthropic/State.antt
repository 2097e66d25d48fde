-- ===== src/Anthropic/State.antt =====
-- The state of a translator while its events are read.
use general_api.Base.{
  if_intro, ℕ, ◌+◌, ◌≤◌, ◌<◌, String, ◌≡◌, Bool, true, false, Option, none, some, arith,
}
use general_api.Anthropic.{
  text_kind, is_text_kind, open_text, open_tool, Kind, no_kind, tool_kind, Translator, ensure_start,
  close_at, close_block,
}
use general_api.Anthropic.Grammar.{
  Phase, unstarted, between, in_block, closing, ended, broken, accept, accepts, Track,
}

abbrev pub is_some : Option ℕ → Bool
is_some none = false
is_some (some i) = true

-- The state of a translator whose events have led to a phase.
abbrev pub Shows : Phase → Translator → Type 0
Shows unstarted t =
    (t.started ≡ false) × (t.open_idx ≡ none) × (t.open_kind ≡ no_kind) × (t.next_idx ≡ 0)
Shows (between n) t =
    (t.started ≡ true) × (t.open_idx ≡ none) × (t.open_kind ≡ no_kind) × (t.next_idx ≡ n)
Shows (in_block n k) t =
    (t.started ≡ true) × (t.open_idx ≡ some n) × (t.open_kind ≡ k) × (t.next_idx ≡ n + 1)
Shows _ t = ⊥

-- What the upstream has sent, in the translator.
pub record Follows (track : Track) (t : Translator) : Type 0 where
  pub seen_mapped : (i : ℕ) → track.seen i ≡ is_some (t.tool_map i)
  pub in_range : (i m : ℕ) → t.tool_map i ≡ some m → m < t.next_idx
  pub in_progress :
      (i : ℕ) → track.current ≡ some i → (t.open_kind ≡ tool_kind) × (t.tool_map i ≡ t.open_idx)

pub record Reads (track : Track) (t : Translator) : Type 0 where
  pub phase : Phase
  pub shown : Shows phase t
  pub accepted : accepts track.ordered t.out ≡ some phase
  pub follows : Follows track t

-- After a start, no block open.
pub record Closed (strict : Bool) (t t' : Translator) : Type 0 where
  pub count : ℕ
  pub shown : Shows (between count) t'
  pub accepted : accepts strict t'.out ≡ some (between count)
  pub same_map : t'.tool_map ≡ t.tool_map
  pub no_less : t.next_idx ≤ t'.next_idx

pub closed :
    (strict : Bool) (ph : Phase) (t : Translator)
    → Shows ph t
    → accepts strict t.out ≡ some ph
    → Closed strict t (close_block (ensure_start t))
unfolding ensure_start close_block close_at accepts accept
closed strict unstarted t s a = record {
  count = 0;
  shown = ground arith;
  accepted = ground arith;
  same_map = ground arith;
  no_less = ground arith;
}
closed strict (between n) t s a = record {
  count = n;
  shown = ground arith;
  accepted = ground arith;
  same_map = ground arith;
  no_less = ground arith;
}
closed strict (in_block n k) t s a = record {
  count = n + 1;
  shown = ground arith;
  accepted = ground arith;
  same_map = ground arith;
  no_less = ground arith;
}
closed strict closing t s a = absurd s
closed strict ended t s a = absurd s
closed strict broken t s a = absurd s

-- A block of a kind is open.
pub record Opened (strict : Bool) (k : Kind) (t t' : Translator) : Type 0 where
  pub count : ℕ
  pub shown : Shows (in_block count k) t'
  pub accepted : accepts strict t'.out ≡ some (in_block count k)
  pub same_map : t'.tool_map ≡ t.tool_map
  pub no_less : t.next_idx ≤ t'.next_idx

pub open_tool-Opened :
    (strict : Bool) (ph : Phase) (id name : String) (t : Translator)
    → Shows ph t
    → accepts strict t.out ≡ some ph
    → Opened strict tool_kind t (open_tool id name t)
unfolding open_tool accepts accept
open_tool-Opened strict ph id name t s a =
    let c = closed strict ph t s a in
    record {
      count = c.count;
      shown = ground (arith, c.shown);
      accepted = ground (arith, c.shown, c.accepted);
      same_map = c.same_map;
      no_less = omega (arith, c.no_less);
    }

pub started :
    (strict : Bool) (ph : Phase) (t : Translator)
    → Shows ph t
    → accepts strict t.out ≡ some ph
    → (is_text_kind (ensure_start t).open_kind ≡ true)
    → Opened strict text_kind t (ensure_start t)
unfolding ensure_start
started strict unstarted t s a h = absurd (ground arith)
started strict (between n) t s a h = absurd (ground arith)
started strict (in_block n no_kind) t s a h = absurd (ground arith)
started strict (in_block n tool_kind) t s a h = absurd (ground arith)
started strict (in_block n text_kind) t s a h = record {
  count = n;
  shown = ground arith;
  accepted = ground arith;
  same_map = ground arith;
  no_less = ground arith;
}
started strict closing t s a h = absurd s
started strict ended t s a h = absurd s
started strict broken t s a h = absurd s

pub open_text-Opened :
    (strict : Bool) (ph : Phase) (t : Translator)
    → Shows ph t
    → accepts strict t.out ≡ some ph
    → Opened strict text_kind t (open_text t)
unfolding open_text accepts accept
open_text-Opened strict ph t s a =
    let c = closed strict ph t s a in
    if_intro (Opened strict text_kind t) (is_text_kind (ensure_start t).open_kind) _ _
      (λ e. started strict ph t s a e)
      (λ e. record {
        count = c.count;
        shown = ground (arith, c.shown);
        accepted = ground (arith, c.shown, c.accepted);
        same_map = c.same_map;
        no_less = omega (arith, c.no_less);
      })

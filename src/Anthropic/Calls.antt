-- ===== src/Anthropic/Calls.antt =====
-- Tool calls, and the block that their arguments are sent to.
use general_api.Base.{
  if_intro, ℕ, ◌≤◌, ◌<◌, String, ◌≡◌, refl, sym, ap, ◌∙◌, Bool, true, false, ◌&&◌, ◌||◌, not,
  Option, none, some, arith, str_eq,
}
use general_api.Anthropic.{
  handle_call, continues, find_call, emit, Event, json_delta, add_arguments, index_of, ToolCall,
  mapped, remember, by_index, start_call, open_tool, tool_kind, Translator,
}
use general_api.Anthropic.Grammar.{
  track_call, accepts-looser, is_index, seen_at, see, Phase, unstarted, between, in_block, closing,
  ended, broken, accept, accepts, Track,
}
use general_api.Anthropic.State.{open_tool-Opened, Reads, is_some, Follows, Shows}

-- A tool call has just been opened.
record Called (track : Track) (i : ℕ) (t : Translator) : Type 0 where
  count : ℕ
  index_count : i ≡ count
  shown : Shows (in_block count tool_kind) t
  accepted : accepts track.ordered t.out ≡ some (in_block count tool_kind)
  follows : Follows track t

abbrev called : Option ℕ → Track → Track
called index track = record track { current = index; seen = see index track.seen }

remember-Follows :
    (index : Option ℕ) (track : Track) (t t1 : Translator) (n : ℕ)
    → Follows track t
    → t1.tool_map ≡ t.tool_map
    → t.next_idx ≤ t1.next_idx
    → Shows (in_block n tool_kind) t1
    → Follows (called index track) (remember index t1)
unfolding remember
remember-Follows none track t t1 n f e h s = record {
  seen_mapped = λ i. f.seen_mapped i ∙ ap (λ (g : ℕ → Option ℕ). is_some (g i)) (sym e);
  in_range =
      λ i m k. let b = f.in_range i m (ap (λ (g : ℕ → Option ℕ). g i) (sym e) ∙ k) in omega arith;
  in_progress = λ i k. absurd (ground arith);
}
remember-Follows (some j) track t t1 n f e h s = record {
  seen_mapped =
      λ i. let g = f.seen_mapped i in let e' = ap (λ (g : ℕ → Option ℕ). g i) e in ground arith;
  in_range = λ i m k. let e' = ap (λ (g : ℕ → Option ℕ). g i) e in ground (arith, f.in_range i m);
  in_progress = λ i k. ground arith;
}

remember-keeps :
    (index : Option ℕ) (t : Translator)
    → let t' = remember index t in
      (t'.out ≡ t.out)
      × (t'.open_idx ≡ t.open_idx)
      × (t'.open_kind ≡ t.open_kind)
      × (t'.next_idx ≡ t.next_idx)
      × (t'.started ≡ t.started)
unfolding remember
remember-keeps none t = (refl, refl, refl, refl, refl)
remember-keeps (some i) t = (refl, refl, refl, refl, refl)

new_call :
    (track : Track) (index : Option ℕ) (id name : String) (t : Translator)
    → Reads track t
    → let t1 = remember index (open_tool id name t) in
      Called (called index track) (index_of t1.open_idx) t1
new_call track index id name t r =
    let o = open_tool-Opened track.ordered r.phase id name t r.shown r.accepted in
    let k = remember-keeps index (open_tool id name t) in
    record {
      count = o.count;
      index_count = ground (arith, o.shown, k);
      shown = ground (arith, o.shown, k);
      accepted = ground (arith, o.accepted, k);
      follows =
          remember-Follows index track t (open_tool id name t) o.count r.follows o.same_map
            o.no_less o.shown;
    }

mapped-seen :
    (index : Option ℕ) (track : Track) (t : Translator)
    → Follows track t
    → seen_at index track.seen ≡ is_some (mapped index t.tool_map)
unfolding mapped
mapped-seen none track t f = refl
mapped-seen (some i) track t f = f.seen_mapped i

by_index-Called :
    (track : Track) (index m : Option ℕ) (t : Translator)
    → Reads track t
    → m ≡ none
    → let r = by_index index m t in Called (called index track) r.0 r.1
unfolding by_index
by_index-Called track index none t r e = new_call track index "" "" t r
by_index-Called track index (some m) t r e = absurd (ground arith)

start_call-Called :
    (track : Track) (tc : ToolCall) (t : Translator)
    → Reads track t
    → (seen_at tc.index track.seen && str_eq tc.name "") ≡ false
    → let r = start_call tc t in Called (called tc.index track) r.0 r.1
unfolding start_call
start_call-Called track tc t r h =
    let e = mapped-seen tc.index track t r.follows in
    if_intro {A = ℕ × Translator} (λ o. Called (called tc.index track) o.0 o.1)
      (not (str_eq tc.id "") || not (str_eq tc.name "")) _ _
      (λ b. new_call track tc.index tc.id tc.name t r)
      (λ b. by_index-Called track tc.index (mapped tc.index t.tool_map) t r (ground (arith)))

add_arguments-Reads :
    (track : Track) (i : ℕ) (t : Translator) (args : String)
    → Called track i t
    → Reads track (add_arguments args (i, t))
unfolding add_arguments accepts accept
add_arguments-Reads track i t args c =
    if_intro (Reads track) (str_eq args "") _ _
      (λ e. record {
        phase = in_block c.count tool_kind;
        shown = c.shown;
        accepted = c.accepted;
        follows = c.follows;
      })
      (λ e. record {
        phase = in_block c.count tool_kind;
        shown = c.shown;
        accepted = ground (arith, c.accepted, c.index_count);
        follows = record {
          seen_mapped = c.follows.seen_mapped;
          in_range = c.follows.in_range;
          in_progress = c.follows.in_progress;
        };
      })

-- The arguments of a call that was opened before.
delta_accepted :
    (strict : Bool) (ph : Phase) (m : ℕ) (args : String) (t : Translator)
    → Shows ph t
    → m < t.next_idx
    → (strict ≡ true → (t.open_kind ≡ tool_kind) × (t.open_idx ≡ some m))
    → accept strict ph (json_delta m args) ≡ some ph
unfolding accept
delta_accepted true unstarted m args t s h k = absurd (omega (arith, s))
delta_accepted true (between n) m args t s h k = absurd (ground (arith, k refl))
delta_accepted true (in_block n kd) m args t s h k = ground (arith, k refl)
delta_accepted false unstarted m args t s h k = absurd (omega (arith, s))
delta_accepted false (between n) m args t s h k = ground arith
delta_accepted false (in_block n kd) m args t s h k = ground arith
delta_accepted strict closing m args t s h k = absurd s
delta_accepted strict ended m args t s h k = absurd s
delta_accepted strict broken m args t s h k = absurd s

-- What a continuation does to the track.
abbrev continued : ToolCall → Track → Track
continued tc track = record track {
  ordered = track.ordered && (str_eq tc.arguments "" || is_index tc.index track.current);
}

continued-Follows :
    (tc : ToolCall) (track : Track) (t t' : Translator)
    → Follows track t
    → t'.tool_map ≡ t.tool_map
    → t'.next_idx ≡ t.next_idx
    → t'.open_idx ≡ t.open_idx
    → t'.open_kind ≡ t.open_kind
    → Follows (continued tc track) t'
continued-Follows tc track t t' f a b c d = record {
  seen_mapped = λ i. f.seen_mapped i ∙ ap (λ (g : ℕ → Option ℕ). is_some (g i)) (sym a);
  in_range =
      λ i m k. let z = f.in_range i m (ap (λ (g : ℕ → Option ℕ). g i) (sym a) ∙ k) in omega arith;
  in_progress =
      λ i k. let z = f.in_progress i k in (d ∙ z.0, ap (λ (g : ℕ → Option ℕ). g i) a ∙ z.1 ∙ sym c);
}

open_at :
    (index current : Option ℕ) (t : Translator) (m : ℕ)
    → ((i : ℕ) → current ≡ some i → (t.open_kind ≡ tool_kind) × (t.tool_map i ≡ t.open_idx))
    → mapped index t.tool_map ≡ some m
    → is_index index current ≡ true
    → (t.open_kind ≡ tool_kind) × (t.open_idx ≡ some m)
unfolding mapped
open_at none current t m f e h = absurd (ground arith)
open_at (some i) none t m f e h = absurd (ground arith)
open_at (some i) (some j) t m f e h =
    let z = f j refl in let ij : i ≡ j = ground arith in (z.0, sym z.1 ∙ ap t.tool_map (sym ij) ∙ e)

open_call :
    (tc : ToolCall) (track : Track) (t : Translator) (m : ℕ)
    → Follows track t
    → mapped tc.index t.tool_map ≡ some m
    → is_index tc.index track.current ≡ true
    → (t.open_kind ≡ tool_kind) × (t.open_idx ≡ some m)
open_call tc track t m f e h = open_at tc.index track.current t m f.in_progress e h

mapped-lt :
    (index : Option ℕ) (track : Track) (t : Translator) (m : ℕ)
    → Follows track t
    → mapped index t.tool_map ≡ some m
    → m < t.next_idx
unfolding mapped
mapped-lt none track t m f e = absurd (ground arith)
mapped-lt (some i) track t m f e = f.in_range i m e

continued-Reads :
    (tc : ToolCall) (track : Track) (t : Translator) (m : ℕ)
    → Reads track t
    → mapped tc.index t.tool_map ≡ some m
    → Reads (continued tc track) (add_arguments tc.arguments (m, t))
unfolding add_arguments accepts
continued-Reads tc track t m r e =
    let strict = track.ordered && (str_eq tc.arguments "" || is_index tc.index track.current) in
    let a = accepts-looser track.ordered strict t.out r.phase r.accepted (λ k. ground arith) in
    if_intro (Reads (continued tc track)) (str_eq tc.arguments "") _ _
      (λ b. record {
        phase = r.phase;
        shown = r.shown;
        accepted = a;
        follows = continued-Follows tc track t t r.follows refl refl refl refl;
      })
      (λ b. record {
        phase = r.phase;
        shown = shown_emit r.phase t (json_delta m tc.arguments) r.shown;
        accepted = rw a (
            delta_accepted strict r.phase m tc.arguments t r.shown
              (mapped-lt tc.index track t m r.follows e)
              (λ k. open_call tc track t m r.follows e (ground arith)));
        follows =
            continued-Follows tc track t (emit (json_delta m tc.arguments) t) r.follows refl refl
              refl refl;
      })
  where
    shown_emit : (ph : Phase) (t : Translator) (ev : Event) → Shows ph t → Shows ph (emit ev t)
    shown_emit unstarted t ev s = s
    shown_emit (between n) t ev s = s
    shown_emit (in_block n k) t ev s = s
    shown_emit closing t ev s = s
    shown_emit ended t ev s = s
    shown_emit broken t ev s = s

-- When a call is a continuation.
continues-none :
    (o : Option ℕ) (name : String) → continues o name ≡ none → (is_some o && str_eq name "") ≡ false
unfolding continues
continues-none none name h = refl
continues-none (some m) name h = ground arith

continues-some :
    (o : Option ℕ) (name : String) (m : ℕ)
    → continues o name ≡ some m
    → (o ≡ some m) × ((is_some o && str_eq name "") ≡ true)
unfolding continues
continues-some none name m h = absurd (ground arith)
continues-some (some k) name m h = ground arith

found :
    (tc : ToolCall) (track : Track) (t : Translator) (c : Option ℕ)
    → Reads track t
    → continues (mapped tc.index t.tool_map) tc.name ≡ c
    → Reads (track_call tc track) (add_arguments tc.arguments (find_call c tc t))
unfolding find_call track_call
found tc track t none r e =
    let h = mapped-seen tc.index track t r.follows in
    let n = continues-none (mapped tc.index t.tool_map) tc.name e in
    if_intro (λ k. Reads k (add_arguments tc.arguments (start_call tc t)))
      (seen_at tc.index track.seen && str_eq tc.name "") _ _ (λ b. absurd (ground arith))
      (λ b.
        add_arguments-Reads (called tc.index track) (start_call tc t).0 (start_call tc t).1
          tc.arguments (start_call-Called track tc t r b))
found tc track t (some m) r e =
    let h = mapped-seen tc.index track t r.follows in
    let n = continues-some (mapped tc.index t.tool_map) tc.name m e in
    if_intro (λ k. Reads k (add_arguments tc.arguments (m, t)))
      (seen_at tc.index track.seen && str_eq tc.name "") _ _
      (λ b. continued-Reads tc track t m r n.0) (λ b. absurd (ground arith))

pub handle_call-Reads :
    (tc : ToolCall) (track : Track) (t : Translator)
    → Reads track t
    → Reads (track_call tc track) (handle_call tc t)
unfolding handle_call
handle_call-Reads tc track t r =
    found tc track t (continues (mapped tc.index t.tool_map) tc.name) r refl

-- ===== src/Anthropic/Messages.antt =====
-- The events of a translated stream are read as one message.
use general_api.Base.{
  if◌then◌else◌, Bool-cases, if_intro, ℕ, String, ◌≡◌, refl, sym, ap, subst, ◌∙◌, inl, inr, Bool,
  true, false, Option, some, List, [], ◌∷◌, arith, str_eq,
}
use general_api.Anthropic.{
  new_translator, other, or_usage, stop_reason, chunk_line, Choice, Chunk, Line, handle_choice,
  handle_line, anthropic_pipe, handle_call, finish, handle_choices, handle, handle_calls,
  handle_content, handle_lines, Usage, fail, swap_model, ToolCall, text_kind, Translator,
  ensure_start, close_block,
}
use general_api.Anthropic.Grammar.{
  new_track, track_lines, in_order, track_choices, track_calls, track_content, track_call, Phase,
  unstarted, between, in_block, closing, ended, broken, accept, accepts, Track,
}
use general_api.Anthropic.State.{is_some, open_text-Opened, Reads, Closed, closed, Shows}
use general_api.Anthropic.Calls.{handle_call-Reads}

handle_calls-Reads :
    (tcs : List ToolCall) (track : Track) (t : Translator)
    → Reads track t
    → Reads (track_calls tcs track) (handle_calls tcs t)
unfolding handle_calls track_calls
handle_calls-Reads [] track t r = r
handle_calls-Reads (tc ∷ tcs) track t r =
    handle_calls-Reads tcs (track_call tc track) (handle_call tc t) (handle_call-Reads tc track t r)

handle_content-Reads :
    (content : String) (track : Track) (t : Translator)
    → Reads track t
    → Reads (track_content content track) (handle_content content t)
unfolding handle_content track_content accepts accept
handle_content-Reads content track t r = elim (Bool-cases (str_eq content "")) [
  | inl e ↦ rw e r
  | inr e ↦ rw e (
      let o = open_text-Opened track.ordered r.phase t r.shown r.accepted in
      let f = r.follows in
      record {
        phase = in_block o.count text_kind;
        shown = o.shown;
        accepted = ground (arith, o.accepted, o.shown);
        follows = record {
          seen_mapped =
              λ i. f.seen_mapped i ∙ ap (λ (g : ℕ → Option ℕ). is_some (g i)) (sym o.same_map);
          in_range = λ i m k.
              let z = f.in_range i m (ap (λ (g : ℕ → Option ℕ). g i) (sym o.same_map) ∙ k) in
              omega (arith, o.no_less);
          in_progress = λ i k. absurd (ground arith);
        };
      })
]

-- A field that the events do not depend on.
other_fields :
    (track : Track) (t : Translator) (model stop : String) (usage : Option Usage)
    → Reads track t
    → Reads track (record t { model = model; stop = stop; usage = usage })
other_fields track t model stop usage r = record {
  phase = r.phase;
  shown = same r.phase r.shown;
  accepted = r.accepted;
  follows = record {
    seen_mapped = r.follows.seen_mapped;
    in_range = r.follows.in_range;
    in_progress = r.follows.in_progress;
  };
}
  where
    same :
        (ph : Phase)
        → Shows ph t
        → Shows ph (record t { model = model; stop = stop; usage = usage })
    same unstarted s = s
    same (between n) s = s
    same (in_block n k) s = s
    same closing s = s
    same ended s = s
    same broken s = s

handle_choices-Reads :
    (chs : List Choice) (track : Track) (t : Translator)
    → Reads track t
    → Reads (track_choices chs track) (handle_choices chs t)
unfolding handle_choices handle_choice track_choices
handle_choices-Reads [] track t r = r
handle_choices-Reads (ch ∷ chs) track t r =
    let t1 : Translator =
      (if str_eq ch.finish_reason ""
        then t
        else record t { stop = stop_reason ch.finish_reason }) in
    let r1 : Reads track t1 =
      if_intro (Reads track) (str_eq ch.finish_reason "") _ _ (λ e. r)
        (λ e. other_fields track t t.model (stop_reason ch.finish_reason) t.usage r) in
    handle_choices-Reads chs _ _ (
      handle_calls-Reads ch.tool_calls (track_content ch.content track)
        (handle_content ch.content t1) (handle_content-Reads ch.content track t1 r1))

swap-choices : (swap : String × String) (c : Chunk) → (swap_model swap c).choices ≡ c.choices
unfolding swap_model
swap-choices (up, ext) c = ground arith

handle-Reads :
    (swap : String × String) (c : Chunk) (track : Track) (t : Translator)
    → Reads track t
    → Reads (track_choices c.choices track) (handle (swap_model swap c) t)
unfolding handle
handle-Reads swap c track t r =
    let c' = swap_model swap c in
    subst (λ chs. Reads (track_choices chs track) (handle c' t)) (swap-choices swap c)
      (handle_choices-Reads c'.choices track _ (
        other_fields track t (if str_eq c'.model "" then t.model else c'.model) t.stop
          (or_usage c'.usage t.usage) r))

handle_lines-Reads :
    (swap : String × String) (ls : List Line) (track : Track) (t : Translator)
    → Reads track t
    → Reads (track_lines ls track) (handle_lines swap ls t)
unfolding handle_lines handle_line track_lines
handle_lines-Reads swap [] track t r = r
handle_lines-Reads swap (other ∷ ls) track t r = handle_lines-Reads swap ls track t r
handle_lines-Reads swap (chunk_line c ∷ ls) track t r =
    handle_lines-Reads swap ls (track_choices c.choices track) (handle (swap_model swap c) t)
      (handle-Reads swap c track t r)

finished :
    (strict : Bool) (t : Translator)
    → Closed strict t (close_block (ensure_start t))
    → accepts strict (finish t).out ≡ some ended
unfolding finish accepts accept
finished strict t c = ground (arith, c.accepted)

broken_off :
    (strict : Bool) (ph : Phase) (t : Translator)
    → Shows ph t
    → accepts strict t.out ≡ some ph
    → accepts strict (fail t).out ≡ some broken
unfolding fail accepts accept
broken_off strict unstarted t s a = ground arith
broken_off strict (between n) t s a = ground arith
broken_off strict (in_block n k) t s a = ground arith
broken_off strict closing t s a = absurd s
broken_off strict ended t s a = absurd s
broken_off strict broken t s a = absurd s

at_start : (model : String) → Reads new_track (new_translator model)
unfolding accepts
at_start model = record {
  phase = unstarted;
  shown = (refl, refl, refl, refl);
  accepted = refl;
  follows = record {
    seen_mapped = λ i. refl;
    in_range = λ i m k. absurd (ground arith);
    in_progress = λ i k. absurd (ground arith);
  };
}

-- Whatever chunks an upstream sends, the client reads one complete message, or one that an error
-- ends if the upstream breaks off: it starts once, its blocks have the indices 0, 1, … and are open
-- one at a time, each is closed, and a delta of text belongs to the open text block. Arguments
-- belong to a block that was opened, and to the open tool block when the stream keeps each call
-- together.
pub anthropic_pipe-accepts :
    (swap : String × String) (lines : List Line) (clean : Bool)
    → accepts (in_order lines) (anthropic_pipe swap lines clean).out
      ≡ some (if clean then ended else broken)
unfolding anthropic_pipe
anthropic_pipe-accepts swap lines clean =
    let t = handle_lines swap lines (new_translator swap.1) in
    let r = handle_lines-Reads swap lines new_track (new_translator swap.1) (at_start swap.1) in
    ending (in_order lines) clean t
      (finished (in_order lines) t (closed (in_order lines) r.phase t r.shown r.accepted))
      (broken_off (in_order lines) r.phase t r.shown r.accepted)
  where
    ending :
        (strict clean : Bool) (t : Translator)
        → accepts strict (finish t).out ≡ some ended
        → accepts strict (fail t).out ≡ some broken
        → accepts strict (if clean then finish t else fail t).out
          ≡ some (if clean then ended else broken)
    ending strict true t a b = a
    ending strict false t a b = b

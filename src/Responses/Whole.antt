-- ===== src/Responses/Whole.antt =====
-- The events of a translated stream are read as one response, whose items are those of its deltas.
use general_api.Base.{
  if◌then◌else◌, if_intro, String, ◌≡◌, refl, ap, subst, ◌∙◌, Bool, true, false, ◌&&◌, ◌||◌, not,
  List, [], ◌∷◌, arith, str_eq,
}
use general_api.Anthropic.{ToolCall, Choice, Line, other, chunk_line, swap_model, or_usage}
use general_api.Responses.{
  Json, Kind, ResponseStatus, Translator, add_arguments, close_item, completed, continues,
  ensure_start, fail, failed, final_status, finish, function_call_kind, handle, handle_calls,
  handle_choice, handle_choices, handle_content, handle_lines, handle_reasoning, incomplete,
  is_kind, new_translator, open_function_call, responses_pipe, see, start_call,
}
use general_api.Responses.Client.{unread, ended, is_final, Reads, completes, fails}
use general_api.Responses.Deltas.{lines-cut}
use general_api.Responses.Sent.{was_cut}
use general_api.Responses.State.{
  Writes, rests, writes, Shows, fresh, begun, start-Begun, close-Rests, same_kind-Writes,
  open_reasoning-Writes, open_message-Writes, open_function_call-Writes,
}
use general_api.Responses.Adding.{shown, adds_reasoning, adds_content, adds_arguments, other_fields}

module _ (json : Json) where
  handle_reasoning-Shows :
      (d : String) (t : Translator) → Shows json t → Shows json (handle_reasoning json d t)
  unfolding handle_reasoning
  handle_reasoning-Shows d t s =
      if_intro (Shows json) (str_eq d "") _ _ (λ e. s)
        (λ e. adds_reasoning json d _ (open_reasoning-Writes json t s))

  handle_content-Shows :
      (d : String) (t : Translator) → Shows json t → Shows json (handle_content json d t)
  unfolding handle_content
  handle_content-Shows d t s =
      if_intro (Shows json) (str_eq d "") _ _ (λ e. s)
        (λ e. adds_content json d _ (open_message-Writes json t s))

  -- A call that starts no item continues the open one.
  abbrev InCall : Translator → Type 0
  InCall t = Shows json t × (is_kind function_call_kind t.open_kind ≡ true)

  call_kind : {k : Kind} → k ≡ function_call_kind → is_kind function_call_kind k ≡ true
  call_kind e = ap (is_kind function_call_kind) e

  start_call-InCall :
      (tc : ToolCall) (t : Translator) → Shows json t → InCall (start_call json tc t)
  unfolding start_call continues
  start_call-InCall tc t s =
      let w = open_function_call-Writes json tc.id tc.name t s in
      let t1 = open_function_call json tc.id tc.name t in
      if_intro InCall
        (not (continues tc t)
          && (not (str_eq tc.id "")
              || not (str_eq tc.name "")
              || not (is_kind function_call_kind t.open_kind)))
        _ _
        (λ e. (
          other_fields json t1 t1.model t1.usage t1.cut (see tc.index t1.tool_seen)
              (shown json _ t1 w),
          call_kind (w.busy.has_kind ∙ w.same_kind),
        ))
        (λ e. (s, ground arith))

  add_arguments-Shows : (d : String) (t : Translator) → InCall t → Shows json (add_arguments d t)
  unfolding add_arguments
  add_arguments-Shows d t (s, k) =
      if_intro (Shows json) (str_eq d "") _ _ (λ e. s) (λ e. adds_arguments json d t (in_call s))
    where
      in_call : Shows json t → Writes json function_call_kind t
      in_call (fresh e r i) = let e = i.no_open_kind in absurd (ground (arith, k))
      in_call (begun b) = same_kind-Writes json function_call_kind t b k

  handle_calls-Shows :
      (tcs : List ToolCall) (t : Translator) → Shows json t → Shows json (handle_calls json tcs t)
  unfolding handle_calls
  handle_calls-Shows [] t s = s
  handle_calls-Shows (tc ∷ tcs) t s =
      handle_calls-Shows tcs _ (add_arguments-Shows tc.arguments _ (start_call-InCall tc t s))

  handle_choices-Shows :
      (chs : List Choice) (t : Translator) → Shows json t → Shows json (handle_choices json chs t)
  unfolding handle_choices handle_choice
  handle_choices-Shows [] t s = s
  handle_choices-Shows (ch ∷ chs) t s =
      let s1 =
        other_fields json t t.model t.usage (str_eq ch.finish_reason "length" || t.cut) t.tool_seen
          s in
      handle_choices-Shows chs _ (
        handle_calls-Shows ch.tool_calls _
          (handle_content-Shows ch.content _ (handle_reasoning-Shows ch.reasoning _ s1)))

  handle_lines-Shows :
      (swap : String × String) (ls : List Line) (t : Translator)
      → Shows json t
      → Shows json (handle_lines json swap ls t)
  unfolding handle_lines handle
  handle_lines-Shows swap [] t s = s
  handle_lines-Shows swap (other ∷ ls) t s = handle_lines-Shows swap ls t s
  handle_lines-Shows swap (chunk_line c ∷ ls) t s =
      let c' = swap_model swap c in
      handle_lines-Shows swap ls _ (
        handle_choices-Shows c'.choices _ (
          other_fields json t (if str_eq c'.model "" then t.model else c'.model)
            (or_usage c'.usage t.usage) t.cut t.tool_seen s))

  abbrev Ends : ResponseStatus → Translator → Type 0
  Ends s t = Reads json t.out t.seq (ended s) t.output

  finish-Ends :
      (t : Translator)
      → Shows json t
      → Ends (final_status (close_item json (ensure_start t)).cut completed) (finish json t)
  unfolding finish
  finish-Ends t s =
      let r = close-Rests json _ (start-Begun json t s) in completes r.read (final _) refl
    where
      final : (b : Bool) → is_final (final_status b completed) ≡ true
      final true = refl
      final false = refl

  fail-Ends : (t : Translator) → Shows json t → Ends failed (fail t)
  unfolding fail
  fail-Ends t s = go s
    where
      not_final : (b : Bool) → final_status b failed ≡ failed
      not_final true = refl
      not_final false = refl

      go : Shows json t → Ends failed (fail t)
      go (fresh e r i) = fails r refl (not_final t.cut) refl
      go (begun (rests r)) = fails r.read refl (not_final t.cut) refl
      go (begun (writes k w)) = fails w.read refl (not_final t.cut) refl

abbrev pub status_of : Bool → List Line → ResponseStatus
status_of clean lines = if clean then (if was_cut lines then incomplete else completed) else failed

-- Whatever chunks an upstream sends, the events that it is translated to are numbered from 0 on
-- and are read as one response: one item is open at a time, at the index of the number of those
-- before it, each text that ends is that of its deltas, and the last event has the items in the
-- order of their ends; it is complete, or cut exactly when a choice ended for its length, or
-- failed exactly when the upstream breaks off.
pub responses_pipe-Reads :
    (json : Json) (swap : String × String) (lines : List Line) (clean : Bool)
    → let t = responses_pipe json swap lines clean in
      Reads json t.out t.seq (ended (status_of clean lines)) t.output
unfolding responses_pipe
responses_pipe-Reads json swap lines clean =
    let t0 = new_translator swap.1 in
    let t = handle_lines json swap lines t0 in
    let s = handle_lines-Shows json swap lines t0 (begins swap.1) in
    ending clean t
      (subst (λ b. Ends json (final_status b completed) (finish json t))
        (lines-cut json swap lines t0 refl) (finish-Ends json t s))
      (fail-Ends json t s)
  where
    begins : (model : String) → Shows json (new_translator model)
    begins model =
        fresh refl unread (record { none_open = refl; no_open_kind = refl; next_index = refl })

    final : (b : Bool) → final_status b completed ≡ (if b then incomplete else completed)
    final true = refl
    final false = refl

    ending :
        (clean : Bool) (t : Translator)
        → Ends json (final_status (was_cut lines) completed) (finish json t)
        → Ends json failed (fail t)
        → Ends json (status_of clean lines) (if clean then finish json t else fail t)
    ending true t a b = subst (λ s. Ends json s (finish json t)) (final (was_cut lines)) a
    ending false t a b = b

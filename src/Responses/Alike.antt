-- ===== src/Responses/Alike.antt =====
-- A message that is streamed in one chunk and one that is not are translated alike.
use general_api.Base.{
  if◌then◌else◌, Bool-cases, if_intro, All, ℕ, ◌+◌, String, ◌≡◌, refl, sym, ap, ◌∙◌, inl, inr, Bool,
  true, false, ◌&&◌, ◌||◌, not, Option, none, some, List, [], ◌∷◌, ◌++◌, map, append_assoc,
  append-nil, arith, str_eq, eq_iff,
}
use general_api.Cost.Usage.{Usage}
use general_api.Anthropic.{ToolCall, Line, chunk_line, swap_model, or_usage}
use general_api.Responses.{
  Item, ItemId, Json, Kind, Translator, add_arguments, close_at, close_item, close_kind, continues,
  ensure_start, finish, function_call, function_call_kind, given, handle, handle_calls,
  handle_choice, handle_choices, handle_content, handle_lines, handle_reasoning, is_kind, message,
  message_kind, new_translator, no_kind, numbered, open_function_call, open_message, open_reasoning,
  reasoning, reasoning_kind, responses_pipe, see, start_call, tool_args_string,
}
use general_api.Responses.Message.{
  Message, encode_reasoning, encode_content, encode_calls, encode_output, encode_responses_response,
}
use general_api.Responses.Deltas.{responses_pipe-sent}
use general_api.Cost.Usage.{Usage}
use mathlib.Core.List.{map-append}
use text.Mathlib.TextLemmas.{nil-append}

abbrev pub items : List (ItemId × Item) → List Item
items = map (λ p. p.1)

-- The message in one chunk.
abbrev pub as_chunk : Message → Option Usage → Line
as_chunk m usage = chunk_line (record {
  model = "";
  choices =
      record {
        content = m.content;
        reasoning = m.reasoning_content;
        tool_calls = m.tool_calls;
        finish_reason = m.finish_reason;
      }
      ∷ [];
  usage = usage;
})

module _ (json : Json) where
  -- The items, if the response ended here.
  items_of : Translator → List Item
  items_of t = items (close_item json t).output

  start-items_of : (t : Translator) → items_of (ensure_start t) ≡ items_of t
  unfolding items_of ensure_start close_item close_at close_kind
  start-items_of t =
      if_intro (λ u. items (close_item json u).output ≡ items (close_item json t).output) t.started
        _ _ (λ e. refl) (λ e. at t.open_idx)
    where
      at :
          (o : Option ℕ)
          → items (close_at json o (ensure_start (record t { started = false }))).output
            ≡ items (close_at json o t).output
      at none = refl
      at (some i) = of_kind i t.open_kind
        where
          of_kind :
              (i : ℕ) (k : Kind)
              → items
                  (close_kind json i k (record (ensure_start (record t { started = false })) {
                    open_idx = none;
                    open_kind = no_kind;
                  })).output
                ≡ items
                    (close_kind json i k (record t { open_idx = none; open_kind = no_kind })).output
          of_kind i no_kind = refl
          of_kind i reasoning_kind = refl
          of_kind i message_kind = refl
          of_kind i function_call_kind = refl

  -- The item that a call with a name makes.
  abbrev item_of : ToolCall → Item
  item_of tc = function_call (given tc.id) tc.name (tool_args_string json tc.arguments)

  abbrev IsNew : ToolCall → Type 0
  IsNew tc = (str_eq tc.id "" ≡ false) × (str_eq tc.name "" ≡ false)

  abbrev opened : ToolCall → Translator → Translator
  opened tc t =
      let t1 = open_function_call json tc.id tc.name t in
      record t1 { tool_seen = see tc.index t1.tool_seen }

  starts : (tc : ToolCall) (t : Translator) → IsNew tc → start_call json tc t ≡ opened tc t
  unfolding start_call continues
  starts tc t (e, f) = ap (λ b. if b then opened tc t else t) is_new
    where
      is_new :
          (not (continues tc t)
            && (not (str_eq tc.id "")
                || not (str_eq tc.name "")
                || not (is_kind function_call_kind t.open_kind)))
          ≡ true
      is_new = ground arith

  -- What closing the item before makes of the list.
  closed_before :
      (t : Translator) (x : ItemId × Item)
      → items ((close_item json (ensure_start t)).output ++ x ∷ []) ≡ items_of t ++ x.1 ∷ []
  unfolding items_of
  closed_before t x =
      map-append (λ p. p.1) (close_item json (ensure_start t)).output (x ∷ [])
      ∙ ap (λ l. l ++ x.1 ∷ []) (start-items_of t)

  adds_call :
      (tc : ToolCall) (t : Translator)
      → IsNew tc
      → items_of (add_arguments tc.arguments (start_call json tc t)) ≡ items_of t ++ item_of tc ∷ []
  unfolding items_of add_arguments open_function_call close_item
  adds_call tc t n =
      ap (λ u. items_of (add_arguments tc.arguments u)) (starts tc t n)
      ∙ if_intro (λ u. items_of u ≡ items_of t ++ item_of tc ∷ []) (str_eq tc.arguments "") _ _
          (λ e.
            closed_before t _
            ∙ ap (λ x. items_of t ++ x ∷ []) (closed_call (sym ((eq_iff tc.arguments "").0 e))))
          (λ e.
            closed_before t _
            ∙ ap (λ x. items_of t ++ x ∷ []) (closed_call (nil-append tc.arguments)))
    where
      closed_call :
          {s : String}
          → s ≡ tc.arguments
          → function_call
              (if str_eq tc.id ""
                then numbered (close_item json (ensure_start t)).next_out
                else given tc.id)
              tc.name
              (tool_args_string json s)
            ≡ item_of tc
      closed_call e = rw (e, n.0) refl

  adds_calls :
      (tcs : List ToolCall) (t : Translator)
      → All IsNew tcs
      → items_of (handle_calls json tcs t) ≡ items_of t ++ map item_of tcs
  unfolding handle_calls
  adds_calls [] t n = sym (append-nil (items_of t))
  adds_calls (tc ∷ tcs) t n =
      adds_calls tcs _ n.1
      ∙ ap (λ l. l ++ map item_of tcs) (adds_call tc t n.0)
      ∙ append_assoc (items_of t) (item_of tc ∷ []) (map item_of tcs)

  abbrev unless_empty : String → Item → List Item
  unless_empty s x = if str_eq s "" then [] else x ∷ []

  adds_content :
      (d : String) (t : Translator)
      → is_kind message_kind (ensure_start t).open_kind ≡ false
      → items_of (handle_content json d t) ≡ items_of t ++ unless_empty d (message d)
  unfolding items_of handle_content open_message close_item
  adds_content d t e = elim (Bool-cases (str_eq d "")) [
    | inl z ↦ rw z (sym (append-nil (items_of t)))
    | inr z ↦ rw (z, e) (closed_before t _ ∙ ap (λ s. items_of t ++ message s ∷ []) (nil-append d))
  ]

  adds_reasoning :
      (d model : String) (usage : Option Usage) (cut : Bool)
      → let t = record (new_translator model) { usage = usage; cut = cut } in
        (items_of (handle_reasoning json d t) ≡ unless_empty d (reasoning d))
        × (is_kind message_kind (ensure_start (handle_reasoning json d t)).open_kind ≡ false)
  unfolding items_of handle_reasoning open_reasoning close_item ensure_start
  adds_reasoning d model usage cut = elim (Bool-cases (str_eq d "")) [
    | inl z ↦ rw z (refl, refl)
    | inr z ↦ rw z (ap (λ s. reasoning s ∷ []) (nil-append d), refl)
  ]

  finished : (t : Translator) → items (finish json t).output ≡ items_of t
  unfolding finish items_of
  finished t = start-items_of t

  encoded_calls : (i : ℕ) (tcs : List ToolCall) → items (encode_calls json i tcs) ≡ map item_of tcs
  encoded_calls i [] = refl
  encoded_calls i (tc ∷ tcs) = ap (λ l. item_of tc ∷ l) (encoded_calls (i + 1) tcs)

  encoded_one :
      (s : String) (x : ItemId × Item)
      → items (if str_eq s "" then [] else x ∷ []) ≡ unless_empty s x.1
  encoded_one s x =
      if_intro (λ l. items l ≡ unless_empty s x.1) (str_eq s "") _ _ (λ e. rw e refl)
        (λ e. rw e refl)

  encoded :
      (m : Message)
      → items (encode_output json (some m))
        ≡ unless_empty m.reasoning_content (reasoning m.reasoning_content)
          ++ (unless_empty m.content (message m.content) ++ map item_of m.tool_calls)
  encoded m =
      let r = encode_reasoning m.reasoning_content in
      let c = encode_content m.content in
      let a = encode_calls json 0 m.tool_calls in
      map-append (λ p. p.1) r (c ++ a)
      ∙ ap (λ l. l ++ items (c ++ a)) (encoded_one m.reasoning_content _)
      ∙ ap (λ l. unless_empty m.reasoning_content (reasoning m.reasoning_content) ++ l)
          (map-append (λ p. p.1) c a
            ∙ ap (λ l. l ++ items a) (encoded_one m.content _)
            ∙ ap (λ l. unless_empty m.content (message m.content) ++ l)
                (encoded_calls 0 m.tool_calls))

  streamed :
      (m : Message) (usage : Option Usage) (model : String)
      → All IsNew m.tool_calls
      → items_of (handle_lines json ("", "") (as_chunk m usage ∷ []) (new_translator model))
        ≡ unless_empty m.reasoning_content (reasoning m.reasoning_content)
          ++ (unless_empty m.content (message m.content) ++ map item_of m.tool_calls)
  unfolding handle_lines handle handle_choices handle_choice swap_model
  streamed m usage model n =
      let r =
        adds_reasoning m.reasoning_content model (or_usage usage none)
          (str_eq m.finish_reason "length" || false) in
      let t0 = record (new_translator model) {
        usage = or_usage usage none;
        cut = str_eq m.finish_reason "length" || false;
      } in
      let t1 = handle_reasoning json m.reasoning_content t0 in
      adds_calls m.tool_calls _ n
      ∙ ap (λ l. l ++ map item_of m.tool_calls)
          (adds_content m.content t1 r.1
            ∙ ap (λ l. l ++ unless_empty m.content (message m.content)) r.0)
      ∙ append_assoc (unless_empty m.reasoning_content (reasoning m.reasoning_content)) _
          (map item_of m.tool_calls)

  -- A message whose calls have ids and names is translated to the same items, with the same usage
  -- for the bill, when it is streamed in one chunk and when it is not streamed.
  pub responses_pipe-alike :
      (m : Message) (usage : Option Usage) (model fallback_model : String)
      → All IsNew m.tool_calls
      → let t = responses_pipe json ("", "") (as_chunk m usage ∷ []) true in
        let e =
          encode_responses_response json
            (record { model = model; first = some m; usage = usage })
            fallback_model in
        (items t.output ≡ items e.0.output) × (t.usage ≡ e.1)
  unfolding responses_pipe encode_responses_response
  responses_pipe-alike m usage model fallback_model n = (
    finished _ ∙ streamed m usage "" n ∙ sym (encoded m),
    (responses_pipe-sent no_kind json ("", "") (as_chunk m usage ∷ []) true).1 ∙ same_usage usage,
  )
    where
      same_usage : (u : Option Usage) → or_usage u none ≡ u
      same_usage none = refl
      same_usage (some u) = refl

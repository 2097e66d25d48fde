-- ===== src/Responses/Interleaved.antt =====
-- Two calls whose arguments come after both were announced.
use general_api.Base.{
  ◌==◌, if◌then◌else◌, ℕ, String, ◌≡◌, refl, ap, ◌∙◌, true, false, ◌&&◌, ◌||◌, not, none, some,
  List, [], ◌∷◌, arith, str_eq,
}
use general_api.Anthropic.{ToolCall, Line, chunk_line, swap_model}
use general_api.Responses.{
  CallId, Json, Translator, add_arguments, continues, delta, emit, fc, finish, function_call,
  function_call_kind, given, handle, handle_choice, handle_choices, handle_lines, index_of, is_kind,
  new_translator, numbered, open_function_call, responses_pipe, see, start_call, tool_args_string,
}
use Prim.Native.String.{◌++◌ as str_append}
use text.Mathlib.TextLemmas.{nil-append}

abbrev chunk_of : ToolCall → Line
chunk_of tc = chunk_line (record {
  model = "";
  choices = record { content = ""; reasoning = ""; tool_calls = tc ∷ []; finish_reason = "" } ∷ [];
  usage = none;
})

abbrev announced : ℕ → String → String → ToolCall
announced i id name = record { index = some i; id = id; name = name; arguments = "" }

abbrev arguments_of : ℕ → String → ToolCall
arguments_of i args = record { index = some i; id = ""; name = ""; arguments = args }

-- The calls i and j, then a part of the arguments of each.
abbrev pub interleaved : ℕ → ℕ → String → String → String → String → String → String → List Line
interleaved i j id_i id_j name_i name_j args_i args_j =
    chunk_of (announced i id_i name_i)
    ∷ chunk_of (announced j id_j name_j)
    ∷ chunk_of (arguments_of i args_i)
    ∷ chunk_of (arguments_of j args_j)
    ∷ []

abbrev pub id_or : String → ℕ → CallId
id_or id n = if str_eq id "" then numbered n else given id

abbrev started : Json → ℕ → String → String → Translator → Translator
started json i id name t =
    let t1 = open_function_call json id name t in
    record t1 { tool_seen = see (some i) t1.tool_seen }

abbrev adding : String → Translator → Translator
adding args t =
    emit (delta function_call_kind t.fc_id (index_of t.open_idx) args)
      (record t { args_buf = str_append t.args_buf args })

module _ (json : Json) where
  one_line :
      (tc : ToolCall) (ls : List Line) (t u : Translator)
      → add_arguments tc.arguments (start_call json tc t) ≡ u
      → handle_lines json ("", "") (chunk_of tc ∷ ls) t ≡ handle_lines json ("", "") ls u
  unfolding handle_lines handle handle_choices handle_choice swap_model
  one_line tc ls t u e = ap (handle_lines json ("", "") ls) e

  announces :
      (i : ℕ) (id name : String) (t : Translator)
      → str_eq name "" ≡ false
      → add_arguments "" (start_call json (announced i id name) t) ≡ started json i id name t
  unfolding start_call add_arguments continues
  announces i id name t e = ap (λ b. if b then started json i id name t else t) is_new
    where
      is_new :
          (not (continues (announced i id name) t)
            && (not (str_eq id "")
                || not (str_eq name "")
                || not (is_kind function_call_kind t.open_kind)))
          ≡ true
      is_new = ground arith

  goes_on :
      (i : ℕ) (args : String) (t : Translator)
      → t.tool_seen i ≡ true
      → t.open_kind ≡ function_call_kind
      → str_eq args "" ≡ false
      → add_arguments args (start_call json (arguments_of i args) t) ≡ adding args t
  unfolding start_call add_arguments continues
  goes_on i args t seen kind e =
      let same : start_call json (arguments_of i args) t ≡ t = rw (kind, seen) refl in
      ap (add_arguments args) same ∙ ap (λ b. if b then t else adding args t) e

module _ (json : Json) (i j : ℕ) (id_i id_j name_i name_j args_i args_j : String)
    (has_name_i : str_eq name_i "" ≡ false) (has_name_j : str_eq name_j "" ≡ false)
    (has_args_i : str_eq args_i "" ≡ false) (has_args_j : str_eq args_j "" ≡ false) where
  seen_i : (if i == j then true else if i == i then true else false) ≡ true
  seen_i = ground arith

  seen_j : (if j == j then true else if j == i then true else false) ≡ true
  seen_j = ground arith

  -- When two calls with names are announced and then get their arguments in turn, the first call
  -- ends without arguments and those of both stand in the second.
  pub interleaved-mixed :
      (responses_pipe json
        ("", "")
        (interleaved i j id_i id_j name_i name_j args_i args_j)
        true).output
      ≡ (fc 0, function_call (id_or id_i 0) name_i (tool_args_string json ""))
        ∷ (
          fc 1,
          function_call (id_or id_j 1) name_j (tool_args_string json (str_append args_i args_j)),
        )
        ∷ []
  unfolding responses_pipe finish open_function_call
  interleaved-mixed =
      let t0 = new_translator "" in
      let t1 = started json i id_i name_i t0 in
      let t2 = started json j id_j name_j t1 in
      let t3 = adding args_i t2 in
      let l3 = chunk_of (arguments_of j args_j) ∷ [] in
      let l2 = chunk_of (arguments_of i args_i) ∷ l3 in
      let l1 = chunk_of (announced j id_j name_j) ∷ l2 in
      let run =
        one_line json (announced i id_i name_i) l1 t0 t1
          (announces json i id_i name_i t0 has_name_i)
        ∙ one_line json (announced j id_j name_j) l2 t1 t2
            (announces json j id_j name_j t1 has_name_j)
        ∙ one_line json (arguments_of i args_i) l3 t2 t3
            (goes_on json i args_i t2 seen_i refl has_args_i)
        ∙ one_line json (arguments_of j args_j) [] t3 (adding args_j t3)
            (goes_on json j args_j t3 seen_j refl has_args_j) in
      ap (λ t. (finish json t).output) run
      ∙ ap
          (λ s.
            (fc 0, function_call (id_or id_i 0) name_i (tool_args_string json ""))
            ∷ (
              fc 1,
              function_call (id_or id_j 1) name_j (tool_args_string json (str_append s args_j)),
            )
            ∷ [])
          (nil-append args_i)

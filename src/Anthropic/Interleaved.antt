-- ===== src/Anthropic/Interleaved.antt =====
-- A call whose arguments go on after a text.
use general_api.Base.{
  if◌then◌else◌, Bool-cases, ℕ, String, ◌≡◌, inl, inr, Bool, true, false, ◌&&◌, not, Option, none,
  some, List, [], ◌∷◌, arith, str_eq,
}
use general_api.Anthropic.{
  text_kind, tool_kind, Usage, ToolCall, Line, chunk_line, Translator, new_translator, handle_lines,
  handle_line, handle, swap_model, handle_choices, handle_choice, handle_calls, handle_call,
  handle_content, open_text, open_tool, ensure_start, close_block, close_at, start_call, find_call,
  continues, mapped, remember, add_arguments, anthropic_pipe, finish, fail,
}
use general_api.Anthropic.Grammar.{in_block, accept, accepts}

abbrev chunk_of : String → List ToolCall → Line
chunk_of text calls = chunk_line (record {
  model = "";
  choices = record { content = text; reasoning = ""; tool_calls = calls; finish_reason = "" } ∷ [];
  usage = none;
})

-- The first part of a call, a text, and the rest of the call's arguments.
abbrev pub split_call : ℕ → String → String → String → String → List Line
split_call i id name text args =
    chunk_of "" (record { index = some i; id = id; name = name; arguments = "" } ∷ [])
    ∷ chunk_of text []
    ∷ chunk_of "" (record { index = some i; id = id; name = ""; arguments = args } ∷ [])
    ∷ []

-- After the first part, block 0 is open for the call.
record HasCall (i : ℕ) (t : Translator) : Type 0 where
  out_read : accepts true t.out ≡ some (in_block 0 tool_kind)
  begun : t.started ≡ true
  opened : (t.open_idx ≡ some 0) × (t.open_kind ≡ tool_kind) × (t.next_idx ≡ 1)
  mapped_to : t.tool_map i ≡ some 0

first_part :
    (i : ℕ) (id name model : String) (usage : Option Usage)
    → str_eq name "" ≡ false
    → HasCall i (
        handle_call
          (record { index = some i; id = id; name = name; arguments = "" })
          (record (new_translator model) { usage = usage }))
unfolding handle_call open_tool ensure_start close_block close_at start_call find_call continues
    mapped remember add_arguments accepts accept
first_part i id name model usage a = record {
  out_read = ground arith;
  begun = ground arith;
  opened = ground arith;
  mapped_to = ground arith;
}

-- After the text, block 1 is.
record HasText (i : ℕ) (t : Translator) : Type 0 where
  out_read : accepts true t.out ≡ some (in_block 1 text_kind)
  mapped_to : t.tool_map i ≡ some 0

with_text :
    (i : ℕ) (text : String) (t : Translator)
    → str_eq text "" ≡ false
    → HasCall i t
    → HasText i (handle_content text t)
unfolding handle_content open_text ensure_start close_block close_at accepts accept
with_text i text t a h = record { out_read = ground (arith, h.out_read); mapped_to = ground arith }

rest_rejected :
    (i : ℕ) (id args : String) (t : Translator)
    → str_eq args "" ≡ false
    → HasText i t
    → accepts true
        (handle_call (record { index = some i; id = id; name = ""; arguments = args }) t).out
      ≡ none
unfolding handle_call find_call continues mapped add_arguments accepts accept
rest_rejected i id args t a h = ground (arith, h.out_read)

start_none : (t : Translator) → accepts true t.out ≡ none → accepts true (ensure_start t).out ≡ none
unfolding ensure_start accepts
start_none t h = ground (arith, h)

close_none :
    (o : Option ℕ) (t : Translator)
    → accepts true t.out ≡ none
    → accepts true (close_at o t).out ≡ none
unfolding close_at accepts
close_none none t h = h
close_none (some i) t h = rw h

end_rejected :
    (clean : Bool) (t : Translator)
    → accepts true t.out ≡ none
    → accepts true (if clean then finish t else fail t).out ≡ none
unfolding finish fail close_block accepts
end_rejected true t h =
    let z = close_none (ensure_start t).open_idx (ensure_start t) (start_none t h) in rw z
end_rejected false t h = rw h

-- A chunk without a usage or a reason to finish.
of_chunk {ℓ} :
    (P : Translator → Type ℓ) (swap : String × String) (text : String) (calls : List ToolCall)
    (t : Translator)
    → ((model : String) → P (handle_calls calls (handle_content text (record t { model = model }))))
    → P (handle_line swap (chunk_of text calls) t)
unfolding handle_line handle handle_choices handle_choice swap_model
of_chunk P swap text calls t h = elim (Bool-cases (not (str_eq swap.0 "") && str_eq "" swap.0)) [
  | inl e ↦ rw e (h (if str_eq swap.1 "" then t.model else swap.1))
  | inr e ↦ rw e (h t.model)
]

-- When a text comes between the parts of a call, the arguments are sent to the call's block after
-- that was closed, which a client that reads strictly refuses.
pub split_call-rejected :
    (swap : String × String) (clean : Bool) (i : ℕ) (id name text args : String)
    → str_eq name "" ≡ false
    → str_eq text "" ≡ false
    → str_eq args "" ≡ false
    → accepts true (anthropic_pipe swap (split_call i id name text args) clean).out ≡ none
unfolding anthropic_pipe handle_lines handle_calls handle_content
split_call-rejected swap clean i id name text args a b c =
    let first : ToolCall = record { index = some i; id = id; name = name; arguments = "" } in
    let rest : ToolCall = record { index = some i; id = id; name = ""; arguments = args } in
    let t0 = new_translator swap.1 in
    let t1 = handle_line swap (chunk_of "" (first ∷ [])) t0 in
    let t2 = handle_line swap (chunk_of text []) t1 in
    let t3 = handle_line swap (chunk_of "" (rest ∷ [])) t2 in
    let h1 : HasCall i t1 =
      of_chunk (HasCall i) swap "" (first ∷ []) t0 (λ m. first_part i id name m none a) in
    let h2 : HasText i t2 = of_chunk (HasText i) swap text [] t1 (λ m.
      with_text i text (record t1 { model = m }) b
        (record {
          out_read = h1.out_read;
          begun = h1.begun;
          opened = h1.opened;
          mapped_to = h1.mapped_to;
        })) in
    end_rejected clean t3 (
      of_chunk (λ t. accepts true t.out ≡ none) swap "" (rest ∷ []) t2
        (λ m.
          rest_rejected i id args (record t2 { model = m }) c
            (record { out_read = h2.out_read; mapped_to = h2.mapped_to })))

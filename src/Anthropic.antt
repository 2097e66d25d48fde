-- ===== src/Anthropic.antt =====
-- The stream translator of internal/gateway/anthropic.go: chunks of an OpenAI stream become the
-- events of an Anthropic message. Events and chunks are data in place of JSON text. The writer is
-- gated (internal/gateway/sse.go) and reports no error, so an emitted event cannot fail.
pub mod Grammar
pub mod State
pub mod Calls
pub mod Messages
pub mod Interleaved
use general_api.Base.{
  ltb, leb, ◌==◌, if◌then◌else◌, ltb→lt, lt→ltb, leb→le, ==_iff, Bool-cases, Option-cases, if_intro,
  length, length-append, All, All-append, ℤ, pos_part, neg_part, sub_ℕ, ◌+ℤ◌, ◌-ℤ◌, ◌≤ℤ◌, ◌<ℤ◌,
  ltb_ℤ, leb_ℤ, eqb_ℤ, +ℤ_parts, -ℤ_parts, eq_of_parts, int_laws, +ℤ_comm, +ℤ_assoc, +ℤ_zero,
  InRange, in_range, bits64, signed64, wrap64, wrap64-InRange, eqb_ℤ→eq, pos, negsuc, ℕ, zero, suc,
  ◌+◌, ◌-◌, ◌*◌, ◌/◌, ◌%◌, ◌^◌, ◌≤◌, ◌<◌, min, max, String, ◌≡◌, refl, sym, ap, subst, ◌∙◌, ◌≢◌,
  ◌↔◌, ◌⊎◌, inl, inr, Bool, true, false, ◌&&◌, ◌||◌, not, Option, none, some, List, [], ◌∷◌, ◌++◌,
  map, filter, append_assoc, append-nil, arith, str_eq, eq_iff, dec_lt, dec_le, ℕ_discrete,
}
use general_api.Cost.Usage.{Usage}

pub record ToolCall : Type 0 where
  pub index : Option ℕ
  pub id : String
  pub name : String
  pub arguments : String

pub record Choice : Type 0 where
  pub content : String
  pub reasoning : String  -- read by the Responses translation alone
  pub tool_calls : List ToolCall
  pub finish_reason : String

pub record Chunk : Type 0 where
  pub model : String
  pub choices : List Choice
  pub usage : Option Usage

-- The id of a tool block: the upstream's, or `toolu_%02d` of the block's index.
pub data ToolId : Type 0 where
  given : String → ToolId
  numbered : ℕ → ToolId

pub data Block : Type 0 where
  text_block : Block
  tool_use : ToolId → String → Block

pub data Event : Type 0 where
  message_start : String → Event
  block_start : ℕ → Block → Event
  text_delta : ℕ → String → Event
  json_delta : ℕ → String → Event
  block_stop : ℕ → Event
  message_delta : String → Option Usage → Event
  message_stop error_event : Event

pub data Kind : Type 0 where
  no_kind text_kind tool_kind : Kind

-- `anthStreamTranslator`. The events go to `out`, the newest first.
pub record Translator : Type 0 where
  pub model : String
  pub started : Bool
  pub open_idx : Option ℕ  -- -1 is `none`
  pub open_kind : Kind
  pub next_idx : ℕ
  pub tool_map : ℕ → Option ℕ
  pub saw_tool : Bool
  pub usage : Option Usage
  pub stop : String
  pub out : List Event

abbrev pub new_translator : String → Translator
new_translator model = record {
  model = model;
  started = false;
  open_idx = none;
  open_kind = no_kind;
  next_idx = 0;
  tool_map = λ i. none;
  saw_tool = false;
  usage = none;
  stop = "";
  out = [];
}

abbrev pub emit : Event → Translator → Translator
emit e t = record t { out = e ∷ t.out }

pub stop_reason : String → String
stop_reason finish =
    if str_eq finish "tool_calls" || str_eq finish "function_call"
    then "tool_use"
    else if str_eq finish "length"
    then "max_tokens"
    else if str_eq finish "content_filter"
    then "refusal"
    else "end_turn"

pub ensure_start : Translator → Translator
ensure_start t = if t.started then t else emit (message_start t.model) (record t { started = true })

pub close_at : Option ℕ → Translator → Translator
close_at none t = t
close_at (some idx) t = emit (block_stop idx) (record t { open_idx = none; open_kind = no_kind })

pub close_block : Translator → Translator
unfolding close_at
close_block t = close_at t.open_idx t

abbrev pub is_text_kind : Kind → Bool
is_text_kind text_kind = true
is_text_kind _ = false

pub open_text : Translator → Translator
unfolding ensure_start close_block
open_text t =
    let t1 = ensure_start t in
    if is_text_kind t1.open_kind
    then t1
    else (let t2 = close_block t1 in
        emit (block_start t2.next_idx text_block) (record t2 {
          open_idx = some t2.next_idx;
          open_kind = text_kind;
          next_idx = t2.next_idx + 1;
        }))

-- The index of the new block is the one before `next_idx`.
pub open_tool : String → String → Translator → Translator
unfolding ensure_start close_block
open_tool id name t =
    let t2 = close_block (ensure_start t) in
    let id' = (if str_eq id "" then numbered t2.next_idx else given id) in
    emit (block_start t2.next_idx (tool_use id' name)) (record t2 {
      open_idx = some t2.next_idx;
      open_kind = tool_kind;
      next_idx = t2.next_idx + 1;
      saw_tool = true;
    })

-- A delta is only emitted while a block is open.
abbrev pub index_of : Option ℕ → ℕ
index_of none = 0
index_of (some i) = i

pub mapped : Option ℕ → (ℕ → Option ℕ) → Option ℕ
mapped none m = none
mapped (some i) m = m i

-- `t.toolMap[*tc.Index] = mapped`, where the call has an index.
pub remember : Option ℕ → Translator → Translator
remember none t = t
remember (some i) t = record t { tool_map = λ j. if j == i then t.open_idx else t.tool_map j }

abbrev is_at : ℕ → Option ℕ → Bool
is_at m none = false
is_at m (some i) = i == m

-- The block of a call that does not continue one, and the translator.
pub by_index : Option ℕ → Option ℕ → Translator → ℕ × Translator
unfolding open_tool remember
by_index index none t = let t1 = remember index (open_tool "" "" t) in (index_of t1.open_idx, t1)
by_index index (some m) t =
    if is_at m t.open_idx
    then (m, t)
    else (let t1 = remember index (open_tool "" "" t) in (index_of t1.open_idx, t1))

pub start_call : ToolCall → Translator → ℕ × Translator
unfolding open_tool remember mapped by_index
start_call tc t =
    if not (str_eq tc.id "") || not (str_eq tc.name "")
    then (let t1 = remember tc.index (open_tool tc.id tc.name t) in (index_of t1.open_idx, t1))
    else by_index tc.index (mapped tc.index t.tool_map) t

-- A call continues one whose index is mapped, unless it has a name.
pub continues : Option ℕ → String → Option ℕ
continues none name = none
continues (some m) name = if str_eq name "" then some m else none

pub find_call : Option ℕ → ToolCall → Translator → ℕ × Translator
unfolding start_call
find_call none tc t = start_call tc t
find_call (some m) tc t = (m, t)

pub add_arguments : String → ℕ × Translator → Translator
add_arguments args (idx, t) = if str_eq args "" then t else emit (json_delta idx args) t

pub handle_call : ToolCall → Translator → Translator
unfolding continues mapped find_call add_arguments
handle_call tc t =
    add_arguments tc.arguments (find_call (continues (mapped tc.index t.tool_map) tc.name) tc t)

pub handle_calls : List ToolCall → Translator → Translator
unfolding handle_call
handle_calls [] t = t
handle_calls (tc ∷ tcs) t = handle_calls tcs (handle_call tc t)

pub handle_content : String → Translator → Translator
unfolding open_text
handle_content content t =
    if str_eq content ""
    then t
    else (let t1 = open_text t in emit (text_delta (index_of t1.open_idx) content) t1)

pub handle_choice : Choice → Translator → Translator
unfolding handle_content handle_calls stop_reason
handle_choice ch t =
    let t1 =
      (if str_eq ch.finish_reason ""
        then t
        else record t { stop = stop_reason ch.finish_reason }) in
    handle_calls ch.tool_calls (handle_content ch.content t1)

pub handle_choices : List Choice → Translator → Translator
unfolding handle_choice
handle_choices [] t = t
handle_choices (ch ∷ chs) t = handle_choices chs (handle_choice ch t)

abbrev pub or_usage : Option Usage → Option Usage → Option Usage
or_usage none old = old
or_usage (some u) old = some u

unfoldable pub handle : Chunk → Translator → Translator
unfolding handle_choices
handle chunk t = handle_choices chunk.choices (record t {
  model = (if str_eq chunk.model "" then t.model else chunk.model);
  usage = or_usage chunk.usage t.usage;
})

pub final_stop : Translator → String
final_stop t = if str_eq t.stop "" then (if t.saw_tool then "tool_use" else "end_turn") else t.stop

unfoldable pub finish : Translator → Translator
unfolding ensure_start close_block final_stop
finish t =
    let t1 = close_block (ensure_start t) in
    emit message_stop (emit (message_delta (final_stop t1) t1.usage) t1)

unfoldable pub fail : Translator → Translator
fail t = emit error_event t

-- A line of the upstream, after the parsing of its payload.
pub data Line : Type 0 where
  other : Line
  chunk_line : Chunk → Line

-- modelSwap: the upstream's name of the model and the external one.
unfoldable pub swap_model : String × String → Chunk → Chunk
swap_model (up, ext) chunk =
    if not (str_eq up "") && str_eq chunk.model up then record chunk { model = ext } else chunk

pub handle_line : String × String → Line → Translator → Translator
unfolding handle swap_model
handle_line swap other t = t
handle_line swap (chunk_line chunk) t = handle (swap_model swap chunk) t

pub handle_lines : String × String → List Line → Translator → Translator
unfolding handle_line
handle_lines swap [] t = t
handle_lines swap (l ∷ ls) t = handle_lines swap ls (handle_line swap l t)

-- `anthropicPipeSSE`: `clean` if the upstream ends in EOF, and not in a read error.
unfoldable pub anthropic_pipe : String × String → List Line → Bool → Translator
unfolding handle_lines finish fail
anthropic_pipe swap lines clean =
    let t = handle_lines swap lines (new_translator swap.1) in if clean then finish t else fail t

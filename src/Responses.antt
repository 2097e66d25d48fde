-- ===== src/Responses.antt =====
-- The stream translator of internal/gateway/responses.go: chunks of an OpenAI stream become the
-- events of a response of the Responses protocol. Events and chunks are data in place of JSON text,
-- and the chunks are those of the Anthropic translation. The writer is gated
-- (internal/gateway/sse.go) and reports no error, so an emitted event cannot fail. What the JSON
-- library says of the arguments of a call is an argument.
pub mod Client
pub mod State
pub mod Whole
pub mod Sent
pub mod Passes
pub mod Adding
pub mod Deltas
pub mod Interleaved
pub mod Message
pub mod Alike
use general_api.Base.{
  ltb, leb, ◌==◌, if◌then◌else◌, ltb→lt, lt→ltb, leb→le, ==_iff, Bool-cases, Option-cases, if_intro,
  length, length-append, All, All-append, ℤ, pos_part, neg_part, sub_ℕ, ◌+ℤ◌, ◌-ℤ◌, ◌≤ℤ◌, ◌<ℤ◌,
  ltb_ℤ, leb_ℤ, eqb_ℤ, +ℤ_parts, -ℤ_parts, eq_of_parts, int_laws, +ℤ_comm, +ℤ_assoc, +ℤ_zero,
  InRange, in_range, bits64, signed64, wrap64, wrap64-InRange, eqb_ℤ→eq, pos, negsuc, ℕ, zero, suc,
  ◌+◌, ◌-◌, ◌*◌, ◌/◌, ◌%◌, ◌^◌, ◌≤◌, ◌<◌, min, max, String, ◌≡◌, refl, sym, ap, subst, ◌∙◌, ◌≢◌,
  ◌↔◌, ◌⊎◌, inl, inr, Bool, true, false, ◌&&◌, ◌||◌, not, Option, none, some, List, [], ◌∷◌, ◌++◌,
  map, filter, append_assoc, append-nil, arith, str_eq, eq_iff, dec_lt, dec_le, ℕ_discrete,
}
use general_api.Cost.Usage.{Usage}
use general_api.Anthropic.{ToolCall, Choice, Chunk, Line, other, chunk_line, swap_model, or_usage}
use Prim.Native.String.{◌++◌ as str_append}

-- The JSON library on a trimmed text: whether it is an object, and for any other value the object
-- that holds it under `_raw`.
pub record Json : Type 0 where
  pub trim : String → String
  pub is_object : String → Bool
  pub raw : String → Option String

abbrev pub or_empty : Option String → String
or_empty none = "{}"
or_empty (some s) = s

-- `toolArgsString`
unfoldable pub tool_args_string : Json → String → String
tool_args_string json args =
    let s = json.trim args in
    if str_eq s "" then "{}" else if json.is_object s then s else or_empty (json.raw s)

-- `rs_%d`, `msg_%d` and `fc_%d`; before the first item a translator has no id.
pub data ItemId : Type 0 where
  no_id : ItemId
  rs msg fc : ℕ → ItemId

-- The upstream's id of a call, or `call_%d`.
pub data CallId : Type 0 where
  given : String → CallId
  numbered : ℕ → CallId

pub data Kind : Type 0 where
  no_kind reasoning_kind message_kind function_call_kind : Kind

-- An item with its text or, for a call, its arguments.
pub data Item : Type 0 where
  reasoning : String → Item
  message : String → Item
  function_call : CallId → String → String → Item

pub data ResponseStatus : Type 0 where
  in_progress completed incomplete failed : ResponseStatus

-- `skeleton`
pub record Response : Type 0 where
  pub status : ResponseStatus
  pub model : String
  pub output : List (ItemId × Item)
  pub usage : Option Usage

-- The events of a text differ by its kind: reasoning_text, output_text and function_call_arguments.
pub data Body : Type 0 where
  response_created : Response → Body
  output_item_added : ℕ → ItemId → Item → Body
  content_part_added : ItemId → ℕ → Body
  delta : Kind → ItemId → ℕ → String → Body
  text_done : Kind → ItemId → ℕ → String → Body
  content_part_done : ItemId → ℕ → String → Body
  output_item_done : ℕ → ItemId → Item → Body
  response_completed : Response → Body
  response_failed : Response → Body

pub record Event : Type 0 where
  pub sequence_number : ℕ
  pub body : Body

-- `respStreamTranslator`. The events go to `out`, the newest first; `cut` is the status
-- `incomplete`.
pub record Translator : Type 0 where
  pub model : String
  pub seq : ℕ
  pub started : Bool
  pub open_idx : Option ℕ  -- -1 is `none`
  pub open_kind : Kind
  pub next_out : ℕ
  pub tool_seen : ℕ → Bool
  pub msg_id : ItemId
  pub fc_id : ItemId
  pub call_id : CallId
  pub fc_name : String
  pub text_buf : String
  pub rs_buf : String
  pub args_buf : String
  pub output : List (ItemId × Item)
  pub usage : Option Usage
  pub cut : Bool
  pub out : List Event

abbrev pub new_translator : String → Translator
new_translator model = record {
  model = model;
  seq = 0;
  started = false;
  open_idx = none;
  open_kind = no_kind;
  next_out = 0;
  tool_seen = λ i. false;
  msg_id = no_id;
  fc_id = no_id;
  call_id = given "";
  fc_name = "";
  text_buf = "";
  rs_buf = "";
  args_buf = "";
  output = [];
  usage = none;
  cut = false;
  out = [];
}

abbrev pub emit : Body → Translator → Translator
emit b t = record t { seq = t.seq + 1; out = record { sequence_number = t.seq; body = b } ∷ t.out }

-- A response that was cut is incomplete where it would be completed.
abbrev pub final_status : Bool → ResponseStatus → ResponseStatus
final_status true completed = incomplete
final_status _ s = s

abbrev pub skeleton : ResponseStatus → Translator → Response
skeleton s t = record {
  status = final_status t.cut s;
  model = t.model;
  output = t.output;
  usage = t.usage;
}

pub ensure_start : Translator → Translator
ensure_start t =
    if t.started
    then t
    else (let t1 = record t { started = true } in
        emit (response_created (skeleton in_progress t1)) t1)

-- The last events of an item.
abbrev pub end_item : ℕ → ItemId → Item → Translator → Translator
end_item idx id item t =
    emit (output_item_done idx id item) (record t { output = t.output ++ (id, item) ∷ [] })

pub close_kind : Json → ℕ → Kind → Translator → Translator
unfolding tool_args_string
close_kind json idx reasoning_kind t =
    end_item idx t.msg_id (reasoning t.rs_buf)
      (emit (text_done reasoning_kind t.msg_id idx t.rs_buf) t)
close_kind json idx message_kind t = end_item idx t.msg_id (message t.text_buf) (
    emit (content_part_done t.msg_id idx t.text_buf)
      (emit (text_done message_kind t.msg_id idx t.text_buf) t))
close_kind json idx kind t =
    let args = tool_args_string json t.args_buf in
    end_item idx t.fc_id (function_call t.call_id t.fc_name args)
      (emit (text_done function_call_kind t.fc_id idx args) t)

pub close_at : Json → Option ℕ → Translator → Translator
unfolding close_kind
close_at json none t = t
close_at json (some idx) t =
    close_kind json idx t.open_kind (record t { open_idx = none; open_kind = no_kind })

pub close_item : Json → Translator → Translator
unfolding close_at
close_item json t = close_at json t.open_idx t

abbrev pub is_kind : Kind → Kind → Bool
is_kind reasoning_kind reasoning_kind = true
is_kind message_kind message_kind = true
is_kind function_call_kind function_call_kind = true
is_kind _ _ = false

-- The next item of a kind, which gets the next index.
abbrev pub next_item : Kind → Translator → Translator
next_item k t = record t { open_idx = some t.next_out; open_kind = k; next_out = t.next_out + 1 }

pub open_reasoning : Json → Translator → Translator
unfolding ensure_start close_item
open_reasoning json t =
    let t1 = ensure_start t in
    if is_kind reasoning_kind t1.open_kind
    then t1
    else (let t2 = close_item json t1 in
        let t3 = record (next_item reasoning_kind t2) { msg_id = rs t2.next_out; rs_buf = "" } in
        emit (output_item_added t2.next_out t3.msg_id (reasoning "")) t3)

pub open_message : Json → Translator → Translator
unfolding ensure_start close_item
open_message json t =
    let t1 = ensure_start t in
    if is_kind message_kind t1.open_kind
    then t1
    else (let t2 = close_item json t1 in
        let t3 = record (next_item message_kind t2) { msg_id = msg t2.next_out; text_buf = "" } in
        emit (content_part_added t3.msg_id t2.next_out)
          (emit (output_item_added t2.next_out t3.msg_id (message "")) t3))

pub open_function_call : Json → String → String → Translator → Translator
unfolding ensure_start close_item
open_function_call json id name t =
    let t2 = close_item json (ensure_start t) in
    let t3 = record (next_item function_call_kind t2) {
      fc_id = fc t2.next_out;
      call_id = (if str_eq id "" then numbered t2.next_out else given id);
      fc_name = name;
      args_buf = "";
    } in
    emit (output_item_added t2.next_out t3.fc_id (function_call t3.call_id name "")) t3

-- A delta is only emitted while an item is open.
abbrev pub index_of : Option ℕ → ℕ
index_of none = 0
index_of (some i) = i

abbrev seen : Option ℕ → (ℕ → Bool) → Bool
seen none m = false
seen (some i) m = m i

-- `t.toolSeen[*tc.Index] = true`, where the call has an index.
abbrev pub see : Option ℕ → (ℕ → Bool) → ℕ → Bool
see none m j = m j
see (some i) m j = if j == i then true else m j

-- A call continues an item if its index is known, it has no name, and a call is open.
pub continues : ToolCall → Translator → Bool
continues tc t =
    str_eq tc.name "" && seen tc.index t.tool_seen && is_kind function_call_kind t.open_kind

pub start_call : Json → ToolCall → Translator → Translator
unfolding open_function_call continues
start_call json tc t =
    if not (continues tc t)
      && (not (str_eq tc.id "")
          || not (str_eq tc.name "")
          || not (is_kind function_call_kind t.open_kind))
    then (let t1 = open_function_call json tc.id tc.name t in
        record t1 { tool_seen = see tc.index t1.tool_seen })
    else t

pub add_arguments : String → Translator → Translator
add_arguments args t =
    if str_eq args ""
    then t
    else emit (delta function_call_kind t.fc_id (index_of t.open_idx) args)
        (record t { args_buf = str_append t.args_buf args })

pub handle_calls : Json → List ToolCall → Translator → Translator
unfolding start_call add_arguments
handle_calls json [] t = t
handle_calls json (tc ∷ tcs) t =
    handle_calls json tcs (add_arguments tc.arguments (start_call json tc t))

pub handle_reasoning : Json → String → Translator → Translator
unfolding open_reasoning
handle_reasoning json d t =
    if str_eq d ""
    then t
    else (let t1 = open_reasoning json t in
        emit (delta reasoning_kind t1.msg_id (index_of t1.open_idx) d)
          (record t1 { rs_buf = str_append t1.rs_buf d }))

pub handle_content : Json → String → Translator → Translator
unfolding open_message
handle_content json d t =
    if str_eq d ""
    then t
    else (let t1 = open_message json t in
        emit (delta message_kind t1.msg_id (index_of t1.open_idx) d)
          (record t1 { text_buf = str_append t1.text_buf d }))

pub handle_choice : Json → Choice → Translator → Translator
unfolding handle_reasoning handle_content handle_calls
handle_choice json ch t =
    let t1 = record t { cut = str_eq ch.finish_reason "length" || t.cut } in
    handle_calls json ch.tool_calls
      (handle_content json ch.content (handle_reasoning json ch.reasoning t1))

pub handle_choices : Json → List Choice → Translator → Translator
unfolding handle_choice
handle_choices json [] t = t
handle_choices json (ch ∷ chs) t = handle_choices json chs (handle_choice json ch t)

unfoldable pub handle : Json → Chunk → Translator → Translator
unfolding handle_choices
handle json chunk t = handle_choices json chunk.choices (record t {
  model = (if str_eq chunk.model "" then t.model else chunk.model);
  usage = or_usage chunk.usage t.usage;
})

pub handle_lines : Json → String × String → List Line → Translator → Translator
unfolding handle
handle_lines json swap [] t = t
handle_lines json swap (other ∷ ls) t = handle_lines json swap ls t
handle_lines json swap (chunk_line chunk ∷ ls) t =
    handle_lines json swap ls (handle json (swap_model swap chunk) t)

unfoldable pub finish : Json → Translator → Translator
unfolding ensure_start close_item
finish json t =
    let t1 = close_item json (ensure_start t) in
    emit (response_completed (skeleton completed t1)) t1

unfoldable pub fail : Translator → Translator
fail t = emit (response_failed (skeleton failed t)) t

-- `responsesPipeSSE`: `clean` if the upstream ends in EOF, and not in a read error.
unfoldable pub responses_pipe : Json → String × String → List Line → Bool → Translator
unfolding handle_lines finish fail
responses_pipe json swap lines clean =
    let t = handle_lines json swap lines (new_translator swap.1) in
    if clean then finish json t else fail t

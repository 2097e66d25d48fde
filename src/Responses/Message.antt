-- ===== src/Responses/Message.antt =====
-- The answer that is not streamed: encodeResponsesResponse of internal/gateway/responses.go, of a
-- body that parses and whose content is a text.
use general_api.Base.{
  if◌then◌else◌, ℕ, ◌+◌, String, Option, none, some, List, [], ◌∷◌, ◌++◌, str_eq,
}
use general_api.Cost.Usage.{Usage}
use general_api.Anthropic.{ToolCall}
use general_api.Responses.{
  Json, tool_args_string, ItemId, rs, msg, fc, given, Item, reasoning, message, function_call,
  completed, incomplete, Response,
}

-- The message of the first choice.
pub record Message : Type 0 where
  pub reasoning_content : String
  pub content : String
  pub tool_calls : List ToolCall
  pub finish_reason : String

pub record OaiResponse : Type 0 where
  pub model : String
  pub first : Option Message
  pub usage : Option Usage

abbrev pub encode_reasoning : String → List (ItemId × Item)
encode_reasoning s = if str_eq s "" then [] else (rs 0, reasoning s) ∷ []

abbrev pub encode_content : String → List (ItemId × Item)
encode_content s = if str_eq s "" then [] else (msg 0, message s) ∷ []

-- The calls from the i-th on.
abbrev pub encode_calls : Json → ℕ → List ToolCall → List (ItemId × Item)
encode_calls json i [] = []
encode_calls json i (tc ∷ tcs) =
    (fc i, function_call (given tc.id) tc.name (tool_args_string json tc.arguments))
    ∷ encode_calls json (i + 1) tcs

abbrev pub encode_output : Json → Option Message → List (ItemId × Item)
encode_output json none = []
encode_output json (some m) =
    encode_reasoning m.reasoning_content
    ++ (encode_content m.content ++ encode_calls json 0 m.tool_calls)

abbrev pub finish_of : Option Message → String
finish_of none = ""
finish_of (some m) = m.finish_reason

-- With the usage for the bill.
unfoldable pub encode_responses_response : Json → OaiResponse → String → Response × Option Usage
encode_responses_response json r fallback_model = (
  record {
    status = (if str_eq (finish_of r.first) "length" then incomplete else completed);
    model = (if str_eq r.model "" then fallback_model else r.model);
    output = encode_output json r.first;
    usage = r.usage;
  },
  r.usage,
)

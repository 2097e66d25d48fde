-- ===== src/Examples/StreamRuns.antt =====
-- Streams of chunks, translated.
use general_api.Base.{
  leb, pos, String, ◌≡◌, refl, true, false, ◌||◌, none, some, List, [], ◌∷◌, ◌++◌, map, arith,
}
use general_api.Anthropic.{ToolCall, Line, other, chunk_line, anthropic_pipe}
use general_api.Cost.Usage.{Usage}
use general_api.Sse.{parsed, opaque, Client, pipe_sse}
use general_api.Sse as Sse
use general_api.Sse.Harvest.{is_nil, pipe_sse-harvests, texts, Stays}
use general_api.Anthropic.Grammar.{accepts, in_order, ended}
use general_api.Anthropic.Messages.{anthropic_pipe-accepts}
use general_api.Anthropic.Interleaved.{split_call, split_call-rejected}
use general_api.Responses.{
  Json, tool_args_string, responses_pipe, fc, given, function_call, function_call_kind, completed,
}
use general_api.Responses.Client
use general_api.Responses.Client.{Reads}
use general_api.Responses.Sent.{sent}
use general_api.Responses.Deltas.{responses_pipe-sent}
use general_api.Responses.Whole.{responses_pipe-Reads}
use general_api.Responses.Message.{Message, encode_responses_response}
use general_api.Responses.Alike.{items, as_chunk, responses_pipe-alike}
use general_api.Responses.Interleaved.{interleaved, interleaved-mixed}

abbrev weather : ToolCall
weather = record { index = some 0; id = "call_1"; name = "weather"; arguments = "{" }

abbrev rest_of_call : ToolCall
rest_of_call = record { index = some 0; id = ""; name = ""; arguments = "}" }

abbrev chunk : String → List ToolCall → String → Line
chunk text calls reason = chunk_line (record {
  model = "up";
  choices =
      record { content = text; reasoning = ""; tool_calls = calls; finish_reason = reason } ∷ [];
  usage = none;
})

-- A text, then a call in two parts.
abbrev lines : List Line
lines =
    other
    ∷ chunk "Let me see." [] ""
    ∷ chunk "" (weather ∷ []) ""
    ∷ chunk "" (rest_of_call ∷ []) "tool_calls"
    ∷ other
    ∷ []

anthropic_pipe-accepts_example :
    accepts (in_order lines) (anthropic_pipe ("up", "ext") lines true).out ≡ some ended
anthropic_pipe-accepts_example = anthropic_pipe-accepts ("up", "ext") lines true

split_call-rejected_example :
    accepts true (anthropic_pipe ("", "") (split_call 0 "call_1" "weather" "Well." "{}") true).out
    ≡ none
split_call-rejected_example =
    split_call-rejected ("", "") true 0 "call_1" "weather" "Well." "{}" refl refl refl

abbrev four : Usage
four = record {
  prompt_tokens = pos 3;
  completion_tokens = pos 4;
  prompt_cache_hit_tokens = pos 0;
  prompt_tokens_details = none;
}

abbrev hello : Sse.Line
hello = record { text = "data: hello"; blank = false; payload = parsed none false }

abbrev counted : Sse.Line
counted = record { text = "data: usage"; blank = false; payload = parsed (some four) false }

abbrev gap : Sse.Line
gap = record { text = "\n"; blank = true; payload = opaque }

-- The client leaves after one event.
abbrev leaver : Client
leaver = record { cancelled = λ i. leb 1 i; refuses = λ i. false }

leaver-Stays : Stays leaver
leaver-Stays i h = ground arith

pipe_sse-harvests_example :
    let r = pipe_sse (λ s. s) (λ e. e) leaver (hello ∷ gap ∷ counted ∷ gap ∷ []) none true in
    (r.usage ≡ some four)
    × ((dropped : List (List String)) × (r.sent ++ dropped
          ≡ map (λ e. e) (texts (λ s. s) [] (hello ∷ gap ∷ counted ∷ gap ∷ []) none))
        × (r.client_gone || is_nil dropped ≡ true))
unfolding pipe_sse
pipe_sse-harvests_example =
    pipe_sse-harvests (λ s. s) (λ e. e) leaver (hello ∷ gap ∷ counted ∷ gap ∷ []) none true
      leaver-Stays

-- Texts that are taken for objects as they are.
abbrev lenient : Json
lenient = record { trim = λ s. s; is_object = λ s. true; raw = λ s. none }

responses_pipe-Reads_example :
    let t = responses_pipe lenient ("up", "ext") lines true in
    Reads lenient t.out t.seq (Client.ended completed) t.output
responses_pipe-Reads_example = responses_pipe-Reads lenient ("up", "ext") lines true

responses_pipe-sent_example :
    let t = responses_pipe lenient ("up", "ext") lines true in
    (sent function_call_kind t.out ≡ "{}") × (t.usage ≡ none)
responses_pipe-sent_example =
    responses_pipe-sent function_call_kind lenient ("up", "ext") lines true

interleaved-mixed_example :
    (responses_pipe lenient
      ("", "")
      (interleaved 0 1 "call_1" "call_2" "a" "b" "{x}" "{y}")
      true).output
    ≡ (fc 0, function_call (given "call_1") "a" (tool_args_string lenient ""))
      ∷ (fc 1, function_call (given "call_2") "b" (tool_args_string lenient "{x}{y}"))
      ∷ []
interleaved-mixed_example =
    interleaved-mixed lenient 0 1 "call_1" "call_2" "a" "b" "{x}" "{y}" refl refl refl refl

abbrev thinking : Message
thinking = record {
  reasoning_content = "hm";
  content = "Let me see.";
  tool_calls = weather ∷ [];
  finish_reason = "tool_calls";
}

responses_pipe-alike_example :
    let t = responses_pipe lenient ("", "") (as_chunk thinking (some four) ∷ []) true in
    let e =
      encode_responses_response lenient
        (record { model = "m"; first = some thinking; usage = some four })
        "x" in
    (items t.output ≡ items e.0.output) × (t.usage ≡ e.1)
responses_pipe-alike_example =
    responses_pipe-alike lenient thinking (some four) "m" "x" ((refl, refl), tt)

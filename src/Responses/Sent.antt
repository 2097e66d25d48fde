-- ===== src/Responses/Sent.antt =====
-- What an upstream sends and what a client gets of each kind of text.
use general_api.Base.{if◌then◌else◌, String, Bool, false, ◌||◌, Option, List, [], ◌∷◌, str_eq}
use general_api.Cost.Usage.{Usage}
use general_api.Anthropic.{ToolCall, Choice, Line, other, chunk_line, or_usage}
use general_api.Responses.{
  Body, Event, Kind, delta, function_call_kind, is_kind, message_kind, reasoning_kind,
}
use Prim.Native.String.{◌++◌ as str_append}

abbrev pub follow : Kind → Body → String → String
follow k (delta k' id i d) s = if is_kind k k' then str_append s d else s
follow k body s = s

-- The deltas of a kind, one after another; the events are the newest first.
abbrev pub sent : Kind → List Event → String
sent k [] = ""
sent k (e ∷ es) = follow k e.body (sent k es)

abbrev pub piece : Kind → Kind → String → String
piece k k' d = if is_kind k k' then d else ""

abbrev pub of_calls : Kind → List ToolCall → String
of_calls k [] = ""
of_calls k (tc ∷ tcs) = str_append (piece k function_call_kind tc.arguments) (of_calls k tcs)

abbrev pub of_choices : Kind → List Choice → String
of_choices k [] = ""
of_choices k (ch ∷ chs) = str_append (piece k reasoning_kind ch.reasoning) (
    str_append (piece k message_kind ch.content)
      (str_append (of_calls k ch.tool_calls) (of_choices k chs)))

-- What the upstream sent of a kind.
abbrev pub of_lines : Kind → List Line → String
of_lines k [] = ""
of_lines k (other ∷ ls) = of_lines k ls
of_lines k (chunk_line c ∷ ls) = str_append (of_choices k c.choices) (of_lines k ls)

abbrev pub cuts : List Choice → Bool
cuts [] = false
cuts (ch ∷ chs) = str_eq ch.finish_reason "length" || cuts chs

-- A choice ended for its length.
abbrev pub was_cut : List Line → Bool
was_cut [] = false
was_cut (other ∷ ls) = was_cut ls
was_cut (chunk_line c ∷ ls) = cuts c.choices || was_cut ls

abbrev pub last_usage : List Line → Option Usage → Option Usage
last_usage [] u = u
last_usage (other ∷ ls) u = last_usage ls u
last_usage (chunk_line c ∷ ls) u = last_usage ls (or_usage c.usage u)

-- ===== src/Anthropic/Grammar.antt =====
-- The order in which an Anthropic client reads the events of a message, and the order of calls in
-- an OpenAI stream that keeps to it.
use general_api.Base.{
  ltb, ◌==◌, if◌then◌else◌, ℕ, ◌+◌, String, ◌≡◌, refl, Bool, true, false, ◌&&◌, ◌||◌, not, Option,
  none, some, List, [], ◌∷◌, arith, str_eq,
}
use general_api.Anthropic.{
  ToolCall, Choice, Line, other, chunk_line, Event, message_start, block_start, text_delta,
  json_delta, block_stop, message_delta, message_stop, error_event, Block, text_block, tool_use,
  Kind, text_kind, tool_kind,
}

-- `between n`: n blocks have been written, and none is open. `in_block n k`: block n is open.
pub data Phase : Type 0 where
  unstarted : Phase
  between : ℕ → Phase
  in_block : ℕ → Kind → Phase
  closing ended broken : Phase

abbrev pub block_kind : Block → Kind
block_kind text_block = text_kind
block_kind (tool_use id name) = tool_kind

abbrev pub same_kind : Kind → Kind → Bool
same_kind text_kind text_kind = true
same_kind tool_kind tool_kind = true
same_kind _ _ = false

-- Strictly, a delta belongs to the open block and has its kind. Else the arguments of a tool may
-- belong to any block that was opened.
unfoldable pub accept : Bool → Phase → Event → Option Phase
accept strict unstarted (message_start model) = some (between 0)
accept strict (between n) (block_start i b) =
    if i == n then some (in_block n (block_kind b)) else none
accept strict (between n) (json_delta i args) =
    if not strict && ltb i n then some (between n) else none
accept strict (between n) (message_delta stop usage) = some closing
accept strict (in_block n k) (text_delta i text) =
    if i == n && same_kind k text_kind then some (in_block n k) else none
accept strict (in_block n k) (json_delta i args) =
    if i == n && same_kind k tool_kind || not strict && ltb i (n + 1)
    then some (in_block n k)
    else none
accept strict (in_block n k) (block_stop i) = if i == n then some (between (n + 1)) else none
accept strict closing message_stop = some ended
accept strict unstarted error_event = some broken
accept strict (between n) error_event = some broken
accept strict (in_block n k) error_event = some broken
accept strict _ _ = none

abbrev pub accept_next : Bool → Option Phase → Event → Option Phase
accept_next strict none e = none
accept_next strict (some ph) e = accept strict ph e

-- The phase after a list of events, the newest first.
unfoldable pub accepts : Bool → List Event → Option Phase
accepts strict [] = some unstarted
accepts strict (e ∷ es) = accept_next strict (accepts strict es) e

-- A strict reading is also a loose one.
accept-weaken :
    (ph ph' : Phase) (e : Event) → accept true ph e ≡ some ph' → accept false ph e ≡ some ph'
unfolding accept
accept-weaken unstarted ph' e h = ground arith
accept-weaken (between n) ph' e h = ground arith
accept-weaken (in_block n k) ph' e h = ground arith
accept-weaken closing ph' e h = ground arith
accept-weaken ended ph' e h = ground arith
accept-weaken broken ph' e h = ground arith

next-weaken :
    (a b : Option Phase) (ph : Phase) (e : Event)
    → ((p : Phase) → a ≡ some p → b ≡ some p)
    → accept_next true a e ≡ some ph
    → accept_next false b e ≡ some ph
next-weaken none b ph e k h = cc
next-weaken (some p) b ph e k h = rw (k p refl) (accept-weaken p ph e h)

accepts-weaken :
    (es : List Event) (ph : Phase) → accepts true es ≡ some ph → accepts false es ≡ some ph
unfolding accepts
accepts-weaken [] ph h = h
accepts-weaken (e ∷ es) ph h =
    next-weaken (accepts true es) (accepts false es) ph e (λ p k. accepts-weaken es p k) h

pub accepts-looser :
    (a b : Bool) (es : List Event) (ph : Phase)
    → accepts a es ≡ some ph
    → (b ≡ true → a ≡ true)
    → accepts b es ≡ some ph
accepts-looser true true es ph h k = h
accepts-looser true false es ph h k = accepts-weaken es ph h
accepts-looser false true es ph h k = absurd (ground (arith, k refl))
accepts-looser false false es ph h k = h

-- What the upstream has sent so far: the call in progress, the indices seen, and whether each
-- continuation belonged to the call in progress.
pub record Track : Type 0 where
  pub current : Option ℕ
  pub seen : ℕ → Bool
  pub ordered : Bool

abbrev pub new_track : Track
new_track = record { current = none; seen = λ i. false; ordered = true }

abbrev pub seen_at : Option ℕ → (ℕ → Bool) → Bool
seen_at none seen = false
seen_at (some i) seen = seen i

abbrev pub is_index : Option ℕ → Option ℕ → Bool
is_index (some i) (some j) = i == j
is_index _ _ = false

abbrev pub see : Option ℕ → (ℕ → Bool) → ℕ → Bool
see none seen j = seen j
see (some i) seen j = if j == i then true else seen j

unfoldable pub track_call : ToolCall → Track → Track
track_call tc tr =
    if seen_at tc.index tr.seen && str_eq tc.name ""
    then record tr {
      ordered = tr.ordered && (str_eq tc.arguments "" || is_index tc.index tr.current);
    }
    else record tr { current = tc.index; seen = see tc.index tr.seen }

unfoldable pub track_calls : List ToolCall → Track → Track
track_calls [] tr = tr
track_calls (tc ∷ tcs) tr = track_calls tcs (track_call tc tr)

unfoldable pub track_content : String → Track → Track
track_content content tr = if str_eq content "" then tr else record tr { current = none }

unfoldable pub track_choices : List Choice → Track → Track
unfolding track_calls track_content
track_choices [] tr = tr
track_choices (ch ∷ chs) tr =
    track_choices chs (track_calls ch.tool_calls (track_content ch.content tr))

unfoldable pub track_lines : List Line → Track → Track
unfolding track_choices
track_lines [] tr = tr
track_lines (other ∷ ls) tr = track_lines ls tr
track_lines (chunk_line c ∷ ls) tr = track_lines ls (track_choices c.choices tr)

-- Each continuation of a call follows it with no text and no other call in between.
abbrev pub in_order : List Line → Bool
in_order lines = (track_lines lines new_track).ordered

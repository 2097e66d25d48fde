-- ===== src/Responses/Client.antt =====
-- How a client of the Responses protocol reads the events: it numbers them, lets one item be open
-- at a time, and puts the items together from the deltas alone.
use general_api.Base.{length, ℕ, ◌+◌, String, ◌≡◌, Bool, true, false, List, [], ◌∷◌, ◌++◌}
use general_api.Responses.{
  Json, tool_args_string, ItemId, rs, msg, fc, CallId, Kind, reasoning_kind, message_kind,
  function_call_kind, Item, reasoning, message, function_call, ResponseStatus, in_progress,
  completed, incomplete, failed, Response, Body, response_created, output_item_added,
  content_part_added, delta, text_done, content_part_done, output_item_done, response_completed,
  response_failed, Event,
}
use Prim.Native.String.{◌++◌ as str_append}

-- An item without its text.
pub data Shape : Type 0 where
  thought : Shape
  answer : Shape
  call : CallId → String → Shape

abbrev pub kind_of : Shape → Kind
kind_of thought = reasoning_kind
kind_of answer = message_kind
kind_of (call id name) = function_call_kind

abbrev pub id_of : Shape → ℕ → ItemId
id_of thought i = rs i
id_of answer i = msg i
id_of (call id name) i = fc i

-- An item while it is empty, and with its text.
abbrev pub empty_item : Shape → Item
empty_item thought = reasoning ""
empty_item answer = message ""
empty_item (call id name) = function_call id name ""

abbrev pub text_of : Json → Shape → String → String
text_of json (call id name) s = tool_args_string json s
text_of json shape s = s

abbrev pub whole_item : Json → Shape → String → Item
whole_item json thought s = reasoning s
whole_item json answer s = message s
whole_item json (call id name) s = function_call id name (tool_args_string json s)

-- `added`: a message whose part is to come. `written`: its text is complete. `closing`: so is its
-- part.
pub data Phase : Type 0 where
  unstarted between added : Phase
  writing : Shape → String → Phase
  written : String → Phase
  closing : Shape → String → Phase
  ended : ResponseStatus → Phase

abbrev pub opened : Shape → Phase
opened answer = added
opened shape = writing shape ""

abbrev pub after_text : Shape → String → Phase
after_text answer s = written s
after_text shape s = closing shape s

abbrev pub is_final : ResponseStatus → Bool
is_final completed = true
is_final incomplete = true
is_final _ = false

abbrev pub is_open : Phase → Bool
is_open (ended s) = false
is_open _ = true

abbrev event : ℕ → Body → Event
event n b = record { sequence_number = n; body = b }

-- `Reads json es n phase items`: the events, the newest first, have the numbers 0 to n - 1, and
-- lead a client to the phase with the items. An event is about the open item, whose index is the
-- number of those before it, and tells the text that the deltas have given; the last event has the
-- items.
pub data Reads (json : Json) : List Event → ℕ → Phase → List (ItemId × Item) → Type 0 where
  unread : Reads json [] 0 unstarted []
  created :
      {es : List Event} {n : ℕ} {items : List (ItemId × Item)} {r : Response}
      → Reads json es n unstarted items
      → r.status ≡ in_progress
      → r.output ≡ items
      → Reads json (event n (response_created r) ∷ es) (n + 1) between items
  item_added :
      {es : List Event} {n : ℕ} {items : List (ItemId × Item)} {i : ℕ} {id : ItemId} {item : Item}
      (shape : Shape)
      → Reads json es n between items
      → i ≡ length items
      → id ≡ id_of shape (length items)
      → item ≡ empty_item shape
      → Reads json (event n (output_item_added i id item) ∷ es) (n + 1) (opened shape) items
  part_added :
      {es : List Event} {n : ℕ} {items : List (ItemId × Item)} {i : ℕ} {id : ItemId}
      → Reads json es n added items
      → i ≡ length items
      → id ≡ msg (length items)
      → Reads json (event n (content_part_added id i) ∷ es) (n + 1) (writing answer "") items
  adds :
      {es : List Event} {n : ℕ} {items : List (ItemId × Item)} {i : ℕ} {id : ItemId} {k : Kind}
      (shape : Shape) (s d : String)
      → Reads json es n (writing shape s) items
      → i ≡ length items
      → id ≡ id_of shape (length items)
      → k ≡ kind_of shape
      → Reads json (event n (delta k id i d) ∷ es) (n + 1) (writing shape (str_append s d)) items
  text_ends :
      {es : List Event} {n : ℕ} {items : List (ItemId × Item)} {i : ℕ} {id : ItemId} {k : Kind}
      {text : String} (shape : Shape) (s : String)
      → Reads json es n (writing shape s) items
      → i ≡ length items
      → id ≡ id_of shape (length items)
      → k ≡ kind_of shape
      → text ≡ text_of json shape s
      → Reads json (event n (text_done k id i text) ∷ es) (n + 1) (after_text shape s) items
  part_ends :
      {es : List Event} {n : ℕ} {items : List (ItemId × Item)} {i : ℕ} {id : ItemId} {text : String}
      (s : String)
      → Reads json es n (written s) items
      → i ≡ length items
      → id ≡ msg (length items)
      → text ≡ s
      → Reads json (event n (content_part_done id i text) ∷ es) (n + 1) (closing answer s) items
  item_ends :
      {es : List Event} {n : ℕ} {items : List (ItemId × Item)} {i : ℕ} {id : ItemId} {item : Item}
      (shape : Shape) (s : String)
      → Reads json es n (closing shape s) items
      → i ≡ length items
      → id ≡ id_of shape (length items)
      → item ≡ whole_item json shape s
      → Reads json
          (event n (output_item_done i id item) ∷ es)
          (n + 1)
          between
          (items ++ (id, item) ∷ [])
  completes :
      {es : List Event} {n : ℕ} {items : List (ItemId × Item)} {r : Response}
      → Reads json es n between items
      → is_final r.status ≡ true
      → r.output ≡ items
      → Reads json (event n (response_completed r) ∷ es) (n + 1) (ended r.status) items
  fails :
      {es : List Event} {n : ℕ} {items : List (ItemId × Item)} {r : Response} {phase : Phase}
      → Reads json es n phase items
      → is_open phase ≡ true
      → r.status ≡ failed
      → r.output ≡ items
      → Reads json (event n (response_failed r) ∷ es) (n + 1) (ended failed) items

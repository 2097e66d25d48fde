-- ===== src/Sse.antt =====
-- internal/gateway/sse.go: a stream is copied to the client event by event, and read to its end for
-- its usage after the client has left. The parsing of a payload is given with its line; the
-- rewriting of an event (swapModelBytes, scrubEmptyReasoning) and of an error's payload
-- (scrub.Bytes) are arguments.
pub mod Harvest
use general_api.Base.{
  ltb, leb, ◌==◌, if◌then◌else◌, ltb→lt, lt→ltb, leb→le, ==_iff, Bool-cases, Option-cases, if_intro,
  length, length-append, All, All-append, ℤ, pos_part, neg_part, sub_ℕ, ◌+ℤ◌, ◌-ℤ◌, ◌≤ℤ◌, ◌<ℤ◌,
  ltb_ℤ, leb_ℤ, eqb_ℤ, +ℤ_parts, -ℤ_parts, eq_of_parts, int_laws, +ℤ_comm, +ℤ_assoc, +ℤ_zero,
  InRange, in_range, bits64, signed64, wrap64, wrap64-InRange, eqb_ℤ→eq, pos, negsuc, ℕ, zero, suc,
  ◌+◌, ◌-◌, ◌*◌, ◌/◌, ◌%◌, ◌^◌, ◌≤◌, ◌<◌, min, max, String, ◌≡◌, refl, sym, ap, subst, ◌∙◌, ◌≢◌,
  ◌↔◌, ◌⊎◌, inl, inr, Bool, true, false, ◌&&◌, ◌||◌, not, Option, none, some, List, [], ◌∷◌, ◌++◌,
  map, filter, append_assoc, append-nil, arith, str_eq, eq_iff, dec_lt, dec_le, ℕ_discrete,
}
use general_api.Cost.Usage.{Usage}

-- The payload of a `data:` line that parses: its usage, and whether it has an error.
pub data Payload : Type 0 where
  opaque : Payload
  parsed : Option Usage → Bool → Payload

pub record Line : Type 0 where
  pub text : String
  pub blank : Bool  -- "\n" or "\r\n"
  pub payload : Payload

-- The client at each instant: whether its context is cancelled, and whether it refuses a write.
pub record Client : Type 0 where
  pub cancelled : ℕ → Bool
  pub refuses : ℕ → Bool

-- The reader's and the writer's state. `now` counts the events that were written or dropped.
pub record Pipe : Type 0 where
  pub usage : Option Usage
  pub event : List String
  pub failed : Bool
  pub now : ℕ
  pub sent : List (List String)

abbrev pub new_pipe : Pipe
new_pipe = record { usage = none; event = []; failed = false; now = 0; sent = [] }

-- `gatedWriter.gone`
unfoldable pub gone : Client → Pipe → Bool
gone client p = p.failed || client.cancelled p.now

-- `gatedWriter.Write`. What arrives of a write that fails is left out.
pub write : Client → List String → Pipe → Pipe
unfolding gone
write client out p =
    if gone client p
    then p
    else if client.refuses p.now
    then record p { failed = true }
    else record p { sent = p.sent ++ out ∷ [] }

-- `writeEvent`
pub write_event : (List String → List String) → Client → Pipe → Pipe
unfolding write
write_event rewrite client p = elim p.event [
  | [] ↦ p
  | x ∷ xs ↦ let q = write client (rewrite (x ∷ xs)) p in record q { event = []; now = q.now + 1 }
]

-- The text that goes to the client: a line with an error is scrubbed.
pub shown : (String → String) → Line → String
shown scrub l = elim l.payload [
  | opaque ↦ l.text
  | parsed usage has_error ↦ if has_error then scrub l.text else l.text
]

pub usage_after : Option Usage → Payload → Option Usage
usage_after old opaque = old
usage_after old (parsed none has_error) = old
usage_after old (parsed (some u) has_error) = some u

-- The line as it is parsed and put behind the event.
pub read_line : (String → String) → Line → Pipe → Pipe
unfolding shown usage_after
read_line scrub l p = record p {
  usage = usage_after p.usage l.payload;
  event = p.event ++ shown scrub l ∷ [];
}

pub pipe_line : (String → String) → (List String → List String) → Client → Line → Pipe → Pipe
unfolding read_line write_event
pipe_line scrub rewrite client l p =
    let q = read_line scrub l p in if l.blank then write_event rewrite client q else q

pub pipe_lines : (String → String) → (List String → List String) → Client → List Line → Pipe → Pipe
unfolding pipe_line
pipe_lines scrub rewrite client [] p = p
pipe_lines scrub rewrite client (l ∷ ls) p =
    pipe_lines scrub rewrite client ls (pipe_line scrub rewrite client l p)

pub record Piped : Type 0 where
  pub usage : Option Usage
  pub client_gone : Bool
  pub clean : Bool
  pub sent : List (List String)

-- What the reader returns with its error: a last line without its end, or nothing.
pub read_rest : (String → String) → Option Line → Pipe → Pipe
unfolding read_line
read_rest scrub none p = p
read_rest scrub (some l) p = read_line scrub l p

-- `pipeSSE`, over the lines, the rest, and whether the stream ends in EOF.
unfoldable pub pipe_sse :
    (String → String)
    → (List String → List String)
    → Client
    → List Line
    → Option Line
    → Bool
    → Piped
unfolding pipe_lines read_rest write_event gone
pipe_sse scrub rewrite client lines rest clean =
    let p =
      write_event rewrite client
        (read_rest scrub rest (pipe_lines scrub rewrite client lines new_pipe)) in
    record { usage = p.usage; client_gone = gone client p; clean = clean; sent = p.sent }

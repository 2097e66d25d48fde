-- ===== src/Responses/Deltas.antt =====
-- What a translator passes on: every fragment of a text, the usage, and that the upstream was cut.
use general_api.Base.{
  if◌then◌else◌, if_intro, String, ◌≡◌, refl, sym, ap, ◌∙◌, Bool, true, false, ◌||◌, Option, none,
  List, [], ◌∷◌, arith, str_eq,
}
use general_api.Cost.Usage.{Usage}
use general_api.Anthropic.{Choice, Chunk, Line, other, chunk_line, swap_model, or_usage}
use general_api.Responses.{
  Json, Kind, Translator, close_item, ensure_start, fail, finish, handle, handle_choice,
  handle_choices, handle_content, handle_lines, handle_reasoning, message_kind, new_translator,
  no_kind, reasoning_kind, responses_pipe,
}
use Prim.Native.String.{◌++◌ as str_append}
use text.Mathlib.TextLemmas.{
  append-nil as str_append-nil, append_assoc as str_append_assoc, nil-append,
}
use general_api.Responses.Sent.{sent, piece, of_choices, of_lines, cuts, was_cut, last_usage}
use general_api.Responses.Passes.{
  Quiet, both, closed-Quiet, handle_reasoning-Passes, handle_content-Passes, handle_calls-Passes,
}

module _ (k : Kind) where
  record Ran (d : String) (cut : Bool) (usage : Option Usage) (t t' : Translator) : Type 0 where
    text : sent k t'.out ≡ str_append (sent k t.out) d
    has_cut : t'.cut ≡ (cut || t.cut)
    has_usage : t'.usage ≡ usage

  or_swap : (a b c : Bool) → (b || (a || c)) ≡ ((a || b) || c)
  or_swap a b c = ground arith

  handle_choices-Ran :
      (json : Json) (chs : List Choice) (t : Translator)
      → Ran (of_choices k chs) (cuts chs) t.usage t (handle_choices json chs t)
  unfolding handle_choices handle_choice
  handle_choices-Ran json [] t = record {
    text = sym (str_append-nil _);
    has_cut = refl;
    has_usage = refl;
  }
  handle_choices-Ran json (ch ∷ chs) t =
      let t1 : Translator = record t { cut = str_eq ch.finish_reason "length" || t.cut } in
      let r = handle_reasoning-Passes k json ch.reasoning t1 in
      let c = handle_content-Passes k json ch.content (handle_reasoning json ch.reasoning t1) in
      let a =
        handle_calls-Passes k json ch.tool_calls
          (handle_content json ch.content (handle_reasoning json ch.reasoning t1)) in
      let p = both k r (both k c a) in
      let rest = handle_choices-Ran json chs (handle_choice json ch t) in
      let pr = piece k reasoning_kind ch.reasoning in
      let pc = piece k message_kind ch.content in
      record {
        text =
            rest.text
            ∙ ap (λ s. str_append s (of_choices k chs)) p.text
            ∙ str_append_assoc (sent k t.out) _ (of_choices k chs)
            ∙ ap (str_append (sent k t.out)) (
                str_append_assoc pr _ (of_choices k chs)
                ∙ ap (str_append pr) (str_append_assoc pc _ (of_choices k chs)));
        has_cut =
            rest.has_cut
            ∙ ap (λ b. cuts chs || b) p.same_cut
            ∙ or_swap (str_eq ch.finish_reason "length") (cuts chs) t.cut;
        has_usage = rest.has_usage ∙ p.same_usage;
      }

  swap_keeps :
      (swap : String × String) (c : Chunk)
      → ((swap_model swap c).choices ≡ c.choices) × ((swap_model swap c).usage ≡ c.usage)
  unfolding swap_model
  swap_keeps (up, ext) c = ground arith

  handle_lines-Ran :
      (json : Json) (swap : String × String) (ls : List Line) (t : Translator)
      → Ran (of_lines k ls) (was_cut ls) (last_usage ls t.usage) t (handle_lines json swap ls t)
  unfolding handle_lines handle
  handle_lines-Ran json swap [] t = record {
    text = sym (str_append-nil _);
    has_cut = refl;
    has_usage = refl;
  }
  handle_lines-Ran json swap (other ∷ ls) t = handle_lines-Ran json swap ls t
  handle_lines-Ran json swap (chunk_line c ∷ ls) t =
      let c' = swap_model swap c in
      let t1 : Translator = record t {
        model = (if str_eq c'.model "" then t.model else c'.model);
        usage = or_usage c'.usage t.usage;
      } in
      let s = swap_keeps swap c in
      let f = handle_choices-Ran json c'.choices t1 in
      let rest = handle_lines-Ran json swap ls (handle_choices json c'.choices t1) in
      record {
        text =
            rest.text
            ∙ ap (λ s. str_append s (of_lines k ls)) f.text
            ∙ str_append_assoc (sent k t.out) _ (of_lines k ls)
            ∙ ap (λ x. str_append (sent k t.out) (str_append (of_choices k x) (of_lines k ls))) s.0;
        has_cut =
            rest.has_cut
            ∙ ap (λ b. was_cut ls || b) (f.has_cut ∙ ap (λ x. cuts x || t.cut) s.0)
            ∙ or_swap (cuts c.choices) (was_cut ls) t.cut;
        has_usage =
            rest.has_usage ∙ ap (last_usage ls) (f.has_usage ∙ ap (λ x. or_usage x t.usage) s.1);
      }

  finish-Quiet : (json : Json) (t : Translator) → Quiet k t (finish json t)
  unfolding finish
  finish-Quiet json t =
      let c = closed-Quiet k json t in
      record { text = c.text; same_cut = c.same_cut; same_usage = c.same_usage }

  fail-Quiet : (t : Translator) → Quiet k t (fail t)
  unfolding fail
  fail-Quiet t = record { text = sym (str_append-nil _); same_cut = refl; same_usage = refl }

  -- The deltas of each kind that are sent to the client are, one after another, the fragments of
  -- that kind that the upstream sent, whether it breaks off or not, and the usage that is kept for
  -- the bill is the last that it reported.
  pub responses_pipe-sent :
      (json : Json) (swap : String × String) (lines : List Line) (clean : Bool)
      → let t = responses_pipe json swap lines clean in
        (sent k t.out ≡ of_lines k lines) × (t.usage ≡ last_usage lines none)
  unfolding responses_pipe
  responses_pipe-sent json swap lines clean =
      let r = handle_lines-Ran json swap lines (new_translator swap.1) in
      let t = handle_lines json swap lines (new_translator swap.1) in
      if_intro
        (λ (u : Translator). (sent k u.out ≡ of_lines k lines) × (u.usage ≡ last_usage lines none))
        clean _ _ (λ e. after t _ r (finish-Quiet json t)) (λ e. after t _ r (fail-Quiet t))
    where
      after :
          (t u : Translator)
          → Ran (of_lines k lines) (was_cut lines) (last_usage lines none) (new_translator swap.1) t
          → Quiet k t u
          → (sent k u.out ≡ of_lines k lines) × (u.usage ≡ last_usage lines none)
      after t u r q =
          (q.text ∙ str_append-nil _ ∙ r.text ∙ nil-append _, q.same_usage ∙ r.has_usage)

pub lines-cut :
    (json : Json) (swap : String × String) (ls : List Line) (t : Translator)
    → t.cut ≡ false
    → (close_item json (ensure_start (handle_lines json swap ls t))).cut ≡ was_cut ls
lines-cut json swap ls t e =
    (closed-Quiet no_kind json (handle_lines json swap ls t)).same_cut
    ∙ (handle_lines-Ran no_kind json swap ls t).has_cut
    ∙ ap (λ b. was_cut ls || b) e
    ∙ or_false (was_cut ls)
  where
    or_false : (b : Bool) → (b || false) ≡ b
    or_false true = refl
    or_false false = refl

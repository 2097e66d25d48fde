-- ===== src/Responses/Passes.antt =====
-- What a step of the translator passes on.
use general_api.Base.{
  if◌then◌else◌, if_intro, ℕ, String, ◌≡◌, refl, sym, ap, subst, ◌∙◌, Bool, true, false, ◌&&◌, ◌||◌,
  not, Option, none, some, List, [], ◌∷◌, str_eq, eq_iff,
}
use general_api.Anthropic.{ToolCall}
use general_api.Responses.{
  Json, Kind, Translator, add_arguments, close_at, close_item, close_kind, continues, ensure_start,
  function_call_kind, handle_calls, handle_content, handle_reasoning, is_kind, message_kind,
  no_kind, open_function_call, open_message, open_reasoning, reasoning_kind, start_call,
}
use Prim.Native.String.{◌++◌ as str_append}
use text.Mathlib.TextLemmas.{
  append-nil as str_append-nil, append_assoc as str_append_assoc, nil-append,
}
use general_api.Responses.Sent.{sent, piece, of_calls}

-- A step that passes the text `d` of the kind `k` on.
pub record Passes (k : Kind) (d : String) (t t' : Translator) : Type 0 where
  pub text : sent k t'.out ≡ str_append (sent k t.out) d
  pub same_cut : t'.cut ≡ t.cut
  pub same_usage : t'.usage ≡ t.usage

module _ (k : Kind) where
  abbrev pub Quiet : Translator → Translator → Type 0
  Quiet t t' = Passes k "" t t'

  pub nothing : (t : Translator) → Quiet t t
  nothing t = record { text = sym (str_append-nil _); same_cut = refl; same_usage = refl }

  pub both :
      {t u v : Translator} {d e : String}
      → Passes k d t u
      → Passes k e u v
      → Passes k (str_append d e) t v
  both {t} {d} {e} p q = record {
    text = q.text ∙ ap (λ s. str_append s e) p.text ∙ str_append_assoc (sent k t.out) d e;
    same_cut = q.same_cut ∙ p.same_cut;
    same_usage = q.same_usage ∙ p.same_usage;
  }

  -- A quiet step before another.
  pub before : {t u v : Translator} {d : String} → Quiet t u → Passes k d u v → Passes k d t v
  before {t} {v = v} {d} p q = subst (λ x. Passes k x t v) (nil-append d) (both p q)

  start-Quiet : (t : Translator) → Quiet t (ensure_start t)
  unfolding ensure_start
  start-Quiet t =
      if_intro (Quiet t) t.started _ _ (λ e. nothing t)
        (λ e. record { text = sym (str_append-nil _); same_cut = refl; same_usage = refl })

  close_kind-Quiet :
      (json : Json) (idx : ℕ) (kind : Kind) (t : Translator) → Quiet t (close_kind json idx kind t)
  unfolding close_kind
  close_kind-Quiet json idx reasoning_kind t = record {
    text = sym (str_append-nil _);
    same_cut = refl;
    same_usage = refl;
  }
  close_kind-Quiet json idx message_kind t = record {
    text = sym (str_append-nil _);
    same_cut = refl;
    same_usage = refl;
  }
  close_kind-Quiet json idx function_call_kind t = record {
    text = sym (str_append-nil _);
    same_cut = refl;
    same_usage = refl;
  }
  close_kind-Quiet json idx no_kind t = record {
    text = sym (str_append-nil _);
    same_cut = refl;
    same_usage = refl;
  }

  close-Quiet : (json : Json) (t : Translator) → Quiet t (close_item json t)
  unfolding close_item close_at
  close-Quiet json t = go t.open_idx
    where
      go : (o : Option ℕ) → Quiet t (close_at json o t)
      go none = nothing t
      go (some i) =
          let c =
            close_kind-Quiet json i t.open_kind
              (record t { open_idx = none; open_kind = no_kind }) in
          record { text = c.text; same_cut = c.same_cut; same_usage = c.same_usage }

  -- Starting and closing what was open.
  pub closed-Quiet : (json : Json) (t : Translator) → Quiet t (close_item json (ensure_start t))
  closed-Quiet json t = before (start-Quiet t) (close-Quiet json _)

  reasoning-Quiet : (json : Json) (t : Translator) → Quiet t (open_reasoning json t)
  unfolding open_reasoning
  reasoning-Quiet json t =
      let c = closed-Quiet json t in
      if_intro (Quiet t) (is_kind reasoning_kind (ensure_start t).open_kind) _ _
        (λ e. start-Quiet t)
        (λ e. record { text = c.text; same_cut = c.same_cut; same_usage = c.same_usage })

  message-Quiet : (json : Json) (t : Translator) → Quiet t (open_message json t)
  unfolding open_message
  message-Quiet json t =
      let c = closed-Quiet json t in
      if_intro (Quiet t) (is_kind message_kind (ensure_start t).open_kind) _ _ (λ e. start-Quiet t)
        (λ e. record { text = c.text; same_cut = c.same_cut; same_usage = c.same_usage })

  start_call-Quiet : (json : Json) (tc : ToolCall) (t : Translator) → Quiet t (start_call json tc t)
  unfolding start_call open_function_call
  start_call-Quiet json tc t =
      let c = closed-Quiet json t in
      if_intro (Quiet t)
        (not (continues tc t)
          && (not (str_eq tc.id "")
              || not (str_eq tc.name "")
              || not (is_kind function_call_kind t.open_kind)))
        _ _ (λ e. record { text = c.text; same_cut = c.same_cut; same_usage = c.same_usage })
        (λ e. nothing t)

  -- A delta of a kind, after a quiet step.
  follow_piece :
      (k' : Kind) (s d : String)
      → (if is_kind k k' then str_append s d else s) ≡ str_append s (piece k k' d)
  follow_piece k' s d = go (is_kind k k')
    where
      go : (b : Bool) → (if b then str_append s d else s) ≡ str_append s (if b then d else "")
      go true = refl
      go false = sym (str_append-nil s)

  delta-Passes :
      (k' : Kind) (d : String) (t u v : Translator)
      → Quiet t u
      → sent k v.out ≡ (if is_kind k k' then str_append (sent k u.out) d else sent k u.out)
      → v.cut ≡ u.cut
      → v.usage ≡ u.usage
      → Passes k (piece k k' d) t v
  delta-Passes k' d t u v q e f g =
      before q
        (record { text = e ∙ follow_piece k' (sent k u.out) d; same_cut = f; same_usage = g })

  -- An empty fragment.
  empty-Passes :
      (k' : Kind) (d : String) (t u : Translator)
      → str_eq d "" ≡ true
      → Quiet t u
      → Passes k (piece k k' d) t u
  empty-Passes k' d t u e q = subst (λ x. Passes k x t u) (sym (none_of (is_kind k k'))) q
    where
      none_of : (b : Bool) → (if b then d else "") ≡ ""
      none_of true = (eq_iff d "").0 e
      none_of false = refl

  add_arguments-Passes :
      (d : String) (t u : Translator)
      → Quiet t u
      → Passes k (piece k function_call_kind d) t (add_arguments d u)
  unfolding add_arguments
  add_arguments-Passes d t u q =
      if_intro (λ v. Passes k (piece k function_call_kind d) t v) (str_eq d "") _ _
        (λ e. empty-Passes function_call_kind d t u e q)
        (λ e. delta-Passes function_call_kind d t u _ q refl refl refl)

  pub handle_reasoning-Passes :
      (json : Json) (d : String) (t : Translator)
      → Passes k (piece k reasoning_kind d) t (handle_reasoning json d t)
  unfolding handle_reasoning
  handle_reasoning-Passes json d t =
      if_intro (λ v. Passes k (piece k reasoning_kind d) t v) (str_eq d "") _ _
        (λ e. empty-Passes reasoning_kind d t t e (nothing t))
        (λ e. delta-Passes reasoning_kind d t _ _ (reasoning-Quiet json t) refl refl refl)

  pub handle_content-Passes :
      (json : Json) (d : String) (t : Translator)
      → Passes k (piece k message_kind d) t (handle_content json d t)
  unfolding handle_content
  handle_content-Passes json d t =
      if_intro (λ v. Passes k (piece k message_kind d) t v) (str_eq d "") _ _
        (λ e. empty-Passes message_kind d t t e (nothing t))
        (λ e. delta-Passes message_kind d t _ _ (message-Quiet json t) refl refl refl)

  pub handle_calls-Passes :
      (json : Json) (tcs : List ToolCall) (t : Translator)
      → Passes k (of_calls k tcs) t (handle_calls json tcs t)
  unfolding handle_calls
  handle_calls-Passes json [] t = nothing t
  handle_calls-Passes json (tc ∷ tcs) t =
      both (add_arguments-Passes tc.arguments t _ (start_call-Quiet json tc t))
        (handle_calls-Passes json tcs _)

-- ===== src/Responses/State.antt =====
-- The state of a translator while its events are read.
use general_api.Base.{
  if◌then◌else◌, if_intro, length, length-append, ℕ, ◌+◌, String, ◌≡◌, refl, sym, ap, subst, Bool,
  true, false, none, some, arith, str_eq,
}
use general_api.Responses.{
  Json, tool_args_string, rs, msg, fc, CallId, given, numbered, Kind, no_kind, reasoning_kind,
  message_kind, function_call_kind, reasoning, message, function_call, in_progress, Translator,
  final_status, ensure_start, close_kind, close_at, close_item, is_kind, open_reasoning,
  open_message, open_function_call,
}
use general_api.Responses.Client.{
  Shape, thought, answer, call, kind_of, Phase, unstarted, between, writing, Reads, created,
  item_added, part_added, text_ends, part_ends, item_ends,
}

-- What a translator holds of the open item.
abbrev pub Held : Shape → String → Translator → Type 0
Held thought s t = (t.rs_buf ≡ s) × (t.msg_id ≡ rs (length t.output))
Held answer s t = (t.text_buf ≡ s) × (t.msg_id ≡ msg (length t.output))
Held (call id name) s t =
    (t.args_buf ≡ s) × (t.fc_id ≡ fc (length t.output)) × (t.call_id ≡ id) × (t.fc_name ≡ name)

pub record IsIdle (t : Translator) : Type 0 where
  pub none_open : t.open_idx ≡ none
  pub no_open_kind : t.open_kind ≡ no_kind
  pub next_index : t.next_out ≡ length t.output

pub record IsBusy (shape : Shape) (s : String) (t : Translator) : Type 0 where
  pub last_open : t.open_idx ≡ some (length t.output)
  pub has_kind : t.open_kind ≡ kind_of shape
  pub next_index : t.next_out ≡ length t.output + 1
  pub held : Held shape s t

module _ (json : Json) where
  abbrev pub ReadAt : Phase → Translator → Type 0
  ReadAt ph t = Reads json t.out t.seq ph t.output

  -- An item of the kind is open.
  pub record Writes (k : Kind) (t : Translator) : Type 0 where
    pub shape : Shape
    pub text : String
    pub same_kind : kind_of shape ≡ k
    pub is_started : t.started ≡ true
    pub read : ReadAt (writing shape text) t
    pub busy : IsBusy shape text t

  pub record Rests (t : Translator) : Type 0 where
    pub is_started : t.started ≡ true
    pub read : ReadAt between t
    pub idle : IsIdle t

  pub data Begun (t : Translator) : Type 0 where
    rests : Rests t → Begun t
    writes : (k : Kind) → Writes k t → Begun t

  pub data Shows (t : Translator) : Type 0 where
    fresh : t.started ≡ false → ReadAt unstarted t → IsIdle t → Shows t
    begun : Begun t → Shows t

  pub start-Begun : (t : Translator) → Shows t → Begun (ensure_start t)
  unfolding ensure_start
  start-Begun t (fresh e r i) =
      if_intro Begun t.started _ _ (λ e'. absurd (ground arith))
        (λ e'. rests (record {
          is_started = refl;
          read = created r (final_in_progress t.cut) refl;
          idle = record {
            none_open = i.none_open;
            no_open_kind = i.no_open_kind;
            next_index = i.next_index;
          };
        }))
    where
      final_in_progress : (b : Bool) → final_status b in_progress ≡ in_progress
      final_in_progress true = refl
      final_in_progress false = refl
  start-Begun t (begun b) = if_intro Begun t.started _ _ (λ e. b) (λ e. absurd (not_started b e))
    where
      not_started : Begun t → t.started ≡ false → ⊥
      not_started (rests r) e = let e' = r.is_started in ground arith
      not_started (writes k w) e = let e' = w.is_started in ground arith

  -- The item's text is ended, and the item.
  close_kind-Rests :
      (shape : Shape) (s : String) (t : Translator)
      → t.started ≡ true
      → ReadAt (writing shape s) t
      → Held shape s t
      → t.next_out ≡ length t.output + 1
      → Rests (
          close_kind json
            (length t.output)
            (kind_of shape)
            (record t { open_idx = none; open_kind = no_kind }))
  unfolding close_kind
  close_kind-Rests thought s t e r h n = record {
    is_started = e;
    read =
        item_ends thought s (text_ends thought s r refl h.1 refl h.0) refl h.1 (ap reasoning h.0);
    idle = record {
      none_open = refl;
      no_open_kind = refl;
      next_index = rw length-append (omega arith);
    };
  }
  close_kind-Rests answer s t e r h n = record {
    is_started = e;
    read =
        item_ends answer s (part_ends s (text_ends answer s r refl h.1 refl h.0) refl h.1 h.0) refl
          h.1 (ap message h.0);
    idle = record {
      none_open = refl;
      no_open_kind = refl;
      next_index = rw length-append (omega arith);
    };
  }
  close_kind-Rests (call id name) s t e r h n =
      let a = ap (tool_args_string json) h.0 in
      record {
        is_started = e;
        read =
            item_ends (call id name) s (text_ends (call id name) s r refl h.1 refl a) refl h.1
              (same_call h.2 h.3 a);
        idle = record {
          none_open = refl;
          no_open_kind = refl;
          next_index = rw length-append (omega arith);
        };
      }
    where
      same_call :
          {a b : CallId} {x y p q : String}
          → a ≡ b
          → x ≡ y
          → p ≡ q
          → function_call a x p ≡ function_call b y q
      same_call p q r = cc

  pub close-Rests : (t : Translator) → Begun t → Rests (close_item json t)
  unfolding close_item close_at
  close-Rests t (rests r) = subst (λ o. Rests (close_at json o t)) (sym r.idle.none_open) r
  close-Rests t (writes k w) =
      let b = w.busy in
      let done = close_kind-Rests w.shape w.text t w.is_started w.read b.held b.next_index in
      let t1 : Translator = record t { open_idx = none; open_kind = no_kind } in
      subst (λ o. Rests (close_at json o t)) (sym b.last_open)
        (subst (λ k. Rests (close_kind json (length t.output) k t1)) (sym b.has_kind) done)

  -- An open item of a kind is the one that is asked for.
  pub same_kind-Writes :
      (k : Kind) (t : Translator) → Begun t → is_kind k t.open_kind ≡ true → Writes k t
  same_kind-Writes k t (rests r) e = absurd (idle_kind k t.open_kind r.idle.no_open_kind e)
    where
      idle_kind : (k o : Kind) → o ≡ no_kind → is_kind k o ≡ true → ⊥
      idle_kind k o p e = let e' = rw p at e in ground (arith, e')
  same_kind-Writes k t (writes k' w) e = record {
    shape = w.shape;
    text = w.text;
    same_kind = sym (is_kind-eq k (kind_of w.shape) (rw w.busy.has_kind at e));
    is_started = w.is_started;
    read = w.read;
    busy = w.busy;
  }
    where
      is_kind-eq : (a b : Kind) → is_kind a b ≡ true → a ≡ b
      is_kind-eq reasoning_kind reasoning_kind e = refl
      is_kind-eq message_kind message_kind e = refl
      is_kind-eq function_call_kind function_call_kind e = refl
      is_kind-eq a b e = ground arith

  pub open_reasoning-Writes :
      (t : Translator) → Shows t → Writes reasoning_kind (open_reasoning json t)
  unfolding open_reasoning
  open_reasoning-Writes t s =
      let b = start-Begun t s in
      let r = close-Rests _ b in
      if_intro (Writes reasoning_kind) (is_kind reasoning_kind (ensure_start t).open_kind) _ _
        (λ e. same_kind-Writes reasoning_kind _ b e)
        (λ e. record {
          shape = thought;
          text = "";
          same_kind = refl;
          is_started = r.is_started;
          read = item_added thought r.read r.idle.next_index (ap rs r.idle.next_index) refl;
          busy = record {
            last_open = ap some r.idle.next_index;
            has_kind = refl;
            next_index = ap (λ (n : ℕ). n + 1) r.idle.next_index;
            held = (refl, ap rs r.idle.next_index);
          };
        })

  pub open_message-Writes : (t : Translator) → Shows t → Writes message_kind (open_message json t)
  unfolding open_message
  open_message-Writes t s =
      let b = start-Begun t s in
      let r = close-Rests _ b in
      if_intro (Writes message_kind) (is_kind message_kind (ensure_start t).open_kind) _ _
        (λ e. same_kind-Writes message_kind _ b e)
        (λ e. record {
          shape = answer;
          text = "";
          same_kind = refl;
          is_started = r.is_started;
          read =
              part_added
                (item_added answer r.read r.idle.next_index (ap msg r.idle.next_index) refl)
                r.idle.next_index (ap msg r.idle.next_index);
          busy = record {
            last_open = ap some r.idle.next_index;
            has_kind = refl;
            next_index = ap (λ (n : ℕ). n + 1) r.idle.next_index;
            held = (refl, ap msg r.idle.next_index);
          };
        })

  pub open_function_call-Writes :
      (id name : String) (t : Translator)
      → Shows t
      → Writes function_call_kind (open_function_call json id name t)
  unfolding open_function_call
  open_function_call-Writes id name t s =
      let r = close-Rests _ (start-Begun t s) in
      let t2 = close_item json (ensure_start t) in
      let id' : CallId = (if str_eq id "" then numbered t2.next_out else given id) in
      record {
        shape = call id' name;
        text = "";
        same_kind = refl;
        is_started = r.is_started;
        read = item_added (call id' name) r.read r.idle.next_index (ap fc r.idle.next_index) refl;
        busy = record {
          last_open = ap some r.idle.next_index;
          has_kind = refl;
          next_index = ap (λ (n : ℕ). n + 1) r.idle.next_index;
          held = (refl, ap fc r.idle.next_index, refl, refl);
        };
      }

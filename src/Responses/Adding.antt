-- ===== src/Responses/Adding.antt =====
-- A delta of the open item.
use general_api.Base.{ℕ, String, ◌≡◌, refl, ap, Bool, Option, some, arith}
use general_api.Responses.{
  Json, Kind, Translator, Usage, delta, emit, function_call_kind, index_of, message_kind,
  reasoning_kind,
}
use general_api.Responses.Client.{Shape, thought, answer, call, kind_of, writing, adds}
use general_api.Responses.State.{
  Held, IsIdle, IsBusy, ReadAt, Writes, rests, writes, Shows, fresh, begun,
}
use Prim.Native.String.{◌++◌ as str_append}

index_at : {o : Option ℕ} {n : ℕ} → o ≡ some n → index_of o ≡ n
index_at e = ap index_of e

module _ (json : Json) where
  pub shown : (k : Kind) (t : Translator) → Writes json k t → Shows json t
  shown k t w = begun (writes k w)

  -- A delta of the open item.
  pub adds_reasoning :
      (d : String) (t : Translator)
      → Writes json reasoning_kind t
      → Shows json (
          emit
            (delta reasoning_kind t.msg_id (index_of t.open_idx) d)
            (record t { rs_buf = str_append t.rs_buf d }))
  adds_reasoning d t w = go w.shape w.text w.same_kind w.read w.busy
    where
      go :
          (shape : Shape) (s : String)
          → kind_of shape ≡ reasoning_kind
          → ReadAt json (writing shape s) t
          → IsBusy shape s t
          → Shows json (
              emit
                (delta reasoning_kind t.msg_id (index_of t.open_idx) d)
                (record t { rs_buf = str_append t.rs_buf d }))
      go thought s e r b = begun (
          writes reasoning_kind (record {
            shape = thought;
            text = str_append s d;
            same_kind = refl;
            is_started = w.is_started;
            read = adds thought s d r (index_at b.last_open) b.held.1 refl;
            busy = record {
              last_open = b.last_open;
              has_kind = b.has_kind;
              next_index = b.next_index;
              held = (ap (λ x. str_append x d) b.held.0, b.held.1);
            };
          }))
      go answer s e r b = absurd (ground (arith, e))
      go (call id name) s e r b = absurd (ground (arith, e))

  pub adds_content :
      (d : String) (t : Translator)
      → Writes json message_kind t
      → Shows json (
          emit
            (delta message_kind t.msg_id (index_of t.open_idx) d)
            (record t { text_buf = str_append t.text_buf d }))
  adds_content d t w = go w.shape w.text w.same_kind w.read w.busy
    where
      go :
          (shape : Shape) (s : String)
          → kind_of shape ≡ message_kind
          → ReadAt json (writing shape s) t
          → IsBusy shape s t
          → Shows json (
              emit
                (delta message_kind t.msg_id (index_of t.open_idx) d)
                (record t { text_buf = str_append t.text_buf d }))
      go answer s e r b = begun (
          writes message_kind (record {
            shape = answer;
            text = str_append s d;
            same_kind = refl;
            is_started = w.is_started;
            read = adds answer s d r (index_at b.last_open) b.held.1 refl;
            busy = record {
              last_open = b.last_open;
              has_kind = b.has_kind;
              next_index = b.next_index;
              held = (ap (λ x. str_append x d) b.held.0, b.held.1);
            };
          }))
      go thought s e r b = absurd (ground (arith, e))
      go (call id name) s e r b = absurd (ground (arith, e))

  pub adds_arguments :
      (d : String) (t : Translator)
      → Writes json function_call_kind t
      → Shows json (
          emit
            (delta function_call_kind t.fc_id (index_of t.open_idx) d)
            (record t { args_buf = str_append t.args_buf d }))
  adds_arguments d t w = go w.shape w.text w.same_kind w.read w.busy
    where
      go :
          (shape : Shape) (s : String)
          → kind_of shape ≡ function_call_kind
          → ReadAt json (writing shape s) t
          → IsBusy shape s t
          → Shows json (
              emit
                (delta function_call_kind t.fc_id (index_of t.open_idx) d)
                (record t { args_buf = str_append t.args_buf d }))
      go (call id name) s e r b = begun (
          writes function_call_kind (record {
            shape = call id name;
            text = str_append s d;
            same_kind = refl;
            is_started = w.is_started;
            read = adds (call id name) s d r (index_at b.last_open) b.held.1 refl;
            busy = record {
              last_open = b.last_open;
              has_kind = b.has_kind;
              next_index = b.next_index;
              held = (ap (λ x. str_append x d) b.held.0, b.held.1, b.held.2, b.held.3);
            };
          }))
      go thought s e r b = absurd (ground (arith, e))
      go answer s e r b = absurd (ground (arith, e))

  -- Fields that the events do not show.
  pub other_fields :
      (t : Translator) (model : String) (usage : Option Usage) (cut : Bool) (seen : ℕ → Bool)
      → Shows json t
      → Shows json (record t { model = model; usage = usage; cut = cut; tool_seen = seen })
  other_fields t model usage cut seen s = go s
    where
      t' : Translator
      t' = record t { model = model; usage = usage; cut = cut; tool_seen = seen }

      same_held : (shape : Shape) (s : String) → Held shape s t → Held shape s t'
      same_held thought s h = h
      same_held answer s h = h
      same_held (call id name) s h = h

      same_idle : IsIdle t → IsIdle t'
      same_idle i = record {
        none_open = i.none_open;
        no_open_kind = i.no_open_kind;
        next_index = i.next_index;
      }

      go : Shows json t → Shows json t'
      go (fresh e r i) = fresh e r (same_idle i)
      go (begun (rests r)) =
          begun
            (rests (record { is_started = r.is_started; read = r.read; idle = same_idle r.idle }))
      go (begun (writes k w)) = begun (
          writes k (record {
            shape = w.shape;
            text = w.text;
            same_kind = w.same_kind;
            is_started = w.is_started;
            read = w.read;
            busy = record {
              last_open = w.busy.last_open;
              has_kind = w.busy.has_kind;
              next_index = w.busy.next_index;
              held = same_held w.shape w.text w.busy.held;
            };
          }))

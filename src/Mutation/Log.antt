-- ===== src/Mutation/Log.antt =====
-- services/domain_mutation.py: the events that actions append, and when.
use elowyn_assist.Common.{
  ℕ, ◌+◌, ◌≤◌, ◌≡◌, refl, Option, none, some, List, [], ◌∷◌, ◌++◌, arith, sym, ◌∙◌, append-nil,
  append_assoc,
}
use elowyn_assist.Domain.Enums.{EventType}
use elowyn_assist.Db.Rows.{Source, Operation, Event, Change, Float}
use elowyn_assist.Common.Text.{Text}
use elowyn_assist.Db.Store.{State}
use elowyn_assist.Mutation.Monad.{Action, bind_rule, ◌>>=◌, settle_rule, atomic_domain_action}
use elowyn_assist.Mutation.Primitives.{
  ActionContext, operation, event_time, append_event, assistant_inference_source,
}

-- The times from which on the next event may be: all, or those past the last event.
abbrev pub next_time : Option ℕ → ℕ
next_time none = 0
next_time (some t) = t + 1

-- The times of the events ascend strictly, from the given one on.
abbrev pub Ascending : ℕ → List Event → Type 0
Ascending from [] = Unit
Ascending from (e ∷ es) = (from ≤ e.created_at) × Ascending (e.created_at + 1) es

-- The time from which on another event may follow.
abbrev pub end_time : ℕ → List Event → ℕ
end_time from [] = from
end_time from (e ∷ es) = end_time (e.created_at + 1) es

-- From one state to the other, events were only appended, at ascending times.
pub record Logs (s t : State) : Type 0 where
  pub new : List Event
  pub appended : t.db.events ≡ s.db.events ++ new
  pub ascending : Ascending (next_time s.last_event_at) new
  pub behind : end_time (next_time s.last_event_at) new ≤ next_time t.last_event_at

Ascending-weaken : (a b : ℕ) (es : List Event) → a ≤ b → Ascending b es → Ascending a es
Ascending-weaken a b [] h k = tt
Ascending-weaken a b (e ∷ es) h k = (omega (arith, h, k.0), k.1)

end_time_above : (a : ℕ) (es : List Event) → Ascending a es → a ≤ end_time a es
end_time_above a [] h = omega arith
end_time_above a (e ∷ es) h = omega (arith, h.0, end_time_above (e.created_at + 1) es h.1)

end_time_mono : (a b : ℕ) (es : List Event) → a ≤ b → end_time a es ≤ end_time b es
end_time_mono a b [] h = h
end_time_mono a b (e ∷ es) h = omega arith

Ascending-append :
    (a : ℕ) (es fs : List Event)
    → Ascending a es
    → Ascending (end_time a es) fs
    → Ascending a (es ++ fs)
Ascending-append a [] fs h k = k
Ascending-append a (e ∷ es) fs h k = (h.0, Ascending-append (e.created_at + 1) es fs h.1 k)

end_time-append : (a : ℕ) (es fs : List Event) → end_time a (es ++ fs) ≡ end_time (end_time a es) fs
end_time-append a [] fs = refl
end_time-append a (e ∷ es) fs = end_time-append (e.created_at + 1) es fs

-- Nothing is appended.
pub Logs-silent :
    (s t : State) → t.db.events ≡ s.db.events → t.last_event_at ≡ s.last_event_at → Logs s t
Logs-silent s t e l = record {
  new = [];
  appended = e ∙ sym (append-nil s.db.events);
  ascending = tt;
  behind = rw l (omega arith);
}

-- One event is appended, at the time that `_append_event` gives it.
pub Logs-one :
    (s t : State) (e : Event) (reading : ℕ)
    → t.db.events ≡ s.db.events ++ e ∷ []
    → e.created_at ≡ event_time s.last_event_at reading
    → t.last_event_at ≡ some e.created_at
    → Logs s t
unfolding event_time
Logs-one s t e reading appended at last = record {
  new = e ∷ [];
  appended = appended;
  ascending = (ground arith, tt);
  behind = ground arith;
}

pub Logs-trans : (r s t : State) → Logs r s → Logs s t → Logs r t
Logs-trans r s t g h =
    let a = next_time r.last_event_at in
    record {
      new = g.new ++ h.new;
      appended = rw (h.appended, g.appended) (append_assoc r.db.events g.new h.new);
      ascending =
          Ascending-append a g.new h.new g.ascending
            (Ascending-weaken _ _ h.new g.behind h.ascending);
      behind = omega (
        arith,
        end_time-append a g.new h.new,
        end_time_mono (end_time a g.new) (next_time s.last_event_at) h.new g.behind,
        h.behind,
      );
    }

-- An action that only appends events, at ascending times.
pub record Logging {ℓ} {A : Type ℓ} (m : Action A) : Type ℓ where
  pub logs : (s : State) → Logs s (m s).1

pub append_event-Logging :
    (op : Operation) (t : EventType) (i : Option ℕ) (source : Option Source) (changes : List Change)
    → Logging (append_event op t i source changes)
unfolding append_event
append_event-Logging op t i source changes = record {
  logs = λ s.
      Logs-one s (append_event op t i source changes s).1 _ (s.clock s.readings) refl refl refl;
}

module _ {ℓ} {A : Type ℓ} where
  pub atomic-Logging : (m : Action A) → Logging m → Logging (atomic_domain_action m)
  unfolding atomic_domain_action
  atomic-Logging m h = record {
    logs = λ s.
        let a = next_time s.last_event_at in
        let g = h.logs s in
        settle_rule (Logs s) s (m s) g (record {
          new = [];
          appended = sym (append-nil s.db.events);
          ascending = tt;
          behind = omega (arith, end_time_above a g.new g.ascending, g.behind);
        });
  }

-- A sequence appends what its actions append.
pub Logs-bind {ℓ κ} :
    {A : Type ℓ} {B : Type κ} (m : Action A) (f : A → Action B) (s : State)
    → Logs s (m s).1
    → ((a : A) (t : State) → Logs t (f a t).1)
    → Logs s ((m >>= f) s).1
Logs-bind m f s h k =
    bind_rule (λ z. Logs s z.1) m f s (λ a _. Logs-trans s (m s).1 (f a (m s).1).1 h (k a (m s).1))
      (λ _ _. h)

pub operation-Logging : (ctx : ActionContext) → Logging (operation ctx)
unfolding operation
operation-Logging ctx = record { logs = λ s. Logs-silent s (operation ctx s).1 refl refl }

pub assistant_inference_source-Logging :
    (confidence : Float) (reason : Text) (evidence : List Source)
    → Logging (assistant_inference_source confidence reason evidence)
unfolding assistant_inference_source
assistant_inference_source-Logging confidence reason evidence = record {
  logs = λ s.
      Logs-silent s (assistant_inference_source confidence reason evidence s).1 (ground arith)
        (ground arith);
}

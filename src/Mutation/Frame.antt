-- ===== src/Mutation/Frame.antt =====
-- What the primitives of services/domain_mutation.py leave alone.
use elowyn_assist.Common.{ℕ, ◌≤◌, ◌≡◌, Option, List, arith}
use elowyn_assist.Common.Text.{Text}
use elowyn_assist.Domain.Enums.{EventType}
use elowyn_assist.Db.Rows.{Source, Operation, Change, Float}
use elowyn_assist.Db.Store.{State}
use elowyn_assist.Mutation.Primitives.{
  ActionContext, operation, append_event, assistant_inference_source,
}

-- The tables of plans stay as they are, and identifiers are only used up.
pub record Quiet (s t : State) : Type 0 where
  pub versions : t.db.versions ≡ s.db.versions
  pub items : t.db.items ≡ s.db.items
  pub goal_links : t.db.goal_links ≡ s.db.goal_links
  pub progress : t.db.progress ≡ s.db.progress
  pub supply : s.next_id ≤ t.next_id

pub operation-Quiet : (ctx : ActionContext) (s : State) → Quiet s (operation ctx s).1
unfolding operation
operation-Quiet ctx s = ground arith

pub append_event-Quiet :
    (op : Operation) (event_type : EventType) (entity_id : Option ℕ) (source : Option Source)
    (changes : List Change) (s : State)
    → Quiet s (append_event op event_type entity_id source changes s).1
unfolding append_event
append_event-Quiet op event_type entity_id source changes s = ground arith

pub assistant_inference_source-Quiet :
    (confidence : Float) (reason : Text) (evidence : List Source) (s : State)
    → Quiet s (assistant_inference_source confidence reason evidence s).1
unfolding assistant_inference_source
assistant_inference_source-Quiet confidence reason evidence s = ground arith

-- The version table stays as it is, and identifiers are only used up.
pub record Steady (s t : State) : Type 0 where
  pub kept : t.db.versions ≡ s.db.versions
  pub used : s.next_id ≤ t.next_id

-- ===== src/Mutation/Primitives.antt =====
-- The provenance primitives of `DomainMutationService`, and `assistant_inference_source`.
use Prim.Native.String.{String}
use elowyn_assist.Common.{
  ℕ, suc, ◌+◌, ◌≤◌, arith, not, List, Option, none, some, [], ◌∷◌, ◌++◌, map, ◌==◌, leb, find,
  if◌then◌else◌, distinct,
}
use elowyn_assist.Common.Text.{Text, strip, is_empty}
use elowyn_assist.Common.Json.{Json}
use elowyn_assist.Domain.Enums.{SourceType, ActorType, EventType}
use elowyn_assist.Domain.Errors.{Result, ok, err, invalid, bad_confidence, blank_reason}
use elowyn_assist.Db.Rows.{
  Source, SourceDependency, Operation, Event, Change, Float, in_unit_interval,
}
use elowyn_assist.Db.Store.{Db, State}
use elowyn_assist.Mutation.Monad.{Action, pure, query, write, new_id, now, ◌>>=◌, ◌>>◌}

pub record ActionContext : Type 0 where
  pub actor_type : ActorType
  pub source : Option Source
  pub description : Option Text
  pub operation_id : Option ℕ

abbrev pub source_id_of : Option Source → Option ℕ
source_id_of none = none
source_id_of (some source) = some source.id

abbrev pub change : String → Json → Json → Change
change name old new = record { field = name; criterion_id = none; old = old; new = new }

pub get_operation : ℕ → Db → Option Operation
get_operation i db = find (λ o. o.id == i) db.operations

-- The operation that the context names, if it is there.
existing_operation : Option ℕ → Db → Option Operation
unfolding get_operation
existing_operation none db = none
existing_operation (some i) db = get_operation i db

-- The operation that `_operation` gives back: a new one has the named identifier or the next one.
operation_row : ActionContext → Option Operation → ℕ → Operation
operation_row ctx (some existing) next = existing
operation_row ctx none next = record {
  id = elim ctx.operation_id [ none ↦ next | some i ↦ i ];
  actor_type = ctx.actor_type;
  source_id = source_id_of ctx.source;
  description = ctx.description;
}

with_operation : Option Operation → Operation → List Operation → List Operation
with_operation (some existing) row rows = rows
with_operation none row rows = rows ++ row ∷ []

next_after : Option ℕ → ℕ → ℕ
next_after none next = suc next
next_after (some i) next = next

-- `_operation`.
unfoldable pub operation : ActionContext → Action Operation
unfolding existing_operation operation_row with_operation next_after
operation ctx s =
    let existing = existing_operation ctx.operation_id s.db in
    let row = operation_row ctx existing s.next_id in
    (
      ok row,
      record s {
        db = record s.db { operations = with_operation existing row s.db.operations };
        next_id = next_after ctx.operation_id s.next_id;
      },
    )

pub next_id-operation : (ctx : ActionContext) (s : State) → s.next_id ≤ (operation ctx s).1.next_id
unfolding operation
next_id-operation ctx s = ground arith

-- A reading of the clock, moved past the last event of this service.
unfoldable pub event_time : Option ℕ → ℕ → ℕ
event_time none reading = reading
event_time (some last) reading = if leb reading last then last + 1 else reading

-- `_append_event`.
abbrev append_as :
    Option ℕ → Operation → EventType → Option ℕ → Option Source → List Change → Action Event
append_as reverses op event_type entity_id source changes = do
  reading ← now
  created_at ←
      λ s. let t = event_time s.last_event_at reading in (ok t, record s { last_event_at = some t })
  i ← new_id
  let event : Event = record {
    id = i;
    operation_id = op.id;
    event_type = event_type;
    entity_id = entity_id;
    source_id = source_id_of source;
    reverses_event_id = reverses;
    changes = changes;
    created_at = created_at;
  }
  write λ db. record db { events = db.events ++ event ∷ [] }
  pure event

-- `_append_event` of an event that reverses none.
unfoldable pub append_event :
    Operation → EventType → Option ℕ → Option Source → List Change → Action Event
unfolding event_time
append_event op event_type entity_id source changes =
    append_as none op event_type entity_id source changes

-- `_append_event` with `reverses_event_id`.
unfoldable pub append_reversal :
    ℕ → Operation → EventType → Option ℕ → Option Source → List Change → Action Event
unfolding event_time
append_reversal reversed op event_type entity_id source changes =
    append_as (some reversed) op event_type entity_id source changes

dependencies_of : ℕ → List ℕ → List SourceDependency
dependencies_of i [] = []
dependencies_of i (e ∷ es) = record { source_id = i; evidence_source_id = e } ∷ dependencies_of i es

check_inference : Float → Text → Result (Unit {0})
check_inference confidence reason_summary =
    if not (in_unit_interval confidence)
    then err (invalid bad_confidence)
    else if is_empty (strip reason_summary)
    then err (invalid blank_reason)
    else ok tt

-- `assistant_inference_source`: one inference source with its evidence.
unfoldable pub assistant_inference_source : Float → Text → List Source → Action Source
unfolding check_inference dependencies_of
assistant_inference_source confidence reason_summary evidence = do
  query λ _. check_inference confidence reason_summary
  i ← new_id
  let source : Source = record {
    id = i;
    source_type = SourceType.assistant_inference;
    message_id = none;
    confidence = some confidence;
    reason_summary = some (strip reason_summary);
  }
  write λ db. record db { sources = db.sources ++ source ∷ [] }
  let cited = distinct ◌==◌ (map (λ (e : Source). e.id) evidence)
  write λ db. record db { source_dependencies = db.source_dependencies ++ dependencies_of i cited }
  pure source

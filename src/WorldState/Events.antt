-- ===== src/WorldState/Events.antt =====
-- services/world_state.py: `_event` and `_entity`.
use elowyn_assist.Common.{ℕ, Option, none, some, List, [], ◌∷◌, ◌++◌, map}
use elowyn_assist.Domain.Enums.{EntityType, EventType}
use elowyn_assist.Db.Rows.{Entity, Source, Operation, Event, Change}
use elowyn_assist.Db.World.{World, Project}
use elowyn_assist.Mutation.{Action, pure, write, new_id, ◌>>=◌, ◌>>◌, append_event, append_reversal}
use elowyn_assist.WorldState.Guards.{in_world}

abbrev pub no_summary : Project → Project
no_summary project = record project { current_summary = none; current_summary_updated_at = none }

-- Any event makes the cached summaries of all projects invalid.
abbrev pub drop_summaries : World → World
drop_summaries w = record w { projects = map no_summary w.projects }

-- `_event`.
unfoldable pub record_event : Operation → EventType → ℕ → Option Source → List Change → Action Event
record_event op event_type entity_id source changes = do
  write (in_world drop_summaries)
  append_event op event_type (some entity_id) source changes

-- `_event` with `reverses_event_id`.
unfoldable pub record_undo : ℕ → Operation → ℕ → Option Source → List Change → Action Event
record_undo reversed op entity_id source changes = do
  write (in_world drop_summaries)
  append_reversal reversed op EventType.undo_applied (some entity_id) source changes

-- `_entity`.
unfoldable pub new_entity : EntityType → Action ℕ
new_entity t = do
  i ← new_id
  let entity : Entity = record {
    id = i;
    entity_type = t;
    superseded_by_entity_id = none;
    removed_at = none;
  }
  write λ db. record db { entities = db.entities ++ entity ∷ [] }
  pure i

-- ===== src/WorldState/Undo.antt =====
-- services/world_state.py: `undo_last_change`. An event of an update names the columns that it has
-- changed; another attribute of a row, which no such event names, is refused.
pub mod Restore
pub mod Rows
pub mod Effect
use elowyn_assist.Common.{
  ℕ, Bool, true, false, not, ◌&&◌, ◌||◌, Option, none, some, List, [], ◌∷◌, ◌==◌, any, is_id,
  is_some, if◌then◌else◌,
}
use elowyn_assist.Domain.Enums.{EventType, same_event_type}
use elowyn_assist.Domain.Errors.{Result, ok, err, invalid, nothing_to_undo, or_raise}
use elowyn_assist.Db.Rows.{Event, Source, Operation, Change}
use elowyn_assist.Db.Queries.{latest}
use elowyn_assist.Db.World.{World}
use elowyn_assist.Db.Store.{Db}
use elowyn_assist.Mutation.{
  Action, pure, query, write, ◌>>=◌, ◌>>◌, atomic_domain_action, ActionContext, operation,
}
use elowyn_assist.WorldState.Guards.{in_world, active_entity}
use elowyn_assist.WorldState.Events.{record_undo}
use elowyn_assist.WorldState.Undo.Restore.{Restoration, put_restored}
use elowyn_assist.WorldState.Undo.Rows.{
  restore_task, restore_project, restore_goal, restore_criterion,
}

-- The table of the row that an event of this type has changed: `undoable`, and the tests of the
-- prefix of the type's value.
pub data Table : Type 0 where
  of_tasks of_projects of_goals of_criteria : Table

unfoldable pub undoable : EventType → Option Table
undoable EventType.task_updated = some of_tasks
undoable EventType.task_status_changed = some of_tasks
undoable EventType.task_completed = some of_tasks
undoable EventType.task_cancelled = some of_tasks
undoable EventType.project_updated = some of_projects
undoable EventType.project_status_changed = some of_projects
undoable EventType.project_completed = some of_projects
undoable EventType.project_cancelled = some of_projects
undoable EventType.goal_updated = some of_goals
undoable EventType.goal_status_changed = some of_goals
undoable EventType.goal_achieved = some of_goals
undoable EventType.success_criterion_updated = some of_criteria
undoable t = none

-- `base_stmt`: an event of an update that no event reverses.
abbrev pub is_open : List Event → Event → Bool
is_open events e =
    is_some (undoable e.event_type) && not (any (λ r. is_id r.reverses_event_id e.id) events)

-- The entity whose last change is undone: the given one, or that of the latest open event.
unfoldable pub undo_entity : Option ℕ → Db → Result ℕ
undo_entity (some i) db = ok i
undo_entity none db = elim (latest (is_open db.events) db.events) [
  | none ↦ err (invalid nothing_to_undo)
  | some e ↦ or_raise (invalid nothing_to_undo) e.entity_id
]

-- The latest open event of the entity.
unfoldable pub undo_target : ℕ → Db → Result Event
undo_target i db =
    or_raise (invalid nothing_to_undo)
      (latest (λ e. is_open db.events e && is_id e.entity_id i) db.events)

-- The restored row, the changes of the new event and its entity.
unfoldable pub restore : Option Table → ℕ → Event → Option Source → Db → Result Restoration
unfolding restore_task restore_project restore_goal restore_criterion
restore none i target source db = err (invalid nothing_to_undo)
restore (some of_tasks) i target source db = restore_task i target.changes source db
restore (some of_projects) i target source db = restore_project i target.changes source db
restore (some of_goals) i target source db = restore_goal i target.changes source db
restore (some of_criteria) i target source db = restore_criterion target.changes db

-- The restored row and the event that reverses the target.
unfoldable pub apply_undo : Event → ActionContext → Restoration → Action Event
unfolding record_undo put_restored
apply_undo target ctx found = do
  write (in_world (put_restored found.row))
  op ← operation ctx
  record_undo target.id op found.entity_id ctx.source found.changes

unfoldable pub undo_entity_change : ActionContext → ℕ → Action Event
unfolding active_entity undo_target restore undoable apply_undo
undo_entity_change ctx i = do
  query (active_entity i none)
  target ← query (undo_target i)
  found ← query (restore (undoable target.event_type) i target ctx.source)
  apply_undo target ctx found

unfoldable pub undo_last_change_body : ActionContext → Option ℕ → Action Event
unfolding undo_entity undo_entity_change
undo_last_change_body ctx entity_id = do i ← query (undo_entity entity_id); undo_entity_change ctx i

-- `undo_last_change`.
unfoldable pub undo_last_change : ActionContext → Option ℕ → Action Event
unfolding undo_last_change_body
undo_last_change ctx entity_id = atomic_domain_action (undo_last_change_body ctx entity_id)

-- ===== src/WorldState/Service/Building/Undo.antt =====
-- services/world_state.py: how the undo are built.
use elowyn_assist.Common.{Option, none, refl, ℕ, ◌≡◌}
use elowyn_assist.Db.Rows.{Event}
use elowyn_assist.Db.World.{World}
use elowyn_assist.Mutation.{ActionContext}
use elowyn_assist.WorldState.Guards.{active_entity}
use elowyn_assist.WorldState.Service.Building.{
  Built, atomically, operating, reading, reversing, writing, ◌>>=◌, ◌>>◌,
}
use elowyn_assist.WorldState.Undo.{
  apply_undo, restore, undo_entity, undo_entity_change, undo_last_change, undo_last_change_body,
  undo_target, undoable,
}
use elowyn_assist.WorldState.Undo.Restore.{Restoration, Restored, put_restored}

-- No restored row is a dependency.
restored_dependencies :
    (row : Restored) (w : World) → (put_restored row w).task_dependencies ≡ w.task_dependencies
unfolding put_restored
restored_dependencies (Restored.task row) w = refl
restored_dependencies (Restored.project row) w = refl
restored_dependencies (Restored.goal row) w = refl
restored_dependencies (Restored.criterion row) w = refl

pub apply_undo-Built :
    (target : Event) (ctx : ActionContext) (found : Restoration)
    → Built Event (apply_undo target ctx found)
unfolding apply_undo
apply_undo-Built target ctx found =
    (do
      writing ((put_restored found.row)) (restored_dependencies found.row)
      op ← operating ctx
      reversing target.id op found.entity_id ctx.source found.changes).1

pub undo_entity_change-Built :
    (ctx : ActionContext) (i : ℕ) → Built Event (undo_entity_change ctx i)
unfolding undo_entity_change
undo_entity_change-Built ctx i =
    (do
      reading (active_entity i none)
      target ← reading (undo_target i)
      found ← reading (restore (undoable target.event_type) i target ctx.source)
      (apply_undo target ctx found, apply_undo-Built target ctx found)).1

pub undo_last_change_body-Built :
    (ctx : ActionContext) (entity_id : Option ℕ) → Built Event (undo_last_change_body ctx entity_id)
unfolding undo_last_change_body
undo_last_change_body-Built ctx entity_id =
    (do
      i ← reading (undo_entity entity_id)
      (undo_entity_change ctx i, undo_entity_change-Built ctx i)).1

pub undo_last_change-Built :
    (ctx : ActionContext) (entity_id : Option ℕ) → Built Event (undo_last_change ctx entity_id)
unfolding undo_last_change
undo_last_change-Built ctx entity_id =
    (atomically (undo_last_change_body ctx entity_id, undo_last_change_body-Built ctx entity_id)).1

-- ===== src/WorldState/Hierarchy/TaskFields.antt =====
-- services/world_state.py: what the fields of a task update do to the parent.
use elowyn_assist.Common.{Option, [], ◌==◌, same_flag}
use elowyn_assist.Common.Text.{same_text}
use elowyn_assist.Common.Json.{
  flag, name, string, optional_text, optional_uuid, optional_name, optional_number, optional_time,
}
use elowyn_assist.Domain.Enums.{
  same_task_status, task_status_value, same_deadline_type, deadline_type_value,
}
use elowyn_assist.Domain.Commands.Updates.{TaskUpdate}
use elowyn_assist.Db.Rows.{Source}
use elowyn_assist.Db.World.{Task}
use elowyn_assist.Mutation.{source_id_of}
use elowyn_assist.WorldState.Fields.{Draft}
use elowyn_assist.Common.{◌≡◌, refl, ◌⊎◌, inl, inr}
use elowyn_assist.Domain.Commands.Fields.{sent}
use elowyn_assist.WorldState.Fields.Rule.{good, good_value}
use elowyn_assist.WorldState.Tasks.{assign_task}

-- The row keeps its identifier; its parent is the old one or the one that was sent.
pub assign_task-parent :
    (c : TaskUpdate) (source : Option Source) (old : Task)
    → ((assign_task c source (old, [])).0.entity_id ≡ old.entity_id)
      × (((assign_task c source (old, [])).0.parent_task_id ≡ old.parent_task_id)
          ⊎ (c.parent_task_id ≡ sent (assign_task c source (old, [])).0.parent_task_id))
unfolding assign_task
assign_task-parent c source old = (steps ((old, []), (refl, inl refl))).1
  where
    Moves : Task → Type 0
    Moves r =
        (r.entity_id ≡ old.entity_id)
        × ((r.parent_task_id ≡ old.parent_task_id) ⊎ (c.parent_task_id ≡ sent r.parent_task_id))

    steps : (d : Draft Task) × Moves d.0 → (d : Draft Task) × Moves d.0
    steps d =
        good_value Moves "auto_complete_from_children" same_flag flag
          (λ r. r.auto_complete_from_children) (λ x r. record r { auto_complete_from_children = x })
          c.auto_complete_from_children (λ x r e q. q)
          (good Moves "primary_project_id" ◌==◌ optional_uuid (λ r. r.primary_project_id)
            (λ x r. record r { primary_project_id = x }) c.primary_project_id (λ x r e q. q)
            (good Moves "parent_task_id" ◌==◌ optional_uuid (λ r. r.parent_task_id)
              (λ x r. record r { parent_task_id = x }) c.parent_task_id (λ x r e q. (q.0, inr e))
              (good Moves "estimated_duration_minutes" ◌==◌ optional_number
                (λ r. r.estimated_duration_minutes)
                (λ x r. record r {
                  estimated_duration_minutes = x;
                  estimate_source_id = source_id_of source;
                })
                c.estimated_duration_minutes (λ x r e q. q)
                (good Moves "deadline_type" same_deadline_type (optional_name deadline_type_value)
                  (λ r. r.deadline_type) (λ x r. record r { deadline_type = x }) c.deadline_type
                  (λ x r e q. q)
                  (good Moves "deadline_at" ◌==◌ optional_time (λ r. r.deadline_at)
                    (λ x r. record r { deadline_at = x }) c.deadline_at (λ x r e q. q)
                    (good Moves "importance" ◌==◌ optional_number (λ r. r.importance)
                      (λ x r. record r {
                        importance = x;
                        importance_source_id = source_id_of source;
                      })
                      c.importance (λ x r e q. q)
                      (good_value Moves "status" same_task_status (λ x. name (task_status_value x))
                        (λ r. r.status) (λ x r. record r { status = x }) c.status (λ x r e q. q)
                        (good Moves "description" same_text optional_text (λ r. r.description)
                          (λ x r. record r { description = x }) c.description (λ x r e q. q)
                          (good_value Moves "title" same_text string (λ r. r.title)
                            (λ x r. record r { title = x }) c.title (λ x r e q. q) d)))))))))

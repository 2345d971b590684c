-- ===== src/WorldState/Tasks.antt =====
-- services/world_state.py: `create_task`, `update_task` and `assess_task`.
pub mod Completed
use elowyn_assist.Common.{
  ℕ, Bool, true, false, not, ◌&&◌, ◌||◌, Option, none, [], ◌∷◌, ◌++◌, map, ◌==◌, if◌then◌else◌,
  distinct, is_empty, same_flag,
}
use elowyn_assist.Common.Text.{same_text}
use elowyn_assist.Common.Json.{
  Json, null, flag, name, string, object, array, end, field, optional_text, optional_uuid,
  optional_name, optional_number, optional_time, uuids,
}
use elowyn_assist.Domain.Enums.{
  EntityType, EventType, TaskStatus, same_task_status, task_status_value, same_deadline_type,
  deadline_type_value,
}
use elowyn_assist.Domain.Errors.{invalid, integrity, no_change}
use elowyn_assist.Domain.Commands.{TaskCreate}
use elowyn_assist.Domain.Commands.Fields.{unset}
use elowyn_assist.Domain.Commands.Updates.{TaskUpdate, check_task_update}
use elowyn_assist.Domain.Commands.Assessments.{TaskAssessment}
use elowyn_assist.Db.Rows.{Source, Operation}
use elowyn_assist.Db.World.{Task, TaskGoalLink, TaskDependency}
use elowyn_assist.Mutation.{
  Action, pure, query, refuse_if, write, ◌>>=◌, ◌>>◌, atomic_domain_action, ActionContext,
  operation, source_id_of, change, assistant_inference_source,
}
use elowyn_assist.WorldState.Guards.{put_task, in_world}
use elowyn_assist.WorldState.Examine.{examine_task, examine_task_update}
use elowyn_assist.WorldState.Events.{record_event, new_entity}
use elowyn_assist.WorldState.Fields.{Draft, assign, assign_value, sends_null}
use elowyn_assist.WorldState.Completion.{
  stamp, stamp_change, evidence_of, inferred_by, confidence_of, source_of_value,
}

-- `TaskCreate.model_dump(mode="json")`.
abbrev dump_task : TaskCreate → Json
dump_task c = object (
    field "title" (string c.title) (
      field "description" (optional_text c.description) (
        field "status" (name (task_status_value c.status)) (
          field "importance" (optional_number c.importance) (
            field "deadline_at" (optional_time c.deadline_at) (
              field "deadline_type" (optional_name deadline_type_value c.deadline_type) (
                field "estimated_duration_minutes" (optional_number c.estimated_duration_minutes) (
                  field "parent_task_id" (optional_uuid c.parent_task_id) (
                    field "primary_project_id" (optional_uuid c.primary_project_id) (
                      field "auto_complete_from_children" (flag c.auto_complete_from_children) (
                        field "goal_ids" (array (uuids c.goal_ids)) (
                          field "prerequisite_task_ids" (array (uuids c.prerequisite_task_ids))
                            end))))))))))))

abbrev pub is_done : TaskStatus → Bool
is_done status = same_task_status status TaskStatus.done

abbrev pub new_task : ℕ → TaskCreate → Option Source → Option ℕ → Task
new_task i c source completed_at = record {
  entity_id = i;
  title = c.title;
  description = c.description;
  status = c.status;
  importance = c.importance;
  importance_source_id = source_of_value c.importance source;
  deadline_at = c.deadline_at;
  deadline_type = c.deadline_type;
  estimated_duration_minutes = c.estimated_duration_minutes;
  estimate_source_id = source_of_value c.estimated_duration_minutes source;
  parent_task_id = c.parent_task_id;
  primary_project_id = c.primary_project_id;
  auto_complete_from_children = c.auto_complete_from_children;
  completed_at = completed_at;
}

abbrev pub new_task_goal : ℕ → Option Source → ℕ → TaskGoalLink
new_task_goal task_id source goal_id = record {
  task_id = task_id;
  goal_id = goal_id;
  source_id = source_id_of source;
  confidence = confidence_of source;
}

abbrev pub new_dependency : Option Source → ℕ → ℕ → TaskDependency
new_dependency source prerequisite dependent = record {
  prerequisite_task_id = prerequisite;
  dependent_task_id = dependent;
  source_id = source_id_of source;
  confidence = confidence_of source;
}

-- The rows of a new task and its event.
unfoldable pub enter_task : ℕ → TaskCreate → Option Source → Operation → Option ℕ → Action Task
unfolding record_event
enter_task i command source op completed_at = do
  let task = new_task i command source completed_at
  write (
      in_world λ w. record w {
        tasks = w.tasks ++ task ∷ [];
        task_goals = w.task_goals ++ map (new_task_goal i source) (distinct ◌==◌ command.goal_ids);
        task_dependencies =
            w.task_dependencies
            ++ map (λ p. new_dependency source p i) (distinct ◌==◌ command.prerequisite_task_ids);
      })
  record_event op EventType.task_created i source (change "created" null (dump_task command) ∷ [])
  pure task

unfoldable pub install_task : TaskCreate → Option Source → Operation → Action Task
unfolding new_entity enter_task
install_task command source op = do
  i ← new_entity EntityType.task
  completed_at ← stamp true (is_done command.status) false none
  enter_task i command source op completed_at

unfoldable pub create_task_body : TaskCreate → ActionContext → Action Task
unfolding examine_task install_task
create_task_body command ctx = do
  query (examine_task command)
  op ← operation ctx
  install_task command ctx.source op

-- `create_task`.
unfoldable pub create_task : TaskCreate → ActionContext → Action Task
unfolding create_task_body
create_task command ctx = atomic_domain_action (create_task_body command ctx)

-- The loop over the fields.
unfoldable pub assign_task : TaskUpdate → Option Source → Draft Task → Draft Task
unfolding assign assign_value
assign_task c source d =
    assign_value "auto_complete_from_children" same_flag flag (λ r. r.auto_complete_from_children)
      (λ x r. record r { auto_complete_from_children = x }) c.auto_complete_from_children
      (assign "primary_project_id" ◌==◌ optional_uuid (λ r. r.primary_project_id)
        (λ x r. record r { primary_project_id = x }) c.primary_project_id
        (assign "parent_task_id" ◌==◌ optional_uuid (λ r. r.parent_task_id)
          (λ x r. record r { parent_task_id = x }) c.parent_task_id
          (assign "estimated_duration_minutes" ◌==◌ optional_number
            (λ r. r.estimated_duration_minutes)
            (λ x r. record r {
              estimated_duration_minutes = x;
              estimate_source_id = source_id_of source;
            })
            c.estimated_duration_minutes
            (assign "deadline_type" same_deadline_type (optional_name deadline_type_value)
              (λ r. r.deadline_type) (λ x r. record r { deadline_type = x }) c.deadline_type
              (assign "deadline_at" ◌==◌ optional_time (λ r. r.deadline_at)
                (λ x r. record r { deadline_at = x }) c.deadline_at
                (assign "importance" ◌==◌ optional_number (λ r. r.importance)
                  (λ x r. record r { importance = x; importance_source_id = source_id_of source })
                  c.importance
                  (assign_value "status" same_task_status (λ x. name (task_status_value x))
                    (λ r. r.status) (λ x r. record r { status = x }) c.status
                    (assign "description" same_text optional_text (λ r. r.description)
                      (λ x r. record r { description = x }) c.description
                      (assign_value "title" same_text string (λ r. r.title)
                        (λ x r. record r { title = x }) c.title d)))))))))

abbrev pub task_nulls : TaskUpdate → Bool
task_nulls c = sends_null c.title || sends_null c.status || sends_null c.auto_complete_from_children

-- The type of the event of an update.
abbrev pub task_event : TaskStatus → TaskStatus → EventType
task_event old new =
    if is_done new && not (is_done old)
    then EventType.task_completed
    else if same_task_status new TaskStatus.cancelled
        && not (same_task_status old TaskStatus.cancelled)
    then EventType.task_cancelled
    else if not (same_task_status new old)
    then EventType.task_status_changed
    else EventType.task_updated

-- The row with the time of its completion, written with its event.
unfoldable pub settle_task : Task → Draft Task → Option Source → Operation → Option ℕ → Action Task
unfolding record_event
settle_task old (row, changes) source op completed_at = do
  let task = record row { completed_at = completed_at }
  let all_changes = changes ++ stamp_change "completed_at" old.completed_at completed_at
  refuse_if (is_empty all_changes) (invalid no_change)
  write (in_world (put_task task))
  record_event op (task_event old.status task.status) task.entity_id source all_changes
  pure task

-- `update_task` from the operation on.
unfoldable pub apply_task_update : TaskUpdate → Option Source → Task → Operation → Action Task
unfolding assign_task settle_task stamp
apply_task_update command source old op = do
  let draft = assign_task command source (old, [])
  completed_at ←
      stamp (not (same_task_status draft.0.status old.status)) (is_done draft.0.status)
        (is_done old.status) old.completed_at
  refuse_if (task_nulls command) integrity
  settle_task old draft source op completed_at

unfoldable pub update_task_body : TaskUpdate → ActionContext → Action Task
unfolding examine_task_update apply_task_update
update_task_body command ctx = do
  (task, deadline_type) ← query (examine_task_update command)
  op ← operation ctx
  apply_task_update (record command { deadline_type = deadline_type }) ctx.source task op

-- `update_task`.
unfoldable pub update_task : TaskUpdate → ActionContext → Action Task
unfolding update_task_body
update_task command ctx = atomic_domain_action (update_task_body command ctx)

-- The update of an assessment.
abbrev pub assessed_task : TaskAssessment → TaskUpdate
assessed_task command = record {
  entity_id = command.entity_id;
  title = unset;
  description = unset;
  status = unset;
  importance = command.importance;
  deadline_at = unset;
  deadline_type = unset;
  estimated_duration_minutes = command.estimated_duration_minutes;
  parent_task_id = unset;
  primary_project_id = unset;
  auto_complete_from_children = unset;
}

unfoldable pub assess_task_body : TaskAssessment → Option Source → Action Task
unfolding update_task check_task_update
assess_task_body command evidence = do
  inference ←
      assistant_inference_source command.confidence command.reason_summary (evidence_of evidence)
  update ← query λ db. check_task_update (assessed_task command)
  update_task update (inferred_by inference "Elowyn task assessment")

-- `assess_task`.
unfoldable pub assess_task : TaskAssessment → Option Source → Action Task
unfolding assess_task_body
assess_task command evidence = atomic_domain_action (assess_task_body command evidence)

-- ===== src/WorldState/Undo/Rows.antt =====
-- services/world_state.py: the loops of `undo_last_change` over the changes of an event, one for each
-- table.
use Prim.Native.String.{String}
use elowyn_assist.Common.{ℕ, Bool, Option, none, some, List, [], ◌∷◌, if◌then◌else◌, same_string}
use elowyn_assist.Common.Json.{
  Json, flag, name, string, object, Fields, end, field, optional_text, optional_uuid, optional_name,
  optional_number, optional_time, optional_real,
}
use elowyn_assist.Domain.Enums.{
  task_status_value, project_status_value, goal_status_value, success_criterion_status_value,
  deadline_type_value,
}
use elowyn_assist.Domain.Errors.{
  Result, ok, err, invalid, irreversible_field, irreversible_criterion, ◌>>=◌, ◌>>◌,
}
use elowyn_assist.Db.Rows.{Change, Source}
use elowyn_assist.Db.World.{Task, Project, Goal, SuccessCriterion}
use elowyn_assist.Db.Store.{Db}
use elowyn_assist.Mutation.{source_id_of}
use elowyn_assist.WorldState.Guards.{active_task, active_project, active_goal, success_criterion}
use elowyn_assist.WorldState.Hierarchy.{check_task_parent, check_project_parent, check_goal_parent}
use elowyn_assist.WorldState.Fields.{Draft}
use elowyn_assist.WorldState.Criteria.{criterion_change}
use elowyn_assist.WorldState.Undo.Restore.{
  Restoration, Restored, text_of, number_of, flag_of, real_of, uuid_of, time_of, task_status_of,
  project_status_of, goal_status_of, criterion_status_of, deadline_type_of, nullable, recover,
}

-- A parent is checked before it is restored.
unfoldable pub parent_of : (Option ℕ → Db → Result (Unit {0})) → Db → Json → Result (Option ℕ)
parent_of check db value = do parent ← nullable uuid_of value; check parent db; ok parent

-- One column of a task; the source of an importance or an estimate is that of the undo.
unfoldable pub recover_task :
    ℕ → Option Source → Db → String → Json → Draft Task → Result (Draft Task)
unfolding recover parent_of task_status_of deadline_type_of check_task_parent
recover_task i source db column =
    if same_string column "title"
    then recover "title" text_of string (λ r. r.title) (λ x r. record r { title = x })
    else if same_string column "description"
    then recover "description" (nullable text_of) optional_text (λ r. r.description)
        (λ x r. record r { description = x })
    else if same_string column "status"
    then recover "status" task_status_of (λ x. name (task_status_value x)) (λ r. r.status)
        (λ x r. record r { status = x })
    else if same_string column "importance"
    then recover "importance" (nullable number_of) optional_number (λ r. r.importance)
        (λ x r. record r { importance = x; importance_source_id = source_id_of source })
    else if same_string column "deadline_at"
    then recover "deadline_at" (nullable time_of) optional_time (λ r. r.deadline_at)
        (λ x r. record r { deadline_at = x })
    else if same_string column "deadline_type"
    then recover "deadline_type" (nullable deadline_type_of) (optional_name deadline_type_value)
        (λ r. r.deadline_type) (λ x r. record r { deadline_type = x })
    else if same_string column "estimated_duration_minutes"
    then recover "estimated_duration_minutes" (nullable number_of) optional_number
        (λ r. r.estimated_duration_minutes)
        (λ x r. record r {
          estimated_duration_minutes = x;
          estimate_source_id = source_id_of source;
        })
    else if same_string column "parent_task_id"
    then recover "parent_task_id" (parent_of (check_task_parent i) db) optional_uuid
        (λ r. r.parent_task_id) (λ x r. record r { parent_task_id = x })
    else if same_string column "primary_project_id"
    then recover "primary_project_id" (nullable uuid_of) optional_uuid (λ r. r.primary_project_id)
        (λ x r. record r { primary_project_id = x })
    else if same_string column "auto_complete_from_children"
    then recover "auto_complete_from_children" flag_of flag (λ r. r.auto_complete_from_children)
        (λ x r. record r { auto_complete_from_children = x })
    else if same_string column "completed_at"
    then recover "completed_at" (nullable time_of) optional_time (λ r. r.completed_at)
        (λ x r. record r { completed_at = x })
    else λ old draft. err (invalid irreversible_field)

-- The loop over the changes.
unfoldable pub recover_all {ℓ} :
    {R : Type ℓ}
    → (String → Json → Draft R → Result (Draft R))
    → List Change
    → Draft R
    → Result (Draft R)
recover_all step [] draft = ok draft
recover_all step (c ∷ cs) draft = step c.field c.old draft >>= recover_all step cs

unfoldable pub restore_task : ℕ → List Change → Option Source → Db → Result Restoration
unfolding active_task recover_all recover_task
restore_task i changes source db = do
  task ← active_task i db
  (row, reversed) ← recover_all (recover_task i source db) changes (task, [])
  ok (record { row = Restored.task row; entity_id = i; changes = reversed })

unfoldable pub recover_project :
    ℕ → Option Source → Db → String → Json → Draft Project → Result (Draft Project)
unfolding recover parent_of project_status_of deadline_type_of check_project_parent
recover_project i source db column =
    if same_string column "name"
    then recover "name" text_of string (λ r. r.name) (λ x r. record r { name = x })
    else if same_string column "description"
    then recover "description" (nullable text_of) optional_text (λ r. r.description)
        (λ x r. record r { description = x })
    else if same_string column "status"
    then recover "status" project_status_of (λ x. name (project_status_value x)) (λ r. r.status)
        (λ x r. record r { status = x })
    else if same_string column "importance"
    then recover "importance" (nullable number_of) optional_number (λ r. r.importance)
        (λ x r. record r { importance = x; importance_source_id = source_id_of source })
    else if same_string column "target_date"
    then recover "target_date" (nullable time_of) optional_time (λ r. r.target_date)
        (λ x r. record r { target_date = x })
    else if same_string column "target_date_type"
    then recover "target_date_type" (nullable deadline_type_of) (optional_name deadline_type_value)
        (λ r. r.target_date_type) (λ x r. record r { target_date_type = x })
    else if same_string column "parent_project_id"
    then recover "parent_project_id" (parent_of (check_project_parent i) db) optional_uuid
        (λ r. r.parent_project_id) (λ x r. record r { parent_project_id = x })
    else if same_string column "completed_at"
    then recover "completed_at" (nullable time_of) optional_time (λ r. r.completed_at)
        (λ x r. record r { completed_at = x })
    else λ old draft. err (invalid irreversible_field)

unfoldable pub restore_project : ℕ → List Change → Option Source → Db → Result Restoration
unfolding active_project recover_all recover_project
restore_project i changes source db = do
  project ← active_project i db
  (row, reversed) ← recover_all (recover_project i source db) changes (project, [])
  ok (record { row = Restored.project row; entity_id = i; changes = reversed })

unfoldable pub recover_goal :
    ℕ → Option Source → Db → String → Json → Draft Goal → Result (Draft Goal)
unfolding recover parent_of goal_status_of deadline_type_of check_goal_parent
recover_goal i source db column =
    if same_string column "title"
    then recover "title" text_of string (λ r. r.title) (λ x r. record r { title = x })
    else if same_string column "description"
    then recover "description" (nullable text_of) optional_text (λ r. r.description)
        (λ x r. record r { description = x })
    else if same_string column "status"
    then recover "status" goal_status_of (λ x. name (goal_status_value x)) (λ r. r.status)
        (λ x r. record r { status = x })
    else if same_string column "importance"
    then recover "importance" (nullable number_of) optional_number (λ r. r.importance)
        (λ x r. record r { importance = x; importance_source_id = source_id_of source })
    else if same_string column "target_date"
    then recover "target_date" (nullable time_of) optional_time (λ r. r.target_date)
        (λ x r. record r { target_date = x })
    else if same_string column "target_date_type"
    then recover "target_date_type" (nullable deadline_type_of) (optional_name deadline_type_value)
        (λ r. r.target_date_type) (λ x r. record r { target_date_type = x })
    else if same_string column "parent_goal_id"
    then recover "parent_goal_id" (parent_of (check_goal_parent i) db) optional_uuid
        (λ r. r.parent_goal_id) (λ x r. record r { parent_goal_id = x })
    else if same_string column "achieved_at"
    then recover "achieved_at" (nullable time_of) optional_time (λ r. r.achieved_at)
        (λ x r. record r { achieved_at = x })
    else λ old draft. err (invalid irreversible_field)

unfoldable pub restore_goal : ℕ → List Change → Option Source → Db → Result Restoration
unfolding active_goal recover_all recover_goal
restore_goal i changes source db = do
  goal ← active_goal i db
  (row, reversed) ← recover_all (recover_goal i source db) changes (goal, [])
  ok (record { row = Restored.goal row; entity_id = i; changes = reversed })

-- One column of a success criterion.
unfoldable pub recover_criterion :
    String → Json → Draft SuccessCriterion → Result (Draft SuccessCriterion)
unfolding recover criterion_status_of
recover_criterion column =
    if same_string column "description"
    then recover "description" text_of string (λ r. r.description)
        (λ x r. record r { description = x })
    else if same_string column "status"
    then recover "status" criterion_status_of (λ x. name (success_criterion_status_value x))
        (λ r. r.status) (λ x r. record r { status = x })
    else if same_string column "confidence"
    then recover "confidence" (nullable real_of) optional_real (λ r. r.confidence)
        (λ x r. record r { confidence = x })
    else if same_string column "evaluation_summary"
    then recover "evaluation_summary" (nullable text_of) optional_text (λ r. r.evaluation_summary)
        (λ x r. record r { evaluation_summary = x })
    else if same_string column "evaluation_source_id"
    then recover "evaluation_source_id" (nullable uuid_of) optional_uuid
        (λ r. r.evaluation_source_id) (λ x r. record r { evaluation_source_id = x })
    else λ old draft. err (invalid irreversible_criterion)

-- The loop over `old_values`.
unfoldable pub recover_fields : Fields → Draft SuccessCriterion → Result (Draft SuccessCriterion)
unfolding recover_criterion
recover_fields end draft = ok draft
recover_fields (field column old rest) draft =
    recover_criterion column old draft >>= recover_fields rest

-- The old values of the one change of the event.
unfoldable pub recover_evaluation : ℕ → Json → Db → Result Restoration
unfolding success_criterion recover_fields
recover_evaluation i (object fields) db = do
  criterion ← success_criterion i db
  (row, reversed) ← recover_fields fields (criterion, [])
  ok (record {
    row = Restored.criterion row;
    entity_id = criterion.goal_id;
    changes = criterion_change criterion.id reversed ∷ [];
  })
recover_evaluation i value db = success_criterion i db >> err (invalid irreversible_criterion)

abbrev is_criterion_change : Change → Bool
is_criterion_change c = same_string c.field "success_criterion"

unfoldable pub restore_criterion : List Change → Db → Result Restoration
unfolding recover_evaluation
restore_criterion (c ∷ []) db =
    if is_criterion_change c
    then elim c.criterion_id [
      | none ↦ err (invalid irreversible_criterion)
      | some i ↦ recover_evaluation i c.old db
    ]
    else err (invalid irreversible_criterion)
restore_criterion changes db = err (invalid irreversible_criterion)

-- ===== src/WorldState/Projects.antt =====
-- services/world_state.py: `create_project`, `update_project` and `assess_project`, and the cached summary.
use elowyn_assist.Common.{
  ℕ, Bool, true, false, not, ◌&&◌, ◌||◌, Option, none, some, [], ◌∷◌, ◌++◌, map, ◌==◌,
  if◌then◌else◌, distinct, is_empty,
}
use elowyn_assist.Common.Text.{same_text, strip}
use elowyn_assist.Common.Json.{
  Json, null, name, string, object, array, end, field, optional_text, optional_uuid, optional_name,
  optional_number, optional_time, uuids,
}
use elowyn_assist.Domain.Enums.{
  EntityType, EventType, ProjectStatus, same_project_status, project_status_value,
  same_deadline_type, deadline_type_value,
}
use elowyn_assist.Domain.Errors.{invalid, integrity, no_change}
use elowyn_assist.Domain.Commands.{ProjectCreate}
use elowyn_assist.Domain.Commands.Fields.{unset, sent}
use elowyn_assist.Domain.Commands.Updates.{ProjectUpdate, check_project_update}
use elowyn_assist.Domain.Commands.Assessments.{Assessment, ProjectSummaryCacheUpdate}
use elowyn_assist.Db.Rows.{Source, Operation}
use elowyn_assist.Db.World.{Project, ProjectGoalLink}
use elowyn_assist.Mutation.{
  Action, pure, query, refuse_if, write, now, ◌>>=◌, ◌>>◌, atomic_domain_action, ActionContext,
  operation, source_id_of, change, assistant_inference_source,
}
use elowyn_assist.WorldState.Guards.{put_project, in_world, active_project}
use elowyn_assist.WorldState.Examine.{examine_project, examine_project_update}
use elowyn_assist.WorldState.Events.{record_event, new_entity, no_summary}
use elowyn_assist.WorldState.Fields.{Draft, assign, assign_value, sends_null}
use elowyn_assist.WorldState.Completion.{
  stamp, stamp_change, evidence_of, inferred_by, confidence_of, source_of_value,
}

-- `ProjectCreate.model_dump(mode="json")`.
abbrev pub dump_project : ProjectCreate → Json
dump_project c = object (
    field "name" (string c.name) (
      field "description" (optional_text c.description) (
        field "status" (name (project_status_value c.status)) (
          field "importance" (optional_number c.importance) (
            field "target_date" (optional_time c.target_date) (
              field "target_date_type" (optional_name deadline_type_value c.target_date_type) (
                field "parent_project_id" (optional_uuid c.parent_project_id)
                  (field "goal_ids" (array (uuids c.goal_ids)) end))))))))

abbrev pub is_completed : ProjectStatus → Bool
is_completed status = same_project_status status ProjectStatus.completed

abbrev pub new_project : ℕ → ProjectCreate → Option Source → Option ℕ → Project
new_project i c source completed_at = record {
  entity_id = i;
  name = c.name;
  description = c.description;
  status = c.status;
  importance = c.importance;
  importance_source_id = source_of_value c.importance source;
  target_date = c.target_date;
  target_date_type = c.target_date_type;
  parent_project_id = c.parent_project_id;
  current_summary = none;
  current_summary_updated_at = none;
  completed_at = completed_at;
}

abbrev pub new_project_goal : ℕ → Option Source → ℕ → ProjectGoalLink
new_project_goal project_id source goal_id = record {
  project_id = project_id;
  goal_id = goal_id;
  source_id = source_id_of source;
  confidence = confidence_of source;
}

-- The rows of a new project and its event.
unfoldable pub install_project : ProjectCreate → Option Source → Operation → Action Project
unfolding new_entity record_event
install_project command source op = do
  i ← new_entity EntityType.project
  completed_at ← stamp true (is_completed command.status) false none
  let project = new_project i command source completed_at
  write (
      in_world λ w. record w {
        projects = w.projects ++ project ∷ [];
        project_goals =
            w.project_goals ++ map (new_project_goal i source) (distinct ◌==◌ command.goal_ids);
      })
  record_event op EventType.project_created i source
      (change "created" null (dump_project command) ∷ [])
  pure project

unfoldable pub create_project_body : ProjectCreate → ActionContext → Action Project
unfolding examine_project install_project
create_project_body command ctx = do
  query (examine_project command)
  op ← operation ctx
  install_project command ctx.source op

-- `create_project`.
unfoldable pub create_project : ProjectCreate → ActionContext → Action Project
unfolding create_project_body
create_project command ctx = atomic_domain_action (create_project_body command ctx)

-- The loop over the fields.
unfoldable pub assign_project : ProjectUpdate → Option Source → Draft Project → Draft Project
unfolding assign assign_value
assign_project c source d =
    assign "parent_project_id" ◌==◌ optional_uuid (λ r. r.parent_project_id)
      (λ x r. record r { parent_project_id = x }) c.parent_project_id
      (assign "target_date_type" same_deadline_type (optional_name deadline_type_value)
        (λ r. r.target_date_type) (λ x r. record r { target_date_type = x }) c.target_date_type
        (assign "target_date" ◌==◌ optional_time (λ r. r.target_date)
          (λ x r. record r { target_date = x }) c.target_date
          (assign "importance" ◌==◌ optional_number (λ r. r.importance)
            (λ x r. record r { importance = x; importance_source_id = source_id_of source })
            c.importance
            (assign_value "status" same_project_status (λ x. name (project_status_value x))
              (λ r. r.status) (λ x r. record r { status = x }) c.status
              (assign "description" same_text optional_text (λ r. r.description)
                (λ x r. record r { description = x }) c.description
                (assign_value "name" same_text string (λ r. r.name) (λ x r. record r { name = x })
                  c.name d))))))

abbrev pub project_nulls : ProjectUpdate → Bool
project_nulls c = sends_null c.name || sends_null c.status

-- The type of the event of an update.
abbrev pub project_event : ProjectStatus → ProjectStatus → EventType
project_event old new =
    if is_completed new && not (is_completed old)
    then EventType.project_completed
    else if same_project_status new ProjectStatus.cancelled
        && not (same_project_status old ProjectStatus.cancelled)
    then EventType.project_cancelled
    else if not (same_project_status new old)
    then EventType.project_status_changed
    else EventType.project_updated

-- The row with the time of its completion, written with its event.
unfoldable pub settle_project :
    Project → Draft Project → Option Source → Operation → Option ℕ → Action Project
unfolding record_event
settle_project old (row, changes) source op completed_at = do
  let project = record row { completed_at = completed_at }
  let all_changes = changes ++ stamp_change "completed_at" old.completed_at completed_at
  refuse_if (is_empty all_changes) (invalid no_change)
  write (in_world (put_project project))
  record_event op (project_event old.status project.status) project.entity_id source all_changes
  pure (no_summary project)

-- `update_project` from the operation on.
unfoldable pub apply_project_update :
    ProjectUpdate → Option Source → Project → Operation → Action Project
unfolding assign_project settle_project stamp
apply_project_update command source old op = do
  let draft = assign_project command source (old, [])
  completed_at ←
      stamp (not (same_project_status draft.0.status old.status)) (is_completed draft.0.status)
        (is_completed old.status) old.completed_at
  refuse_if (project_nulls command) integrity
  settle_project old draft source op completed_at

unfoldable pub update_project_body : ProjectUpdate → ActionContext → Action Project
unfolding examine_project_update apply_project_update
update_project_body command ctx = do
  (row, target_date_type) ← query (examine_project_update command)
  op ← operation ctx
  apply_project_update (record command { target_date_type = target_date_type }) ctx.source row op

-- `update_project`.
unfoldable pub update_project : ProjectUpdate → ActionContext → Action Project
unfolding update_project_body
update_project command ctx = atomic_domain_action (update_project_body command ctx)

-- The update of an assessment.
abbrev pub assessed_project : Assessment → ProjectUpdate
assessed_project command = record {
  entity_id = command.entity_id;
  name = unset;
  description = unset;
  status = unset;
  importance = sent (some command.importance);
  target_date = unset;
  target_date_type = unset;
  parent_project_id = unset;
}

unfoldable pub assess_project_body : Assessment → Option Source → Action Project
unfolding update_project check_project_update
assess_project_body command evidence = do
  inference ←
      assistant_inference_source command.confidence command.reason_summary (evidence_of evidence)
  update ← query λ db. check_project_update (assessed_project command)
  update_project update (inferred_by inference "Elowyn project importance assessment")

-- `assess_project`.
unfoldable pub assess_project : Assessment → Option Source → Action Project
unfolding assess_project_body
assess_project command evidence = atomic_domain_action (assess_project_body command evidence)

-- `cache_project_summary`.
unfoldable pub cache_project_summary_body : ProjectSummaryCacheUpdate → Action Project
unfolding active_project
cache_project_summary_body command = do
  project ← query (active_project command.entity_id)
  t ← now
  let cached = record project {
    current_summary = some (strip command.summary);
    current_summary_updated_at = some t;
  }
  write (in_world (put_project cached))
  pure cached

unfoldable pub cache_project_summary : ProjectSummaryCacheUpdate → Action Project
unfolding cache_project_summary_body
cache_project_summary command = atomic_domain_action (cache_project_summary_body command)

-- ===== src/WorldState/Goals.antt =====
-- services/world_state.py: `create_goal`, `update_goal` and `assess_goal`.
use elowyn_assist.Common.{
  ℕ, Bool, true, false, not, ◌&&◌, ◌||◌, Option, none, some, List, [], ◌∷◌, ◌++◌, ◌==◌,
  if◌then◌else◌, is_empty,
}
use elowyn_assist.Common.Text.{same_text}
use elowyn_assist.Common.Json.{
  Json, null, name, string, object, array, end, field, optional_text, optional_uuid, optional_name,
  optional_number, optional_time, Elements, none_left, element,
}
use elowyn_assist.Domain.Enums.{
  EntityType, EventType, GoalStatus, same_goal_status, goal_status_value, same_deadline_type,
  deadline_type_value, SuccessCriterionStatus,
}
use elowyn_assist.Domain.Errors.{invalid, integrity, no_change}
use elowyn_assist.Domain.Commands.{GoalCreate, SuccessCriterionCreate}
use elowyn_assist.Domain.Commands.Fields.{unset, sent}
use elowyn_assist.Domain.Commands.Updates.{GoalUpdate, check_goal_update}
use elowyn_assist.Domain.Commands.Assessments.{Assessment}
use elowyn_assist.Db.Rows.{Source, Operation}
use elowyn_assist.Db.World.{Goal, SuccessCriterion}
use elowyn_assist.Mutation.{
  Action, pure, query, refuse_if, write, new_id, ◌>>=◌, ◌>>◌, atomic_domain_action, ActionContext,
  operation, source_id_of, change, assistant_inference_source,
}
use elowyn_assist.WorldState.Guards.{put_goal, in_world}
use elowyn_assist.WorldState.Examine.{examine_goal, examine_goal_update}
use elowyn_assist.WorldState.Events.{record_event, new_entity}
use elowyn_assist.WorldState.Fields.{Draft, assign, assign_value, sends_null}
use elowyn_assist.WorldState.Completion.{
  stamp, stamp_change, evidence_of, inferred_by, source_of_value,
}

unfoldable pub dump_criteria : List SuccessCriterionCreate → Elements
dump_criteria [] = none_left
dump_criteria (c ∷ cs) =
    element (object (field "description" (string c.description) end)) (dump_criteria cs)

-- `GoalCreate.model_dump(mode="json")`.
abbrev pub dump_goal : GoalCreate → Json
dump_goal c = object (
    field "title" (string c.title) (
      field "description" (optional_text c.description) (
        field "status" (name (goal_status_value c.status)) (
          field "importance" (optional_number c.importance) (
            field "target_date" (optional_time c.target_date) (
              field "target_date_type" (optional_name deadline_type_value c.target_date_type) (
                field "parent_goal_id" (optional_uuid c.parent_goal_id)
                  (field "success_criteria" (array (dump_criteria c.success_criteria)) end))))))))

abbrev pub is_achieved : GoalStatus → Bool
is_achieved status = same_goal_status status GoalStatus.achieved

abbrev pub new_goal : ℕ → GoalCreate → Option Source → Option ℕ → Goal
new_goal i c source achieved_at = record {
  entity_id = i;
  title = c.title;
  description = c.description;
  status = c.status;
  importance = c.importance;
  importance_source_id = source_of_value c.importance source;
  target_date = c.target_date;
  target_date_type = c.target_date_type;
  parent_goal_id = c.parent_goal_id;
  achieved_at = achieved_at;
}

abbrev pub new_criterion : ℕ → ℕ → Option Source → SuccessCriterionCreate → SuccessCriterion
new_criterion i goal_id source c = record {
  id = i;
  goal_id = goal_id;
  description = c.description;
  status = SuccessCriterionStatus.unknown;
  confidence = none;
  evaluation_summary = none;
  created_source_id = source_id_of source;
  evaluation_source_id = none;
}

-- The loop over the criteria.
unfoldable pub add_criteria : ℕ → Option Source → List SuccessCriterionCreate → Action (Unit {0})
add_criteria goal_id source [] = pure tt
add_criteria goal_id source (c ∷ cs) = do
  i ← new_id
  write (in_world λ w. record w { criteria = w.criteria ++ new_criterion i goal_id source c ∷ [] })
  add_criteria goal_id source cs

-- The rows of a new goal and its event.
unfoldable pub install_goal : GoalCreate → Option Source → Operation → Action Goal
unfolding new_entity add_criteria record_event dump_criteria
install_goal command source op = do
  i ← new_entity EntityType.goal
  achieved_at ← stamp true (is_achieved command.status) false none
  let goal = new_goal i command source achieved_at
  write (in_world λ w. record w { goals = w.goals ++ goal ∷ [] })
  add_criteria i source command.success_criteria
  record_event op EventType.goal_created i source (change "created" null (dump_goal command) ∷ [])
  pure goal

unfoldable pub create_goal_body : GoalCreate → ActionContext → Action Goal
unfolding examine_goal install_goal
create_goal_body command ctx = do
  query (examine_goal command)
  op ← operation ctx
  install_goal command ctx.source op

-- `create_goal`.
unfoldable pub create_goal : GoalCreate → ActionContext → Action Goal
unfolding create_goal_body
create_goal command ctx = atomic_domain_action (create_goal_body command ctx)

-- The loop over the fields.
unfoldable pub assign_goal : GoalUpdate → Option Source → Draft Goal → Draft Goal
unfolding assign assign_value
assign_goal c source d =
    assign "parent_goal_id" ◌==◌ optional_uuid (λ r. r.parent_goal_id)
      (λ x r. record r { parent_goal_id = x }) c.parent_goal_id
      (assign "target_date_type" same_deadline_type (optional_name deadline_type_value)
        (λ r. r.target_date_type) (λ x r. record r { target_date_type = x }) c.target_date_type
        (assign "target_date" ◌==◌ optional_time (λ r. r.target_date)
          (λ x r. record r { target_date = x }) c.target_date
          (assign "importance" ◌==◌ optional_number (λ r. r.importance)
            (λ x r. record r { importance = x; importance_source_id = source_id_of source })
            c.importance
            (assign_value "status" same_goal_status (λ x. name (goal_status_value x))
              (λ r. r.status) (λ x r. record r { status = x }) c.status
              (assign "description" same_text optional_text (λ r. r.description)
                (λ x r. record r { description = x }) c.description
                (assign_value "title" same_text string (λ r. r.title)
                  (λ x r. record r { title = x }) c.title d))))))

abbrev pub goal_nulls : GoalUpdate → Bool
goal_nulls c = sends_null c.title || sends_null c.status

-- The type of the event of an update.
abbrev pub goal_event : GoalStatus → GoalStatus → EventType
goal_event old new =
    if is_achieved new && not (is_achieved old)
    then EventType.goal_achieved
    else if not (same_goal_status new old)
    then EventType.goal_status_changed
    else EventType.goal_updated

-- The row with the time of its completion, written with its event.
unfoldable pub settle_goal : Goal → Draft Goal → Option Source → Operation → Option ℕ → Action Goal
unfolding record_event
settle_goal old (row, changes) source op achieved_at = do
  let goal = record row { achieved_at = achieved_at }
  let all_changes = changes ++ stamp_change "achieved_at" old.achieved_at achieved_at
  refuse_if (is_empty all_changes) (invalid no_change)
  write (in_world (put_goal goal))
  record_event op (goal_event old.status goal.status) goal.entity_id source all_changes
  pure goal

-- `update_goal` from the operation on.
unfoldable pub apply_goal_update : GoalUpdate → Option Source → Goal → Operation → Action Goal
unfolding assign_goal settle_goal stamp
apply_goal_update command source old op = do
  let draft = assign_goal command source (old, [])
  achieved_at ←
      stamp (not (same_goal_status draft.0.status old.status)) (is_achieved draft.0.status)
        (is_achieved old.status) old.achieved_at
  refuse_if (goal_nulls command) integrity
  settle_goal old draft source op achieved_at

unfoldable pub update_goal_body : GoalUpdate → ActionContext → Action Goal
unfolding examine_goal_update apply_goal_update
update_goal_body command ctx = do
  (row, target_date_type) ← query (examine_goal_update command)
  op ← operation ctx
  apply_goal_update (record command { target_date_type = target_date_type }) ctx.source row op

-- `update_goal`.
unfoldable pub update_goal : GoalUpdate → ActionContext → Action Goal
unfolding update_goal_body
update_goal command ctx = atomic_domain_action (update_goal_body command ctx)

-- The update of an assessment.
abbrev pub assessed_goal : Assessment → GoalUpdate
assessed_goal command = record {
  entity_id = command.entity_id;
  title = unset;
  description = unset;
  status = unset;
  importance = sent (some command.importance);
  target_date = unset;
  target_date_type = unset;
  parent_goal_id = unset;
}

unfoldable pub assess_goal_body : Assessment → Option Source → Action Goal
unfolding update_goal check_goal_update
assess_goal_body command evidence = do
  inference ←
      assistant_inference_source command.confidence command.reason_summary (evidence_of evidence)
  update ← query λ db. check_goal_update (assessed_goal command)
  update_goal update (inferred_by inference "Elowyn goal importance assessment")

-- `assess_goal`.
unfoldable pub assess_goal : Assessment → Option Source → Action Goal
unfolding assess_goal_body
assess_goal command evidence = atomic_domain_action (assess_goal_body command evidence)

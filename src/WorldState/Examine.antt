-- ===== src/WorldState/Examine.antt =====
-- services/world_state.py: the checks that an operation makes before it writes.
use elowyn_assist.Common.{ℕ, not, Option, none, some, ◌==◌, distinct}
use elowyn_assist.Domain.Enums.{DeadlineType, EntityType, DecisionStatus, same_decision_status}
use elowyn_assist.Domain.Errors.{
  Result, ok, invalid, superseding_not_active, superseded_not_active, raise_if, ◌>>=◌, ◌>>◌,
}
use elowyn_assist.Domain.Commands.{TaskCreate, ProjectCreate, GoalCreate, DecisionCreate}
use elowyn_assist.Domain.Commands.Fields.{Sent, unset, sent}
use elowyn_assist.Domain.Commands.Updates.{TaskUpdate, ProjectUpdate, GoalUpdate}
use elowyn_assist.Db.Rows.{Entity}
use elowyn_assist.Db.World.{Task, Project, Goal, Decision}
use elowyn_assist.Db.Store.{Db}
use elowyn_assist.WorldState.Guards.{
  active_task, active_project, active_goal, active_decision, active_entity, if_given, check_goals,
  check_prerequisites,
}
use elowyn_assist.WorldState.Hierarchy.{check_task_parent, check_project_parent, check_goal_parent}
use elowyn_assist.WorldState.Completion.{effective_type}

-- The lookups of `create_task`.
unfoldable pub examine_task : TaskCreate → Db → Result (Unit {0})
unfolding active_task active_project check_goals check_prerequisites
examine_task command db = do
  if_given active_task command.parent_task_id db
  if_given active_project command.primary_project_id db
  check_goals (distinct ◌==◌ command.goal_ids) db
  check_prerequisites (distinct ◌==◌ command.prerequisite_task_ids) db

-- Those of `create_project` and `create_goal`.
unfoldable pub examine_project : ProjectCreate → Db → Result (Unit {0})
unfolding active_project check_goals
examine_project command db = do
  if_given active_project command.parent_project_id db
  check_goals (distinct ◌==◌ command.goal_ids) db

unfoldable pub examine_goal : GoalCreate → Db → Result (Unit {0})
unfolding active_goal
examine_goal command db = if_given active_goal command.parent_goal_id db

-- A check of a field that is made if the field was sent.
abbrev pub if_sent {ℓ} :
    {A : Type ℓ} → (Option A → Db → Result (Unit {0})) → Sent A → Db → Result (Unit {0})
if_sent check unset db = ok tt
if_sent check (sent value) db = check value db

-- The checks of `update_task`: the row, and the type of the deadline to set.
unfoldable pub examine_task_update : TaskUpdate → Db → Result (Task × Sent DeadlineType)
unfolding active_task active_project check_task_parent effective_type
examine_task_update c db = do
  task ← active_task c.entity_id db
  if_sent (check_task_parent c.entity_id) c.parent_task_id db
  if_sent (if_given active_project) c.primary_project_id db
  type ← effective_type c.deadline_type c.deadline_at task.deadline_type task.deadline_at
  ok (task, type)

unfoldable pub examine_project_update : ProjectUpdate → Db → Result (Project × Sent DeadlineType)
unfolding active_project check_project_parent effective_type
examine_project_update c db = do
  project ← active_project c.entity_id db
  if_sent (check_project_parent c.entity_id) c.parent_project_id db
  type ←
      effective_type c.target_date_type c.target_date project.target_date_type project.target_date
  ok (project, type)

unfoldable pub examine_goal_update : GoalUpdate → Db → Result (Goal × Sent DeadlineType)
unfolding active_goal check_goal_parent effective_type
examine_goal_update c db = do
  goal ← active_goal c.entity_id db
  if_sent (check_goal_parent c.entity_id) c.parent_goal_id db
  type ← effective_type c.target_date_type c.target_date goal.target_date_type goal.target_date
  ok (goal, type)

-- The decision that a new one supersedes: both must be active.
unfoldable pub superseded_decision : DecisionStatus → ℕ → Db → Result (Decision × Entity)
unfolding active_decision active_entity
superseded_decision status i db = do
  raise_if (not (same_decision_status status DecisionStatus.active))
      (invalid superseding_not_active)
  old ← active_decision i db
  raise_if (not (same_decision_status old.status DecisionStatus.active))
      (invalid superseded_not_active)
  entity ← active_entity i (some EntityType.decision) db
  ok (old, entity)

-- The checks of `create_decision`.
unfoldable pub examine_decision : DecisionCreate → Db → Result (Option (Decision × Entity))
unfolding superseded_decision
examine_decision c db = elim c.supersedes_decision_id [
  | none ↦ ok none
  | some i ↦ superseded_decision c.status i db >>= λ found. ok (some found)
]

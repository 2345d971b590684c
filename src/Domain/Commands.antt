-- ===== src/Domain/Commands.antt =====
-- domain/commands.py: the commands that create and change the canonical world state, and their
-- validators. Pydantic checks the fields before the model, and reports every field that fails: here
-- the first one is the error. Integers that the fields bound from below by zero are natural numbers.
pub mod Fields
pub mod Updates
pub mod Assessments
use elowyn_assist.Common.{ℕ, Bool, Option, none, some, List, [], ◌∷◌, ◌&&◌, ◌==◌, is_none, is_some}
use elowyn_assist.Common.Text.{Text}
use elowyn_assist.Domain.Enums.{
  DeadlineType, DecisionStatus, GoalStatus, ProjectStatus, RelationType, TaskStatus,
}
use elowyn_assist.Domain.Errors.{
  Result, ok, err, value_error, self_reference, type_without_date, ◌>>=◌, ◌>>◌, raise_if,
}
use elowyn_assist.Domain.Commands.Fields.{bounded_text, nonempty_text, rating}

pub record TaskCreate : Type 0 where
  pub title : Text
  pub description : Option Text
  pub status : TaskStatus
  pub importance : Option ℕ
  pub deadline_at : Option ℕ
  pub deadline_type : Option DeadlineType
  pub estimated_duration_minutes : Option ℕ
  pub parent_task_id : Option ℕ
  pub primary_project_id : Option ℕ
  pub auto_complete_from_children : Bool
  pub goal_ids : List ℕ
  pub prerequisite_task_ids : List ℕ

pub record ProjectCreate : Type 0 where
  pub name : Text
  pub description : Option Text
  pub status : ProjectStatus
  pub importance : Option ℕ
  pub target_date : Option ℕ
  pub target_date_type : Option DeadlineType
  pub parent_project_id : Option ℕ
  pub goal_ids : List ℕ

pub record SuccessCriterionCreate : Type 0 where
  pub description : Text

pub record GoalCreate : Type 0 where
  pub title : Text
  pub description : Option Text
  pub status : GoalStatus
  pub importance : Option ℕ
  pub target_date : Option ℕ
  pub target_date_type : Option DeadlineType
  pub parent_goal_id : Option ℕ
  pub success_criteria : List SuccessCriterionCreate

pub record DecisionAlternativeCreate : Type 0 where
  pub option_text : Text
  pub rejection_summary : Option Text

pub record DecisionCreate : Type 0 where
  pub title : Text
  pub description : Option Text
  pub chosen_option : Text
  pub reasoning_summary : Option Text
  pub status : DecisionStatus
  pub supersedes_decision_id : Option ℕ
  pub alternatives : List DecisionAlternativeCreate

pub record DecisionRevoke : Type 0 where
  pub entity_id : ℕ
  pub reason_summary : Option Text

pub record TaskGoalLinkCreate : Type 0 where
  pub task_id : ℕ
  pub goal_id : ℕ

pub record ProjectGoalLinkCreate : Type 0 where
  pub project_id : ℕ
  pub goal_id : ℕ

pub record TaskDependencyCreate : Type 0 where
  pub prerequisite_task_id : ℕ
  pub dependent_task_id : ℕ

pub record EntityRelationCreate : Type 0 where
  pub source_entity_id : ℕ
  pub target_entity_id : ℕ
  pub relation_type : RelationType

-- `deadline_type_requires_date` and `target_type_requires_date`.
unfoldable pub type_requires_date : Option DeadlineType → Option ℕ → Result (Unit {0})
type_requires_date type date =
    raise_if (is_some type && is_none date) (value_error type_without_date)

unfoldable pub check_task_create : TaskCreate → Result TaskCreate
unfolding bounded_text rating type_requires_date
check_task_create command = do
  bounded_text 500 command.title
  rating command.importance
  type_requires_date command.deadline_type command.deadline_at
  ok command

unfoldable pub check_project_create : ProjectCreate → Result ProjectCreate
unfolding bounded_text rating type_requires_date
check_project_create command = do
  bounded_text 500 command.name
  rating command.importance
  type_requires_date command.target_date_type command.target_date
  ok command

unfoldable pub check_criteria : List SuccessCriterionCreate → Result (Unit {0})
unfolding nonempty_text
check_criteria [] = ok tt
check_criteria (c ∷ cs) = nonempty_text c.description >> check_criteria cs

unfoldable pub check_goal_create : GoalCreate → Result GoalCreate
unfolding bounded_text rating check_criteria type_requires_date
check_goal_create command = do
  bounded_text 500 command.title
  rating command.importance
  check_criteria command.success_criteria
  type_requires_date command.target_date_type command.target_date
  ok command

unfoldable pub check_alternatives : List DecisionAlternativeCreate → Result (Unit {0})
unfolding nonempty_text
check_alternatives [] = ok tt
check_alternatives (a ∷ rest) = nonempty_text a.option_text >> check_alternatives rest

unfoldable pub check_decision_create : DecisionCreate → Result DecisionCreate
unfolding bounded_text nonempty_text check_alternatives
check_decision_create command = do
  bounded_text 500 command.title
  nonempty_text command.chosen_option
  check_alternatives command.alternatives
  ok command

-- `TaskDependencyCreate.no_self_dependency`.
unfoldable pub check_task_dependency : TaskDependencyCreate → Result TaskDependencyCreate
check_task_dependency command =
    raise_if (command.prerequisite_task_id == command.dependent_task_id)
      (value_error self_reference)
    >> ok command

-- `EntityRelationCreate.no_self_relation`.
unfoldable pub check_relation : EntityRelationCreate → Result EntityRelationCreate
check_relation command =
    raise_if (command.source_entity_id == command.target_entity_id) (value_error self_reference)
    >> ok command

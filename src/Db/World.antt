-- ===== src/Db/World.antt =====
-- db/models.py: the tables of the canonical world state.
use elowyn_assist.Common.{ℕ, Bool, Option, List, []}
use elowyn_assist.Common.Text.{Text}
use elowyn_assist.Common.Float.{Float}
use elowyn_assist.Domain.Enums.{
  TaskStatus, ProjectStatus, GoalStatus, DecisionStatus, SuccessCriterionStatus, DeadlineType,
  RelationType,
}

pub record Task : Type 0 where
  pub entity_id : ℕ
  pub title : Text
  pub description : Option Text
  pub status : TaskStatus
  pub importance : Option ℕ
  pub importance_source_id : Option ℕ
  pub deadline_at : Option ℕ
  pub deadline_type : Option DeadlineType
  pub estimated_duration_minutes : Option ℕ
  pub estimate_source_id : Option ℕ
  pub parent_task_id : Option ℕ
  pub primary_project_id : Option ℕ
  pub auto_complete_from_children : Bool
  pub completed_at : Option ℕ

pub record Project : Type 0 where
  pub entity_id : ℕ
  pub name : Text
  pub description : Option Text
  pub status : ProjectStatus
  pub importance : Option ℕ
  pub importance_source_id : Option ℕ
  pub target_date : Option ℕ
  pub target_date_type : Option DeadlineType
  pub parent_project_id : Option ℕ
  pub current_summary : Option Text
  pub current_summary_updated_at : Option ℕ
  pub completed_at : Option ℕ

pub record Goal : Type 0 where
  pub entity_id : ℕ
  pub title : Text
  pub description : Option Text
  pub status : GoalStatus
  pub importance : Option ℕ
  pub importance_source_id : Option ℕ
  pub target_date : Option ℕ
  pub target_date_type : Option DeadlineType
  pub parent_goal_id : Option ℕ
  pub achieved_at : Option ℕ

pub record SuccessCriterion : Type 0 where
  pub id : ℕ
  pub goal_id : ℕ
  pub description : Text
  pub status : SuccessCriterionStatus
  pub confidence : Option Float
  pub evaluation_summary : Option Text
  pub created_source_id : Option ℕ
  pub evaluation_source_id : Option ℕ

pub record Decision : Type 0 where
  pub entity_id : ℕ
  pub title : Text
  pub description : Option Text
  pub chosen_option : Text
  pub reasoning_summary : Option Text
  pub status : DecisionStatus
  pub supersedes_decision_id : Option ℕ

pub record DecisionAlternative : Type 0 where
  pub id : ℕ
  pub decision_id : ℕ
  pub option_text : Text
  pub rejection_summary : Option Text

pub record TaskGoalLink : Type 0 where
  pub task_id : ℕ
  pub goal_id : ℕ
  pub source_id : Option ℕ
  pub confidence : Option Float

pub record ProjectGoalLink : Type 0 where
  pub project_id : ℕ
  pub goal_id : ℕ
  pub source_id : Option ℕ
  pub confidence : Option Float

pub record TaskDependency : Type 0 where
  pub prerequisite_task_id : ℕ
  pub dependent_task_id : ℕ
  pub source_id : Option ℕ
  pub confidence : Option Float

pub record EntityRelation : Type 0 where
  pub id : ℕ
  pub source_entity_id : ℕ
  pub target_entity_id : ℕ
  pub relation_type : RelationType
  pub source_id : Option ℕ
  pub confidence : Option Float

pub record World : Type 0 where
  pub tasks : List Task
  pub projects : List Project
  pub goals : List Goal
  pub criteria : List SuccessCriterion
  pub decisions : List Decision
  pub alternatives : List DecisionAlternative
  pub task_goals : List TaskGoalLink
  pub project_goals : List ProjectGoalLink
  pub task_dependencies : List TaskDependency
  pub relations : List EntityRelation

abbrev pub empty_world : World
empty_world = record {
  tasks = [];
  projects = [];
  goals = [];
  criteria = [];
  decisions = [];
  alternatives = [];
  task_goals = [];
  project_goals = [];
  task_dependencies = [];
  relations = [];
}

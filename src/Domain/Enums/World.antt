-- ===== src/Domain/Enums/World.antt =====
-- The enumerations of domain/enums.py that belong to the canonical world state: each `StrEnum` as a data type,
-- with its stored value and the equality test that the services use.
use Prim.Native.Nat.{ℕ}
use Prim.Native.String.{String}
use mathlib.Core.Bool.{Bool}
use elowyn_assist.Common.{◌==◌}

pub data EntityType : Type 0 where
  task project goal decision plan strategy : EntityType

abbrev pub entity_type_value : EntityType → String
entity_type_value EntityType.task = "TASK"
entity_type_value EntityType.project = "PROJECT"
entity_type_value EntityType.goal = "GOAL"
entity_type_value EntityType.decision = "DECISION"
entity_type_value EntityType.plan = "PLAN"
entity_type_value EntityType.strategy = "STRATEGY"

abbrev entity_type_code : EntityType → ℕ
entity_type_code EntityType.task = 0
entity_type_code EntityType.project = 1
entity_type_code EntityType.goal = 2
entity_type_code EntityType.decision = 3
entity_type_code EntityType.plan = 4
entity_type_code EntityType.strategy = 5

abbrev pub same_entity_type : EntityType → EntityType → Bool
same_entity_type a b = entity_type_code a == entity_type_code b

pub data TaskStatus : Type 0 where
  todo in_progress blocked waiting done cancelled : TaskStatus

abbrev pub task_status_value : TaskStatus → String
task_status_value TaskStatus.todo = "TODO"
task_status_value TaskStatus.in_progress = "IN_PROGRESS"
task_status_value TaskStatus.blocked = "BLOCKED"
task_status_value TaskStatus.waiting = "WAITING"
task_status_value TaskStatus.done = "DONE"
task_status_value TaskStatus.cancelled = "CANCELLED"

abbrev task_status_code : TaskStatus → ℕ
task_status_code TaskStatus.todo = 0
task_status_code TaskStatus.in_progress = 1
task_status_code TaskStatus.blocked = 2
task_status_code TaskStatus.waiting = 3
task_status_code TaskStatus.done = 4
task_status_code TaskStatus.cancelled = 5

abbrev pub same_task_status : TaskStatus → TaskStatus → Bool
same_task_status a b = task_status_code a == task_status_code b

pub data ProjectStatus : Type 0 where
  planned active paused completed cancelled archived : ProjectStatus

abbrev pub project_status_value : ProjectStatus → String
project_status_value ProjectStatus.planned = "PLANNED"
project_status_value ProjectStatus.active = "ACTIVE"
project_status_value ProjectStatus.paused = "PAUSED"
project_status_value ProjectStatus.completed = "COMPLETED"
project_status_value ProjectStatus.cancelled = "CANCELLED"
project_status_value ProjectStatus.archived = "ARCHIVED"

abbrev project_status_code : ProjectStatus → ℕ
project_status_code ProjectStatus.planned = 0
project_status_code ProjectStatus.active = 1
project_status_code ProjectStatus.paused = 2
project_status_code ProjectStatus.completed = 3
project_status_code ProjectStatus.cancelled = 4
project_status_code ProjectStatus.archived = 5

abbrev pub same_project_status : ProjectStatus → ProjectStatus → Bool
same_project_status a b = project_status_code a == project_status_code b

pub data GoalStatus : Type 0 where
  active achieved paused abandoned : GoalStatus

abbrev pub goal_status_value : GoalStatus → String
goal_status_value GoalStatus.active = "ACTIVE"
goal_status_value GoalStatus.achieved = "ACHIEVED"
goal_status_value GoalStatus.paused = "PAUSED"
goal_status_value GoalStatus.abandoned = "ABANDONED"

abbrev goal_status_code : GoalStatus → ℕ
goal_status_code GoalStatus.active = 0
goal_status_code GoalStatus.achieved = 1
goal_status_code GoalStatus.paused = 2
goal_status_code GoalStatus.abandoned = 3

abbrev pub same_goal_status : GoalStatus → GoalStatus → Bool
same_goal_status a b = goal_status_code a == goal_status_code b

pub data DecisionStatus : Type 0 where
  active superseded revoked : DecisionStatus

abbrev pub decision_status_value : DecisionStatus → String
decision_status_value DecisionStatus.active = "ACTIVE"
decision_status_value DecisionStatus.superseded = "SUPERSEDED"
decision_status_value DecisionStatus.revoked = "REVOKED"

abbrev decision_status_code : DecisionStatus → ℕ
decision_status_code DecisionStatus.active = 0
decision_status_code DecisionStatus.superseded = 1
decision_status_code DecisionStatus.revoked = 2

abbrev pub same_decision_status : DecisionStatus → DecisionStatus → Bool
same_decision_status a b = decision_status_code a == decision_status_code b

pub data SuccessCriterionStatus : Type 0 where
  unknown in_progress met not_met : SuccessCriterionStatus

abbrev pub success_criterion_status_value : SuccessCriterionStatus → String
success_criterion_status_value SuccessCriterionStatus.unknown = "UNKNOWN"
success_criterion_status_value SuccessCriterionStatus.in_progress = "IN_PROGRESS"
success_criterion_status_value SuccessCriterionStatus.met = "MET"
success_criterion_status_value SuccessCriterionStatus.not_met = "NOT_MET"

abbrev success_criterion_status_code : SuccessCriterionStatus → ℕ
success_criterion_status_code SuccessCriterionStatus.unknown = 0
success_criterion_status_code SuccessCriterionStatus.in_progress = 1
success_criterion_status_code SuccessCriterionStatus.met = 2
success_criterion_status_code SuccessCriterionStatus.not_met = 3

abbrev pub same_success_criterion_status : SuccessCriterionStatus → SuccessCriterionStatus → Bool
same_success_criterion_status a b =
    success_criterion_status_code a == success_criterion_status_code b

pub data DeadlineType : Type 0 where
  soft hard : DeadlineType

abbrev pub deadline_type_value : DeadlineType → String
deadline_type_value DeadlineType.soft = "SOFT"
deadline_type_value DeadlineType.hard = "HARD"

abbrev deadline_type_code : DeadlineType → ℕ
deadline_type_code DeadlineType.soft = 0
deadline_type_code DeadlineType.hard = 1

abbrev pub same_deadline_type : DeadlineType → DeadlineType → Bool
same_deadline_type a b = deadline_type_code a == deadline_type_code b

pub data RelationType : Type 0 where
  related_to affects supports contradicts derived_from : RelationType

abbrev pub relation_type_value : RelationType → String
relation_type_value RelationType.related_to = "RELATED_TO"
relation_type_value RelationType.affects = "AFFECTS"
relation_type_value RelationType.supports = "SUPPORTS"
relation_type_value RelationType.contradicts = "CONTRADICTS"
relation_type_value RelationType.derived_from = "DERIVED_FROM"

abbrev relation_type_code : RelationType → ℕ
relation_type_code RelationType.related_to = 0
relation_type_code RelationType.affects = 1
relation_type_code RelationType.supports = 2
relation_type_code RelationType.contradicts = 3
relation_type_code RelationType.derived_from = 4

abbrev pub same_relation_type : RelationType → RelationType → Bool
same_relation_type a b = relation_type_code a == relation_type_code b

-- ===== src/Domain/Enums/Planning.antt =====
-- The enumerations of domain/enums.py that belong to planning: each `StrEnum` as a data type,
-- with its stored value and the equality test that the services use.
use Prim.Native.Nat.{ℕ}
use Prim.Native.String.{String}
use mathlib.Core.Bool.{Bool}
use elowyn_assist.Common.{◌==◌}

pub data PlanVersionStatus : Type 0 where
  candidate approved superseded rejected : PlanVersionStatus

abbrev pub plan_version_status_value : PlanVersionStatus → String
plan_version_status_value PlanVersionStatus.candidate = "CANDIDATE"
plan_version_status_value PlanVersionStatus.approved = "APPROVED"
plan_version_status_value PlanVersionStatus.superseded = "SUPERSEDED"
plan_version_status_value PlanVersionStatus.rejected = "REJECTED"

abbrev plan_version_status_code : PlanVersionStatus → ℕ
plan_version_status_code PlanVersionStatus.candidate = 0
plan_version_status_code PlanVersionStatus.approved = 1
plan_version_status_code PlanVersionStatus.superseded = 2
plan_version_status_code PlanVersionStatus.rejected = 3

abbrev pub same_plan_version_status : PlanVersionStatus → PlanVersionStatus → Bool
same_plan_version_status a b = plan_version_status_code a == plan_version_status_code b

pub data PlanGoalRole : Type 0 where
  primary supporting : PlanGoalRole

abbrev pub plan_goal_role_value : PlanGoalRole → String
plan_goal_role_value PlanGoalRole.primary = "PRIMARY"
plan_goal_role_value PlanGoalRole.supporting = "SUPPORTING"

abbrev plan_goal_role_code : PlanGoalRole → ℕ
plan_goal_role_code PlanGoalRole.primary = 0
plan_goal_role_code PlanGoalRole.supporting = 1

abbrev pub same_plan_goal_role : PlanGoalRole → PlanGoalRole → Bool
same_plan_goal_role a b = plan_goal_role_code a == plan_goal_role_code b

pub data PlanItemProgressStatus : Type 0 where
  not_started in_progress waiting blocked done skipped : PlanItemProgressStatus

abbrev pub plan_item_progress_status_value : PlanItemProgressStatus → String
plan_item_progress_status_value PlanItemProgressStatus.not_started = "NOT_STARTED"
plan_item_progress_status_value PlanItemProgressStatus.in_progress = "IN_PROGRESS"
plan_item_progress_status_value PlanItemProgressStatus.waiting = "WAITING"
plan_item_progress_status_value PlanItemProgressStatus.blocked = "BLOCKED"
plan_item_progress_status_value PlanItemProgressStatus.done = "DONE"
plan_item_progress_status_value PlanItemProgressStatus.skipped = "SKIPPED"

abbrev plan_item_progress_status_code : PlanItemProgressStatus → ℕ
plan_item_progress_status_code PlanItemProgressStatus.not_started = 0
plan_item_progress_status_code PlanItemProgressStatus.in_progress = 1
plan_item_progress_status_code PlanItemProgressStatus.waiting = 2
plan_item_progress_status_code PlanItemProgressStatus.blocked = 3
plan_item_progress_status_code PlanItemProgressStatus.done = 4
plan_item_progress_status_code PlanItemProgressStatus.skipped = 5

abbrev pub same_plan_item_progress_status : PlanItemProgressStatus → PlanItemProgressStatus → Bool
same_plan_item_progress_status a b =
    plan_item_progress_status_code a == plan_item_progress_status_code b

pub data PlanVersionBasisRole : Type 0 where
  goal task project decision strategy : PlanVersionBasisRole

abbrev pub plan_version_basis_role_value : PlanVersionBasisRole → String
plan_version_basis_role_value PlanVersionBasisRole.goal = "GOAL"
plan_version_basis_role_value PlanVersionBasisRole.task = "TASK"
plan_version_basis_role_value PlanVersionBasisRole.project = "PROJECT"
plan_version_basis_role_value PlanVersionBasisRole.decision = "DECISION"
plan_version_basis_role_value PlanVersionBasisRole.strategy = "STRATEGY"

abbrev plan_version_basis_role_code : PlanVersionBasisRole → ℕ
plan_version_basis_role_code PlanVersionBasisRole.goal = 0
plan_version_basis_role_code PlanVersionBasisRole.task = 1
plan_version_basis_role_code PlanVersionBasisRole.project = 2
plan_version_basis_role_code PlanVersionBasisRole.decision = 3
plan_version_basis_role_code PlanVersionBasisRole.strategy = 4

abbrev pub same_plan_version_basis_role : PlanVersionBasisRole → PlanVersionBasisRole → Bool
same_plan_version_basis_role a b = plan_version_basis_role_code a == plan_version_basis_role_code b

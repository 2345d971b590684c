-- ===== src/Db/Plans.antt =====
-- db/models.py: the tables of planning.
use elowyn_assist.Common.{ℕ, Option}
use elowyn_assist.Common.Text.{Text}
use elowyn_assist.Domain.Enums.{
  PlanVersionStatus, PlanGoalRole, PlanItemProgressStatus, PlanVersionBasisRole,
}

pub record Strategy : Type 0 where
  pub entity_id : ℕ
  pub approach : Text
  pub rationale : Option Text
  pub accepted_from_plan_version_id : ℕ
  pub accepted_source_id : ℕ
  pub accepted_at : ℕ

pub record Plan : Type 0 where
  pub entity_id : ℕ
  pub strategy_id : Option ℕ
  pub title : Text
  pub description : Option Text

pub record PlanGoalLink : Type 0 where
  pub plan_id : ℕ
  pub goal_id : ℕ
  pub role : PlanGoalRole
  pub source_id : ℕ

pub record PlanVersion : Type 0 where
  pub id : ℕ
  pub plan_id : ℕ
  pub version_number : ℕ
  pub status : PlanVersionStatus
  pub summary : Text
  pub rationale : Option Text
  pub proposed_strategy_snapshot : Text
  pub strategy_rationale_snapshot : Option Text
  pub based_on_version_id : Option ℕ
  pub created_source_id : ℕ
  pub approval_source_id : Option ℕ
  pub approved_at : Option ℕ

pub record PlanVersionItem : Type 0 where
  pub id : ℕ
  pub plan_version_id : ℕ
  pub ordinal : ℕ
  pub title : Text
  pub description : Option Text
  pub expected_outcome : Option Text
  pub deadline_at : Option ℕ
  pub estimated_duration_minutes : Option ℕ
  pub linked_task_id : Option ℕ

pub record PlanVersionItemDependency : Type 0 where
  pub plan_version_id : ℕ
  pub prerequisite_item_id : ℕ
  pub dependent_item_id : ℕ

pub record PlanItemProgress : Type 0 where
  pub plan_version_item_id : ℕ
  pub status : PlanItemProgressStatus
  pub note : Option Text
  pub source_id : ℕ
  pub updated_at : ℕ

pub record PlanVersionPresentation : Type 0 where
  pub id : ℕ
  pub plan_version_id : ℕ
  pub message_id : ℕ
  pub presented_at : ℕ

pub record PlanVersionBasis : Type 0 where
  pub plan_version_id : ℕ
  pub entity_id : ℕ
  pub event_id : ℕ
  pub role : PlanVersionBasisRole

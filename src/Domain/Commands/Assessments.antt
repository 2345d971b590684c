-- ===== src/Domain/Commands/Assessments.antt =====
-- domain/commands.py: the commands with which the assistant records what it infers.
use elowyn_assist.Common.{ℕ, not, ◌||◌, some, ◌==◌}
use elowyn_assist.Common.Text.{Text}
use elowyn_assist.Domain.Enums.{RelationType, SuccessCriterionStatus}
use elowyn_assist.Domain.Errors.{
  Result, ok, value_error, out_of_range, self_reference, nothing_changed, ◌>>◌, raise_if,
}
use elowyn_assist.Db.Rows.{Float, in_unit_interval}
use elowyn_assist.Domain.Commands.Fields.{Sent, is_sent, value_of, bounded_text, rating}

pub record TaskAssessment : Type 0 where
  pub entity_id : ℕ
  pub importance : Sent ℕ
  pub estimated_duration_minutes : Sent ℕ
  pub confidence : Float
  pub reason_summary : Text

pub record ProjectSummaryCacheUpdate : Type 0 where
  pub entity_id : ℕ
  pub summary : Text

-- `ProjectAssessment` and `GoalAssessment`, which have the same fields.
pub record Assessment : Type 0 where
  pub entity_id : ℕ
  pub importance : ℕ
  pub confidence : Float
  pub reason_summary : Text

pub record SuccessCriterionAssessment : Type 0 where
  pub criterion_id : ℕ
  pub status : SuccessCriterionStatus
  pub confidence : Float
  pub evaluation_summary : Text
  pub reason_summary : Text

pub record EntityRelationInference : Type 0 where
  pub source_entity_id : ℕ
  pub target_entity_id : ℕ
  pub relation_type : RelationType
  pub confidence : Float
  pub reason_summary : Text

-- `Field(ge=0, le=1)` and the reason that goes with it.
unfoldable pub check_inferred : Float → Text → Result (Unit {0})
unfolding bounded_text
check_inferred confidence reason_summary = do
  raise_if (not (in_unit_interval confidence)) (value_error out_of_range)
  bounded_text 2000 reason_summary

unfoldable pub check_task_assessment : TaskAssessment → Result TaskAssessment
unfolding rating check_inferred
check_task_assessment command = do
  rating (value_of command.importance)
  check_inferred command.confidence command.reason_summary
  raise_if (not (is_sent command.importance || is_sent command.estimated_duration_minutes))
      (value_error nothing_changed)
  ok command

unfoldable pub check_summary_update : ProjectSummaryCacheUpdate → Result ProjectSummaryCacheUpdate
unfolding bounded_text
check_summary_update command = bounded_text 12000 command.summary >> ok command

unfoldable pub check_assessment : Assessment → Result Assessment
unfolding rating check_inferred
check_assessment command = do
  rating (some command.importance)
  check_inferred command.confidence command.reason_summary
  ok command

unfoldable pub check_criterion_assessment :
    SuccessCriterionAssessment → Result SuccessCriterionAssessment
unfolding bounded_text check_inferred
check_criterion_assessment command = do
  raise_if (not (in_unit_interval command.confidence)) (value_error out_of_range)
  bounded_text 2000 command.evaluation_summary
  bounded_text 2000 command.reason_summary
  ok command

unfoldable pub check_relation_inference : EntityRelationInference → Result EntityRelationInference
unfolding check_inferred
check_relation_inference command = do
  check_inferred command.confidence command.reason_summary
  raise_if (command.source_entity_id == command.target_entity_id) (value_error self_reference)
  ok command

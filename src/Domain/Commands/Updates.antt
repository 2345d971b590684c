-- ===== src/Domain/Commands/Updates.antt =====
-- domain/commands.py: the commands that change fields.
use elowyn_assist.Common.{ℕ, Bool, true, false, not, ◌||◌, none, some}
use elowyn_assist.Common.Text.{Text}
use elowyn_assist.Domain.Enums.{
  DeadlineType, GoalStatus, ProjectStatus, TaskStatus, SuccessCriterionStatus,
}
use elowyn_assist.Domain.Errors.{
  Result, ok, value_error, blank, out_of_range, type_without_date, nothing_changed, null_status,
  ◌>>◌, raise_if,
}
use elowyn_assist.Db.Rows.{Float, in_unit_interval}
use elowyn_assist.Domain.Commands.Fields.{
  Sent, unset, sent, is_sent, value_of, optional_text, is_sent_blank, lacks_date, rating,
}

pub record TaskUpdate : Type 0 where
  pub entity_id : ℕ
  pub title : Sent Text
  pub description : Sent Text
  pub status : Sent TaskStatus
  pub importance : Sent ℕ
  pub deadline_at : Sent ℕ
  pub deadline_type : Sent DeadlineType
  pub estimated_duration_minutes : Sent ℕ
  pub parent_task_id : Sent ℕ
  pub primary_project_id : Sent ℕ
  pub auto_complete_from_children : Sent Bool

pub record ProjectUpdate : Type 0 where
  pub entity_id : ℕ
  pub name : Sent Text
  pub description : Sent Text
  pub status : Sent ProjectStatus
  pub importance : Sent ℕ
  pub target_date : Sent ℕ
  pub target_date_type : Sent DeadlineType
  pub parent_project_id : Sent ℕ

pub record GoalUpdate : Type 0 where
  pub entity_id : ℕ
  pub title : Sent Text
  pub description : Sent Text
  pub status : Sent GoalStatus
  pub importance : Sent ℕ
  pub target_date : Sent ℕ
  pub target_date_type : Sent DeadlineType
  pub parent_goal_id : Sent ℕ

pub record SuccessCriterionUpdate : Type 0 where
  pub criterion_id : ℕ
  pub description : Sent Text
  pub status : Sent SuccessCriterionStatus
  pub confidence : Sent Float
  pub evaluation_summary : Sent Text

-- `self.model_fields_set - {"entity_id"}` is not empty.
abbrev pub task_changes : TaskUpdate → Bool
task_changes c =
    is_sent c.title
    || is_sent c.description
    || is_sent c.status
    || is_sent c.importance
    || is_sent c.deadline_at
    || is_sent c.deadline_type
    || is_sent c.estimated_duration_minutes
    || is_sent c.parent_task_id
    || is_sent c.primary_project_id
    || is_sent c.auto_complete_from_children

abbrev pub project_changes : ProjectUpdate → Bool
project_changes c =
    is_sent c.name
    || is_sent c.description
    || is_sent c.status
    || is_sent c.importance
    || is_sent c.target_date
    || is_sent c.target_date_type
    || is_sent c.parent_project_id

abbrev pub goal_changes : GoalUpdate → Bool
goal_changes c =
    is_sent c.title
    || is_sent c.description
    || is_sent c.status
    || is_sent c.importance
    || is_sent c.target_date
    || is_sent c.target_date_type
    || is_sent c.parent_goal_id

abbrev pub criterion_changes : SuccessCriterionUpdate → Bool
criterion_changes c =
    is_sent c.description
    || is_sent c.status
    || is_sent c.confidence
    || is_sent c.evaluation_summary

-- `validate_update` of tasks, projects and goals: whether anything is sent, the text that must not
-- be blank, and the type of the date with the date.
unfoldable pub validate_update : Bool → Sent Text → Sent DeadlineType → Sent ℕ → Result (Unit {0})
validate_update changed text type date = do
  raise_if (not changed) (value_error nothing_changed)
  raise_if (is_sent_blank text) (value_error blank)
  raise_if (lacks_date type date) (value_error type_without_date)

unfoldable pub check_task_update : TaskUpdate → Result TaskUpdate
unfolding optional_text rating validate_update
check_task_update command = do
  optional_text 500 command.title
  rating (value_of command.importance)
  validate_update (task_changes command) command.title command.deadline_type command.deadline_at
  ok command

unfoldable pub check_project_update : ProjectUpdate → Result ProjectUpdate
unfolding optional_text rating validate_update
check_project_update command = do
  optional_text 500 command.name
  rating (value_of command.importance)
  validate_update (project_changes command) command.name command.target_date_type
      command.target_date
  ok command

unfoldable pub check_goal_update : GoalUpdate → Result GoalUpdate
unfolding optional_text rating validate_update
check_goal_update command = do
  optional_text 500 command.title
  rating (value_of command.importance)
  validate_update (goal_changes command) command.title command.target_date_type command.target_date
  ok command

-- The bounds of an optional confidence.
unfoldable pub optional_confidence : Sent Float → Result (Unit {0})
optional_confidence unset = ok tt
optional_confidence (sent none) = ok tt
optional_confidence (sent (some x)) = raise_if (not (in_unit_interval x)) (value_error out_of_range)

abbrev pub is_null {ℓ} : {A : Type ℓ} → Sent A → Bool
is_null unset = false
is_null (sent none) = true
is_null (sent (some value)) = false

-- `SuccessCriterionUpdate`.
unfoldable pub check_criterion_update : SuccessCriterionUpdate → Result SuccessCriterionUpdate
unfolding optional_confidence
check_criterion_update command = do
  optional_confidence command.confidence
  raise_if (not (criterion_changes command)) (value_error nothing_changed)
  raise_if (is_sent_blank command.description) (value_error blank)
  raise_if (is_null command.status) (value_error null_status)
  ok command

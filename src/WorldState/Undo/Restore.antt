-- ===== src/WorldState/Undo/Restore.antt =====
-- services/world_state.py: `_restore_value`, and one step of the loop that sets the old values.
use Prim.Native.String.{String}
use elowyn_assist.Common.{ℕ, Bool, Option, none, some, List, [], ◌∷◌, ◌++◌, find, same_string}
use elowyn_assist.Common.Text.{Text}
use elowyn_assist.Common.Float.{Float}
use elowyn_assist.Common.Json.{Json, null, flag, number, uuid, name, time, real, string}
use elowyn_assist.Domain.Enums.{
  TaskStatus, task_status_value, ProjectStatus, project_status_value, GoalStatus, goal_status_value,
  SuccessCriterionStatus, success_criterion_status_value, DeadlineType, deadline_type_value,
}
use elowyn_assist.Domain.Errors.{
  Result, ok, err, value_error, unknown_value, integrity, or_raise, ◌>>=◌,
}
use elowyn_assist.Db.Rows.{Change}
use elowyn_assist.Db.World.{World, Task, Project, Goal, SuccessCriterion}
use elowyn_assist.WorldState.Guards.{put_task, put_project, put_goal, put_criterion}
use elowyn_assist.Mutation.{change}
use elowyn_assist.WorldState.Fields.{Draft}

-- The row that an undo restores.
pub data Restored : Type 0 where
  task : Task → Restored
  project : Project → Restored
  goal : Goal → Restored
  criterion : SuccessCriterion → Restored

unfoldable pub put_restored : Restored → World → World
put_restored (Restored.task row) = put_task row
put_restored (Restored.project row) = put_project row
put_restored (Restored.goal row) = put_goal row
put_restored (Restored.criterion row) = put_criterion row

-- The restored row, to which entity's event stream the undo belongs, and what it records.
pub record Restoration : Type 0 where
  pub row : Restored
  pub entity_id : ℕ
  pub changes : List Change

-- A value of the wrong kind, which no event of an update holds, is refused by the database.
abbrev pub text_of : Json → Result Text
text_of (string t) = ok t
text_of value = err integrity

abbrev pub number_of : Json → Result ℕ
number_of (number n) = ok n
number_of value = err integrity

abbrev pub flag_of : Json → Result Bool
flag_of (flag b) = ok b
flag_of value = err integrity

abbrev pub real_of : Json → Result Float
real_of (real x) = ok x
real_of value = err integrity

-- `uuid.UUID(value)` and `datetime.fromisoformat(value)`.
abbrev pub uuid_of : Json → Result ℕ
uuid_of (uuid i) = ok i
uuid_of value = err (value_error unknown_value)

abbrev pub time_of : Json → Result ℕ
time_of (time t) = ok t
time_of value = err (value_error unknown_value)

-- `enum_fields[field](value)`: the member with the stored value.
unfoldable pub member_of {ℓ} : {A : Type ℓ} → (A → String) → List A → Json → Result A
member_of value members (name w) =
    or_raise (value_error unknown_value) (find (λ a. same_string (value a) w) members)
member_of value members j = err (value_error unknown_value)

unfoldable pub task_status_of : Json → Result TaskStatus
unfolding member_of
task_status_of = member_of task_status_value (
    TaskStatus.todo ∷ TaskStatus.in_progress ∷ TaskStatus.blocked ∷ TaskStatus.waiting
    ∷ TaskStatus.done ∷ TaskStatus.cancelled ∷ [])

unfoldable pub project_status_of : Json → Result ProjectStatus
unfolding member_of
project_status_of = member_of project_status_value (
    ProjectStatus.planned ∷ ProjectStatus.active ∷ ProjectStatus.paused ∷ ProjectStatus.completed
    ∷ ProjectStatus.cancelled ∷ ProjectStatus.archived ∷ [])

unfoldable pub goal_status_of : Json → Result GoalStatus
unfolding member_of
goal_status_of =
    member_of goal_status_value
      (GoalStatus.active ∷ GoalStatus.achieved ∷ GoalStatus.paused ∷ GoalStatus.abandoned ∷ [])

unfoldable pub criterion_status_of : Json → Result SuccessCriterionStatus
unfolding member_of
criterion_status_of = member_of success_criterion_status_value (
    SuccessCriterionStatus.unknown ∷ SuccessCriterionStatus.in_progress ∷ SuccessCriterionStatus.met
    ∷ SuccessCriterionStatus.not_met ∷ [])

unfoldable pub deadline_type_of : Json → Result DeadlineType
unfolding member_of
deadline_type_of = member_of deadline_type_value (DeadlineType.soft ∷ DeadlineType.hard ∷ [])

-- `_restore_value`: `None` stays `None`.
abbrev pub nullable {ℓ} : {A : Type ℓ} → (Json → Result A) → Json → Result (Option A)
nullable parse null = ok none
nullable parse value = parse value >>= λ a. ok (some a)

-- One step of the loop: the column is set to the old value, and the change is recorded.
unfoldable pub recover {ℓ κ} :
    {R : Type ℓ} {A : Type κ}
    → String
    → (Json → Result A)
    → (A → Json)
    → (R → A)
    → (A → R → R)
    → Json
    → Draft R
    → Result (Draft R)
recover column parse dump get set old (row, changes) =
    parse old >>= λ a. ok (set a row, changes ++ change column (dump (get row)) (dump a) ∷ [])

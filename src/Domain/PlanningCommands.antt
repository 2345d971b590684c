-- ===== src/Domain/PlanningCommands.antt =====
-- domain/planning_commands.py: the commands of planning and their validators. A command's record
-- holds the values as they were sent; its check gives the validated command. Pydantic runs the
-- checks of the fields before the check of the model, and reports every field that fails: here the
-- first one is the error. Integers that the fields bound from below by zero are natural numbers.
pub mod Exact
use elowyn_assist.Common.{
  ℕ, Bool, true, not, ◌&&◌, ◌||◌, Option, none, some, List, [], ◌∷◌, map, ltb, ◌==◌, if◌then◌else◌,
  length, count, member, contains, all_distinct,
}
use elowyn_assist.Common.Text.{Text, strip, is_empty}
use elowyn_assist.Domain.Enums.{
  PlanGoalRole, same_plan_goal_role, PlanItemProgressStatus, PlanVersionBasisRole,
  same_plan_version_basis_role,
}
use elowyn_assist.Domain.Errors.{
  Result, ok, err, value_error, out_of_range, blank, duplicate_goals, several_primary_goals,
  self_reference, duplicate_items, duplicate_ordinals, duplicate_dependencies, unknown_item,
  duplicate_basis, duplicate_evidence, ◌>>=◌, ◌>>◌, raise_if,
}
use elowyn_assist.Db.Rows.{Float, in_unit_interval}

pub record PlanGoalLinkCreate : Type 0 where
  pub goal_id : ℕ
  pub role : PlanGoalRole

pub record PlanCreate : Type 0 where
  pub title : Text
  pub description : Option Text
  pub goals : List PlanGoalLinkCreate

pub record PlanVersionItemCreate : Type 0 where
  pub id : ℕ
  pub ordinal : ℕ
  pub title : Text
  pub description : Option Text
  pub expected_outcome : Option Text
  pub deadline_at : Option ℕ
  pub estimated_duration_minutes : Option ℕ
  pub linked_task_id : Option ℕ

pub record PlanVersionItemDependencyCreate : Type 0 where
  pub prerequisite_item_id : ℕ
  pub dependent_item_id : ℕ

pub record PlanVersionBasisCreate : Type 0 where
  pub entity_id : ℕ
  pub event_id : ℕ
  pub role : PlanVersionBasisRole

pub record PlanCandidateCreate : Type 0 where
  pub plan_id : ℕ
  pub summary : Text
  pub rationale : Option Text
  pub proposed_strategy_snapshot : Text
  pub strategy_rationale_snapshot : Option Text
  pub based_on_version_id : Option ℕ
  pub items : List PlanVersionItemCreate
  pub dependencies : List PlanVersionItemDependencyCreate
  pub basis : List PlanVersionBasisCreate
  pub evidence_source_ids : List ℕ
  pub inference_confidence : Float
  pub inference_reason_summary : Text

pub record PlanVersionPresentationCreate : Type 0 where
  pub plan_version_id : ℕ
  pub message_id : ℕ

-- `PlanCandidateReject`, `PlanVersionApprove` and `HistoricalPlanVersionReactivate`.
pub record PlanVersionCommand : Type 0 where
  pub plan_version_id : ℕ

pub record PlanItemProgressUpdate : Type 0 where
  pub plan_version_item_id : ℕ
  pub status : PlanItemProgressStatus
  pub note : Option Text

-- A `str` field with `max_length`, whose validator refuses a blank value and strips it.
unfoldable pub required_text : ℕ → Text → Result Text
required_text limit value =
    if ltb limit (length value)
    then err (value_error out_of_range)
    else if is_empty (strip value)
    then err (value_error blank)
    else ok (strip value)

-- The same with no `max_length`.
unfoldable pub unbounded_text : Text → Result Text
unbounded_text value = if is_empty (strip value) then err (value_error blank) else ok (strip value)

abbrev pub is_primary : PlanGoalLinkCreate → Bool
is_primary link = same_plan_goal_role link.role PlanGoalRole.primary

-- `PlanCreate.unique_goals_and_primary`.
unfoldable pub unique_goals_and_primary : List PlanGoalLinkCreate → Result (Unit {0})
unique_goals_and_primary goals = do
  raise_if (not (all_distinct ◌==◌ (map (λ g. g.goal_id) goals))) (value_error duplicate_goals)
  raise_if (ltb 1 (count is_primary goals)) (value_error several_primary_goals)

unfoldable pub check_plan_create : PlanCreate → Result PlanCreate
unfolding required_text unique_goals_and_primary
check_plan_create command = do
  title ← required_text 500 command.title
  unique_goals_and_primary command.goals
  ok (record command { title = title })

-- The bound `gt=0` of an optional field.
abbrev pub optional_positive : Option ℕ → Bool
optional_positive none = true
optional_positive (some n) = ltb 0 n

unfoldable pub check_item : PlanVersionItemCreate → Result PlanVersionItemCreate
unfolding required_text
check_item item = do
  raise_if (not (ltb 0 item.ordinal)) (value_error out_of_range)
  title ← required_text 500 item.title
  raise_if (not (optional_positive item.estimated_duration_minutes)) (value_error out_of_range)
  ok (record item { title = title })

unfoldable pub check_items : List PlanVersionItemCreate → Result (List PlanVersionItemCreate)
unfolding check_item
check_items [] = ok []
check_items (item ∷ items) = do
  item' ← check_item item
  items' ← check_items items
  ok (item' ∷ items')

-- `no_self_dependency` of every dependency.
unfoldable pub check_dependencies : List PlanVersionItemDependencyCreate → Result (Unit {0})
check_dependencies [] = ok tt
check_dependencies (d ∷ ds) =
    raise_if (d.prerequisite_item_id == d.dependent_item_id) (value_error self_reference)
    >> check_dependencies ds

abbrev pub Edge : Type 0
Edge = ℕ × ℕ

abbrev pub same_edge : Edge → Edge → Bool
same_edge (a, b) (c, d) = a == c && b == d

abbrev pub edge_of : PlanVersionItemDependencyCreate → Edge
edge_of d = (d.prerequisite_item_id, d.dependent_item_id)

-- The loop of `validate_graph_references` over the dependencies, with the edges seen so far.
unfoldable pub check_edges : List ℕ → List Edge → List Edge → Result (Unit {0})
check_edges known seen [] = ok tt
check_edges known seen (e ∷ es) =
    raise_if (member same_edge e seen) (value_error duplicate_dependencies)
    >> raise_if (not (contains e.0 known) || not (contains e.1 known)) (value_error unknown_item)
    >> check_edges known (e ∷ seen) es

abbrev pub same_basis : PlanVersionBasisCreate → PlanVersionBasisCreate → Bool
same_basis a b =
    a.entity_id == b.entity_id
    && a.event_id == b.event_id
    && same_plan_version_basis_role a.role b.role

-- `PlanCandidateCreate.validate_graph_references`.
unfoldable pub validate_graph_references : PlanCandidateCreate → Result (Unit {0})
unfolding check_edges
validate_graph_references command = do
  let item_ids = map (λ (item : PlanVersionItemCreate). item.id) command.items
  raise_if (not (all_distinct ◌==◌ item_ids)) (value_error duplicate_items)
  let ordinals = map (λ (item : PlanVersionItemCreate). item.ordinal) command.items
  raise_if (not (all_distinct ◌==◌ ordinals)) (value_error duplicate_ordinals)
  check_edges item_ids [] (map edge_of command.dependencies)
  raise_if (not (all_distinct same_basis command.basis)) (value_error duplicate_basis)
  raise_if (not (all_distinct ◌==◌ command.evidence_source_ids)) (value_error duplicate_evidence)

unfoldable pub check_candidate : PlanCandidateCreate → Result PlanCandidateCreate
unfolding required_text unbounded_text check_items check_dependencies validate_graph_references
check_candidate command = do
  summary ← unbounded_text command.summary
  strategy ← unbounded_text command.proposed_strategy_snapshot
  items ← check_items command.items
  check_dependencies command.dependencies
  raise_if (not (in_unit_interval command.inference_confidence)) (value_error out_of_range)
  reason ← required_text 2000 command.inference_reason_summary
  let checked : PlanCandidateCreate = record command {
    summary = summary;
    proposed_strategy_snapshot = strategy;
    items = items;
    inference_reason_summary = reason;
  }
  validate_graph_references checked
  ok checked

-- `PlanItemProgressUpdate`: the bound on the note.
unfoldable pub check_progress_update : PlanItemProgressUpdate → Result PlanItemProgressUpdate
check_progress_update command = elim command.note [
  | none ↦ ok command
  | some note ↦ raise_if (ltb 4000 (length note)) (value_error out_of_range) >> ok command
]

-- ===== src/Planning/Candidates.antt =====
-- services/planning.py: the writes of `create_candidate_version`.
pub mod Invariant
pub mod Log
pub mod Number
pub mod Created
pub mod Effect
use elowyn_assist.Common.{
  ℕ, suc, ◌+◌, Bool, true, false, not, ◌&&◌, ◌||◌, Option, none, some, List, [], ◌∷◌, ◌++◌, map,
  filter, find, ◌==◌, ltb, leb, if◌then◌else◌, is_id, contains, distinct,
}
use elowyn_assist.Common.Text.{Text, text, is_empty}
use elowyn_assist.Common.Json.{Json, null, uuid, number, name, object, end, field}
use elowyn_assist.Domain.Enums.{
  ActorType, EntityType, EventType, PlanVersionStatus, PlanVersionBasisRole,
  same_plan_version_basis_role,
}
use elowyn_assist.Domain.Errors.{
  Result, ok, err, invalid, not_found, Kind, foreign_base_version, goal_without_event,
  evidence_missing, key_error, or_raise, raise_if,
}
use elowyn_assist.Domain.PlanningCommands.{
  PlanCandidateCreate, PlanVersionItemCreate, PlanVersionItemDependencyCreate,
  PlanVersionBasisCreate, edge_of,
}
use elowyn_assist.Db.Rows.{Source, Operation, Event}
use elowyn_assist.Db.Plans.{
  Plan, PlanGoalLink, PlanVersion, PlanVersionItem, PlanVersionItemDependency, PlanVersionBasis,
}
use elowyn_assist.Db.Store.{Db}
use elowyn_assist.Mutation.{
  Action, pure, query, write, new_id, ◌>>=◌, ◌>>◌, scalar_one_or_none, atomic_domain_action,
  ActionContext, change, operation, append_event, assistant_inference_source,
}
use elowyn_assist.Planning.Guards.{
  active_typed_entity, plan_by_id, get_version, get_source, expected_type, event_of_entity,
}
use elowyn_assist.Planning.Graph.{assert_acyclic}
use elowyn_assist.Planning.Basis.{examine_candidate, dependency_rows}
use elowyn_assist.Planning.Rows.{put_version, of_status}

-- `ctx.description or "..."`.
abbrev described : Option Text → Option Text
described none = some (text "Elowyn candidate PlanVersion synthesis")
described (some t) =
    if is_empty t then some (text "Elowyn candidate PlanVersion synthesis") else some t

unfoldable pub retire_candidate : Plan → Source → Operation → Option PlanVersion → Action (Unit {0})
retire_candidate plan inference op none = pure tt
retire_candidate plan inference op (some current) = do
  write (put_version (record current { status = PlanVersionStatus.superseded }))
  append_event op EventType.plan_version_superseded (some plan.entity_id) (some inference)
      (change "version_status" (name "CANDIDATE") (name "SUPERSEDED") ∷ [])
  pure tt

-- `coalesce(max(version_number), 0)` over the versions of a plan.
unfoldable pub max_number : ℕ → List PlanVersion → ℕ
max_number plan_id [] = 0
max_number plan_id (v ∷ vs) =
    let rest = max_number plan_id vs in
    if v.plan_id == plan_id && ltb rest v.version_number then v.version_number else rest

-- The items with new identifiers, and which identifier each temporary handle has got.
unfoldable pub persist_items : ℕ → List PlanVersionItemCreate → Action (List (ℕ × ℕ))
persist_items version_id [] = pure []
persist_items version_id (item ∷ items) = do
  i ← new_id
  let row : PlanVersionItem = record {
    id = i;
    plan_version_id = version_id;
    ordinal = item.ordinal;
    title = item.title;
    description = item.description;
    expected_outcome = item.expected_outcome;
    deadline_at = item.deadline_at;
    estimated_duration_minutes = item.estimated_duration_minutes;
    linked_task_id = item.linked_task_id;
  }
  write λ db. record db { items = db.items ++ row ∷ [] }
  more ← persist_items version_id items
  pure ((item.id, i) ∷ more)

abbrev pub basis_row : ℕ → PlanVersionBasisCreate → PlanVersionBasis
basis_row version_id b = record {
  plan_version_id = version_id;
  entity_id = b.entity_id;
  event_id = b.event_id;
  role = b.role;
}

abbrev pub new_version : ℕ → ℕ → ℕ → PlanCandidateCreate → ℕ → PlanVersion
new_version i plan_id n command source_id = record {
  id = i;
  plan_id = plan_id;
  version_number = n;
  status = PlanVersionStatus.candidate;
  summary = command.summary;
  rationale = command.rationale;
  proposed_strategy_snapshot = command.proposed_strategy_snapshot;
  strategy_rationale_snapshot = command.strategy_rationale_snapshot;
  based_on_version_id = command.based_on_version_id;
  created_source_id = source_id;
  approval_source_id = none;
  approved_at = none;
}

-- The dependencies and the basis of the new version, and its event.
unfoldable pub finish_candidate :
    Plan
    → PlanVersion
    → List PlanVersionBasisCreate
    → Source
    → Operation
    → List PlanVersionItemDependency
    → Action PlanVersion
finish_candidate plan version basis inference op rows = do
  write λ db. record db { dependencies = db.dependencies ++ rows }
  write λ db. record db { basis = db.basis ++ map (basis_row version.id) basis }
  append_event op EventType.plan_version_created (some plan.entity_id) (some inference) (
      change "plan_version" null (
        object (
          field "id" (uuid version.id)
            (field "version_number" (number version.version_number) end)))
      ∷ [])
  pure version

-- The items of the new version, and what refers to them.
unfoldable pub store_rows :
    PlanCandidateCreate
    → Plan
    → PlanVersion
    → List PlanVersionBasisCreate
    → Source
    → Operation
    → Action PlanVersion
unfolding persist_items dependency_rows finish_candidate
store_rows command plan version basis inference op = do
  handles ← persist_items version.id command.items
  rows ← query λ _. dependency_rows version.id handles command.dependencies
  finish_candidate plan version basis inference op rows

-- The new version, from its number on.
unfoldable pub store_candidate :
    PlanCandidateCreate
    → Plan
    → List PlanVersionBasisCreate
    → Source
    → Operation
    → Action PlanVersion
unfolding max_number store_rows
store_candidate command plan basis inference op = do
  highest ← query λ db. ok (max_number plan.entity_id db.versions)
  i ← new_id
  let version = new_version i plan.entity_id (highest + 1) command inference.id
  write λ db. record db { versions = db.versions ++ version ∷ [] }
  store_rows command plan version basis inference op

-- What `create_candidate_version` does to the version table.
unfoldable pub replace_candidate :
    PlanCandidateCreate
    → Plan
    → List PlanVersionBasisCreate
    → Source
    → Operation
    → Action PlanVersion
unfolding retire_candidate store_candidate
replace_candidate command plan basis inference op = do
  current ← query λ db.
      scalar_one_or_none (filter (of_status plan.entity_id PlanVersionStatus.candidate) db.versions)
  retire_candidate plan inference op current
  store_candidate command plan basis inference op

-- The context of the writes: the assistant acts, on the inference.
abbrev pub synthesis_context : ActionContext → Source → ActionContext
synthesis_context ctx inference = record {
  actor_type = ActorType.assistant;
  source = some inference;
  description = described ctx.description;
  operation_id = none;
}

-- `create_candidate_version` once everything is checked.
unfoldable pub synthesise :
    PlanCandidateCreate
    → ActionContext
    → Plan × List PlanVersionBasisCreate × List Source
    → Action PlanVersion
unfolding replace_candidate
synthesise command ctx (plan, basis, evidence) = do
  inference ←
      assistant_inference_source command.inference_confidence command.inference_reason_summary
        evidence
  op ← operation (synthesis_context ctx inference)
  replace_candidate command plan basis inference op

unfoldable pub create_candidate_version_body :
    PlanCandidateCreate → ActionContext → Action PlanVersion
unfolding examine_candidate synthesise
create_candidate_version_body command ctx = do
  checked ← query (examine_candidate command ctx.source)
  synthesise command ctx checked

-- `create_candidate_version`.
unfoldable pub create_candidate_version : PlanCandidateCreate → ActionContext → Action PlanVersion
unfolding create_candidate_version_body
create_candidate_version command ctx =
    atomic_domain_action (create_candidate_version_body command ctx)

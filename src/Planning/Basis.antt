-- ===== src/Planning/Basis.antt =====
-- services/planning.py: what `create_candidate_version` checks before it writes, and the
-- dependency rows that it computes. Nothing here changes the database.
use elowyn_assist.Common.{
  ℕ, Bool, not, Option, none, some, List, [], ◌∷◌, ◌++◌, map, filter, ◌==◌, if◌then◌else◌, is_id,
  contains, distinct,
}
use elowyn_assist.Domain.Enums.{EntityType, PlanVersionBasisRole, same_plan_version_basis_role}
use elowyn_assist.Domain.Errors.{
  Result, ok, err, invalid, not_found, Kind, foreign_base_version, goal_without_event,
  evidence_missing, key_error, or_raise, raise_if, ◌>>=◌, ◌>>◌,
}
use elowyn_assist.Domain.PlanningCommands.{
  PlanCandidateCreate, PlanVersionItemCreate, PlanVersionItemDependencyCreate,
  PlanVersionBasisCreate, edge_of,
}
use elowyn_assist.Db.Rows.{Source, Event}
use elowyn_assist.Db.Plans.{Plan, PlanGoalLink, PlanVersionItemDependency}
use elowyn_assist.Db.Queries.{latest}
use elowyn_assist.Db.Store.{Db}
use elowyn_assist.Common.{is_none}
use elowyn_assist.Planning.Guards.{
  get_task, active_typed_entity, plan_by_id, get_version, get_source, expected_type,
  event_of_entity,
}
use elowyn_assist.Planning.Graph.{assert_acyclic}

unfoldable pub check_base : Option ℕ → ℕ → Db → Result (Unit {0})
check_base none plan_id db = ok tt
check_base (some i) plan_id db = elim (get_version i db) [
  | none ↦ err (invalid foreign_base_version)
  | some based_on ↦ raise_if (not (based_on.plan_id == plan_id)) (invalid foreign_base_version)
]

check_task : Option ℕ → Db → Result (Unit {0})
check_task none db = ok tt
check_task (some i) db =
    active_typed_entity i EntityType.task db
    >> raise_if (is_none (get_task i db)) (not_found Kind.task)

-- The loop over the items and the tasks that they link to.
unfoldable pub check_tasks : List PlanVersionItemCreate → Db → Result (Unit {0})
unfolding check_task
check_tasks [] db = ok tt
check_tasks (item ∷ items) db = check_task item.linked_task_id db >> check_tasks items db

-- The latest event of an entity.
unfoldable pub latest_event : ℕ → List Event → Option Event
unfolding latest
latest_event i events = latest (λ e. is_id e.entity_id i) events

abbrev pub goal_basis : PlanGoalLink → Event → PlanVersionBasisCreate
goal_basis link event = record {
  entity_id = link.goal_id;
  event_id = event.id;
  role = PlanVersionBasisRole.goal;
}

-- `effective_basis`: the stated basis, and each linked goal that it leaves out.
unfoldable pub add_linked_goals :
    List ℕ → List PlanGoalLink → Db → Result (List PlanVersionBasisCreate)
unfolding latest_event
add_linked_goals explicit [] db = ok []
add_linked_goals explicit (link ∷ links) db =
    let rest = add_linked_goals explicit links db in
    let event = or_raise (invalid goal_without_event) (latest_event link.goal_id db.events) in
    let added = event >>= λ e. rest >>= λ more. ok (goal_basis link e ∷ more) in
    if contains link.goal_id explicit then rest else added

abbrev pub is_goal_basis : PlanVersionBasisCreate → Bool
is_goal_basis b = same_plan_version_basis_role b.role PlanVersionBasisRole.goal

unfoldable pub effective_basis :
    ℕ → List PlanVersionBasisCreate → Db → Result (List PlanVersionBasisCreate)
unfolding add_linked_goals
effective_basis plan_id stated db =
    let explicit =
      map (λ (b : PlanVersionBasisCreate). b.entity_id) (filter is_goal_basis stated) in
    let linked = filter (λ (link : PlanGoalLink). link.plan_id == plan_id) db.goal_links in
    add_linked_goals explicit linked db >>= λ more. ok (stated ++ more)

unfoldable pub check_basis : List PlanVersionBasisCreate → Db → Result (Unit {0})
check_basis [] db = ok tt
check_basis (b ∷ bs) db =
    active_typed_entity b.entity_id (expected_type b.role) db
    >> (event_of_entity b.event_id b.entity_id db >> check_basis bs db)

-- The evidence: the sources that the command names, each once, and the source of the context.
abbrev pub evidence_ids : List ℕ → Option Source → List ℕ
evidence_ids stated none = distinct ◌==◌ stated
evidence_ids stated (some source) =
    let ids = distinct ◌==◌ stated in if contains source.id ids then ids else ids ++ source.id ∷ []

unfoldable pub load_sources : List ℕ → Db → Result (List Source)
load_sources [] db = ok []
load_sources (i ∷ is) db = do
  source ← or_raise (invalid evidence_missing) (get_source i db)
  more ← load_sources is db
  ok (source ∷ more)

-- `persisted_items[handle].id`.
abbrev pub assigned : ℕ → List (ℕ × ℕ) → Result ℕ
assigned handle [] = err key_error
assigned handle ((h, i) ∷ rest) = if h == handle then ok i else assigned handle rest

abbrev pub dependency_row : ℕ → ℕ → ℕ → PlanVersionItemDependency
dependency_row version_id p q = record {
  plan_version_id = version_id;
  prerequisite_item_id = p;
  dependent_item_id = q;
}

unfoldable pub dependency_rows :
    ℕ
    → List (ℕ × ℕ)
    → List PlanVersionItemDependencyCreate
    → Result (List PlanVersionItemDependency)
dependency_rows version_id items [] = ok []
dependency_rows version_id items (d ∷ ds) = do
  p ← assigned d.prerequisite_item_id items
  q ← assigned d.dependent_item_id items
  more ← dependency_rows version_id items ds
  ok (dependency_row version_id p q ∷ more)

-- Everything that `create_candidate_version` checks before it writes: the plan, its basis and the
-- evidence.
unfoldable pub examine_candidate :
    PlanCandidateCreate
    → Option Source
    → Db
    → Result (Plan × List PlanVersionBasisCreate × List Source)
unfolding check_base check_tasks effective_basis check_basis load_sources
examine_candidate command source db = do
  plan ← plan_by_id command.plan_id db
  check_base command.based_on_version_id plan.entity_id db
  check_tasks command.items db
  basis ← effective_basis plan.entity_id command.basis db
  check_basis basis db
  assert_acyclic (distinct ◌==◌ (map (λ (item : PlanVersionItemCreate). item.id) command.items))
      (map edge_of command.dependencies)
  evidence ← load_sources (evidence_ids command.evidence_source_ids source) db
  ok (plan, basis, evidence)

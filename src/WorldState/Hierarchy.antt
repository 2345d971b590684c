-- ===== src/WorldState/Hierarchy.antt =====
-- services/world_state.py: `_validate_parent_chain`, the walk from a new parent up to the root.
pub mod Walk
pub mod Ends
pub mod Forest
pub mod TaskFields
pub mod Found
pub mod Tasks
use elowyn_assist.Common.{
  ℕ, zero, suc, Option, none, some, List, [], ◌∷◌, ◌==◌, contains, length, if◌then◌else◌,
}
use elowyn_assist.Domain.Enums.{EntityType}
use elowyn_assist.Domain.Errors.{
  Result, ok, err, invalid, self_parent, cyclic_hierarchy, not_found, Kind, fuel_spent, ◌>>◌,
}
use elowyn_assist.Db.Store.{Db}
use elowyn_assist.WorldState.Guards.{active_entity, get_task, get_project, get_goal}

-- The parent of a row: `none` if there is no row, `some none` at a root.
abbrev pub Parents : Type 0
Parents = ℕ → Option (Option ℕ)

abbrev pub parent_column {ℓ} : {A : Type ℓ} → (A → Option ℕ) → Option A → Option (Option ℕ)
parent_column column none = none
parent_column column (some row) = some (column row)

abbrev pub task_parents : Db → Parents
task_parents db i = parent_column (λ r. r.parent_task_id) (get_task i db)

abbrev pub project_parents : Db → Parents
project_parents db i = parent_column (λ r. r.parent_project_id) (get_project i db)

abbrev pub goal_parents : Db → Parents
goal_parents db i = parent_column (λ r. r.parent_goal_id) (get_goal i db)

-- `session.get` of a round, and what follows for the parent it has.
abbrev pub climb : (ℕ → Result (Unit {0})) → Option (Option ℕ) → Result (Unit {0})
climb next none = err (not_found Kind.entity)
climb next (some none) = ok tt
climb next (some (some parent)) = next parent

-- The `while` loop, with the identifiers seen so far.
unfoldable pub walk : ℕ → EntityType → Parents → Db → List ℕ → ℕ → Result (Unit {0})
walk zero t up db seen current = err fuel_spent
walk (suc fuel) t up db seen current =
    let next = walk fuel t up db (current ∷ seen) in
    if contains current seen
    then err (invalid cyclic_hierarchy)
    else active_entity current (some t) db >> climb next (up current)

-- `_validate_parent_chain`; `size` is the number of rows of the table.
unfoldable pub validate_parent_chain :
    ℕ → EntityType → Parents → ℕ → Option ℕ → Db → Result (Unit {0})
unfolding walk
validate_parent_chain size t up child none db = ok tt
validate_parent_chain size t up child (some parent) db =
    if parent == child
    then err (invalid self_parent)
    else walk (suc size) t up db (child ∷ []) parent

unfoldable pub check_task_parent : ℕ → Option ℕ → Db → Result (Unit {0})
unfolding validate_parent_chain
check_task_parent child parent db =
    validate_parent_chain (length db.world.tasks) EntityType.task (task_parents db) child parent db

unfoldable pub check_project_parent : ℕ → Option ℕ → Db → Result (Unit {0})
unfolding validate_parent_chain
check_project_parent child parent db =
    validate_parent_chain (length db.world.projects) EntityType.project (project_parents db) child
      parent db

unfoldable pub check_goal_parent : ℕ → Option ℕ → Db → Result (Unit {0})
unfolding validate_parent_chain
check_goal_parent child parent db =
    validate_parent_chain (length db.world.goals) EntityType.goal (goal_parents db) child parent db

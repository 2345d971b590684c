-- ===== src/WorldState/Dependencies.antt =====
-- services/world_state.py: `_dependency_would_cycle`, a search through the tasks that depend on a
-- task. The sets of the code are lists.
pub mod Graph
pub mod Search
pub mod Acyclic
use elowyn_assist.Common.{
  ℕ, zero, suc, Bool, true, false, not, List, [], ◌∷◌, ◌++◌, ◌==◌, filter, map, contains, length,
  if◌then◌else◌,
}
use elowyn_assist.Domain.Errors.{Result, ok, err, fuel_spent}
use elowyn_assist.Db.World.{TaskDependency}
use elowyn_assist.Db.Store.{Db}

-- The tasks that depend on a task of the frontier: the query of a round.
unfoldable pub dependents : List TaskDependency → List ℕ → List ℕ
dependents rows frontier =
    map (λ (d : TaskDependency). d.dependent_task_id)
      (filter (λ d. contains d.prerequisite_task_id frontier) rows)

-- `frontier - seen`.
abbrev pub unseen : List ℕ → List ℕ → List ℕ
unseen seen xs = filter (λ x. not (contains x seen)) xs

-- The `while` loop.
unfoldable pub search : ℕ → List TaskDependency → ℕ → List ℕ → List ℕ → Result Bool
unfolding dependents
search fuel rows target seen [] = ok false
search zero rows target seen (x ∷ xs) = err fuel_spent
search (suc fuel) rows target seen (x ∷ xs) =
    let reached = (x ∷ xs) ++ seen in
    let rest = search fuel rows target reached (unseen reached (dependents rows (x ∷ xs))) in
    if contains target (x ∷ xs) then ok true else rest

-- `_dependency_would_cycle`.
unfoldable pub dependency_would_cycle : ℕ → ℕ → Db → Result Bool
unfolding search
dependency_would_cycle prerequisite dependent db =
    let rows = db.world.task_dependencies in
    if prerequisite == dependent
    then ok true
    else search (suc (length rows)) rows prerequisite [] (dependent ∷ [])

-- ===== src/WorldState/Dependencies/Graph.antt =====
-- The graph of the dependencies between tasks: an edge leads from a prerequisite to the task that
-- depends on it.
use elowyn_assist.Common.{
  ℕ, Bool, true, not, List, [], ◌∷◌, ◌++◌, ◌==◌, ◌&&◌, ◌||◌, ◌≡◌, refl, inl, inr, Bool-cases,
  eq_of_beq, any, contains, arith,
}
use elowyn_assist.Db.World.{TaskDependency}
use elowyn_assist.WorldState.Dependencies.{dependents, unseen}

abbrev pub joins : ℕ → ℕ → TaskDependency → Bool
joins u v d = d.prerequisite_task_id == u && d.dependent_task_id == v

-- A row of the table joins `u` to `v`.
abbrev pub Edge : List TaskDependency → ℕ → ℕ → Type 0
Edge rows u v = any (joins u v) rows ≡ true

-- A chain of rows leads from `u` to a task.
pub data Reach (rows : List TaskDependency) (u : ℕ) : ℕ → Type 0 where
  here : Reach rows u u
  step : {v w : ℕ} → Reach rows u v → Edge rows v w → Reach rows u w

-- No chain of rows leads from a task back to one of its prerequisites.
abbrev pub Acyclic : List TaskDependency → Type 0
Acyclic rows = (u v : ℕ) → Edge rows u v → ¬ Reach rows v u

pub Reach-trans :
    (rows : List TaskDependency) {u v w : ℕ} → Reach rows u v → Reach rows v w → Reach rows u w
Reach-trans rows p here = p
Reach-trans rows p (step q e) = step (Reach-trans rows p q) e

pub contains-append :
    (v : ℕ) (xs ys : List ℕ) → contains v (xs ++ ys) ≡ (contains v xs || contains v ys)
contains-append v [] ys = refl
contains-append v (x ∷ xs) ys = ground (arith, contains-append v xs ys)

pub contains-unseen :
    (v : ℕ) (seen xs : List ℕ)
    → contains v (unseen seen xs) ≡ (contains v xs && not (contains v seen))
contains-unseen v seen [] = refl
contains-unseen v seen (x ∷ xs) = ground (arith, contains-unseen v seen xs)

-- A dependent of the frontier is at the end of an edge that leaves it.
pub Edge-dependents :
    (rows : List TaskDependency) (frontier : List ℕ) (v : ℕ)
    → contains v (dependents rows frontier) ≡ true
    → (u : ℕ) × (contains u frontier ≡ true) × Edge rows u v
unfolding dependents
Edge-dependents [] frontier v h = absurd (cc)
Edge-dependents (d ∷ rows) frontier v h =
    elim (Bool-cases (contains d.prerequisite_task_id frontier)) [
      | inl e ↦ elim (Bool-cases (v == d.dependent_task_id)) [
        | inl k ↦ (d.prerequisite_task_id, e, ground arith)
        | inr k ↦ weaken (Edge-dependents rows frontier v (ground arith))
      ]
      | inr e ↦ weaken (Edge-dependents rows frontier v (ground arith))
    ]
  where
    weaken :
        (u : ℕ) × (contains u frontier ≡ true) × Edge rows u v
        → (u : ℕ) × (contains u frontier ≡ true) × Edge (d ∷ rows) u v
    weaken (u, k, e) = (u, k, ground arith)

pub dependents-Edge :
    (rows : List TaskDependency) (frontier : List ℕ) (u v : ℕ)
    → contains u frontier ≡ true
    → Edge rows u v
    → contains v (dependents rows frontier) ≡ true
unfolding dependents
dependents-Edge [] frontier u v h e = absurd (cc)
dependents-Edge (d ∷ rows) frontier u v h e = elim (Bool-cases (joins u v d)) [
  | inl k ↦ rw (eq_of_beq d.prerequisite_task_id u (ground arith), h) ground arith
  | inr k ↦ ground (arith, dependents-Edge rows frontier u v h)
]

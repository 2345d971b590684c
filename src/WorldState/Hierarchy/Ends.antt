-- ===== src/WorldState/Hierarchy/Ends.antt =====
-- services/world_state.py: `_validate_parent_chain` ends, on each of its three tables.
use elowyn_assist.Common.{
  ℕ, suc, ◌≡◌, ◌≢◌, ◌≤◌, ◌<◌, sym, subst, true, false, not, Option, none, some, List, [], ◌∷◌, ◌==◌,
  inl, inr, count, find, length, contains, Bool-cases, eq_of_beq, beq_refl, arith,
}
use elowyn_assist.Domain.Enums.{EntityType}
use elowyn_assist.Domain.Errors.{err, fuel_spent}
use elowyn_assist.Db.Store.{Db}
use elowyn_assist.WorldState.Hierarchy.{
  Parents, parent_column, validate_parent_chain, check_task_parent, check_project_parent,
  check_goal_parent,
}
use elowyn_assist.WorldState.Hierarchy.Walk.{walk_ends}

-- A table with its key and the column of the parent.
module _ {A : Type 0} (key : A → ℕ) (column : A → Option ℕ) where
  abbrev parents_in : List A → Parents
  parents_in rows i = parent_column column (find (λ r. key r == i) rows)

  -- How many rows the walk has not seen.
  abbrev left : List A → List ℕ → ℕ
  left rows seen = count (λ r. not (contains (key r) seen)) rows

  left_bound : (rows : List A) (seen : List ℕ) → left rows seen ≤ length rows
  left_bound [] seen = omega arith
  left_bound (r ∷ rows) seen = ground (arith, left_bound rows seen)

  left_mono : (rows : List A) (seen : List ℕ) (i : ℕ) → left rows (i ∷ seen) ≤ left rows seen
  left_mono [] seen i = omega arith
  left_mono (r ∷ rows) seen i = ground (arith, left_mono rows seen i)

  left_lt :
      (rows : List A) (seen : List ℕ) (i : ℕ) (above : Option ℕ)
      → contains i seen ≡ false
      → parents_in rows i ≡ some above
      → left rows (i ∷ seen) < left rows seen
  left_lt [] seen i above h k = absurd (cc)
  left_lt (r ∷ rows) seen i above h k = elim (Bool-cases (key r == i)) [
    | inl e ↦
        let same = eq_of_beq (key r) i e in
        let kept = left_mono rows seen i in
        rw
          (
            subst (λ j. contains j seen ≡ false) (sym same) h,
            subst (λ j. (i == j) ≡ true) (sym same) (beq_refl i),
          )
          omega (arith, kept)
    | inr e ↦ ground (arith, left_lt rows seen i above)
  ]

  validate_parent_chain_ends :
      (rows : List A) (t : EntityType) (child : ℕ) (parent : Option ℕ) (db : Db)
      → validate_parent_chain (length rows) t (parents_in rows) child parent db ≢ err fuel_spent
  unfolding validate_parent_chain
  validate_parent_chain_ends rows t child none db h = cc
  validate_parent_chain_ends rows t child (some parent) db h = elim (Bool-cases (parent == child)) [
    | inl e ↦ absurd (ground arith)
    | inr e ↦
        walk_ends (parents_in rows) db t (left rows) (left_lt rows) (suc (length rows)) (child ∷ [])
          parent (omega (arith, left_bound rows (child ∷ []))) (ground arith)
  ]

-- The check of a new parent always ends, with a verdict or an error of the code: the fuel of the
-- model is enough for every table of tasks, projects and goals.
pub hierarchy_checks_end :
    (child : ℕ) (parent : Option ℕ) (db : Db)
    → (check_task_parent child parent db ≢ err fuel_spent)
      × (check_project_parent child parent db ≢ err fuel_spent)
      × (check_goal_parent child parent db ≢ err fuel_spent)
unfolding check_task_parent check_project_parent check_goal_parent
hierarchy_checks_end child parent db = (
  validate_parent_chain_ends (λ r. r.entity_id) (λ r. r.parent_task_id) db.world.tasks
      EntityType.task child parent db,
  validate_parent_chain_ends (λ r. r.entity_id) (λ r. r.parent_project_id) db.world.projects
      EntityType.project child parent db,
  validate_parent_chain_ends (λ r. r.entity_id) (λ r. r.parent_goal_id) db.world.goals
      EntityType.goal child parent db,
)

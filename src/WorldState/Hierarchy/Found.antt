-- ===== src/WorldState/Hierarchy/Found.antt =====
-- services/world_state.py: what the checks of a task update have found.
use elowyn_assist.Common.{
  ℕ, suc, ◌≡◌, refl, subst, Option, none, some, [], ◌∷◌, ◌==◌, inl, inr, Bool-cases, beq_refl,
  arith,
}
use elowyn_assist.Domain.Enums.{EntityType, DeadlineType}
use elowyn_assist.Domain.Errors.{Result, ok, sequence-ok, or_raise, not_found, Kind, ◌>>=◌, ◌>>◌}
use elowyn_assist.Domain.Commands.Fields.{Sent, sent}
use elowyn_assist.Domain.Commands.Updates.{TaskUpdate}
use elowyn_assist.Db.World.{Task}
use elowyn_assist.Db.Store.{Db}
use elowyn_assist.WorldState.Guards.{active_entity, active_task, active_project, get_task, if_given}
use elowyn_assist.WorldState.Completion.{effective_type}
use elowyn_assist.WorldState.Examine.{examine_task_update, if_sent}
use elowyn_assist.WorldState.Hierarchy.{
  Parents, task_parents, validate_parent_chain, check_task_parent,
}
use elowyn_assist.WorldState.Hierarchy.Walk.{walk-Clear}
use elowyn_assist.WorldState.Hierarchy.Forest.{Accepted}

-- An accepted parent is none or has a chain that avoids the child.
pub validate_parent_chain-Accepted :
    (size : ℕ) (t : EntityType) (up : Parents) (child : ℕ) (parent : Option ℕ) (db : Db)
    → validate_parent_chain size t up child parent db ≡ ok tt
    → Accepted up child parent
unfolding validate_parent_chain
validate_parent_chain-Accepted size t up child none db h = tt
validate_parent_chain-Accepted size t up child (some parent) db h =
    elim (Bool-cases (parent == child)) [
      | inl e ↦ absurd (ground arith)
      | inr e ↦
          walk-Clear up db t (suc size) (child ∷ []) child parent (rw (beq_refl child) refl)
            (ground arith)
    ]

active_task-get :
    (i : ℕ) (db : Db) (task : Task) → active_task i db ≡ ok task → get_task i db ≡ some task
unfolding active_task
active_task-get i db task h =
    let (_, _, k) =
      sequence-ok (active_entity i (some EntityType.task) db)
        (λ _. or_raise (not_found Kind.task) (get_task i db)) task h in
    go (get_task i db) refl k
  where
    go :
        (found : Option Task)
        → get_task i db ≡ found
        → or_raise (not_found Kind.task) found ≡ ok task
        → get_task i db ≡ some task
    go none e k = absurd (cc)
    go (some row) e k = cc

-- The row, and a parent that was sent is accepted.
pub examine_task_update-found :
    (c : TaskUpdate) (db : Db) (task : Task) (type : Sent DeadlineType)
    → examine_task_update c db ≡ ok (task, type)
    → (get_task c.entity_id db ≡ some task)
      × ((parent : Option ℕ)
          → c.parent_task_id ≡ sent parent
          → Accepted (task_parents db) c.entity_id parent)
unfolding examine_task_update check_task_parent
examine_task_update-found c db task type h =
    let (row, looked, first) = sequence-ok (active_task c.entity_id db) rest (task, type) h in
    let (_, checked, second) = sequence-ok parent (λ _. after row) (task, type) first in
    let (_, _, third) = sequence-ok project (λ _. last row) (task, type) second in
    let (effective, _, fourth) = sequence-ok (dated row) (λ x. ok (row, x)) (task, type) third in
    let same : row ≡ task = cc in
    (
      active_task-get c.entity_id db task
          (subst (λ t. active_task c.entity_id db ≡ ok t) same looked),
      λ value e.
          validate_parent_chain-Accepted _ EntityType.task (task_parents db) c.entity_id value db
            (subst (λ v. if_sent (check_task_parent c.entity_id) v db ≡ ok tt) e checked),
    )
  where
    parent : Result (Unit {0})
    parent = if_sent (check_task_parent c.entity_id) c.parent_task_id db

    project : Result (Unit {0})
    project = if_sent (if_given active_project) c.primary_project_id db

    dated : Task → Result (Sent DeadlineType)
    dated row = effective_type c.deadline_type c.deadline_at row.deadline_type row.deadline_at

    last : Task → Result (Task × Sent DeadlineType)
    last row = dated row >>= λ x. ok (row, x)

    after : Task → Result (Task × Sent DeadlineType)
    after row = project >> last row

    rest : Task → Result (Task × Sent DeadlineType)
    rest row = parent >> after row

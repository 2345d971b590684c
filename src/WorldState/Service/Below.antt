-- ===== src/WorldState/Service/Below.antt =====
-- services/world_state.py: an entity that the lookups find has an identifier below the next one.
use elowyn_assist.Common.{
  ℕ, ◌≡◌, ◌<◌, refl, subst, Option, none, some, List, [], ◌∷◌, ◌==◌, distinct, All, eq_of_beq,
  find-holds,
}
use elowyn_assist.Domain.Enums.{EntityType}
use elowyn_assist.Domain.Errors.{ok, sequence-ok, ◌>>◌}
use elowyn_assist.Domain.Commands.{TaskCreate}
use elowyn_assist.Db.Rows.{Entity}
use elowyn_assist.Db.World.{Task}
use elowyn_assist.Db.Store.{Db}
use elowyn_assist.WorldState.Guards.{
  get_entity, active_entity, active_task, active_project, if_given, check_goals,
  check_prerequisites,
}
use elowyn_assist.WorldState.Examine.{examine_task}
use elowyn_assist.WorldState.Service.Keeps.{IsOrdered, All-find}

module _ (db : Db) (n : ℕ) (o : IsOrdered db n) where
  active_entity-below :
      (i : ℕ) (t : Option EntityType) (e : Entity) → active_entity i t db ≡ ok e → i < n
  unfolding active_entity
  active_entity-below i t e h = go (get_entity i db) refl h
    where
      go : (found : Option Entity) → get_entity i db ≡ found → active_entity i t db ≡ ok e → i < n
      go none f h = absurd (cc)
      go (some entity) f h =
          let below =
            All-find (λ (x : Entity). x.id) (λ x. x.id == i) n db.entities entity f o.entities in
          subst (λ k. k < n)
            (eq_of_beq entity.id i (find-holds (λ (x : Entity). x.id == i) entity db.entities f))
            below

  pub active_task-below : (i : ℕ) (task : Task) → active_task i db ≡ ok task → i < n
  unfolding active_task
  active_task-below i task h =
      let (e, found, _) = sequence-ok _ _ _ h in
      active_entity-below i (some EntityType.task) e found

  check_prerequisites-below :
      (is : List ℕ) → check_prerequisites is db ≡ ok tt → All (λ i. i < n) is
  unfolding check_prerequisites
  check_prerequisites-below [] h = tt
  check_prerequisites-below (i ∷ is) h =
      let (task, found, rest) = sequence-ok _ _ _ h in
      (active_task-below i task found, check_prerequisites-below is rest)

  pub examine_task-below :
      (c : TaskCreate)
      → examine_task c db ≡ ok tt
      → All (λ i. i < n) (distinct ◌==◌ c.prerequisite_task_ids)
  unfolding examine_task
  examine_task-below c h =
      let prerequisites = check_prerequisites (distinct ◌==◌ c.prerequisite_task_ids) db in
      let goals = check_goals (distinct ◌==◌ c.goal_ids) db in
      let project = if_given active_project c.primary_project_id db in
      let (_, _, first) =
        sequence-ok (if_given active_task c.parent_task_id db)
          (λ _. project >> (goals >> prerequisites)) tt h in
      let (_, _, second) = sequence-ok project (λ _. goals >> prerequisites) tt first in
      let (_, _, third) = sequence-ok goals (λ _. prerequisites) tt second in
      check_prerequisites-below (distinct ◌==◌ c.prerequisite_task_ids) third

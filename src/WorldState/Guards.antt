-- ===== src/WorldState/Guards.antt =====
-- services/world_state.py: the lookups of rows whose entity is active. A lookup for update finds the
-- same row; its lock is left out.
use elowyn_assist.Common.{
  ℕ, Bool, false, not, ◌||◌, Option, none, some, List, [], ◌∷◌, ◌==◌, find, update, is_some,
  if◌then◌else◌,
}
use elowyn_assist.Domain.Enums.{EntityType, same_entity_type}
use elowyn_assist.Domain.Errors.{Result, ok, err, not_found, Kind, ◌>>=◌, ◌>>◌, or_raise}
use elowyn_assist.Db.Rows.{Entity}
use elowyn_assist.Db.World.{World, Task, Project, Goal, SuccessCriterion, Decision}
use elowyn_assist.Db.Store.{Db}

-- `session.get`, of one table each.
abbrev pub get_entity : ℕ → Db → Option Entity
get_entity i db = find (λ r. r.id == i) db.entities

abbrev pub get_task : ℕ → Db → Option Task
get_task i db = find (λ r. r.entity_id == i) db.world.tasks

abbrev pub get_project : ℕ → Db → Option Project
get_project i db = find (λ r. r.entity_id == i) db.world.projects

abbrev pub get_goal : ℕ → Db → Option Goal
get_goal i db = find (λ r. r.entity_id == i) db.world.goals

abbrev pub get_criterion : ℕ → Db → Option SuccessCriterion
get_criterion i db = find (λ r. r.id == i) db.world.criteria

abbrev pub get_decision : ℕ → Db → Option Decision
get_decision i db = find (λ r. r.entity_id == i) db.world.decisions

-- A row put back after its attributes were set.
abbrev pub put_task : Task → World → World
put_task r w = record w { tasks = update (λ x. x.entity_id == r.entity_id) (λ _. r) w.tasks }

abbrev pub put_project : Project → World → World
put_project r w = record w {
  projects = update (λ x. x.entity_id == r.entity_id) (λ _. r) w.projects;
}

abbrev pub put_goal : Goal → World → World
put_goal r w = record w { goals = update (λ x. x.entity_id == r.entity_id) (λ _. r) w.goals }

abbrev pub put_criterion : SuccessCriterion → World → World
put_criterion r w = record w { criteria = update (λ x. x.id == r.id) (λ _. r) w.criteria }

abbrev pub put_decision : Decision → World → World
put_decision r w = record w {
  decisions = update (λ x. x.entity_id == r.entity_id) (λ _. r) w.decisions;
}

abbrev pub in_world : (World → World) → Db → Db
in_world f db = record db { world = f db.world }

abbrev wrong_type : Option EntityType → Entity → Bool
wrong_type none entity = false
wrong_type (some t) entity = not (same_entity_type entity.entity_type t)

-- `_active_entity`.
unfoldable pub active_entity : ℕ → Option EntityType → Db → Result Entity
active_entity i expected db = elim (get_entity i db) [
  | none ↦ err (not_found Kind.entity)
  | some entity ↦
      if is_some entity.removed_at
        || is_some entity.superseded_by_entity_id
        || wrong_type expected entity
      then err (not_found Kind.entity)
      else ok entity
]

unfoldable pub active_task : ℕ → Db → Result Task
unfolding active_entity
active_task i db =
    active_entity i (some EntityType.task) db >> or_raise (not_found Kind.task) (get_task i db)

unfoldable pub active_project : ℕ → Db → Result Project
unfolding active_entity
active_project i db =
    active_entity i (some EntityType.project) db
    >> or_raise (not_found Kind.project) (get_project i db)

unfoldable pub active_goal : ℕ → Db → Result Goal
unfolding active_entity
active_goal i db =
    active_entity i (some EntityType.goal) db >> or_raise (not_found Kind.goal) (get_goal i db)

unfoldable pub active_decision : ℕ → Db → Result Decision
unfolding active_entity
active_decision i db =
    active_entity i (some EntityType.decision) db
    >> or_raise (not_found Kind.decision) (get_decision i db)

-- `_success_criterion`: its goal must be active too.
unfoldable pub success_criterion : ℕ → Db → Result SuccessCriterion
unfolding active_goal
success_criterion i db = do
  criterion ← or_raise (not_found Kind.criterion) (get_criterion i db)
  active_goal criterion.goal_id db
  ok criterion

-- A lookup of an identifier that a command may leave out.
abbrev pub if_given {ℓ} : {A : Type ℓ} → (ℕ → Db → Result A) → Option ℕ → Db → Result (Unit {0})
if_given look none db = ok tt
if_given look (some i) db = look i db >> ok tt

-- The loops over the goals and the prerequisites that a command names.
unfoldable pub check_goals : List ℕ → Db → Result (Unit {0})
unfolding active_goal
check_goals [] db = ok tt
check_goals (i ∷ is) db = active_goal i db >> check_goals is db

unfoldable pub check_prerequisites : List ℕ → Db → Result (Unit {0})
unfolding active_task
check_prerequisites [] db = ok tt
check_prerequisites (i ∷ is) db = active_task i db >> check_prerequisites is db

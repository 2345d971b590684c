-- ===== src/WorldState/Service/Ordered.antt =====
-- services/world_state.py: the two operations that write dependencies keep the tasks in order.
use elowyn_assist.Common.{
  ℕ, suc, ◌≡◌, ◌≤◌, ◌<◌, refl, sym, subst, Bool, true, false, Option, none, some, List, [], ◌∷◌,
  map, ◌==◌, distinct, All, All-append, arith,
}
use elowyn_assist.Domain.Enums.{EntityType}
use elowyn_assist.Domain.Errors.{ok, invalid, cyclic_dependency, raise_if}
use elowyn_assist.Domain.Commands.{TaskCreate, TaskDependencyCreate}
use elowyn_assist.Db.Rows.{Entity, Source, Operation}
use elowyn_assist.Db.World.{TaskDependency}
use elowyn_assist.Db.Store.{Db, State}
use elowyn_assist.Mutation.{
  Action, ActionContext, query, operation, next_id-operation, refuse_if, append_event, ◌>>=◌, ◌>>◌,
}
use elowyn_assist.WorldState.Guards.{active_task}
use elowyn_assist.WorldState.Events.{record_event, new_entity}
use elowyn_assist.WorldState.Completion.{stamp}
use elowyn_assist.WorldState.Examine.{examine_task}
use elowyn_assist.WorldState.Tasks.{
  create_task_body, install_task, enter_task, is_done, new_dependency,
}
use elowyn_assist.WorldState.Links.{
  get_dependency, depend_now, install_dependency, add_task_dependency_body,
}
use elowyn_assist.WorldState.Dependencies.{dependency_would_cycle}
use elowyn_assist.WorldState.Dependencies.Graph.{Reach}
use elowyn_assist.WorldState.Dependencies.Acyclic.{Acyclic-add, Acyclic-new}
use elowyn_assist.WorldState.Dependencies.Search.{dependency_would_cycle_iff}
use elowyn_assist.WorldState.Completion.Stamp.{stamp-db, stamp-next_id}
use elowyn_assist.WorldState.Service.Keeps.{
  stamp-Keeps, IsOrdered, Keeps, All-weaken, Keeps-frame, Keeps-bind, operation-Keeps,
  new_entity-Keeps,
}
use elowyn_assist.WorldState.Service.Below.{active_task-below, examine_task-below}

-- The dependencies of a new task, whose identifier no row has had.
enter_task-Keeps :
    (i : ℕ) (c : TaskCreate) (source : Option Source) (op : Operation) (completed_at : Option ℕ)
    (s : State)
    → i < s.next_id
    → All (λ (d : TaskDependency). d.prerequisite_task_id < i) s.db.world.task_dependencies
    → All (λ j. j < i) (distinct ◌==◌ c.prerequisite_task_ids)
    → Keeps s (enter_task i c source op completed_at s).1
unfolding enter_task record_event append_event
enter_task-Keeps i c source op completed_at s h rows ids = record {
  keeps = λ o. (
    omega arith,
    record {
      acyclic =
          Acyclic-new s.db.world.task_dependencies i source (distinct ◌==◌ c.prerequisite_task_ids)
            rows ids o.acyclic;
      entities =
          All-weaken (λ (x : Entity). x.id) s.next_id (suc s.next_id) s.db.entities (omega arith)
            o.entities;
      prerequisites =
          All-append (λ (d : TaskDependency). d.prerequisite_task_id < suc s.next_id)
            s.db.world.task_dependencies _
            (All-weaken (λ (d : TaskDependency). d.prerequisite_task_id) s.next_id (suc s.next_id)
              s.db.world.task_dependencies (omega arith) o.prerequisites)
            (new_rows (distinct ◌==◌ c.prerequisite_task_ids) ids);
    },
  );
}
  where
    new_rows :
        (is : List ℕ)
        → All (λ j. j < i) is
        → All
            (λ (d : TaskDependency). d.prerequisite_task_id < suc s.next_id)
            (map (λ p. new_dependency source p i) is)
    new_rows [] k = tt
    new_rows (j ∷ is) k = (omega (arith, k.0, h), new_rows is k.1)

install_task-Keeps :
    (c : TaskCreate) (source : Option Source) (op : Operation) (s : State)
    → All (λ j. j < s.next_id) (distinct ◌==◌ c.prerequisite_task_ids)
    → Keeps s (install_task c source op s).1
unfolding install_task new_entity
install_task-Keeps c source op s ids = record {
  keeps = λ o.
      (Keeps-bind (new_entity EntityType.task) (λ i. completed >>= enter_task i c source op) s
          (new_entity-Keeps EntityType.task s)
          λ i e.
            Keeps-bind completed (enter_task i c source op) (new_entity EntityType.task s).1
              (stamp-Keeps true (is_done c.status) false none (new_entity EntityType.task s).1)
              λ completed_at _. enter i e completed_at o).keeps
        o;
}
  where
    completed : Action (Option ℕ)
    completed = stamp true (is_done c.status) false none

    entered : State
    entered = (completed (new_entity EntityType.task s).1).1

    enter :
        (i : ℕ)
        → (new_entity EntityType.task s).0 ≡ ok i
        → (completed_at : Option ℕ) → IsOrdered s.db s.next_id
        → Keeps entered (enter_task i c source op completed_at entered).1
    enter i e completed_at o =
        let same : s.next_id ≡ i = cc in
        let t = (new_entity EntityType.task s).1 in
        enter_task-Keeps i c source op completed_at entered
          (omega (arith, same, stamp-next_id true (is_done c.status) false none t))
          (subst
            (λ (db : Db).
              All (λ (d : TaskDependency). d.prerequisite_task_id < i) db.world.task_dependencies)
            (sym (stamp-db true (is_done c.status) false none t))
            (subst
              (λ k.
                All (λ (d : TaskDependency). d.prerequisite_task_id < k)
                  s.db.world.task_dependencies)
              same o.prerequisites))
          (subst (λ k. All (λ j. j < k) (distinct ◌==◌ c.prerequisite_task_ids)) same ids)

pub create_task-Keeps :
    (c : TaskCreate) (ctx : ActionContext) (s : State) → Keeps s (create_task_body c ctx s).1
unfolding create_task_body
create_task-Keeps c ctx s = record {
  keeps = λ o.
      (Keeps-bind (query (examine_task c)) (λ _. operation ctx >>= install_task c ctx.source) s
          (Keeps-frame s s refl refl (omega arith))
          λ _ e.
            Keeps-bind (operation ctx) (install_task c ctx.source) s (operation-Keeps ctx s) λ op _.
              install_task-Keeps c ctx.source op (operation ctx s).1 (
                All-weaken (λ j. j) s.next_id (operation ctx s).1.next_id
                  (distinct ◌==◌ c.prerequisite_task_ids) (next_id-operation ctx s)
                  (examine_task-below s.db s.next_id o c e))).keeps
        o;
}

install_dependency-Keeps :
    (c : TaskDependencyCreate) (ctx : ActionContext) (s : State)
    → c.prerequisite_task_id < s.next_id
    → ¬ Reach s.db.world.task_dependencies c.dependent_task_id c.prerequisite_task_id
    → Keeps s (install_dependency c ctx s).1
unfolding install_dependency record_event append_event operation
install_dependency-Keeps c ctx s h unreachable = record {
  keeps = λ o.
      let more = next_id-operation ctx s in
      let n = (install_dependency c ctx s).1.next_id in
      let below : s.next_id ≤ n = ground arith in
      (
        below,
        record {
          acyclic =
              Acyclic-add s.db.world.task_dependencies
                (new_dependency ctx.source c.prerequisite_task_id c.dependent_task_id) unreachable
                o.acyclic;
          entities = All-weaken (λ (x : Entity). x.id) s.next_id n s.db.entities below o.entities;
          prerequisites =
              All-append (λ (d : TaskDependency). d.prerequisite_task_id < n)
                s.db.world.task_dependencies _
                (All-weaken (λ (d : TaskDependency). d.prerequisite_task_id) s.next_id n
                  s.db.world.task_dependencies below o.prerequisites)
                (omega (arith, h, below), tt);
        },
      );
}

depend_now-Keeps :
    (c : TaskDependencyCreate) (ctx : ActionContext) (existing : Option TaskDependency) (s : State)
    → c.prerequisite_task_id < s.next_id
    → Keeps s (depend_now c ctx existing s).1
unfolding depend_now
depend_now-Keeps c ctx (some existing) s h = Keeps-frame s s refl refl (omega arith)
depend_now-Keeps c ctx none s h =
    Keeps-bind (query (dependency_would_cycle c.prerequisite_task_id c.dependent_task_id))
      (λ cyclic. refuse_if cyclic (invalid cyclic_dependency) >> install_dependency c ctx) s
      (Keeps-frame s s refl refl (omega arith))
      λ cyclic e.
        Keeps-bind (refuse_if cyclic (invalid cyclic_dependency)) (λ _. install_dependency c ctx) s
          (Keeps-frame s s refl refl (omega arith))
          λ _ passed. install_dependency-Keeps c ctx s h (unreachable cyclic e passed)
  where
    unreachable :
        (cyclic : Bool)
        → dependency_would_cycle c.prerequisite_task_id c.dependent_task_id s.db ≡ ok cyclic
        → raise_if cyclic (invalid cyclic_dependency) ≡ ok tt
        → ¬ Reach s.db.world.task_dependencies c.dependent_task_id c.prerequisite_task_id
    unreachable true e passed path = absurd (cc)
    unreachable false e passed path =
        let (b, found, decides) =
          dependency_would_cycle_iff c.prerequisite_task_id c.dependent_task_id s.db in
        let yes = decides.1 path in absurd (cc)

pub add_task_dependency-Keeps :
    (c : TaskDependencyCreate) (ctx : ActionContext) (s : State)
    → Keeps s (add_task_dependency_body c ctx s).1
unfolding add_task_dependency_body
add_task_dependency-Keeps c ctx s = record {
  keeps = λ o.
      (Keeps-bind (query (active_task c.prerequisite_task_id))
          (λ _. query (active_task c.dependent_task_id) >> rest) s (same s)
          λ task e.
            Keeps-bind (query (active_task c.dependent_task_id)) (λ _. rest) s (same s)
              λ _ _. Keeps-bind look (depend_now c ctx) s (same s) λ existing _.
                depend_now-Keeps c ctx existing s
                  (active_task-below s.db s.next_id o c.prerequisite_task_id task e)).keeps
        o;
}
  where
    same : (t : State) → Keeps t t
    same t = Keeps-frame t t refl refl (omega arith)

    look : Action (Option TaskDependency)
    look = query λ db. ok (get_dependency c.prerequisite_task_id c.dependent_task_id db)

    rest : Action TaskDependency
    rest = look >>= depend_now c ctx

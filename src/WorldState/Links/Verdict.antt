-- ===== src/WorldState/Links/Verdict.antt =====
-- services/world_state.py: when `add_task_dependency` refuses a dependency.
use elowyn_assist.Common.{
  ◌≡◌, ◌∙◌, refl, sym, subst, ap, ◌⊎◌, ◌↔◌, inl, inr, Bool, true, false, Option, none, [], ◌∷◌,
  ◌++◌,
}
use elowyn_assist.Domain.Errors.{Result, ok, err, invalid, cyclic_dependency}
use elowyn_assist.Domain.Commands.{TaskDependencyCreate}
use elowyn_assist.Db.World.{Task, TaskDependency}
use elowyn_assist.Db.Store.{State}
use elowyn_assist.Mutation.{
  Action, ActionContext, query, refuse_if, bind_runs, settle, atomic_domain_action, operation,
  append_event, ◌>>=◌, ◌>>◌,
}
use elowyn_assist.WorldState.Guards.{active_task}
use elowyn_assist.WorldState.Events.{record_event}
use elowyn_assist.WorldState.Dependencies.{dependency_would_cycle}
use elowyn_assist.WorldState.Dependencies.Graph.{Reach}
use elowyn_assist.WorldState.Dependencies.Search.{dependency_would_cycle_iff}
use elowyn_assist.WorldState.Links.{
  get_dependency, install_dependency, depend_now, add_task_dependency_body, add_task_dependency,
}

-- The row of the command is returned, and it is the only one that is new.
pub record IsAdded (c : TaskDependencyCreate) (s : State) (out : Result TaskDependency × State)
    : Type 0 where
  pub row : TaskDependency
  pub from : row.prerequisite_task_id ≡ c.prerequisite_task_id
  pub to : row.dependent_task_id ≡ c.dependent_task_id
  pub returned : out.0 ≡ ok row
  pub appended : out.1.db.world.task_dependencies ≡ s.db.world.task_dependencies ++ row ∷ []

-- A chain from the dependent task to the prerequisite makes the call raise; without one it returns.
pub Verdict : TaskDependencyCreate → State → Result TaskDependency × State → Type 0
Verdict c s out =
    (Reach s.db.world.task_dependencies c.dependent_task_id c.prerequisite_task_id
      × (out.0 ≡ err (invalid cyclic_dependency))
      × (out.1.db ≡ s.db))
    ⊎ ((¬ Reach s.db.world.task_dependencies c.dependent_task_id c.prerequisite_task_id)
        × IsAdded c s out)

install_dependency-IsAdded :
    (c : TaskDependencyCreate) (ctx : ActionContext) (s : State)
    → IsAdded c s (install_dependency c ctx s)
unfolding install_dependency record_event append_event operation
install_dependency-IsAdded c ctx s = record {
  row = _;
  from = refl;
  to = refl;
  returned = refl;
  appended = refl;
}

depend_now-Verdict :
    (c : TaskDependencyCreate) (ctx : ActionContext) (s : State)
    → Verdict c s (depend_now c ctx none s)
unfolding depend_now Verdict
depend_now-Verdict c ctx s =
    let (cyclic, found, decides) =
      dependency_would_cycle_iff c.prerequisite_task_id c.dependent_task_id s.db in
    subst (Verdict c s) (sym (bind_runs look next s cyclic found)) (go cyclic decides)
  where
    look : Action Bool
    look = query (dependency_would_cycle c.prerequisite_task_id c.dependent_task_id)

    next : Bool → Action TaskDependency
    next cyclic = refuse_if cyclic (invalid cyclic_dependency) >> install_dependency c ctx

    go :
        (cyclic : Bool)
        → (cyclic ≡ true)
          ↔ Reach s.db.world.task_dependencies c.dependent_task_id c.prerequisite_task_id
        → Verdict c s (next cyclic s)
    go true decides = inl (decides.0 refl, refl, refl)
    go false decides =
        inr ((λ path. let yes = decides.1 path in cc), install_dependency-IsAdded c ctx s)

settle-Verdict :
    (c : TaskDependencyCreate) (s : State) (out : Result TaskDependency × State)
    → Verdict c s out
    → Verdict c s (settle s out)
unfolding settle Verdict
settle-Verdict c s (ok row, t) h = h
settle-Verdict c s (err e, t) (inl (path, raised, same)) = inl (path, raised, refl)
settle-Verdict c s (err e, t) (inr (free, added)) = absurd (let k = added.returned in cc)

-- For two active tasks between which there is no such dependency yet: if a chain of dependencies
-- leads from the dependent task to the prerequisite, the call raises the error of a cycle and leaves
-- the database as it was. If none does, it returns the dependency, which is the only new one.
pub add_task_dependency_decides :
    (c : TaskDependencyCreate) (ctx : ActionContext) (s : State) (first second : Task)
    → active_task c.prerequisite_task_id s.db ≡ ok first
    → active_task c.dependent_task_id s.db ≡ ok second
    → get_dependency c.prerequisite_task_id c.dependent_task_id s.db ≡ none
    → Verdict c s (add_task_dependency c ctx s)
unfolding add_task_dependency add_task_dependency_body atomic_domain_action
add_task_dependency_decides c ctx s first second h k absent =
    settle-Verdict c s (add_task_dependency_body c ctx s)
      (subst (Verdict c s) (sym runs) (depend_now-Verdict c ctx s))
  where
    look : Action (Option TaskDependency)
    look = query λ db. ok (get_dependency c.prerequisite_task_id c.dependent_task_id db)

    runs : add_task_dependency_body c ctx s ≡ depend_now c ctx none s
    runs =
        bind_runs (query (active_task c.prerequisite_task_id))
          (λ _. query (active_task c.dependent_task_id) >> (look >>= depend_now c ctx)) s first h
        ∙ (bind_runs (query (active_task c.dependent_task_id)) (λ _. look >>= depend_now c ctx) s
              second k
            ∙ bind_runs look (depend_now c ctx) s none (ap ok absent))

-- ===== src/WorldState/Service/Tests.antt =====
-- services/world_state.py on concrete inputs: two tasks, and the theorems of the service at them.
mod Data
use elowyn_assist.Common.{subst}
use elowyn_assist.Common.{
  ℕ, ◌≡◌, ◌≢◌, ◌↔◌, refl, none, some, List, [], ◌∷◌, map, length, Bool, true,
}
use elowyn_assist.Domain.Errors.{Result, ok, err, invalid, cyclic_dependency, fuel_spent}
use elowyn_assist.Mutation.{atomic_domain_action, operation, append_event, append_reversal}
use elowyn_assist.Db.Queries.{latest}
use elowyn_assist.Mutation.Log.{Logs}
use elowyn_assist.WorldState.Guards.{
  get_task, active_entity, active_task, check_goals, check_prerequisites,
}
use elowyn_assist.WorldState.Dependencies.{dependency_would_cycle, search, dependents}
use elowyn_assist.WorldState.Dependencies.Graph.{Reach}
use elowyn_assist.WorldState.Dependencies.Search.{dependency_would_cycle_iff}
use elowyn_assist.WorldState.Hierarchy.{
  task_parents, check_task_parent, check_project_parent, check_goal_parent,
}
use elowyn_assist.WorldState.Hierarchy.Ends.{hierarchy_checks_end}
use elowyn_assist.WorldState.Hierarchy.Forest.{IsForest}
use elowyn_assist.WorldState.Hierarchy.Tasks.{update_task-IsForest}
use elowyn_assist.WorldState.Links.{add_task_dependency}
use elowyn_assist.WorldState.Links.Verdict.{Verdict, add_task_dependency_decides}
use elowyn_assist.WorldState.Tasks.{update_task, new_task}
use elowyn_assist.WorldState.Tasks.Completed.{IsConsistent, update_task-IsConsistent}
use elowyn_assist.Db.World.{Task}
use elowyn_assist.WorldState.Undo.{undo_entity, undo_last_change}
use elowyn_assist.WorldState.Undo.Effect.{IsUndone, undo_last_change-IsUndone}
use elowyn_assist.WorldState.Service.{perform, run}
use elowyn_assist.WorldState.Service.Keeps.{IsOrdered}
use elowyn_assist.WorldState.Service.Acyclic.{run-IsOrdered}
use elowyn_assist.WorldState.Service.Log.{run_appends}
use elowyn_assist.WorldState.Service.Tests.Data.{
  after_update, undo_event, finished, new_input, two_tasks, two_tasks-IsOrdered, two_tasks-IsForest,
  context, promoted, closing, calls,
}

-- The second task waits for the first, so the first may not wait for the second.
add_task_dependency_decides_example :
    Verdict
      (record { prerequisite_task_id = 2; dependent_task_id = 1 })
      two_tasks
      (add_task_dependency
        (record { prerequisite_task_id = 2; dependent_task_id = 1 })
        context
        two_tasks)
unfolding active_task active_entity
add_task_dependency_decides_example =
    add_task_dependency_decides (record { prerequisite_task_id = 2; dependent_task_id = 1 }) context
      two_tasks (new_task 2 (new_input (some 1) []) none none)
      (new_task 1 (new_input none []) none none) refl refl refl

-- The cycle is refused.
closing_refused : (perform closing two_tasks).0 ≡ err (invalid cyclic_dependency)
unfolding perform add_task_dependency atomic_domain_action active_task active_entity
    dependency_would_cycle search dependents
closing_refused = refl

run-IsOrdered_example : IsOrdered (run calls two_tasks).db (run calls two_tasks).next_id
run-IsOrdered_example = run-IsOrdered calls two_tasks two_tasks-IsOrdered

run_appends_example : Logs two_tasks (run calls two_tasks)
run_appends_example = run_appends calls two_tasks

dependency_would_cycle_iff_example :
    (b : Bool) × (dependency_would_cycle 1 2 two_tasks.db ≡ ok b)
    × ((b ≡ true) ↔ Reach two_tasks.db.world.task_dependencies 2 1)
dependency_would_cycle_iff_example = dependency_would_cycle_iff 1 2 two_tasks.db

hierarchy_checks_end_example :
    (check_task_parent 1 (some 2) two_tasks.db ≢ err fuel_spent)
    × (check_project_parent 1 (some 2) two_tasks.db ≢ err fuel_spent)
    × (check_goal_parent 1 (some 2) two_tasks.db ≢ err fuel_spent)
hierarchy_checks_end_example = hierarchy_checks_end 1 (some 2) two_tasks.db

update_task-IsForest_example : IsForest (task_parents (update_task promoted context two_tasks).1.db)
update_task-IsForest_example = update_task-IsForest promoted context two_tasks two_tasks-IsForest

-- The undo gives the task back its status and its parent.
undo_returns : (undo_last_change context none after_update).0 ≡ ok undo_event
unfolding undo_last_change after_update atomic_domain_action latest operation append_event
    append_reversal
undo_returns = refl

restored : (get_task 2 (undo_last_change context none after_update).1.db ≡ get_task 2 two_tasks.db)
unfolding undo_last_change after_update atomic_domain_action latest operation append_event
    append_reversal
restored = refl

undo_last_change-IsUndone_example :
    (i : ℕ) × (undo_entity none after_update.db ≡ ok i)
    × IsUndone i after_update.db.events
        (undo_last_change context none after_update).1.db.events
        undo_event
undo_last_change-IsUndone_example =
    undo_last_change-IsUndone context none after_update undo_event undo_returns

-- The second task was not done, and the update makes it so.
second_task-IsConsistent : (old : Task) → get_task 2 two_tasks.db ≡ some old → IsConsistent old
second_task-IsConsistent old h = subst IsConsistent (second_task old h) refl
  where
    second_task :
        (old : Task)
        → get_task 2 two_tasks.db ≡ some old
        → new_task 2 (new_input (some 1) []) none none ≡ old
    second_task old h = cc

update_returns : (update_task promoted context two_tasks).0 ≡ ok finished
unfolding update_task atomic_domain_action operation append_event
update_returns = refl

update_task-IsConsistent_example : IsConsistent finished
update_task-IsConsistent_example =
    update_task-IsConsistent promoted context two_tasks finished second_task-IsConsistent
      update_returns

-- ===== src/WorldState/Links.antt =====
-- services/world_state.py: `link_task_goal`, `link_project_goal` and
-- `add_task_dependency`. The locks of the two rows are left out.
pub mod Verdict
use elowyn_assist.Common.{ℕ, ◌&&◌, Option, none, some, [], ◌∷◌, ◌++◌, ◌==◌, find}
use elowyn_assist.Common.Json.{null, uuid, object, end, field}
use elowyn_assist.Domain.Enums.{EventType}
use elowyn_assist.Domain.Errors.{ok, invalid, cyclic_dependency}
use elowyn_assist.Domain.Commands.{TaskGoalLinkCreate, ProjectGoalLinkCreate, TaskDependencyCreate}
use elowyn_assist.Db.World.{TaskGoalLink, ProjectGoalLink, TaskDependency}
use elowyn_assist.Db.Store.{Db}
use elowyn_assist.Mutation.{
  Action, pure, query, refuse_if, write, ◌>>=◌, ◌>>◌, atomic_domain_action, ActionContext,
  operation, change,
}
use elowyn_assist.WorldState.Guards.{in_world, active_task, active_project, active_goal}
use elowyn_assist.WorldState.Events.{record_event}
use elowyn_assist.WorldState.Dependencies.{dependency_would_cycle}
use elowyn_assist.WorldState.Tasks.{new_task_goal, new_dependency}
use elowyn_assist.WorldState.Projects.{new_project_goal}

abbrev pub get_task_goal : ℕ → ℕ → Db → Option TaskGoalLink
get_task_goal t g db = find (λ l. l.task_id == t && l.goal_id == g) db.world.task_goals

abbrev pub get_project_goal : ℕ → ℕ → Db → Option ProjectGoalLink
get_project_goal p g db = find (λ l. l.project_id == p && l.goal_id == g) db.world.project_goals

abbrev pub get_dependency : ℕ → ℕ → Db → Option TaskDependency
get_dependency p d db =
    find (λ r. r.prerequisite_task_id == p && r.dependent_task_id == d) db.world.task_dependencies

unfoldable pub link_task_now :
    TaskGoalLinkCreate → ActionContext → Option TaskGoalLink → Action TaskGoalLink
unfolding record_event
link_task_now c ctx (some existing) = pure existing
link_task_now c ctx none = do
  op ← operation ctx
  let link = new_task_goal c.task_id ctx.source c.goal_id
  write (in_world λ w. record w { task_goals = w.task_goals ++ link ∷ [] })
  record_event op EventType.relation_created c.task_id ctx.source (
      change "task_goal_link" null
        (object (field "task_id" (uuid c.task_id) (field "goal_id" (uuid c.goal_id) end)))
      ∷ [])
  pure link

unfoldable pub link_task_goal_body : TaskGoalLinkCreate → ActionContext → Action TaskGoalLink
unfolding active_task active_goal link_task_now
link_task_goal_body c ctx = do
  query (active_task c.task_id)
  query (active_goal c.goal_id)
  existing ← query λ db. ok (get_task_goal c.task_id c.goal_id db)
  link_task_now c ctx existing

-- `link_task_goal`.
unfoldable pub link_task_goal : TaskGoalLinkCreate → ActionContext → Action TaskGoalLink
unfolding link_task_goal_body
link_task_goal c ctx = atomic_domain_action (link_task_goal_body c ctx)

unfoldable pub link_project_now :
    ProjectGoalLinkCreate → ActionContext → Option ProjectGoalLink → Action ProjectGoalLink
unfolding record_event
link_project_now c ctx (some existing) = pure existing
link_project_now c ctx none = do
  op ← operation ctx
  let link = new_project_goal c.project_id ctx.source c.goal_id
  write (in_world λ w. record w { project_goals = w.project_goals ++ link ∷ [] })
  record_event op EventType.relation_created c.project_id ctx.source (
      change "project_goal_link" null
        (object (field "project_id" (uuid c.project_id) (field "goal_id" (uuid c.goal_id) end)))
      ∷ [])
  pure link

unfoldable pub link_project_goal_body :
    ProjectGoalLinkCreate → ActionContext → Action ProjectGoalLink
unfolding active_project active_goal link_project_now
link_project_goal_body c ctx = do
  query (active_project c.project_id)
  query (active_goal c.goal_id)
  existing ← query λ db. ok (get_project_goal c.project_id c.goal_id db)
  link_project_now c ctx existing

-- `link_project_goal`.
unfoldable pub link_project_goal : ProjectGoalLinkCreate → ActionContext → Action ProjectGoalLink
unfolding link_project_goal_body
link_project_goal c ctx = atomic_domain_action (link_project_goal_body c ctx)

-- The row of a new dependency and its event.
unfoldable pub install_dependency : TaskDependencyCreate → ActionContext → Action TaskDependency
unfolding record_event
install_dependency c ctx = do
  op ← operation ctx
  let row = new_dependency ctx.source c.prerequisite_task_id c.dependent_task_id
  write (in_world λ w. record w { task_dependencies = w.task_dependencies ++ row ∷ [] })
  record_event op EventType.relation_created c.dependent_task_id ctx.source (
      change "task_dependency" null (
        object (
          field "prerequisite_task_id" (uuid c.prerequisite_task_id)
            (field "dependent_task_id" (uuid c.dependent_task_id) end)))
      ∷ [])
  pure row

unfoldable pub depend_now :
    TaskDependencyCreate → ActionContext → Option TaskDependency → Action TaskDependency
unfolding dependency_would_cycle install_dependency
depend_now c ctx (some existing) = pure existing
depend_now c ctx none = do
  cyclic ← query (dependency_would_cycle c.prerequisite_task_id c.dependent_task_id)
  refuse_if cyclic (invalid cyclic_dependency)
  install_dependency c ctx

unfoldable pub add_task_dependency_body :
    TaskDependencyCreate → ActionContext → Action TaskDependency
unfolding active_task depend_now
add_task_dependency_body c ctx = do
  query (active_task c.prerequisite_task_id)
  query (active_task c.dependent_task_id)
  existing ← query λ db. ok (get_dependency c.prerequisite_task_id c.dependent_task_id db)
  depend_now c ctx existing

-- `add_task_dependency`.
unfoldable pub add_task_dependency : TaskDependencyCreate → ActionContext → Action TaskDependency
unfolding add_task_dependency_body
add_task_dependency c ctx = atomic_domain_action (add_task_dependency_body c ctx)

-- ===== src/Planning/Plans.antt =====
-- services/planning.py: `create_plan` and `link_goal`.
pub mod Links
pub mod Log
use elowyn_assist.Common.{
  ℕ, Bool, ◌&&◌, Option, none, some, List, [], ◌∷◌, ◌++◌, map, filter, find, ◌==◌, if◌then◌else◌,
}
use elowyn_assist.Common.Json.{
  Json, null, uuid, name, string, object, array, end, field, Elements, none_left, element,
  optional_text,
}
use elowyn_assist.Domain.Enums.{
  EntityType, EventType, PlanGoalRole, same_plan_goal_role, plan_goal_role_value,
}
use elowyn_assist.Domain.Errors.{Result, ok, err, invalid, different_goal_role, second_primary_goal}
use elowyn_assist.Domain.PlanningCommands.{PlanCreate, PlanGoalLinkCreate}
use elowyn_assist.Db.Rows.{Source, Operation, Entity}
use elowyn_assist.Db.Plans.{Plan, PlanGoalLink}
use elowyn_assist.Db.Store.{Db}
use elowyn_assist.Mutation.{
  Action, pure, raise, query, write, new_id, ◌>>=◌, ◌>>◌, scalar_one_or_none, atomic_domain_action,
  ActionContext, change, operation, append_event,
}
use elowyn_assist.Planning.Guards.{persisted_source, active_goals, plan_by_id}

-- `goal.model_dump(mode="json")`.
abbrev dump_link : PlanGoalLinkCreate → Json
dump_link g =
    object
      (field "goal_id" (uuid g.goal_id) (field "role" (name (plan_goal_role_value g.role)) end))

dump_links : List PlanGoalLinkCreate → Elements
dump_links [] = none_left
dump_links (g ∷ gs) = element (dump_link g) (dump_links gs)

abbrev dump_plan : PlanCreate → Json
dump_plan command = object (
    field "title" (string command.title) (
      field "description" (optional_text command.description)
        (field "goals" (array (dump_links command.goals)) end)))

abbrev pub new_link : ℕ → Source → PlanGoalLinkCreate → PlanGoalLink
new_link plan_id source g = record {
  plan_id = plan_id;
  goal_id = g.goal_id;
  role = g.role;
  source_id = source.id;
}

unfoldable pub add_link : Operation → ℕ → Source → PlanGoalLinkCreate → Action PlanGoalLink
add_link op plan_id source g = do
  let link = new_link plan_id source g
  write λ db. record db { goal_links = db.goal_links ++ link ∷ [] }
  append_event op EventType.plan_goal_linked (some plan_id) (some source)
      (change "goal_link" null (dump_link g) ∷ [])
  pure link

-- The loop over the goals at the end of `create_plan`.
unfoldable pub add_links : Operation → ℕ → Source → List PlanGoalLinkCreate → Action (Unit {0})
unfolding add_link
add_links op plan_id source [] = pure tt
add_links op plan_id source (g ∷ gs) =
    add_link op plan_id source g >> add_links op plan_id source gs

add_entity : EntityType → Action ℕ
add_entity t = do
  i ← new_id
  let entity : Entity = record {
    id = i;
    entity_type = t;
    superseded_by_entity_id = none;
    removed_at = none;
  }
  write λ db. record db { entities = db.entities ++ entity ∷ [] }
  pure i

-- The rows and the event of a new plan.
unfoldable pub new_plan : PlanCreate → Source → Operation → Action Plan
unfolding add_entity dump_links
new_plan command source op = do
  entity_id ← add_entity EntityType.plan
  let plan : Plan = record {
    entity_id = entity_id;
    strategy_id = none;
    title = command.title;
    description = command.description;
  }
  write λ db. record db { plans = db.plans ++ plan ∷ [] }
  append_event op EventType.plan_created (some entity_id) (some source)
      (change "created" null (dump_plan command) ∷ [])
  pure plan

-- The new plan and then its links.
unfoldable pub install_plan : PlanCreate → Source → Operation → Action Plan
unfolding new_plan add_links
install_plan command source op = do
  plan ← new_plan command source op
  add_links op plan.entity_id source command.goals
  pure plan

unfoldable pub create_plan_body : PlanCreate → ActionContext → Action Plan
unfolding install_plan
create_plan_body command ctx = do
  source ← query (persisted_source ctx.source)
  query (active_goals (map (λ g. g.goal_id) command.goals))
  op ← operation ctx
  install_plan command source op

-- `create_plan`.
unfoldable pub create_plan : PlanCreate → ActionContext → Action Plan
unfolding create_plan_body
create_plan command ctx = atomic_domain_action (create_plan_body command ctx)

abbrev pub primary_of : ℕ → PlanGoalLink → Bool
primary_of plan_id link =
    link.plan_id == plan_id && same_plan_goal_role link.role PlanGoalRole.primary

-- The guard on a second primary goal.
unfoldable pub check_primary : ℕ → PlanGoalRole → Db → Result (Unit {0})
check_primary plan_id PlanGoalRole.supporting db = ok tt
check_primary plan_id PlanGoalRole.primary db =
    elim (scalar_one_or_none (filter (primary_of plan_id) db.goal_links)) [
      | ok none ↦ ok tt
      | ok (some link) ↦ err (invalid second_primary_goal)
      | err e ↦ err e
    ]

abbrev pub get_link : ℕ → ℕ → Db → Option PlanGoalLink
get_link plan_id goal_id db = find (λ l. l.plan_id == plan_id && l.goal_id == goal_id) db.goal_links

-- What `link_goal` does once it has looked for the link.
unfoldable pub link_unless :
    ℕ → PlanGoalLinkCreate → ActionContext → Option PlanGoalLink → Action PlanGoalLink
unfolding check_primary add_link
link_unless plan_id command ctx (some existing) =
    if same_plan_goal_role existing.role command.role
    then pure existing
    else raise (invalid different_goal_role)
link_unless plan_id command ctx none = do
  query (check_primary plan_id command.role)
  source ← query (persisted_source ctx.source)
  op ← operation ctx
  add_link op plan_id source command

unfoldable pub link_goal_body : ℕ → PlanGoalLinkCreate → ActionContext → Action PlanGoalLink
unfolding link_unless
link_goal_body plan_id command ctx = do
  plan ← query (plan_by_id plan_id)
  query (active_goals (command.goal_id ∷ []))
  existing ← query λ db. ok (get_link plan.entity_id command.goal_id db)
  link_unless plan.entity_id command ctx existing

-- `link_goal`.
unfoldable pub link_goal : ℕ → PlanGoalLinkCreate → ActionContext → Action PlanGoalLink
unfolding link_goal_body
link_goal plan_id command ctx = atomic_domain_action (link_goal_body plan_id command ctx)

-- ===== src/WorldState/Service/Building/Relations.antt =====
-- services/world_state.py: how the links and relations are built.
use elowyn_assist.Common.{Option, [], filter, none, refl, some, ◌++◌, ◌∷◌}
use elowyn_assist.Common.Json.{end, field, name, null, object, uuid}
use elowyn_assist.Db.Rows.{Source}
use elowyn_assist.Db.World.{EntityRelation, ProjectGoalLink, TaskGoalLink}
use elowyn_assist.Domain.Commands.{
  EntityRelationCreate, ProjectGoalLinkCreate, TaskGoalLinkCreate, check_relation,
}
use elowyn_assist.Domain.Commands.Assessments.{EntityRelationInference}
use elowyn_assist.Domain.Enums.{EventType, relation_type_value}
use elowyn_assist.Domain.Errors.{ok}
use elowyn_assist.Mutation.{ActionContext, change, scalar_one_or_none}
use elowyn_assist.WorldState.Completion.{evidence_of, inferred_by}
use elowyn_assist.WorldState.Guards.{active_entity, active_goal, active_project, active_task}
use elowyn_assist.WorldState.Links.{
  get_project_goal, get_task_goal, link_project_goal, link_project_goal_body, link_project_now,
  link_task_goal, link_task_goal_body, link_task_now,
}
use elowyn_assist.WorldState.Projects.{new_project_goal}
use elowyn_assist.WorldState.Relations.{
  create_relation, create_relation_body, infer_relation, infer_relation_body, inferred_relation,
  new_relation, relate_now, same_relation,
}
use elowyn_assist.WorldState.Service.Building.{
  Built, atomically, inferring, operating, reading, recording, returning, taking_id, writing, ◌>>=◌,
  ◌>>◌,
}
use elowyn_assist.WorldState.Tasks.{new_task_goal}

pub link_task_now-Built :
    (c : TaskGoalLinkCreate) (ctx : ActionContext) (existing : Option TaskGoalLink)
    → Built TaskGoalLink (link_task_now c ctx existing)
unfolding link_task_now
link_task_now-Built c ctx (some existing) = (returning existing).1
link_task_now-Built c ctx none =
    (do
      op ← operating ctx
      let link = new_task_goal c.task_id ctx.source c.goal_id
      writing (λ w. record w { task_goals = w.task_goals ++ link ∷ [] }) (λ w. refl)
      recording op EventType.relation_created c.task_id ctx.source (
          change "task_goal_link" null
            (object (field "task_id" (uuid c.task_id) (field "goal_id" (uuid c.goal_id) end)))
          ∷ [])
      returning link).1

pub link_task_goal_body-Built :
    (c : TaskGoalLinkCreate) (ctx : ActionContext) → Built TaskGoalLink (link_task_goal_body c ctx)
unfolding link_task_goal_body
link_task_goal_body-Built c ctx =
    (do
      reading (active_task c.task_id)
      reading (active_goal c.goal_id)
      existing ← reading λ db. ok (get_task_goal c.task_id c.goal_id db)
      (link_task_now c ctx existing, link_task_now-Built c ctx existing)).1

pub link_task_goal-Built :
    (c : TaskGoalLinkCreate) (ctx : ActionContext) → Built TaskGoalLink (link_task_goal c ctx)
unfolding link_task_goal
link_task_goal-Built c ctx =
    (atomically (link_task_goal_body c ctx, link_task_goal_body-Built c ctx)).1

pub link_project_now-Built :
    (c : ProjectGoalLinkCreate) (ctx : ActionContext) (existing : Option ProjectGoalLink)
    → Built ProjectGoalLink (link_project_now c ctx existing)
unfolding link_project_now
link_project_now-Built c ctx (some existing) = (returning existing).1
link_project_now-Built c ctx none =
    (do
      op ← operating ctx
      let link = new_project_goal c.project_id ctx.source c.goal_id
      writing (λ w. record w { project_goals = w.project_goals ++ link ∷ [] }) (λ w. refl)
      recording op EventType.relation_created c.project_id ctx.source (
          change "project_goal_link" null
            (object (field "project_id" (uuid c.project_id) (field "goal_id" (uuid c.goal_id) end)))
          ∷ [])
      returning link).1

pub link_project_goal_body-Built :
    (c : ProjectGoalLinkCreate) (ctx : ActionContext)
    → Built ProjectGoalLink (link_project_goal_body c ctx)
unfolding link_project_goal_body
link_project_goal_body-Built c ctx =
    (do
      reading (active_project c.project_id)
      reading (active_goal c.goal_id)
      existing ← reading λ db. ok (get_project_goal c.project_id c.goal_id db)
      (link_project_now c ctx existing, link_project_now-Built c ctx existing)).1

pub link_project_goal-Built :
    (c : ProjectGoalLinkCreate) (ctx : ActionContext)
    → Built ProjectGoalLink (link_project_goal c ctx)
unfolding link_project_goal
link_project_goal-Built c ctx =
    (atomically (link_project_goal_body c ctx, link_project_goal_body-Built c ctx)).1

pub relate_now-Built :
    (c : EntityRelationCreate) (ctx : ActionContext) (existing : Option EntityRelation)
    → Built EntityRelation (relate_now c ctx existing)
unfolding relate_now
relate_now-Built c ctx (some existing) = (returning existing).1
relate_now-Built c ctx none =
    (do
      op ← operating ctx
      i ← taking_id
      let relation = new_relation i c ctx.source
      writing (λ w. record w { relations = w.relations ++ relation ∷ [] }) (λ w. refl)
      recording op EventType.relation_created c.source_entity_id ctx.source (
          change "entity_relation" null (
            object (
              field "source_entity_id" (uuid c.source_entity_id) (
                field "target_entity_id" (uuid c.target_entity_id)
                  (field "relation_type" (name (relation_type_value c.relation_type)) end))))
          ∷ [])
      returning relation).1

pub create_relation_body-Built :
    (c : EntityRelationCreate) (ctx : ActionContext)
    → Built EntityRelation (create_relation_body c ctx)
unfolding create_relation_body
create_relation_body-Built c ctx =
    (do
      reading (active_entity c.source_entity_id none)
      reading (active_entity c.target_entity_id none)
      existing ← reading λ db. scalar_one_or_none (filter (same_relation c) db.world.relations)
      (relate_now c ctx existing, relate_now-Built c ctx existing)).1

pub create_relation-Built :
    (c : EntityRelationCreate) (ctx : ActionContext) → Built EntityRelation (create_relation c ctx)
unfolding create_relation
create_relation-Built c ctx =
    (atomically (create_relation_body c ctx, create_relation_body-Built c ctx)).1

pub infer_relation_body-Built :
    (c : EntityRelationInference) (evidence : Option Source)
    → Built EntityRelation (infer_relation_body c evidence)
unfolding infer_relation_body
infer_relation_body-Built c evidence =
    (do
      inference ← inferring c.confidence c.reason_summary (evidence_of evidence)
      relation ← reading λ db. check_relation (inferred_relation c)
      (
        create_relation relation (inferred_by inference "Elowyn semantic relation inference"),
        create_relation-Built relation (inferred_by inference "Elowyn semantic relation inference"),
      )).1

pub infer_relation-Built :
    (c : EntityRelationInference) (evidence : Option Source)
    → Built EntityRelation (infer_relation c evidence)
unfolding infer_relation
infer_relation-Built c evidence =
    (atomically (infer_relation_body c evidence, infer_relation_body-Built c evidence)).1

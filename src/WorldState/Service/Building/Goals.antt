-- ===== src/WorldState/Service/Building/Goals.antt =====
-- services/world_state.py: how the operations on goals are built.
use elowyn_assist.Common.{List, Option, [], false, is_empty, none, not, refl, true, ℕ, ◌++◌, ◌∷◌}
use elowyn_assist.Common.Json.{null}
use elowyn_assist.Db.Rows.{Operation, Source}
use elowyn_assist.Db.World.{Goal}
use elowyn_assist.Domain.Commands.{GoalCreate, SuccessCriterionCreate}
use elowyn_assist.Domain.Commands.Assessments.{Assessment}
use elowyn_assist.Domain.Commands.Updates.{GoalUpdate, check_goal_update}
use elowyn_assist.Domain.Enums.{EntityType, EventType, same_goal_status}
use elowyn_assist.Domain.Errors.{integrity, invalid, no_change}
use elowyn_assist.Mutation.{ActionContext, change}
use elowyn_assist.WorldState.Completion.{evidence_of, inferred_by, stamp, stamp_change}
use elowyn_assist.WorldState.Examine.{examine_goal, examine_goal_update}
use elowyn_assist.WorldState.Fields.{Draft}
use elowyn_assist.WorldState.Goals.{
  add_criteria, apply_goal_update, assess_goal, assess_goal_body, assessed_goal, assign_goal,
  create_goal, create_goal_body, dump_goal, goal_event, goal_nulls, install_goal, is_achieved,
  new_criterion, new_goal, settle_goal, update_goal, update_goal_body,
}
use elowyn_assist.WorldState.Guards.{put_goal}
use elowyn_assist.WorldState.Service.Building.{
  Built, atomically, entering, inferring, operating, reading, recording, refusing, returning,
  taking_id, writing, ◌>>=◌, ◌>>◌,
}
use elowyn_assist.WorldState.Service.Building.Tasks.{stamp-Built}

pub add_criteria-Built :
    (goal_id : ℕ) (source : Option Source) (rows : List SuccessCriterionCreate)
    → Built (Unit {0}) (add_criteria goal_id source rows)
unfolding add_criteria
add_criteria-Built goal_id source [] = (returning tt).1
add_criteria-Built goal_id source (c ∷ cs) =
    (do
      i ← taking_id
      writing (λ w. record w { criteria = w.criteria ++ new_criterion i goal_id source c ∷ [] })
          (λ w. refl)
      (add_criteria goal_id source cs, add_criteria-Built goal_id source cs)).1

pub install_goal-Built :
    (command : GoalCreate) (source : Option Source) (op : Operation)
    → Built Goal (install_goal command source op)
unfolding install_goal
install_goal-Built command source op =
    (do
      i ← entering EntityType.goal
      achieved_at ← (
        stamp true (is_achieved command.status) false none,
        stamp-Built true (is_achieved command.status) false none,
      )
      let goal = new_goal i command source achieved_at
      writing (λ w. record w { goals = w.goals ++ goal ∷ [] }) (λ w. refl)
      (
        add_criteria i source command.success_criteria,
        add_criteria-Built i source command.success_criteria,
      )
      recording op EventType.goal_created i source (change "created" null (dump_goal command) ∷ [])
      returning goal).1

pub create_goal_body-Built :
    (command : GoalCreate) (ctx : ActionContext) → Built Goal (create_goal_body command ctx)
unfolding create_goal_body
create_goal_body-Built command ctx =
    (do
      reading (examine_goal command)
      op ← operating ctx
      (install_goal command ctx.source op, install_goal-Built command ctx.source op)).1

pub create_goal-Built :
    (command : GoalCreate) (ctx : ActionContext) → Built Goal (create_goal command ctx)
unfolding create_goal
create_goal-Built command ctx =
    (atomically (create_goal_body command ctx, create_goal_body-Built command ctx)).1

pub settle_goal-Built :
    (old : Goal) (draft : Draft Goal) (source : Option Source) (op : Operation)
    (achieved_at : Option ℕ)
    → Built Goal (settle_goal old draft source op achieved_at)
unfolding settle_goal
settle_goal-Built old (row, changes) source op achieved_at =
    (do
      let goal = record row { achieved_at = achieved_at }
      let all_changes = changes ++ stamp_change "achieved_at" old.achieved_at achieved_at
      refusing (is_empty all_changes) (invalid no_change)
      writing ((put_goal goal)) (λ w. refl)
      recording op (goal_event old.status goal.status) goal.entity_id source all_changes
      returning goal).1

pub apply_goal_update-Built :
    (command : GoalUpdate) (source : Option Source) (old : Goal) (op : Operation)
    → Built Goal (apply_goal_update command source old op)
unfolding apply_goal_update
apply_goal_update-Built command source old op =
    (do
      let draft = assign_goal command source (old, [])
      achieved_at ← (
        stamp (not (same_goal_status draft.0.status old.status)) (is_achieved draft.0.status)
            (is_achieved old.status) old.achieved_at,
        stamp-Built (not (same_goal_status draft.0.status old.status)) (is_achieved draft.0.status)
            (is_achieved old.status) old.achieved_at,
      )
      refusing (goal_nulls command) integrity
      (
        settle_goal old draft source op achieved_at,
        settle_goal-Built old draft source op achieved_at,
      )).1

pub update_goal_body-Built :
    (command : GoalUpdate) (ctx : ActionContext) → Built Goal (update_goal_body command ctx)
unfolding update_goal_body
update_goal_body-Built command ctx =
    (do
      (row, target_date_type) ← reading (examine_goal_update command)
      op ← operating ctx
      (
        apply_goal_update (record command { target_date_type = target_date_type }) ctx.source row
            op,
        apply_goal_update-Built (record command { target_date_type = target_date_type }) ctx.source
            row op,
      )).1

pub update_goal-Built :
    (command : GoalUpdate) (ctx : ActionContext) → Built Goal (update_goal command ctx)
unfolding update_goal
update_goal-Built command ctx =
    (atomically (update_goal_body command ctx, update_goal_body-Built command ctx)).1

pub assess_goal_body-Built :
    (command : Assessment) (evidence : Option Source)
    → Built Goal (assess_goal_body command evidence)
unfolding assess_goal_body
assess_goal_body-Built command evidence =
    (do
      inference ← inferring command.confidence command.reason_summary (evidence_of evidence)
      update ← reading λ db. check_goal_update (assessed_goal command)
      (
        update_goal update (inferred_by inference "Elowyn goal importance assessment"),
        update_goal-Built update (inferred_by inference "Elowyn goal importance assessment"),
      )).1

pub assess_goal-Built :
    (command : Assessment) (evidence : Option Source) → Built Goal (assess_goal command evidence)
unfolding assess_goal
assess_goal-Built command evidence =
    (atomically (assess_goal_body command evidence, assess_goal_body-Built command evidence)).1

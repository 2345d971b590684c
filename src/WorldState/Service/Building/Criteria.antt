-- ===== src/WorldState/Service/Building/Criteria.antt =====
-- services/world_state.py: how the operations on success criteria are built.
use elowyn_assist.Common.{Option, [], is_empty, refl, ◌∷◌}
use elowyn_assist.Db.Rows.{Source}
use elowyn_assist.Db.World.{SuccessCriterion}
use elowyn_assist.Domain.Commands.Assessments.{SuccessCriterionAssessment}
use elowyn_assist.Domain.Commands.Updates.{SuccessCriterionUpdate, check_criterion_update}
use elowyn_assist.Domain.Enums.{EventType}
use elowyn_assist.Domain.Errors.{integrity, invalid, no_change}
use elowyn_assist.Mutation.{ActionContext}
use elowyn_assist.WorldState.Completion.{evidence_of, inferred_by}
use elowyn_assist.WorldState.Criteria.{
  assess_success_criterion, assess_success_criterion_body, assessed_criterion, assign_criterion,
  criterion_change, criterion_nulls, settle_criterion, update_success_criterion,
  update_success_criterion_body,
}
use elowyn_assist.WorldState.Fields.{Draft}
use elowyn_assist.WorldState.Guards.{put_criterion, success_criterion}
use elowyn_assist.WorldState.Service.Building.{
  Built, atomically, inferring, operating, reading, recording, refusing, returning, writing, ◌>>=◌,
  ◌>>◌,
}

pub settle_criterion-Built :
    (draft : Draft SuccessCriterion) (ctx : ActionContext)
    → Built SuccessCriterion (settle_criterion draft ctx)
unfolding settle_criterion
settle_criterion-Built (row, changes) ctx =
    (do
      refusing (is_empty changes) (invalid no_change)
      writing ((put_criterion row)) (λ w. refl)
      op ← operating ctx
      recording op EventType.success_criterion_updated row.goal_id ctx.source
          (criterion_change row.id changes ∷ [])
      returning row).1

pub update_success_criterion_body-Built :
    (command : SuccessCriterionUpdate) (ctx : ActionContext)
    → Built SuccessCriterion (update_success_criterion_body command ctx)
unfolding update_success_criterion_body
update_success_criterion_body-Built command ctx =
    (do
      old ← reading (success_criterion command.criterion_id)
      refusing (criterion_nulls command) integrity
      (
        settle_criterion (assign_criterion command ctx.source old) ctx,
        settle_criterion-Built (assign_criterion command ctx.source old) ctx,
      )).1

pub update_success_criterion-Built :
    (command : SuccessCriterionUpdate) (ctx : ActionContext)
    → Built SuccessCriterion (update_success_criterion command ctx)
unfolding update_success_criterion
update_success_criterion-Built command ctx =
    (atomically (
      update_success_criterion_body command ctx,
      update_success_criterion_body-Built command ctx,
    )).1

pub assess_success_criterion_body-Built :
    (command : SuccessCriterionAssessment) (evidence : Option Source)
    → Built SuccessCriterion (assess_success_criterion_body command evidence)
unfolding assess_success_criterion_body
assess_success_criterion_body-Built command evidence =
    (do
      inference ← inferring command.confidence command.reason_summary (evidence_of evidence)
      update ← reading λ db. check_criterion_update (assessed_criterion command)
      (
        update_success_criterion update
            (inferred_by inference "Elowyn success criterion assessment"),
        update_success_criterion-Built update
            (inferred_by inference "Elowyn success criterion assessment"),
      )).1

pub assess_success_criterion-Built :
    (command : SuccessCriterionAssessment) (evidence : Option Source)
    → Built SuccessCriterion (assess_success_criterion command evidence)
unfolding assess_success_criterion
assess_success_criterion-Built command evidence =
    (atomically (
      assess_success_criterion_body command evidence,
      assess_success_criterion_body-Built command evidence,
    )).1

-- ===== src/WorldState/Criteria.antt =====
-- services/world_state.py: `update_success_criterion` and `assess_success_criterion`.
use elowyn_assist.Common.{ℕ, Bool, ◌||◌, Option, some, List, [], ◌∷◌, ◌++◌, is_empty}
use elowyn_assist.Common.Text.{same_text}
use elowyn_assist.Common.Float.{same_float}
use elowyn_assist.Common.Json.{
  name, string, object, Fields, end, field, optional_text, optional_uuid, optional_real,
}
use elowyn_assist.Domain.Enums.{
  EventType, same_success_criterion_status, success_criterion_status_value,
}
use elowyn_assist.Domain.Errors.{invalid, integrity, no_change}
use elowyn_assist.Domain.Commands.Fields.{unset, sent}
use elowyn_assist.Domain.Commands.Updates.{SuccessCriterionUpdate, check_criterion_update}
use elowyn_assist.Domain.Commands.Assessments.{SuccessCriterionAssessment}
use elowyn_assist.Db.Rows.{Source, Change}
use elowyn_assist.Db.World.{SuccessCriterion}
use elowyn_assist.Mutation.{
  Action, pure, query, refuse_if, write, ◌>>=◌, ◌>>◌, atomic_domain_action, ActionContext,
  operation, source_id_of, change, assistant_inference_source,
}
use elowyn_assist.WorldState.Guards.{put_criterion, in_world, success_criterion}
use elowyn_assist.WorldState.Events.{record_event}
use elowyn_assist.WorldState.Fields.{Draft, assign, assign_value, sends_null}
use elowyn_assist.WorldState.Completion.{evidence_of, inferred_by}

-- The columns of an evaluation, which share a source.
unfoldable pub assign_evaluation :
    SuccessCriterionUpdate → Draft SuccessCriterion → Draft SuccessCriterion
unfolding assign assign_value
assign_evaluation c d =
    assign "evaluation_summary" same_text optional_text (λ r. r.evaluation_summary)
      (λ x r. record r { evaluation_summary = x }) c.evaluation_summary
      (assign "confidence" same_float optional_real (λ r. r.confidence)
        (λ x r. record r { confidence = x }) c.confidence
        (assign_value "status" same_success_criterion_status
          (λ x. name (success_criterion_status_value x)) (λ r. r.status)
          (λ x r. record r { status = x }) c.status d))

-- The new source of an evaluation that has changed.
unfoldable pub assign_source :
    Option Source → List Change → Draft SuccessCriterion → Draft SuccessCriterion
assign_source source [] d = d
assign_source source (e ∷ es) (row, changes) = (
  record row { evaluation_source_id = source_id_of source },
  changes
      ++ change "evaluation_source_id" (optional_uuid row.evaluation_source_id)
          (optional_uuid (source_id_of source))
        ∷ [],
)

-- The loop over the fields: the description, then the evaluation with its source.
unfoldable pub assign_criterion :
    SuccessCriterionUpdate → Option Source → SuccessCriterion → Draft SuccessCriterion
unfolding assign_value assign_evaluation assign_source
assign_criterion c source old =
    let first =
      assign_value "description" same_text string (λ r. r.description)
        (λ x r. record r { description = x }) c.description (old, []) in
    let evaluated = assign_evaluation c (first.0, []) in
    assign_source source evaluated.1 (evaluated.0, first.1 ++ evaluated.1)

abbrev pub old_values : List Change → Fields
old_values [] = end
old_values (c ∷ cs) = field c.field c.old (old_values cs)

abbrev pub new_values : List Change → Fields
new_values [] = end
new_values (c ∷ cs) = field c.field c.new (new_values cs)

-- The one change of the event, which holds the changed columns.
abbrev pub criterion_change : ℕ → List Change → Change
criterion_change i changes = record {
  field = "success_criterion";
  criterion_id = some i;
  old = object (old_values changes);
  new = object (new_values changes);
}

abbrev pub criterion_nulls : SuccessCriterionUpdate → Bool
criterion_nulls c = sends_null c.description || sends_null c.status

unfoldable pub settle_criterion : Draft SuccessCriterion → ActionContext → Action SuccessCriterion
unfolding record_event
settle_criterion (row, changes) ctx = do
  refuse_if (is_empty changes) (invalid no_change)
  write (in_world (put_criterion row))
  op ← operation ctx
  record_event op EventType.success_criterion_updated row.goal_id ctx.source
      (criterion_change row.id changes ∷ [])
  pure row

unfoldable pub update_success_criterion_body :
    SuccessCriterionUpdate → ActionContext → Action SuccessCriterion
unfolding success_criterion assign_criterion settle_criterion
update_success_criterion_body command ctx = do
  old ← query (success_criterion command.criterion_id)
  refuse_if (criterion_nulls command) integrity
  settle_criterion (assign_criterion command ctx.source old) ctx

-- `update_success_criterion`.
unfoldable pub update_success_criterion :
    SuccessCriterionUpdate → ActionContext → Action SuccessCriterion
unfolding update_success_criterion_body
update_success_criterion command ctx =
    atomic_domain_action (update_success_criterion_body command ctx)

abbrev pub assessed_criterion : SuccessCriterionAssessment → SuccessCriterionUpdate
assessed_criterion command = record {
  criterion_id = command.criterion_id;
  description = unset;
  status = sent (some command.status);
  confidence = sent (some command.confidence);
  evaluation_summary = sent (some command.evaluation_summary);
}

unfoldable pub assess_success_criterion_body :
    SuccessCriterionAssessment → Option Source → Action SuccessCriterion
unfolding update_success_criterion check_criterion_update
assess_success_criterion_body command evidence = do
  inference ←
      assistant_inference_source command.confidence command.reason_summary (evidence_of evidence)
  update ← query λ db. check_criterion_update (assessed_criterion command)
  update_success_criterion update (inferred_by inference "Elowyn success criterion assessment")

-- `assess_success_criterion`.
unfoldable pub assess_success_criterion :
    SuccessCriterionAssessment → Option Source → Action SuccessCriterion
unfolding assess_success_criterion_body
assess_success_criterion command evidence =
    atomic_domain_action (assess_success_criterion_body command evidence)

-- ===== src/Planning/Service/Log.antt =====
-- services/planning.py: the events that a run of the service appends.
use elowyn_assist.Common.{refl, Option, none, some, List, [], ◌∷◌}
use elowyn_assist.Domain.Errors.{Result, ok, err}
use elowyn_assist.Domain.PlanningCommands.{PlanVersionPresentationCreate}
use elowyn_assist.Db.Rows.{Message}
use elowyn_assist.Db.Plans.{Plan, PlanVersion, PlanVersionPresentation}
use elowyn_assist.Db.Store.{State}
use elowyn_assist.Mutation.{outcome, Action, ActionContext, append_event}
use elowyn_assist.Planning.Service.{Call, perform, run}
use elowyn_assist.Planning.Candidates.{create_candidate_version}
use elowyn_assist.Planning.Rejection.{reject_candidate_version}
use elowyn_assist.Planning.Approval.{approve_plan_version}
use elowyn_assist.Planning.Reactivation.{reactivate_historical_plan_version}
use elowyn_assist.Planning.Plans.{create_plan, link_goal}
use elowyn_assist.Planning.Presentation.{
  present_unless, record_version_presentation_body, record_version_presentation,
}
use elowyn_assist.Planning.Progress.{update_plan_item_progress}
use elowyn_assist.Mutation.Log.{
  Logs-bind, Logs, Logs-silent, Logs-trans, Logs-one, Logging, atomic-Logging,
}
use elowyn_assist.Common.{◌&&◌, filter, ◌==◌}
use elowyn_assist.Mutation.{query, ◌>>=◌, operation, scalar_one_or_none}
use elowyn_assist.Planning.Guards.{locked_version}
use elowyn_assist.Planning.Rejection.Log.{reject_candidate_version-Logging}
use elowyn_assist.Planning.Candidates.Log.{create_candidate_version-Logging}
use elowyn_assist.Db.Store.{Db}
use elowyn_assist.Planning.Approval.Log.{approve_plan_version-Logging}
use elowyn_assist.Planning.Reactivation.Log.{reactivate_historical_plan_version-Logging}
use elowyn_assist.Planning.Progress.Log.{update_plan_item_progress-Logging}
use elowyn_assist.Planning.Plans.Log.{create_plan-Logging, link_goal-Logging}
use elowyn_assist.Planning.Presentation.{assistant_message}

present_unless-Logs :
    (plan : Plan) (v : PlanVersion) (m : Message) (ctx : ActionContext)
    (o : Option PlanVersionPresentation) (s : State)
    → Logs s (present_unless plan v m ctx o s).1
unfolding present_unless append_event operation
present_unless-Logs plan v m ctx (some existing) s = Logs-silent s s refl refl
present_unless-Logs plan v m ctx none s =
    Logs-one s (present_unless plan v m ctx none s).1 _ (s.clock s.readings) refl refl refl

record_version_presentation-Logging :
    (command : PlanVersionPresentationCreate) (ctx : ActionContext)
    → Logging (record_version_presentation command ctx)
unfolding record_version_presentation record_version_presentation_body
record_version_presentation-Logging command ctx =
    atomic-Logging (record_version_presentation_body command ctx) (record {
      logs = λ s.
          Logs-bind (query (locked_version command.plan_version_id))
            (λ target. query (assistant_message command.message_id) >>= look target) s
            (Logs-silent s s refl refl)
            λ target t.
              Logs-bind (query (assistant_message command.message_id)) (look target) t
                (Logs-silent t t refl refl)
                λ message u.
                  Logs-bind (query (seen target message))
                    (present_unless target.0 target.1 message ctx) u (Logs-silent u u refl refl)
                    (present_unless-Logs target.0 target.1 message ctx);
    })
  where
    seen : Plan × PlanVersion → Message → Db → Result (Option PlanVersionPresentation)
    seen target message db = scalar_one_or_none (
        filter (λ p. p.plan_version_id == target.1.id && p.message_id == message.id)
          db.presentations)

    look : Plan × PlanVersion → Message → Action PlanVersionPresentation
    look target message =
        query (seen target message) >>= present_unless target.0 target.1 message ctx

outcome-Logs {ℓ} :
    {A : Type ℓ} (s : State) (out : Result A × State) → Logs s out.1 → Logs s (outcome out).1
outcome-Logs s (ok a, t) h = h
outcome-Logs s (err e, t) h = h

perform-Logs : (call : Call) (ctx : ActionContext) (s : State) → Logs s (perform call ctx s).1
unfolding perform
perform-Logs (Call.create_plan c) ctx s =
    outcome-Logs s (create_plan c ctx s) ((create_plan-Logging c ctx).logs s)
perform-Logs (Call.link_goal i c) ctx s =
    outcome-Logs s (link_goal i c ctx s) ((link_goal-Logging i c ctx).logs s)
perform-Logs (Call.create_candidate c) ctx s =
    outcome-Logs s (create_candidate_version c ctx s)
      ((create_candidate_version-Logging c ctx).logs s)
perform-Logs (Call.present c) ctx s =
    outcome-Logs s (record_version_presentation c ctx s)
      ((record_version_presentation-Logging c ctx).logs s)
perform-Logs (Call.reject c) ctx s =
    outcome-Logs s (reject_candidate_version c ctx s)
      ((reject_candidate_version-Logging c ctx).logs s)
perform-Logs (Call.approve c) ctx s =
    outcome-Logs s (approve_plan_version c ctx s) ((approve_plan_version-Logging c ctx).logs s)
perform-Logs (Call.reactivate c) ctx s =
    outcome-Logs s (reactivate_historical_plan_version c ctx s)
      ((reactivate_historical_plan_version-Logging c ctx).logs s)
perform-Logs (Call.progress c) ctx s =
    outcome-Logs s (update_plan_item_progress c ctx s)
      ((update_plan_item_progress-Logging c ctx).logs s)

-- Whichever calls of a run return or raise, the events before it are kept as they are, in front of
-- those that it adds. The times of these ascend strictly, from after the last event that the session
-- has added, and the session's last event is not before them.
pub run-Logs : (calls : List (Call × ActionContext)) (s : State) → Logs s (run calls s)
unfolding run
run-Logs [] s = Logs-silent s s refl refl
run-Logs ((call, ctx) ∷ calls) s =
    let t = (perform call ctx s).1 in
    Logs-trans s t (run calls t) (perform-Logs call ctx s) (run-Logs calls t)

-- ===== src/Planning/Reactivation/Log.antt =====
-- services/planning.py: the events that a reactivation appends.
use elowyn_assist.Common.{refl, Option}
use elowyn_assist.Db.Rows.{Source, Operation, Message}
use elowyn_assist.Db.Plans.{Plan, PlanVersion}
use elowyn_assist.Db.Store.{State}
use elowyn_assist.Mutation.{Action, ActionContext, append_event}
use elowyn_assist.Planning.Reactivation.{
  reactivate_historical_plan_version_body, reactivate_historical_plan_version,
}
use elowyn_assist.Mutation.Log.{
  Logs-bind, Logs, Logs-silent, Logs-trans, Logs-one, Logging, atomic-Logging,
}
use elowyn_assist.Common.{suc, Bool-cases, inl, inr, is_none}
use elowyn_assist.Domain.Enums.{PlanVersionStatus}
use elowyn_assist.Domain.Errors.{invalid, no_approved_version}
use elowyn_assist.Mutation.{query, refuse_if, ◌>>◌}
use elowyn_assist.Domain.PlanningCommands.{PlanVersionCommand}
use elowyn_assist.Planning.Guards.{presented}
use elowyn_assist.Planning.Rows.{put_version, has_status}
use elowyn_assist.Planning.Strategy.{accept_strategy, supersede_if_any, other_approved}
use elowyn_assist.Planning.Reactivation.{
  current_again, finish_reactivation, install_reactivation, reactivate_as, never_approved,
  reactivate_now, reactivate_by,
}
use elowyn_assist.Planning.Strategy.Log.{accept_strategy-Logs, replace-Logs}
use elowyn_assist.Planning.Lifecycle.Log.{authorised-Logging, with_operation-Logs}

install_reactivation-Logs :
    (plan : Plan) (v : PlanVersion) (source : Source) (op : Operation) (s : State)
    → Logs s (install_reactivation plan v source op s).1
unfolding install_reactivation finish_reactivation append_event
install_reactivation-Logs plan v source op s =
    let at = s.clock s.readings in
    let w = current_again v in
    let t = record s { readings = suc s.readings; db = put_version w s.db } in
    Logs-trans s t (install_reactivation plan v source op s).1 (Logs-silent s t refl refl) (
      Logs-bind (accept_strategy plan w source op at) (λ _. finish_reactivation plan w source op) t
        (accept_strategy-Logs plan w source op at t)
        (λ _ u.
          Logs-one u (finish_reactivation plan w source op u).1 _ (u.clock u.readings) refl refl
            refl))

reactivate_as-Logs :
    (plan : Plan) (v : PlanVersion) (source : Source) (op : Operation) (s : State)
    → Logs s (reactivate_as plan v source op s).1
unfolding reactivate_as
reactivate_as-Logs plan v source op s =
    Logs-bind (query (other_approved plan.entity_id v.id))
      (λ old. refuse_if (is_none old) (invalid no_approved_version) >> replace old) s
      (Logs-silent s s refl refl)
      λ old t.
        Logs-bind (refuse_if (is_none old) (invalid no_approved_version)) (λ _. replace old) t
          (Logs-silent t t refl refl)
          λ _ u.
            replace-Logs install_reactivation plan v source op old u
              (install_reactivation-Logs plan v source op)
  where
    replace : Option PlanVersion → Action PlanVersion
    replace old = supersede_if_any plan old v source op >> install_reactivation plan v source op

reactivate_by-Logs :
    (ctx : ActionContext) (source : Source) (message : Message) (plan : Plan) (v : PlanVersion)
    (s : State)
    → Logs s (reactivate_by ctx (source, message) (plan, v) s).1
unfolding reactivate_by reactivate_now
reactivate_by-Logs ctx source message plan v s =
    elim (Bool-cases (has_status PlanVersionStatus.approved v)) [
      | inl repeated ↦ rw repeated (Logs-silent s s refl refl)
      | inr first ↦ rw first (elim (Bool-cases (never_approved v)) [
        | inl never ↦ rw never (Logs-silent s s refl refl)
        | inr once ↦
            elim (Bool-cases (presented v.id message.conversation_id message.sent_at s.db)) [
              | inr hidden ↦ rw (once, hidden) (Logs-silent s s refl refl)
              | inl shown ↦
                  rw (once, shown)
                    (with_operation-Logs ctx (reactivate_as plan v source) s
                      (reactivate_as-Logs plan v source))
            ]
      ])
    ]

pub reactivate_historical_plan_version-Logging :
    (command : PlanVersionCommand) (ctx : ActionContext)
    → Logging (reactivate_historical_plan_version command ctx)
unfolding reactivate_historical_plan_version reactivate_historical_plan_version_body
reactivate_historical_plan_version-Logging command ctx =
    atomic-Logging (reactivate_historical_plan_version_body command ctx)
      (authorised-Logging ctx command.plan_version_id (reactivate_by ctx) (reactivate_by-Logs ctx))

-- ===== src/Planning/Approval/Log.antt =====
-- services/planning.py: the events that an approval appends.
use elowyn_assist.Common.{refl}
use elowyn_assist.Db.Rows.{Source, Operation, Message}
use elowyn_assist.Db.Plans.{Plan, PlanVersion}
use elowyn_assist.Db.Store.{State}
use elowyn_assist.Mutation.{ActionContext, append_event}
use elowyn_assist.Planning.Approval.{approve_plan_version_body, approve_plan_version}
use elowyn_assist.Mutation.Log.{
  Logs-bind, Logs, Logs-silent, Logs-trans, Logs-one, Logging, atomic-Logging,
}
use elowyn_assist.Common.{suc, Bool-cases, inl, inr, ◌&&◌, is_id}
use elowyn_assist.Domain.Enums.{PlanVersionStatus}
use elowyn_assist.Mutation.{query, ◌>>◌}
use elowyn_assist.Domain.PlanningCommands.{PlanVersionCommand}
use elowyn_assist.Planning.Guards.{presented}
use elowyn_assist.Planning.Rows.{put_version, has_status}
use elowyn_assist.Planning.Strategy.{accept_strategy, supersede_if_any, other_approved}
use elowyn_assist.Planning.Approval.{
  approved_by, start_progress, finish_approval, install_approval, approve_as, approve_now,
  approve_by,
}
use elowyn_assist.Planning.Strategy.Log.{accept_strategy-Logs, replace-Logs}
use elowyn_assist.Planning.Lifecycle.Log.{authorised-Logging, with_operation-Logs}

install_approval-Logs :
    (plan : Plan) (v : PlanVersion) (source : Source) (op : Operation) (s : State)
    → Logs s (install_approval plan v source op s).1
unfolding install_approval finish_approval start_progress append_event
install_approval-Logs plan v source op s =
    let at = s.clock s.readings in
    let w = approved_by v source at in
    let t = record s { readings = suc s.readings; db = put_version w s.db } in
    Logs-trans s t (install_approval plan v source op s).1 (Logs-silent s t refl refl) (
      Logs-bind (accept_strategy plan w source op at) (λ _. finish_approval plan w source op) t
        (accept_strategy-Logs plan w source op at t)
        (λ _ u.
          Logs-one u (finish_approval plan w source op u).1 _ (u.clock u.readings) refl refl refl))

approve_as-Logs :
    (plan : Plan) (v : PlanVersion) (source : Source) (op : Operation) (s : State)
    → Logs s (approve_as plan v source op s).1
unfolding approve_as
approve_as-Logs plan v source op s =
    Logs-bind (query (other_approved plan.entity_id v.id))
      (λ old. supersede_if_any plan old v source op >> install_approval plan v source op) s
      (Logs-silent s s refl refl)
      λ old t.
        replace-Logs install_approval plan v source op old t
          (install_approval-Logs plan v source op)

approve_by-Logs :
    (ctx : ActionContext) (source : Source) (message : Message) (plan : Plan) (v : PlanVersion)
    (s : State)
    → Logs s (approve_by ctx (source, message) (plan, v) s).1
unfolding approve_by approve_now
approve_by-Logs ctx source message plan v s =
    elim (Bool-cases
      (has_status PlanVersionStatus.approved v && is_id v.approval_source_id source.id)) [
        | inl repeated ↦ rw repeated (Logs-silent s s refl refl)
        | inr first ↦ rw first (elim (Bool-cases (has_status PlanVersionStatus.candidate v)) [
          | inr other ↦ rw other (Logs-silent s s refl refl)
          | inl candidate ↦
              elim (Bool-cases (presented v.id message.conversation_id message.sent_at s.db)) [
                | inr hidden ↦ rw (candidate, hidden) (Logs-silent s s refl refl)
                | inl shown ↦
                    rw (candidate, shown)
                      (with_operation-Logs ctx (approve_as plan v source) s
                        (approve_as-Logs plan v source))
              ]
        ])
      ]

pub approve_plan_version-Logging :
    (command : PlanVersionCommand) (ctx : ActionContext)
    → Logging (approve_plan_version command ctx)
unfolding approve_plan_version approve_plan_version_body
approve_plan_version-Logging command ctx =
    atomic-Logging (approve_plan_version_body command ctx)
      (authorised-Logging ctx command.plan_version_id (approve_by ctx) (approve_by-Logs ctx))

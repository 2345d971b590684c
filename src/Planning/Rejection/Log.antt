-- ===== src/Planning/Rejection/Log.antt =====
-- services/planning.py: the events that a rejection appends.
use elowyn_assist.Common.{refl, inl, inr, Bool-cases, ◌&&◌}
use elowyn_assist.Domain.Enums.{PlanVersionStatus}
use elowyn_assist.Domain.PlanningCommands.{PlanVersionCommand}
use elowyn_assist.Db.Rows.{Source, Operation, Message}
use elowyn_assist.Db.Plans.{Plan, PlanVersion}
use elowyn_assist.Db.Store.{State}
use elowyn_assist.Mutation.{ActionContext, bind_rule, query, ◌>>=◌, append_event, operation}
use elowyn_assist.Mutation.Log.{
  Logs, Logging, Logs-silent, Logs-trans, Logs-one, atomic-Logging, operation-Logging,
}
use elowyn_assist.Planning.Guards.{user_message_source, locked_version}
use elowyn_assist.Planning.Rows.{has_status}
use elowyn_assist.Planning.Rejection.{
  already_rejected, reject_as, reject_now, reject_by, reject_candidate_version_body,
  reject_candidate_version,
}

reject_as-Logs :
    (plan : Plan) (v : PlanVersion) (source : Source) (op : Operation) (s : State)
    → Logs s (reject_as plan v source op s).1
unfolding reject_as append_event
reject_as-Logs plan v source op s =
    Logs-one s (reject_as plan v source op s).1 _ (s.clock s.readings) refl refl refl

reject_now-Logs :
    (plan : Plan) (v : PlanVersion) (source : Source) (ctx : ActionContext) (s : State)
    → Logs s (reject_now plan v source ctx s).1
unfolding reject_now
reject_now-Logs plan v source ctx s = elim (Bool-cases (has_status PlanVersionStatus.candidate v)) [
  | inr other ↦ rw other (Logs-silent s s refl refl)
  | inl candidate ↦ rw candidate (
      bind_rule (λ z. Logs s z.1) (operation ctx) (reject_as plan v source) s
        (λ op _.
          let t = (operation ctx s).1 in
          Logs-trans s t (reject_as plan v source op t).1 ((operation-Logging ctx).logs s)
            (reject_as-Logs plan v source op t))
        (λ _ _. (operation-Logging ctx).logs s))
]

reject_by-Logs :
    (ctx : ActionContext) (source : Source) (message : Message) (plan : Plan) (v : PlanVersion)
    (s : State)
    → Logs s (reject_by ctx (source, message) (plan, v) s).1
unfolding reject_by
reject_by-Logs ctx source message plan v s =
    elim (Bool-cases (
      has_status PlanVersionStatus.rejected v
      && already_rejected plan.entity_id source.id v.id s.db)) [
        | inl repeated ↦ rw repeated (Logs-silent s s refl refl)
        | inr first ↦ rw first (reject_now-Logs plan v source ctx s)
      ]

-- Whether a rejection returns or raises, the events before it are kept as they are, in front of those
-- that it adds. The times of these ascend strictly, from after the last event that the session has
-- added, and the session's last event is not before them.
pub reject_candidate_version-Logging :
    (command : PlanVersionCommand) (ctx : ActionContext)
    → Logging (reject_candidate_version command ctx)
unfolding reject_candidate_version reject_candidate_version_body
reject_candidate_version-Logging command ctx =
    atomic-Logging (reject_candidate_version_body command ctx) (record {
      logs = λ s.
          bind_rule (λ z. Logs s z.1) (query (user_message_source ctx.source))
            (λ from. query (locked_version command.plan_version_id) >>= reject_by ctx from) s
            (λ from _.
              bind_rule (λ z. Logs s z.1) (query (locked_version command.plan_version_id))
                (reject_by ctx from) s
                (λ target _. reject_by-Logs ctx from.0 from.1 target.0 target.1 s)
                (λ _ _. Logs-silent s s refl refl))
            (λ _ _. Logs-silent s s refl refl);
    })

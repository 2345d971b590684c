-- ===== src/Planning/Approval/Effect.antt =====
-- services/planning.py: what approval leaves in the version table.
use elowyn_assist.Common.{
  is_id, Bool-cases, inl, inr, suc, ◌≡◌, ◌&&◌, some, arith, find, find-update_self, beq_refl,
}
use elowyn_assist.Domain.Enums.{PlanVersionStatus}
use elowyn_assist.Domain.Errors.{ok}
use elowyn_assist.Domain.PlanningCommands.{PlanVersionCommand}
use elowyn_assist.Db.Rows.{Source, Operation, Message}
use elowyn_assist.Db.Plans.{Plan, PlanVersion}
use elowyn_assist.Db.Store.{State}
use elowyn_assist.Mutation.{
  bind_rule, query, ActionContext, ◌>>◌, append_event, atomic_domain_action,
}
use elowyn_assist.Planning.Rows.{put_version, has_status}
use elowyn_assist.Planning.Guards.{presented}
use elowyn_assist.Planning.Lifecycle.{by_id}
use elowyn_assist.Planning.Lifecycle.Current.{IsCurrent, IsCurrent-found}
use elowyn_assist.Planning.Lifecycle.Returned.{
  Returned, settle-Returned, authorised-Returned, with_operation-Returned,
}
use elowyn_assist.Planning.Strategy.{supersede_if_any, other_approved}
use elowyn_assist.Planning.Strategy.Invariant.{accept_strategy-Steady, supersede_if_any-found}
use elowyn_assist.Planning.Approval.{
  approved_by, finish_approval, install_approval, approve_as, approve_now, approve_by,
  approve_plan_version_body, approve_plan_version,
}
use elowyn_assist.Planning.Approval.Authority.{
  install_approval-result, approve_plan_version_authority,
}
use elowyn_assist.Planning.Approval.Invariant.{approve_plan_version-Grows}
use elowyn_assist.Planning.Lifecycle.States.{IsValid}

install_approval-Returned :
    (plan : Plan) (v : PlanVersion) (source : Source) (op : Operation) (s : State)
    → find (by_id v.id) s.db.versions ≡ some v
    → Returned v.id (install_approval plan v source op s)
unfolding install_approval finish_approval append_event
install_approval-Returned plan v source op s found w h =
    let at = s.clock s.readings in
    let approved = approved_by v source at in
    let written = record s { readings = suc s.readings; db = put_version approved s.db } in
    let steady = accept_strategy-Steady plan approved source op at written in
    let row = find-update_self (by_id v.id) v approved s.db.versions found (beq_refl v.id) in
    ground (arith, steady, row, install_approval-result plan v w source op s h)

approve_as-Returned :
    (plan : Plan) (v : PlanVersion) (source : Source) (op : Operation) (s : State)
    → find (by_id v.id) s.db.versions ≡ some v
    → Returned v.id (approve_as plan v source op s)
unfolding approve_as other_approved
approve_as-Returned plan v source op s found =
    bind_rule (Returned v.id) (query (other_approved plan.entity_id v.id))
      (λ old. supersede_if_any plan old v source op >> install_approval plan v source op) s
      (λ old h.
        bind_rule (Returned v.id) (supersede_if_any plan old v source op)
          (λ _. install_approval plan v source op) s
          (λ _ e.
            install_approval-Returned plan v source op (supersede_if_any plan old v source op s).1
              (supersede_if_any-found plan old v source op s h found))
          (λ e g w h. absurd (cc)))
      (λ e g w h. absurd (cc))

approve_now-Returned :
    (plan : Plan) (v : PlanVersion) (source : Source) (message : Message) (ctx : ActionContext)
    (s : State)
    → find (by_id v.id) s.db.versions ≡ some v
    → Returned v.id (approve_now plan v source message ctx s)
unfolding approve_now
approve_now-Returned plan v source message ctx s found =
    elim (Bool-cases (has_status PlanVersionStatus.candidate v)) [
      | inr other ↦ rw other (λ w h. absurd (cc))
      | inl candidate ↦
          elim (Bool-cases (presented v.id message.conversation_id message.sent_at s.db)) [
            | inr hidden ↦ rw (candidate, hidden) (λ w h. absurd (cc))
            | inl shown ↦
                rw (candidate, shown)
                  (with_operation-Returned ctx v (approve_as plan v source) s
                    λ op t kept. approve_as-Returned plan v source op t (rw kept found))
          ]
    ]

approve_by-Returned :
    (ctx : ActionContext) (source : Source) (message : Message) (plan : Plan) (v : PlanVersion)
    (s : State)
    → find (by_id v.id) s.db.versions ≡ some v
    → Returned v.id (approve_by ctx (source, message) (plan, v) s)
unfolding approve_by
approve_by-Returned ctx source message plan v s found =
    elim (Bool-cases
      (has_status PlanVersionStatus.approved v && is_id v.approval_source_id source.id)) [
        | inl repeated ↦ rw repeated (λ w h. ground arith)
        | inr first ↦ rw first (approve_now-Returned plan v source message ctx s found)
      ]

-- An approval that returns a version leaves it in the table, under the identifier that the command
-- names.
pub approve_plan_version-Returned :
    (command : PlanVersionCommand) (ctx : ActionContext) (s : State)
    → Returned command.plan_version_id (approve_plan_version command ctx s)
unfolding approve_plan_version atomic_domain_action approve_plan_version_body
approve_plan_version-Returned command ctx s =
    settle-Returned command.plan_version_id s (approve_plan_version_body command ctx s) (
      authorised-Returned ctx command.plan_version_id (approve_by ctx) s
        λ source message plan v found mine. approve_by-Returned ctx source message plan v s found)

-- From a valid version table, an approval that returns a version leaves that version in the table,
-- under the identifier that the command names. It is approved, and no other version of its plan is.
pub approve_plan_version-IsCurrent :
    (command : PlanVersionCommand) (ctx : ActionContext) (s : State) (w : PlanVersion)
    → IsValid s
    → (approve_plan_version command ctx s).0 ≡ ok w
    → IsCurrent command.plan_version_id w (approve_plan_version command ctx s).1.db.versions
approve_plan_version-IsCurrent command ctx s w l h =
    let row = approve_plan_version-Returned command ctx s w h in
    let (source, message, v, word, found, approved) =
      approve_plan_version_authority command ctx s w h in
    let valid = (approve_plan_version-Grows command ctx s l).valid in
    IsCurrent-found command.plan_version_id w (approve_plan_version command ctx s).1.db.versions row
      approved.status (valid.one_approved w.plan_id)

-- ===== src/Planning/Reactivation/Effect.antt =====
-- services/planning.py: what reactivation leaves in the version table.
use elowyn_assist.Common.{
  suc, ◌≡◌, inl, inr, some, is_none, arith, find, Bool-cases, Option, find-update_self, beq_refl,
}
use elowyn_assist.Domain.Enums.{PlanVersionStatus}
use elowyn_assist.Domain.Errors.{ok, invalid, no_approved_version}
use elowyn_assist.Domain.PlanningCommands.{PlanVersionCommand}
use elowyn_assist.Db.Rows.{Source, Operation, Message}
use elowyn_assist.Db.Plans.{Plan, PlanVersion}
use elowyn_assist.Db.Store.{State}
use elowyn_assist.Mutation.{
  Action, bind_rule, query, refuse_if, ActionContext, atomic_domain_action, append_event, ◌>>◌,
}
use elowyn_assist.Planning.Rows.{has_status, put_version}
use elowyn_assist.Planning.Guards.{presented}
use elowyn_assist.Planning.Lifecycle.{by_id}
use elowyn_assist.Planning.Lifecycle.Current.{IsCurrent, IsCurrent-found}
use elowyn_assist.Planning.Lifecycle.Returned.{
  Returned, settle-Returned, authorised-Returned, with_operation-Returned,
}
use elowyn_assist.Planning.Lifecycle.States.{IsValid}
use elowyn_assist.Planning.Strategy.{supersede_if_any, other_approved}
use elowyn_assist.Planning.Strategy.Invariant.{accept_strategy-Steady, supersede_if_any-found}
use elowyn_assist.Planning.Reactivation.{
  current_again, finish_reactivation, install_reactivation, reactivate_as, never_approved,
  reactivate_now, reactivate_by, reactivate_historical_plan_version_body,
  reactivate_historical_plan_version,
}
use elowyn_assist.Planning.Reactivation.Authority.{
  install_reactivation-result, reactivate_historical_plan_version_authority,
}
use elowyn_assist.Planning.Reactivation.Invariant.{reactivate_historical_plan_version-Grows}

install_reactivation-Returned :
    (plan : Plan) (v : PlanVersion) (source : Source) (op : Operation) (s : State)
    → find (by_id v.id) s.db.versions ≡ some v
    → Returned v.id (install_reactivation plan v source op s)
unfolding install_reactivation finish_reactivation append_event
install_reactivation-Returned plan v source op s found w h =
    let again = current_again v in
    let at = s.clock s.readings in
    let written = record s { readings = suc s.readings; db = put_version again s.db } in
    let steady = accept_strategy-Steady plan again source op at written in
    let row = find-update_self (by_id v.id) v again s.db.versions found (beq_refl v.id) in
    ground (arith, steady, row, install_reactivation-result plan v w source op s h)

reactivate_as-Returned :
    (plan : Plan) (v : PlanVersion) (source : Source) (op : Operation) (s : State)
    → find (by_id v.id) s.db.versions ≡ some v
    → Returned v.id (reactivate_as plan v source op s)
unfolding reactivate_as
reactivate_as-Returned plan v source op s found =
    bind_rule (Returned v.id) (query (other_approved plan.entity_id v.id))
      (λ old. refuse_if (is_none old) (invalid no_approved_version) >> replace old) s
      (λ old h.
        bind_rule (Returned v.id) (refuse_if (is_none old) (invalid no_approved_version))
          (λ _. replace old) s
          (λ _ _.
            bind_rule (Returned v.id) (supersede_if_any plan old v source op)
              (λ _. install_reactivation plan v source op) s
              (λ _ e.
                install_reactivation-Returned plan v source op
                  (supersede_if_any plan old v source op s).1
                  (supersede_if_any-found plan old v source op s h found))
              (λ e g w k. absurd (cc)))
          (λ e g w k. absurd (cc)))
      (λ e g w k. absurd (cc))
  where
    replace : Option PlanVersion → Action PlanVersion
    replace old = supersede_if_any plan old v source op >> install_reactivation plan v source op

reactivate_now-Returned :
    (plan : Plan) (v : PlanVersion) (source : Source) (message : Message) (ctx : ActionContext)
    (s : State)
    → find (by_id v.id) s.db.versions ≡ some v
    → Returned v.id (reactivate_now plan v source message ctx s)
unfolding reactivate_now
reactivate_now-Returned plan v source message ctx s found = elim (Bool-cases (never_approved v)) [
  | inl never ↦ rw never (λ w h. absurd (cc))
  | inr once ↦ elim (Bool-cases (presented v.id message.conversation_id message.sent_at s.db)) [
    | inr hidden ↦ rw (once, hidden) (λ w h. absurd (cc))
    | inl shown ↦
        rw (once, shown)
          (with_operation-Returned ctx v (reactivate_as plan v source) s
            λ op t kept. reactivate_as-Returned plan v source op t (rw kept found))
  ]
]

reactivate_by-Returned :
    (ctx : ActionContext) (source : Source) (message : Message) (plan : Plan) (v : PlanVersion)
    (s : State)
    → find (by_id v.id) s.db.versions ≡ some v
    → Returned v.id (reactivate_by ctx (source, message) (plan, v) s)
unfolding reactivate_by
reactivate_by-Returned ctx source message plan v s found =
    elim (Bool-cases (has_status PlanVersionStatus.approved v)) [
      | inl repeated ↦ rw repeated (λ w h. ground arith)
      | inr first ↦ rw first (reactivate_now-Returned plan v source message ctx s found)
    ]

reactivate_historical_plan_version-Returned :
    (command : PlanVersionCommand) (ctx : ActionContext) (s : State)
    → Returned command.plan_version_id (reactivate_historical_plan_version command ctx s)
unfolding reactivate_historical_plan_version atomic_domain_action
    reactivate_historical_plan_version_body
reactivate_historical_plan_version-Returned command ctx s =
    settle-Returned command.plan_version_id s
      (reactivate_historical_plan_version_body command ctx s)
      (authorised-Returned ctx command.plan_version_id (reactivate_by ctx) s
        λ source message plan v found mine.
          reactivate_by-Returned ctx source message plan v s found)

-- From a valid version table, a reactivation that returns a version leaves that version in the table,
-- under the identifier that the command names. It is approved, and no other version of its plan is.
pub reactivate_historical_plan_version-IsCurrent :
    (command : PlanVersionCommand) (ctx : ActionContext) (s : State) (w : PlanVersion)
    → IsValid s
    → (reactivate_historical_plan_version command ctx s).0 ≡ ok w
    → IsCurrent command.plan_version_id w
        (reactivate_historical_plan_version command ctx s).1.db.versions
reactivate_historical_plan_version-IsCurrent command ctx s w l h =
    let row = reactivate_historical_plan_version-Returned command ctx s w h in
    let (source, message, v, word, found, way) =
      reactivate_historical_plan_version_authority command ctx s w h in
    let valid = (reactivate_historical_plan_version-Grows command ctx s l).valid in
    IsCurrent-found command.plan_version_id w
      (reactivate_historical_plan_version command ctx s).1.db.versions row (ground arith)
      (valid.one_approved w.plan_id)

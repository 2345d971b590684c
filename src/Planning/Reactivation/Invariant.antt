-- ===== src/Planning/Reactivation/Invariant.antt =====
-- services/planning.py: reactivation keeps the version table as the schema wants it.
use elowyn_assist.Common.{
  ℕ, is_none, Bool-cases, inl, inr, suc, ◌≡◌, refl, true, ◌&&◌, Option, some, arith, count, find,
  is_some,
}
use elowyn_assist.Domain.Enums.{PlanVersionStatus}
use elowyn_assist.Domain.Errors.{invalid, no_approved_version}
use elowyn_assist.Domain.PlanningCommands.{PlanVersionCommand}
use elowyn_assist.Db.Rows.{Source, Operation, Message}
use elowyn_assist.Db.Plans.{Plan, PlanVersion}
use elowyn_assist.Db.Store.{State}
use elowyn_assist.Mutation.{bind_rule, query, refuse_if, ActionContext, ◌>>◌, append_event, Action}
use elowyn_assist.Mutation.Frame.{Steady}
use elowyn_assist.Planning.Rows.{of_status, put_version, has_status}
use elowyn_assist.Planning.Guards.{presented}
use elowyn_assist.Planning.Lifecycle.{by_id}
use elowyn_assist.Planning.Lifecycle.States.{
  IsValid, Grows, Grows-refl, atomic-Grows, with_operation-Grows, authorised-Grows,
}
use elowyn_assist.Planning.Strategy.{accept_strategy, supersede_if_any, other_approved}
use elowyn_assist.Planning.Strategy.Invariant.{
  accept_strategy-Steady, approved-Grows, replace-Grows,
}
use elowyn_assist.Planning.Reactivation.{
  finish_reactivation, never_approved, install_reactivation, reactivate_as, reactivate_now,
  reactivate_by, reactivate_historical_plan_version_body, reactivate_historical_plan_version,
}

install_reactivation-Grows :
    (plan : Plan) (v : PlanVersion) (source : Source) (op : Operation) (s : State)
    → IsValid s
    → v.status ≡ PlanVersionStatus.superseded
    → find (by_id v.id) s.db.versions ≡ some v
    → is_some v.approval_source_id && is_some v.approved_at ≡ true
    → count (of_status v.plan_id PlanVersionStatus.approved) s.db.versions ≡ 0
    → Grows s (install_reactivation plan v source op s).1
unfolding install_reactivation finish_reactivation append_event
install_reactivation-Grows plan v source op s l was found whole vacant =
    approved-Grows v w s (install_reactivation plan v source op s).1 l (ground (arith, steady))
      (ground (arith, steady)) found refl refl refl whole vacant
      (record {
        content = refl;
        approval = λ c. (refl, refl);
        no_return = λ e. absurd (cc);
        rejected = λ e. absurd (cc);
        superseded = λ e n. absurd (ground arith);
      })
  where
    at : ℕ
    at = s.clock s.readings

    w : PlanVersion
    w = record v { status = PlanVersionStatus.approved }

    written : State
    written = record s { readings = suc s.readings; db = put_version w s.db }

    steady : Steady written (accept_strategy plan w source op at written).1
    steady = accept_strategy-Steady plan w source op at written

reactivate_as-Grows :
    (plan : Plan) (v : PlanVersion) (source : Source) (op : Operation) (s : State)
    → IsValid s
    → find (by_id v.id) s.db.versions ≡ some v
    → plan.entity_id ≡ v.plan_id
    → v.status ≡ PlanVersionStatus.superseded
    → is_some v.approval_source_id && is_some v.approved_at ≡ true
    → Grows s (reactivate_as plan v source op s).1
unfolding reactivate_as
reactivate_as-Grows plan v source op s l found mine was whole =
    bind_rule (λ z. Grows s z.1) (query (other_approved plan.entity_id v.id)) rest s
      (λ old h.
        bind_rule (λ z. Grows s z.1) (refuse_if (is_none old) (invalid no_approved_version))
          (λ _. supersede_if_any plan old v source op >> install_reactivation plan v source op) s
          (λ _ _.
            replace-Grows install_reactivation plan v source op old s s
              (λ u m f c. install_reactivation-Grows plan v source op u m was f whole c) start found
              mine (ground arith) h)
          (λ e _. start))
      (λ e h. start)
  where
    start : Grows s s
    start = (Grows-refl s l)

    rest : Option PlanVersion → Action PlanVersion
    rest old =
        refuse_if (is_none old) (invalid no_approved_version)
        >> (supersede_if_any plan old v source op >> install_reactivation plan v source op)

reactivate_now-Grows :
    (plan : Plan) (v : PlanVersion) (source : Source) (message : Message) (ctx : ActionContext)
    (s : State)
    → IsValid s
    → find (by_id v.id) s.db.versions ≡ some v
    → plan.entity_id ≡ v.plan_id
    → Grows s (reactivate_now plan v source message ctx s).1
unfolding reactivate_now
reactivate_now-Grows plan v source message ctx s l found mine =
    elim (Bool-cases (never_approved v)) [
      | inl never ↦ rw never (Grows-refl s l)
      | inr once ↦ elim (Bool-cases (presented v.id message.conversation_id message.sent_at s.db)) [
        | inr hidden ↦ rw (once, hidden) (Grows-refl s l)
        | inl shown ↦
            rw (once, shown)
              (with_operation-Grows ctx (reactivate_as plan v source) s l λ op t m kept.
                reactivate_as-Grows plan v source op t m (rw kept found) mine (ground arith)
                  (ground arith))
      ]
    ]

reactivate_by-Grows :
    (ctx : ActionContext) (source : Source) (message : Message) (plan : Plan) (v : PlanVersion)
    (s : State)
    → IsValid s
    → find (by_id v.id) s.db.versions ≡ some v
    → plan.entity_id ≡ v.plan_id
    → Grows s (reactivate_by ctx (source, message) (plan, v) s).1
unfolding reactivate_by
reactivate_by-Grows ctx source message plan v s l found mine =
    elim (Bool-cases (has_status PlanVersionStatus.approved v)) [
      | inl repeated ↦ rw repeated (Grows-refl s l)
      | inr first ↦ rw first (reactivate_now-Grows plan v source message ctx s l found mine)
    ]

-- Reactivating a former approved version keeps the version table as the schema wants it.
pub reactivate_historical_plan_version-Grows :
    (command : PlanVersionCommand) (ctx : ActionContext) (s : State)
    → IsValid s
    → Grows s (reactivate_historical_plan_version command ctx s).1
unfolding reactivate_historical_plan_version
reactivate_historical_plan_version-Grows command ctx s l =
    atomic-Grows (reactivate_historical_plan_version_body command ctx) s l (
      authorised-Grows ctx command.plan_version_id (reactivate_by ctx) s l
        (λ source message plan v. reactivate_by-Grows ctx source message plan v s l))

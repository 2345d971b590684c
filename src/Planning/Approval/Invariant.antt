-- ===== src/Planning/Approval/Invariant.antt =====
-- services/planning.py: approval keeps the version table as the schema wants it.
use elowyn_assist.Common.{
  ℕ, is_id, Bool-cases, inl, inr, suc, ◌≡◌, refl, ◌&&◌, some, arith, count, find,
}
use elowyn_assist.Domain.Enums.{PlanVersionStatus}
use elowyn_assist.Domain.PlanningCommands.{PlanVersionCommand}
use elowyn_assist.Db.Rows.{Source, Operation, Message}
use elowyn_assist.Db.Plans.{Plan, PlanVersion}
use elowyn_assist.Db.Store.{State}
use elowyn_assist.Mutation.{bind_rule, query, ActionContext, ◌>>◌, append_event}
use elowyn_assist.Mutation.Frame.{Steady}
use elowyn_assist.Planning.Rows.{of_status, put_version, has_status}
use elowyn_assist.Planning.Guards.{presented}
use elowyn_assist.Planning.Lifecycle.{by_id}
use elowyn_assist.Planning.Lifecycle.States.{
  IsValid, Grows, Grows-refl, atomic-Grows, with_operation-Grows, authorised-Grows,
}
use elowyn_assist.Planning.Strategy.{accept_strategy, supersede_if_any, other_approved}
use elowyn_assist.Planning.Strategy.Invariant.{
  accept_strategy-Steady, approved-Grows, replace-Grows,
}
use elowyn_assist.Planning.Approval.{
  approved_by, finish_approval, install_approval, approve_as, approve_now, approve_by,
  approve_plan_version_body, approve_plan_version,
}

-- The state once the version has become the approved one.
install_approval-Grows :
    (plan : Plan) (v : PlanVersion) (source : Source) (op : Operation) (s : State)
    → IsValid s
    → v.status ≡ PlanVersionStatus.candidate
    → find (by_id v.id) s.db.versions ≡ some v
    → count (of_status v.plan_id PlanVersionStatus.approved) s.db.versions ≡ 0
    → Grows s (install_approval plan v source op s).1
unfolding install_approval finish_approval append_event
install_approval-Grows plan v source op s l was found vacant =
    approved-Grows v w s (install_approval plan v source op s).1 l (ground (arith, steady))
      (ground (arith, steady)) found refl refl refl refl vacant
      (record {
        content = refl;
        approval = λ c. absurd (c was);
        no_return = λ e. absurd (cc);
        rejected = λ e. absurd (cc);
        superseded = λ e n. absurd (cc);
      })
  where
    at : ℕ
    at = s.clock s.readings

    w : PlanVersion
    w = approved_by v source at

    written : State
    written = record s { readings = suc s.readings; db = put_version w s.db }

    steady : Steady written (accept_strategy plan w source op at written).1
    steady = accept_strategy-Steady plan w source op at written

approve_as-Grows :
    (plan : Plan) (v : PlanVersion) (source : Source) (op : Operation) (s : State)
    → IsValid s
    → find (by_id v.id) s.db.versions ≡ some v
    → plan.entity_id ≡ v.plan_id
    → v.status ≡ PlanVersionStatus.candidate
    → Grows s (approve_as plan v source op s).1
unfolding approve_as
approve_as-Grows plan v source op s l found mine was =
    bind_rule (λ z. Grows s z.1) (query (other_approved plan.entity_id v.id))
      (λ old. supersede_if_any plan old v source op >> install_approval plan v source op) s
      (λ old h.
        replace-Grows install_approval plan v source op old s s
          (λ u m. install_approval-Grows plan v source op u m was) (Grows-refl s l) found mine
          (ground arith) h)
      (λ e h. (Grows-refl s l))

approve_now-Grows :
    (plan : Plan) (v : PlanVersion) (source : Source) (message : Message) (ctx : ActionContext)
    (s : State)
    → IsValid s
    → find (by_id v.id) s.db.versions ≡ some v
    → plan.entity_id ≡ v.plan_id
    → Grows s (approve_now plan v source message ctx s).1
unfolding approve_now
approve_now-Grows plan v source message ctx s l found mine =
    elim (Bool-cases (has_status PlanVersionStatus.candidate v)) [
      | inr other ↦ rw other (Grows-refl s l)
      | inl candidate ↦
          elim (Bool-cases (presented v.id message.conversation_id message.sent_at s.db)) [
            | inr hidden ↦ rw (candidate, hidden) (Grows-refl s l)
            | inl shown ↦
                rw (candidate, shown)
                  (with_operation-Grows ctx (approve_as plan v source) s l λ op t m kept.
                    approve_as-Grows plan v source op t m (rw kept found) mine (ground arith))
          ]
    ]

approve_by-Grows :
    (ctx : ActionContext) (source : Source) (message : Message) (plan : Plan) (v : PlanVersion)
    (s : State)
    → IsValid s
    → find (by_id v.id) s.db.versions ≡ some v
    → plan.entity_id ≡ v.plan_id
    → Grows s (approve_by ctx (source, message) (plan, v) s).1
unfolding approve_by
approve_by-Grows ctx source message plan v s l found mine =
    elim (Bool-cases
      (has_status PlanVersionStatus.approved v && is_id v.approval_source_id source.id)) [
        | inl repeated ↦ rw repeated (Grows-refl s l)
        | inr first ↦ rw first (approve_now-Grows plan v source message ctx s l found mine)
      ]

-- Approving a candidate keeps the version table as the schema wants it.
pub approve_plan_version-Grows :
    (command : PlanVersionCommand) (ctx : ActionContext) (s : State)
    → IsValid s
    → Grows s (approve_plan_version command ctx s).1
unfolding approve_plan_version
approve_plan_version-Grows command ctx s l =
    atomic-Grows (approve_plan_version_body command ctx) s l (
      authorised-Grows ctx command.plan_version_id (approve_by ctx) s l
        (λ source message plan v. approve_by-Grows ctx source message plan v s l))

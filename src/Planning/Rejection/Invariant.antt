-- ===== src/Planning/Rejection/Invariant.antt =====
-- services/planning.py: rejection keeps the version table as the schema wants it.
use elowyn_assist.Common.{Bool-cases, inl, inr, ◌≡◌, refl, true, ◌&&◌, some, arith, find}
use elowyn_assist.Domain.Enums.{PlanVersionStatus}
use elowyn_assist.Domain.PlanningCommands.{PlanVersionCommand}
use elowyn_assist.Db.Rows.{Source, Operation, Message}
use elowyn_assist.Db.Plans.{Plan, PlanVersion}
use elowyn_assist.Db.Store.{State}
use elowyn_assist.Mutation.{ActionContext, append_event}
use elowyn_assist.Planning.Rows.{has_status}
use elowyn_assist.Planning.Lifecycle.{by_id, rejected-IsLifecycle}
use elowyn_assist.Planning.Lifecycle.History.{Evolved}
use elowyn_assist.Planning.Lifecycle.States.{
  IsValid, Grows, Grows-refl, replaced-Grows, atomic-Grows, with_operation-Grows, authorised-Grows,
}
use elowyn_assist.Planning.Rejection.{
  rejected_form, reject_as, reject_now, reject_by, already_rejected, reject_candidate_version_body,
  reject_candidate_version,
}

-- A candidate may be rejected.
ended :
    (v : PlanVersion)
    → has_status PlanVersionStatus.candidate v ≡ true
    → Evolved v (record v { status = PlanVersionStatus.rejected })
ended v h = record {
  content = refl;
  approval = λ c. absurd (c (ground arith));
  no_return = λ e. absurd (cc);
  rejected = λ e. refl;
  superseded = λ e n. absurd (ground arith);
}

reject_as-Grows :
    (plan : Plan) (v : PlanVersion) (source : Source) (op : Operation) (s : State)
    → IsValid s
    → find (by_id v.id) s.db.versions ≡ some v
    → has_status PlanVersionStatus.candidate v ≡ true
    → Grows s (reject_as plan v source op s).1
unfolding reject_as append_event
reject_as-Grows plan v source op s l found candidate =
    replaced-Grows v (rejected_form v) s (reject_as plan v source op s).1 (omega arith) refl found
      (ended v candidate)
      (rejected-IsLifecycle s.next_id s.db.versions v (rejected_form v) l found (ground arith) refl)

reject_now-Grows :
    (plan : Plan) (v : PlanVersion) (source : Source) (ctx : ActionContext) (s : State)
    → IsValid s
    → find (by_id v.id) s.db.versions ≡ some v
    → Grows s (reject_now plan v source ctx s).1
unfolding reject_now
reject_now-Grows plan v source ctx s l found =
    elim (Bool-cases (has_status PlanVersionStatus.candidate v)) [
      | inr other ↦ rw other (Grows-refl s l)
      | inl candidate ↦ rw candidate (
          with_operation-Grows ctx (reject_as plan v source) s l
            λ op t m kept. reject_as-Grows plan v source op t m (rw kept found) candidate)
    ]

reject_by-Grows :
    (ctx : ActionContext) (source : Source) (message : Message) (plan : Plan) (v : PlanVersion)
    (s : State)
    → IsValid s
    → find (by_id v.id) s.db.versions ≡ some v
    → plan.entity_id ≡ v.plan_id
    → Grows s (reject_by ctx (source, message) (plan, v) s).1
unfolding reject_by
reject_by-Grows ctx source message plan v s l found mine =
    elim (Bool-cases (
      has_status PlanVersionStatus.rejected v
      && already_rejected plan.entity_id source.id v.id s.db)) [
        | inl repeated ↦ rw repeated (Grows-refl s l)
        | inr first ↦ rw first (reject_now-Grows plan v source ctx s l found)
      ]

-- Rejecting a candidate keeps the version table as the schema wants it.
pub reject_candidate_version-Grows :
    (command : PlanVersionCommand) (ctx : ActionContext) (s : State)
    → IsValid s
    → Grows s (reject_candidate_version command ctx s).1
unfolding reject_candidate_version
reject_candidate_version-Grows command ctx s l =
    atomic-Grows (reject_candidate_version_body command ctx) s l (
      authorised-Grows ctx command.plan_version_id (reject_by ctx) s l
        (λ source message plan v. reject_by-Grows ctx source message plan v s l))

-- ===== src/Planning/Rejection/Effect.antt =====
-- services/planning.py: on whose authority a candidate is rejected, and what that leaves in the
-- version table.
use mathlib.Core.List.{Memᴰ}
use elowyn_assist.Common.{
  ◌≡◌, ◌⊎◌, inl, inr, true, ◌&&◌, some, arith, find, Bool-cases, find-update_self, beq_refl, subst,
  sym, ap, refl, ◌∙◌, [], ◌∷◌, ◌++◌,
}
use elowyn_assist.Domain.Enums.{PlanVersionStatus}
use elowyn_assist.Domain.Errors.{Result, ok}
use elowyn_assist.Domain.PlanningCommands.{PlanVersionCommand}
use elowyn_assist.Db.Rows.{Source, Operation, Message, Event}
use elowyn_assist.Db.Plans.{Plan, PlanVersion}
use elowyn_assist.Db.Store.{Db, State}
use elowyn_assist.Mutation.{
  bind-ok, bind_runs, settle-ok, settle_keeps, ◌>>=◌, ActionContext, atomic_domain_action,
  append_event, operation,
}
use elowyn_assist.Planning.Rows.{has_status}
use elowyn_assist.Planning.Guards.Authority.{IsUserWord, authorised-ok}
use elowyn_assist.Planning.Lifecycle.{by_id}
use elowyn_assist.Planning.Lifecycle.Returned.{
  Returned, settle-Returned, authorised-Returned, with_operation-Returned,
}
use elowyn_assist.Planning.Rejection.Told.{IsRejection, already_rejected-event, reject_as-event}
use elowyn_assist.Planning.Rejection.{
  rejected_form, already_rejected, reject_as, reject_now, reject_by, reject_candidate_version_body,
  reject_candidate_version,
}

-- A rejection on this source has made `w` of the version `v`, and one event tells of it; or such a
-- rejection has been made before, and nothing is new.
pub record IsRejected (source : Source) (before after : Db) (v w : PlanVersion) : Type 0 where
  pub form : w ≡ record v { status = PlanVersionStatus.rejected }
  pub way :
      ((v.status ≡ PlanVersionStatus.candidate)
        × ((event : Event) × (after.events ≡ before.events ++ event ∷ [])
            × IsRejection source v event))
      ⊎ ((v.status ≡ PlanVersionStatus.rejected)
          × ((event : Event) × Memᴰ event before.events × IsRejection source v event)
          × (after ≡ before))

reject_as-Returned :
    (plan : Plan) (v : PlanVersion) (source : Source) (op : Operation) (s : State)
    → find (by_id v.id) s.db.versions ≡ some v
    → Returned v.id (reject_as plan v source op s)
unfolding reject_as append_event
reject_as-Returned plan v source op s found w h =
    ground
      (arith, find-update_self (by_id v.id) v (rejected_form v) s.db.versions found (beq_refl v.id))

reject_now-Returned :
    (plan : Plan) (v : PlanVersion) (source : Source) (ctx : ActionContext) (s : State)
    → find (by_id v.id) s.db.versions ≡ some v
    → Returned v.id (reject_now plan v source ctx s)
unfolding reject_now
reject_now-Returned plan v source ctx s found =
    elim (Bool-cases (has_status PlanVersionStatus.candidate v)) [
      | inr other ↦ rw other (λ w h. absurd (cc))
      | inl candidate ↦ rw candidate (
          with_operation-Returned ctx v (reject_as plan v source) s
            λ op t kept. reject_as-Returned plan v source op t (rw kept found))
    ]

reject_by-Returned :
    (ctx : ActionContext) (source : Source) (message : Message) (plan : Plan) (v : PlanVersion)
    (s : State)
    → find (by_id v.id) s.db.versions ≡ some v
    → Returned v.id (reject_by ctx (source, message) (plan, v) s)
unfolding reject_by
reject_by-Returned ctx source message plan v s found =
    elim (Bool-cases (
      has_status PlanVersionStatus.rejected v
      && already_rejected plan.entity_id source.id v.id s.db)) [
        | inl repeated ↦ rw repeated (λ w h. ground arith)
        | inr first ↦ rw first (reject_now-Returned plan v source ctx s found)
      ]

reject_as-result :
    (plan : Plan) (v w : PlanVersion) (source : Source) (op : Operation) (s : State)
    → (reject_as plan v source op s).0 ≡ ok w
    → w ≡ rejected_form v
unfolding reject_as append_event
reject_as-result plan v w source op s h = ground arith

-- Behind the guard.
reject_operation-result :
    (plan : Plan) (v w : PlanVersion) (source : Source) (ctx : ActionContext) (s : State)
    → plan.entity_id ≡ v.plan_id
    → has_status PlanVersionStatus.candidate v ≡ true
    → ((operation ctx >>= reject_as plan v source) s).0 ≡ ok w
    → IsRejected source s.db ((operation ctx >>= reject_as plan v source) s).1.db v w
unfolding operation
reject_operation-result plan v w source ctx s mine candidate h =
    let (op, e, k) = bind-ok (operation ctx) (reject_as plan v source) s w h in
    let t = (operation ctx s).1 in
    subst (λ (out : Result PlanVersion × State). IsRejected source s.db out.1.db v w)
      (sym (bind_runs (operation ctx) (reject_as plan v source) s op e))
      (record {
        form = reject_as-result plan v w source op t k;
        way = inl (ground arith, reject_as-event plan v source op t mine);
      })

reject_now-result :
    (plan : Plan) (v w : PlanVersion) (source : Source) (ctx : ActionContext) (s : State)
    → plan.entity_id ≡ v.plan_id
    → (reject_now plan v source ctx s).0 ≡ ok w
    → IsRejected source s.db (reject_now plan v source ctx s).1.db v w
unfolding reject_now
reject_now-result plan v w source ctx s mine =
    elim (Bool-cases (has_status PlanVersionStatus.candidate v)) [
      | inr other ↦ rw other (λ h. absurd (cc))
      | inl candidate ↦ rw candidate (reject_operation-result plan v w source ctx s mine candidate)
    ]

reject_by-result :
    (ctx : ActionContext) (source : Source) (message : Message) (plan : Plan) (v w : PlanVersion)
    (s : State)
    → plan.entity_id ≡ v.plan_id
    → (reject_by ctx (source, message) (plan, v) s).0 ≡ ok w
    → IsRejected source s.db (reject_by ctx (source, message) (plan, v) s).1.db v w
unfolding reject_by
reject_by-result ctx source message plan v w s mine =
    elim (Bool-cases (
      has_status PlanVersionStatus.rejected v
      && already_rejected plan.entity_id source.id v.id s.db)) [
        | inl repeated ↦ rw repeated λ h. record {
          form = ground arith;
          way = inr (
            ground arith,
            already_rejected-event source v s.db
                (subst (λ p. already_rejected p source.id v.id s.db ≡ true) mine (ground arith)),
            refl,
          );
        }
        | inr first ↦ rw first (reject_now-result plan v w source ctx s mine)
      ]

-- A rejection that returns a version was asked for on the source that the caller has given, which is
-- stored and refers to a stored message of a user. It leaves the version that the command names in
-- the table, rejected and otherwise as it was. Either that was a candidate, and one event is new,
-- which tells of the rejection on that source; or it was rejected already, an event tells of its
-- rejection on that source, and the database is unchanged.
pub reject_candidate_version_authority :
    (command : PlanVersionCommand) (ctx : ActionContext) (s : State) (w : PlanVersion)
    → (reject_candidate_version command ctx s).0 ≡ ok w
    → let t = (reject_candidate_version command ctx s).1 in
      (source : Source) × (message : Message) × (v : PlanVersion) × IsUserWord ctx.source source
        message s.db
      × (find (by_id command.plan_version_id) s.db.versions ≡ some v)
      × (find (by_id command.plan_version_id) t.db.versions ≡ some w)
      × IsRejected source s.db t.db v w
unfolding reject_candidate_version atomic_domain_action reject_candidate_version_body
reject_candidate_version_authority command ctx s w h =
    let body = reject_candidate_version_body command ctx in
    let i = command.plan_version_id in
    let (source, message, plan, v, word, found, mine, l, runs) =
      authorised-ok ctx i (reject_by ctx) s w (settle-ok s (body s) w h) in
    let stored =
      settle-Returned i s (body s)
        (authorised-Returned ctx i (reject_by ctx) s
          λ from message plan v row mine. reject_by-Returned ctx from message plan v s row)
        w h in
    let made = reject_by-result ctx source message plan v w s mine l in
    let same =
      settle_keeps s (body s) w h ∙ ap (λ (out : Result PlanVersion × State). out.1) runs in
    (
      source,
      message,
      v,
      word,
      found,
      stored,
      subst (λ (t : State). IsRejected source s.db t.db v w) (sym same) made,
    )

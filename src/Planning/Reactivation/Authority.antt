-- ===== src/Planning/Reactivation/Authority.antt =====
-- services/planning.py: on whose authority a former version becomes the current one again.
use elowyn_assist.Common.{
  suc, ◌≡◌, ◌⊎◌, inl, inr, true, some, is_some, is_none, arith, find, Bool-cases,
}
use elowyn_assist.Domain.Enums.{PlanVersionStatus}
use elowyn_assist.Domain.Errors.{ok, invalid, no_approved_version}
use elowyn_assist.Domain.PlanningCommands.{PlanVersionCommand}
use elowyn_assist.Db.Rows.{Source, Operation, Message}
use elowyn_assist.Db.Plans.{Plan, PlanVersion}
use elowyn_assist.Db.Store.{Db, State}
use elowyn_assist.Mutation.{
  bind-ok, settle-ok, query, refuse_if, ActionContext, atomic_domain_action, append_event,
  operation, ◌>>◌,
}
use elowyn_assist.Planning.Rows.{has_status, put_version}
use elowyn_assist.Planning.Guards.{presented}
use elowyn_assist.Planning.Guards.Authority.{IsUserWord, authorised-ok}
use elowyn_assist.Planning.Lifecycle.{by_id}
use elowyn_assist.Planning.Strategy.{accept_strategy, supersede_if_any, other_approved}
use elowyn_assist.Planning.Reactivation.{
  current_again, finish_reactivation, install_reactivation, reactivate_as, never_approved,
  reactivate_now, reactivate_by, reactivate_historical_plan_version_body,
  reactivate_historical_plan_version,
}

-- The version was approved once, and superseded, and the user of the message had been shown it.
pub record IsFormer (v : PlanVersion) (message : Message) (db : Db) : Type 0 where
  pub superseded : v.status ≡ PlanVersionStatus.superseded
  pub source : is_some v.approval_source_id ≡ true
  pub time : is_some v.approved_at ≡ true
  pub shown : presented v.id message.conversation_id message.sent_at db ≡ true

pub install_reactivation-result :
    (plan : Plan) (v w : PlanVersion) (source : Source) (op : Operation) (s : State)
    → (install_reactivation plan v source op s).0 ≡ ok w
    → w ≡ current_again v
unfolding install_reactivation finish_reactivation append_event
install_reactivation-result plan v w source op s h =
    let at = s.clock s.readings in
    let written = record s { readings = suc s.readings; db = put_version (current_again v) s.db } in
    let (x, e, k) =
      bind-ok (accept_strategy plan (current_again v) source op at)
        (λ _. finish_reactivation plan (current_again v) source op) written w h in
    ground arith

-- Another version of the plan is approved at that time, and the version itself is given back.
pub reactivate_as-result :
    (plan : Plan) (v w : PlanVersion) (source : Source) (op : Operation) (s : State)
    → (reactivate_as plan v source op s).0 ≡ ok w
    → w ≡ current_again v
unfolding reactivate_as
reactivate_as-result plan v w source op s h =
    let (old, e, k) =
      bind-ok (query (other_approved plan.entity_id v.id))
        (λ old.
          refuse_if (is_none old) (invalid no_approved_version)
          >> (supersede_if_any plan old v source op >> install_reactivation plan v source op))
        s w h in
    let (y, g, m) =
      bind-ok (refuse_if (is_none old) (invalid no_approved_version))
        (λ _. supersede_if_any plan old v source op >> install_reactivation plan v source op) s w
        k in
    let (x, f, l) =
      bind-ok (supersede_if_any plan old v source op) (λ _. install_reactivation plan v source op) s
        w m in
    install_reactivation-result plan v w source op (supersede_if_any plan old v source op s).1 l

reactivate_now-result :
    (plan : Plan) (v w : PlanVersion) (source : Source) (message : Message) (ctx : ActionContext)
    (s : State)
    → (reactivate_now plan v source message ctx s).0 ≡ ok w
    → IsFormer v message s.db × (w ≡ current_again v)
unfolding reactivate_now
reactivate_now-result plan v w source message ctx s = elim (Bool-cases (never_approved v)) [
  | inl never ↦ rw never (λ h. absurd (cc))
  | inr once ↦ elim (Bool-cases (presented v.id message.conversation_id message.sent_at s.db)) [
    | inr hidden ↦ rw (once, hidden) (λ h. absurd (cc))
    | inl shown ↦
        rw (once, shown)
          λ h.
            let (op, e, k) = bind-ok (operation ctx) (reactivate_as plan v source) s w h in
            (
              record {
                superseded = ground arith;
                source = ground arith;
                time = ground arith;
                shown = shown;
              },
              reactivate_as-result plan v w source op (operation ctx s).1 k,
            )
  ]
]

reactivate_by-result :
    (ctx : ActionContext) (source : Source) (message : Message) (plan : Plan) (v w : PlanVersion)
    (s : State)
    → (reactivate_by ctx (source, message) (plan, v) s).0 ≡ ok w
    → ((v.status ≡ PlanVersionStatus.approved) × (w ≡ v))
      ⊎ (IsFormer v message s.db × (w ≡ current_again v))
unfolding reactivate_by
reactivate_by-result ctx source message plan v w s =
    elim (Bool-cases (has_status PlanVersionStatus.approved v)) [
      | inl repeated ↦ rw repeated (λ h. inl (ground arith, ground arith))
      | inr first ↦ rw first (λ h. inr (reactivate_now-result plan v w source message ctx s h))
    ]

-- A reactivation that returns a version was asked for on the source that the caller has given, which
-- is stored and refers to a stored message of a user, and returns the version that the command
-- names. Either that version was approved already and is unchanged, or it had been approved before,
-- was superseded, and an assistant's message of the same conversation had shown it by the time of
-- the user's message; then nothing but its status is new.
pub reactivate_historical_plan_version_authority :
    (command : PlanVersionCommand) (ctx : ActionContext) (s : State) (w : PlanVersion)
    → (reactivate_historical_plan_version command ctx s).0 ≡ ok w
    → (source : Source) × (message : Message) × (v : PlanVersion) × IsUserWord ctx.source source
        message s.db
      × (find (by_id command.plan_version_id) s.db.versions ≡ some v)
      × (((v.status ≡ PlanVersionStatus.approved) × (w ≡ v))
          ⊎ (IsFormer v message s.db × (w ≡ record v { status = PlanVersionStatus.approved })))
unfolding reactivate_historical_plan_version atomic_domain_action
    reactivate_historical_plan_version_body
reactivate_historical_plan_version_authority command ctx s w h =
    let (source, message, plan, v, word, found, mine, l, runs) =
      authorised-ok ctx command.plan_version_id (reactivate_by ctx) s w
        (settle-ok s (reactivate_historical_plan_version_body command ctx s) w h) in
    (source, message, v, word, found, reactivate_by-result ctx source message plan v w s l)

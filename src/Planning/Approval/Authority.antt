-- ===== src/Planning/Approval/Authority.antt =====
-- services/planning.py: on whose authority a version is approved.
use elowyn_assist.Common.{
  ℕ, suc, ◌≡◌, ◌⊎◌, inl, inr, true, ◌&&◌, some, arith, find, is_id, Bool-cases,
}
use elowyn_assist.Domain.Enums.{PlanVersionStatus}
use elowyn_assist.Domain.Errors.{ok}
use elowyn_assist.Domain.PlanningCommands.{PlanVersionCommand}
use elowyn_assist.Db.Rows.{Source, Operation, Message}
use elowyn_assist.Db.Plans.{Plan, PlanVersion}
use elowyn_assist.Db.Store.{Db, State}
use elowyn_assist.Mutation.{
  bind-ok, settle-ok, query, ActionContext, atomic_domain_action, append_event, operation, ◌>>◌,
}
use elowyn_assist.Planning.Rows.{has_status, put_version}
use elowyn_assist.Planning.Guards.{presented}
use elowyn_assist.Planning.Guards.Authority.{IsUserWord, authorised-ok}
use elowyn_assist.Planning.Lifecycle.{by_id}
use elowyn_assist.Planning.Strategy.{accept_strategy, supersede_if_any, other_approved}
use elowyn_assist.Planning.Approval.{
  approved_by, start_progress, finish_approval, install_approval, approve_as, approve_now,
  approve_by, approve_plan_version_body, approve_plan_version,
}

-- The version was a candidate that the user of the message had been shown.
pub record IsShown (v : PlanVersion) (message : Message) (db : Db) : Type 0 where
  pub candidate : v.status ≡ PlanVersionStatus.candidate
  pub shown : presented v.id message.conversation_id message.sent_at db ≡ true

-- The approval hands back the version it was given, approved by this source.
pub install_approval-result :
    (plan : Plan) (v w : PlanVersion) (source : Source) (op : Operation) (s : State)
    → (install_approval plan v source op s).0 ≡ ok w
    → w ≡ approved_by v source (s.clock s.readings)
unfolding install_approval finish_approval start_progress append_event
install_approval-result plan v w source op s h =
    let at = s.clock s.readings in
    let approved = approved_by v source at in
    let written = record s { readings = suc s.readings; db = put_version approved s.db } in
    let (x, e, k) =
      bind-ok (accept_strategy plan approved source op at)
        (λ _. finish_approval plan approved source op) written w h in
    ground arith

approve_as-result :
    (plan : Plan) (v w : PlanVersion) (source : Source) (op : Operation) (s : State)
    → (approve_as plan v source op s).0 ≡ ok w
    → (at : ℕ) × (w ≡ approved_by v source at)
unfolding approve_as
approve_as-result plan v w source op s h =
    let (old, e, k) =
      bind-ok (query (other_approved plan.entity_id v.id))
        (λ old. supersede_if_any plan old v source op >> install_approval plan v source op) s w h in
    let (x, f, l) =
      bind-ok (supersede_if_any plan old v source op) (λ _. install_approval plan v source op) s w
        k in
    let t = (supersede_if_any plan old v source op s).1 in
    (t.clock t.readings, install_approval-result plan v w source op t l)

approve_now-result :
    (plan : Plan) (v w : PlanVersion) (source : Source) (message : Message) (ctx : ActionContext)
    (s : State)
    → (approve_now plan v source message ctx s).0 ≡ ok w
    → IsShown v message s.db × ((at : ℕ) × (w ≡ approved_by v source at))
unfolding approve_now
approve_now-result plan v w source message ctx s =
    elim (Bool-cases (has_status PlanVersionStatus.candidate v)) [
      | inr other ↦ rw other (λ h. absurd (cc))
      | inl candidate ↦
          elim (Bool-cases (presented v.id message.conversation_id message.sent_at s.db)) [
            | inr hidden ↦ rw (candidate, hidden) (λ h. absurd (cc))
            | inl shown ↦
                rw (candidate, shown)
                  λ h.
                    let (op, e, k) = bind-ok (operation ctx) (approve_as plan v source) s w h in
                    (
                      record { candidate = ground arith; shown = shown },
                      approve_as-result plan v w source op (operation ctx s).1 k,
                    )
          ]
    ]

-- The version as an approval by this source at this time leaves it.
abbrev IsApprovedForm : Source → ℕ → PlanVersion → PlanVersion → Type 0
IsApprovedForm source at v w = w ≡ record v {
  status = PlanVersionStatus.approved;
  approval_source_id = some source.id;
  approved_at = some at;
}

-- What an approval by this source has made of the version, or made of it before.
pub record IsApproved (source : Source) (message : Message) (db : Db) (v w : PlanVersion)
    : Type 0 where
  pub status : w.status ≡ PlanVersionStatus.approved
  pub by : w.approval_source_id ≡ some source.id
  pub way : (w ≡ v) ⊎ (IsShown v message db × ((at : ℕ) × IsApprovedForm source at v w))

approve_by-result :
    (ctx : ActionContext) (source : Source) (message : Message) (plan : Plan) (v w : PlanVersion)
    (s : State)
    → (approve_by ctx (source, message) (plan, v) s).0 ≡ ok w
    → IsApproved source message s.db v w
unfolding approve_by
approve_by-result ctx source message plan v w s =
    elim (Bool-cases
      (has_status PlanVersionStatus.approved v && is_id v.approval_source_id source.id)) [
        | inl repeated ↦
            rw repeated
              (λ h. record { status = ground arith; by = ground arith; way = inl (ground arith) })
        | inr first ↦ rw first λ h.
            let (shown, (at, e)) = approve_now-result plan v w source message ctx s h in
            record { status = ground arith; by = ground arith; way = inr (shown, (at, e)) }
      ]

-- An approval that returns a version returns the one that the command names, approved on the source
-- that the caller has given, which is stored and refers to a stored message of a user. Either the
-- version was approved on that source before and is unchanged, or it was a candidate that an
-- assistant's message of the same conversation had shown by the time of the user's message, and
-- nothing but its status and its approval columns is new.
pub approve_plan_version_authority :
    (command : PlanVersionCommand) (ctx : ActionContext) (s : State) (w : PlanVersion)
    → (approve_plan_version command ctx s).0 ≡ ok w
    → (source : Source) × (message : Message) × (v : PlanVersion) × IsUserWord ctx.source source
        message s.db
      × (find (by_id command.plan_version_id) s.db.versions ≡ some v)
      × IsApproved source message s.db v w
unfolding approve_plan_version atomic_domain_action approve_plan_version_body
approve_plan_version_authority command ctx s w h =
    let (source, message, plan, v, word, found, mine, l, runs) =
      authorised-ok ctx command.plan_version_id (approve_by ctx) s w
        (settle-ok s (approve_plan_version_body command ctx s) w h) in
    (source, message, v, word, found, approve_by-result ctx source message plan v w s l)

-- ===== src/Planning/Reactivation.antt =====
-- services/planning.py: `reactivate_historical_plan_version`.
pub mod Invariant
pub mod Authority
pub mod Effect
pub mod Log
use elowyn_assist.Common.{
  ℕ, Bool, true, false, not, ◌&&◌, ◌||◌, Option, none, some, List, [], ◌∷◌, ◌++◌, map, filter, find,
  any, ◌==◌, if◌then◌else◌, is_id, is_none, leb,
}
use elowyn_assist.Common.Json.{Json, null, flag, uuid, name, object, end, field, mentions}
use elowyn_assist.Domain.Enums.{
  EntityType, EventType, same_event_type, MessageAuthor, same_message_author, PlanVersionStatus,
  same_plan_version_status, PlanItemProgressStatus,
}
use elowyn_assist.Domain.Errors.{
  Result, ok, err, Error, invalid, or_raise, not_candidate, not_presented, not_assistant_message,
  missing_strategy, not_formerly_approved, no_approved_version,
}
use elowyn_assist.Domain.PlanningCommands.{PlanVersionPresentationCreate, PlanVersionCommand}
use elowyn_assist.Db.Rows.{Source, Operation, Entity, Event, Message, Change}
use elowyn_assist.Db.Plans.{
  Plan, PlanVersion, Strategy, PlanVersionPresentation, PlanItemProgress, PlanVersionItem,
}
use elowyn_assist.Db.Store.{Db, State}
use elowyn_assist.Mutation.{
  Action, pure, transaction_now, raise, refuse_if, query, write, new_id, now, ◌>>=◌, ◌>>◌,
  scalar_one_or_none, atomic_domain_action, ActionContext, change, operation, append_event,
}
use elowyn_assist.Planning.Guards.{user_message_source, locked_version, presented, get_message}
use elowyn_assist.Planning.Rows.{put_version, put_plan, put_strategy, of_status, has_status}
use elowyn_assist.Planning.Strategy.{accept_strategy, other_approved, supersede_if_any}

abbrev pub current_again : PlanVersion → PlanVersion
current_again version = record version { status = PlanVersionStatus.approved }

-- The end of `reactivate_historical_plan_version`, behind the strategy.
unfoldable pub finish_reactivation : Plan → PlanVersion → Source → Operation → Action PlanVersion
finish_reactivation plan approved source op = do
  append_event op EventType.plan_version_approved (some plan.entity_id) (some source) (
      change "version_status" (name "SUPERSEDED") (name "APPROVED")
      ∷ change "version_id" null (uuid approved.id)
      ∷ change "reactivated" (flag false) (flag true)
      ∷ [])
  pure approved

-- The writes of `reactivate_historical_plan_version` behind the replaced version.
unfoldable pub install_reactivation : Plan → PlanVersion → Source → Operation → Action PlanVersion
unfolding accept_strategy finish_reactivation
install_reactivation plan version source op = do
  let approved = current_again version
  write (put_version approved)
  reactivated_at ← now
  accept_strategy plan approved source op reactivated_at
  finish_reactivation plan approved source op

-- `reactivate_historical_plan_version` from the operation on.
unfoldable pub reactivate_as : Plan → PlanVersion → Source → Operation → Action PlanVersion
unfolding other_approved supersede_if_any install_reactivation
reactivate_as plan version source op = do
  old ← query (other_approved plan.entity_id version.id)
  refuse_if (is_none old) (invalid no_approved_version)
  supersede_if_any plan old version source op
  install_reactivation plan version source op

-- Whether the version is not a formerly approved one.
abbrev pub never_approved : PlanVersion → Bool
never_approved v =
    not (has_status PlanVersionStatus.superseded v)
    || is_none v.approval_source_id
    || is_none v.approved_at

-- `reactivate_historical_plan_version` from the guards on.
unfoldable pub reactivate_now :
    Plan → PlanVersion → Source → Message → ActionContext → Action PlanVersion
unfolding reactivate_as
reactivate_now plan version source message ctx = do
  refuse_if (never_approved version) (invalid not_formerly_approved)
  shown ← query λ db. ok (presented version.id message.conversation_id message.sent_at db)
  refuse_if (not shown) (invalid not_presented)
  op ← operation ctx
  reactivate_as plan version source op

unfoldable pub reactivate_by :
    ActionContext → Source × Message → Plan × PlanVersion → Action PlanVersion
unfolding reactivate_now
reactivate_by ctx (source, message) (plan, version) =
    if has_status PlanVersionStatus.approved version
    then pure version
    else reactivate_now plan version source message ctx

unfoldable pub reactivate_historical_plan_version_body :
    PlanVersionCommand → ActionContext → Action PlanVersion
unfolding reactivate_by
reactivate_historical_plan_version_body command ctx = do
  from ← query (user_message_source ctx.source)
  target ← query (locked_version command.plan_version_id)
  reactivate_by ctx from target

-- `reactivate_historical_plan_version`.
unfoldable pub reactivate_historical_plan_version :
    PlanVersionCommand → ActionContext → Action PlanVersion
unfolding reactivate_historical_plan_version_body
reactivate_historical_plan_version command ctx =
    atomic_domain_action (reactivate_historical_plan_version_body command ctx)

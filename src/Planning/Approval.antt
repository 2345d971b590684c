-- ===== src/Planning/Approval.antt =====
-- services/planning.py: `approve_plan_version`.
pub mod Invariant
pub mod Authority
pub mod Effect
pub mod Log
use elowyn_assist.Common.{
  ℕ, Bool, true, false, not, ◌&&◌, ◌||◌, Option, none, some, List, [], ◌∷◌, ◌++◌, map, filter, find,
  any, ◌==◌, if◌then◌else◌, is_id, is_none, leb,
}
use elowyn_assist.Common.Json.{Json, null, flag, uuid, name, object, end, field, mentions}
use elowyn_assist.Domain.Enums.{
  EntityType, EventType, same_event_type, MessageAuthor, same_message_author, PlanVersionStatus,
  same_plan_version_status, PlanItemProgressStatus,
}
use elowyn_assist.Domain.Errors.{
  Result, ok, err, Error, invalid, or_raise, not_candidate, not_presented, not_assistant_message,
  missing_strategy, not_formerly_approved, no_approved_version,
}
use elowyn_assist.Domain.PlanningCommands.{PlanVersionPresentationCreate, PlanVersionCommand}
use elowyn_assist.Db.Rows.{Source, Operation, Entity, Event, Message, Change}
use elowyn_assist.Db.Plans.{
  Plan, PlanVersion, Strategy, PlanVersionPresentation, PlanItemProgress, PlanVersionItem,
}
use elowyn_assist.Db.Store.{Db, State}
use elowyn_assist.Mutation.{
  Action, pure, transaction_now, raise, refuse_if, query, write, new_id, now, ◌>>=◌, ◌>>◌,
  scalar_one_or_none, atomic_domain_action, ActionContext, change, operation, append_event,
}
use elowyn_assist.Planning.Guards.{user_message_source, locked_version, presented, get_message}
use elowyn_assist.Planning.Rows.{put_version, put_plan, put_strategy, of_status, has_status}
use elowyn_assist.Planning.Strategy.{accept_strategy, other_approved, supersede_if_any}

-- The progress rows of an approved version's items, none of them started.
unfoldable pub initial_progress : Source → ℕ → List PlanVersionItem → List PlanItemProgress
initial_progress source at [] = []
initial_progress source at (item ∷ items) =
    record {
      plan_version_item_id = item.id;
      status = PlanItemProgressStatus.not_started;
      note = none;
      source_id = source.id;
      updated_at = at;
    }
    ∷ initial_progress source at items

unfoldable pub start_progress : PlanVersion → Source → Action (Unit {0})
unfolding initial_progress
start_progress version source = do
  at ← transaction_now
  write λ db. record db {
    progress =
        db.progress
        ++ initial_progress source at
            (filter (λ item. item.plan_version_id == version.id) db.items);
  }

abbrev pub approved_by : PlanVersion → Source → ℕ → PlanVersion
approved_by version source at = record version {
  status = PlanVersionStatus.approved;
  approval_source_id = some source.id;
  approved_at = some at;
}

-- The end of `approve_plan_version`, behind the strategy.
unfoldable pub finish_approval : Plan → PlanVersion → Source → Operation → Action PlanVersion
unfolding start_progress
finish_approval plan approved source op = do
  start_progress approved source
  append_event op EventType.plan_version_approved (some plan.entity_id) (some source) (
      change "version_status" (name "CANDIDATE") (name "APPROVED")
      ∷ change "version_id" null (uuid approved.id)
      ∷ [])
  pure approved

-- The writes of `approve_plan_version` behind the replaced version.
unfoldable pub install_approval : Plan → PlanVersion → Source → Operation → Action PlanVersion
unfolding accept_strategy finish_approval
install_approval plan version source op = do
  accepted_at ← now
  let approved = approved_by version source accepted_at
  write (put_version approved)
  accept_strategy plan approved source op accepted_at
  finish_approval plan approved source op

-- `approve_plan_version` from the operation on.
unfoldable pub approve_as : Plan → PlanVersion → Source → Operation → Action PlanVersion
unfolding other_approved supersede_if_any install_approval
approve_as plan version source op = do
  old ← query (other_approved plan.entity_id version.id)
  supersede_if_any plan old version source op
  install_approval plan version source op

-- `approve_plan_version` from the guards on.
unfoldable pub approve_now :
    Plan → PlanVersion → Source → Message → ActionContext → Action PlanVersion
unfolding approve_as
approve_now plan version source message ctx = do
  refuse_if (not (has_status PlanVersionStatus.candidate version)) (invalid not_candidate)
  shown ← query λ db. ok (presented version.id message.conversation_id message.sent_at db)
  refuse_if (not shown) (invalid not_presented)
  op ← operation ctx
  approve_as plan version source op

unfoldable pub approve_by :
    ActionContext → Source × Message → Plan × PlanVersion → Action PlanVersion
unfolding approve_now
approve_by ctx (source, message) (plan, version) =
    if has_status PlanVersionStatus.approved version && is_id version.approval_source_id source.id
    then pure version
    else approve_now plan version source message ctx

unfoldable pub approve_plan_version_body : PlanVersionCommand → ActionContext → Action PlanVersion
unfolding approve_by
approve_plan_version_body command ctx = do
  from ← query (user_message_source ctx.source)
  target ← query (locked_version command.plan_version_id)
  approve_by ctx from target

-- `approve_plan_version`.
unfoldable pub approve_plan_version : PlanVersionCommand → ActionContext → Action PlanVersion
unfolding approve_plan_version_body
approve_plan_version command ctx = atomic_domain_action (approve_plan_version_body command ctx)

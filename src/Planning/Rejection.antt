-- ===== src/Planning/Rejection.antt =====
-- services/planning.py: `reject_candidate_version`.
pub mod Invariant
pub mod Told
pub mod Effect
pub mod Log
use elowyn_assist.Common.{
  ℕ, Bool, true, false, not, ◌&&◌, ◌||◌, Option, none, some, List, [], ◌∷◌, ◌++◌, map, filter, find,
  any, ◌==◌, if◌then◌else◌, is_id, is_none, leb,
}
use elowyn_assist.Common.Json.{Json, null, flag, uuid, name, object, end, field, mentions}
use elowyn_assist.Domain.Enums.{
  EntityType, EventType, same_event_type, MessageAuthor, same_message_author, PlanVersionStatus,
  same_plan_version_status, PlanItemProgressStatus,
}
use elowyn_assist.Domain.Errors.{
  Result, ok, err, Error, invalid, or_raise, not_candidate, not_presented, not_assistant_message,
  missing_strategy, not_formerly_approved, no_approved_version,
}
use elowyn_assist.Domain.PlanningCommands.{PlanVersionPresentationCreate, PlanVersionCommand}
use elowyn_assist.Db.Rows.{Source, Operation, Entity, Event, Message, Change}
use elowyn_assist.Db.Plans.{
  Plan, PlanVersion, Strategy, PlanVersionPresentation, PlanItemProgress, PlanVersionItem,
}
use elowyn_assist.Db.Store.{Db, State}
use elowyn_assist.Mutation.{
  Action, pure, transaction_now, raise, refuse_if, query, write, new_id, now, ◌>>=◌, ◌>>◌,
  scalar_one_or_none, atomic_domain_action, ActionContext, change, operation, append_event,
}
use elowyn_assist.Planning.Guards.{user_message_source, locked_version, presented, get_message}
use elowyn_assist.Planning.Rows.{put_version, put_plan, put_strategy, of_status, has_status}

-- Whether this source has rejected this version before: the events that `reject_candidate_version`
-- reads, and `str(version.id) in str(event.changes)`.
abbrev pub rejects : ℕ → ℕ → ℕ → Event → Bool
rejects plan_id source_id version_id event =
    is_id event.entity_id plan_id
    && same_event_type event.event_type EventType.plan_version_rejected
    && is_id event.source_id source_id
    && any (λ (c : Change). mentions version_id c.old || mentions version_id c.new) event.changes

unfoldable pub already_rejected : ℕ → ℕ → ℕ → Db → Bool
already_rejected plan_id source_id version_id db =
    any (rejects plan_id source_id version_id) db.events

abbrev pub rejected_form : PlanVersion → PlanVersion
rejected_form version = record version { status = PlanVersionStatus.rejected }

-- The writes of a rejection.
unfoldable pub reject_as : Plan → PlanVersion → Source → Operation → Action PlanVersion
reject_as plan version source op = do
  write (put_version (rejected_form version))
  append_event op EventType.plan_version_rejected (some plan.entity_id) (some source) (
      change "version_status" (name "CANDIDATE") (name "REJECTED")
      ∷ change "version_id" null (uuid version.id)
      ∷ [])
  pure (rejected_form version)

unfoldable pub reject_now : Plan → PlanVersion → Source → ActionContext → Action PlanVersion
unfolding reject_as
reject_now plan version source ctx = do
  refuse_if (not (has_status PlanVersionStatus.candidate version)) (invalid not_candidate)
  op ← operation ctx
  reject_as plan version source op

unfoldable pub reject_by :
    ActionContext → Source × Message → Plan × PlanVersion → Action PlanVersion
unfolding reject_now already_rejected
reject_by ctx (source, message) (plan, version) s =
    if has_status PlanVersionStatus.rejected version
      && already_rejected plan.entity_id source.id version.id s.db
    then pure version s
    else reject_now plan version source ctx s

unfoldable pub reject_candidate_version_body :
    PlanVersionCommand → ActionContext → Action PlanVersion
unfolding reject_by
reject_candidate_version_body command ctx = do
  from ← query (user_message_source ctx.source)
  target ← query (locked_version command.plan_version_id)
  reject_by ctx from target

-- `reject_candidate_version`.
unfoldable pub reject_candidate_version : PlanVersionCommand → ActionContext → Action PlanVersion
unfolding reject_candidate_version_body
reject_candidate_version command ctx =
    atomic_domain_action (reject_candidate_version_body command ctx)

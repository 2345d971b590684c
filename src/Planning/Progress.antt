-- ===== src/Planning/Progress.antt =====
-- services/planning.py: `update_plan_item_progress`.
pub mod Log
use elowyn_assist.Common.{ℕ, not, ◌&&◌, Option, some, [], ◌∷◌, find, ◌==◌, if◌then◌else◌}
use elowyn_assist.Common.Json.{Json, null, uuid, name}
use elowyn_assist.Domain.Enums.{
  EventType, PlanVersionStatus, same_plan_version_status, PlanItemProgressStatus,
  same_plan_item_progress_status, plan_item_progress_status_value,
}
use elowyn_assist.Domain.Errors.{
  invalid, not_found, Kind, not_approved_version, progress_missing, or_raise,
}
use elowyn_assist.Domain.PlanningCommands.{PlanItemProgressUpdate}
use elowyn_assist.Db.Rows.{Source}
use elowyn_assist.Db.Plans.{Plan, PlanItemProgress}
use elowyn_assist.Db.Store.{Db}
use elowyn_assist.Mutation.{
  Action, pure, refuse_if, query, write, now, ◌>>=◌, ◌>>◌, atomic_domain_action, ActionContext,
  change, operation, append_event,
}
use elowyn_assist.Planning.Guards.{user_message_source, locked_version, get_item}
use elowyn_assist.Planning.Rows.{put_progress}

abbrev pub get_progress : ℕ → Db → Option PlanItemProgress
get_progress i db = find (λ p. p.plan_version_item_id == i) db.progress

abbrev status_name : PlanItemProgressStatus → Json
status_name status = name (plan_item_progress_status_value status)

unfoldable pub progress_now :
    Plan
    → PlanItemProgress
    → Source
    → PlanItemProgressUpdate
    → ActionContext
    → Action PlanItemProgress
progress_now plan progress source command ctx = do
  updated_at ← now
  let changed : PlanItemProgress = record progress {
    status = command.status;
    note = command.note;
    source_id = source.id;
    updated_at = updated_at;
  }
  write (put_progress changed)
  op ← operation ctx
  append_event op EventType.plan_item_progress_updated (some plan.entity_id) (some source) (
      change "progress_status" (status_name progress.status) (status_name command.status)
      ∷ change "item_id" null (uuid progress.plan_version_item_id)
      ∷ [])
  pure changed

unfoldable pub update_plan_item_progress_body :
    PlanItemProgressUpdate → ActionContext → Action PlanItemProgress
unfolding progress_now
update_plan_item_progress_body command ctx = do
  (source, message) ← query (user_message_source ctx.source)
  item ← query λ db. or_raise (not_found Kind.item) (get_item command.plan_version_item_id db)
  (plan, version) ← query (locked_version item.plan_version_id)
  refuse_if (not (same_plan_version_status version.status PlanVersionStatus.approved))
      (invalid not_approved_version)
  progress ← query λ db. or_raise (invalid progress_missing) (get_progress item.id db)
  if same_plan_item_progress_status progress.status command.status
        && progress.source_id == source.id
      then pure progress
      else progress_now plan progress source command ctx

-- `update_plan_item_progress`.
unfoldable pub update_plan_item_progress :
    PlanItemProgressUpdate → ActionContext → Action PlanItemProgress
unfolding update_plan_item_progress_body
update_plan_item_progress command ctx =
    atomic_domain_action (update_plan_item_progress_body command ctx)

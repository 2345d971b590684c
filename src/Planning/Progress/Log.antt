-- ===== src/Planning/Progress/Log.antt =====
-- services/planning.py: the event that `update_plan_item_progress` appends.
use elowyn_assist.Common.{refl}
use elowyn_assist.Domain.PlanningCommands.{PlanItemProgressUpdate}
use elowyn_assist.Db.Rows.{Source, Message}
use elowyn_assist.Db.Plans.{Plan, PlanVersion, PlanItemProgress}
use elowyn_assist.Db.Store.{State}
use elowyn_assist.Mutation.{Action, ActionContext, append_event}
use elowyn_assist.Planning.Progress.{
  progress_now, update_plan_item_progress_body, update_plan_item_progress,
}
use elowyn_assist.Mutation.Log.{Logs-bind, Logs, Logs-silent, Logs-one, Logging, atomic-Logging}
use elowyn_assist.Common.{suc, Bool, not, Bool-cases, inl, inr, ◌&&◌, ◌==◌}
use elowyn_assist.Domain.Enums.{PlanVersionStatus}
use elowyn_assist.Domain.Errors.{invalid}
use elowyn_assist.Mutation.{query, refuse_if, ◌>>=◌, ◌>>◌, operation}
use elowyn_assist.Db.Plans.{PlanVersionItem}
use elowyn_assist.Planning.Guards.{user_message_source, locked_version}
use elowyn_assist.Planning.Guards.{get_item}
use elowyn_assist.Common.{if◌then◌else◌}
use elowyn_assist.Mutation.{pure}
use elowyn_assist.Domain.Enums.{same_plan_version_status, same_plan_item_progress_status}
use elowyn_assist.Planning.Progress.{get_progress}
use elowyn_assist.Domain.Errors.{Kind, not_found, or_raise, not_approved_version, progress_missing}

progress_now-Logs :
    (plan : Plan) (p : PlanItemProgress) (source : Source) (command : PlanItemProgressUpdate)
    (ctx : ActionContext) (s : State)
    → Logs s (progress_now plan p source command ctx s).1
unfolding progress_now append_event operation
progress_now-Logs plan p source command ctx s =
    Logs-one s (progress_now plan p source command ctx s).1 _ (s.clock (suc s.readings)) refl refl
      refl

progress-Logs :
    (command : PlanItemProgressUpdate) (ctx : ActionContext) (s : State)
    → Logs s (update_plan_item_progress_body command ctx s).1
unfolding update_plan_item_progress_body
progress-Logs command ctx s =
    Logs-bind (query (user_message_source ctx.source)) (λ from. look >>= on from) s
      (Logs-silent s s refl refl)
      λ from t. Logs-bind look (on from) t (Logs-silent t t refl refl) λ item t.
        Logs-bind (query (locked_version item.plan_version_id)) (guarded from item) t
          (Logs-silent t t refl refl)
          λ target t.
            Logs-bind (guard target) (λ _. row item >>= step from target) t
              (Logs-silent t t refl refl)
              λ _ t.
                Logs-bind (row item) (step from target) t (Logs-silent t t refl refl) λ progress t.
                  elim (Bool-cases (repeats from progress)) [
                    | inl same ↦ rw same (Logs-silent t t refl refl)
                    | inr other ↦
                        rw other (progress_now-Logs target.0 progress from.0 command ctx t)
                  ]
  where
    look : Action PlanVersionItem
    look = query λ db. or_raise (not_found Kind.item) (get_item command.plan_version_item_id db)

    guard : Plan × PlanVersion → Action (Unit {0})
    guard target =
        refuse_if (not (same_plan_version_status target.1.status PlanVersionStatus.approved))
          (invalid not_approved_version)

    row : PlanVersionItem → Action PlanItemProgress
    row item = query λ db. or_raise (invalid progress_missing) (get_progress item.id db)

    repeats : Source × Message → PlanItemProgress → Bool
    repeats from progress =
        same_plan_item_progress_status progress.status command.status
        && progress.source_id == from.0.id

    step : Source × Message → Plan × PlanVersion → PlanItemProgress → Action PlanItemProgress
    step from target progress =
        if repeats from progress
        then pure progress
        else progress_now target.0 progress from.0 command ctx

    guarded : Source × Message → PlanVersionItem → Plan × PlanVersion → Action PlanItemProgress
    guarded from item target = guard target >> (row item >>= step from target)

    on : Source × Message → PlanVersionItem → Action PlanItemProgress
    on from item = query (locked_version item.plan_version_id) >>= guarded from item

pub update_plan_item_progress-Logging :
    (command : PlanItemProgressUpdate) (ctx : ActionContext)
    → Logging (update_plan_item_progress command ctx)
unfolding update_plan_item_progress
update_plan_item_progress-Logging command ctx =
    atomic-Logging (update_plan_item_progress_body command ctx)
      (record { logs = progress-Logs command ctx })

-- ===== src/WorldState/Service/Building/Tasks.antt =====
-- services/world_state.py: how the operations on tasks are built.
use elowyn_assist.Common.{Bool, Option, [], false, is_empty, none, not, refl, some, true, ℕ, ◌++◌}
use elowyn_assist.Db.Rows.{Operation, Source}
use elowyn_assist.Db.World.{Task}
use elowyn_assist.Domain.Commands.Assessments.{TaskAssessment}
use elowyn_assist.Domain.Commands.Updates.{TaskUpdate, check_task_update}
use elowyn_assist.Domain.Enums.{same_task_status}
use elowyn_assist.Domain.Errors.{integrity, invalid, no_change}
use elowyn_assist.Mutation.{ActionContext}
use elowyn_assist.WorldState.Completion.{evidence_of, inferred_by, stamp, stamp_change}
use elowyn_assist.WorldState.Examine.{examine_task_update}
use elowyn_assist.WorldState.Fields.{Draft}
use elowyn_assist.WorldState.Guards.{put_task}
use elowyn_assist.WorldState.Service.Building.{
  Built, atomically, inferring, operating, reading, recording, refusing, returning, taking_time,
  writing, ◌>>=◌, ◌>>◌,
}
use elowyn_assist.WorldState.Tasks.{
  apply_task_update, assess_task, assess_task_body, assessed_task, assign_task, is_done,
  settle_task, task_event, task_nulls, update_task, update_task_body,
}

pub stamp-Built :
    (changed is_final was_final : Bool) (old : Option ℕ)
    → Built (Option ℕ) (stamp changed is_final was_final old)
unfolding stamp
stamp-Built false is_final was_final old = (returning old).1
stamp-Built true true was_final old = (do t ← taking_time; returning (some t)).1
stamp-Built true false true old = (returning none).1
stamp-Built true false false old = (returning old).1

pub settle_task-Built :
    (old : Task) (draft : Draft Task) (source : Option Source) (op : Operation)
    (completed_at : Option ℕ)
    → Built Task (settle_task old draft source op completed_at)
unfolding settle_task
settle_task-Built old (row, changes) source op completed_at =
    (do
      let task = record row { completed_at = completed_at }
      let all_changes = changes ++ stamp_change "completed_at" old.completed_at completed_at
      refusing (is_empty all_changes) (invalid no_change)
      writing ((put_task task)) (λ w. refl)
      recording op (task_event old.status task.status) task.entity_id source all_changes
      returning task).1

pub apply_task_update-Built :
    (command : TaskUpdate) (source : Option Source) (old : Task) (op : Operation)
    → Built Task (apply_task_update command source old op)
unfolding apply_task_update
apply_task_update-Built command source old op =
    (do
      let draft = assign_task command source (old, [])
      completed_at ← (
        stamp (not (same_task_status draft.0.status old.status)) (is_done draft.0.status)
            (is_done old.status) old.completed_at,
        stamp-Built (not (same_task_status draft.0.status old.status)) (is_done draft.0.status)
            (is_done old.status) old.completed_at,
      )
      refusing (task_nulls command) integrity
      (
        settle_task old draft source op completed_at,
        settle_task-Built old draft source op completed_at,
      )).1

pub update_task_body-Built :
    (command : TaskUpdate) (ctx : ActionContext) → Built Task (update_task_body command ctx)
unfolding update_task_body
update_task_body-Built command ctx =
    (do
      (task, deadline_type) ← reading (examine_task_update command)
      op ← operating ctx
      (
        apply_task_update (record command { deadline_type = deadline_type }) ctx.source task op,
        apply_task_update-Built (record command { deadline_type = deadline_type }) ctx.source task
            op,
      )).1

pub update_task-Built :
    (command : TaskUpdate) (ctx : ActionContext) → Built Task (update_task command ctx)
unfolding update_task
update_task-Built command ctx =
    (atomically (update_task_body command ctx, update_task_body-Built command ctx)).1

pub assess_task_body-Built :
    (command : TaskAssessment) (evidence : Option Source)
    → Built Task (assess_task_body command evidence)
unfolding assess_task_body
assess_task_body-Built command evidence =
    (do
      inference ← inferring command.confidence command.reason_summary (evidence_of evidence)
      update ← reading λ db. check_task_update (assessed_task command)
      (
        update_task update (inferred_by inference "Elowyn task assessment"),
        update_task-Built update (inferred_by inference "Elowyn task assessment"),
      )).1

pub assess_task-Built :
    (command : TaskAssessment) (evidence : Option Source)
    → Built Task (assess_task command evidence)
unfolding assess_task
assess_task-Built command evidence =
    (atomically (assess_task_body command evidence, assess_task_body-Built command evidence)).1

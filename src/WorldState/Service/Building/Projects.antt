-- ===== src/WorldState/Service/Building/Projects.antt =====
-- services/world_state.py: how the operations on projects are built.
use elowyn_assist.Common.{
  Option, [], distinct, false, is_empty, map, none, not, refl, some, true, ℕ, ◌++◌, ◌==◌, ◌∷◌,
}
use elowyn_assist.Common.Json.{null}
use elowyn_assist.Common.Text.{strip}
use elowyn_assist.Db.Rows.{Operation, Source}
use elowyn_assist.Db.World.{Project}
use elowyn_assist.Domain.Commands.{ProjectCreate}
use elowyn_assist.Domain.Commands.Assessments.{Assessment, ProjectSummaryCacheUpdate}
use elowyn_assist.Domain.Commands.Updates.{ProjectUpdate, check_project_update}
use elowyn_assist.Domain.Enums.{EntityType, EventType, same_project_status}
use elowyn_assist.Domain.Errors.{integrity, invalid, no_change}
use elowyn_assist.Mutation.{ActionContext, change}
use elowyn_assist.WorldState.Completion.{evidence_of, inferred_by, stamp, stamp_change}
use elowyn_assist.WorldState.Events.{no_summary}
use elowyn_assist.WorldState.Examine.{examine_project, examine_project_update}
use elowyn_assist.WorldState.Fields.{Draft}
use elowyn_assist.WorldState.Guards.{active_project, put_project}
use elowyn_assist.WorldState.Projects.{
  apply_project_update, assess_project, assess_project_body, assessed_project, assign_project,
  cache_project_summary, cache_project_summary_body, create_project, create_project_body,
  dump_project, install_project, is_completed, new_project, new_project_goal, project_event,
  project_nulls, settle_project, update_project, update_project_body,
}
use elowyn_assist.WorldState.Service.Building.{
  Built, atomically, entering, inferring, operating, reading, recording, refusing, returning,
  taking_time, writing, ◌>>=◌, ◌>>◌,
}
use elowyn_assist.WorldState.Service.Building.Tasks.{stamp-Built}

pub install_project-Built :
    (command : ProjectCreate) (source : Option Source) (op : Operation)
    → Built Project (install_project command source op)
unfolding install_project
install_project-Built command source op =
    (do
      i ← entering EntityType.project
      completed_at ← (
        stamp true (is_completed command.status) false none,
        stamp-Built true (is_completed command.status) false none,
      )
      let project = new_project i command source completed_at
      writing
          (λ w. record w {
            projects = w.projects ++ project ∷ [];
            project_goals =
                w.project_goals ++ map (new_project_goal i source) (distinct ◌==◌ command.goal_ids);
          })
          (λ w. refl)
      recording op EventType.project_created i source
          (change "created" null (dump_project command) ∷ [])
      returning project).1

pub create_project_body-Built :
    (command : ProjectCreate) (ctx : ActionContext)
    → Built Project (create_project_body command ctx)
unfolding create_project_body
create_project_body-Built command ctx =
    (do
      reading (examine_project command)
      op ← operating ctx
      (install_project command ctx.source op, install_project-Built command ctx.source op)).1

pub create_project-Built :
    (command : ProjectCreate) (ctx : ActionContext) → Built Project (create_project command ctx)
unfolding create_project
create_project-Built command ctx =
    (atomically (create_project_body command ctx, create_project_body-Built command ctx)).1

pub settle_project-Built :
    (old : Project) (draft : Draft Project) (source : Option Source) (op : Operation)
    (completed_at : Option ℕ)
    → Built Project (settle_project old draft source op completed_at)
unfolding settle_project
settle_project-Built old (row, changes) source op completed_at =
    (do
      let project = record row { completed_at = completed_at }
      let all_changes = changes ++ stamp_change "completed_at" old.completed_at completed_at
      refusing (is_empty all_changes) (invalid no_change)
      writing ((put_project project)) (λ w. refl)
      recording op (project_event old.status project.status) project.entity_id source all_changes
      returning (no_summary project)).1

pub apply_project_update-Built :
    (command : ProjectUpdate) (source : Option Source) (old : Project) (op : Operation)
    → Built Project (apply_project_update command source old op)
unfolding apply_project_update
apply_project_update-Built command source old op =
    (do
      let draft = assign_project command source (old, [])
      completed_at ← (
        stamp (not (same_project_status draft.0.status old.status)) (is_completed draft.0.status)
            (is_completed old.status) old.completed_at,
        stamp-Built (not (same_project_status draft.0.status old.status))
            (is_completed draft.0.status) (is_completed old.status) old.completed_at,
      )
      refusing (project_nulls command) integrity
      (
        settle_project old draft source op completed_at,
        settle_project-Built old draft source op completed_at,
      )).1

pub update_project_body-Built :
    (command : ProjectUpdate) (ctx : ActionContext)
    → Built Project (update_project_body command ctx)
unfolding update_project_body
update_project_body-Built command ctx =
    (do
      (row, target_date_type) ← reading (examine_project_update command)
      op ← operating ctx
      (
        apply_project_update (record command { target_date_type = target_date_type }) ctx.source row
            op,
        apply_project_update-Built (record command { target_date_type = target_date_type })
            ctx.source row op,
      )).1

pub update_project-Built :
    (command : ProjectUpdate) (ctx : ActionContext) → Built Project (update_project command ctx)
unfolding update_project
update_project-Built command ctx =
    (atomically (update_project_body command ctx, update_project_body-Built command ctx)).1

pub assess_project_body-Built :
    (command : Assessment) (evidence : Option Source)
    → Built Project (assess_project_body command evidence)
unfolding assess_project_body
assess_project_body-Built command evidence =
    (do
      inference ← inferring command.confidence command.reason_summary (evidence_of evidence)
      update ← reading λ db. check_project_update (assessed_project command)
      (
        update_project update (inferred_by inference "Elowyn project importance assessment"),
        update_project-Built update (inferred_by inference "Elowyn project importance assessment"),
      )).1

pub assess_project-Built :
    (command : Assessment) (evidence : Option Source)
    → Built Project (assess_project command evidence)
unfolding assess_project
assess_project-Built command evidence =
    (atomically
      (assess_project_body command evidence, assess_project_body-Built command evidence)).1

pub cache_project_summary_body-Built :
    (command : ProjectSummaryCacheUpdate) → Built Project (cache_project_summary_body command)
unfolding cache_project_summary_body
cache_project_summary_body-Built command =
    (do
      project ← reading (active_project command.entity_id)
      t ← taking_time
      let cached = record project {
        current_summary = some (strip command.summary);
        current_summary_updated_at = some t;
      }
      writing ((put_project cached)) (λ w. refl)
      returning cached).1

pub cache_project_summary-Built :
    (command : ProjectSummaryCacheUpdate) → Built Project (cache_project_summary command)
unfolding cache_project_summary
cache_project_summary-Built command =
    (atomically (cache_project_summary_body command, cache_project_summary_body-Built command)).1

-- ===== src/WorldState/Service.antt =====
-- services/world_state.py: `WorldStateService`, its methods as calls, and a run of calls.
pub mod Building
pub mod Performance
pub mod Log
mod Tests
pub mod Keeps
pub mod Below
pub mod Ordered
pub mod Acyclic
pub mod Built
use elowyn_assist.Common.{ℕ, Option, List, [], ◌∷◌}
use elowyn_assist.Domain.Commands.{
  TaskCreate, ProjectCreate, GoalCreate, DecisionCreate, DecisionRevoke, TaskGoalLinkCreate,
  ProjectGoalLinkCreate, TaskDependencyCreate, EntityRelationCreate,
}
use elowyn_assist.Domain.Commands.Updates.{
  TaskUpdate, ProjectUpdate, GoalUpdate, SuccessCriterionUpdate,
}
use elowyn_assist.Domain.Commands.Assessments.{
  TaskAssessment, Assessment, ProjectSummaryCacheUpdate, SuccessCriterionAssessment,
  EntityRelationInference,
}
use elowyn_assist.Db.Rows.{Source}
use elowyn_assist.Db.Store.{State}
use elowyn_assist.Mutation.{Action, ActionContext, outcome}
use elowyn_assist.WorldState.Tasks
use elowyn_assist.WorldState.Projects
use elowyn_assist.WorldState.Projects.{cache_project_summary}
use elowyn_assist.WorldState.Goals
use elowyn_assist.WorldState.Criteria.{update_success_criterion, assess_success_criterion}
use elowyn_assist.WorldState.Decisions
use elowyn_assist.WorldState.Links
use elowyn_assist.WorldState.Links.{add_task_dependency}
use elowyn_assist.WorldState.Relations
use elowyn_assist.WorldState.Relations.{create_relation}
use elowyn_assist.WorldState.Undo.{undo_last_change}

-- A call with its command; an assessment has its evidence, every other one its context.
pub data Call : Type 0 where
  create_task : TaskCreate → ActionContext → Call
  update_task : TaskUpdate → ActionContext → Call
  assess_task : TaskAssessment → Option Source → Call
  create_project : ProjectCreate → ActionContext → Call
  update_project : ProjectUpdate → ActionContext → Call
  cache_summary : ProjectSummaryCacheUpdate → Call
  assess_project : Assessment → Option Source → Call
  create_goal : GoalCreate → ActionContext → Call
  update_goal : GoalUpdate → ActionContext → Call
  assess_goal : Assessment → Option Source → Call
  update_criterion : SuccessCriterionUpdate → ActionContext → Call
  assess_criterion : SuccessCriterionAssessment → Option Source → Call
  create_decision : DecisionCreate → ActionContext → Call
  revoke_decision : DecisionRevoke → ActionContext → Call
  link_task_goal : TaskGoalLinkCreate → ActionContext → Call
  link_project_goal : ProjectGoalLinkCreate → ActionContext → Call
  add_dependency : TaskDependencyCreate → ActionContext → Call
  relate : EntityRelationCreate → ActionContext → Call
  infer_relation : EntityRelationInference → Option Source → Call
  undo : ActionContext → Option ℕ → Call

unfoldable pub perform : Call → Action (Unit {0})
perform (Call.create_task c ctx) s = outcome (Tasks.create_task c ctx s)
perform (Call.update_task c ctx) s = outcome (Tasks.update_task c ctx s)
perform (Call.assess_task c evidence) s = outcome (Tasks.assess_task c evidence s)
perform (Call.create_project c ctx) s = outcome (Projects.create_project c ctx s)
perform (Call.update_project c ctx) s = outcome (Projects.update_project c ctx s)
perform (Call.cache_summary c) s = outcome (cache_project_summary c s)
perform (Call.assess_project c evidence) s = outcome (Projects.assess_project c evidence s)
perform (Call.create_goal c ctx) s = outcome (Goals.create_goal c ctx s)
perform (Call.update_goal c ctx) s = outcome (Goals.update_goal c ctx s)
perform (Call.assess_goal c evidence) s = outcome (Goals.assess_goal c evidence s)
perform (Call.update_criterion c ctx) s = outcome (update_success_criterion c ctx s)
perform (Call.assess_criterion c evidence) s = outcome (assess_success_criterion c evidence s)
perform (Call.create_decision c ctx) s = outcome (Decisions.create_decision c ctx s)
perform (Call.revoke_decision c ctx) s = outcome (Decisions.revoke_decision c ctx s)
perform (Call.link_task_goal c ctx) s = outcome (Links.link_task_goal c ctx s)
perform (Call.link_project_goal c ctx) s = outcome (Links.link_project_goal c ctx s)
perform (Call.add_dependency c ctx) s = outcome (add_task_dependency c ctx s)
perform (Call.relate c ctx) s = outcome (create_relation c ctx s)
perform (Call.infer_relation c evidence) s = outcome (Relations.infer_relation c evidence s)
perform (Call.undo ctx entity_id) s = outcome (undo_last_change ctx entity_id s)

-- A caller that goes on whether a call has raised or not.
unfoldable pub run : List Call → State → State
unfolding perform
run [] s = s
run (call ∷ calls) s = run calls (perform call s).1

-- ===== src/WorldState/Service/Performance.antt =====
-- services/world_state.py: every call of the service performs an action that is built of the known
-- ones.
use elowyn_assist.Common.{◌≡◌, refl}
use elowyn_assist.Db.Store.{State}
use elowyn_assist.Mutation.{Action, outcome, atomic_domain_action}
use elowyn_assist.WorldState.Tasks.{create_task}
use elowyn_assist.WorldState.Links.{add_task_dependency}
use elowyn_assist.WorldState.Service.{Call, perform}
use elowyn_assist.WorldState.Service.Built.{Built, creates_task, adds_dependency}
use elowyn_assist.WorldState.Tasks.{update_task, assess_task}
use elowyn_assist.WorldState.Projects.{
  create_project, update_project, cache_project_summary, assess_project,
}
use elowyn_assist.WorldState.Goals.{create_goal, update_goal, assess_goal}
use elowyn_assist.WorldState.Criteria.{update_success_criterion, assess_success_criterion}
use elowyn_assist.WorldState.Decisions.{create_decision, revoke_decision}
use elowyn_assist.WorldState.Links.{link_task_goal, link_project_goal}
use elowyn_assist.WorldState.Relations.{create_relation, infer_relation}
use elowyn_assist.WorldState.Undo.{undo_last_change}
use elowyn_assist.WorldState.Service.Building.Tasks.{update_task_body-Built, assess_task_body-Built}
use elowyn_assist.WorldState.Service.Building.Projects.{
  create_project_body-Built, update_project_body-Built, cache_project_summary_body-Built,
  assess_project_body-Built,
}
use elowyn_assist.WorldState.Service.Building.Goals.{
  create_goal_body-Built, update_goal_body-Built, assess_goal_body-Built,
}
use elowyn_assist.WorldState.Service.Building.Criteria.{
  update_success_criterion_body-Built, assess_success_criterion_body-Built,
}
use elowyn_assist.WorldState.Service.Building.Decisions.{
  create_decision_body-Built, revoke_decision_body-Built,
}
use elowyn_assist.WorldState.Service.Building.Relations.{
  link_task_goal_body-Built, link_project_goal_body-Built, create_relation_body-Built,
  infer_relation_body-Built,
}
use elowyn_assist.WorldState.Service.Building.Undo.{undo_last_change_body-Built}

-- A call is performed in a savepoint; its body is built of the known actions.
pub record Performance (call : Call) : Type 1 where
  pub Value : Type 0
  pub body : Action Value
  pub built : Built Value body
  pub performs : (s : State) → perform call s ≡ outcome (atomic_domain_action body s)

pub performance : (call : Call) → Performance call
unfolding perform create_task add_task_dependency update_task assess_task create_project
    update_project cache_project_summary assess_project create_goal update_goal assess_goal
    update_success_criterion assess_success_criterion create_decision revoke_decision link_task_goal
    link_project_goal create_relation infer_relation undo_last_change
performance (Call.create_task c ctx) = record {
  Value = _;
  body = _;
  built = creates_task c ctx;
  performs = λ s. refl;
}
performance (Call.update_task c ctx) = record {
  Value = _;
  body = _;
  built = update_task_body-Built c ctx;
  performs = λ s. refl;
}
performance (Call.assess_task c evidence) = record {
  Value = _;
  body = _;
  built = assess_task_body-Built c evidence;
  performs = λ s. refl;
}
performance (Call.create_project c ctx) = record {
  Value = _;
  body = _;
  built = create_project_body-Built c ctx;
  performs = λ s. refl;
}
performance (Call.update_project c ctx) = record {
  Value = _;
  body = _;
  built = update_project_body-Built c ctx;
  performs = λ s. refl;
}
performance (Call.cache_summary c) = record {
  Value = _;
  body = _;
  built = cache_project_summary_body-Built c;
  performs = λ s. refl;
}
performance (Call.assess_project c evidence) = record {
  Value = _;
  body = _;
  built = assess_project_body-Built c evidence;
  performs = λ s. refl;
}
performance (Call.create_goal c ctx) = record {
  Value = _;
  body = _;
  built = create_goal_body-Built c ctx;
  performs = λ s. refl;
}
performance (Call.update_goal c ctx) = record {
  Value = _;
  body = _;
  built = update_goal_body-Built c ctx;
  performs = λ s. refl;
}
performance (Call.assess_goal c evidence) = record {
  Value = _;
  body = _;
  built = assess_goal_body-Built c evidence;
  performs = λ s. refl;
}
performance (Call.update_criterion c ctx) = record {
  Value = _;
  body = _;
  built = update_success_criterion_body-Built c ctx;
  performs = λ s. refl;
}
performance (Call.assess_criterion c evidence) = record {
  Value = _;
  body = _;
  built = assess_success_criterion_body-Built c evidence;
  performs = λ s. refl;
}
performance (Call.create_decision c ctx) = record {
  Value = _;
  body = _;
  built = create_decision_body-Built c ctx;
  performs = λ s. refl;
}
performance (Call.revoke_decision c ctx) = record {
  Value = _;
  body = _;
  built = revoke_decision_body-Built c ctx;
  performs = λ s. refl;
}
performance (Call.link_task_goal c ctx) = record {
  Value = _;
  body = _;
  built = link_task_goal_body-Built c ctx;
  performs = λ s. refl;
}
performance (Call.link_project_goal c ctx) = record {
  Value = _;
  body = _;
  built = link_project_goal_body-Built c ctx;
  performs = λ s. refl;
}
performance (Call.add_dependency c ctx) = record {
  Value = _;
  body = _;
  built = adds_dependency c ctx;
  performs = λ s. refl;
}
performance (Call.relate c ctx) = record {
  Value = _;
  body = _;
  built = create_relation_body-Built c ctx;
  performs = λ s. refl;
}
performance (Call.infer_relation c evidence) = record {
  Value = _;
  body = _;
  built = infer_relation_body-Built c evidence;
  performs = λ s. refl;
}
performance (Call.undo ctx entity_id) = record {
  Value = _;
  body = _;
  built = undo_last_change_body-Built ctx entity_id;
  performs = λ s. refl;
}

-- ===== src/Planning/Service/Tests.antt =====
-- services/planning.py on concrete inputs: a plan whose candidate is presented and approved, and the
-- theorems of the service at such inputs.
mod Data
use elowyn_assist.Common.{ℕ, ◌≡◌, refl, false, none, some, List, [], ◌∷◌, map, arith, find}
use elowyn_assist.Common.Text.{text, strip}
use elowyn_assist.Domain.Enums.{EntityType, MessageAuthor, SourceType, ActorType, PlanVersionStatus}
use elowyn_assist.Domain.Errors.{not_found, Kind}
use elowyn_assist.Domain.PlanningCommands.{PlanCandidateCreate, PlanVersionItemCreate}
use elowyn_assist.Db.Rows.{Entity, Message, Source, finite, in_unit_interval}
use elowyn_assist.Db.Plans.{PlanVersion}
use elowyn_assist.Db.Store.{Db, State}
use elowyn_assist.Mutation.{
  ActionContext, atomic_domain_action, scalar_one_or_none, operation, append_event,
  assistant_inference_source,
}
use elowyn_assist.Planning.Guards.{plan_by_id, user_message_source, locked_version, presented}
use elowyn_assist.Planning.Lifecycle.{by_id}
use elowyn_assist.Planning.Lifecycle.States.{IsValid}
use elowyn_assist.Planning.Lifecycle.History.{Evolved}
use elowyn_assist.Planning.Graph.{assert_acyclic}
use elowyn_assist.Planning.Candidates.{create_candidate_version}
use elowyn_assist.Planning.Presentation.{record_version_presentation}
use elowyn_assist.Planning.Approval.{approve_plan_version}
use elowyn_assist.Planning.Service.{Call, perform, run}
use elowyn_assist.Planning.Service.Invariant.{run-IsValid, run-Evolves}
use elowyn_assist.Common.{count, ◌⊎◌, ◌+◌}
use elowyn_assist.Domain.PlanningCommands.{PlanVersionCommand}
use elowyn_assist.Db.Plans.{PlanVersionPresentation}
use elowyn_assist.Planning.Rows.{of_status}
use elowyn_assist.Planning.Guards.Authority.{IsUserWord}
use elowyn_assist.Planning.Approval.{approved_by}
use elowyn_assist.Planning.Approval.Authority.{IsApproved, approve_plan_version_authority}
use elowyn_assist.Planning.Approval.Effect.{approve_plan_version-IsCurrent}
use elowyn_assist.Planning.Reactivation.{current_again, reactivate_historical_plan_version}
use elowyn_assist.Planning.Reactivation.Authority.{
  IsFormer, reactivate_historical_plan_version_authority,
}
use elowyn_assist.Planning.Reactivation.Effect.{reactivate_historical_plan_version-IsCurrent}
use elowyn_assist.Planning.Rejection.{rejected_form, reject_candidate_version}
use elowyn_assist.Planning.Rejection.Effect.{IsRejected, reject_candidate_version_authority}
use elowyn_assist.Planning.Candidates.{new_version, max_number}
use elowyn_assist.Planning.Candidates.Effect.{
  IsNewCandidate, create_candidate_version-IsNewCandidate,
}
use elowyn_assist.Planning.Lifecycle.Current.{IsCurrent}
use elowyn_assist.Common.{length, ◌↔◌}
use elowyn_assist.Domain.Enums.{PlanGoalRole}
use elowyn_assist.Domain.Errors.{ok, err}
use elowyn_assist.Domain.PlanningCommands.{PlanGoalLinkCreate, validate_graph_references}
use elowyn_assist.Domain.PlanningCommands.Exact.{IsReferable, validate_graph_references_iff}
use elowyn_assist.Planning.Guards.{persisted_source, active_goals}
use elowyn_assist.Planning.Plans.{link_goal}
use elowyn_assist.Planning.Plans.Links.{IsLinked, link_goal-IsLinked}
use elowyn_assist.Mutation.Log.{Logs}
use elowyn_assist.Planning.Service.Log.{run-Logs}
use elowyn_assist.Planning.Service.Tests.Data.{
  goal_start, calls, start, start_db, start-IsValid, user_context, first_version, stored,
  stored-IsValid, shown, shown-IsValid, first_command, first_approved, former_version, replaced,
  replaced-IsValid, candidate_input, user_source,
}

abbrev approve_unseen : Call
approve_unseen = Call.approve (record { plan_version_id = 102 })

abbrev final_status : PlanVersion → ℕ × ℕ × PlanVersionStatus
final_status v = (v.id, v.version_number, v.status)

run_statuses :
    map final_status (run calls start).db.versions
    ≡ (102, 1, PlanVersionStatus.approved) ∷ (116, 2, PlanVersionStatus.candidate) ∷ []
unfolding run create_candidate_version record_version_presentation approve_plan_version
    assert_acyclic atomic_domain_action plan_by_id user_message_source locked_version
    scalar_one_or_none presented operation append_event assistant_inference_source in_unit_interval
    strip
run_statuses = refl

run-IsValid_example : IsValid (run calls start)
run-IsValid_example = run-IsValid calls start start-IsValid

approve_unseen_refused :
    (perform approve_unseen user_context start).0 ≡ err (not_found Kind.version)
unfolding perform approve_plan_version atomic_domain_action user_message_source locked_version
approve_unseen_refused = refl

run-Evolves_example :
    (w : PlanVersion) × (find (by_id 50) (run calls stored).db.versions ≡ some w)
    × Evolved first_version w
run-Evolves_example = run-Evolves calls stored first_version stored-IsValid refl

approve_plan_version_authority_example :
    (source : Source) × (message : Message) × (v : PlanVersion) × IsUserWord user_context.source
      source message shown.db
    × (find (by_id 50) shown.db.versions ≡ some v)
    × IsApproved source message shown.db v first_approved
unfolding approve_plan_version atomic_domain_action user_message_source locked_version presented
    operation append_event scalar_one_or_none plan_by_id
approve_plan_version_authority_example =
    approve_plan_version_authority first_command user_context shown first_approved refl

approve_plan_version-IsCurrent_example :
    IsCurrent 50 first_approved
      (approve_plan_version first_command user_context shown).1.db.versions
unfolding approve_plan_version atomic_domain_action user_message_source locked_version presented
    operation append_event scalar_one_or_none plan_by_id
approve_plan_version-IsCurrent_example =
    approve_plan_version-IsCurrent first_command user_context shown first_approved shown-IsValid
      refl

reactivate_historical_plan_version_authority_example :
    (source : Source) × (message : Message) × (v : PlanVersion) × IsUserWord user_context.source
      source message replaced.db
    × (find (by_id 50) replaced.db.versions ≡ some v)
    × (((v.status ≡ PlanVersionStatus.approved) × (current_again former_version ≡ v))
        ⊎ (IsFormer v message replaced.db × (current_again former_version ≡ current_again v)))
unfolding reactivate_historical_plan_version atomic_domain_action user_message_source locked_version
    presented operation append_event scalar_one_or_none plan_by_id
reactivate_historical_plan_version_authority_example =
    reactivate_historical_plan_version_authority first_command user_context replaced
      (current_again former_version) refl

reactivate_historical_plan_version-IsCurrent_example :
    IsCurrent 50
      (current_again former_version)
      (reactivate_historical_plan_version first_command user_context replaced).1.db.versions
unfolding reactivate_historical_plan_version atomic_domain_action user_message_source locked_version
    presented operation append_event scalar_one_or_none plan_by_id
reactivate_historical_plan_version-IsCurrent_example =
    reactivate_historical_plan_version-IsCurrent first_command user_context replaced
      (current_again former_version) replaced-IsValid refl

reject_candidate_version_authority_example :
    let t = (reject_candidate_version first_command user_context stored).1 in
    (source : Source) × (message : Message) × (v : PlanVersion) × IsUserWord user_context.source
      source message stored.db
    × (find (by_id 50) stored.db.versions ≡ some v)
    × (find (by_id 50) t.db.versions ≡ some (rejected_form first_version))
    × IsRejected source stored.db t.db v (rejected_form first_version)
unfolding reject_candidate_version atomic_domain_action user_message_source locked_version operation
    append_event scalar_one_or_none plan_by_id
reject_candidate_version_authority_example =
    reject_candidate_version_authority first_command user_context stored
      (rejected_form first_version) refl

abbrev created : PlanVersion
created = new_version 103 1 2 candidate_input 100

create_candidate_version-IsNewCandidate_example :
    IsNewCandidate candidate_input created stored.db.versions
      (create_candidate_version candidate_input user_context stored).1.db.versions
unfolding create_candidate_version atomic_domain_action assert_acyclic plan_by_id scalar_one_or_none
    operation append_event assistant_inference_source in_unit_interval strip
create_candidate_version-IsNewCandidate_example =
    create_candidate_version-IsNewCandidate candidate_input user_context stored created
      stored-IsValid refl

abbrev primary_link : PlanGoalLinkCreate
primary_link = record { goal_id = 2; role = PlanGoalRole.primary }

start-IsLinked : IsLinked goal_start.db.goal_links
start-IsLinked = record { one_primary = λ p. omega arith; one_pair = λ p g. omega arith }

link_goal_test : length (link_goal 1 primary_link user_context goal_start).1.db.goal_links ≡ 1
unfolding link_goal atomic_domain_action plan_by_id persisted_source operation append_event
    scalar_one_or_none active_goals
link_goal_test = refl

link_goal-IsLinked_example :
    IsLinked (link_goal 1 primary_link user_context goal_start).1.db.goal_links
link_goal-IsLinked_example =
    link_goal-IsLinked 1 primary_link user_context goal_start start-IsLinked

validate_graph_references_iff_example :
    (validate_graph_references candidate_input ≡ ok tt) ↔ IsReferable candidate_input
validate_graph_references_iff_example = validate_graph_references_iff candidate_input

run-Logs_example : Logs start (run calls start)
run-Logs_example = run-Logs calls start

-- ===== src/Planning/Service.antt =====
-- services/planning.py: `PlanningService` as a whole. A call is one of its operations, and a run is
-- a sequence of calls on one service object.
pub mod Invariant
pub mod Log
mod Tests
use elowyn_assist.Common.{ℕ, List, [], ◌∷◌}
use elowyn_assist.Domain.PlanningCommands.{
  PlanCreate, PlanGoalLinkCreate, PlanCandidateCreate, PlanVersionPresentationCreate,
  PlanVersionCommand, PlanItemProgressUpdate,
}
use elowyn_assist.Domain.Errors.{Result, ok, err, Error}
use elowyn_assist.Db.Store.{State}
use elowyn_assist.Mutation.{outcome, Action, ActionContext}
use elowyn_assist.Planning.Plans
use elowyn_assist.Planning.Candidates.{create_candidate_version}
use elowyn_assist.Planning.Presentation.{record_version_presentation}
use elowyn_assist.Planning.Rejection.{reject_candidate_version}
use elowyn_assist.Planning.Approval.{approve_plan_version}
use elowyn_assist.Planning.Reactivation.{reactivate_historical_plan_version}
use elowyn_assist.Planning.Progress.{update_plan_item_progress}

pub data Call : Type 0 where
  create_plan : PlanCreate → Call
  link_goal : ℕ → PlanGoalLinkCreate → Call
  create_candidate : PlanCandidateCreate → Call
  present : PlanVersionPresentationCreate → Call
  reject approve reactivate : PlanVersionCommand → Call
  progress : PlanItemProgressUpdate → Call

unfoldable pub perform : Call → ActionContext → Action (Unit {0})
perform (Call.create_plan c) ctx s = outcome (Plans.create_plan c ctx s)
perform (Call.link_goal i c) ctx s = outcome (Plans.link_goal i c ctx s)
perform (Call.create_candidate c) ctx s = outcome (create_candidate_version c ctx s)
perform (Call.present c) ctx s = outcome (record_version_presentation c ctx s)
perform (Call.reject c) ctx s = outcome (reject_candidate_version c ctx s)
perform (Call.approve c) ctx s = outcome (approve_plan_version c ctx s)
perform (Call.reactivate c) ctx s = outcome (reactivate_historical_plan_version c ctx s)
perform (Call.progress c) ctx s = outcome (update_plan_item_progress c ctx s)

-- A caller that goes on whether a call has raised or not.
unfoldable pub run : List (Call × ActionContext) → State → State
unfolding perform
run [] s = s
run ((call, ctx) ∷ calls) s = run calls (perform call ctx s).1

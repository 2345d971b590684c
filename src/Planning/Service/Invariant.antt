-- ===== src/Planning/Service/Invariant.antt =====
-- services/planning.py: every run of the service keeps the version table as the schema wants it.
use elowyn_assist.Common.{ℕ, ◌≡◌, Option, none, some, List, [], ◌∷◌, arith, find}
use elowyn_assist.Domain.Errors.{Result, ok, err}
use elowyn_assist.Domain.PlanningCommands.{
  PlanCreate, PlanGoalLinkCreate, PlanVersionPresentationCreate, PlanItemProgressUpdate,
}
use elowyn_assist.Db.Rows.{Source, Operation, Message}
use elowyn_assist.Db.Plans.{
  Plan, PlanVersion, PlanVersionPresentation, PlanGoalLink, PlanItemProgress,
}
use elowyn_assist.Db.Store.{State}
use elowyn_assist.Mutation.{outcome, Action, ActionContext, append_event, atomic_domain_action}
use elowyn_assist.Mutation.Frame.{Steady, operation-Quiet}
use elowyn_assist.Planning.Lifecycle.{by_id}
use elowyn_assist.Planning.Lifecycle.History.{Evolved, Evolves}
use elowyn_assist.Planning.Lifecycle.States.{
  IsValid, Grows, Grows-refl, Grows-trans, Steady-Grows, atomic-Grows,
}
use elowyn_assist.Planning.Service.{Call, perform, run}
use elowyn_assist.Planning.Candidates.{create_candidate_version}
use elowyn_assist.Planning.Candidates.Invariant.{create_candidate_version-Grows}
use elowyn_assist.Planning.Rejection.{reject_candidate_version}
use elowyn_assist.Planning.Rejection.Invariant.{reject_candidate_version-Grows}
use elowyn_assist.Planning.Approval.{approve_plan_version}
use elowyn_assist.Planning.Approval.Invariant.{approve_plan_version-Grows}
use elowyn_assist.Planning.Reactivation.{reactivate_historical_plan_version}
use elowyn_assist.Planning.Reactivation.Invariant.{reactivate_historical_plan_version-Grows}
use elowyn_assist.Planning.Plans.{
  add_link, add_links, new_plan, install_plan, create_plan_body, create_plan, link_unless,
  link_goal_body, link_goal,
}
use elowyn_assist.Planning.Presentation.{
  present_unless, record_version_presentation_body, record_version_presentation,
}
use elowyn_assist.Planning.Progress.{
  progress_now, update_plan_item_progress_body, update_plan_item_progress,
}

outcome_rule {ℓ κ} :
    {A : Type ℓ} (P : State → Type κ) (out : Result A × State) → P out.1 → P (outcome out).1
outcome_rule P (ok a, s) h = h
outcome_rule P (err e, s) h = h

-- An operation that leaves the version table alone, behind a savepoint.
atomic-of_Steady {ℓ} :
    {A : Type ℓ} (m : Action A) (s : State)
    → Steady s (m s).1
    → IsValid s
    → Grows s (atomic_domain_action m s).1
atomic-of_Steady m s h l = atomic-Grows m s l (Steady-Grows s (m s).1 h l)

add_link-Steady :
    (op : Operation) (i : ℕ) (source : Source) (g : PlanGoalLinkCreate) (s : State)
    → Steady s (add_link op i source g s).1
unfolding add_link append_event
add_link-Steady op i source g s = ground arith

add_links-Steady :
    (op : Operation) (i : ℕ) (source : Source) (gs : List PlanGoalLinkCreate) (s : State)
    → Steady s (add_links op i source gs s).1
unfolding add_links
add_links-Steady op i source [] s = ground arith
add_links-Steady op i source (g ∷ gs) s = ground (
  arith,
  add_link-Steady op i source g s,
  add_links-Steady op i source gs (add_link op i source g s).1,
)

create_plan-Steady :
    (command : PlanCreate) (ctx : ActionContext) (s : State)
    → Steady s (create_plan_body command ctx s).1
unfolding create_plan_body install_plan new_plan append_event
create_plan-Steady command ctx s = grind (arith, add_links-Steady, operation-Quiet)

link_unless-Steady :
    (i : ℕ) (command : PlanGoalLinkCreate) (ctx : ActionContext) (o : Option PlanGoalLink)
    (s : State)
    → Steady s (link_unless i command ctx o s).1
unfolding link_unless
link_unless-Steady i command ctx (some existing) s = ground arith
link_unless-Steady i command ctx none s = grind (arith, add_link-Steady, operation-Quiet)

link_goal-Steady :
    (i : ℕ) (command : PlanGoalLinkCreate) (ctx : ActionContext) (s : State)
    → Steady s (link_goal_body i command ctx s).1
unfolding link_goal_body
link_goal-Steady i command ctx s = grind (arith, link_unless-Steady)

present_unless-Steady :
    (plan : Plan) (v : PlanVersion) (m : Message) (ctx : ActionContext)
    (o : Option PlanVersionPresentation) (s : State)
    → Steady s (present_unless plan v m ctx o s).1
unfolding present_unless append_event
present_unless-Steady plan v m ctx (some existing) s = ground arith
present_unless-Steady plan v m ctx none s = grind (arith, operation-Quiet)

presentation-Steady :
    (command : PlanVersionPresentationCreate) (ctx : ActionContext) (s : State)
    → Steady s (record_version_presentation_body command ctx s).1
unfolding record_version_presentation_body
presentation-Steady command ctx s = grind (arith, present_unless-Steady)

progress_now-Steady :
    (plan : Plan) (p : PlanItemProgress) (source : Source) (command : PlanItemProgressUpdate)
    (ctx : ActionContext) (s : State)
    → Steady s (progress_now plan p source command ctx s).1
unfolding progress_now append_event
progress_now-Steady plan p source command ctx s = grind (arith, operation-Quiet)

progress-Steady :
    (command : PlanItemProgressUpdate) (ctx : ActionContext) (s : State)
    → Steady s (update_plan_item_progress_body command ctx s).1
unfolding update_plan_item_progress_body
progress-Steady command ctx s = grind (arith, progress_now-Steady)

-- Every operation keeps the version table as the schema wants it, whatever its result.
pub perform-Grows :
    (call : Call) (ctx : ActionContext) (s : State) → IsValid s → Grows s (perform call ctx s).1
unfolding perform create_plan link_goal record_version_presentation update_plan_item_progress
perform-Grows (Call.create_plan c) ctx s l =
    outcome_rule (Grows s) (create_plan c ctx s)
      (atomic-of_Steady (create_plan_body c ctx) s (create_plan-Steady c ctx s) l)
perform-Grows (Call.link_goal i c) ctx s l =
    outcome_rule (Grows s) (link_goal i c ctx s)
      (atomic-of_Steady (link_goal_body i c ctx) s (link_goal-Steady i c ctx s) l)
perform-Grows (Call.create_candidate c) ctx s l =
    outcome_rule (Grows s) (create_candidate_version c ctx s)
      (create_candidate_version-Grows c ctx s l)
perform-Grows (Call.present c) ctx s l =
    outcome_rule (Grows s) (record_version_presentation c ctx s)
      (atomic-of_Steady (record_version_presentation_body c ctx) s (presentation-Steady c ctx s) l)
perform-Grows (Call.reject c) ctx s l =
    outcome_rule (Grows s) (reject_candidate_version c ctx s)
      (reject_candidate_version-Grows c ctx s l)
perform-Grows (Call.approve c) ctx s l =
    outcome_rule (Grows s) (approve_plan_version c ctx s) (approve_plan_version-Grows c ctx s l)
perform-Grows (Call.reactivate c) ctx s l =
    outcome_rule (Grows s) (reactivate_historical_plan_version c ctx s)
      (reactivate_historical_plan_version-Grows c ctx s l)
perform-Grows (Call.progress c) ctx s l =
    outcome_rule (Grows s) (update_plan_item_progress c ctx s)
      (atomic-of_Steady (update_plan_item_progress_body c ctx) s (progress-Steady c ctx s) l)

run-Grows : (calls : List (Call × ActionContext)) (s : State) → IsValid s → Grows s (run calls s)
unfolding run
run-Grows [] s l = Grows-refl s l
run-Grows ((call, ctx) ∷ calls) s l =
    let t = (perform call ctx s).1 in
    let step = perform-Grows call ctx s l in
    Grows-trans s t (run calls t) step (run-Grows calls t step.valid)

-- From a valid version table every run of the planning service, with any inputs and whichever of
-- its calls raise, leads to a valid one: identifiers and numbers are unique, each plan has at most
-- one candidate and at most one approved version, and the approval columns fit the status.
pub run-IsValid :
    (calls : List (Call × ActionContext)) (s : State) → IsValid s → IsValid (run calls s)
run-IsValid calls s l = (run-Grows calls s l).valid

-- No version is lost in a run that starts with a valid version table, and its content never changes:
-- only the status and the approval columns may differ, the latter only if it was a candidate. No
-- version becomes a candidate again, a rejected one stays rejected, and one that was superseded
-- without ever being approved stays superseded.
pub run-Evolves :
    (calls : List (Call × ActionContext)) (s : State) (v : PlanVersion)
    → IsValid s
    → find (by_id v.id) s.db.versions ≡ some v
    → (w : PlanVersion) × (find (by_id v.id) (run calls s).db.versions ≡ some w) × Evolved v w
unfolding Evolves
run-Evolves calls s v l found = (run-Grows calls s l).kept v.id v found

-- ===== src/Planning/Strategy/Log.antt =====
-- services/planning.py: the events of `_accept_strategy` and of a version that gives way.
use elowyn_assist.Common.{ℕ, refl, Option, none, some}
use elowyn_assist.Db.Rows.{Source, Operation}
use elowyn_assist.Db.Plans.{Plan, PlanVersion}
use elowyn_assist.Db.Store.{State}
use elowyn_assist.Mutation.{Action, append_event}
use elowyn_assist.Mutation.Log.{Logs-bind, Logs, Logs-silent, Logs-trans, Logs-one}
use elowyn_assist.Mutation.{◌>>◌}
use elowyn_assist.Db.Plans.{Strategy}
use elowyn_assist.Planning.Rows.{put_strategy}
use elowyn_assist.Planning.Strategy.{
  take_strategy, announce_strategy, finish_strategy, adopt_strategy, accept_strategy,
  supersede_if_any,
}

take_strategy-Logs :
    (i : Option ℕ) (v : PlanVersion) (source : Source) (at : ℕ) (s : State)
    → Logs s (take_strategy i v source at s).1
unfolding take_strategy
take_strategy-Logs none v source at s = Logs-silent s (take_strategy none v source at s).1 refl refl
take_strategy-Logs (some i) v source at s = Logs-silent s s refl refl

announce_strategy-Logs :
    (i : Option ℕ) (plan : Plan) (x : Strategy) (v : PlanVersion) (source : Source) (op : Operation)
    (s : State)
    → Logs s (announce_strategy i plan x v source op s).1
unfolding announce_strategy append_event
announce_strategy-Logs none plan x v source op s =
    Logs-one s (announce_strategy none plan x v source op s).1 _ (s.clock s.readings) refl refl refl
announce_strategy-Logs (some i) plan x v source op s = Logs-silent s s refl refl

adopt_strategy-Logs :
    (plan : Plan) (v : PlanVersion) (source : Source) (op : Operation) (at : ℕ) (base : Strategy)
    (s : State)
    → Logs s (adopt_strategy plan v source op at base s).1
unfolding adopt_strategy finish_strategy append_event
adopt_strategy-Logs plan v source op at base s =
    let x : Strategy = record base {
      approach = v.proposed_strategy_snapshot;
      rationale = v.strategy_rationale_snapshot;
      accepted_from_plan_version_id = v.id;
      accepted_source_id = source.id;
      accepted_at = at;
    } in
    let t = record s { db = put_strategy x s.db } in
    Logs-trans s t (adopt_strategy plan v source op at base s).1 (Logs-silent s t refl refl) (
      Logs-bind (announce_strategy plan.strategy_id plan x v source op)
        (λ _. finish_strategy x v source op) t
        (announce_strategy-Logs plan.strategy_id plan x v source op t)
        (λ _ u.
          Logs-one u (finish_strategy x v source op u).1 _ (u.clock u.readings) refl refl refl))

pub accept_strategy-Logs :
    (plan : Plan) (v : PlanVersion) (source : Source) (op : Operation) (at : ℕ) (s : State)
    → Logs s (accept_strategy plan v source op at s).1
unfolding accept_strategy
accept_strategy-Logs plan v source op at s =
    Logs-bind (take_strategy plan.strategy_id v source at) (adopt_strategy plan v source op at) s
      (take_strategy-Logs plan.strategy_id v source at s) (adopt_strategy-Logs plan v source op at)

pub supersede_if_any-Logs :
    (plan : Plan) (o : Option PlanVersion) (v : PlanVersion) (source : Source) (op : Operation)
    (s : State)
    → Logs s (supersede_if_any plan o v source op s).1
unfolding supersede_if_any append_event
supersede_if_any-Logs plan none v source op s = Logs-silent s s refl refl
supersede_if_any-Logs plan (some old) v source op s =
    Logs-one s (supersede_if_any plan (some old) v source op s).1 _ (s.clock s.readings) refl refl
      refl

-- The other approved version gives way, and a version is installed.
pub replace-Logs :
    (install : Plan → PlanVersion → Source → Operation → Action PlanVersion) (plan : Plan)
    (v : PlanVersion) (source : Source) (op : Operation) (old : Option PlanVersion) (s : State)
    → ((u : State) → Logs u (install plan v source op u).1)
    → Logs s ((supersede_if_any plan old v source op >> install plan v source op) s).1
replace-Logs install plan v source op old s h =
    Logs-bind (supersede_if_any plan old v source op) (λ _. install plan v source op) s
      (supersede_if_any-Logs plan old v source op s) (λ _. h)

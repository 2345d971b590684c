-- ===== src/Planning/Plans/Log.antt =====
-- services/planning.py: the events that `create_plan` and `link_goal` append.
use elowyn_assist.Common.{ℕ, refl, Option, none, some, List, [], ◌∷◌, arith}
use elowyn_assist.Domain.Errors.{ok}
use elowyn_assist.Domain.PlanningCommands.{PlanCreate, PlanGoalLinkCreate}
use elowyn_assist.Db.Rows.{Source, Operation}
use elowyn_assist.Db.Plans.{Plan, PlanGoalLink}
use elowyn_assist.Db.Store.{State}
use elowyn_assist.Mutation.{Action, ActionContext, append_event}
use elowyn_assist.Planning.Plans.{
  add_link, add_links, new_plan, install_plan, create_plan_body, create_plan, link_unless,
  link_goal_body, link_goal,
}
use elowyn_assist.Mutation.Log.{
  Logs-bind, Logs, Logs-silent, Logs-one, Logging, atomic-Logging, operation-Logging,
}
use elowyn_assist.Mutation.{query, ◌>>=◌, ◌>>◌, operation}
use elowyn_assist.Planning.Guards.{plan_by_id, active_goals, persisted_source}
use elowyn_assist.Planning.Plans.{new_plan, install_plan, check_primary, get_link}
use elowyn_assist.Common.{map}
use elowyn_assist.Mutation.{pure}

add_link-Logs :
    (op : Operation) (i : ℕ) (source : Source) (g : PlanGoalLinkCreate) (s : State)
    → Logs s (add_link op i source g s).1
unfolding add_link append_event
add_link-Logs op i source g s =
    Logs-one s (add_link op i source g s).1 _ (s.clock s.readings) refl refl refl

add_links-Logs :
    (op : Operation) (i : ℕ) (source : Source) (gs : List PlanGoalLinkCreate) (s : State)
    → Logs s (add_links op i source gs s).1
unfolding add_links
add_links-Logs op i source [] s = Logs-silent s s refl refl
add_links-Logs op i source (g ∷ gs) s =
    Logs-bind (add_link op i source g) (λ _. add_links op i source gs) s
      (add_link-Logs op i source g s) (λ _. add_links-Logs op i source gs)

install_plan-Logs :
    (command : PlanCreate) (source : Source) (op : Operation) (s : State)
    → Logs s (install_plan command source op s).1
unfolding install_plan new_plan append_event
install_plan-Logs command source op s =
    Logs-bind (new_plan command source op)
      (λ plan. add_links op plan.entity_id source command.goals >> pure plan) s
      (Logs-one s (new_plan command source op s).1 _ (s.clock s.readings) refl refl refl)
      λ plan t.
        Logs-bind (add_links op plan.entity_id source command.goals) (λ _. pure plan) t
          (add_links-Logs op plan.entity_id source command.goals t)
          (λ _ u. Logs-silent u u refl refl)

pub create_plan-Logging :
    (command : PlanCreate) (ctx : ActionContext) → Logging (create_plan command ctx)
unfolding create_plan create_plan_body
create_plan-Logging command ctx = atomic-Logging (create_plan_body command ctx) (record {
  logs = λ s.
      Logs-bind (query (persisted_source ctx.source)) (λ source. goals >> install source) s
        (Logs-silent s s refl refl)
        λ source t.
          Logs-bind goals (λ _. install source) t (Logs-silent t t refl refl)
            λ _ u.
              Logs-bind (operation ctx) (install_plan command source) u
                ((operation-Logging ctx).logs u) (install_plan-Logs command source);
})
  where
    goals : Action (Unit {0})
    goals = query (active_goals (map (λ (g : PlanGoalLinkCreate). g.goal_id) command.goals))

    install : Source → Action Plan
    install source = operation ctx >>= install_plan command source

link_unless-Logs :
    (p : ℕ) (command : PlanGoalLinkCreate) (ctx : ActionContext) (o : Option PlanGoalLink)
    (s : State)
    → Logs s (link_unless p command ctx o s).1
unfolding link_unless
link_unless-Logs p command ctx (some existing) s = Logs-silent s _ (ground arith) (ground arith)
link_unless-Logs p command ctx none s =
    Logs-bind (query (check_primary p command.role))
      (λ _. query (persisted_source ctx.source) >>= rest) s (Logs-silent s s refl refl)
      λ _ t.
        Logs-bind (query (persisted_source ctx.source)) rest t (Logs-silent t t refl refl)
          λ source u.
            Logs-bind (operation ctx) (λ op. add_link op p source command) u
              ((operation-Logging ctx).logs u) λ op. add_link-Logs op p source command
  where
    rest : Source → Action PlanGoalLink
    rest source = operation ctx >>= λ op. add_link op p source command

pub link_goal-Logging :
    (plan_id : ℕ) (command : PlanGoalLinkCreate) (ctx : ActionContext)
    → Logging (link_goal plan_id command ctx)
unfolding link_goal link_goal_body
link_goal-Logging plan_id command ctx =
    atomic-Logging (link_goal_body plan_id command ctx) (record {
      logs = λ s.
          Logs-bind (query (plan_by_id plan_id)) (λ plan. goals >> look plan) s
            (Logs-silent s s refl refl)
            λ plan t.
              Logs-bind goals (λ _. look plan) t (Logs-silent t t refl refl)
                λ _ u.
                  link_unless-Logs plan.entity_id command ctx
                    (get_link plan.entity_id command.goal_id u.db) u;
    })
  where
    goals : Action (Unit {0})
    goals = query (active_goals (command.goal_id ∷ []))

    look : Plan → Action PlanGoalLink
    look plan =
        query (λ db. ok (get_link plan.entity_id command.goal_id db))
        >>= link_unless plan.entity_id command ctx

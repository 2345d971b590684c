-- ===== src/Planning/Plans/Links.antt =====
-- services/planning.py: the links of plans to goals, under `link_goal`.
use elowyn_assist.Common.{
  ℕ, ◌≤◌, ◌≡◌, refl, Bool, true, ◌&&◌, Option, none, some, List, [], ◌∷◌, ◌++◌, arith, ◌==◌, count,
  find, filter, count-append, length-filter,
}
use elowyn_assist.Domain.Enums.{PlanGoalRole, same_plan_goal_role}
use elowyn_assist.Domain.Errors.{Result, ok}
use elowyn_assist.Domain.PlanningCommands.{PlanGoalLinkCreate}
use elowyn_assist.Db.Rows.{Source, Operation}
use elowyn_assist.Db.Plans.{Plan, PlanGoalLink}
use elowyn_assist.Db.Store.{Db, State}
use elowyn_assist.Mutation.{
  Action, ActionContext, bind_rule, settle_rule, query, operation, append_event,
  atomic_domain_action, ◌>>=◌, ◌>>◌, or_none-none,
}
use elowyn_assist.Mutation.Frame.{operation-Quiet}
use elowyn_assist.Planning.Guards.{plan_by_id, active_goals, persisted_source}
use elowyn_assist.Planning.Plans.{
  new_link, add_link, primary_of, check_primary, get_link, link_unless, link_goal_body, link_goal,
}

abbrev pub pair : ℕ → ℕ → PlanGoalLink → Bool
pair p g link = link.plan_id == p && link.goal_id == g

-- The constraints of the table of links: a goal is linked to a plan once, and a plan has at most one
-- primary goal.
pub record IsLinked (links : List PlanGoalLink) : Type 0 where
  pub one_primary : (p : ℕ) → count (primary_of p) links ≤ 1
  pub one_pair : (p g : ℕ) → count (pair p g) links ≤ 1

count-none {ℓ} : {A : Type ℓ} (q : A → Bool) (xs : List A) → find q xs ≡ none → count q xs ≡ 0
count-none q [] h = refl
count-none q (x ∷ xs) h = ground (arith, count-none q xs)

check_primary-none :
    (p : ℕ) (role : PlanGoalRole) (db : Db)
    → check_primary p role db ≡ ok tt
    → same_plan_goal_role role PlanGoalRole.primary ≡ true
    → count (primary_of p) db.goal_links ≡ 0
unfolding check_primary
check_primary-none p PlanGoalRole.supporting db h e = absurd (cc)
check_primary-none p PlanGoalRole.primary db h e =
    let links = filter (primary_of p) db.goal_links in
    ground (arith, or_none-none links, length-filter (primary_of p) db.goal_links)

added-IsLinked :
    (link : PlanGoalLink) (links : List PlanGoalLink)
    → IsLinked links
    → find (pair link.plan_id link.goal_id) links ≡ none
    → (same_plan_goal_role link.role PlanGoalRole.primary ≡ true
        → count (primary_of link.plan_id) links ≡ 0)
    → IsLinked (links ++ link ∷ [])
added-IsLinked link links l fresh vacant = record {
  one_primary =
      λ p. ground (arith, count-append (primary_of p) links (link ∷ []), l.one_primary p, vacant);
  one_pair = λ p g. ground (
    arith,
    count-append (pair p g) links (link ∷ []),
    l.one_pair p g,
    count-none (pair link.plan_id link.goal_id) links fresh,
  );
}

add_link-IsLinked :
    (op : Operation) (p : ℕ) (source : Source) (command : PlanGoalLinkCreate) (s : State)
    → IsLinked s.db.goal_links
    → get_link p command.goal_id s.db ≡ none
    → (same_plan_goal_role command.role PlanGoalRole.primary ≡ true
        → count (primary_of p) s.db.goal_links ≡ 0)
    → IsLinked (add_link op p source command s).1.db.goal_links
unfolding add_link append_event
add_link-IsLinked op p source command s l fresh vacant =
    added-IsLinked (new_link p source command) s.db.goal_links l fresh vacant

link_unless-IsLinked :
    (p : ℕ) (command : PlanGoalLinkCreate) (ctx : ActionContext) (s : State)
    → IsLinked s.db.goal_links
    → (o : Option PlanGoalLink) → get_link p command.goal_id s.db ≡ o
    → IsLinked (link_unless p command ctx o s).1.db.goal_links
unfolding link_unless
link_unless-IsLinked p command ctx s l (some existing) e = ground arith
link_unless-IsLinked p command ctx s l none e =
    bind_rule kept (query (check_primary p command.role))
      (λ _. query (persisted_source ctx.source) >>= rest) s
      (λ _ vacant.
        bind_rule kept (query (persisted_source ctx.source)) rest s
          (λ source _.
            bind_rule kept (operation ctx) (λ op. add_link op p source command) s
              (λ op _.
                let t = (operation ctx s).1 in
                let still = (operation-Quiet ctx s).goal_links in
                add_link-IsLinked op p source command t (rw still l) (rw still e)
                  (rw still (check_primary-none p command.role s.db vacant)))
              (λ _ _. rw ((operation-Quiet ctx s).goal_links) l))
          (λ _ _. l))
      (λ _ _. l)
  where
    kept : Result PlanGoalLink × State → Type 0
    kept z = IsLinked z.1.db.goal_links

    rest : Source → Action PlanGoalLink
    rest source = operation ctx >>= λ op. add_link op p source command

-- If no plan has two primary goals and no goal is linked twice to a plan, that is so after every
-- call of `link_goal`, whether it returns or raises.
pub link_goal-IsLinked :
    (plan_id : ℕ) (command : PlanGoalLinkCreate) (ctx : ActionContext) (s : State)
    → IsLinked s.db.goal_links
    → IsLinked (link_goal plan_id command ctx s).1.db.goal_links
unfolding link_goal atomic_domain_action link_goal_body
link_goal-IsLinked plan_id command ctx s l =
    settle_rule (λ t. IsLinked t.db.goal_links) s (link_goal_body plan_id command ctx s)
      (bind_rule kept (query (plan_by_id plan_id)) goals s
        (λ plan _.
          bind_rule kept (query (active_goals (command.goal_id ∷ []))) (λ _. look plan) s
            (λ _ _.
              link_unless-IsLinked plan.entity_id command ctx s l
                (get_link plan.entity_id command.goal_id s.db) refl)
            (λ _ _. l))
        (λ _ _. l))
      l
  where
    kept : Result PlanGoalLink × State → Type 0
    kept z = IsLinked z.1.db.goal_links

    look : Plan → Action PlanGoalLink
    look plan =
        query (λ db. ok (get_link plan.entity_id command.goal_id db))
        >>= link_unless plan.entity_id command ctx

    goals : Plan → Action PlanGoalLink
    goals plan = query (active_goals (command.goal_id ∷ [])) >> look plan

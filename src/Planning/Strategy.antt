-- ===== src/Planning/Strategy.antt =====
-- services/planning.py: `_accept_strategy`, and the approved version that gives way to another.
pub mod Invariant
pub mod Log
use elowyn_assist.Common.{
  ℕ, Bool, true, false, not, ◌&&◌, ◌||◌, Option, none, some, List, [], ◌∷◌, ◌++◌, map, filter, find,
  any, ◌==◌, if◌then◌else◌, is_id, is_none, leb,
}
use elowyn_assist.Common.Json.{Json, null, flag, uuid, name, object, end, field, mentions}
use elowyn_assist.Domain.Enums.{
  EntityType, EventType, same_event_type, MessageAuthor, same_message_author, PlanVersionStatus,
  same_plan_version_status, PlanItemProgressStatus,
}
use elowyn_assist.Domain.Errors.{
  Result, ok, err, Error, invalid, or_raise, not_candidate, not_presented, not_assistant_message,
  missing_strategy, not_formerly_approved, no_approved_version,
}
use elowyn_assist.Domain.PlanningCommands.{PlanVersionPresentationCreate, PlanVersionCommand}
use elowyn_assist.Db.Rows.{Source, Operation, Entity, Event, Message, Change}
use elowyn_assist.Db.Plans.{
  Plan, PlanVersion, Strategy, PlanVersionPresentation, PlanItemProgress, PlanVersionItem,
}
use elowyn_assist.Db.Store.{Db, State}
use elowyn_assist.Mutation.{
  Action, pure, transaction_now, raise, refuse_if, query, write, new_id, now, ◌>>=◌, ◌>>◌,
  scalar_one_or_none, atomic_domain_action, ActionContext, change, operation, append_event,
}
use elowyn_assist.Planning.Guards.{user_message_source, locked_version, presented, get_message}
use elowyn_assist.Planning.Rows.{put_version, put_plan, put_strategy, of_status, has_status}

-- `_accept_strategy`: the plan's strategy, or a new one with its entity.
unfoldable pub existing_strategy : ℕ → Db → Result Strategy
existing_strategy i db =
    elim (scalar_one_or_none (filter (λ (x : Strategy). x.entity_id == i) db.strategies)) [
      | ok found ↦ or_raise (invalid missing_strategy) found
      | err e ↦ err e
    ]

unfoldable pub new_strategy : PlanVersion → Source → ℕ → Action Strategy
new_strategy version source at = do
  i ← new_id
  let entity : Entity = record {
    id = i;
    entity_type = EntityType.strategy;
    superseded_by_entity_id = none;
    removed_at = none;
  }
  write λ db. record db { entities = db.entities ++ entity ∷ [] }
  let strategy : Strategy = record {
    entity_id = i;
    approach = version.proposed_strategy_snapshot;
    rationale = version.strategy_rationale_snapshot;
    accepted_from_plan_version_id = version.id;
    accepted_source_id = source.id;
    accepted_at = at;
  }
  write λ db. record db { strategies = db.strategies ++ strategy ∷ [] }
  pure strategy

unfoldable pub take_strategy : Option ℕ → PlanVersion → Source → ℕ → Action Strategy
unfolding existing_strategy new_strategy
take_strategy none version source at = new_strategy version source at
take_strategy (some i) version source at = query (existing_strategy i)

unfoldable pub announce_strategy :
    Option ℕ → Plan → Strategy → PlanVersion → Source → Operation → Action (Unit {0})
announce_strategy none plan strategy version source op = do
  write (put_plan (record plan { strategy_id = some strategy.entity_id }))
  append_event op EventType.strategy_created (some strategy.entity_id) (some source)
      (change "created_from_version" null (uuid version.id) ∷ [])
  pure tt
announce_strategy (some i) plan strategy version source op = pure tt

unfoldable pub finish_strategy : Strategy → PlanVersion → Source → Operation → Action Strategy
finish_strategy strategy version source op = do
  append_event op EventType.strategy_accepted (some strategy.entity_id) (some source)
      (change "accepted_version" null (uuid version.id) ∷ [])
  pure strategy

-- `_accept_strategy` behind the choice of the strategy.
unfoldable pub adopt_strategy :
    Plan → PlanVersion → Source → Operation → ℕ → Strategy → Action Strategy
unfolding announce_strategy finish_strategy
adopt_strategy plan version source op at base = do
  let strategy : Strategy = record base {
    approach = version.proposed_strategy_snapshot;
    rationale = version.strategy_rationale_snapshot;
    accepted_from_plan_version_id = version.id;
    accepted_source_id = source.id;
    accepted_at = at;
  }
  write (put_strategy strategy)
  announce_strategy plan.strategy_id plan strategy version source op
  finish_strategy strategy version source op

unfoldable pub accept_strategy : Plan → PlanVersion → Source → Operation → ℕ → Action Strategy
unfolding take_strategy adopt_strategy
accept_strategy plan version source op at = do
  base ← take_strategy plan.strategy_id version source at
  adopt_strategy plan version source op at base

-- The approved version of the plan other than this one, which an approval replaces.
unfoldable pub other_approved : ℕ → ℕ → Db → Result (Option PlanVersion)
other_approved plan_id version_id db = scalar_one_or_none (
    filter (λ v. of_status plan_id PlanVersionStatus.approved v && not (v.id == version_id))
      db.versions)

unfoldable pub supersede : Plan → PlanVersion → PlanVersion → Source → Operation → Action (Unit {0})
supersede plan old version source op = do
  write (put_version (record old { status = PlanVersionStatus.superseded }))
  append_event op EventType.plan_version_superseded (some plan.entity_id) (some source)
      (change "version_id" (uuid old.id) (uuid version.id) ∷ [])
  pure tt

unfoldable pub supersede_if_any :
    Plan → Option PlanVersion → PlanVersion → Source → Operation → Action (Unit {0})
unfolding supersede
supersede_if_any plan none version source op = pure tt
supersede_if_any plan (some old) version source op = supersede plan old version source op

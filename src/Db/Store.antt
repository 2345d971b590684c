-- ===== src/Db/Store.antt =====
-- The database of one transaction and the service object over it. A table is the list of its rows,
-- the oldest first.
use elowyn_assist.Common.{ℕ, Option, List}
use elowyn_assist.Db.Rows.{Entity, Message, Source, SourceDependency, Operation, Event}
use elowyn_assist.Db.Plans.{
  Strategy, Plan, PlanGoalLink, PlanVersion, PlanVersionItem, PlanVersionItemDependency,
  PlanItemProgress, PlanVersionPresentation, PlanVersionBasis,
}
use elowyn_assist.Db.World.{World}

pub record Db : Type 0 where
  pub entities : List Entity
  pub messages : List Message
  pub sources : List Source
  pub source_dependencies : List SourceDependency
  pub operations : List Operation
  pub events : List Event
  pub world : World
  pub strategies : List Strategy
  pub plans : List Plan
  pub goal_links : List PlanGoalLink
  pub versions : List PlanVersion
  pub items : List PlanVersionItem
  pub dependencies : List PlanVersionItemDependency
  pub progress : List PlanItemProgress
  pub presentations : List PlanVersionPresentation
  pub basis : List PlanVersionBasis

-- The service object and its surroundings. `clock k` is the k-th reading of `datetime.now(UTC)`,
-- any number at all; `readings` counts them; `transaction_time` is the database's `now()`, which is
-- fixed in a transaction; `next_id` is the next of the identifiers that `uuid4` hands out.
pub record State : Type 0 where
  pub db : Db
  pub last_event_at : Option ℕ
  pub clock : ℕ → ℕ
  pub readings : ℕ
  pub transaction_time : ℕ
  pub next_id : ℕ

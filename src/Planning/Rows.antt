-- ===== src/Planning/Rows.antt =====
-- Writes of single rows, as the services make them through an object of the session: the row with
-- the object's key is the object.
use elowyn_assist.Common.{ℕ, Bool, ◌&&◌, update, ◌==◌}
use elowyn_assist.Domain.Enums.{PlanVersionStatus, same_plan_version_status}
use elowyn_assist.Db.Plans.{Plan, PlanVersion, PlanItemProgress, Strategy}
use elowyn_assist.Db.Store.{Db}

abbrev pub put_version : PlanVersion → Db → Db
put_version v db = record db { versions = update (λ r. r.id == v.id) (λ _. v) db.versions }

abbrev pub put_plan : Plan → Db → Db
put_plan p db = record db { plans = update (λ r. r.entity_id == p.entity_id) (λ _. p) db.plans }

abbrev pub put_strategy : Strategy → Db → Db
put_strategy x db = record db {
  strategies = update (λ r. r.entity_id == x.entity_id) (λ _. x) db.strategies;
}

abbrev pub put_progress : PlanItemProgress → Db → Db
put_progress p db = record db {
  progress = update (λ r. r.plan_version_item_id == p.plan_version_item_id) (λ _. p) db.progress;
}

-- The versions of a plan with a status.
abbrev pub of_status : ℕ → PlanVersionStatus → PlanVersion → Bool
of_status plan_id status v = v.plan_id == plan_id && same_plan_version_status v.status status

abbrev pub has_status : PlanVersionStatus → PlanVersion → Bool
has_status status v = same_plan_version_status v.status status

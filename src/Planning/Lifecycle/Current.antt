-- ===== src/Planning/Lifecycle/Current.antt =====
-- services/planning.py: the version of a plan that is in force.
use elowyn_assist.Common.{
  ℕ, ◌≡◌, ◌≤◌, Bool, some, List, arith, find, count, only_one, count-pos_of_find,
}
use elowyn_assist.Domain.Enums.{PlanVersionStatus}
use elowyn_assist.Db.Plans.{PlanVersion}
use elowyn_assist.Planning.Rows.{of_status}
use elowyn_assist.Planning.Lifecycle.{by_id}

-- The row `w` stands in the table under the identifier and is approved, and no other version of its
-- plan is.
pub record IsCurrent (i : ℕ) (w : PlanVersion) (versions : List PlanVersion) : Type 0 where
  pub row : find (by_id i) versions ≡ some w
  pub approved : w.status ≡ PlanVersionStatus.approved
  pub alone :
      (x : PlanVersion)
      → find (by_id x.id) versions ≡ some x
      → x.plan_id ≡ w.plan_id
      → x.status ≡ PlanVersionStatus.approved
      → x ≡ w
  pub one : count (of_status w.plan_id PlanVersionStatus.approved) versions ≡ 1

pub IsCurrent-found :
    (i : ℕ) (w : PlanVersion) (versions : List PlanVersion)
    → find (by_id i) versions ≡ some w
    → w.status ≡ PlanVersionStatus.approved
    → count (of_status w.plan_id PlanVersionStatus.approved) versions ≤ 1
    → IsCurrent i w versions
IsCurrent-found i w versions row approved limit = record {
  row = row;
  approved = approved;
  alone = λ x found plan status.
      only_one test (by_id x.id) (by_id i) x w versions found (ground arith) row (ground arith)
        limit;
  one = ground (arith, count-pos_of_find test (by_id i) w versions row, approved);
}
  where
    test : PlanVersion → Bool
    test = of_status w.plan_id PlanVersionStatus.approved

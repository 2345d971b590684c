-- ===== src/Planning/Candidates/Effect.antt =====
-- services/planning.py: what `create_candidate_version` leaves in the version table.
use mathlib.Core.List.{Memᴰ}
use elowyn_assist.Common.{
  ℕ, ◌+◌, ◌≡◌, ◌<◌, ◌⊎◌, inl, inr, none, some, List, arith, find, count, ap, subst, sym, only_one,
  count-pos_of_find,
}
use elowyn_assist.Domain.Enums.{PlanVersionStatus}
use elowyn_assist.Domain.Errors.{ok}
use elowyn_assist.Domain.PlanningCommands.{PlanCandidateCreate}
use elowyn_assist.Db.Plans.{PlanVersion}
use elowyn_assist.Db.Store.{State}
use elowyn_assist.Mutation.{ActionContext}
use elowyn_assist.Planning.Rows.{of_status}
use elowyn_assist.Planning.Lifecycle.{by_id}
use elowyn_assist.Planning.Lifecycle.States.{IsValid}
use elowyn_assist.Planning.Candidates.{max_number, create_candidate_version}
use elowyn_assist.Planning.Candidates.Number.{max_number_above, max_number_attained}
use elowyn_assist.Planning.Candidates.Created.{create_candidate_version-Created}
use elowyn_assist.Planning.Candidates.Invariant.{create_candidate_version-Grows}

-- The columns that the command gives, in a candidate that nobody has approved.
pub record HasContent (command : PlanCandidateCreate) (w : PlanVersion) : Type 0 where
  pub plan : w.plan_id ≡ command.plan_id
  pub summary : w.summary ≡ command.summary
  pub rationale : w.rationale ≡ command.rationale
  pub strategy : w.proposed_strategy_snapshot ≡ command.proposed_strategy_snapshot
  pub strategy_rationale : w.strategy_rationale_snapshot ≡ command.strategy_rationale_snapshot
  pub base : w.based_on_version_id ≡ command.based_on_version_id
  pub candidate : w.status ≡ PlanVersionStatus.candidate
  pub unapproved : w.approval_source_id ≡ none
  pub not_yet : w.approved_at ≡ none

-- The number is above those of the plan's versions, and follows one of them if it is not 1.
pub record IsNextNumber (plan_id n : ℕ) (before : List PlanVersion) : Type 0 where
  pub above : (x : PlanVersion) → Memᴰ x before → x.plan_id ≡ plan_id → x.version_number < n
  pub follows :
      (n ≡ 1)
      ⊎ ((x : PlanVersion) × Memᴰ x before × (x.plan_id ≡ plan_id) × (n ≡ x.version_number + 1))

-- `w` is a row that the table did not have, and the only candidate of its plan.
pub record IsNewCandidate (command : PlanCandidateCreate) (w : PlanVersion)
    (before after : List PlanVersion) : Type 0 where
  pub fresh : count (by_id w.id) before ≡ 0
  pub row : find (by_id w.id) after ≡ some w
  pub content : HasContent command w
  pub numbered : IsNextNumber command.plan_id w.version_number before
  pub alone :
      (x : PlanVersion)
      → find (by_id x.id) after ≡ some x
      → x.plan_id ≡ command.plan_id
      → x.status ≡ PlanVersionStatus.candidate
      → x ≡ w
  pub one : count (of_status command.plan_id PlanVersionStatus.candidate) after ≡ 1

IsNextNumber-highest :
    (p : ℕ) (before : List PlanVersion) → IsNextNumber p (max_number p before + 1) before
IsNextNumber-highest p before = record {
  above = λ x there mine. let top = max_number_above p before x there mine in omega (arith, top);
  follows = elim (max_number_attained p before) [
    | inl zero_yet ↦ inl (omega (arith, zero_yet))
    | inr (x, there, mine, top) ↦ inr (x, there, mine, omega (arith, top))
  ];
}

-- From a valid version table, a candidate that is returned is a new row of the table under its
-- identifier, which no version had before. It has the command's plan, summary, rationale, strategy
-- with its rationale, and base version, no approval, and a number above those of the plan's versions
-- before, which follows one of them or is 1. No other version of that plan is a candidate.
pub create_candidate_version-IsNewCandidate :
    (command : PlanCandidateCreate) (ctx : ActionContext) (s : State) (w : PlanVersion)
    → IsValid s
    → (create_candidate_version command ctx s).0 ≡ ok w
    → IsNewCandidate command w s.db.versions (create_candidate_version command ctx s).1.db.versions
create_candidate_version-IsNewCandidate command ctx s w l h =
    let t = (create_candidate_version command ctx s).1 in
    let (row, form, fresh) = create_candidate_version-Created command ctx s l w h in
    let valid = (create_candidate_version-Grows command ctx s l).valid in
    let mine : w.plan_id ≡ command.plan_id = ap (λ (v : PlanVersion). v.plan_id) form in
    let candidate : w.status ≡ PlanVersionStatus.candidate =
      ap (λ (v : PlanVersion). v.status) form in
    let test = of_status command.plan_id PlanVersionStatus.candidate in
    record {
      fresh = fresh;
      row = row;
      content = record {
        plan = mine;
        summary = ap (λ (v : PlanVersion). v.summary) form;
        rationale = ap (λ (v : PlanVersion). v.rationale) form;
        strategy = ap (λ (v : PlanVersion). v.proposed_strategy_snapshot) form;
        strategy_rationale = ap (λ (v : PlanVersion). v.strategy_rationale_snapshot) form;
        base = ap (λ (v : PlanVersion). v.based_on_version_id) form;
        candidate = candidate;
        unapproved = ap (λ (v : PlanVersion). v.approval_source_id) form;
        not_yet = ap (λ (v : PlanVersion). v.approved_at) form;
      };
      numbered =
          subst (λ n. IsNextNumber command.plan_id n s.db.versions)
            (sym (ap (λ (v : PlanVersion). v.version_number) form))
            (IsNextNumber-highest command.plan_id s.db.versions);
      alone = λ x found plan status.
          only_one test (by_id x.id) (by_id w.id) x w t.db.versions found (ground arith) row
            (ground arith) (valid.one_candidate command.plan_id);
      one = ground (
        arith,
        count-pos_of_find test (by_id w.id) w t.db.versions row,
        mine,
        candidate,
        valid.one_candidate command.plan_id,
      );
    }

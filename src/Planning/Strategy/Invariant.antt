-- ===== src/Planning/Strategy/Invariant.antt =====
-- services/planning.py: what accepting a strategy and superseding a version keep.
use elowyn_assist.Common.{
  ℕ, ap, subst, ◌∙◌, beq_refl, count-update, bit, length, count-split, count-at_key, length-filter,
  filter-one, filter-one-find, find-update_other, ◌≤◌, ◌≡◌, refl, Bool, true, false, not, ◌&&◌,
  Option, none, some, List, [], ◌∷◌, arith, ◌==◌, count, filter, find, update, is_some,
}
use elowyn_assist.Domain.Enums.{PlanVersionStatus}
use elowyn_assist.Domain.Errors.{ok}
use elowyn_assist.Db.Rows.{Source, Operation}
use elowyn_assist.Db.Plans.{Plan, PlanVersion, Strategy}
use elowyn_assist.Db.Store.{State}
use elowyn_assist.Mutation.{
  bind_rule, ◌>>◌, append_event, Action, scalar_one_or_none, or_none-none, or_none-some,
}
use elowyn_assist.Mutation.Frame.{Steady, append_event-Quiet}
use elowyn_assist.Planning.Rows.{of_status, has_status}
use elowyn_assist.Planning.Lifecycle.{by_id, retired-IsLifecycle, approved-IsLifecycle}
use elowyn_assist.Planning.Lifecycle.History.{Evolved, retired-Evolved}
use elowyn_assist.Planning.Lifecycle.States.{
  IsValid, Grows, Grows-refl, replaced-Grows, Grows-trans,
}
use elowyn_assist.Planning.Strategy.{
  take_strategy, announce_strategy, finish_strategy, adopt_strategy, accept_strategy,
  supersede_if_any, other_approved,
}

pub take_strategy-Steady :
    (i : Option ℕ) (v : PlanVersion) (source : Source) (at : ℕ) (s : State)
    → Steady s (take_strategy i v source at s).1
unfolding take_strategy
take_strategy-Steady none v source at s = ground arith
take_strategy-Steady (some i) v source at s = ground arith

pub announce_strategy-Steady :
    (i : Option ℕ) (plan : Plan) (x : Strategy) (v : PlanVersion) (source : Source) (op : Operation)
    (s : State)
    → Steady s (announce_strategy i plan x v source op s).1
unfolding announce_strategy append_event
announce_strategy-Steady none plan x v source op s = ground arith
announce_strategy-Steady (some i) plan x v source op s = ground arith

pub accept_strategy-Steady :
    (plan : Plan) (v : PlanVersion) (source : Source) (op : Operation) (at : ℕ) (s : State)
    → Steady s (accept_strategy plan v source op at s).1
unfolding accept_strategy adopt_strategy finish_strategy
accept_strategy-Steady plan v source op at s =
    grind (arith, take_strategy-Steady, announce_strategy-Steady, append_event-Quiet)

-- The state once another approved version, if there is one, is superseded.
pub supersede_if_any-Grows :
    (plan : Plan) (old : Option PlanVersion) (v : PlanVersion) (source : Source) (op : Operation)
    (s : State)
    → IsValid s
    → scalar_one_or_none (
        filter
          (λ x. of_status plan.entity_id PlanVersionStatus.approved x && not (x.id == v.id))
          s.db.versions)
      ≡ ok old
    → has_status PlanVersionStatus.approved v ≡ false
    → find (by_id v.id) s.db.versions ≡ some v
    → let t = (supersede_if_any plan old v source op s).1 in
      Grows s t
      × (count (of_status plan.entity_id PlanVersionStatus.approved) t.db.versions ≡ 0)
      × (find (by_id v.id) t.db.versions ≡ some v)
unfolding supersede_if_any append_event
supersede_if_any-Grows plan none v source op s l other was found = (
  Grows-refl s l,
  omega (
    arith,
    count-split current (by_id v.id) vs,
    count-at_key current (by_id v.id) v vs found (l.unique v.id),
    length-filter (λ x. current x && not (x.id == v.id)) vs,
    ap length (or_none-none _ other),
    not_current,
  ),
  found,
)
  where
    vs : List PlanVersion
    vs = s.db.versions

    current : PlanVersion → Bool
    current = of_status plan.entity_id PlanVersionStatus.approved

    not_current : bit (current v) ≡ 0
    not_current = ground arith
supersede_if_any-Grows plan (some old) v source op s l other was found = (
  replaced-Grows old retired s (supersede_if_any plan (some old) v source op s).1 (omega arith) refl
      old_found (retired-Evolved old (ground (arith, facts)))
      (retired-IsLifecycle s.next_id vs old retired l old_found refl),
  ground (
    arith,
    count-update current (by_id old.id) old retired vs old_found (l.unique old.id),
    facts,
  ),
  find-update_other (by_id v.id) (by_id old.id) retired vs (ground (arith, facts))
        (λ x h. ground (arith, facts))
      ∙ found,
)
  where
    vs : List PlanVersion
    vs = s.db.versions

    current : PlanVersion → Bool
    current = of_status plan.entity_id PlanVersionStatus.approved

    retired : PlanVersion
    retired = record old { status = PlanVersionStatus.superseded }

    alone : filter (λ x. current x && not (x.id == v.id)) vs ≡ old ∷ []
    alone = or_none-some _ old other

    facts : (current old ≡ true) × ((old.id == v.id) ≡ false) × (count current vs ≤ 1)
    facts = ground (
      arith,
      filter-one (λ x. current x && not (x.id == v.id)) old vs alone,
      l.one_approved plan.entity_id,
    )

    old_found : find (by_id old.id) vs ≡ some old
    old_found = filter-one-find _ (by_id old.id) old vs alone (beq_refl old.id) (l.unique old.id)

-- The other approved version has another identifier, so this version stays.
pub supersede_if_any-found :
    (plan : Plan) (old : Option PlanVersion) (v : PlanVersion) (source : Source) (op : Operation)
    (s : State)
    → other_approved plan.entity_id v.id s.db ≡ ok old
    → find (by_id v.id) s.db.versions ≡ some v
    → find (by_id v.id) (supersede_if_any plan old v source op s).1.db.versions ≡ some v
unfolding supersede_if_any other_approved append_event
supersede_if_any-found plan none v source op s other found = found
supersede_if_any-found plan (some old) v source op s other found =
    let q = λ (x : PlanVersion).
      of_status plan.entity_id PlanVersionStatus.approved x && not (x.id == v.id) in
    let only = filter-one q old s.db.versions (or_none-some _ old other) in
    find-update_other (by_id v.id) (by_id old.id)
      (record old { status = PlanVersionStatus.superseded }) s.db.versions (ground (arith, only))
      (λ x h. ground (arith, only))
    ∙ found

-- The part of an approval from the new status on.
pub approved-Grows :
    (v w : PlanVersion) (s t : State)
    → IsValid s
    → s.next_id ≤ t.next_id
    → t.db.versions ≡ update (by_id w.id) (λ _. w) s.db.versions
    → find (by_id w.id) s.db.versions ≡ some v
    → w.plan_id ≡ v.plan_id
    → w.version_number ≡ v.version_number
    → w.status ≡ PlanVersionStatus.approved
    → is_some w.approval_source_id && is_some w.approved_at ≡ true
    → count (of_status v.plan_id PlanVersionStatus.approved) s.db.versions ≡ 0
    → Evolved v w
    → Grows s t
approved-Grows v w s t l used e found p n is whole vacant evolved =
    replaced-Grows v w s t used e found evolved
      (approved-IsLifecycle s.next_id s.db.versions v w l found p n is whole vacant)

pub supersede_if_any_returns :
    (plan : Plan) (old : Option PlanVersion) (v : PlanVersion) (source : Source) (op : Operation)
    (s : State)
    → (supersede_if_any plan old v source op s).0 ≡ ok tt
unfolding supersede_if_any append_event
supersede_if_any_returns plan none v source op s = refl
supersede_if_any_returns plan (some old) v source op s = refl

-- Superseding the other approved version and installing one.
pub replace-Grows :
    (install : Plan → PlanVersion → Source → Operation → Action PlanVersion) (plan : Plan)
    (v : PlanVersion) (source : Source) (op : Operation) (old : Option PlanVersion) (s t : State)
    → ((u : State)
        → IsValid u
        → find (by_id v.id) u.db.versions ≡ some v
        → count (of_status v.plan_id PlanVersionStatus.approved) u.db.versions ≡ 0
        → Grows u (install plan v source op u).1)
    → Grows s t
    → find (by_id v.id) t.db.versions ≡ some v
    → plan.entity_id ≡ v.plan_id
    → has_status PlanVersionStatus.approved v ≡ false
    → scalar_one_or_none (
        filter
          (λ x. of_status plan.entity_id PlanVersionStatus.approved x && not (x.id == v.id))
          t.db.versions)
      ≡ ok old
    → Grows s ((supersede_if_any plan old v source op >> install plan v source op) t).1
replace-Grows install plan v source op old s t next grown found mine was other =
    bind_rule (λ z. Grows s z.1) (supersede_if_any plan old v source op)
      (λ _. install plan v source op) t
      (λ _ done. Grows-trans s u (install plan v source op u).1 (Grows-trans s t u grown moved) (
        next u moved.valid still (
          subst (λ p. count (of_status p PlanVersionStatus.approved) u.db.versions ≡ 0) mine
            vacant)))
      (λ e raised. Grows-trans s t u grown moved)
  where
    u : State
    u = (supersede_if_any plan old v source op t).1

    facts :
        Grows t u
        × (count (of_status plan.entity_id PlanVersionStatus.approved) u.db.versions ≡ 0)
        × (find (by_id v.id) u.db.versions ≡ some v)
    facts = supersede_if_any-Grows plan old v source op t grown.valid other was found

    open facts use {«0» as moved, «1» as vacant, «2» as still}

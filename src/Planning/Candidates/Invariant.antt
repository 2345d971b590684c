-- ===== src/Planning/Candidates/Invariant.antt =====
-- services/planning.py: a new candidate keeps the version table as the schema wants it.
use elowyn_assist.Common.{
  ℕ, suc, ◌+◌, ◌<◌, ◌≡◌, ap, sym, refl, Bool, Option, none, some, List, [], ◌∷◌, ◌++◌, arith, count,
  filter, find, length, length-filter, filter-one, filter-one-find, count-update, beq_refl, ◌∙◌,
}
use elowyn_assist.Domain.Enums.{PlanVersionStatus}
use elowyn_assist.Domain.Errors.{ok}
use elowyn_assist.Domain.PlanningCommands.{
  PlanCandidateCreate, PlanVersionItemCreate, PlanVersionBasisCreate,
}
use elowyn_assist.Db.Rows.{Source, Operation}
use elowyn_assist.Db.Plans.{Plan, PlanVersion}
use elowyn_assist.Db.Store.{State}
use elowyn_assist.Mutation.{
  Action, ◌>>=◌, ◌>>◌, query, bind_rule, scalar_one_or_none, or_none-none, or_none-some,
  ActionContext, operation, append_event, assistant_inference_source,
}
use elowyn_assist.Mutation.Frame.{Steady, Quiet, assistant_inference_source-Quiet}
use elowyn_assist.Planning.Rows.{of_status}
use elowyn_assist.Planning.Basis.{examine_candidate}
use elowyn_assist.Planning.Lifecycle.{
  IsLifecycle, by_id, numbered, retired-IsLifecycle, added-IsLifecycle, IsLifecycle-mono,
}
use elowyn_assist.Planning.Lifecycle.History.{Evolves-append, retired-Evolved}
use elowyn_assist.Planning.Lifecycle.States.{
  IsValid, Grows, Grows-refl, Steady-Grows, replaced-Grows, Grows-trans, atomic-Grows,
  with_operation-Grows,
}
use elowyn_assist.Planning.Candidates.{
  retire_candidate, max_number, persist_items, new_version, finish_candidate, store_rows,
  store_candidate, replace_candidate, synthesis_context, synthesise, create_candidate_version_body,
  create_candidate_version,
}

-- The new number is above every number of the plan.
count-above_max :
    (p n : ℕ) (vs : List PlanVersion) → max_number p vs < n → count (numbered p n) vs ≡ 0
unfolding max_number
count-above_max p n [] h = refl
count-above_max p n (v ∷ vs) h = ground (arith, count-above_max p n vs)

persist_items-Steady :
    (i : ℕ) (items : List PlanVersionItemCreate) (s : State) → Steady s (persist_items i items s).1
unfolding persist_items
persist_items-Steady i [] s = ground arith
persist_items-Steady i (item ∷ items) s = grind (arith, persist_items-Steady i items)

pub store_rows-Steady :
    (command : PlanCandidateCreate) (plan : Plan) (v : PlanVersion)
    (basis : List PlanVersionBasisCreate) (source : Source) (op : Operation) (s : State)
    → Steady s (store_rows command plan v basis source op s).1
unfolding store_rows finish_candidate append_event
store_rows-Steady command plan v basis source op s =
    ground (arith, persist_items-Steady v.id command.items s)

store_candidate-Grows :
    (command : PlanCandidateCreate) (plan : Plan) (basis : List PlanVersionBasisCreate)
    (source : Source) (op : Operation) (s : State)
    → IsValid s
    → count (of_status plan.entity_id PlanVersionStatus.candidate) s.db.versions ≡ 0
    → Grows s (store_candidate command plan basis source op s).1
unfolding store_candidate
store_candidate-Grows command plan basis source op s l vacant =
    let rows = store_rows-Steady command plan v basis source op t in
    record {
      valid = rw rows.kept (IsLifecycle-mono (vs ++ v ∷ []) rows.used added);
      used = ground (arith, rows);
      kept = rw rows.kept (Evolves-append vs (v ∷ []));
    }
  where
    vs : List PlanVersion
    vs = s.db.versions

    n : ℕ
    n = max_number plan.entity_id vs + 1

    v : PlanVersion
    v = new_version s.next_id plan.entity_id n command source.id

    t : State
    t = record s { next_id = suc s.next_id; db = record (s.db) { versions = vs ++ v ∷ [] } }

    added : IsLifecycle (suc s.next_id) (vs ++ v ∷ [])
    added =
        added-IsLifecycle s.next_id vs v l refl refl vacant
          (count-above_max plan.entity_id n vs (omega arith)) (ground arith)

-- The state once the current candidate, if there is one, is superseded.
pub retire_candidate-Grows :
    (plan : Plan) (source : Source) (op : Operation) (current : Option PlanVersion) (s : State)
    → IsValid s
    → scalar_one_or_none
        (filter (of_status plan.entity_id PlanVersionStatus.candidate) s.db.versions)
      ≡ ok current
    → let t = (retire_candidate plan source op current s).1 in
      Grows s t × (count (of_status plan.entity_id PlanVersionStatus.candidate) t.db.versions ≡ 0)
unfolding retire_candidate append_event
retire_candidate-Grows plan source op none s l found = (
  (Grows-refl s l),
  sym (length-filter candidate s.db.versions) ∙ ap length (or_none-none _ found),
)
  where
    candidate : PlanVersion → Bool
    candidate = of_status plan.entity_id PlanVersionStatus.candidate
retire_candidate-Grows plan source op (some old) s l found = (
  replaced-Grows old retired s (retire_candidate plan source op (some old) s).1 (omega arith) refl
      row (retired-Evolved old (ground (arith, filter-one candidate old vs alone)))
      (retired-IsLifecycle s.next_id vs old retired l row refl),
  ground (
    arith,
    count-update candidate (by_id old.id) old retired vs row (l.unique old.id),
    filter-one candidate old vs alone,
  ),
)
  where
    vs : List PlanVersion
    vs = s.db.versions

    candidate : PlanVersion → Bool
    candidate = of_status plan.entity_id PlanVersionStatus.candidate

    retired : PlanVersion
    retired = record old { status = PlanVersionStatus.superseded }

    alone : filter candidate vs ≡ old ∷ []
    alone = or_none-some _ old found

    row : find (by_id old.id) vs ≡ some old
    row = filter-one-find _ (by_id old.id) old vs alone (beq_refl old.id) (l.unique old.id)

replace_candidate-Grows :
    (command : PlanCandidateCreate) (plan : Plan) (basis : List PlanVersionBasisCreate)
    (source : Source) (op : Operation) (s : State)
    → IsValid s
    → Grows s (replace_candidate command plan basis source op s).1
unfolding replace_candidate
replace_candidate-Grows command plan basis source op s l =
    bind_rule (λ z. Grows s z.1)
      (query λ db.
        scalar_one_or_none
          (filter (of_status plan.entity_id PlanVersionStatus.candidate) db.versions))
      (λ current. retire_candidate plan source op current >> store) s
      (λ current found.
        let t = (retire_candidate plan source op current s).1 in
        let (moved, vacant) = retire_candidate-Grows plan source op current s l found in
        bind_rule (λ z. Grows s z.1) (retire_candidate plan source op current) (λ _. store) s
          (λ _ _.
            Grows-trans s t (store t).1 moved
              (store_candidate-Grows command plan basis source op t moved.valid vacant))
          (λ _ _. moved))
      (λ _ _. (Grows-refl s l))
  where
    store : Action PlanVersion
    store = store_candidate command plan basis source op

synthesise-Grows :
    (command : PlanCandidateCreate) (ctx : ActionContext)
    (checked : Plan × List PlanVersionBasisCreate × List Source) (s : State)
    → IsValid s
    → Grows s (synthesise command ctx checked s).1
unfolding synthesise
synthesise-Grows command ctx (plan, basis, evidence) s l =
    bind_rule (λ z. Grows s z.1) infer next s
      (λ inference _. Grows-trans s t (next inference t).1 grown (onwards inference)) (λ _ _. grown)
  where
    infer : Action Source
    infer =
        assistant_inference_source command.inference_confidence command.inference_reason_summary
          evidence

    next : Source → Action PlanVersion
    next inference =
        operation (synthesis_context ctx inference)
        >>= replace_candidate command plan basis inference

    t : State
    t = (infer s).1

    quiet : Quiet s t
    quiet = assistant_inference_source-Quiet _ _ evidence s

    grown : Grows s t
    grown = Steady-Grows s t (record { kept = quiet.versions; used = quiet.supply }) l

    onwards : (inference : Source) → Grows t (next inference t).1
    onwards inference =
        with_operation-Grows (synthesis_context ctx inference)
          (replace_candidate command plan basis inference) t grown.valid
          (λ op u m _. replace_candidate-Grows command plan basis inference op u m)

-- A new candidate keeps the version table as the schema wants it.
pub create_candidate_version-Grows :
    (command : PlanCandidateCreate) (ctx : ActionContext) (s : State)
    → IsValid s
    → Grows s (create_candidate_version command ctx s).1
unfolding create_candidate_version create_candidate_version_body
create_candidate_version-Grows command ctx s l =
    atomic-Grows (create_candidate_version_body command ctx) s l body
  where
    body : Grows s (create_candidate_version_body command ctx s).1
    body =
        bind_rule (λ z. Grows s z.1) (query (examine_candidate command ctx.source))
          (synthesise command ctx) s (λ checked _. synthesise-Grows command ctx checked s l)
          (λ _ _. (Grows-refl s l))

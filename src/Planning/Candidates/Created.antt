-- ===== src/Planning/Candidates/Created.antt =====
-- services/planning.py: which row `create_candidate_version` adds to the version table, in the words
-- of the code.
use elowyn_assist.Common.{
  ℕ, suc, ◌+◌, ◌≤◌, ◌≡◌, refl, Bool, true, Option, none, some, List, [], ◌∷◌, ◌++◌, arith, find,
  count, update, filter, update_none, beq_refl, filter-one-find, subst, ◌∙◌, sym, count-update,
}
use elowyn_assist.Domain.Enums.{PlanVersionStatus}
use elowyn_assist.Domain.Errors.{Result, ok, err}
use elowyn_assist.Domain.PlanningCommands.{PlanCandidateCreate, PlanVersionBasisCreate}
use elowyn_assist.Db.Rows.{Source, Operation}
use elowyn_assist.Db.Plans.{Plan, PlanVersion}
use elowyn_assist.Db.Store.{Db, State}
use elowyn_assist.Mutation.{
  bind_rule, query, ◌>>=◌, ◌>>◌, Action, ActionContext, append_event, scalar_one_or_none,
  or_none-some, settle, atomic_domain_action, operation, assistant_inference_source,
}
use elowyn_assist.Mutation.Frame.{Quiet, Steady, operation-Quiet, assistant_inference_source-Quiet}
use elowyn_assist.Planning.Rows.{of_status}
use elowyn_assist.Planning.Guards.Facts.{plan_by_id-found}
use elowyn_assist.Planning.Basis.{examine_candidate}
use elowyn_assist.Planning.Lifecycle.{by_id}
use elowyn_assist.Planning.Lifecycle.States.{IsValid, Steady-Grows}
use elowyn_assist.Planning.Candidates.{
  retire_candidate, max_number, new_version, finish_candidate, store_rows, store_candidate,
  replace_candidate, synthesis_context, synthesise, create_candidate_version_body,
  create_candidate_version,
}
use elowyn_assist.Planning.Candidates.Invariant.{store_rows-Steady, retire_candidate-Grows}

-- The version that is returned is a new row of the table: the next version of its plan, with the
-- content of the command.
abbrev pub Created :
    PlanCandidateCreate → ℕ → List PlanVersion → Result PlanVersion × State → Type 0
Created command plan_id before out =
    (w : PlanVersion)
    → out.0 ≡ ok w
    → (find (by_id w.id) out.1.db.versions ≡ some w)
      × (w ≡ new_version w.id plan_id (max_number plan_id before + 1) command w.created_source_id)
      × (count (by_id w.id) before ≡ 0)

settle-Created :
    (command : PlanCandidateCreate) (p : ℕ) (vs : List PlanVersion) (s : State)
    (out : Result PlanVersion × State)
    → Created command p vs out
    → Created command p vs (settle s out)
unfolding settle
settle-Created command p vs s (ok w, t) h = h
settle-Created command p vs s (err e, t) h = λ w k. absurd (cc)

find-append {ℓ} :
    {A : Type ℓ} (q : A → Bool) (x : A) (xs : List A)
    → count q xs ≡ 0
    → q x ≡ true
    → find q (xs ++ x ∷ []) ≡ some x
find-append q x [] h k = ground arith
find-append q x (y ∷ ys) h k = ground (arith, find-append q x ys)

-- A change of the status leaves the numbers as they are.
max_number-update :
    (p : ℕ) (q : PlanVersion → Bool) (old new : PlanVersion) (vs : List PlanVersion)
    → find q vs ≡ some old
    → count q vs ≤ 1
    → new.plan_id ≡ old.plan_id
    → new.version_number ≡ old.version_number
    → max_number p (update q (λ _. new) vs) ≡ max_number p vs
unfolding max_number
max_number-update p q old new [] h k e n = refl
max_number-update p q old new (v ∷ vs) h k e n =
    ground (arith, max_number-update p q old new vs, update_none q (λ (_ : PlanVersion). new) vs)

retire_candidate-max_number :
    (plan : Plan) (source : Source) (op : Operation) (current : Option PlanVersion) (s : State)
    (p : ℕ)
    → IsValid s
    → scalar_one_or_none
        (filter (of_status plan.entity_id PlanVersionStatus.candidate) s.db.versions)
      ≡ ok current
    → max_number p (retire_candidate plan source op current s).1.db.versions
      ≡ max_number p s.db.versions
unfolding retire_candidate append_event
retire_candidate-max_number plan source op none s p l h = refl
retire_candidate-max_number plan source op (some old) s p l h =
    let alone = or_none-some _ old h in
    let retired = record old { status = PlanVersionStatus.superseded } in
    max_number-update p (by_id old.id) old retired s.db.versions
      (filter-one-find _ (by_id old.id) old s.db.versions alone (beq_refl old.id) (l.unique old.id))
      (l.unique old.id) refl refl

retire_candidate-count :
    (plan : Plan) (source : Source) (op : Operation) (current : Option PlanVersion) (s : State)
    (i : ℕ)
    → IsValid s
    → scalar_one_or_none
        (filter (of_status plan.entity_id PlanVersionStatus.candidate) s.db.versions)
      ≡ ok current
    → count (by_id i) (retire_candidate plan source op current s).1.db.versions
      ≡ count (by_id i) s.db.versions
unfolding retire_candidate append_event
retire_candidate-count plan source op none s i l h = refl
retire_candidate-count plan source op (some old) s i l h =
    let alone = or_none-some _ old h in
    let retired = record old { status = PlanVersionStatus.superseded } in
    let row =
      filter-one-find _ (by_id old.id) old s.db.versions alone (beq_refl old.id)
        (l.unique old.id) in
    let moved =
      count-update (by_id i) (by_id old.id) old retired s.db.versions row (l.unique old.id) in
    omega (arith, moved)

-- What is said of a table is said of another one with the same numbers and identifiers.
Created-moved :
    (command : PlanCandidateCreate) (p : ℕ) (vs us : List PlanVersion)
    (out : Result PlanVersion × State)
    → max_number p vs ≡ max_number p us
    → ((i : ℕ) → count (by_id i) vs ≡ count (by_id i) us)
    → Created command p vs out
    → Created command p us out
Created-moved command p vs us out top same h w e =
    let (row, form, fresh) = h w e in
    (
      row,
      subst (λ n. w ≡ new_version w.id p (n + 1) command w.created_source_id) top form,
      sym (same w.id) ∙ fresh,
    )

store_rows-result :
    (command : PlanCandidateCreate) (plan : Plan) (v w : PlanVersion)
    (basis : List PlanVersionBasisCreate) (source : Source) (op : Operation) (s : State)
    → (store_rows command plan v basis source op s).0 ≡ ok w
    → w ≡ v
unfolding store_rows finish_candidate append_event
store_rows-result command plan v w basis source op s h = ground arith

store_candidate-Created :
    (command : PlanCandidateCreate) (plan : Plan) (basis : List PlanVersionBasisCreate)
    (source : Source) (op : Operation) (s : State)
    → IsValid s
    → Created command plan.entity_id s.db.versions (store_candidate command plan basis source op s)
unfolding store_candidate
store_candidate-Created command plan basis source op s l w h =
    let p = plan.entity_id in
    let vs = s.db.versions in
    let v = new_version s.next_id p (max_number p vs + 1) command source.id in
    let t = record s { next_id = suc s.next_id; db = record (s.db) { versions = vs ++ v ∷ [] } } in
    let rows = store_rows-Steady command plan v basis source op t in
    let same = store_rows-result command plan v w basis source op t h in
    let row = find-append (by_id v.id) v vs (l.unused s.next_id (omega arith)) (beq_refl v.id) in
    let fresh = l.unused s.next_id (omega arith) in
    let made : w ≡ v = same in
    (
      ground (arith, rows, same, row),
      ground (arith, same),
      subst (λ (x : PlanVersion). count (by_id x.id) vs ≡ 0) (sym made) fresh,
    )

replace_candidate-Created :
    (command : PlanCandidateCreate) (plan : Plan) (basis : List PlanVersionBasisCreate)
    (source : Source) (op : Operation) (s : State)
    → IsValid s
    → Created command plan.entity_id s.db.versions
        (replace_candidate command plan basis source op s)
unfolding replace_candidate
replace_candidate-Created command plan basis source op s l =
    bind_rule goal
      (query λ db.
        scalar_one_or_none
          (filter (of_status plan.entity_id PlanVersionStatus.candidate) db.versions))
      (λ current. retire_candidate plan source op current >> store) s
      (λ current found.
        let t = (retire_candidate plan source op current s).1 in
        let (moved, vacant) = retire_candidate-Grows plan source op current s l found in
        bind_rule goal (retire_candidate plan source op current) (λ _. store) s
          (λ _ _.
            Created-moved command plan.entity_id t.db.versions s.db.versions (store t)
              (retire_candidate-max_number plan source op current s plan.entity_id l found)
              (λ i. retire_candidate-count plan source op current s i l found)
              (store_candidate-Created command plan basis source op t moved.valid))
          (λ e g w h. absurd (cc)))
      (λ e g w h. absurd (cc))
  where
    store : Action PlanVersion
    store = store_candidate command plan basis source op

    goal : Result PlanVersion × State → Type 0
    goal = Created command plan.entity_id s.db.versions

synthesise-Created :
    (command : PlanCandidateCreate) (ctx : ActionContext) (plan : Plan)
    (basis : List PlanVersionBasisCreate) (evidence : List Source) (s : State)
    → IsValid s
    → Created command plan.entity_id s.db.versions
        (synthesise command ctx (plan, basis, evidence) s)
unfolding synthesise
synthesise-Created command ctx plan basis evidence s l =
    bind_rule goal infer next s
      (λ inference _.
        bind_rule goal (operation (synthesis_context ctx inference))
          (replace_candidate command plan basis inference) t (λ op _. behind inference op)
          (λ e g w h. absurd (cc)))
      (λ e g w h. absurd (cc))
  where
    infer : Action Source
    infer =
        assistant_inference_source command.inference_confidence command.inference_reason_summary
          evidence

    next : Source → Action PlanVersion
    next inference =
        operation (synthesis_context ctx inference)
        >>= replace_candidate command plan basis inference

    goal : Result PlanVersion × State → Type 0
    goal = Created command plan.entity_id s.db.versions

    t : State
    t = (infer s).1

    quiet : Quiet s t
    quiet = assistant_inference_source-Quiet _ _ evidence s

    behind :
        (inference : Source) (op : Operation)
        → goal (
            replace_candidate command plan basis inference op
              (operation (synthesis_context ctx inference) t).1)
    behind inference op =
        let u = (operation (synthesis_context ctx inference) t).1 in
        let still = operation-Quiet (synthesis_context ctx inference) t in
        let kept : u.db.versions ≡ s.db.versions = still.versions ∙ quiet.versions in
        let steady : Steady s u = record {
          kept = kept;
          used = ground (arith, still.supply, quiet.supply);
        } in
        subst
          (λ vs.
            Created command plan.entity_id vs (replace_candidate command plan basis inference op u))
          kept
          (replace_candidate-Created command plan basis inference op u
            (Steady-Grows s u steady l).valid)

examine_candidate-plan :
    (command : PlanCandidateCreate) (source : Option Source) (db : Db) (plan : Plan)
    (basis : List PlanVersionBasisCreate) (evidence : List Source)
    → examine_candidate command source db ≡ ok (plan, basis, evidence)
    → plan.entity_id ≡ command.plan_id
unfolding examine_candidate
examine_candidate-plan command source db plan basis evidence h =
    ground (arith, plan_by_id-found command.plan_id db plan)

pub create_candidate_version-Created :
    (command : PlanCandidateCreate) (ctx : ActionContext) (s : State)
    → IsValid s
    → Created command command.plan_id s.db.versions (create_candidate_version command ctx s)
unfolding create_candidate_version atomic_domain_action create_candidate_version_body
create_candidate_version-Created command ctx s l =
    settle-Created command command.plan_id s.db.versions s
      (create_candidate_version_body command ctx s)
      (bind_rule (Created command command.plan_id s.db.versions)
        (query (examine_candidate command ctx.source)) (synthesise command ctx) s
        (λ (plan, basis, evidence) e.
          subst
            (λ p.
              Created command p s.db.versions (synthesise command ctx (plan, basis, evidence) s))
            (examine_candidate-plan command ctx.source s.db plan basis evidence e)
            (synthesise-Created command ctx plan basis evidence s l))
        (λ e g w h. absurd (cc)))

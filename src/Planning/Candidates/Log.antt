-- ===== src/Planning/Candidates/Log.antt =====
-- services/planning.py: the events that `create_candidate_version` appends.
use elowyn_assist.Common.{ℕ, ◌≡◌, refl, Option, none, some, List, [], ◌∷◌, arith}
use elowyn_assist.Db.Rows.{Source, Operation}
use elowyn_assist.Db.Plans.{Plan, PlanVersion}
use elowyn_assist.Db.Store.{State}
use elowyn_assist.Mutation.{Action, ActionContext, append_event}
use elowyn_assist.Planning.Candidates.{create_candidate_version_body, create_candidate_version}
use elowyn_assist.Mutation.Log.{
  Logs-bind, Logs, Logs-silent, Logs-trans, Logs-one, Logging, atomic-Logging, operation-Logging,
  assistant_inference_source-Logging,
}
use elowyn_assist.Common.{suc, ◌+◌, ◌++◌, filter}
use elowyn_assist.Domain.Enums.{PlanVersionStatus}
use elowyn_assist.Mutation.{
  query, ◌>>=◌, ◌>>◌, operation, assistant_inference_source, scalar_one_or_none,
}
use elowyn_assist.Domain.PlanningCommands.{
  PlanCandidateCreate, PlanVersionBasisCreate, PlanVersionItemCreate,
}
use elowyn_assist.Planning.Basis.{examine_candidate, dependency_rows}
use elowyn_assist.Planning.Rows.{of_status}
use elowyn_assist.Planning.Candidates.{
  new_version, max_number, finish_candidate, persist_items, store_rows, store_candidate,
  retire_candidate, replace_candidate, synthesise, synthesis_context,
}

retire_candidate-Logs :
    (plan : Plan) (source : Source) (op : Operation) (o : Option PlanVersion) (s : State)
    → Logs s (retire_candidate plan source op o s).1
unfolding retire_candidate append_event
retire_candidate-Logs plan source op none s = Logs-silent s s refl refl
retire_candidate-Logs plan source op (some old) s =
    Logs-one s (retire_candidate plan source op (some old) s).1 _ (s.clock s.readings) refl refl
      refl

persist_items-quiet :
    (i : ℕ) (items : List PlanVersionItemCreate) (s : State)
    → ((persist_items i items s).1.db.events ≡ s.db.events)
      × ((persist_items i items s).1.last_event_at ≡ s.last_event_at)
unfolding persist_items
persist_items-quiet i [] s = (refl, refl)
persist_items-quiet i (item ∷ items) s = grind (arith, persist_items-quiet i items)

store_candidate-Logs :
    (command : PlanCandidateCreate) (plan : Plan) (basis : List PlanVersionBasisCreate)
    (source : Source) (op : Operation) (s : State)
    → Logs s (store_candidate command plan basis source op s).1
unfolding store_candidate store_rows finish_candidate append_event
store_candidate-Logs command plan basis source op s =
    let v =
      new_version s.next_id plan.entity_id (max_number plan.entity_id s.db.versions + 1) command
        source.id in
    let t = record s {
      next_id = suc s.next_id;
      db = record (s.db) { versions = s.db.versions ++ v ∷ [] };
    } in
    let items = persist_items-quiet v.id command.items t in
    Logs-trans s t (store_candidate command plan basis source op s).1 (Logs-silent s t refl refl) (
      Logs-bind (persist_items v.id command.items)
        (λ handles.
          query (λ _. dependency_rows v.id handles command.dependencies)
          >>= finish_candidate plan v basis source op)
        t (Logs-silent t (persist_items v.id command.items t).1 items.0 items.1)
        λ handles u.
          Logs-bind (query (λ _. dependency_rows v.id handles command.dependencies))
            (finish_candidate plan v basis source op) u (Logs-silent u u refl refl)
            λ rows u.
              Logs-one u (finish_candidate plan v basis source op rows u).1 _ (u.clock u.readings)
                refl refl refl)

replace_candidate-Logs :
    (command : PlanCandidateCreate) (plan : Plan) (basis : List PlanVersionBasisCreate)
    (source : Source) (op : Operation) (s : State)
    → Logs s (replace_candidate command plan basis source op s).1
unfolding replace_candidate
replace_candidate-Logs command plan basis source op s =
    Logs-bind
      (query λ db.
        scalar_one_or_none
          (filter (of_status plan.entity_id PlanVersionStatus.candidate) db.versions))
      (λ current. retire_candidate plan source op current >> store) s (Logs-silent s s refl refl)
      λ current t.
        Logs-bind (retire_candidate plan source op current) (λ _. store) t
          (retire_candidate-Logs plan source op current t)
          (λ _. store_candidate-Logs command plan basis source op)
  where
    store : Action PlanVersion
    store = store_candidate command plan basis source op

synthesise-Logs :
    (command : PlanCandidateCreate) (ctx : ActionContext)
    (checked : Plan × List PlanVersionBasisCreate × List Source) (s : State)
    → Logs s (synthesise command ctx checked s).1
unfolding synthesise
synthesise-Logs command ctx (plan, basis, evidence) s =
    Logs-bind infer next s ((assistant_inference_source-Logging _ _ evidence).logs s) λ inference t.
      Logs-bind (operation (synthesis_context ctx inference))
        (replace_candidate command plan basis inference) t
        ((operation-Logging (synthesis_context ctx inference)).logs t)
        (replace_candidate-Logs command plan basis inference)
  where
    infer : Action Source
    infer =
        assistant_inference_source command.inference_confidence command.inference_reason_summary
          evidence

    next : Source → Action PlanVersion
    next inference =
        operation (synthesis_context ctx inference)
        >>= replace_candidate command plan basis inference

pub create_candidate_version-Logging :
    (command : PlanCandidateCreate) (ctx : ActionContext)
    → Logging (create_candidate_version command ctx)
unfolding create_candidate_version create_candidate_version_body
create_candidate_version-Logging command ctx =
    atomic-Logging (create_candidate_version_body command ctx) (record {
      logs = λ s.
          Logs-bind (query (examine_candidate command ctx.source)) (synthesise command ctx) s
            (Logs-silent s s refl refl) (synthesise-Logs command ctx);
    })

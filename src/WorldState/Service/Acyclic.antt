-- ===== src/WorldState/Service/Acyclic.antt =====
-- services/world_state.py: the dependencies between the tasks have no cycle, in every run.
use elowyn_assist.Common.{refl, sym, subst, List, [], ◌∷◌, arith}
use elowyn_assist.Domain.Errors.{Result, ok, err}
use elowyn_assist.Db.Store.{State}
use elowyn_assist.Mutation.{Action, outcome, atomic_domain_action}
use elowyn_assist.WorldState.Service.{Call, perform, run}
use elowyn_assist.WorldState.Service.Built.{Built}
use elowyn_assist.WorldState.Service.Keeps.{
  IsOrdered, Keeps, Keeps-frame, Keeps-bind, Keeps-atomic, operation-Keeps, new_entity-Keeps,
  record_event-Keeps, record_undo-Keeps, assistant_inference_source-Keeps,
  mark_superseded-IsOrdered, Keeps-trans,
}
use elowyn_assist.WorldState.Service.Ordered.{create_task-Keeps, add_task_dependency-Keeps}
use elowyn_assist.WorldState.Service.Performance.{performance}

-- Every action of which the operations are built keeps the tasks in order.
Built-Keeps : (A : Type 0) (m : Action A) → Built A m → (s : State) → Keeps s (m s).1
Built-Keeps A m (Built.reads q) s = Keeps-frame s s refl refl (omega arith)
Built-Keeps A m (Built.returns a) s = Keeps-frame s s refl refl (omega arith)
Built-Keeps A m (Built.joins n f p q) s =
    Keeps-bind n f s (Built-Keeps _ n p s) λ a _. Built-Keeps A (f a) (q a) (n s).1
Built-Keeps A m (Built.saves n p) s = Keeps-atomic n s (Built-Keeps A n p s)
Built-Keeps A m Built.takes_id s = Keeps-frame s _ refl refl (omega arith)
Built-Keeps A m Built.takes_time s = Keeps-frame s _ refl refl (omega arith)
Built-Keeps A m (Built.operates ctx) s = operation-Keeps ctx s
Built-Keeps A m (Built.infers confidence reason evidence) s =
    assistant_inference_source-Keeps confidence reason evidence s
Built-Keeps A m (Built.enters t) s = new_entity-Keeps t s
Built-Keeps A m (Built.writes f h) s = Keeps-frame s _ (h s.db.world) refl (omega arith)
Built-Keeps A m (Built.supersedes i entity) s = record {
  keeps = λ o. (omega arith, mark_superseded-IsOrdered i entity s.db s.next_id o);
}
Built-Keeps A m (Built.records op t i source changes) s = record_event-Keeps op t i source changes s
Built-Keeps A m (Built.reverses e op i source changes) s = record_undo-Keeps e op i source changes s
Built-Keeps A m (Built.creates_task c ctx) s = create_task-Keeps c ctx s
Built-Keeps A m (Built.adds_dependency c ctx) s = add_task_dependency-Keeps c ctx s

outcome-Keeps {ℓ} :
    {A : Type ℓ} (s : State) (out : Result A × State) → Keeps s out.1 → Keeps s (outcome out).1
outcome-Keeps s (ok a, t) h = h
outcome-Keeps s (err e, t) h = h

perform-Keeps : (call : Call) (s : State) → Keeps s (perform call s).1
perform-Keeps call s =
    let p = performance call in
    subst (λ out. Keeps s out.1) (sym (p.performs s))
      (outcome-Keeps s (atomic_domain_action p.body s)
        (Keeps-atomic p.body s (Built-Keeps p.Value p.body p.built s)))

run-Keeps : (calls : List Call) (s : State) → Keeps s (run calls s)
unfolding run
run-Keeps [] s = Keeps-frame s s refl refl (omega arith)
run-Keeps (call ∷ calls) s =
    let t = (perform call s).1 in
    Keeps-trans s t (run calls t) (perform-Keeps call s) (run-Keeps calls t)

-- If no chain of task dependencies is closed, and the identifiers of the entities and those of the
-- prerequisites in the dependencies are below the next one, then all this is so after every run of
-- the world-state service, whichever of its calls return or raise.
pub run-IsOrdered :
    (calls : List Call) (s : State)
    → IsOrdered s.db s.next_id
    → IsOrdered (run calls s).db (run calls s).next_id
run-IsOrdered calls s o = ((run-Keeps calls s).keeps o).1

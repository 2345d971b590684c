-- ===== src/WorldState/Service/Log.antt =====
-- services/world_state.py: the events that a run of the service appends.
use elowyn_assist.Common.{ℕ, refl, Bool, true, false, Option, none, some, List, [], ◌∷◌, sym, subst}
use elowyn_assist.Domain.Enums.{EntityType, EventType}
use elowyn_assist.Domain.Errors.{Result, ok, err, invalid, cyclic_dependency}
use elowyn_assist.Domain.Commands.{TaskCreate, TaskDependencyCreate}
use elowyn_assist.Db.Rows.{Source, Change, Operation}
use elowyn_assist.Db.World.{TaskDependency}
use elowyn_assist.Db.Store.{State}
use elowyn_assist.Mutation.{
  Action, ActionContext, query, refuse_if, operation, outcome, append_event, append_reversal,
  atomic_domain_action, ◌>>=◌, ◌>>◌,
}
use elowyn_assist.Mutation.Log.{
  Logs, Logs-silent, Logs-one, Logs-trans, Logs-bind, Logging, atomic-Logging, operation-Logging,
  assistant_inference_source-Logging,
}
use elowyn_assist.WorldState.Guards.{active_task}
use elowyn_assist.WorldState.Events.{record_event, record_undo, new_entity}
use elowyn_assist.WorldState.Completion.{stamp}
use elowyn_assist.WorldState.Examine.{examine_task}
use elowyn_assist.WorldState.Dependencies.{dependency_would_cycle}
use elowyn_assist.WorldState.Tasks.{create_task_body, install_task, enter_task, is_done}
use elowyn_assist.WorldState.Links.{
  get_dependency, depend_now, install_dependency, add_task_dependency_body,
}
use elowyn_assist.WorldState.Service.{Call, perform, run}
use elowyn_assist.WorldState.Service.Built.{Built}
use elowyn_assist.WorldState.Service.Performance.{performance}

install_dependency-Logs :
    (c : TaskDependencyCreate) (ctx : ActionContext) (s : State)
    → Logs s (install_dependency c ctx s).1
unfolding install_dependency record_event append_event operation
install_dependency-Logs c ctx s =
    Logs-one s (install_dependency c ctx s).1 _ (s.clock s.readings) refl refl refl

depend_now-Logs :
    (c : TaskDependencyCreate) (ctx : ActionContext) (existing : Option TaskDependency) (s : State)
    → Logs s (depend_now c ctx existing s).1
unfolding depend_now
depend_now-Logs c ctx (some existing) s = Logs-silent s s refl refl
depend_now-Logs c ctx none s =
    Logs-bind (query (dependency_would_cycle c.prerequisite_task_id c.dependent_task_id))
      (λ cyclic. refuse_if cyclic (invalid cyclic_dependency) >> install_dependency c ctx) s
      (Logs-silent s s refl refl)
      λ cyclic t.
        Logs-bind (refuse_if cyclic (invalid cyclic_dependency)) (λ _. install_dependency c ctx) t
          (Logs-silent t t refl refl) (λ _. install_dependency-Logs c ctx)

add_task_dependency-Logs :
    (c : TaskDependencyCreate) (ctx : ActionContext) (s : State)
    → Logs s (add_task_dependency_body c ctx s).1
unfolding add_task_dependency_body
add_task_dependency-Logs c ctx s =
    Logs-bind (query (active_task c.prerequisite_task_id))
      (λ _. query (active_task c.dependent_task_id) >> rest) s (Logs-silent s s refl refl)
      λ _ t.
        Logs-bind (query (active_task c.dependent_task_id)) (λ _. rest) t
          (Logs-silent t t refl refl)
          λ _ u.
            Logs-bind look (depend_now c ctx) u (Logs-silent u u refl refl) (depend_now-Logs c ctx)
  where
    look : Action (Option TaskDependency)
    look = query λ db. ok (get_dependency c.prerequisite_task_id c.dependent_task_id db)

    rest : Action TaskDependency
    rest = look >>= depend_now c ctx

enter_task-Logs :
    (i : ℕ) (c : TaskCreate) (source : Option Source) (op : Operation) (old : Option ℕ) (s : State)
    → Logs s (enter_task i c source op old s).1
unfolding enter_task record_event append_event
enter_task-Logs i c source op old s =
    Logs-one s (enter_task i c source op old s).1 _ (s.clock s.readings) refl refl refl

new_entity-Logs : (t : EntityType) (s : State) → Logs s (new_entity t s).1
unfolding new_entity
new_entity-Logs t s = Logs-silent s (new_entity t s).1 refl refl

silent-Logs :
    (m : Bool) (f : Bool) (g : Bool) (old : Option ℕ) (s : State) → Logs s (stamp m f g old s).1
unfolding stamp
silent-Logs false f g old s = Logs-silent s s refl refl
silent-Logs true true g old s = Logs-silent s (stamp true true g old s).1 refl refl
silent-Logs true false true old s = Logs-silent s s refl refl
silent-Logs true false false old s = Logs-silent s s refl refl

install_task-Logs :
    (c : TaskCreate) (source : Option Source) (op : Operation) (s : State)
    → Logs s (install_task c source op s).1
unfolding install_task
install_task-Logs c source op s =
    Logs-bind (new_entity EntityType.task) (λ i. completed >>= enter_task i c source op) s
      (new_entity-Logs EntityType.task s)
      λ i t.
        Logs-bind completed (enter_task i c source op) t
          (silent-Logs true (is_done c.status) false none t) (enter_task-Logs i c source op)
  where
    completed : Action (Option ℕ)
    completed = stamp true (is_done c.status) false none

create_task-Logs :
    (c : TaskCreate) (ctx : ActionContext) (s : State) → Logs s (create_task_body c ctx s).1
unfolding create_task_body
create_task-Logs c ctx s =
    Logs-bind (query (examine_task c)) (λ _. operation ctx >>= install_task c ctx.source) s
      (Logs-silent s s refl refl)
      λ _ t.
        Logs-bind (operation ctx) (install_task c ctx.source) t ((operation-Logging ctx).logs t)
          (install_task-Logs c ctx.source)

record_event-Logs :
    (op : Operation) (e : EventType) (i : ℕ) (source : Option Source) (changes : List Change)
    (s : State)
    → Logs s (record_event op e i source changes s).1
unfolding record_event append_event
record_event-Logs op e i source changes s =
    Logs-one s (record_event op e i source changes s).1 _ (s.clock s.readings) refl refl refl

record_undo-Logs :
    (e : ℕ) (op : Operation) (i : ℕ) (source : Option Source) (changes : List Change) (s : State)
    → Logs s (record_undo e op i source changes s).1
unfolding record_undo append_reversal
record_undo-Logs e op i source changes s =
    Logs-one s (record_undo e op i source changes s).1 _ (s.clock s.readings) refl refl refl

-- Every action of which the operations are built only appends events, at ascending times.
Built-Logging : (A : Type 0) (m : Action A) → Built A m → Logging m
Built-Logging A m (Built.reads q) = record { logs = λ s. Logs-silent s s refl refl }
Built-Logging A m (Built.returns a) = record { logs = λ s. Logs-silent s s refl refl }
Built-Logging A m (Built.joins n f p q) = record {
  logs = λ s.
      Logs-bind n f s ((Built-Logging _ n p).logs s) λ a t. (Built-Logging A (f a) (q a)).logs t;
}
Built-Logging A m (Built.saves n p) = atomic-Logging n (Built-Logging A n p)
Built-Logging A m Built.takes_id = record { logs = λ s. Logs-silent s _ refl refl }
Built-Logging A m Built.takes_time = record { logs = λ s. Logs-silent s _ refl refl }
Built-Logging A m (Built.operates ctx) = operation-Logging ctx
Built-Logging A m (Built.infers confidence reason evidence) =
    assistant_inference_source-Logging confidence reason evidence
Built-Logging A m (Built.enters t) = record { logs = new_entity-Logs t }
Built-Logging A m (Built.writes f h) = record { logs = λ s. Logs-silent s _ refl refl }
Built-Logging A m (Built.supersedes i entity) = record { logs = λ s. Logs-silent s _ refl refl }
Built-Logging A m (Built.records op t i source changes) = record {
  logs = record_event-Logs op t i source changes;
}
Built-Logging A m (Built.reverses e op i source changes) = record {
  logs = record_undo-Logs e op i source changes;
}
Built-Logging A m (Built.creates_task c ctx) = record { logs = create_task-Logs c ctx }
Built-Logging A m (Built.adds_dependency c ctx) = record { logs = add_task_dependency-Logs c ctx }

outcome-Logs {ℓ} :
    {A : Type ℓ} (s : State) (out : Result A × State) → Logs s out.1 → Logs s (outcome out).1
outcome-Logs s (ok a, t) h = h
outcome-Logs s (err e, t) h = h

perform-Logs : (call : Call) (s : State) → Logs s (perform call s).1
perform-Logs call s =
    let p = performance call in
    subst (λ out. Logs s out.1) (sym (p.performs s))
      (outcome-Logs s (atomic_domain_action p.body s)
        ((atomic-Logging p.body (Built-Logging p.Value p.body p.built)).logs s))

-- Whichever calls of a run return or raise, the events before it are kept as they are, in front of
-- those that it adds. The times of these ascend strictly, from after the last event that the session
-- has added, and the session's last event is not before them.
pub run_appends : (calls : List Call) (s : State) → Logs s (run calls s)
unfolding run
run_appends [] s = Logs-silent s s refl refl
run_appends (call ∷ calls) s =
    let t = (perform call s).1 in
    Logs-trans s t (run calls t) (perform-Logs call s) (run_appends calls t)

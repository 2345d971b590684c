-- ===== src/WorldState/Service/Built.antt =====
-- Of which actions the operations of the service are built. A property of all of them is shown for
-- each of these actions, and for sequences and savepoints.
use elowyn_assist.Common.{ℕ, Bool, Option, List, ◌≡◌}
use elowyn_assist.Common.Text.{Text}
use elowyn_assist.Domain.Enums.{EventType, EntityType}
use elowyn_assist.Domain.Errors.{Result, Error, raise_if}
use elowyn_assist.Domain.Commands.{TaskCreate, TaskDependencyCreate}
use elowyn_assist.Db.Rows.{Entity, Source, Operation, Event, Change, Float}
use elowyn_assist.Db.World.{World, Task, TaskDependency}
use elowyn_assist.Db.Store.{Db}
use elowyn_assist.Mutation.{
  Action, ActionContext, query, pure, write, new_id, now, operation, assistant_inference_source,
  atomic_domain_action, ◌>>=◌,
}
use elowyn_assist.WorldState.Guards.{in_world}
use elowyn_assist.WorldState.Events.{record_event, record_undo, new_entity}
use elowyn_assist.WorldState.Decisions.{mark_superseded}
use elowyn_assist.WorldState.Tasks.{create_task_body}
use elowyn_assist.WorldState.Links.{add_task_dependency_body}

-- A new task and a new dependency are whole actions, since only their checks keep the graph of the
-- dependencies free of cycles; no other write touches that table.
pub data Built : (A : Type 0) → Action A → Type 1 where
  reads : {A : Type 0} (q : Db → Result A) → Built A (query q)
  returns : {A : Type 0} (a : A) → Built A (pure a)
  joins :
      {A : Type 0} {B : Type 0} (m : Action A) (f : A → Action B)
      → Built A m
      → ((a : A) → Built B (f a))
      → Built B (m >>= f)
  saves : {A : Type 0} (m : Action A) → Built A m → Built A (atomic_domain_action m)
  takes_id : Built ℕ new_id
  takes_time : Built ℕ now
  operates : (ctx : ActionContext) → Built Operation (operation ctx)
  infers :
      (confidence : Float) (reason : Text) (evidence : List Source)
      → Built Source (assistant_inference_source confidence reason evidence)
  enters : (t : EntityType) → Built ℕ (new_entity t)
  writes :
      (f : World → World)
      → ((w : World) → (f w).task_dependencies ≡ w.task_dependencies)
      → Built (Unit {0}) (write (in_world f))
  supersedes : (i : ℕ) (entity : Entity) → Built (Unit {0}) (write (mark_superseded i entity))
  records :
      (op : Operation) (t : EventType) (i : ℕ) (source : Option Source) (changes : List Change)
      → Built Event (record_event op t i source changes)
  reverses :
      (e : ℕ) (op : Operation) (i : ℕ) (source : Option Source) (changes : List Change)
      → Built Event (record_undo e op i source changes)
  creates_task : (c : TaskCreate) (ctx : ActionContext) → Built Task (create_task_body c ctx)
  adds_dependency :
      (c : TaskDependencyCreate) (ctx : ActionContext)
      → Built TaskDependency (add_task_dependency_body c ctx)

-- An action with how it is built.
abbrev pub Building : Type 0 → Type 1
Building A = (m : Action A) × Built A m

abbrev pub join_of : {A : Type 0} {B : Type 0} → Building A → (A → Building B) → Building B
join_of m f = (m.0 >>= λ a. (f a).0, joins m.0 (λ a. (f a).0) m.1 λ a. (f a).1)

abbrev pub atomically : {A : Type 0} → Building A → Building A
atomically m = (atomic_domain_action m.0, saves m.0 m.1)

abbrev pub reading : {A : Type 0} → (Db → Result A) → Building A
reading q = (query q, reads q)

abbrev pub returning : {A : Type 0} → A → Building A
returning a = (pure a, returns a)

abbrev pub writing :
    (f : World → World)
    → ((w : World) → (f w).task_dependencies ≡ w.task_dependencies)
    → Building (Unit {0})
writing f h = (write (in_world f), writes f h)

abbrev pub operating : ActionContext → Building Operation
operating ctx = (operation ctx, operates ctx)

abbrev pub recording : Operation → EventType → ℕ → Option Source → List Change → Building Event
recording op t i source changes =
    (record_event op t i source changes, records op t i source changes)

abbrev pub inferring : Float → Text → List Source → Building Source
inferring confidence reason evidence =
    (assistant_inference_source confidence reason evidence, infers confidence reason evidence)

abbrev pub entering : EntityType → Building ℕ
entering t = (new_entity t, enters t)

abbrev pub refusing : Bool → Error → Building (Unit {0})
refusing test e = reading λ db. raise_if test e

abbrev pub taking_id : Building ℕ
taking_id = (new_id, takes_id)

abbrev pub taking_time : Building ℕ
taking_time = (now, takes_time)

abbrev pub reversing : ℕ → Operation → ℕ → Option Source → List Change → Building Event
reversing e op i source changes =
    (record_undo e op i source changes, reverses e op i source changes)

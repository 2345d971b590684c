-- ===== src/WorldState/Service/Keeps.antt =====
-- The identifiers of the entities and the dependencies between the tasks, which actions keep in
-- order.
use elowyn_assist.Common.{
  ℕ, suc, ◌≡◌, ◌≤◌, ◌<◌, refl, sym, subst, Bool, true, Option, some, List, [], ◌∷◌, ◌==◌, All,
  All-append, find, update, arith, eq_of_beq,
}
use elowyn_assist.Domain.Enums.{EntityType, EventType}
use elowyn_assist.Domain.Errors.{ok}
use elowyn_assist.Db.Rows.{Entity, Source, Operation, Change, Float}
use elowyn_assist.Common.Text.{Text}
use elowyn_assist.Db.World.{TaskDependency}
use elowyn_assist.Db.Store.{Db, State}
use elowyn_assist.Mutation.{
  Action, ActionContext, operation, next_id-operation, bind_rule, settle_rule, atomic_domain_action,
  append_event, append_reversal, assistant_inference_source, ◌>>=◌,
}
use elowyn_assist.WorldState.Completion.{stamp}
use elowyn_assist.Common.{true, false}
use elowyn_assist.WorldState.Events.{record_event, record_undo, new_entity}
use elowyn_assist.WorldState.Decisions.{mark_superseded}
use elowyn_assist.WorldState.Dependencies.Graph.{Acyclic}

-- No chain of dependencies is closed, and the identifiers of the entities and those of the
-- prerequisites in the dependencies are below the next one. Other identifiers are not bounded: a
-- caller chooses that of an operation.
pub record IsOrdered (db : Db) (next : ℕ) : Type 0 where
  pub acyclic : Acyclic db.world.task_dependencies
  pub entities : All (λ (e : Entity). e.id < next) db.entities
  pub prerequisites :
      All (λ (d : TaskDependency). d.prerequisite_task_id < next) db.world.task_dependencies

-- What an action does to the order of the tasks: it keeps it and hands out no identifier twice.
pub record Keeps (s t : State) : Type 0 where
  pub keeps : IsOrdered s.db s.next_id → (s.next_id ≤ t.next_id) × IsOrdered t.db t.next_id

module _ {ℓ} {A : Type ℓ} (value : A → ℕ) where
  pub All-weaken :
      (n m : ℕ) (xs : List A) → n ≤ m → All (λ x. value x < n) xs → All (λ x. value x < m) xs
  All-weaken n m [] h k = tt
  All-weaken n m (x ∷ xs) h k = (omega (arith, h, k.0), All-weaken n m xs h k.1)

  pub All-find :
      (p : A → Bool) (n : ℕ) (xs : List A) (x : A)
      → find p xs ≡ some x
      → All (λ x. value x < n) xs
      → value x < n
  All-find p n [] x h k = absurd (cc)
  All-find p n (y ∷ ys) x h k = ground (arith, All-find p n ys x)

  pub All-update :
      (p : A → Bool) (n : ℕ) (w : A) (xs : List A)
      → ((x : A) → p x ≡ true → value x < n → value w < n)
      → All (λ x. value x < n) xs
      → All (λ x. value x < n) (update p (λ _. w) xs)
  All-update p n w [] h k = tt
  All-update p n w (x ∷ xs) h k = (ground (arith, h x), All-update p n w xs h k.1)

IsOrdered-weaken : (db : Db) (n m : ℕ) → n ≤ m → IsOrdered db n → IsOrdered db m
IsOrdered-weaken db n m h o = record {
  acyclic = o.acyclic;
  entities = All-weaken (λ (x : Entity). x.id) n m db.entities h o.entities;
  prerequisites =
      All-weaken (λ (d : TaskDependency). d.prerequisite_task_id) n m db.world.task_dependencies h
        o.prerequisites;
}

-- Neither table is written.
pub Keeps-frame :
    (s t : State)
    → t.db.world.task_dependencies ≡ s.db.world.task_dependencies
    → t.db.entities ≡ s.db.entities
    → s.next_id ≤ t.next_id
    → Keeps s t
Keeps-frame s t e f h = record {
  keeps = λ o.
      let w = IsOrdered-weaken s.db s.next_id t.next_id h o in
      (
        h,
        record {
          acyclic = subst Acyclic (sym e) w.acyclic;
          entities = subst (All (λ (x : Entity). x.id < t.next_id)) (sym f) w.entities;
          prerequisites =
              subst (All (λ (d : TaskDependency). d.prerequisite_task_id < t.next_id)) (sym e)
                w.prerequisites;
        },
      );
}

pub Keeps-trans : (r s t : State) → Keeps r s → Keeps s t → Keeps r t
Keeps-trans r s t g h = record {
  keeps = λ o. let (m, p) = g.keeps o in let (n, q) = h.keeps p in (omega (arith, m, n), q);
}

pub Keeps-bind {ℓ κ} :
    {A : Type ℓ} {B : Type κ} (m : Action A) (f : A → Action B) (s : State)
    → Keeps s (m s).1
    → ((a : A) → (m s).0 ≡ ok a → Keeps (m s).1 (f a (m s).1).1)
    → Keeps s ((m >>= f) s).1
Keeps-bind m f s h k =
    bind_rule (λ z. Keeps s z.1) m f s (λ a e. Keeps-trans s (m s).1 (f a (m s).1).1 h (k a e))
      (λ _ _. h)

pub Keeps-atomic {ℓ} :
    {A : Type ℓ} (m : Action A) (s : State) → Keeps s (m s).1 → Keeps s (atomic_domain_action m s).1
unfolding atomic_domain_action
Keeps-atomic m s h = record {
  keeps = λ o.
      let (n, p) = h.keeps o in
      settle_rule (λ t. (s.next_id ≤ t.next_id) × IsOrdered t.db t.next_id) s (m s) (n, p)
        (n, IsOrdered-weaken s.db s.next_id _ n o);
}

pub operation-Keeps : (ctx : ActionContext) (s : State) → Keeps s (operation ctx s).1
unfolding operation
operation-Keeps ctx s = Keeps-frame s (operation ctx s).1 refl refl (next_id-operation ctx s)

pub new_entity-Keeps : (t : EntityType) (s : State) → Keeps s (new_entity t s).1
unfolding new_entity
new_entity-Keeps t s = record {
  keeps = λ o.
      let w = IsOrdered-weaken s.db s.next_id (suc s.next_id) (omega arith) o in
      (
        omega arith,
        record {
          acyclic = o.acyclic;
          entities =
              All-append (λ (x : Entity). x.id < suc s.next_id) s.db.entities _ w.entities
                (omega arith, tt);
          prerequisites = w.prerequisites;
        },
      );
}

pub record_event-Keeps :
    (op : Operation) (e : EventType) (i : ℕ) (source : Option Source) (changes : List Change)
    (s : State)
    → Keeps s (record_event op e i source changes s).1
unfolding record_event append_event
record_event-Keeps op e i source changes s =
    Keeps-frame s (record_event op e i source changes s).1 refl refl (omega arith)

pub record_undo-Keeps :
    (r : ℕ) (op : Operation) (i : ℕ) (source : Option Source) (changes : List Change) (s : State)
    → Keeps s (record_undo r op i source changes s).1
unfolding record_undo append_reversal
record_undo-Keeps r op i source changes s =
    Keeps-frame s (record_undo r op i source changes s).1 refl refl (omega arith)

pub assistant_inference_source-Keeps :
    (confidence : Float) (reason : Text) (evidence : List Source) (s : State)
    → Keeps s (assistant_inference_source confidence reason evidence s).1
unfolding assistant_inference_source
assistant_inference_source-Keeps confidence reason evidence s =
    Keeps-frame s (assistant_inference_source confidence reason evidence s).1 (ground arith)
      (ground arith) (ground arith)

pub mark_superseded-IsOrdered :
    (i : ℕ) (entity : Entity) (db : Db) (n : ℕ)
    → IsOrdered db n
    → IsOrdered (mark_superseded i entity db) n
mark_superseded-IsOrdered i entity db n o = record {
  acyclic = o.acyclic;
  entities =
      All-update (λ (x : Entity). x.id) (λ x. x.id == entity.id) n _ db.entities
        (λ x e below. subst (λ k. k < n) (eq_of_beq x.id entity.id e) below) o.entities;
  prerequisites = o.prerequisites;
}

pub stamp-Keeps : (m f g : Bool) (old : Option ℕ) (s : State) → Keeps s (stamp m f g old s).1
unfolding stamp
stamp-Keeps false f g old s = Keeps-frame s s refl refl (omega arith)
stamp-Keeps true true g old s = Keeps-frame s (stamp true true g old s).1 refl refl (omega arith)
stamp-Keeps true false true old s = Keeps-frame s s refl refl (omega arith)
stamp-Keeps true false false old s = Keeps-frame s s refl refl (omega arith)

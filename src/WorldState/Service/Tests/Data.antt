-- ===== src/WorldState/Service/Tests/Data.antt =====
-- Concrete inputs of services/world_state.py: two tasks, the second below the first and waiting for
-- it.
use elowyn_assist.Common.{
  ℕ, ◌≡◌, refl, subst, Bool-cases, inl, inr, eq_of_beq, false, none, some, Option, List, [], ◌∷◌,
  ◌==◌, arith,
}
use elowyn_assist.Common.Text.{text}
use elowyn_assist.Common.Json.{name, uuid, time, null}
use elowyn_assist.Domain.Enums.{EntityType, EventType, TaskStatus, ActorType}
use elowyn_assist.Domain.Commands.{TaskCreate}
use elowyn_assist.Domain.Commands.Fields.{sent, unset}
use elowyn_assist.Domain.Commands.Updates.{TaskUpdate}
use elowyn_assist.Db.Rows.{Entity, Event}
use elowyn_assist.Db.World.{Task}
use elowyn_assist.Db.World.{empty_world}
use elowyn_assist.Db.Store.{Db, State}
use elowyn_assist.Mutation.{ActionContext, change}
use elowyn_assist.WorldState.Tasks.{update_task, new_task, new_dependency}
use elowyn_assist.WorldState.Dependencies.Graph.{Reach, here, step}
use elowyn_assist.WorldState.Dependencies.Acyclic.{Acyclic-add}
use elowyn_assist.WorldState.Hierarchy.{task_parents}
use elowyn_assist.WorldState.Hierarchy.Forest.{IsForest, Grounded, at_root, below}
use elowyn_assist.WorldState.Service.{Call}
use elowyn_assist.WorldState.Service.Keeps.{IsOrdered}

abbrev task_entity : ℕ → Entity
task_entity i = record {
  id = i;
  entity_type = EntityType.task;
  superseded_by_entity_id = none;
  removed_at = none;
}

abbrev pub new_input : Option ℕ → List ℕ → TaskCreate
new_input parent prerequisites = record {
  title = text "t";
  description = none;
  status = TaskStatus.todo;
  importance = none;
  deadline_at = none;
  deadline_type = none;
  estimated_duration_minutes = none;
  parent_task_id = parent;
  primary_project_id = none;
  auto_complete_from_children = false;
  goal_ids = [];
  prerequisite_task_ids = prerequisites;
}

abbrev pub tasks_db : Db
tasks_db = record {
  entities = task_entity 1 ∷ task_entity 2 ∷ [];
  messages = [];
  sources = [];
  source_dependencies = [];
  operations = [];
  events = [];
  world = record empty_world {
    tasks =
        new_task 1 (new_input none []) none none
        ∷ new_task 2 (new_input (some 1) []) none none
        ∷ [];
    task_dependencies = new_dependency none 1 2 ∷ [];
  };
  strategies = [];
  plans = [];
  goal_links = [];
  versions = [];
  items = [];
  dependencies = [];
  progress = [];
  presentations = [];
  basis = [];
}

-- The clock always reads 1000.
abbrev pub two_tasks : State
two_tasks = record {
  db = tasks_db;
  last_event_at = none;
  clock = λ _. 1000;
  readings = 0;
  transaction_time = 150;
  next_id = 100;
}

abbrev pub context : ActionContext
context = record {
  actor_type = ActorType.user;
  source = none;
  description = none;
  operation_id = none;
}

abbrev pub unchanged : TaskUpdate
unchanged = record {
  entity_id = 2;
  title = unset;
  description = unset;
  status = unset;
  importance = unset;
  deadline_at = unset;
  deadline_type = unset;
  estimated_duration_minutes = unset;
  parent_task_id = unset;
  primary_project_id = unset;
  auto_complete_from_children = unset;
}

-- The second task becomes a root and is done.
abbrev pub promoted : TaskUpdate
promoted = record unchanged { parent_task_id = sent none; status = sent (some TaskStatus.done) }

-- The first task is to wait for the second, which would close a cycle.
abbrev pub closing : Call
closing = Call.add_dependency (record { prerequisite_task_id = 2; dependent_task_id = 1 }) context

abbrev pub calls : List Call
calls =
    Call.create_task (new_input (some 1) (2 ∷ [])) context
    ∷ closing
    ∷ Call.update_task promoted context
    ∷ Call.undo context none
    ∷ []

no_Reach : (u v : ℕ) → Reach [] u v → u ≡ v
no_Reach u v here = refl
no_Reach u v (step path e) = absurd (cc)

pub two_tasks-IsOrdered : IsOrdered two_tasks.db two_tasks.next_id
two_tasks-IsOrdered = record {
  acyclic =
      Acyclic-add [] (new_dependency none 1 2)
        (λ path. absurd (let e = no_Reach 2 1 path in omega (arith, e)))
        (λ u v e path. absurd (cc));
  entities = (omega arith, (omega arith, tt));
  prerequisites = (omega arith, tt);
}

pub two_tasks-IsForest : IsForest (task_parents two_tasks.db)
two_tasks-IsForest i parent h = elim (Bool-cases (1 == i)) [
  | inl e ↦ subst (Grounded (task_parents two_tasks.db)) (eq_of_beq 1 i e) (at_root refl)
  | inr e ↦ elim (Bool-cases (2 == i)) [
    | inl f ↦
        subst (Grounded (task_parents two_tasks.db)) (eq_of_beq 2 i f) (below refl (at_root refl))
    | inr f ↦ absurd (ground arith)
  ]
]

-- The second task after its update, and the event of the undo of that update.
unfoldable pub after_update : State
unfolding update_task
after_update = (update_task promoted context two_tasks).1

abbrev pub undo_event : Event
undo_event = record {
  id = 103;
  operation_id = 102;
  event_type = EventType.undo_applied;
  entity_id = some 2;
  source_id = none;
  reverses_event_id = some 101;
  changes =
      change "status" (name "DONE") (name "TODO")
      ∷ change "parent_task_id" null (uuid 1)
      ∷ change "completed_at" (time 1000) null
      ∷ [];
  created_at = 1001;
}

-- The second task after its update.
abbrev pub finished : Task
finished = record (new_task 2 (new_input none []) none none) {
  status = TaskStatus.done;
  completed_at = some 1000;
}

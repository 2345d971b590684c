-- ===== src/Planning/Service/Tests/Data.antt =====
-- Concrete inputs of services/planning.py: a plan, a user's message, and tables of versions.
use elowyn_assist.Common.{ℕ, refl, false, none, some, List, [], ◌∷◌, arith}
use elowyn_assist.Common.Text.{text}
use elowyn_assist.Domain.Enums.{EntityType, MessageAuthor, SourceType, ActorType, PlanVersionStatus}
use elowyn_assist.Domain.PlanningCommands.{PlanCandidateCreate, PlanVersionItemCreate}
use elowyn_assist.Db.Rows.{Entity, Message, Source, finite}
use elowyn_assist.Db.Plans.{PlanVersion}
use elowyn_assist.Domain.Enums.{GoalStatus}
use elowyn_assist.Db.World.{Goal, empty_world}
use elowyn_assist.Db.Store.{Db, State}
use elowyn_assist.Mutation.{ActionContext}
use elowyn_assist.Planning.Lifecycle.States.{IsValid}
use elowyn_assist.Planning.Service.{Call}
use elowyn_assist.Domain.PlanningCommands.{PlanVersionCommand}
use elowyn_assist.Db.Plans.{PlanVersionPresentation}
use elowyn_assist.Planning.Approval.{approved_by}

abbrev pub plan_entity : Entity
plan_entity = record {
  id = 1;
  entity_type = EntityType.plan;
  superseded_by_entity_id = none;
  removed_at = none;
}

abbrev pub shown_message : Message
shown_message = record {
  id = 10;
  conversation_id = 5;
  author = MessageAuthor.assistant;
  external_message_id = none;
  content = some (text "a plan");
  sent_at = 100;
  created_at = 100;
}

abbrev pub approval_message : Message
approval_message = record {
  id = 11;
  conversation_id = 5;
  author = MessageAuthor.user;
  external_message_id = none;
  content = some (text "yes");
  sent_at = 200;
  created_at = 200;
}

abbrev pub user_source : Source
user_source = record {
  id = 20;
  source_type = SourceType.user_message;
  message_id = some 11;
  confidence = none;
  reason_summary = none;
}

abbrev pub start_db : Db
start_db = record {
  entities = plan_entity ∷ [];
  messages = shown_message ∷ approval_message ∷ [];
  sources = user_source ∷ [];
  source_dependencies = [];
  operations = [];
  events = [];
  world = empty_world;
  strategies = [];
  plans = record { entity_id = 1; strategy_id = none; title = text "p"; description = none } ∷ [];
  goal_links = [];
  versions = [];
  items = [];
  dependencies = [];
  progress = [];
  presentations = [];
  basis = [];
}

-- The clock always reads 1000.
abbrev pub start : State
start = record {
  db = start_db;
  last_event_at = none;
  clock = λ _. 1000;
  readings = 0;
  transaction_time = 150;
  next_id = 100;
}

abbrev pub user_context : ActionContext
user_context = record {
  actor_type = ActorType.user;
  source = some user_source;
  description = none;
  operation_id = none;
}

abbrev pub item_input : ℕ → ℕ → PlanVersionItemCreate
item_input i n = record {
  id = i;
  ordinal = n;
  title = text "t";
  description = none;
  expected_outcome = none;
  deadline_at = none;
  estimated_duration_minutes = none;
  linked_task_id = none;
}

abbrev pub candidate_input : PlanCandidateCreate
candidate_input = record {
  plan_id = 1;
  summary = text "s";
  rationale = none;
  proposed_strategy_snapshot = text "a";
  strategy_rationale_snapshot = none;
  based_on_version_id = none;
  items = item_input 7 1 ∷ item_input 8 2 ∷ [];
  dependencies = record { prerequisite_item_id = 7; dependent_item_id = 8 } ∷ [];
  basis = [];
  evidence_source_ids = [];
  inference_confidence = finite false 1;
  inference_reason_summary = text "r";
}

-- The first candidate gets the identifier 102.
abbrev pub calls : List (Call × ActionContext)
calls =
    (Call.create_candidate candidate_input, user_context)
    ∷ (Call.present (record { plan_version_id = 102; message_id = 10 }), user_context)
    ∷ (Call.approve (record { plan_version_id = 102 }), user_context)
    ∷ (Call.create_candidate candidate_input, user_context)
    ∷ []

pub start-IsValid : IsValid start
start-IsValid = record {
  unique = λ i. omega arith;
  unused = λ i h. refl;
  one_candidate = λ p. omega arith;
  one_approved = λ p. omega arith;
  one_number = λ p n. omega arith;
  fits = refl;
}

abbrev pub first_version : PlanVersion
first_version = record {
  id = 50;
  plan_id = 1;
  version_number = 1;
  status = PlanVersionStatus.candidate;
  summary = text "s";
  rationale = none;
  proposed_strategy_snapshot = text "a";
  strategy_rationale_snapshot = none;
  based_on_version_id = none;
  created_source_id = 20;
  approval_source_id = none;
  approved_at = none;
}

abbrev pub stored : State
stored = record start { db = record start_db { versions = first_version ∷ [] } }

pub stored-IsValid : IsValid stored
stored-IsValid = record {
  unique = λ i. ground arith;
  unused = λ i h. ground arith;
  one_candidate = λ p. ground arith;
  one_approved = λ p. ground arith;
  one_number = λ p n. ground arith;
  fits = refl;
}

abbrev pub shown_row : PlanVersionPresentation
shown_row = record { id = 60; plan_version_id = 50; message_id = 10; presented_at = 100 }

abbrev pub shown : State
shown = record start {
  db = record start_db { versions = first_version ∷ []; presentations = shown_row ∷ [] };
}

pub shown-IsValid : IsValid shown
shown-IsValid = record {
  unique = λ i. ground arith;
  unused = λ i h. ground arith;
  one_candidate = λ p. ground arith;
  one_approved = λ p. ground arith;
  one_number = λ p n. ground arith;
  fits = refl;
}

abbrev pub first_command : PlanVersionCommand
first_command = record { plan_version_id = 50 }

abbrev pub first_approved : PlanVersion
first_approved = approved_by first_version user_source 1000

-- A former version, and the one that has replaced it.
abbrev pub former_version : PlanVersion
former_version = record first_version {
  status = PlanVersionStatus.superseded;
  approval_source_id = some 20;
  approved_at = some 90;
}

abbrev pub second_version : PlanVersion
second_version = record first_version {
  id = 51;
  version_number = 2;
  status = PlanVersionStatus.approved;
  approval_source_id = some 20;
  approved_at = some 95;
}

abbrev pub replaced : State
replaced = record start {
  db = record start_db {
    plans = record { entity_id = 1; strategy_id = none; title = text "p"; description = none } ∷ [];
    versions = former_version ∷ second_version ∷ [];
    presentations = shown_row ∷ [];
  };
}

pub replaced-IsValid : IsValid replaced
replaced-IsValid = record {
  unique = λ i. ground arith;
  unused = λ i h. ground arith;
  one_candidate = λ p. ground arith;
  one_approved = λ p. ground arith;
  one_number = λ p n. ground arith;
  fits = refl;
}

abbrev linked_goal : Goal
linked_goal = record {
  entity_id = 2;
  title = text "g";
  description = none;
  status = GoalStatus.active;
  importance = none;
  importance_source_id = none;
  target_date = none;
  target_date_type = none;
  parent_goal_id = none;
  achieved_at = none;
}

abbrev goal_entity : Entity
goal_entity = record plan_entity { id = 2; entity_type = EntityType.goal }

-- The start with a goal to link.
abbrev pub goal_start : State
goal_start = record start {
  db = record start_db {
    entities = plan_entity ∷ goal_entity ∷ [];
    world = record empty_world { goals = linked_goal ∷ [] };
  };
}

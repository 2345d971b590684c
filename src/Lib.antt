-- ===== src/Lib.antt =====
-- A verification library for elowyn_assist, a personal assistant that keeps a world state, plans and
-- a memory in a relational database.
--
-- The parts of the program and how they interact. Every change to the world state and to the plans
-- goes through a service (src/elowyn/services/) whose methods are given a command
-- (src/elowyn/domain/) and an action context, validate the command against the stored rows, write
-- rows, and record an operation with its events. Each method runs in a savepoint, so a method that
-- raises leaves no trace. The assistant's tools (src/elowyn/assistant/) and the transport call the
-- services; the memory services read what the conversations and the events say.
--
-- The files.
-- - Common: tests, lists and tables over the native numbers; texts as lists of code points with
--   `str.strip`; the JSON values that are stored with an event.
-- - Domain: src/elowyn/domain/. Domain/Enums has each enumeration with its stored values
--   (enums.py), Domain/Errors the exceptions as one error type (errors.py) and the result type of
--   the code that raises, Domain/PlanningCommands the planning commands and their validators
--   (planning_commands.py), Domain/Commands those of the world state (commands.py).
-- - Db: src/elowyn/db/models.py. A row is a record and a table a list in the order of insertion.
--   Db/Store has the database, and the state of a session: the database, the clock and how often it
--   was read, the time of the transaction, the next identifier, and the session's `last_event_at`.
--   Db/World has the tables of the world state, and Db/Queries the query of the latest event.
-- - Mutation: src/elowyn/services/domain_mutation.py. An action takes a state to a result and a
--   state; what it wrote before it raises is in the state, and only `atomic_domain_action` takes it
--   back. Mutation/Frame says what the helpers leave alone, Mutation/Log what they append to the
--   events.
-- - Planning: src/elowyn/services/planning.py. Guards and Graph have the lookups and the test of
--   the items' dependencies (`_assert_acyclic`), Plans `create_plan` and `link_goal`, Basis and
--   Candidates `create_candidate_version`, Presentation `record_version_presentation`, Rejection
--   `reject_candidate_version`, Strategy and Approval `approve_plan_version` with
--   `_accept_strategy`, Reactivation `reactivate_historical_plan_version`, and Progress
--   `update_plan_item_progress`. Service is the service as a whole: a run of calls. Lifecycle says
--   what a valid version table is and how a version may change, and each operation's Invariant
--   module shows that the operation keeps to it, its Effect and Authority modules what a call
--   that returns has done and who has asked for it, and its Log module which events it appends.
--
-- - WorldState: src/elowyn/services/world_state.py. Guards has the lookups, Events `_event` and
--   `_entity`, Hierarchy `_validate_parent_chain`, Dependencies `_dependency_would_cycle`. Fields
--   has the loops over the sent fields of an update, one step per field in the order of the code,
--   which collect the changes; Completion what an update does to the columns beside those fields;
--   Examine the checks that precede the first write. Tasks, Projects, Goals, Criteria, Decisions,
--   Links and Relations have the operations on each kind of row, Undo `undo_last_change` with
--   `_restore_value`, and Service the service as a whole. Dependencies/Graph and Hierarchy/Forest
--   describe the two graphs without a search. Service/Built lists the actions of which every
--   operation is built, and Service/Building shows how; a property of all operations is shown for
--   each of these actions once.
--
-- Bounds and fuel. Identifiers (UUIDs) are numbers, and a new one is the next that was not used;
-- the theorems assume no more of it than that the identifiers of the entities, of the
-- prerequisites in the dependencies and of the versions are below it. Times are numbers, and the
-- clock is any function of the number of the reading. Integers are unbounded, as in Python. The
-- loop of `_assert_acyclic` has one round of fuel for each item, since a node enters the frontier
-- when its last edge is taken away; the model has an error of its own for fuel that runs out.
-- `_validate_parent_chain` and `_dependency_would_cycle` have one round of fuel more than the
-- table has rows: each of their rounds but the last takes a row that no earlier round took.
-- Everything else is by recursion on a list.
--
-- What is not modelled. Row and advisory locks, and concurrent transactions: a run is a sequence
-- of calls. Foreign keys and the other constraints of the tables beside those of the table of the
-- versions: a model of an operation writes the row where the database might refuse it. The columns
-- that the database fills in. The order in which a query without ORDER BY returns its rows is the
-- order of insertion. An undo restores the columns that the events of updates name; an event that
-- names another one, which no operation records, has an error of the model.
-- `reject_candidate_version` looks for a version's identifier in the printed changes of an event;
-- the model compares the identifiers in them. Beyond these: the query services, the memory
-- services, the assistant's tools, the runtime and the transport (src/elowyn/services/,
-- src/elowyn/memory/, src/elowyn/assistant/, src/elowyn/transport/), and the migrations.
pub mod Common
pub mod Domain
pub mod Db
pub mod Mutation
pub mod Planning
pub mod WorldState

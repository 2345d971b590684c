-- ===== src/Planning/Guards.antt =====
-- services/planning.py: the lookups that every operation starts with. They read the database and
-- raise, and change nothing.
pub mod Facts
pub mod Authority
use elowyn_assist.Common.{
  ℕ, ◌≡◌, Bool, true, false, not, ◌&&◌, ◌||◌, Option, none, some, List, [], ◌∷◌, leb, ◌==◌, is_id,
  if◌then◌else◌, filter, find, any, is_none, is_some, contains,
}
use elowyn_assist.Domain.Enums.{
  EntityType, same_entity_type, MessageAuthor, same_message_author, SourceType, same_source_type,
  PlanVersionBasisRole,
}
use elowyn_assist.Domain.Errors.{
  Result, ok, err, invalid, not_found, Kind, source_not_persisted, source_missing, not_user_source,
  not_user_message, foreign_basis_event, no_result, ◌>>=◌, ◌>>◌, raise_if, or_raise,
}
use elowyn_assist.Db.Rows.{Entity, Message, Source, Event}
use elowyn_assist.Db.Plans.{Plan, PlanVersion, PlanVersionItem, PlanVersionPresentation}
use elowyn_assist.Db.World.{Goal, Task}
use elowyn_assist.Db.Store.{Db}
use elowyn_assist.Mutation.{scalar_one_or_none}

-- `session.get`, of one table each.
abbrev pub get_entity : ℕ → Db → Option Entity
get_entity i db = find (λ r. r.id == i) db.entities

abbrev pub get_message : ℕ → Db → Option Message
get_message i db = find (λ r. r.id == i) db.messages

abbrev pub get_source : ℕ → Db → Option Source
get_source i db = find (λ r. r.id == i) db.sources

abbrev pub get_event : ℕ → Db → Option Event
get_event i db = find (λ r. r.id == i) db.events

abbrev pub get_version : ℕ → Db → Option PlanVersion
get_version i db = find (λ r. r.id == i) db.versions

abbrev pub get_item : ℕ → Db → Option PlanVersionItem
get_item i db = find (λ r. r.id == i) db.items

abbrev pub get_goal : ℕ → Db → Option Goal
get_goal i db = find (λ r. r.entity_id == i) db.world.goals

abbrev pub get_task : ℕ → Db → Option Task
get_task i db = find (λ r. r.entity_id == i) db.world.tasks

-- The condition under which `_active_typed_entity` raises, of an entity that is there.
abbrev pub is_inactive : EntityType → Entity → Bool
is_inactive expected entity =
    not (same_entity_type entity.entity_type expected)
    || is_some entity.removed_at
    || is_some entity.superseded_by_entity_id

unfoldable pub active_typed_entity : ℕ → EntityType → Db → Result Entity
active_typed_entity i expected db = elim (get_entity i db) [
  | none ↦ err (not_found Kind.entity)
  | some entity ↦ if is_inactive expected entity then err (not_found Kind.entity) else ok entity
]

-- `_plan`; the row lock has no effect on the rows.
unfoldable pub plan_by_id : ℕ → Db → Result Plan
unfolding active_typed_entity
plan_by_id i db = do
  active_typed_entity i EntityType.plan db
  found ← scalar_one_or_none (filter (λ (p : Plan). p.entity_id == i) db.plans)
  or_raise (not_found Kind.plan) found

-- `scalar_one()` of the version that was found before.
unfoldable pub locked_version : ℕ → Db → Result (Plan × PlanVersion)
unfolding plan_by_id
locked_version i db = do
  version ← or_raise (not_found Kind.version) (get_version i db)
  plan ← plan_by_id version.plan_id db
  locked ← or_raise no_result (get_version i db)
  ok (plan, locked)

-- `_persisted_source`. A source of the model always has an identifier.
unfoldable pub persisted_source : Option Source → Db → Result Source
persisted_source none db = err (invalid source_not_persisted)
persisted_source (some source) db = or_raise (invalid source_missing) (get_source source.id db)

-- The message of a source that must be a user's.
unfoldable pub user_message_of : Source → Db → Result (Source × Message)
user_message_of source db = elim source.message_id [
  | none ↦ err (invalid not_user_source)
  | some m ↦
      if not (same_source_type source.source_type SourceType.user_message)
      then err (invalid not_user_source)
      else elim (get_message m db) [
        | none ↦ err (invalid not_user_message)
        | some message ↦
            if same_message_author message.author MessageAuthor.user
            then ok (source, message)
            else err (invalid not_user_message)
      ]
]

unfoldable pub user_message_source : Option Source → Db → Result (Source × Message)
unfolding persisted_source user_message_of
user_message_source source db = do user_message_of (← persisted_source source db) db

-- Whether an assistant's message of this conversation showed the version by the given time: the
-- join of presentations and messages in `approve_plan_version` and `reactivate_...`.
abbrev pub shows : Db → ℕ → ℕ → ℕ → PlanVersionPresentation → Bool
shows db version_id conversation_id at p =
    p.plan_version_id == version_id
    && leb p.presented_at at
    && any
        (λ m.
          m.id == p.message_id
          && same_message_author m.author MessageAuthor.assistant
          && m.conversation_id == conversation_id)
        db.messages

unfoldable pub presented : ℕ → ℕ → ℕ → Db → Bool
presented version_id conversation_id at db =
    any (shows db version_id conversation_id at) db.presentations

unfoldable pub active_goals : List ℕ → Db → Result (Unit {0})
unfolding active_typed_entity
active_goals [] db = ok tt
active_goals (i ∷ is) db = do
  active_typed_entity i EntityType.goal db
  raise_if (is_none (get_goal i db)) (not_found Kind.goal)
  active_goals is db

-- `expected_types` of `create_candidate_version`.
abbrev pub expected_type : PlanVersionBasisRole → EntityType
expected_type PlanVersionBasisRole.goal = EntityType.goal
expected_type PlanVersionBasisRole.task = EntityType.task
expected_type PlanVersionBasisRole.project = EntityType.project
expected_type PlanVersionBasisRole.decision = EntityType.decision
expected_type PlanVersionBasisRole.strategy = EntityType.strategy

unfoldable pub event_of_entity : ℕ → ℕ → Db → Result Event
event_of_entity event_id entity_id db = elim (get_event event_id db) [
  | none ↦ err (invalid foreign_basis_event)
  | some event ↦
      if is_id event.entity_id entity_id then ok event else err (invalid foreign_basis_event)
]

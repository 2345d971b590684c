-- ===== src/Domain/Enums/Record.antt =====
-- The enumerations of domain/enums.py that belong to the record of conversations, sources and events: each `StrEnum` as a data type,
-- with its stored value and the equality test that the services use.
use Prim.Native.Nat.{ℕ}
use Prim.Native.String.{String}
use mathlib.Core.Bool.{Bool}
use elowyn_assist.Common.{◌==◌}

pub data TransportType : Type 0 where
  telegram internal : TransportType

abbrev pub transport_type_value : TransportType → String
transport_type_value TransportType.telegram = "TELEGRAM"
transport_type_value TransportType.internal = "INTERNAL"

abbrev transport_type_code : TransportType → ℕ
transport_type_code TransportType.telegram = 0
transport_type_code TransportType.internal = 1

abbrev pub same_transport_type : TransportType → TransportType → Bool
same_transport_type a b = transport_type_code a == transport_type_code b

pub data MessageAuthor : Type 0 where
  user assistant system external : MessageAuthor

abbrev pub message_author_value : MessageAuthor → String
message_author_value MessageAuthor.user = "USER"
message_author_value MessageAuthor.assistant = "ASSISTANT"
message_author_value MessageAuthor.system = "SYSTEM"
message_author_value MessageAuthor.external = "EXTERNAL"

abbrev message_author_code : MessageAuthor → ℕ
message_author_code MessageAuthor.user = 0
message_author_code MessageAuthor.assistant = 1
message_author_code MessageAuthor.system = 2
message_author_code MessageAuthor.external = 3

abbrev pub same_message_author : MessageAuthor → MessageAuthor → Bool
same_message_author a b = message_author_code a == message_author_code b

pub data SourceType : Type 0 where
  user_message assistant_inference system external : SourceType

abbrev pub source_type_value : SourceType → String
source_type_value SourceType.user_message = "USER_MESSAGE"
source_type_value SourceType.assistant_inference = "ASSISTANT_INFERENCE"
source_type_value SourceType.system = "SYSTEM"
source_type_value SourceType.external = "EXTERNAL"

abbrev source_type_code : SourceType → ℕ
source_type_code SourceType.user_message = 0
source_type_code SourceType.assistant_inference = 1
source_type_code SourceType.system = 2
source_type_code SourceType.external = 3

abbrev pub same_source_type : SourceType → SourceType → Bool
same_source_type a b = source_type_code a == source_type_code b

pub data ActorType : Type 0 where
  user assistant system : ActorType

abbrev pub actor_type_value : ActorType → String
actor_type_value ActorType.user = "USER"
actor_type_value ActorType.assistant = "ASSISTANT"
actor_type_value ActorType.system = "SYSTEM"

abbrev actor_type_code : ActorType → ℕ
actor_type_code ActorType.user = 0
actor_type_code ActorType.assistant = 1
actor_type_code ActorType.system = 2

abbrev pub same_actor_type : ActorType → ActorType → Bool
same_actor_type a b = actor_type_code a == actor_type_code b

pub data EventType : Type 0 where
  entity_created entity_updated entity_superseded task_created task_updated : EventType
  task_status_changed task_completed task_cancelled project_created project_updated : EventType
  project_status_changed project_completed project_cancelled goal_created goal_updated : EventType
  goal_status_changed goal_achieved success_criterion_updated decision_created : EventType
  decision_superseded decision_revoked plan_created plan_version_created : EventType
  plan_version_presented plan_version_approved plan_version_rejected : EventType
  plan_version_superseded plan_item_progress_updated strategy_created strategy_accepted : EventType
  plan_goal_linked relation_created relation_removed undo_applied : EventType

abbrev pub event_type_value : EventType → String
event_type_value EventType.entity_created = "ENTITY_CREATED"
event_type_value EventType.entity_updated = "ENTITY_UPDATED"
event_type_value EventType.entity_superseded = "ENTITY_SUPERSEDED"
event_type_value EventType.task_created = "TASK_CREATED"
event_type_value EventType.task_updated = "TASK_UPDATED"
event_type_value EventType.task_status_changed = "TASK_STATUS_CHANGED"
event_type_value EventType.task_completed = "TASK_COMPLETED"
event_type_value EventType.task_cancelled = "TASK_CANCELLED"
event_type_value EventType.project_created = "PROJECT_CREATED"
event_type_value EventType.project_updated = "PROJECT_UPDATED"
event_type_value EventType.project_status_changed = "PROJECT_STATUS_CHANGED"
event_type_value EventType.project_completed = "PROJECT_COMPLETED"
event_type_value EventType.project_cancelled = "PROJECT_CANCELLED"
event_type_value EventType.goal_created = "GOAL_CREATED"
event_type_value EventType.goal_updated = "GOAL_UPDATED"
event_type_value EventType.goal_status_changed = "GOAL_STATUS_CHANGED"
event_type_value EventType.goal_achieved = "GOAL_ACHIEVED"
event_type_value EventType.success_criterion_updated = "SUCCESS_CRITERION_UPDATED"
event_type_value EventType.decision_created = "DECISION_CREATED"
event_type_value EventType.decision_superseded = "DECISION_SUPERSEDED"
event_type_value EventType.decision_revoked = "DECISION_REVOKED"
event_type_value EventType.plan_created = "PLAN_CREATED"
event_type_value EventType.plan_version_created = "PLAN_VERSION_CREATED"
event_type_value EventType.plan_version_presented = "PLAN_VERSION_PRESENTED"
event_type_value EventType.plan_version_approved = "PLAN_VERSION_APPROVED"
event_type_value EventType.plan_version_rejected = "PLAN_VERSION_REJECTED"
event_type_value EventType.plan_version_superseded = "PLAN_VERSION_SUPERSEDED"
event_type_value EventType.plan_item_progress_updated = "PLAN_ITEM_PROGRESS_UPDATED"
event_type_value EventType.strategy_created = "STRATEGY_CREATED"
event_type_value EventType.strategy_accepted = "STRATEGY_ACCEPTED"
event_type_value EventType.plan_goal_linked = "PLAN_GOAL_LINKED"
event_type_value EventType.relation_created = "RELATION_CREATED"
event_type_value EventType.relation_removed = "RELATION_REMOVED"
event_type_value EventType.undo_applied = "UNDO_APPLIED"

abbrev event_type_code : EventType → ℕ
event_type_code EventType.entity_created = 0
event_type_code EventType.entity_updated = 1
event_type_code EventType.entity_superseded = 2
event_type_code EventType.task_created = 3
event_type_code EventType.task_updated = 4
event_type_code EventType.task_status_changed = 5
event_type_code EventType.task_completed = 6
event_type_code EventType.task_cancelled = 7
event_type_code EventType.project_created = 8
event_type_code EventType.project_updated = 9
event_type_code EventType.project_status_changed = 10
event_type_code EventType.project_completed = 11
event_type_code EventType.project_cancelled = 12
event_type_code EventType.goal_created = 13
event_type_code EventType.goal_updated = 14
event_type_code EventType.goal_status_changed = 15
event_type_code EventType.goal_achieved = 16
event_type_code EventType.success_criterion_updated = 17
event_type_code EventType.decision_created = 18
event_type_code EventType.decision_superseded = 19
event_type_code EventType.decision_revoked = 20
event_type_code EventType.plan_created = 21
event_type_code EventType.plan_version_created = 22
event_type_code EventType.plan_version_presented = 23
event_type_code EventType.plan_version_approved = 24
event_type_code EventType.plan_version_rejected = 25
event_type_code EventType.plan_version_superseded = 26
event_type_code EventType.plan_item_progress_updated = 27
event_type_code EventType.strategy_created = 28
event_type_code EventType.strategy_accepted = 29
event_type_code EventType.plan_goal_linked = 30
event_type_code EventType.relation_created = 31
event_type_code EventType.relation_removed = 32
event_type_code EventType.undo_applied = 33

abbrev pub same_event_type : EventType → EventType → Bool
same_event_type a b = event_type_code a == event_type_code b

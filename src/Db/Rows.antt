-- ===== src/Db/Rows.antt =====
-- db/models.py: identities, conversations and provenance. A UUID is a number, a timestamp the
-- number of microseconds of its instant. Columns that the server maintains and no service reads
-- (`created_at`, `updated_at`) are left out unless a query orders by them.
use Prim.Native.String.{String}
use elowyn_assist.Common.{ℕ, Option, List}
use elowyn_assist.Common.Text.{Text}
use elowyn_assist.Common.Json.{Json}
pub use elowyn_assist.Common.Float.{Float, finite, nan}
unfoldable pub use elowyn_assist.Common.Float.{in_unit_interval}
use elowyn_assist.Domain.Enums.{EntityType, MessageAuthor, SourceType, ActorType, EventType}

pub record Entity : Type 0 where
  pub id : ℕ
  pub entity_type : EntityType
  pub superseded_by_entity_id : Option ℕ
  pub removed_at : Option ℕ

pub record Message : Type 0 where
  pub id : ℕ
  pub conversation_id : ℕ
  pub author : MessageAuthor
  pub external_message_id : Option Text
  pub content : Option Text
  pub sent_at : ℕ
  pub created_at : ℕ

pub record Source : Type 0 where
  pub id : ℕ
  pub source_type : SourceType
  pub message_id : Option ℕ
  pub confidence : Option Float
  pub reason_summary : Option Text

pub record SourceDependency : Type 0 where
  pub source_id : ℕ
  pub evidence_source_id : ℕ

pub record Operation : Type 0 where
  pub id : ℕ
  pub actor_type : ActorType
  pub source_id : Option ℕ
  pub description : Option Text

-- One entry of an event's `changes`: `{"field": ..., "old": ..., "new": ...}`. That of a success
-- criterion names the criterion besides.
pub record Change : Type 0 where
  pub field : String
  pub criterion_id : Option ℕ
  pub old : Json
  pub new : Json

pub record Event : Type 0 where
  pub id : ℕ
  pub operation_id : ℕ
  pub event_type : EventType
  pub entity_id : Option ℕ
  pub source_id : Option ℕ
  pub reverses_event_id : Option ℕ
  pub changes : List Change
  pub created_at : ℕ

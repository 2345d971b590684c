-- ===== src/Domain/Enums/Memory.antt =====
-- The enumerations of domain/enums.py that belong to long-term memory: each `StrEnum` as a data type,
-- with its stored value and the equality test that the services use.
use Prim.Native.Nat.{ℕ}
use Prim.Native.String.{String}
use mathlib.Core.Bool.{Bool}
use elowyn_assist.Common.{◌==◌}

pub data MemoryIngestionStatus : Type 0 where
  idle processing failed : MemoryIngestionStatus

abbrev pub memory_ingestion_status_value : MemoryIngestionStatus → String
memory_ingestion_status_value MemoryIngestionStatus.idle = "IDLE"
memory_ingestion_status_value MemoryIngestionStatus.processing = "PROCESSING"
memory_ingestion_status_value MemoryIngestionStatus.failed = "FAILED"

abbrev memory_ingestion_status_code : MemoryIngestionStatus → ℕ
memory_ingestion_status_code MemoryIngestionStatus.idle = 0
memory_ingestion_status_code MemoryIngestionStatus.processing = 1
memory_ingestion_status_code MemoryIngestionStatus.failed = 2

abbrev pub same_memory_ingestion_status : MemoryIngestionStatus → MemoryIngestionStatus → Bool
same_memory_ingestion_status a b = memory_ingestion_status_code a == memory_ingestion_status_code b

pub data MemoryIngestionOutcome : Type 0 where
  ingested ignored_blank : MemoryIngestionOutcome

abbrev pub memory_ingestion_outcome_value : MemoryIngestionOutcome → String
memory_ingestion_outcome_value MemoryIngestionOutcome.ingested = "INGESTED"
memory_ingestion_outcome_value MemoryIngestionOutcome.ignored_blank = "IGNORED_BLANK"

abbrev memory_ingestion_outcome_code : MemoryIngestionOutcome → ℕ
memory_ingestion_outcome_code MemoryIngestionOutcome.ingested = 0
memory_ingestion_outcome_code MemoryIngestionOutcome.ignored_blank = 1

abbrev pub same_memory_ingestion_outcome : MemoryIngestionOutcome → MemoryIngestionOutcome → Bool
same_memory_ingestion_outcome a b =
    memory_ingestion_outcome_code a == memory_ingestion_outcome_code b

pub data MemoryGenerationStatus : Type 0 where
  building active superseded failed : MemoryGenerationStatus

abbrev pub memory_generation_status_value : MemoryGenerationStatus → String
memory_generation_status_value MemoryGenerationStatus.building = "BUILDING"
memory_generation_status_value MemoryGenerationStatus.active = "ACTIVE"
memory_generation_status_value MemoryGenerationStatus.superseded = "SUPERSEDED"
memory_generation_status_value MemoryGenerationStatus.failed = "FAILED"

abbrev memory_generation_status_code : MemoryGenerationStatus → ℕ
memory_generation_status_code MemoryGenerationStatus.building = 0
memory_generation_status_code MemoryGenerationStatus.active = 1
memory_generation_status_code MemoryGenerationStatus.superseded = 2
memory_generation_status_code MemoryGenerationStatus.failed = 3

abbrev pub same_memory_generation_status : MemoryGenerationStatus → MemoryGenerationStatus → Bool
same_memory_generation_status a b =
    memory_generation_status_code a == memory_generation_status_code b

pub data SemanticCategory : Type 0 where
  fact preference context idea episode constraint observation : SemanticCategory

abbrev pub semantic_category_value : SemanticCategory → String
semantic_category_value SemanticCategory.fact = "FACT"
semantic_category_value SemanticCategory.preference = "PREFERENCE"
semantic_category_value SemanticCategory.context = "CONTEXT"
semantic_category_value SemanticCategory.idea = "IDEA"
semantic_category_value SemanticCategory.episode = "EPISODE"
semantic_category_value SemanticCategory.constraint = "CONSTRAINT"
semantic_category_value SemanticCategory.observation = "OBSERVATION"

abbrev semantic_category_code : SemanticCategory → ℕ
semantic_category_code SemanticCategory.fact = 0
semantic_category_code SemanticCategory.preference = 1
semantic_category_code SemanticCategory.context = 2
semantic_category_code SemanticCategory.idea = 3
semantic_category_code SemanticCategory.episode = 4
semantic_category_code SemanticCategory.constraint = 5
semantic_category_code SemanticCategory.observation = 6

abbrev pub same_semantic_category : SemanticCategory → SemanticCategory → Bool
same_semantic_category a b = semantic_category_code a == semantic_category_code b

pub data ObservationStatus : Type 0 where
  candidate active contested superseded : ObservationStatus

abbrev pub observation_status_value : ObservationStatus → String
observation_status_value ObservationStatus.candidate = "CANDIDATE"
observation_status_value ObservationStatus.active = "ACTIVE"
observation_status_value ObservationStatus.contested = "CONTESTED"
observation_status_value ObservationStatus.superseded = "SUPERSEDED"

abbrev observation_status_code : ObservationStatus → ℕ
observation_status_code ObservationStatus.candidate = 0
observation_status_code ObservationStatus.active = 1
observation_status_code ObservationStatus.contested = 2
observation_status_code ObservationStatus.superseded = 3

abbrev pub same_observation_status : ObservationStatus → ObservationStatus → Bool
same_observation_status a b = observation_status_code a == observation_status_code b

pub data EvidenceStance : Type 0 where
  supports contradicts : EvidenceStance

abbrev pub evidence_stance_value : EvidenceStance → String
evidence_stance_value EvidenceStance.supports = "SUPPORTS"
evidence_stance_value EvidenceStance.contradicts = "CONTRADICTS"

abbrev evidence_stance_code : EvidenceStance → ℕ
evidence_stance_code EvidenceStance.supports = 0
evidence_stance_code EvidenceStance.contradicts = 1

abbrev pub same_evidence_stance : EvidenceStance → EvidenceStance → Bool
same_evidence_stance a b = evidence_stance_code a == evidence_stance_code b

pub data MemoryPageType : Type 0 where
  user_profile communication_preferences project topic : MemoryPageType

abbrev pub memory_page_type_value : MemoryPageType → String
memory_page_type_value MemoryPageType.user_profile = "USER_PROFILE"
memory_page_type_value MemoryPageType.communication_preferences = "COMMUNICATION_PREFERENCES"
memory_page_type_value MemoryPageType.project = "PROJECT"
memory_page_type_value MemoryPageType.topic = "TOPIC"

abbrev memory_page_type_code : MemoryPageType → ℕ
memory_page_type_code MemoryPageType.user_profile = 0
memory_page_type_code MemoryPageType.communication_preferences = 1
memory_page_type_code MemoryPageType.project = 2
memory_page_type_code MemoryPageType.topic = 3

abbrev pub same_memory_page_type : MemoryPageType → MemoryPageType → Bool
same_memory_page_type a b = memory_page_type_code a == memory_page_type_code b

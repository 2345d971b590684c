-- ===== src/WorldState.antt =====
-- services/world_state.py: the validated write boundary of the canonical world state.
pub mod Guards
pub mod Events
pub mod Hierarchy
pub mod Dependencies
pub mod Fields
pub mod Completion
pub mod Examine
pub mod Tasks
pub mod Projects
pub mod Goals
pub mod Criteria
pub mod Decisions
pub mod Links
pub mod Relations
pub mod Undo
pub mod Service

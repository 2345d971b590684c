-- ===== src/Planning.antt =====
-- services/planning.py: the write boundary of planning. `Guards` has what the operations check,
-- `Graph` the test for cycles, and the other children the operations and what they keep.
pub mod Guards
pub mod Graph
pub mod Rows
pub mod Lifecycle
pub mod Plans
pub mod Basis
pub mod Candidates
pub mod Presentation
pub mod Rejection
pub mod Strategy
pub mod Approval
pub mod Reactivation
pub mod Progress
pub mod Service

-- ===== src/Domain.antt =====
-- elowyn/domain: the vocabulary of the system. Enumerations, errors and validated commands.
pub mod Enums
pub mod Errors
pub mod PlanningCommands
pub mod Commands

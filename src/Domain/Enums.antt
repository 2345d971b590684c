-- ===== src/Domain/Enums.antt =====
-- domain/enums.py.
mod World
mod Memory
mod Planning
mod Record
pub use World.*
pub use Memory.*
pub use Planning.*
pub use Record.*

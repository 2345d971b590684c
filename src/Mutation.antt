-- ===== src/Mutation.antt =====
-- services/domain_mutation.py: the service as a state and exception monad, `atomic_domain_action`,
-- and the primitives that record operations, events and inference sources.
mod Monad
mod Primitives
pub mod Frame
pub mod Log
unfoldable pub use Monad.*
unfoldable pub use Primitives.*

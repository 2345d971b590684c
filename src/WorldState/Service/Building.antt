-- ===== src/WorldState/Service/Building.antt =====
-- Notation for actions of the service together with how they are built.
pub mod Tasks
pub mod Projects
pub mod Goals
pub mod Criteria
pub mod Decisions
pub mod Relations
pub mod Undo
use elowyn_assist.WorldState.Service.Built.{Building, join_of}
pub use elowyn_assist.WorldState.Service.Built.{
  Built, Building, atomically, reading, returning, writing, operating, recording, inferring,
  entering, refusing, taking_id, taking_time, reversing,
}

infixl 5 ◌>>=◌ ◌>>◌
abbrev pub ◌>>=◌ : {A : Type 0} {B : Type 0} → Building A → (A → Building B) → Building B
m >>= f = join_of m f

abbrev pub ◌>>◌ : {A : Type 0} {B : Type 0} → Building A → Building B → Building B
m >> k = join_of m λ _. k

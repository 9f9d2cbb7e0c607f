-- ===== src/Arbitrate.antt =====
-- Server-side commit arbitration: packages/core/src/server/arbitrate.ts. The state goes in and the
-- next state comes out, as in the source.
mod State
mod Commit
mod Safety
unfoldable pub use State.*
unfoldable pub use Commit.*
unfoldable pub use Safety.*
pub mod WellFormed
pub mod Extends
pub mod Branches
pub mod Inversion
pub mod Clocks
pub mod Content
pub mod Renames
pub mod Gate
pub mod Fast
pub mod Served

-- ===== src/Authority.antt =====
-- The authority: packages/core/src/inmemory-server.ts around the arbitration of server/arbitrate.ts.
mod Messages
mod State
mod Hello
mod Content
mod Commits
mod Restores
mod Session
unfoldable pub use Messages.*
unfoldable pub use State.*
unfoldable pub use Hello.*
unfoldable pub use Content.*
unfoldable pub use Commits.*
unfoldable pub use Restores.*
unfoldable pub use Session.*
pub mod Changes
pub mod Steps
pub mod Numbers
pub mod Blobs
pub mod Follow
pub mod History
pub mod CatchUp
pub mod Delta
pub mod Restoring

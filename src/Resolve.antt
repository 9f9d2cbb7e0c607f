-- ===== src/Resolve.antt =====
-- Three-way reconciliation: packages/core/src/resolve.ts.
mod Ops
mod Order
mod Contested
mod Moves
mod Plan
unfoldable pub use Ops.*
unfoldable pub use Order.*
unfoldable pub use Contested.*
unfoldable pub use Moves.*
unfoldable pub use Plan.*
pub mod Agreement
pub mod Preserves
pub mod PullOrder
pub mod Hoist
pub mod Sorted

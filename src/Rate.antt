-- ===== src/Rate.antt =====
-- any_worker/include/any_worker/Rate.hpp and any_worker/src/Rate.cpp: the class, in `Defs`, and
-- what its methods do.
pub mod Timespec
pub mod Options
mod Defs
unfoldable pub use Defs.*
pub mod Schedule
pub mod Changes
pub mod Counters
pub mod Messages
mod Examples

-- ===== src/Rate/Timespec.antt =====
-- `struct timespec` and the two static functions of any_worker/src/Rate.cpp on it.
pub mod Laws
mod Defs
unfoldable pub use Defs.*

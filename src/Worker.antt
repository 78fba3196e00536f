-- ===== src/Worker.antt =====
-- any_worker/include/any_worker/Worker.hpp and any_worker/src/Worker.cpp: the options, the class in
-- `Defs`, and what its methods and its thread do.
pub mod Options
mod Defs
unfoldable pub use Defs.*
pub mod Stop
pub mod Restart
pub mod Reach
pub mod Loop
pub mod Shared
mod Examples

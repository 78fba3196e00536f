-- ===== src/Nodewrap.antt =====
-- any_node/include/any_node/Nodewrap.hpp: the class in `Defs`, and what `execute` does when signals
-- and calls of `stop` come between its phases.
mod Defs
unfoldable pub use Defs.*
pub mod Lifecycle
pub mod Stopping
pub mod Life
pub mod Wait
mod Examples

-- ===== src/Publisher.antt =====
-- any_node/include/any_node/ThreadedPublisher.hpp: the class and its steps in `Defs`, and what holds
-- after any interleaving of them.
mod Defs
unfoldable pub use Defs.*
pub mod Events
pub mod Order
mod Induction
pub mod Wakeup
pub mod Ending
mod Running
pub mod Draining
mod Examples
